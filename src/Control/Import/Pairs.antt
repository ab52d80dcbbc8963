-- ===== src/Control/Import/Pairs.antt =====
-- The candidates of `infer_data_flow_edges` (backend/app/core/flow/zip_import.py): the pairs of scripts
-- that share a key.
use mathlib.Core.List.{Memᴰ}
use mathlib.Core.List.Memᴰ.{append_cases, cases_cons, not-nil, append_left, append_right}
use python_flow_hub.Prelude.{
  String, ◌≡◌, ◌↔◌, refl, subst, false, Bool, List, [], ◌∷◌, Dict, Bool-cases, inl, inr, ◌==◌,
  if◌then◌else◌,
}
use python_flow_hub.Control.Import.{
  Candidate, insert_sorted, sort, text_before, matched_of, candidate, candidates_from, candidates,
}
use python_flow_hub.Control.Import.Scan.{Ast}

module _ {A : Type 0} (before : A → A → Bool) where
  mem_of_insert_sorted :
      (x y : A) (ys : List A) → Memᴰ x (insert_sorted before y ys) → Memᴰ x (y ∷ ys)
  mem_of_insert_sorted x y [] m = m
  mem_of_insert_sorted x y (z ∷ zs) m = elim (Bool-cases (before z y)) [
    | inl later ↦ elim (cases_cons (rw later at m)) [
      | inl same ↦ Memᴰ.tail (Memᴰ.head same)
      | inr m' ↦ elim (cases_cons (mem_of_insert_sorted x y zs m')) [
        | inl same ↦ Memᴰ.head same
        | inr m'' ↦ Memᴰ.tail (Memᴰ.tail m'')
      ]
    ]
    | inr now ↦ rw now at m
  ]

  insert_sorted_of_mem :
      (x y : A) (ys : List A) → Memᴰ x (y ∷ ys) → Memᴰ x (insert_sorted before y ys)
  insert_sorted_of_mem x y [] m = m
  insert_sorted_of_mem x y (z ∷ zs) m = elim (Bool-cases (before z y)) [
    | inl later ↦ rw later (elim (cases_cons m) [
      | inl same ↦ Memᴰ.tail (insert_sorted_of_mem x y zs (Memᴰ.head same))
      | inr m' ↦ elim (cases_cons m') [
        | inl same ↦ Memᴰ.head same
        | inr m'' ↦ Memᴰ.tail (insert_sorted_of_mem x y zs (Memᴰ.tail m''))
      ]
    ])
    | inr now ↦ rw now m
  ]

  mem_of_sort : (x : A) (xs : List A) → Memᴰ x (sort before xs) → Memᴰ x xs
  mem_of_sort x [] m = m
  mem_of_sort x (y ∷ ys) m = elim (cases_cons (mem_of_insert_sorted x y (sort before ys) m)) [
    | inl same ↦ Memᴰ.head same
    | inr m' ↦ Memᴰ.tail (mem_of_sort x ys m')
  ]

  sort_of_mem : (x : A) (xs : List A) → Memᴰ x xs → Memᴰ x (sort before xs)
  sort_of_mem x [] m = m
  sort_of_mem x (y ∷ ys) m =
      insert_sorted_of_mem x y (sort before ys) (elim (cases_cons m) [
        | inl same ↦ Memᴰ.head same
        | inr m' ↦ Memᴰ.tail (sort_of_mem x ys m')
      ])

  pub mem-sort : (x : A) (xs : List A) → Memᴰ x (sort before xs) ↔ Memᴰ x xs
  mem-sort x xs = (mem_of_sort x xs, sort_of_mem x xs)

module _ (ast : Ast) (scripts : Dict String) where
  abbrev pub pair : (src dst : String) → Candidate
  pair src dst = record {
    src_path = src;
    dst_path = dst;
    matched = sort text_before (matched_of ast scripts src dst);
  }

  candidate-pair :
      (src dst k : String) (ms : List String)
      → Memᴰ k ms
      → Memᴰ
          (record { src_path = src; dst_path = dst; matched = sort text_before ms })
          (candidate ast scripts src dst ms)
  candidate-pair src dst k [] m = absurd (not-nil m)
  candidate-pair src dst k (x ∷ ms) m = Memᴰ.head refl

  candidate_sound :
      (src dst : String) (ms : List String) (c : Candidate)
      → Memᴰ c (candidate ast scripts src dst ms)
      → (k : String) × Memᴰ k ms
        × (c ≡ (record { src_path = src; dst_path = dst; matched = sort text_before ms }))
  candidate_sound src dst [] c m = absurd (not-nil m)
  candidate_sound src dst (x ∷ ms) c m = elim (cases_cons m) [
    | inl same ↦ (x, Memᴰ.head refl, same)
    | inr later ↦ absurd (not-nil later)
  ]

  candidates_from-pair :
      (src dst k : String) (paths : List String)
      → Memᴰ dst paths
      → (src == dst) ≡ false
      → Memᴰ k (matched_of ast scripts src dst)
      → Memᴰ (pair src dst) (candidates_from ast scripts src paths)
  unfolding candidates_from
  candidates_from-pair src dst k [] m apart mk = absurd (not-nil m)
  candidates_from-pair src dst k (p ∷ paths) m apart mk = elim (cases_cons m) [
    | inl same ↦ append_left (candidates_from ast scripts src paths) (
        subst
          (λ (q : String).
            Memᴰ (pair src dst)
              (if src == q then [] else candidate ast scripts src q (matched_of ast scripts src q)))
          same (rw apart (candidate-pair src dst k (matched_of ast scripts src dst) mk)))
    | inr later ↦ append_right _ (candidates_from-pair src dst k paths later apart mk)
  ]

  candidates_from_sound :
      (src : String) (paths : List String) (c : Candidate)
      → Memᴰ c (candidates_from ast scripts src paths)
      → (dst k : String) × Memᴰ dst paths
        × ((src == dst) ≡ false)
        × Memᴰ k (matched_of ast scripts src dst)
        × (c ≡ pair src dst)
  unfolding candidates_from
  candidates_from_sound src [] c m = absurd (not-nil m)
  candidates_from_sound src (p ∷ paths) c m =
      let here =
        if src == p then [] else candidate ast scripts src p (matched_of ast scripts src p) in
      elim (append_cases here m) [
        | inl first ↦ elim (Bool-cases (src == p)) [
          | inl same ↦ absurd (not-nil (rw same at first))
          | inr apart ↦
              let (k, mk, eq) =
                candidate_sound src p (matched_of ast scripts src p) c (rw apart at first) in
              (p, k, Memᴰ.head refl, apart, mk, eq)
        ]
        | inr later ↦
            let (dst, k, md, apart, mk, eq) = candidates_from_sound src paths c later in
            (dst, k, Memᴰ.tail md, apart, mk, eq)
      ]

  pub candidates-pair :
      (src dst k : String) (srcs paths : List String)
      → Memᴰ src srcs
      → Memᴰ dst paths
      → (src == dst) ≡ false
      → Memᴰ k (matched_of ast scripts src dst)
      → Memᴰ (pair src dst) (candidates ast scripts srcs paths)
  unfolding candidates
  candidates-pair src dst k [] paths ms md apart mk = absurd (not-nil ms)
  candidates-pair src dst k (s ∷ srcs) paths ms md apart mk = elim (cases_cons ms) [
    | inl same ↦ append_left (candidates ast scripts srcs paths) (
        subst (λ (q : String). Memᴰ (pair src dst) (candidates_from ast scripts q paths)) same
          (candidates_from-pair src dst k paths md apart mk))
    | inr later ↦ append_right _ (candidates-pair src dst k srcs paths later md apart mk)
  ]

  pub candidates_sound :
      (srcs paths : List String) (c : Candidate)
      → Memᴰ c (candidates ast scripts srcs paths)
      → (src dst k : String) × Memᴰ src srcs
        × Memᴰ dst paths
        × ((src == dst) ≡ false)
        × Memᴰ k (matched_of ast scripts src dst)
        × (c ≡ pair src dst)
  unfolding candidates
  candidates_sound [] paths c m = absurd (not-nil m)
  candidates_sound (s ∷ srcs) paths c m =
      elim (append_cases (candidates_from ast scripts s paths) m) [
        | inl first ↦
            let (dst, k, md, apart, mk, eq) = candidates_from_sound s paths c first in
            (s, dst, k, Memᴰ.head refl, md, apart, mk, eq)
        | inr later ↦
            let (src, dst, k, ms, md, apart, mk, eq) = candidates_sound srcs paths c later in
            (src, dst, k, Memᴰ.tail ms, md, apart, mk, eq)
      ]
