-- ===== src/Control/Import/Greedy.antt =====
-- The edges that `infer_data_flow_edges` (backend/app/core/flow/zip_import.py) has chosen: their table,
-- and a ranking of them with one more edge that closes no cycle.
use mathlib.Core.List.{Memᴰ, map-append}
use mathlib.Core.List.Memᴰ.{append_cases, cases_cons, not-nil}
use python_flow_hub.Prelude.{
  ℕ, suc, ◌+◌, ◌<◌, String, ◌≡◌, refl, sym, ◌∙◌, ap, subst, true, false, List, [], ◌∷◌, ◌++◌, map,
  arith, contains, contains-append, length, eq_iff, Bool-cases, inl, inr, ◌==◌, if◌then◌else◌,
}
use python_flow_hub.Flow.Graph.{Edge, successors}
use python_flow_hub.Flow.Topology.Order.{IsRanked}
use python_flow_hub.Flow.Entry.Search.{Reach, here, step, explore-entry}
use python_flow_hub.Control.Import.{Inferred, as_edge, Chosen, choose}

abbrev pub graph : Chosen → List Edge
graph c = map as_edge c.edges

pub successors-append :
    (es : List Edge) (e : Edge) (n : String)
    → successors (es ++ e ∷ []) n ≡ (
        if e.source_node_id == n then successors es n ++ e.target_node_id ∷ [] else successors es n)
unfolding successors
successors-append [] e n = ground arith
successors-append (x ∷ es) e n = ground (arith, successors-append es e n)

pub length-map : (es : List Inferred) → length (map as_edge es) ≡ length es
length-map [] = refl
length-map (e ∷ es) = omega (arith, length-map es)

-- More edges, more walks.
pub Reach-append :
    (es : List Edge) (e : Edge) (a b : String) → Reach es a b → Reach (es ++ e ∷ []) a b
Reach-append es e a b here = here
Reach-append es e a b (step {b = m} w s) = step (Reach-append es e a m w) (
    ground (
      arith,
      successors-append es e m,
      contains-append b (successors es m) (e.target_node_id ∷ []),
    ))

mem-successors :
    (es : List Edge) (e : Edge)
    → Memᴰ e es
    → contains e.target_node_id (successors es e.source_node_id) ≡ true
unfolding successors
mem-successors [] e m = absurd (not-nil m)
mem-successors (x ∷ es) e m = elim (cases_cons m) [
  | inl same ↦ ground (
    arith,
    ap (λ (y : Edge). y.source_node_id) same,
    ap (λ (y : Edge). y.target_node_id) same,
    eq_iff x.source_node_id e.source_node_id,
    eq_iff x.target_node_id e.target_node_id,
  )
  | inr later ↦ ground (arith, mem-successors es e later)
]

-- The table holds the edges.
abbrev pub Tabled : Chosen → Type 0
Tabled c = (n : String) → c.adj n ≡ successors (graph c) n

abbrev pub inferred : String → String → List String → Inferred
inferred s t matched = record { source_node_id = s; target_node_id = t; matched_keys = matched }

pub choose-graph :
    (c : Chosen) (s t : String) (matched : List String)
    → graph (choose c s t matched) ≡ graph c ++ as_edge (inferred s t matched) ∷ []
unfolding choose
choose-graph c s t matched = map-append as_edge c.edges (inferred s t matched ∷ [])

pub choose-Tabled :
    (c : Chosen) (s t : String) (matched : List String) → Tabled c → Tabled (choose c s t matched)
unfolding choose
choose-Tabled c s t matched tabled n =
    ap (λ (xs : List String). if s == n then xs ++ t ∷ [] else xs) (tabled n)
    ∙ (sym (successors-append (graph c) (as_edge (inferred s t matched)) n)
        ∙ ap (λ (es : List Edge). successors es n) (sym (choose-graph c s t matched)))

-- A ranking of the edges so far gives one of them with one more edge that closes no cycle.
abbrev raised_above : (String → ℕ) → String → List String → String → ℕ
raised_above rank s reached v = rank v + (if contains v reached then suc (rank s) else 0)

pub raised_above-IsRanked :
    (es : List Edge) (e : Edge) (rank : String → ℕ)
    → IsRanked rank es
    → ¬ Reach es e.target_node_id e.source_node_id
    → (rank' : String → ℕ) × IsRanked rank' (es ++ e ∷ [])
raised_above-IsRanked es e rank ranked acyclic =
    let (reached, ran, found) = explore-entry es e.target_node_id in
    let s = e.source_node_id in
    let t = e.target_node_id in
    let not_s : contains s reached ≡ false = elim (Bool-cases (contains s reached)) [
      | inl there ↦ absurd (acyclic (found.sound s there))
      | inr absent ↦ absent
    ] in
    let at_t : contains t reached ≡ true = found.complete t here in
    (
      raised_above rank s reached,
      λ x m. elim (append_cases es m) [
        | inl old ↦ elim (Bool-cases (contains x.source_node_id reached)) [
          | inl from ↦ ground (
            arith,
            ranked x old,
            found.complete x.target_node_id
                (step (found.sound x.source_node_id from) (mem-successors es x old)),
          )
          | inr not_from ↦ ground (arith, ranked x old)
        ]
        | inr new ↦ elim (cases_cons new) [
          | inl same ↦
              subst
                (λ (y : Edge).
                  raised_above rank s reached y.source_node_id
                  < raised_above rank s reached y.target_node_id)
                (sym same) (rw (not_s, at_t) (omega arith))
          | inr later ↦ absurd (not-nil later)
        ]
      ],
    )
