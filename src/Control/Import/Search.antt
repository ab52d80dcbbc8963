-- ===== src/Control/Import/Search.antt =====
-- `_reachable` (backend/app/core/flow/zip_import.py) decides whether there is a walk.
use python_flow_hub.Prelude.{
  ℕ, zero, suc, ◌+◌, ◌≤◌, String, ◌≡◌, refl, true, false, ◌||◌, Bool, Option, some, none, List, [],
  ◌∷◌, arith, contains, length, eq_iff, eq_refl, Bool-cases, inl, inr, ◌⊎◌, length-le_of_count,
  contains_of_count, count_of_contains, ◌==◌,
}
use python_flow_hub.Flow.Graph.{Edge, successors}
use python_flow_hub.Flow.Topology.Order.{IsSetOrder}
use python_flow_hub.Flow.Entry.Search.{
  Reach, here, step, Inv, Inv-start, Inv-seen, complete_of_Inv, open_edges, open_edges-cons,
  open_edges-le,
}
use python_flow_hub.Control.Import.{push_until, turn, search, reachable}

-- A target that is not pushed is not there, and the rest is pushed.
push_until-cases :
    (target : String) (stack ns : List String)
    → ((push_until target stack ns ≡ none) × (contains target ns ≡ true))
      ⊎ ((pushed : List String) × (push_until target stack ns ≡ some pushed)
          × (contains target ns ≡ false)
          × (length pushed ≡ length stack + length ns)
          × ((v : String) → contains v pushed ≡ (contains v stack || contains v ns)))
unfolding push_until
push_until-cases target stack [] = inr (stack, refl, refl, omega arith, λ v. ground arith)
push_until-cases target stack (n ∷ ns) = elim (Bool-cases (n == target)) [
  | inl hit ↦ inl (ground arith, ground arith)
  | inr miss ↦ elim (push_until-cases target (n ∷ stack) ns) [
    | inl (met, there) ↦ inl (ground arith, ground arith)
    | inr (pushed, ran, absent, counted, same) ↦
        inr (pushed, ground arith, ground arith, omega arith, λ v. ground (arith, same v))
  ]
]

contains-set_of :
    (set_of : List String → List String)
    → IsSetOrder set_of
    → (v : String) (xs : List String) → contains v (set_of xs) ≡ contains v xs
contains-set_of set_of walks v xs =
    ground (arith, walks xs v, contains_of_count v (set_of xs), count_of_contains v (set_of xs))

length-set_of :
    (set_of : List String → List String)
    → IsSetOrder set_of
    → (xs : List String) → length (set_of xs) ≤ length xs
length-set_of set_of walks xs =
    length-le_of_count (set_of xs) xs (λ v. ground (arith, walks xs v, count_of_contains v xs))

-- The answer of the search, and what it means.
abbrev pub Decides : List Edge → (start target : String) → Option Bool → Type 0
Decides edges start target answer =
    ((answer ≡ some true) × Reach edges start target)
    ⊎ ((answer ≡ some false) × ¬ Reach edges start target)

module _ (set_of : List String → List String) (walks : IsSetOrder set_of) (edges : List Edge)
    (start target : String) where
  abbrev adj : String → List String
  adj n = set_of (successors edges n)

  -- A turn at a node that was not seen.
  Inv-pushed :
      (cur : String) (stack seen pushed : List String)
      → Inv edges start (cur ∷ stack) seen
      → ((v : String) → contains v pushed ≡ (contains v stack || contains v (adj cur)))
      → Inv edges start pushed (cur ∷ seen)
  Inv-pushed cur stack seen pushed inv same = record {
    found = ground (arith, inv.found, same start);
    sound = λ v h. elim (Bool-cases (contains v seen || contains v (cur ∷ stack))) [
      | inl old ↦ inv.sound v old
      | inr new ↦
          step (inv.sound cur (ground (arith, eq_refl cur)))
            (ground (arith, same v, contains-set_of set_of walks v (successors edges cur)))
    ];
    closed = λ u v h s. ground (
      arith,
      inv.closed u v,
      same v,
      contains-set_of set_of walks v (successors edges cur),
      eq_iff cur u,
    );
  }

  search-Decides :
      (stack seen : List String) (fuel : ℕ)
      → Inv edges start stack seen
      → (contains target seen || contains target stack) ≡ false
      → length stack + open_edges edges seen ≤ fuel
      → Decides edges start target (search adj target stack seen fuel)
  unfolding search turn
  search-Decides [] seen fuel inv avoids h =
      inr (refl, λ w. ground (arith, complete_of_Inv edges start seen inv target w))
  search-Decides (cur ∷ stack) seen zero inv avoids h = absurd (omega arith)
  search-Decides (cur ∷ stack) seen (suc fuel) inv avoids h =
      elim (Bool-cases (contains cur seen)) [
        | inl old ↦
            rw (old, search)
              (search-Decides stack seen fuel (Inv-seen edges start cur stack seen old inv)
                (ground arith) (omega arith))
        | inr new ↦ elim (push_until-cases target stack (adj cur)) [
          | inl (met, there) ↦ inl (
            rw (new, met, search) refl,
            step (inv.sound cur (ground (arith, eq_refl cur)))
                (ground (arith, contains-set_of set_of walks target (successors edges cur))),
          )
          | inr (pushed, ran, absent, counted, same) ↦
              rw (new, ran, search)
                (search-Decides pushed (cur ∷ seen) fuel (Inv-pushed cur stack seen pushed inv same)
                  (ground (arith, same target))
                  (omega (
                    arith,
                    counted,
                    open_edges-cons edges seen cur new,
                    length-set_of set_of walks (successors edges cur),
                  )))
        ]
      ]

  -- The fuel is enough, and the answer is right.
  pub reachable-Decides :
      Decides edges start target (reachable adj start target (suc (length edges)))
  unfolding reachable
  reachable-Decides = elim (Bool-cases (start == target)) [
    | inl same ↦ inl (rw same refl, rw (← (eq_iff start target).0 same) here)
    | inr other ↦ rw other (
        search-Decides (start ∷ []) [] (suc (length edges)) (Inv-start edges start) (ground arith)
          (omega (arith, open_edges-le edges [])))
  ]
