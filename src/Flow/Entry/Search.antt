-- ===== src/Flow/Entry/Search.antt =====
-- The depth-first search of `select_entry_subgraph` finds what the entry reaches.
use python_flow_hub.Prelude.{
  ℕ, zero, suc, ◌+◌, ◌≤◌, String, ◌≡◌, refl, true, false, ◌||◌, ◌&&◌, not, some, List, [], ◌∷◌,
  arith, contains, length, if◌then◌else◌, eq_iff, eq_refl, Bool-cases, inl, inr,
}
use python_flow_hub.Flow.Graph.{Edge, successors}
use python_flow_hub.Flow.Entry.{push_all, explore}

-- A walk along the edges.
pub data Reach (edges : List Edge) (a : String) : String → Type 0 where
  here : Reach edges a a
  step : {b c : String} → Reach edges a b → contains c (successors edges b) ≡ true → Reach edges a c

-- The edges that start outside a set.
unfoldable pub open_edges : List Edge → List String → ℕ
open_edges [] r = 0
open_edges (e ∷ es) r = (if contains e.source_node_id r then 0 else 1) + open_edges es r

pub open_edges-cons :
    (es : List Edge) (r : List String) (u : String)
    → contains u r ≡ false
    → open_edges es (u ∷ r) + length (successors es u) ≡ open_edges es r
unfolding open_edges successors
open_edges-cons [] r u h = omega arith
open_edges-cons (e ∷ es) r u h =
    ground (arith, open_edges-cons es r u, eq_iff u e.source_node_id, eq_iff e.source_node_id u)

pub open_edges-le : (es : List Edge) (r : List String) → open_edges es r ≤ length es
unfolding open_edges
open_edges-le [] r = omega arith
open_edges-le (e ∷ es) r = ground (arith, open_edges-le es r)

length-push_all :
    (r stack ns : List String) → length (push_all r stack ns) ≤ length stack + length ns
unfolding push_all
length-push_all r stack [] = omega arith
length-push_all r stack (n ∷ ns) =
    ground (arith, length-push_all r stack ns, length-push_all r (n ∷ stack) ns)

contains-push_all :
    (v : String) (r stack ns : List String)
    → contains v (push_all r stack ns) ≡ (contains v stack || (contains v ns && not (contains v r)))
unfolding push_all
contains-push_all v r stack [] = ground arith
contains-push_all v r stack (n ∷ ns) =
    ground (arith, contains-push_all v r stack ns, contains-push_all v r (n ∷ stack) ns, eq_iff n v)

module _ (edges : List Edge) (entry : String) where
  pub record Inv (stack reachable : List String) : Type 0 where
    pub found : (contains entry reachable || contains entry stack) ≡ true
    pub sound :
        (v : String) → (contains v reachable || contains v stack) ≡ true → Reach edges entry v
    pub closed :
        (u v : String)
        → contains u reachable ≡ true
        → contains v (successors edges u) ≡ true
        → (contains v reachable || contains v stack) ≡ true

  pub Inv-start : Inv (entry ∷ []) []
  Inv-start = record {
    found = ground (arith, eq_refl entry);
    sound = λ v h. rw (← (eq_iff entry v).0 (ground arith)) here;
    closed = λ u v h s. absurd (cc);
  }

  pub Inv-seen :
      (cur : String) (stack reachable : List String)
      → contains cur reachable ≡ true
      → Inv (cur ∷ stack) reachable
      → Inv stack reachable
  Inv-seen cur stack reachable seen inv = record {
    found = ground (arith, inv.found, eq_iff cur entry);
    sound = λ v h. inv.sound v (ground arith);
    closed = λ u v h s. ground (arith, inv.closed u v, eq_iff cur v);
  }

  Inv-new :
      (cur : String) (stack reachable : List String)
      → Inv (cur ∷ stack) reachable
      → Inv (push_all (cur ∷ reachable) stack (successors edges cur)) (cur ∷ reachable)
  Inv-new cur stack reachable inv = record {
    found =
        ground (
          arith,
          inv.found,
          contains-push_all entry (cur ∷ reachable) stack (successors edges cur),
        );
    sound = λ v h. elim (Bool-cases (contains v reachable || contains v (cur ∷ stack))) [
      | inl old ↦ inv.sound v old
      | inr new ↦
          step (inv.sound cur (ground (arith, eq_refl cur)))
            (ground (arith, contains-push_all v (cur ∷ reachable) stack (successors edges cur)))
    ];
    closed = λ u v h s. ground (
      arith,
      inv.closed u v,
      contains-push_all v (cur ∷ reachable) stack (successors edges cur),
      eq_iff cur u,
    );
  }

  -- What the loop returns: exactly the nodes that the entry reaches.
  pub record Found (reachable : List String) : Type 0 where
    pub sound : (v : String) → contains v reachable ≡ true → Reach edges entry v
    pub complete : (v : String) → Reach edges entry v → contains v reachable ≡ true

  pub complete_of_Inv :
      (reachable : List String)
      → Inv [] reachable
      → (v : String) → Reach edges entry v
      → contains v reachable ≡ true
  complete_of_Inv reachable inv v here = ground (arith, inv.found)
  complete_of_Inv reachable inv v (step {b} w s) =
      ground (arith, inv.closed b v (complete_of_Inv reachable inv b w) s)

  explore_finds :
      (stack reachable : List String) (fuel : ℕ)
      → Inv stack reachable
      → length stack + open_edges edges reachable ≤ fuel
      → (final : List String) × (explore (successors edges) stack reachable fuel ≡ some final)
        × Found final
  unfolding explore
  explore_finds [] reachable fuel inv h = (
    reachable,
    refl,
    record { sound = λ v c. inv.sound v (ground arith); complete = complete_of_Inv reachable inv },
  )
  explore_finds (cur ∷ stack) reachable zero inv h = absurd (omega arith)
  explore_finds (cur ∷ stack) reachable (suc fuel) inv h =
      elim (Bool-cases (contains cur reachable)) [
        | inl seen ↦
            rw (seen, explore)
              (explore_finds stack reachable fuel (Inv-seen cur stack reachable seen inv)
                (omega arith))
        | inr new ↦
            rw (new, explore)
              (explore_finds (push_all (cur ∷ reachable) stack (successors edges cur))
                (cur ∷ reachable) fuel (Inv-new cur stack reachable inv)
                (omega (
                  arith,
                  open_edges-cons edges reachable cur new,
                  length-push_all (cur ∷ reachable) stack (successors edges cur),
                )))
      ]

  pub explore-entry :
      (final : List String) × (explore (successors edges) (entry ∷ []) [] (suc (length edges))
        ≡ some final)
      × Found final
  explore-entry =
      explore_finds (entry ∷ []) [] (suc (length edges)) Inv-start
        (omega (arith, open_edges-le edges []))
