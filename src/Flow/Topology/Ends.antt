-- ===== src/Flow/Topology/Ends.antt =====
-- `topological_order` reads every edge and drains its queue within one round for each node.
use python_flow_hub.Prelude.{
  ℕ, zero, suc, ◌+◌, ◌≤◌, String, ◌≡◌, refl, Bool, some, List, [], ◌∷◌, ◌++◌, arith, count,
  count-append, count_of_contains, contains_of_count, length, length-append, length-le_of_count,
  eqb, select, if◌then◌else◌, eq_iff, ◌==◌, ok, Bool-cases, inl, inr,
}
use python_flow_hub.Flow.Graph.{Edge, successors, waiting, AllKnown}
use python_flow_hub.Flow.Topology.{Tables, drain, build, no_tables, roots}
use python_flow_hub.Flow.Topology.Degrees.{build-adj, build-indegree, build-AllKnown}
use python_flow_hub.Flow.Topology.Loop.{Inv, Inv-step, next}

module _ (ids : List String) (edges : List Edge) where
  abbrev pub Drained : List String → Type 0
  Drained final = (indegree : String → ℕ) × Inv ids edges [] indegree final

  -- What is ordered or queued is a node, and only once.
  total_le :
      (queue : List String) (indegree : String → ℕ) (order : List String)
      → Inv ids edges queue indegree order
      → length order + length queue ≤ length ids
  total_le queue indegree order inv =
      let le =
        length-le_of_count (order ++ queue) ids (λ v.
          ground (arith, inv.counted v, count-append v order queue, count_of_contains v ids)) in
      omega (arith, le, length-append order queue)

  drain_total :
      (adj : String → List String) (known : AllKnown ids edges)
      (same : (u : String) → adj u ≡ successors edges u) (queue : List String)
      (indegree : String → ℕ) (order : List String) (fuel : ℕ)
      → Inv ids edges queue indegree order
      → length ids ≤ length order + fuel
      → (final : List String) × (drain adj queue indegree order fuel ≡ some final) × Drained final
  unfolding drain
  drain_total adj known same [] indegree order fuel inv h = (order, refl, (indegree, inv))
  drain_total adj known same (cur ∷ queue) indegree order zero inv h =
      absurd (omega (arith, total_le (cur ∷ queue) indegree order inv))
  drain_total adj known same (cur ∷ queue) indegree order (suc fuel) inv h =
      rw (same cur, drain)
        (drain_total adj known same (next ids edges known cur queue indegree order inv).queue
          (next ids edges known cur queue indegree order inv).indegree (order ++ cur ∷ []) fuel
          (Inv-step ids edges known cur queue indegree order inv)
          (omega (arith, length-append order (cur ∷ []))))

pub count-select :
    (p : String → Bool) (v : String) (xs : List String)
    → count v (select p xs) ≡ (if p v then count v xs else 0)
count-select p v [] = ground arith
count-select p v (x ∷ xs) = elim (Bool-cases (x == v)) [
  | inl same ↦ rw ((eq_iff x v).0 same) (ground (arith, count-select p v xs))
  | inr other ↦ ground (arith, count-select p v xs)
]

module _ (ids : List String) (edges : List Edge) (once : (v : String) → count v ids ≤ 1)
    (t : Tables) (read : build ids no_tables edges ≡ ok t) where
  degree : (v : String) → t.indegree v ≡ waiting edges [] v
  degree v = omega (arith, build-indegree ids no_tables t edges v read)

  Inv-roots : Inv ids edges (roots ids t) t.indegree []
  Inv-roots = record {
    degrees = degree;
    counted = λ v. ground (
      arith,
      degree v,
      once v,
      count-select (λ n. eqb (t.indegree n) 0) v ids,
      count_of_contains v ids,
      contains_of_count v ids,
    );
    ordered = tt;
  }

  -- The queue is empty within one round for each node.
  pub drain-roots :
      (final : List String) × (drain t.adj (roots ids t) t.indegree [] (length ids) ≡ some final)
      × Drained ids edges final
  drain-roots =
      drain_total ids edges t.adj (build-AllKnown ids no_tables t edges read)
        (λ u. build-adj ids no_tables t edges u read) (roots ids t) t.indegree [] (length ids)
        Inv-roots (omega arith)
