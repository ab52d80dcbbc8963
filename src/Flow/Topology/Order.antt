-- ===== src/Flow/Topology/Order.antt =====
-- What `topological_order` returns, and when it raises: the statements for its callers.
use mathlib.Core.List.{Memᴰ}
use python_flow_hub.Prelude.{
  ℕ, suc, ◌≤◌, ◌<◌, String, ◌≡◌, ◌∙◌, ◌≢◌, ◌↔◌, true, some, List, [], ◌∷◌, ◌++◌, arith, contains,
  count, count-append, count_of_contains, contains_of_count, count-eq_of_length, count_self, length,
  length-le_of_count, if◌then◌else◌, eq_iff, ◌==◌, ok, err, inl, inr, Result-cases,
}
use python_flow_hub.Flow.Graph.{Edge, unknown_node, cycle, out_of_fuel, AllKnown, IsTopological}
use python_flow_hub.Flow.Topology.{Tables, build, no_tables, finish, order_of, topological_order}
use python_flow_hub.Flow.Topology.Degrees.{build-AllKnown, build_total, build-err}
use python_flow_hub.Flow.Topology.Loop.{Inv, Ordered}
use python_flow_hub.Flow.Topology.Ends.{drain-roots}
use python_flow_hub.Flow.Topology.Correct.{Ordered-Precedes, AllKnown-target, none_left}

-- Some numbering of the nodes rises along every edge: there is no cycle.
abbrev pub IsRanked : (String → ℕ) → List Edge → Type 0
IsRanked rank edges = (e : Edge) → Memᴰ e edges → rank e.source_node_id < rank e.target_node_id

-- What Python documents of a set: it yields each of its members once, in an order of its own.
abbrev pub IsSetOrder : (List String → List String) → Type 0
IsSetOrder set_of =
    (xs : List String) (v : String) → count v (set_of xs) ≡ (if contains v xs then 1 else 0)

module _ (ids : List String) (edges : List Edge) (once : (v : String) → count v ids ≤ 1) where
  -- Every outcome of the body, with what the loop established.
  outcome :
      (t : Tables)
      → build ids no_tables edges ≡ ok t
      → (final : List String) × (order_of ids edges ≡ finish ids (some final))
        × (indegree : String → ℕ) × Inv ids edges [] indegree final
  unfolding order_of
  outcome t read =
      let (final, ran, (indegree, inv)) = drain-roots ids edges once t read in
      (final, simp (read, ran), indegree, inv)

  count_le :
      (final : List String) (indegree : String → ℕ)
      → Inv ids edges [] indegree final
      → (v : String) → count v final ≤ count v ids
  count_le final indegree inv v = ground (arith, inv.counted v, count_of_contains v ids)

  pub order_of-ne-out_of_fuel : order_of ids edges ≢ err out_of_fuel
  unfolding order_of finish
  order_of-ne-out_of_fuel h = elim (Result-cases (build ids no_tables edges)) [
    | inl (t, read) ↦ let (final, ran, _, _) = outcome t read in ground arith
    | inr (e, failed) ↦ ground (arith, build-err ids no_tables edges e)
  ]

  pub order_of-eq-ok :
      (order : List String)
      → order_of ids edges ≡ ok order
      → ((v : String) → count v order ≡ count v ids)
        × Ordered edges [] order
        × IsTopological edges order
  unfolding order_of finish
  order_of-eq-ok order h = elim (Result-cases (build ids no_tables edges)) [
    | inl (t, read) ↦
        let (final, ran, indegree, inv) = outcome t read in
        let same : final ≡ order = ground arith in
        let full : length ids ≡ length final = ground arith in
        let counts = count-eq_of_length final ids (count_le final indegree inv) (omega arith) in
        (
          λ v. rw (← same) (counts v),
          rw same at inv.ordered,
          λ e m. rw (← same) (
              Ordered-Precedes edges e [] final m inv.ordered (
                contains_of_count _ final (
                  omega (
                    arith,
                    counts e.target_node_id,
                    count_of_contains e.target_node_id ids
                        (AllKnown-target ids edges e (build-AllKnown ids no_tables t edges read) m),
                  )))),
        )
    | inr (e, failed) ↦ absurd (ground arith)
  ]

  pub order_of-ne-cycle : (rank : String → ℕ) → IsRanked rank edges → order_of ids edges ≢ err cycle
  unfolding order_of finish
  order_of-ne-cycle rank climbs h = elim (Result-cases (build ids no_tables edges)) [
    | inl (t, read) ↦
        let (final, ran, indegree, inv) = outcome t read in
        let counts : (v : String) → count v ids ≤ count v final = λ v. ground (
          arith,
          once v,
          contains_of_count v ids,
          none_left ids edges final indegree inv (build-AllKnown ids no_tables t edges read) rank
              climbs (suc (rank v)) v (omega arith),
        ) in
        ground (
          arith,
          length-le_of_count ids final counts,
          length-le_of_count final ids (count_le final indegree inv),
        )
    | inr (e, failed) ↦ ground (arith, build-err ids no_tables edges e)
  ]

  pub order_of-eq-unknown_node : (order_of ids edges ≡ err unknown_node) ↔ ¬ AllKnown ids edges
  unfolding order_of finish
  order_of-eq-unknown_node = (
    λ h known.
        let (t, read) = build_total ids no_tables edges known in
        let (final, ran, _, _) = outcome t read in ground arith,
    λ unknown. elim (Result-cases (build ids no_tables edges)) [
      | inl (t, read) ↦ absurd (unknown (build-AllKnown ids no_tables t edges read))
      | inr (e, failed) ↦ ground (arith, build-err ids no_tables edges e)
    ],
  )

-- The place of a node in the order.
index : String → List String → ℕ
index v [] = 0
index v (x ∷ xs) = if x == v then 0 else suc (index v xs)

index-lt :
    (s t : String) (before after : List String)
    → contains s before ≡ true
    → count t (before ++ t ∷ after) ≤ 1
    → index s (before ++ t ∷ after) < index t (before ++ t ∷ after)
unfolding index
index-lt s t [] after h c = absurd (cc)
index-lt s t (x ∷ before) after h c = ground (
  arith,
  index-lt s t before after,
  count-append t before (t ∷ after),
  count_self t after,
  eq_iff x t,
  eq_iff x s,
)

index-IsRanked :
    (edges : List Edge) (order : List String)
    → ((v : String) → count v order ≤ 1)
    → IsTopological edges order
    → IsRanked (λ v. index v order) edges
index-IsRanked edges order once sorted e m =
    let (before, after, split, s) = sorted e m in
    rw split (
      index-lt e.source_node_id e.target_node_id before after s
        (rw split at (once e.target_node_id)))

-- The same, as the run of a flow uses it.
pub topological_order-Ordered :
    (set_of : List String → List String) (walks : IsSetOrder set_of) (node_ids : List String)
    (edges : List Edge) (order : List String)
    → topological_order set_of node_ids edges ≡ ok order
    → ((v : String) → count v order ≡ (if contains v node_ids then 1 else 0))
      × Ordered edges [] order
unfolding topological_order
topological_order-Ordered set_of walks node_ids edges order h =
    let once : (v : String) → count v (set_of node_ids) ≤ 1 =
      λ v. ground (arith, walks node_ids v) in
    let (counts, ordered, _) = order_of-eq-ok (set_of node_ids) edges once order h in
    (λ v. counts v ∙ walks node_ids v, ordered)

module _ (set_of : List String → List String) (walks : IsSetOrder set_of) (node_ids : List String)
    (edges : List Edge) where
  once : (v : String) → count v (set_of node_ids) ≤ 1
  once v = ground (arith, walks node_ids v)

  -- The order holds every node once and nothing else, and every edge leads forward in it.
  pub topological_order-IsTopological :
      (order : List String)
      → topological_order set_of node_ids edges ≡ ok order
      → ((v : String) → count v order ≡ (if contains v node_ids then 1 else 0))
        × IsTopological edges order
  unfolding topological_order
  topological_order-IsTopological order h =
      let (counts, _, sorted) = order_of-eq-ok (set_of node_ids) edges once order h in
      (λ v. counts v ∙ walks node_ids v, sorted)

  -- With every edge between known nodes, the error "contains a cycle" is raised exactly when no
  -- numbering of the nodes rises along every edge.
  pub topological_order-eq-cycle :
      AllKnown (set_of node_ids) edges
      → (topological_order set_of node_ids edges ≡ err cycle)
        ↔ ((rank : String → ℕ) → ¬ IsRanked rank edges)
  unfolding topological_order
  topological_order-eq-cycle known = (
    λ h rank climbs. order_of-ne-cycle (set_of node_ids) edges once rank climbs h,
    λ none_rises. elim (Result-cases (order_of (set_of node_ids) edges)) [
      | inl (order, h) ↦
          let (counts, _, sorted) = order_of-eq-ok (set_of node_ids) edges once order h in
          absurd (
            none_rises (λ v. index v order)
              (index-IsRanked edges order (λ v. omega (arith, counts v, once v)) sorted))
      | inr (unknown_node, h) ↦
          absurd ((order_of-eq-unknown_node (set_of node_ids) edges once).0 h known)
      | inr (cycle, h) ↦ h
      | inr (out_of_fuel, h) ↦ absurd (order_of-ne-out_of_fuel (set_of node_ids) edges once h)
    ],
  )

  -- An edge with an end that is no node, and nothing else, raises "references unknown node"; and
  -- the fuel of the loop always suffices.
  pub topological_order-eq-unknown_node :
      ((topological_order set_of node_ids edges ≡ err unknown_node)
        ↔ ¬ AllKnown (set_of node_ids) edges)
      × (topological_order set_of node_ids edges ≢ err out_of_fuel)
  unfolding topological_order
  topological_order-eq-unknown_node = (
    order_of-eq-unknown_node (set_of node_ids) edges once,
    order_of-ne-out_of_fuel (set_of node_ids) edges once,
  )
