-- ===== src/Flow/Run/Whole.antt =====
-- `run_flow` as a whole: every node of the chosen subgraph is settled, and executed once at most.
use python_flow_hub.Prelude.{
  ◌+◌, ◌≤◌, String, ◌≡◌, sym, ◌∙◌, ap, true, Option, some, List, [], Dict, lookup, map, contains,
  contains_of_count, Result, ok, arith, inl, inr, ◌⊎◌, Result-cases,
}
use python_flow_hub.Value.{Value}
use python_flow_hub.Runtime.Errors.{Error}
use python_flow_hub.Runtime.Engines.{Engines}
use python_flow_hub.Flow.Graph.{Edge, Node}
use python_flow_hub.Flow.Inputs.{node_map, in_edges}
use python_flow_hub.Flow.Topology.{topological_order}
use python_flow_hub.Flow.Topology.Order.{IsSetOrder, topological_order-Ordered}
use python_flow_hub.Flow.Entry.{select_entry_subgraph}
use python_flow_hub.Flow.Run.{Run, Callbacks, is_done, run_nodes, run_ordered, dag_errors, run_flow}
use python_flow_hub.Flow.Run.Settles.{Settles}
use python_flow_hub.Flow.Run.Loop.{NoneBack-of_Ordered, run_nodes-Settled}
use python_flow_hub.Flow.Run.Once.{runs, runs-run_nodes, run_nodes_done}

-- The part of a flow that is run.
module _ (nodes : List Node) (edges : List Edge) (entry_node_id : Option String) where
  abbrev pub sub_nodes : List Node
  sub_nodes = (select_entry_subgraph nodes edges entry_node_id).0

  abbrev pub sub_edges : List Edge
  sub_edges = (select_entry_subgraph nodes edges entry_node_id).1

  abbrev pub sub_ids : List String
  sub_ids = map (λ (n : Node). n.id) sub_nodes

module _ (engines : Engines) (callbacks : Callbacks) (set_of : List String → List String)
    (walks : IsSetOrder set_of) (nodes : List Node) (edges : List Edge)
    (initial_inputs : Dict Value) (entry_node_id : Option String) where
  abbrev pub whole : Run → Result Error (Unit {0}) × Run
  whole start = run_flow engines callbacks set_of nodes edges initial_inputs entry_node_id start

  whole-ok :
      (order : List String) (start : Run)
      → topological_order set_of
          (sub_ids nodes edges entry_node_id)
          (sub_edges nodes edges entry_node_id)
        ≡ ok order
      → whole start
        ≡ run_nodes engines callbacks
            (node_map (sub_nodes nodes edges entry_node_id) [])
            (sub_edges nodes edges entry_node_id)
            initial_inputs
            order
            start
  unfolding run_flow
  whole-ok order start e = rw e

  -- When a run returns, each node of the subgraph was done before it, or is settled as its
  -- kind and the final values of the variables say.
  pub run_flow-Settled :
      (start : Run)
      → (whole start).0 ≡ ok tt
      → (id : String) → contains id (sub_ids nodes edges entry_node_id) ≡ true
      → (node : Node) × (lookup id (node_map (sub_nodes nodes edges entry_node_id) []) ≡ some node)
        × ((is_done node id start ≡ true)
            ⊎ Settles engines callbacks initial_inputs node
                (in_edges (sub_edges nodes edges entry_node_id) id)
                id
                (whole start).1)
  unfolding run_flow
  run_flow-Settled start h id m =
      elim (Result-cases (
        topological_order set_of (sub_ids nodes edges entry_node_id)
          (sub_edges nodes edges entry_node_id))) [
            | inl (order, e) ↦
                let (counts, ordered) =
                  topological_order-Ordered set_of walks (sub_ids nodes edges entry_node_id)
                    (sub_edges nodes edges entry_node_id) order e in
                let same = whole-ok order start e in
                rw same (
                  run_nodes-Settled engines callbacks initial_inputs
                    (node_map (sub_nodes nodes edges entry_node_id) [])
                    (sub_edges nodes edges entry_node_id) order start
                    (NoneBack-of_Ordered (sub_edges nodes edges entry_node_id) [] order
                      (λ v. ground (arith, counts v)) ordered)
                    (ap (λ (x : Result Error (Unit {0}) × Run). x.0) (sym same) ∙ h) id
                    (contains_of_count id order (ground (arith, counts id))))
            | inr (e, f) ↦
                let bad =
                  ap
                    (λ x.
                      (run_ordered engines callbacks (sub_nodes nodes edges entry_node_id)
                        (sub_edges nodes edges entry_node_id) initial_inputs
                        (dag_errors engines callbacks x) start).0)
                    (sym f)
                  ∙ h in
                absurd (cc)
          ]

  -- The executor is called once at most for each node, also when the run raises, and never for
  -- a node of the subgraph that was done before.
  pub runs-run_flow :
      (start : Run) (id : String)
      → (runs id (whole start).1.trace ≤ runs id start.trace + 1)
        × ((node : Node)
            → lookup id (node_map (sub_nodes nodes edges entry_node_id) []) ≡ some node
            → is_done node id start ≡ true
            → runs id (whole start).1.trace ≤ runs id start.trace)
  unfolding run_flow
  runs-run_flow start id =
      elim (Result-cases (
        topological_order set_of (sub_ids nodes edges entry_node_id)
          (sub_edges nodes edges entry_node_id))) [
            | inl (order, e) ↦
                let (counts, ordered) =
                  topological_order-Ordered set_of walks (sub_ids nodes edges entry_node_id)
                    (sub_edges nodes edges entry_node_id) order e in
                rw e (
                  ground (
                    arith,
                    counts id,
                    runs-run_nodes engines callbacks id initial_inputs
                        (node_map (sub_nodes nodes edges entry_node_id) [])
                        (sub_edges nodes edges entry_node_id) order start,
                  ),
                  λ node found done.
                      run_nodes_done engines callbacks id initial_inputs
                        (node_map (sub_nodes nodes edges entry_node_id) [])
                        (sub_edges nodes edges entry_node_id) order start (node, found, done),
                )
            | inr (e, f) ↦ rw f (omega arith, λ node found done. omega arith)
          ]
