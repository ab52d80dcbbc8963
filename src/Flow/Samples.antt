-- ===== src/Flow/Samples.antt =====
-- A small flow, and what the program does with it.
use python_flow_hub.Prelude.{
  ℕ, ◌+◌, ◌≤◌, String, ◌≡◌, ◌≢◌, ◌↔◌, ◌⊎◌, refl, true, some, none, List, [], ◌∷◌, map, lookup,
  insert, contains, count, if◌then◌else◌, eq_iff, ok, err, arith,
}
use python_flow_hub.Value.{pos, num, bool, text, truthy, update}
use python_flow_hub.Runtime.Engines.{Engines}
use python_flow_hub.Runtime.Condition.{evaluate_condition}
use python_flow_hub.Flow.Graph.{
  Edge, Node, Config, unknown_node, cycle, out_of_fuel, successors, AllKnown, IsTopological,
}
use python_flow_hub.Flow.Topology.{build, drain, finish, order_of, topological_order}
use python_flow_hub.Flow.Topology.Order.{
  IsSetOrder, IsRanked, topological_order-IsTopological, topological_order-eq-cycle,
  topological_order-eq-unknown_node,
}
use python_flow_hub.Flow.Entry.{select_entry_subgraph, explore}
use python_flow_hub.Flow.Entry.Subgraph.{IsReached, select_entry_subgraph-IsReached}
use python_flow_hub.Flow.Branch.{resolve_branch}
use python_flow_hub.Flow.Inputs.{input_payload, gather_inputs, all_inactive, node_map, in_edges}
use python_flow_hub.Flow.Run.{
  Run, Callbacks, prune, visit_input, visit_branch, visit_block, dispatch, visit, run_nodes,
  run_flow, is_done,
}
use python_flow_hub.Flow.Run.Settles.{Settles}
use python_flow_hub.Flow.Run.Whole.{sub_nodes, sub_edges, whole, run_flow-Settled, runs-run_flow}
use python_flow_hub.Flow.Run.Once.{runs}

-- One way to walk a set: in the order of the last occurrences.
unfoldable pub dedupe : List String → List String
dedupe [] = []
dedupe (x ∷ xs) = let rest = dedupe xs in if contains x xs then rest else x ∷ rest

pub dedupe-IsSetOrder : IsSetOrder dedupe
unfolding dedupe
dedupe-IsSetOrder [] v = refl
dedupe-IsSetOrder (x ∷ xs) v =
    ground (arith, dedupe-IsSetOrder xs v, dedupe-IsSetOrder xs x, eq_iff x v)

abbrev plain : Config
plain = record {
  subtype = none;
  condition_language = none;
  condition_expression = none;
  true_port = none;
  false_port = none;
  switch_field = none;
  branches = [];
  default_port = none;
  key = none;
  value = none;
  entrypoint = none;
}

abbrev node : String → String → Config → Node
node id kind config = record { id = id; node_type = some kind; block_id = none; config = config }

abbrev edge : String → String → String → Edge
edge s t port = record { source_node_id = s; target_node_id = t; source_port = port }

abbrev nodes : List Node
nodes =
    node "low" "block" plain
    ∷ node "split" "condition_branch" (record plain {
      condition_expression = some "score > 5";
      true_port = some "hi";
      false_port = some "lo";
    })
    ∷ node "high" "block" plain
    ∷ node "start" "input" (record plain { key = some "score"; value = some (num (pos 7)) })
    ∷ node "memo" "note" plain
    ∷ []

abbrev ids : List String
ids = map (λ (n : Node). n.id) nodes

abbrev edges : List Edge
edges = edge "split" "low" "lo" ∷ edge "split" "high" "hi" ∷ edge "start" "split" "output" ∷ []

abbrev order : List String
order = "start" ∷ "memo" ∷ "split" ∷ "low" ∷ "high" ∷ []

abbrev engines : Engines
engines = record {
  jmespath_search = λ e p. some (bool true);
  jsonpath_find = λ e p. none;
  str = λ v. "";
  body_digest = λ d. "";
  format_map = λ t f. none;
}

abbrev callbacks : Callbacks
callbacks = record {
  node_executor = λ t n d. ok (text "done");
  save = some (λ t id status v. ok tt);
}

abbrev fresh : Run
fresh = record { outputs = []; active_ports = []; skipped = []; trace = [] }

program : Unit {0}
unfolding topological_order order_of build drain finish successors dedupe select_entry_subgraph
    explore evaluate_condition resolve_branch input_payload gather_inputs all_inactive node_map
    in_edges prune visit_input visit_branch visit_block dispatch visit run_nodes run_flow runs
    lookup insert update truthy
program = tt

order_lem : topological_order dedupe ids edges ≡ ok order
unfolding program
order_lem = refl

topological_order-IsTopological_example :
    ((v : String) → count v order ≡ (if contains v ids then 1 else 0)) × IsTopological edges order
topological_order-IsTopological_example =
    topological_order-IsTopological dedupe dedupe-IsSetOrder ids edges order order_lem

known : AllKnown (dedupe ids) edges
unfolding dedupe
known = (refl, refl, (refl, refl, (refl, refl, tt)))

topological_order-eq-cycle_example :
    (topological_order dedupe ids edges ≡ err cycle) ↔ ((rank : String → ℕ) → ¬ IsRanked rank edges)
topological_order-eq-cycle_example =
    topological_order-eq-cycle dedupe dedupe-IsSetOrder ids edges known

topological_order-eq-unknown_node_example :
    ((topological_order dedupe ids edges ≡ err unknown_node) ↔ ¬ AllKnown (dedupe ids) edges)
    × (topological_order dedupe ids edges ≢ err out_of_fuel)
topological_order-eq-unknown_node_example =
    topological_order-eq-unknown_node dedupe dedupe-IsSetOrder ids edges

select_entry_subgraph-IsReached_example :
    IsReached nodes edges "split"
      (select_entry_subgraph nodes edges (some "split")).0
      (select_entry_subgraph nodes edges (some "split")).1
select_entry_subgraph-IsReached_example =
    select_entry_subgraph-IsReached nodes edges "split"
      (λ e. absurd (ground (arith, e, eq_iff "split" ""))) refl

returned : (whole engines callbacks dedupe dedupe-IsSetOrder nodes edges [] none fresh).0 ≡ ok tt
unfolding program
returned = refl

-- The branch takes its port "hi", so the node behind "lo" is skipped.
final_skipped :
    (whole engines callbacks dedupe dedupe-IsSetOrder nodes edges [] none fresh).1.skipped
    ≡ "low" ∷ "memo" ∷ []
unfolding program
final_skipped = refl

run_flow-Settled_example :
    (n : Node) × (lookup "high" (node_map (sub_nodes nodes edges none) []) ≡ some n)
    × ((is_done n "high" fresh ≡ true)
        ⊎ Settles engines callbacks [] n
            (in_edges (sub_edges nodes edges none) "high")
            "high"
            (whole engines callbacks dedupe dedupe-IsSetOrder nodes edges [] none fresh).1)
unfolding program
run_flow-Settled_example =
    run_flow-Settled engines callbacks dedupe dedupe-IsSetOrder nodes edges [] none fresh returned
      "high" refl

runs-run_flow_example :
    (runs "high"
        (whole engines callbacks dedupe dedupe-IsSetOrder nodes edges [] none fresh).1.trace
      ≤ 0 + 1)
    × ((n : Node)
        → lookup "high" (node_map (sub_nodes nodes edges none) []) ≡ some n
        → is_done n "high" fresh ≡ true
        → runs "high"
            (whole engines callbacks dedupe dedupe-IsSetOrder nodes edges [] none fresh).1.trace
          ≤ 0)
unfolding program
runs-run_flow_example =
    runs-run_flow engines callbacks dedupe dedupe-IsSetOrder nodes edges [] none fresh "high"
