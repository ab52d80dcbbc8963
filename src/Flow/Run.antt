-- ===== src/Flow/Run.antt =====
-- `run_flow` of pyflow_runtime/flow_dag.py.
pub mod Frame
pub mod Settles
pub mod Visit
pub mod Loop
pub mod Once
pub mod Whole
use python_flow_hub.Prelude.{
  String, Bool, true, false, not, ◌&&◌, ◌||◌, Option, some, none, List, [], ◌∷◌, ◌++◌, map, Dict,
  lookup, insert, has_key, every, select, contains, if◌then◌else◌, ◌==◌, Result, ok, err,
}
use python_flow_hub.Value.{
  Value, null, bool, text, dict, list, num, fields, entries, as_dict, update, truthy,
}
use python_flow_hub.Runtime.Errors.{Error, condition, dag, key_error}
use python_flow_hub.Runtime.Engines.{Engines}
use python_flow_hub.Runtime.Condition.{evaluate_condition, extract_path}
use python_flow_hub.Flow.Graph.{Edge, Node, Case, Config, DagError}
use python_flow_hub.Flow.Topology.{topological_order}
use python_flow_hub.Flow.Entry.{select_entry_subgraph}
use python_flow_hub.Flow.Branch.{is_type, resolve_branch}
use python_flow_hub.Flow.Inputs.{
  is_empty, input_payload, gather_inputs, all_inactive, node_map, in_edges,
}

-- What happens outside during a run.
pub data Event : Type 0 where
  checkpoint : (node_id status : String) → Value → Event
  executed : (node_id : String) → Dict Value → Event

-- The local variables of `run_flow`, and what it has called so far.
pub record Run : Type 0 where
  pub outputs : Dict Value
  pub active_ports : Dict String
  pub skipped : List String
  pub trace : List Event

-- The callbacks. Their answers may depend on all that happened before.
pub record Callbacks : Type 0 where
  pub node_executor : List Event → Node → Dict Value → Result Error Value
  pub save : Option (List Event → (node_id status : String) → Value → Result Error (Unit {0}))

-- A step that changes the variables and may raise.
abbrev pub Exec : Type 0 → Type 0
Exec A = Run → Result Error A × Run

abbrev pub continue : {A B : Type 0} → Result Error A → (A → Exec B) → Exec B
continue (ok a) f r = f a r
continue (err e) f r = (err e, r)

infixl 5 ◌>>=◌ ◌>>◌
abbrev pub ◌>>=◌ : {A B : Type 0} → Exec A → (A → Exec B) → Exec B
◌>>=◌ m f r = continue (m r).0 f (m r).1

abbrev pub ◌>>◌ : {B : Type 0} → Exec (Unit {0}) → Exec B → Exec B
m >> k = m >>= λ _. k

abbrev pub pure : {A : Type 0} → A → Exec A
pure a r = (ok a, r)

abbrev pub lift : {A : Type 0} → Result Error A → Exec A
lift m r = (m, r)

abbrev pub modify : (Run → Run) → Exec (Unit {0})
modify f r = (ok tt, f r)

abbrev pub set_output : String → Value → Exec (Unit {0})
set_output node_id v = modify (λ r. record r { outputs = insert node_id v r.outputs })

abbrev pub set_port : String → String → Exec (Unit {0})
set_port node_id port = modify (λ r. record r { active_ports = insert node_id port r.active_ports })

abbrev pub skip : String → Exec (Unit {0})
skip node_id = modify (λ r. record r { skipped = node_id ∷ r.skipped })

-- A node that an earlier run settled is not run again.
abbrev pub is_done : Node → String → Run → Bool
is_done node node_id r =
    contains node_id r.skipped
    || (has_key node_id r.active_ports
        || (has_key node_id r.outputs && not (is_type node "condition_branch")))

module _ (callbacks : Callbacks) where
  -- `if checkpoint: await checkpoint(...)`
  unfoldable pub notify : String → String → Value → Exec (Unit {0})
  notify node_id status output r = elim callbacks.save [
    | none ↦ (ok tt, r)
    | some f ↦ (
      f r.trace node_id status output,
      record r { trace = r.trace ++ checkpoint node_id status output ∷ [] },
    )
  ]

  unfoldable pub prune : String → Exec (Unit {0})
  unfolding notify
  prune node_id = do skip node_id; notify node_id "skipped" (dict (fields []))

  unfoldable pub visit_input : Node → String → Exec (Unit {0})
  unfolding notify
  visit_input node node_id = do
    set_output node_id (dict (fields (input_payload node.config)))
    notify node_id "done" (dict (fields (input_payload node.config)))

  abbrev pub call_executor : Node → String → Dict Value → Exec Value
  call_executor node node_id node_inputs r = (
    callbacks.node_executor r.trace node node_inputs,
    record r { trace = r.trace ++ executed node_id node_inputs ∷ [] },
  )

  unfoldable pub visit_block : Node → String → Dict Value → Exec (Unit {0})
  unfolding notify
  visit_block node node_id node_inputs = do
    notify node_id "running" (dict (fields []))
    output ← call_executor node node_id node_inputs
    set_output node_id output
    notify node_id "done" output

module _ (engines : Engines) (callbacks : Callbacks) where
  unfoldable pub visit_branch : Node → String → Dict Value → Exec (Unit {0})
  unfolding notify
  visit_branch node node_id node_inputs = do
    hit_port ← lift (resolve_branch engines node.config node_inputs)
    set_port node_id hit_port
    set_output node_id (dict (fields node_inputs))
    notify callbacks node_id "done" (dict (fields (("hit_port", text hit_port) ∷ [])))

  unfoldable pub dispatch : Node → String → Dict Value → Exec (Unit {0})
  dispatch node node_id node_inputs =
      if is_type node "note"
      then skip node_id
      else if is_type node "input"
      then visit_input callbacks node node_id
      else if is_type node "condition_branch"
      then visit_branch node node_id node_inputs
      else visit_block callbacks node node_id node_inputs

  -- The body of the loop over the order.
  unfoldable pub visit : Node → List Edge → Dict Value → String → Exec (Unit {0})
  visit node incoming initial_inputs node_id r =
      if is_done node node_id r
      then pure tt r
      else if not (is_empty incoming) && all_inactive incoming r.active_ports r.skipped
      then prune callbacks node_id r
      else dispatch node node_id (gather_inputs incoming r.outputs initial_inputs) r

  abbrev pub visit_found : Option Node → List Edge → Dict Value → String → Exec (Unit {0})
  visit_found none incoming initial_inputs node_id r = (err (key_error node_id), r)
  visit_found (some node) incoming initial_inputs node_id r =
      visit node incoming initial_inputs node_id r

  unfoldable pub run_nodes : Dict Node → List Edge → Dict Value → List String → Exec (Unit {0})
  run_nodes nodes edges initial_inputs [] r = (ok tt, r)
  run_nodes nodes edges initial_inputs (node_id ∷ order) r =
      (visit_found (lookup node_id nodes) (in_edges edges node_id) initial_inputs node_id
          >> run_nodes nodes edges initial_inputs order)
        r

  abbrev pub run_ordered :
      List Node → List Edge → Dict Value → Result Error (List String) → Exec (Unit {0})
  run_ordered nodes edges initial_inputs (err e) r = (err e, r)
  run_ordered nodes edges initial_inputs (ok order) r =
      run_nodes (node_map nodes []) edges initial_inputs order r

  abbrev pub dag_errors : Result DagError (List String) → Result Error (List String)
  dag_errors (ok order) = ok order
  dag_errors (err e) = err (dag e)

  -- `start` holds the `prior_*` arguments. The outputs of the final state are what is returned.
  unfoldable pub run_flow :
      (List String → List String)
      → (nodes : List Node) (edges : List Edge) (initial_inputs : Dict Value)
        (entry_node_id : Option String)
      → Exec (Unit {0})
  run_flow set_of nodes edges initial_inputs entry_node_id start =
      let (sub_nodes, sub_edges) = select_entry_subgraph nodes edges entry_node_id in
      run_ordered sub_nodes sub_edges initial_inputs
        (dag_errors (topological_order set_of (map (λ n. n.id) sub_nodes) sub_edges)) start
