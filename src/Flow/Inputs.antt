-- ===== src/Flow/Inputs.antt =====
-- What a node of a flow is given: `_input_payload`, `_gather_inputs`, `_all_inactive` and the
-- tables of `run_flow` in pyflow_runtime/flow_dag.py.
use python_flow_hub.Prelude.{
  String, Bool, true, false, not, ◌||◌, Option, some, none, List, [], ◌∷◌, Dict, lookup, insert,
  every, select, contains, if◌then◌else◌, ◌==◌,
}
use python_flow_hub.Value.{Value, null, as_dict, update}
use python_flow_hub.Flow.Graph.{Edge, Node, Config}
use python_flow_hub.Flow.Branch.{get_or}

-- `{"value": value}`, but for a value that is a dictionary a copy of it.
abbrev pub wrapped : Value → Dict Value
wrapped v = get_or (as_dict v) (("value", v) ∷ [])

-- `_input_payload`
unfoldable pub input_payload : Config → Dict Value
input_payload c =
    if get_or c.key "" == ""
    then wrapped (get_or c.value null)
    else (get_or c.key "", get_or c.value null) ∷ []

abbrev pub outputs_of : Option Value → Dict Value
outputs_of none = []
outputs_of (some v) = get_or (as_dict v) []

unfoldable pub merge : List Edge → Dict Value → Dict Value → Dict Value
unfolding update
merge [] outputs merged = merged
merge (e ∷ es) outputs merged =
    merge es outputs (update merged (outputs_of (lookup e.source_node_id outputs)))

abbrev pub or_else {ℓ} : {A : Type ℓ} → List A → List A → List A
or_else [] d = d
or_else (x ∷ xs) d = x ∷ xs

-- `_gather_inputs`
unfoldable pub gather_inputs : List Edge → Dict Value → Dict Value → Dict Value
unfolding merge
gather_inputs [] outputs initial_inputs = initial_inputs
gather_inputs (e ∷ es) outputs initial_inputs = or_else (merge (e ∷ es) outputs []) initial_inputs

abbrev pub missed : Option String → String → Bool
missed none port = false
missed (some hit) port = not (hit == port)

abbrev pub is_inactive : Dict String → List String → Edge → Bool
is_inactive active_ports skipped e =
    contains e.source_node_id skipped || missed (lookup e.source_node_id active_ports) e.source_port

-- `_all_inactive`
unfoldable pub all_inactive : List Edge → Dict String → List String → Bool
all_inactive es active_ports skipped = every (is_inactive active_ports skipped) es

abbrev pub is_empty {ℓ} : {A : Type ℓ} → List A → Bool
is_empty [] = true
is_empty (x ∷ xs) = false

-- `node_map`: of two nodes with one id the later is kept.
unfoldable pub node_map : List Node → Dict Node → Dict Node
node_map [] m = m
node_map (n ∷ ns) m = node_map ns (insert n.id n m)

-- `in_edges[node_id]`
unfoldable pub in_edges : List Edge → String → List Edge
in_edges edges node_id = select (λ e. e.target_node_id == node_id) edges
