-- ===== src/Broker/Runner/Nodes.antt =====
-- How a node's block is run by the two roles of runner/entrypoint.py that consume messages: through its
-- service, and in the pod itself.
use python_flow_hub.Prelude.{
  String, Option, none, some, [], ◌∷◌, Dict, lookup, ◌==◌, if◌then◌else◌, Result, ok, err,
}
use python_flow_hub.Value.{Value, null, bool, num, text, list, dict, entries}
use python_flow_hub.Runtime.Errors.{Error, raised}
use python_flow_hub.Runtime.Executor.{
  Code, Generator, Object, Returned, value, generator, object, Report, Escaped,
  block_execution_error, base_exception, execute_user_code,
}
use python_flow_hub.Flow.Graph.{Node}

-- The output of a node: a dictionary of JSON values; another dictionary; or, under the key "value",
-- a generator or another object.
pub data Output : Type 0 where
  plain : Dict Value → Output
  foreign : Object → Output
  wrapped : Generator → Output
  wrapped_object : Object → Output

-- `output if isinstance(output, dict)`, and the wrapping of any other.
abbrev pub as_output : Value → Dict Value
as_output (dict fs) = entries fs
as_output null = []
as_output (bool b) = ("value", bool b) ∷ []
as_output (num n) = ("value", num n) ∷ []
as_output (text s) = ("value", text s) ∷ []
as_output (list vs) = ("value", list vs) ∷ []

abbrev pub output_of : Returned → Output
output_of (value v) = plain (as_output v)
output_of (generator g) = wrapped g
output_of (object o) = if o.is_dict then foreign o else wrapped_object o

-- `a or b`
abbrev pub or_text : Option String → String → String
or_text none b = b
or_text (some a) b = if a == "" then b else a

-- `if result.get("error"): raise BlockExecutionError(...)`
abbrev pub raise_or : Report → Option String → Output → Result Error Output
raise_or report none output = ok output
raise_or report (some message) output = if message == "" then ok output else err (raised message)

abbrev pub message_of : Escaped → String
message_of (block_execution_error message) = message
message_of (base_exception r) = r.message

-- The keys "entrypoint_map" and "entrypoint" of an interface.
pub record Entrypoints : Type 0 where
  pub entrypoint_map : Dict String
  pub entrypoint : Option String

-- The entry point of a node, first as the interface says.
unfoldable pub resolve_entrypoint : Entrypoints → Node → String
resolve_entrypoint entry node =
    or_text (lookup node.id entry.entrypoint_map)
      (or_text entry.entrypoint (or_text node.config.entrypoint "run"))

-- `code_of` is `block_code_map`, and `missing` the empty code of a block that is not in it.
module _ (code_of : Dict Code) (missing : Code) where
  abbrev pub code_or_missing : Option Code → Code
  code_or_missing none = missing
  code_or_missing (some code) = code

  abbrev pub in_process : Result Escaped Report → Result Error Output
  in_process (err e) = err (raised (message_of e))
  in_process (ok report) = raise_or report report.error (output_of report.output)

  -- `node_executor` of `run_flow_runner`.
  unfoldable pub node_executor : Node → Dict Value → Result Error Output
  unfolding execute_user_code
  node_executor node node_inputs =
      if or_text node.block_id "" == ""
      then ok (plain [])
      else in_process (
          execute_user_code (code_or_missing (lookup (or_text node.block_id "") code_of))
            node_inputs (or_text node.config.entrypoint "run"))

  -- `_node_exec` of `_run_mq_for_api`, which sets the entry point in a copy of the node.
  unfoldable pub node_exec : Entrypoints → Node → Dict Value → Result Error Output
  unfolding node_executor resolve_entrypoint
  node_exec entry node node_inputs =
      if or_text node.block_id "" == ""
      then ok (plain [])
      else node_executor
          (record node {
            config = record node.config { entrypoint = some (resolve_entrypoint entry node) };
          })
          node_inputs

-- `service_of` is the key "service" of a node, and `code_at` the code that a service has loaded. The
-- rest is FastAPI, httpx and json: `posted` is what a service gets of inputs that are sent to it, and
-- `read` what comes back of an output; `none` where the encoding fails. A service answers with the
-- status 500 if it raises, also while it encodes.
module _ (service_of : Node → Option String) (code_at : String → Code)
    (posted : Dict Value → Option (Dict Value)) (read : Returned → Option Value) where
  abbrev pub as_answer : Report → Option Value → Result Error Output
  as_answer report none = err (raised "HTTPStatusError")
  as_answer report (some v) = raise_or report report.error (plain (as_output v))

  abbrev pub answered : Result Escaped Report → Result Error Output
  answered (err e) = err (raised "HTTPStatusError")
  answered (ok report) = as_answer report (read report.output)

  abbrev pub run_at : Code → String → Option (Dict Value) → Result Error Output
  run_at code entrypoint none = err (raised "ValueError")
  run_at code entrypoint (some inputs) = answered (execute_user_code code inputs entrypoint)

  -- `node_executor` of `make_flow_execute_fn`, and `_invoke_block_service`.
  unfoldable pub invoke_node : Entrypoints → Node → Dict Value → Result Error Output
  unfolding execute_user_code resolve_entrypoint
  invoke_node entry node node_inputs =
      if or_text (service_of node) "" == ""
      then err (raised "missing invoke service")
      else run_at (code_at (or_text (service_of node) "")) (resolve_entrypoint entry node)
          (posted node_inputs)

abbrev pub output_if_ok : Result Error Output → Option Output
output_if_ok (ok output) = some output
output_if_ok (err e) = none

module _ (code_of : Dict Code) (missing : Code) (service_of : Node → Option String)
    (code_at : String → Code) (posted : Dict Value → Option (Dict Value))
    (read : Returned → Option Value) (entry : Entrypoints) (node : Node)
    (node_inputs : Dict Value) where
  abbrev pub service_code : Code
  service_code = code_at (or_text (service_of node) "")
