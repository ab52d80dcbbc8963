-- ===== src/Runtime/Errors.antt =====
-- What the runtime raises.
use python_flow_hub.Prelude.{String}
use python_flow_hub.Flow.Graph.{DagError}

-- The messages of `ConditionError` in pyflow_runtime/condition_engine.py.
pub data ConditionError : Type 0 where
  too_long invalid_jmespath invalid_jsonpath : ConditionError
  unsupported_language : String → ConditionError

pub data Error : Type 0 where
  condition : ConditionError → Error
  -- An exception of a parser of paths, outside `evaluate_condition`.
  engine : Error
  -- `ValueError` of `build_reply`, with the source path.
  missing_carry_field : String → Error
  dag : DagError → Error
  -- `KeyError` on a node id.
  key_error : String → Error
  -- An exception of a callback, by a number.
  raised : String → Error
