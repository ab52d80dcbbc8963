-- ===== src/Runtime/Engines.antt =====
-- The libraries jmespath and jsonpath_ng, and Python's own functions on values: parameters.
use python_flow_hub.Prelude.{String, Option, List, Dict}
use python_flow_hub.Value.{Value}

pub record Engines : Type 0 where
  -- `jmespath.search(expression, payload)`; `none` is an exception.
  pub jmespath_search : String → Dict Value → Option Value
  -- `[m.value for m in jsonpath_parse(expression).find(payload)]`; `none` is an exception.
  pub jsonpath_find : String → Dict Value → Option (List Value)
  -- `str(value)`
  pub str : Value → String
  -- `hashlib.sha256(json.dumps(body, sort_keys=True, ...)).hexdigest()`
  pub body_digest : Dict Value → String
  -- `template.format_map(ctx)`; `none` is a `ValueError` or an `IndexError`.
  pub format_map : String → (String → Value) → Option String
