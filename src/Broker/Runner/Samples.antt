-- ===== src/Broker/Runner/Samples.antt =====
-- A block that both roles run (runner/entrypoint.py).
use python_flow_hub.Prelude.{Option, none, some, [], ◌∷◌, ok, err, Result}
use python_flow_hub.Value.{Value, text}
use python_flow_hub.Flow.Graph.{Node}
use python_flow_hub.Runtime.Executor.{
  Code, callable, object, Escaped, Report, Returned, value, generator, function,
}
use python_flow_hub.Broker.Runner.Nodes.{Entrypoints}

abbrev greet : Code
greet = record {
  syntax_error = none;
  body = record {
    stdout = "";
    stderr = "";
    outcome = ok (
        (
          "main",
          callable
              (function λ d. record { stdout = ""; stderr = ""; outcome = ok (value (text "hi")) }),
        )
        ∷ []);
  };
}

abbrev node : Node
node = record {
  id = "n1";
  node_type = some "block";
  block_id = some "b1";
  config = record {
    subtype = none;
    condition_language = none;
    condition_expression = none;
    true_port = none;
    false_port = none;
    switch_field = none;
    branches = [];
    default_port = none;
    key = none;
    value = none;
    entrypoint = some "other";
  };
}

abbrev entry : Entrypoints
entry = record { entrypoint_map = ("n1", "main") ∷ []; entrypoint = none }

abbrev report : Report
report = record { output = value (text "hi"); stdout = ""; stderr = ""; error = none }

abbrev output_or : Returned → Result Escaped Report → Returned
output_or o (ok r) = r.output
output_or o (err e) = o

-- Texts pass through JSON, and no generator does.
abbrev read : Returned → Option Value
read (value v) = some v
read (generator g) = none
read (object o) = none
