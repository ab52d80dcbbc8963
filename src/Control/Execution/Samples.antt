-- ===== src/Control/Execution/Samples.antt =====
-- A stream that raises after a chunk (backend/app/core/execution_service.py).
use python_flow_hub.Prelude.{String, Option, some, none}

abbrev or_text : Option String → String
or_text none = "lost"
or_text (some s) = s
