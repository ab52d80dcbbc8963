-- ===== src/Control/Import/Samples.antt =====
-- Three scripts, two of which could feed each other (backend/app/core/flow/zip_import.py).
use python_flow_hub.Prelude.{
  arith, insert, ℕ, String, ◌≡◌, refl, false, some, none, List, [], ◌∷◌, Dict, map, lookup, ok,
  ◌==◌, if◌then◌else◌,
}
use python_flow_hub.Flow.Topology.{topological_order}
use python_flow_hub.Flow.Samples.{dedupe, dedupe-IsSetOrder}
use python_flow_hub.Control.Import.{Inferred, as_edge, infer_data_flow_edges}
use python_flow_hub.Control.Import.Archive.{Paths, Entry, parse_zip, IsBounded, parse_zip-IsBounded}
use python_flow_hub.Control.Import.Scan.{
  Ast, AstNode, expr, return_of, call, attribute, name, constant_str, dict_of, more, no_more,
  has_valid_entrypoint, function_def, other_top, extract_return_keys, extract_input_keys, subscript,
}
use python_flow_hub.Control.Import.Whole.{
  ids_of, Infers, infer_data_flow_edges-Infers, infer_data_flow_edges-topological_order,
}

abbrev returns : String → AstNode
returns k = return_of (some (dict_of (more (constant_str k) no_more)))

abbrev gets : String → AstNode
gets k = expr (call (attribute (name "inputs") "get") (more (constant_str k) no_more))

abbrev reads : String → AstNode
reads k = expr (subscript (name "inputs") (constant_str k))

-- The codes "load", "clean" and "save" stand for their trees.
abbrev ast : Ast
ast = record {
  walk = λ code.
      if code == "load"
      then some (returns "rows" ∷ gets "path" ∷ [])
      else if code == "clean"
      then some (gets "rows" ∷ returns "rows" ∷ returns "path" ∷ [])
      else if code == "save"
      then some (reads "rows" ∷ [])
      else none;
  top = λ code. some (other_top ∷ function_def code ("inputs" ∷ []) ∷ []);
}

abbrev scripts : Dict String
scripts = ("load.py", "load") ∷ ("clean.py", "clean") ∷ ("save.py", "save") ∷ []

abbrev node_ids : Dict String
node_ids = ("load.py", "n1") ∷ ("clean.py", "n2") ∷ ("save.py", "n3") ∷ []

abbrev edge : String → String → String → Inferred
edge s t k = record { source_node_id = s; target_node_id = t; matched_keys = k ∷ [] }

-- Of the two directions between "load.py" and "clean.py" only the first by name is kept.
infer_data_flow_edges_sample :
    infer_data_flow_edges ast dedupe scripts node_ids
    ≡ some (edge "n2" "n1" "path" ∷ edge "n2" "n3" "rows" ∷ edge "n1" "n3" "rows" ∷ [])
unfolding infer_data_flow_edges dedupe lookup extract_return_keys extract_input_keys
infer_data_flow_edges_sample = refl

has_valid_entrypoint_sample : has_valid_entrypoint ast "_hidden" ≡ false
unfolding has_valid_entrypoint
has_valid_entrypoint_sample = refl

infer_data_flow_edges-Infers_example :
    (edges : List Inferred) × (infer_data_flow_edges ast dedupe scripts node_ids ≡ some edges)
    × Infers ast dedupe dedupe-IsSetOrder scripts node_ids edges
infer_data_flow_edges-Infers_example =
    infer_data_flow_edges-Infers ast dedupe dedupe-IsSetOrder scripts node_ids

infer_data_flow_edges-topological_order_example :
    (edges : List Inferred) × (order : List String) × (infer_data_flow_edges ast dedupe scripts
        node_ids
      ≡ some edges)
    × (topological_order dedupe (ids_of node_ids) (map as_edge edges) ≡ ok order)
infer_data_flow_edges-topological_order_example =
    infer_data_flow_edges-topological_order ast dedupe dedupe-IsSetOrder scripts node_ids

abbrev paths : Paths String
paths = record {
  normpath = λ s. s;
  split_slashes = λ s. s ∷ [];
  ends_with_slash = λ s. false;
  is_python = λ s. s == "load.py";
  decode_utf8 = λ s. some s;
  decode_gbk = λ s. none;
  len = λ s. 0;
}

abbrev entry : String → ℕ → Entry String
entry file size = record { filename = file; is_dir = false; file_size = size; raw = "" }

-- A script, a file outside, and one that is too large.
abbrev archive : List (Entry String)
archive = entry "load.py" 10 ∷ entry "../x" 10 ∷ entry "big.bin" 2097153 ∷ []

parse_zip_sample :
    parse_zip paths archive
    ≡ (record { scripts = ("load.py", "") ∷ []; resources = []; reads = entry "load.py" 10 ∷ [] })
unfolding parse_zip insert
parse_zip_sample = refl

parse_zip-IsBounded_example : IsBounded paths (parse_zip paths archive)
parse_zip-IsBounded_example = parse_zip-IsBounded paths archive (λ info m. omega arith)
