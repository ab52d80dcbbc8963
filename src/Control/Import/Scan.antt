-- ===== src/Control/Import/Scan.antt =====
-- The static scans of backend/app/core/flow/zip_import.py: what a script returns and reads. The
-- module `ast` of Python is a parameter: the nodes of a script, in the order of `ast.walk`.
use Prim.Native.String.{slice}
use python_flow_hub.Prelude.{
  String, Bool, false, not, ◌&&◌, ◌||◌, Option, some, none, List, [], ◌∷◌, ◌++◌, contains, ◌==◌,
  if◌then◌else◌,
}

-- The expressions that the scans tell apart.
mutual
  pub data Expr : Type 0 where
    constant_str : String → Expr
    name : String → Expr
    attribute : Expr → String → Expr
    call : Expr → Exprs → Expr
    subscript : (value slice : Expr) → Expr
    dict_of : (keys : Exprs) → Expr
    other_expr : Expr

  pub data Exprs : Type 0 where
    no_more : Exprs
    more : Expr → Exprs → Exprs

pub data AstNode : Type 0 where
  expr : Expr → AstNode
  return_of : Option Expr → AstNode
  other_node : AstNode

-- A statement at the top of a script: a function with the names of its arguments.
pub data Top : Type 0 where
  function_def : String → List String → Top
  other_top : Top

-- `ast.parse`, with `none` for a `SyntaxError`.
pub record Ast : Type 0 where
  pub walk : String → Option (List AstNode)
  pub top : String → Option (List Top)

-- `keys.add(k)`; a set holds each key once.
abbrev pub add_key : String → List String → List String
add_key k keys = if contains k keys then keys else keys ++ k ∷ []

abbrev pub add_constants : Exprs → List String → List String
add_constants no_more keys = keys
add_constants (more (constant_str k) es) keys = add_constants es (add_key k keys)
add_constants (more (name x) es) keys = add_constants es keys
add_constants (more (attribute e x) es) keys = add_constants es keys
add_constants (more (call f xs) es) keys = add_constants es keys
add_constants (more (subscript v s) es) keys = add_constants es keys
add_constants (more (dict_of ks) es) keys = add_constants es keys
add_constants (more other_expr es) keys = add_constants es keys

abbrev pub add_returned : AstNode → List String → List String
add_returned (return_of (some (dict_of ks))) keys = add_constants ks keys
add_returned _ keys = keys

unfoldable pub add_all_returned : List AstNode → List String → List String
add_all_returned [] keys = keys
add_all_returned (n ∷ ns) keys = add_all_returned ns (add_returned n keys)

-- `inputs.get("key")` and `inputs["key"]`
abbrev pub input_key : AstNode → Option String
input_key (expr (call (attribute (name x) method) (more (constant_str k) es))) =
    if x == "inputs" && method == "get" then some k else none
input_key (expr (subscript (name x) (constant_str k))) = if x == "inputs" then some k else none
input_key _ = none

abbrev pub add_input : Option String → List String → List String
add_input none keys = keys
add_input (some k) keys = add_key k keys

unfoldable pub add_all_inputs : List AstNode → List String → List String
add_all_inputs [] keys = keys
add_all_inputs (n ∷ ns) keys = add_all_inputs ns (add_input (input_key n) keys)

unfoldable pub extract_return_keys : Ast → String → List String
unfolding add_all_returned
extract_return_keys ast code = elim (ast.walk code) [
  | none ↦ []
  | some nodes ↦ add_all_returned nodes []
]

unfoldable pub extract_input_keys : Ast → String → List String
unfolding add_all_inputs
extract_input_keys ast code = elim (ast.walk code) [
  | none ↦ []
  | some nodes ↦ add_all_inputs nodes []
]

-- A public function at the top whose first argument is `inputs`.
abbrev pub is_entrypoint : Top → Bool
is_entrypoint other_top = false
is_entrypoint (function_def f []) = false
is_entrypoint (function_def f (arg ∷ args)) = not (slice f 0 1 == "_") && arg == "inputs"

abbrev pub any_entrypoint : List Top → Bool
any_entrypoint [] = false
any_entrypoint (t ∷ ts) = is_entrypoint t || any_entrypoint ts

unfoldable pub has_valid_entrypoint : Ast → String → Bool
has_valid_entrypoint ast code = elim (ast.top code) [ none ↦ false | some ts ↦ any_entrypoint ts ]
