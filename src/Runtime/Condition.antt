-- ===== src/Runtime/Condition.antt =====
-- pyflow_runtime/condition_engine.py.
use Prim.Native.String
use python_flow_hub.Prelude.{
  ℕ, String, Bool, true, false, Option, some, none, List, [], ◌∷◌, Dict, every, ltb, if◌then◌else◌,
  ◌==◌, Result, ok, err,
}
use python_flow_hub.Value.{Value, list, nil, cons, null, truthy, items}
use python_flow_hub.Runtime.Errors.{
  ConditionError, too_long, invalid_jmespath, invalid_jsonpath, unsupported_language, Error, engine,
}
use python_flow_hub.Runtime.Engines.{Engines}

abbrev pub max_expression_length : ℕ
max_expression_length = 4096

-- `_truthy`
unfoldable pub truthy_match : Value → Bool
unfolding truthy
truthy_match (list nil) = false
truthy_match (list (cons v vs)) = true
truthy_match v = truthy v

-- `all(...)` over the matches, of which there must be one.
unfoldable pub all_truthy : List Value → Bool
unfolding truthy_match
all_truthy [] = false
all_truthy (v ∷ vs) = every truthy_match (v ∷ vs)

abbrev pub hit_or :
    {A : Type 0} → ConditionError → (A → Bool) → Option A → Result ConditionError Bool
hit_or e test none = err e
hit_or e test (some a) = ok (test a)

module _ (engines : Engines) where
  unfoldable pub evaluate_condition : String → String → Dict Value → Result ConditionError Bool
  unfolding truthy_match all_truthy
  evaluate_condition expression language payload =
      if expression == ""
      then ok true
      else if ltb max_expression_length (String.count expression)
      then err too_long
      else if language == "jmespath"
      then hit_or invalid_jmespath truthy_match (engines.jmespath_search expression payload)
      else if language == "jsonpath"
      then hit_or invalid_jsonpath all_truthy (engines.jsonpath_find expression payload)
      else err (unsupported_language language)

  -- The value of a list of matches: `None`, the one match, or all of them.
  unfoldable pub from_matches : List Value → Value
  from_matches [] = null
  from_matches (v ∷ []) = v
  from_matches (v ∷ w ∷ vs) = list (items (v ∷ w ∷ vs))

  abbrev pub value_or : {A : Type 0} → (A → Value) → Option A → Result Error Value
  value_or f none = err engine
  value_or f (some a) = ok (f a)

  unfoldable pub extract_path : String → Dict Value → String → Result Error Value
  unfolding from_matches
  extract_path path payload language =
      if language == "jmespath"
      then value_or (λ v. v) (engines.jmespath_search path payload)
      else value_or from_matches (engines.jsonpath_find path payload)
