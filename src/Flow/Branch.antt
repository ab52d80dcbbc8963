-- ===== src/Flow/Branch.antt =====
-- `resolve_branch` of pyflow_runtime/flow_dag.py.
use python_flow_hub.Prelude.{
  String, Bool, false, Option, some, none, List, [], ◌∷◌, Dict, if◌then◌else◌, ◌==◌, Result, ok,
  err,
}
use python_flow_hub.Value.{Value, null}
use python_flow_hub.Runtime.Errors.{Error, condition}
use python_flow_hub.Runtime.Engines.{Engines}
use python_flow_hub.Runtime.Condition.{evaluate_condition, extract_path}
use python_flow_hub.Flow.Graph.{Node, Case, Config}

-- `config.get(key, default)`
abbrev pub get_or {ℓ} : {A : Type ℓ} → Option A → A → A
get_or none d = d
get_or (some a) d = a

abbrev pub is_type : Node → String → Bool
is_type n t = elim n.node_type [ none ↦ false | some s ↦ s == t ]

-- The port of the first case whose value prints like the field's.
unfoldable pub first_case : (Value → String) → List Case → String → Option String
first_case str [] value = none
first_case str (c ∷ cs) value =
    if str (get_or c.value null) == value then some (get_or c.port "") else first_case str cs value

module _ (engines : Engines) where
  unfoldable pub resolve_if : Config → String → Dict Value → Result Error String
  unfolding evaluate_condition
  resolve_if c language payload =
      elim (evaluate_condition engines (get_or c.condition_expression "") language payload) [
        | ok hit ↦ ok (if hit then get_or c.true_port "" else get_or c.false_port "")
        | err e ↦ err (condition e)
      ]

  unfoldable pub resolve_switch : Config → String → Dict Value → Result Error String
  unfolding extract_path first_case
  resolve_switch c language payload =
      elim (extract_path engines (get_or c.switch_field "") payload language) [
        | ok value ↦ ok (
            get_or (first_case engines.str c.branches (engines.str value))
              (get_or c.default_port ""))
        | err e ↦ err e
      ]

  unfoldable pub resolve_branch : Config → Dict Value → Result Error String
  unfolding resolve_if resolve_switch
  resolve_branch c payload =
      if get_or c.subtype "if_else" == "if_else"
      then resolve_if c (get_or c.condition_language "jmespath") payload
      else resolve_switch c (get_or c.condition_language "jmespath") payload
