-- ===== src/Control/Validation/Samples.antt =====
-- A configuration that is accepted, and two that are not.
use python_flow_hub.Prelude.{◌≡◌, refl, true, none, some, [], ◌∷◌, Dict, lookup, ok, err}
use python_flow_hub.Value.{Value, num, pos, text, bool, dict, fields, truthy}
use python_flow_hub.Runtime.Engines.{Engines}
use python_flow_hub.Runtime.Condition.{evaluate_condition}
use python_flow_hub.Control.Validation.{
  bad_max_retry, no_reply_route, check_expression, check_mapping, check_reply, validate_config,
  validate_mq_config,
}
use python_flow_hub.Control.Validation.Accepted.{IsEvaluated, validate_mq_config-IsEvaluated}

abbrev engines : Engines
engines = record {
  jmespath_search = λ e p. some (bool true);
  jsonpath_find = λ e p. none;
  str = λ v. "";
  body_digest = λ d. "";
  format_map = λ t f. none;
}

abbrev config : Dict Value
config =
    ("condition_expression", text "score > `5`")
    ∷ ("condition_language", text "jmespath")
    ∷ ("input_mapping", dict (fields (("n", text "score") ∷ [])))
    ∷ ("max_retry", num (pos 3))
    ∷ []

program : Unit {0}
unfolding validate_mq_config validate_config check_expression check_mapping check_reply
    evaluate_condition lookup truthy
program = tt

accepted : validate_mq_config engines (some config) "mq" ≡ ok tt
unfolding program
accepted = refl

too_many_lem :
    validate_mq_config engines (some (("max_retry", num (pos 11)) ∷ [])) "both" ≡ err bad_max_retry
unfolding program
too_many_lem = refl

no_route_lem :
    validate_mq_config engines (some (("reply_enabled", bool true) ∷ [])) "mq" ≡ err no_reply_route
unfolding program
no_route_lem = refl

validate_mq_config-IsEvaluated_example :
    IsEvaluated (evaluate_condition engines "score > `5`" "jmespath" (("score", num (pos 7)) ∷ []))
unfolding program
validate_mq_config-IsEvaluated_example =
    validate_mq_config-IsEvaluated engines config "mq" "score > `5`" "jmespath"
      (("score", num (pos 7)) ∷ []) refl accepted refl refl
