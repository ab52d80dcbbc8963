-- ===== src/Control/Validation.antt =====
-- backend/app/core/mq/validation.py: the check of an "mq_config" before it is stored.
pub mod Accepted
pub mod Samples
use python_flow_hub.Prelude.{
  ℕ, String, ◌≡◌, refl, Bool, true, false, not, ◌&&◌, ◌||◌, Option, none, some, List, [], ◌∷◌, Dict,
  lookup, every, if◌then◌else◌, ◌==◌, leb, Result, ok, err, require, ◌>>◌, arith,
}
use python_flow_hub.Value.{
  get_value, Value, null, bool, num, ℤ, pos, negsuc, text, list, dict, Items, items, as_dict,
  truthy,
}
use python_flow_hub.Runtime.Errors.{ConditionError}
use python_flow_hub.Runtime.Engines.{Engines}
use python_flow_hub.Runtime.Condition.{evaluate_condition}
use python_flow_hub.Control.RunStore.{is_text}

-- What `_fail` says.
pub data Invalid : Type 0 where
  bad_language bad_mapping no_reply_route bad_carry_field bad_max_retry bad_retry_delay : Invalid
  bad_expression : ConditionError → Invalid
  -- An expression that is no text raises in `evaluate_condition`.
  not_text : Invalid

abbrev pub as_text : Value → Option String
as_text (text s) = some s
as_text null = none
as_text (bool b) = none
as_text (num n) = none
as_text (list xs) = none
as_text (dict fs) = none

abbrev pub is_str : Value → Bool
is_str v = elim (as_text v) [ none ↦ false | some s ↦ true ]

-- `isinstance(v, int) and lo <= v <= hi`; a bool is an int.
abbrev pub is_int_in : ℕ → ℕ → Value → Bool
is_int_in lo hi (num (pos n)) = leb lo n && leb n hi
is_int_in lo hi (num (negsuc n)) = false
is_int_in lo hi (bool true) = leb lo 1 && leb 1 hi
is_int_in lo hi (bool false) = leb lo 0 && leb 0 hi
is_int_in lo hi null = false
is_int_in lo hi (text s) = false
is_int_in lo hi (list xs) = false
is_int_in lo hi (dict fs) = false

abbrev pub is_language : Value → Bool
is_language v = is_text "jmespath" (some v) || is_text "jsonpath" (some v)

abbrev pub checked : Result ConditionError Bool → Result Invalid (Unit {0})
checked (ok b) = ok tt
checked (err e) = err (bad_expression e)

unfoldable pub check_expression : Engines → Value → Value → Result Invalid (Unit {0})
unfolding evaluate_condition
check_expression engines expression language =
    if not (truthy expression) then ok tt else elim (as_text expression) [
      | none ↦ err not_text
      | some e ↦ elim (as_text language) [
        | none ↦ err bad_language
        | some l ↦ checked (evaluate_condition engines e l [])
      ]
    ]

abbrev pub is_mapping : Value → Bool
is_mapping v = elim (as_dict v) [
  | none ↦ false
  | some d ↦ every (λ (kv : String × Value). is_str kv.1) d
]

abbrev pub is_null_value : Value → Bool
is_null_value null = true
is_null_value (bool b) = false
is_null_value (num n) = false
is_null_value (text s) = false
is_null_value (list xs) = false
is_null_value (dict fs) = false

unfoldable pub check_mapping : Value → Result Invalid (Unit {0})
check_mapping v = require (is_null_value v || is_mapping v) bad_mapping

abbrev pub is_rule : Value → Bool
is_rule v = elim (as_dict v) [
  | none ↦ false
  | some d ↦ truthy (get_value "source_path" null d) && truthy (get_value "target_field" null d)
]

-- `for rule in cfg.get("carry_fields") or []`; what cannot be iterated raises as well.
abbrev pub rules_of : Items → List Value
rules_of Items.nil = []
rules_of (Items.cons v vs) = v ∷ rules_of vs

abbrev pub are_rules : Value → Bool
are_rules (list xs) = every is_rule (rules_of xs)
are_rules (text s) = s == ""
are_rules null = true
are_rules (bool b) = not b
are_rules (num n) = not (truthy (num n))
are_rules (dict fs) = not (truthy (dict fs))

unfoldable pub check_reply : Dict Value → Result Invalid (Unit {0})
unfolding truthy
check_reply cfg =
    if not (truthy (get_value "reply_enabled" null cfg))
    then ok tt
    else require
        (truthy (get_value "reply_routing_key_template" null cfg)
          || truthy (get_value "reply_exchange" null cfg))
        no_reply_route
      >> require (are_rules (get_value "carry_fields" null cfg)) bad_carry_field

unfoldable pub validate_config : Engines → Dict Value → Result Invalid (Unit {0})
unfolding check_expression check_mapping check_reply
validate_config engines cfg =
    let language = get_value "condition_language" (text "jmespath") cfg in
    require (is_language language) bad_language
    >> (check_expression engines (get_value "condition_expression" null cfg) language
        >> (check_mapping (get_value "input_mapping" null cfg)
            >> (check_reply cfg
                >> (require (is_int_in 0 10 (get_value "max_retry" (num (pos 3)) cfg)) bad_max_retry
                    >> require
                        (is_int_in 100 600000 (get_value "retry_delay_ms" (num (pos 5000)) cfg))
                        bad_retry_delay))))

abbrev pub config_or_empty : Option (Dict Value) → Dict Value
config_or_empty none = []
config_or_empty (some cfg) = cfg

unfoldable pub validate_mq_config :
    Engines → Option (Dict Value) → String → Result Invalid (Unit {0})
unfolding validate_config
validate_mq_config engines cfg trigger_type =
    if trigger_type == "mq" || trigger_type == "both"
    then validate_config engines (config_or_empty cfg)
    else ok tt
