-- ===== src/Control/Validation/Accepted.antt =====
-- What an "mq_config" that was accepted means for the consumer (backend/app/core/mq/validation.py,
-- pyflow_runtime/condition_engine.py).
use Prim.Native.String
use mathlib.Core.Option.{none-ne-some}
use python_flow_hub.Prelude.{
  String, ◌≡◌, refl, sym, ◌∙◌, ap, subst, Bool, true, false, ◌||◌, Option, none, some, List, [],
  Dict, ltb, ◌⊎◌, inl, inr, if◌then◌else◌, ◌==◌, Result, ok, err, require, ◌>>◌, Bool-cases, arith,
}
use python_flow_hub.Value.{get_value, Value, null, text, truthy}
use python_flow_hub.Runtime.Errors.{ConditionError, invalid_jmespath, invalid_jsonpath, too_long}
use python_flow_hub.Runtime.Engines.{Engines}
use python_flow_hub.Runtime.Condition.{
  evaluate_condition, hit_or, truthy_match, all_truthy, max_expression_length,
}
use python_flow_hub.Control.Validation.{
  Invalid, is_language, check_expression, validate_config, validate_mq_config, checked,
  bad_language,
}

-- The condition was evaluated, or the library refused it on that payload.
abbrev pub IsEvaluated : Result ConditionError Bool → Type 0
IsEvaluated r = ((b : Bool) × (r ≡ ok b)) ⊎ (r ≡ err invalid_jmespath) ⊎ (r ≡ err invalid_jsonpath)

abbrev to_option : {E A : Type 0} → Result E A → Option A
to_option (ok a) = some a
to_option (err e) = none

first_ok : (m k : Result Invalid (Unit {0})) → (m >> k) ≡ ok tt → (m ≡ ok tt) × (k ≡ ok tt)
first_ok (ok tt) k h = (refl, h)
first_ok (err e) k h = absurd (none-ne-some tt (ap to_option h))

require_ok : (b : Bool) (e : Invalid) → require b e ≡ ok tt → b ≡ true
require_ok true e h = refl
require_ok false e h = absurd (none-ne-some tt (ap to_option h))

checked_ok : (r : Result ConditionError Bool) → checked r ≡ ok tt → (b : Bool) × (r ≡ ok b)
checked_ok (ok b) h = (b, refl)
checked_ok (err e) h = absurd (none-ne-some tt (ap to_option h))

jmespath_case : (o : Option Value) → IsEvaluated (hit_or invalid_jmespath truthy_match o)
jmespath_case none = inr (inl refl)
jmespath_case (some v) = inl (truthy_match v, refl)

jsonpath_case : (o : Option (List Value)) → IsEvaluated (hit_or invalid_jsonpath all_truthy o)
jsonpath_case none = inr (inr refl)
jsonpath_case (some v) = inl (all_truthy v, refl)

module _ (engines : Engines) where
  evaluated_too_long :
      (e l : String) (payload : Dict Value)
      → (e == "") ≡ false
      → ltb max_expression_length (String.count e) ≡ true
      → evaluate_condition engines e l payload ≡ err too_long
  unfolding evaluate_condition
  evaluated_too_long e l payload ne long = rw ne (rw long)

  IsEvaluated-anywhere :
      (e l : String) (b : Bool) (payload : Dict Value)
      → is_language (text l) ≡ true
      → evaluate_condition engines e l [] ≡ ok b
      → IsEvaluated (evaluate_condition engines e l payload)
  unfolding evaluate_condition
  IsEvaluated-anywhere e l b payload known fits = elim (Bool-cases (e == "")) [
    | inl empty ↦ rw empty (inl (true, refl))
    | inr ne ↦ elim (Bool-cases (ltb max_expression_length (String.count e))) [
      | inl long ↦
          absurd (none-ne-some b (ap to_option (sym (evaluated_too_long e l [] ne long) ∙ fits)))
      | inr short ↦ elim (Bool-cases (l == "jmespath")) [
        | inl j ↦ rw ne (rw short (rw j (jmespath_case (engines.jmespath_search e payload))))
        | inr other ↦ elim (Bool-cases (l == "jsonpath")) [
          | inl j ↦
              rw ne (rw short (rw other (rw j (jsonpath_case (engines.jsonpath_find e payload)))))
          | inr neither ↦ absurd (ground (arith, known, other, neither))
        ]
      ]
    ]
  ]

  checks :
      (e l : String)
      → (e == "") ≡ false
      → check_expression engines (text e) (text l) ≡ checked (evaluate_condition engines e l [])
  unfolding check_expression truthy
  checks e l ne = rw ne

  accepted_parts :
      (cfg : Dict Value) (trigger_type : String)
      → (trigger_type == "mq" || trigger_type == "both") ≡ true
      → validate_mq_config engines (some cfg) trigger_type ≡ ok tt
      → (is_language (get_value "condition_language" (text "jmespath") cfg) ≡ true)
        × (check_expression engines
              (get_value "condition_expression" null cfg)
              (get_value "condition_language" (text "jmespath") cfg)
            ≡ ok tt)
  unfolding validate_mq_config validate_config
  accepted_parts cfg trigger_type by_message accepted =
      let whole : validate_config engines cfg ≡ ok tt =
        sym (ap (λ (b : Bool). if b then validate_config engines cfg else ok tt) by_message)
        ∙ accepted in
      let (a, rest) = first_ok _ _ whole in
      let (b, more) = first_ok _ _ rest in (require_ok _ bad_language a, b)

  check_expression_ok :
      (e l : String)
      → check_expression engines (text e) (text l) ≡ ok tt
      → (b : Bool) × (evaluate_condition engines e l [] ≡ ok b)
  unfolding check_expression truthy evaluate_condition
  check_expression_ok e l h = elim (Bool-cases (e == "")) [
    | inl empty ↦ (true, rw empty)
    | inr ne ↦ checked_ok (evaluate_condition engines e l []) (sym (checks e l ne) ∙ h)
  ]

  -- If a configuration of a flow that messages trigger was accepted, then its condition is
  -- evaluated on every message, or the expression library refuses it on that message: its language
  -- is known and its length is within the limit.
  pub validate_mq_config-IsEvaluated :
      (cfg : Dict Value) (trigger_type e l : String) (payload : Dict Value)
      → (trigger_type == "mq" || trigger_type == "both") ≡ true
      → validate_mq_config engines (some cfg) trigger_type ≡ ok tt
      → get_value "condition_expression" null cfg ≡ text e
      → get_value "condition_language" (text "jmespath") cfg ≡ text l
      → IsEvaluated (evaluate_condition engines e l payload)
  validate_mq_config-IsEvaluated cfg trigger_type e l payload by_message accepted is_e is_l =
      let (a, rest) = accepted_parts cfg trigger_type by_message accepted in
      let lang = subst (λ (v : Value). is_language v ≡ true) is_l a in
      let (b, fits) = check_expression_ok e l (
        sym (ap (λ (v : Value). check_expression engines v (text l)) is_e)
        ∙ sym (
            ap
              (λ (v : Value).
                check_expression engines (get_value "condition_expression" null cfg) v)
              is_l)
        ∙ rest) in
      IsEvaluated-anywhere e l b payload lang fits
