-- ===== src/Runtime/Messages.antt =====
-- The identity of a message (pyflow_runtime/idempotency.py, consumer.py), the inputs that are
-- taken from it (input_mapper.py) and the reply to it (reply_builder.py).
use Prim.Native.String.{◌++◌}
use python_flow_hub.Prelude.{
  ℕ, String, Bool, true, false, ◌&&◌, ◌||◌, Option, none, some, List, [], ◌∷◌, Dict, lookup, insert,
  has_key, if◌then◌else◌, ◌==◌, Result, ok, err, ◌>>=◌,
}
use python_flow_hub.Value.{Value, num, pos, text, as_dict, truthy}
use python_flow_hub.Runtime.Errors.{Error, missing_carry_field, raised}
use python_flow_hub.Runtime.Engines.{Engines}
use python_flow_hub.Runtime.Condition.{extract_path}

abbrev pub get_or {ℓ} : {A : Type ℓ} → Option A → A → A
get_or none d = d
get_or (some a) d = a

-- `value or {}` for a value that is to be a dictionary: `none` stands for an `AttributeError`.
unfoldable pub dict_or_empty : Option Value → Option (Dict Value)
unfolding truthy
dict_or_empty none = some []
dict_or_empty (some v) = if truthy v then as_dict v else some []

abbrev pub is_null : Value → Bool
is_null Value.null = true
is_null (Value.bool b) = false
is_null (Value.num n) = false
is_null (Value.text s) = false
is_null (Value.list xs) = false
is_null (Value.dict fs) = false

-- An item of "carry_fields".
pub record CarryRule : Type 0 where
  pub source_path : String
  pub target_field : String
  pub required : Option Bool

module _ (engines : Engines) where
  abbrev pub or_message_id : Option String → Dict Value → String
  or_message_id none body = engines.body_digest body
  or_message_id (some message_id) body =
      if message_id == "" then engines.body_digest body else message_id

  abbrev pub business_id_of : Option Value → Option String → Dict Value → String
  business_id_of none message_id body = or_message_id message_id body
  business_id_of (some snowflake) message_id body =
      if truthy snowflake then engines.str snowflake else or_message_id message_id body

  unfoldable pub extract_business_id : Dict Value → Option String → Result Error String
  unfolding dict_or_empty
  extract_business_id body message_id = elim (dict_or_empty (lookup "header" body)) [
    | none ↦ err (raised "AttributeError")
    | some header ↦ ok (business_id_of (lookup "snowflakeId" header) message_id body)
  ]

  unfoldable pub build_idempotency_id : String → ℕ → String
  build_idempotency_id business_id retry_count =
      business_id ++ (":" ++ engines.str (num (pos retry_count)))

  -- `map_inputs`, over the items of the mapping.
  unfoldable pub map_fields :
      Dict Value → String → Dict String → Dict Value → Result Error (Dict Value)
  unfolding extract_path
  map_fields payload language [] result = ok result
  map_fields payload language ((target_field, source_path) ∷ rest) result = do
    value ← extract_path engines source_path payload language
    map_fields payload language rest (insert target_field value result)

  unfoldable pub map_inputs : Dict Value → Option (Dict String) → String → Result Error (Dict Value)
  unfolding map_fields
  map_inputs payload none language = ok payload
  map_inputs payload (some []) language = ok payload
  map_inputs payload (some (m ∷ ms)) language = map_fields payload language (m ∷ ms) []

  unfoldable pub carry : Dict Value → List CarryRule → Dict Value → Result Error (Dict Value)
  unfolding extract_path
  carry source [] reply = ok reply
  carry source (rule ∷ rules) reply = do
    value ← extract_path engines rule.source_path source "jsonpath"
    if is_null value && get_or rule.required true
        then err (missing_carry_field rule.source_path)
        else carry source rules (insert rule.target_field value reply)

  -- `reply.setdefault(key, value)`
  abbrev pub set_default : String → Value → Dict Value → Dict Value
  set_default key value reply = if has_key key reply then reply else insert key value reply

  abbrev pub with_dedup : Option String → Dict Value → Dict Value
  with_dedup none reply = reply
  with_dedup (some id) reply = set_default "snowflakeId" (text id) reply

  unfoldable pub build_reply :
      Value → Dict Value → List CarryRule → Option String → Result Error (Dict Value)
  unfolding carry
  build_reply result source carry_fields dedup = do
    reply ← carry source carry_fields (("result", result) ∷ [])
    ok (with_dedup dedup reply)

  -- `_SafeDict.__missing__`
  abbrev pub or_blank : Option Value → Value
  or_blank none = text ""
  or_blank (some v) = v

  unfoldable pub render_reply_routing_key : Option String → Dict Value → String → String
  render_reply_routing_key none reply api_id = ""
  render_reply_routing_key (some template) reply api_id =
      let ctx = set_default "block_id" (text api_id) (set_default "api_id" (text api_id) reply) in
      if template == ""
      then ""
      else get_or (engines.format_map template (λ k. or_blank (lookup k ctx))) template

-- `protocol_compatible` of consumer.py
unfoldable pub protocol_compatible : Engines → Dict Value → Bool
protocol_compatible engines headers = elim (lookup "pyflow-protocol" headers) [
  | none ↦ true
  | some proto ↦ is_null proto || (engines.str proto == "1")
]
