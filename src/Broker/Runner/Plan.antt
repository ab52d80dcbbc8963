-- ===== src/Broker/Runner/Plan.antt =====
-- What `on_message` (runner/entrypoint.py) sends while the connection holds.
use mathlib.Core.Option.{none-ne-some}
use python_flow_hub.Prelude.{
  ℕ, suc, String, ◌≡◌, refl, ◌∙◌, ap, Bool, true, Option, none, some, List, [], ◌∷◌, Dict, leb,
  if◌then◌else◌, Result, ok, Bool-cases, inl, inr,
}
use python_flow_hub.Value.{Value}
use python_flow_hub.Runtime.Errors.{Error}
use python_flow_hub.Runtime.Engines.{Engines}
use python_flow_hub.Runtime.Messages.{protocol_compatible}
use python_flow_hub.Runtime.Queues.{dlq_queue, dead_queue, backoff_queue}
use python_flow_hub.Consumer.{Action, ack, backoff, nack}
use python_flow_hub.Broker.{
  Codec, Decoded, not_utf8, not_json, parsed, Message, Copy, Effect, published, acked, Desk, emit,
  retry_count, with_retry_count,
}
use python_flow_hub.Broker.Runner.{
  Consume, nack_on_error, settle_nack, settle_action, settle, consume_message, handle,
  handle_decoded, on_message,
}

-- The connection holds.
abbrev pub always : List Effect → Bool
always t = true

abbrev pub fresh : {S : Type 0} → S → Desk S
fresh s = record { inner = s; effects = [] }

abbrev pub body_of : Decoded → Option (Dict Value)
body_of not_utf8 = none
body_of not_json = some []
body_of (parsed body) = some body

abbrev pub or_empty : Option (Dict Value) → Dict Value
or_empty none = []
or_empty (some d) = d

module _ (codec : Codec) (api_id : String) (max_retry : ℕ) (message : Message) (count : ℕ) where
  abbrev pub copy_to : String → Dict Value → Copy
  copy_to routing_key headers = record {
    routing_key = routing_key;
    body = message.body;
    headers = headers;
  }

  abbrev pub retry_copy : Copy
  retry_copy =
      if leb max_retry count
      then copy_to (dead_queue api_id) message.headers
      else copy_to (dlq_queue api_id) (with_retry_count codec (suc count) message.headers)

  -- The commands of each action.
  abbrev pub plan : Action → List Effect
  plan ack = acked ∷ []
  plan backoff = published (copy_to (backoff_queue api_id) message.headers) ∷ acked ∷ []
  plan nack = published retry_copy ∷ acked ∷ []

module _ {S : Type 0} (codec : Codec) (engines : Engines) (api_id : String) (max_retry : ℕ) where
  settle_action-plan :
      (message : Message) (count : ℕ) (action : Action) (s : S)
      → settle_action codec engines always api_id max_retry message count action (fresh s)
        ≡ (ok tt, record { inner = s; effects = plan codec api_id max_retry message count action })
  unfolding settle_action settle_nack emit
  settle_action-plan message count ack s = refl
  settle_action-plan message count backoff s = refl
  settle_action-plan message count nack s = elim (Bool-cases (leb max_retry count)) [
    | inl enough ↦ rw enough
    | inr more ↦ rw more
  ]

  -- A message that can be read.
  module _ (consume : Consume S) (message : Message) (count : ℕ) (body : Dict Value)
      (fits : protocol_compatible engines message.headers ≡ true)
      (counted : retry_count codec message.headers ≡ some count)
      (readable : body_of (codec.decode message.body) ≡ some body) (s : S) where
    abbrev pub consumed : Result Error Action × S
    consumed = consume body count message.message_id s

    consume_message_lem :
        consume_message codec engines always api_id max_retry consume message body s ≡ consumed
    unfolding consume_message
    consume_message_lem = rw (counted, consume_message)

    settle_lem :
        (action : Action) (d : Desk S)
        → settle codec engines always api_id max_retry message action d
          ≡ settle_action codec engines always api_id max_retry message count action d
    unfolding settle
    settle_lem action d = rw (counted, settle)

    handle-plan : handle codec engines always api_id max_retry consume message body (fresh s) ≡ (
      ok tt,
      record {
        inner = consumed.1;
        effects = plan codec api_id max_retry message count (nack_on_error consumed.0);
      },
    )
    unfolding handle
    handle-plan =
        ap
          (λ (x : Result Error Action × S).
            settle codec engines always api_id max_retry message (nack_on_error x.0) (fresh x.1))
          consume_message_lem
        ∙ settle_lem (nack_on_error consumed.0) (fresh consumed.1)
        ∙ settle_action-plan message count (nack_on_error consumed.0) consumed.1

    same_body :
        (b : Dict Value)
        → some b ≡ some body
        → handle codec engines always api_id max_retry consume message b (fresh s)
          ≡ handle codec engines always api_id max_retry consume message body (fresh s)
    same_body b e =
        ap
          (λ (o : Option (Dict Value)).
            handle codec engines always api_id max_retry consume message (or_empty o) (fresh s))
          e

    handle_decoded_as :
        (decoded : Decoded)
        → body_of decoded ≡ some body
        → handle_decoded codec engines always api_id max_retry consume message decoded (fresh s)
          ≡ handle codec engines always api_id max_retry consume message body (fresh s)
    unfolding handle_decoded
    handle_decoded_as not_utf8 e = absurd (none-ne-some body e)
    handle_decoded_as not_json e = same_body [] e
    handle_decoded_as (parsed b) e = same_body b e

    -- While the connection holds, a message that can be read is handled once, and its copy and
    -- acknowledgement are those of the action, where an exception counts as "nack".
    pub on_message-plan :
        on_message codec engines always api_id max_retry consume message (fresh s) ≡ (
          ok tt,
          record {
            inner = consumed.1;
            effects = plan codec api_id max_retry message count (nack_on_error consumed.0);
          },
        )
    unfolding on_message
    on_message-plan = rw fits (handle_decoded_as (codec.decode message.body) readable ∙ handle-plan)
