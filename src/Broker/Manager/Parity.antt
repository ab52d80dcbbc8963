-- ===== src/Broker/Manager/Parity.antt =====
-- The local consumer (backend/app/core/mq/consumer_manager.py) against the pod of the runner
-- (runner/entrypoint.py).
use mathlib.Core.Option.{none-ne-some}
use python_flow_hub.Prelude.{
  ℕ, String, ◌≡◌, refl, sym, ◌∙◌, ap, true, Option, some, [], Dict, leb, Result, ok, err,
  Bool-cases, inl, inr,
}
use python_flow_hub.Value.{Value}
use python_flow_hub.Runtime.Errors.{Error}
use python_flow_hub.Runtime.Engines.{Engines}
use python_flow_hub.Runtime.Messages.{protocol_compatible}
use python_flow_hub.Consumer.{Action, ack, backoff, nack}
use python_flow_hub.Broker.{
  Codec, Decoded, not_utf8, not_json, parsed, Message, Desk, emit, retry_count,
}
use python_flow_hub.Broker.Runner.{Consume, nack_on_error, on_message}
use python_flow_hub.Broker.Runner.Plan.{or_empty, always, body_of, fresh, plan, on_message-plan}
use python_flow_hub.Broker.Runner.Retries.{Reads}
use python_flow_hub.Broker.Manager.{
  Tally, body_or_empty, max_retry, retry_or_archive, settle_action, safety_retry, with_action,
  handle_message, recover, consume_one, then_count, tally_for,
}

body_as :
    (decoded : Decoded) (body : Dict Value)
    → body_of decoded ≡ some body
    → body_or_empty decoded ≡ body
body_as not_utf8 body e = absurd (none-ne-some body e)
body_as not_json body e = ap (λ (o : Option (Dict Value)). or_empty o) e
body_as (parsed b) body e = ap (λ (o : Option (Dict Value)). or_empty o) e

module _ {S : Type 0} (codec : Codec) (engines : Engines) (api_id : String) (mq_config : Dict Value)
    (limit : ℕ) (message : Message) (count : ℕ) where
  abbrev planned : Action → S → Desk S
  planned action s = record { inner = s; effects = plan codec api_id limit message count action }

  retry_or_archive-plan :
      (s : S)
      → retry_or_archive codec engines always api_id mq_config message count limit (fresh s)
        ≡ (ok tt, planned nack s)
  unfolding retry_or_archive emit
  retry_or_archive-plan s = elim (Bool-cases (leb limit count)) [
    | inl enough ↦ rw enough
    | inr more ↦ rw more
  ]

  settle_action-plan :
      (action : Action) (s : S)
      → settle_action codec engines always api_id mq_config message count limit action (fresh s)
        ≡ (ok tt, planned action s)
  unfolding settle_action emit
  settle_action-plan ack s = refl
  settle_action-plan backoff s = refl
  settle_action-plan nack s = retry_or_archive-plan s

  module _ (known : max_retry codec mq_config ≡ some limit)
      (counted : retry_count codec message.headers ≡ some count) where
    safety_retry-plan :
        (s : S)
        → safety_retry codec engines always api_id mq_config message (fresh s) ≡ planned nack s
    unfolding safety_retry
    safety_retry-plan s =
        rw (counted, safety_retry)
          (rw (known, safety_retry)
            (ap (λ (x : Result Error (Unit {0}) × Desk S). x.1) (retry_or_archive-plan s)))

    -- The loop's turn after the consumer's answer.
    turn_after :
        (describe : Error → String) (r : Result Error Action) (s : S) (t : Tally)
        → (recover codec engines always api_id mq_config describe message
            (with_action codec engines always api_id mq_config message count limit (r, s) [] t)).0
          ≡ planned (nack_on_error r) s
    unfolding with_action
    turn_after describe (err e) s t = safety_retry-plan s
    turn_after describe (ok action) s t =
        ap
          (λ (x : Result Error (Unit {0}) × Desk S).
            (recover codec engines always api_id mq_config describe message
              (then_count codec engines always api_id mq_config x (tally_for action) t)).0)
          (settle_action-plan action s)

    handle_message_as :
        (consume : Consume S) (s : S) (t : Tally)
        → protocol_compatible engines message.headers ≡ true
        → handle_message codec engines always api_id mq_config consume message (fresh s) t
          ≡ with_action codec engines always api_id mq_config message count limit
              (consume (body_or_empty (codec.decode message.body)) count message.message_id s)
              []
              t
    unfolding handle_message
    handle_message_as consume s t fits =
        rw (counted, handle_message) (rw (known, handle_message) (rw fits))

    -- For a message that can be read, with the limit of retries that its configuration names and
    -- while the connection holds, one turn of the local consumer's loop leaves the same state and
    -- sends the same commands as the handler of the runner's pod, also when the handling raises.
    pub consume_one-on_message :
        (describe : Error → String) (consume : Consume S) (body : Dict Value) (s : S) (t : Tally)
        → Reads codec engines message count body
        → (consume_one codec engines always api_id mq_config describe consume message (fresh s) t).0
          ≡ (on_message codec engines always api_id limit consume message (fresh s)).1
    unfolding consume_one
    consume_one-on_message describe consume body s t reads =
        let same = body_as (codec.decode message.body) body reads.readable in
        let (r, s') = consume body count message.message_id s in
        ap
          (λ (x : Result Error (Unit {0}) × Desk S × Tally).
            (recover codec engines always api_id mq_config describe message x).0)
          (handle_message_as consume s t reads.fits
            ∙ ap
                (λ (b : Dict Value).
                  with_action codec engines always api_id mq_config message count limit
                    (consume b count message.message_id s) [] t)
                same)
        ∙ turn_after describe r s' t
        ∙ sym (
            ap (λ (x : Result Error (Unit {0}) × Desk S). x.1)
              (on_message-plan codec engines api_id limit consume message count body reads.fits
                reads.counted reads.readable s))
