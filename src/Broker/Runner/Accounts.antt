-- ===== src/Broker/Runner/Accounts.antt =====
-- No message is lost by `on_message` (runner/entrypoint.py), also when the connection fails at any
-- command.
use mathlib.Core.List.{append_assoc, append-nil}
use python_flow_hub.Prelude.{
  ℕ, suc, String, ◌≡◌, refl, sym, ◌∙◌, Bool, List, [], ◌∷◌, ◌++◌, Dict, leb, Result, ok, err,
  Bool-cases, Option-cases, inl, inr,
}
use python_flow_hub.Value.{Value}
use python_flow_hub.Runtime.Errors.{Error}
use python_flow_hub.Runtime.Engines.{Engines}
use python_flow_hub.Runtime.Messages.{protocol_compatible}
use python_flow_hub.Runtime.Queues.{dlq_queue, dead_queue, backoff_queue}
use python_flow_hub.Consumer.{Action, ack, backoff, nack}
use python_flow_hub.Broker.{
  Codec, Decoded, not_utf8, not_json, parsed, Message, Copy, Effect, published, acked, Desk, ◌>>◌,
  emit, retry_count, with_retry_count, republish,
}
use python_flow_hub.Broker.Runner.{
  Consume, nack_on_error, settle_nack, settle_action, settle, consume_message, handle,
  handle_decoded, on_message,
}

-- What may be sent to the broker for a message: nothing; a copy, and then the acknowledgement; or
-- the acknowledgement alone, of a message that is `finished`.
pub data Account (message : Message) (finished : Type 0) : List Effect → Type 0 where
  untouched : Account message finished []
  copied : (copy : Copy) → copy.body ≡ message.body → Account message finished (published copy ∷ [])
  passed_on :
      (copy : Copy)
      → copy.body ≡ message.body
      → Account message finished (published copy ∷ acked ∷ [])
  done : finished → Account message finished (acked ∷ [])

-- The effects after a command are those before it and an account of the message.
abbrev pub Accounts : Message → Type 0 → List Effect → List Effect → Type 0
Accounts message finished old new =
    (more : List Effect) × (new ≡ old ++ more) × Account message finished more

nothing_sent :
    (message : Message) (finished : Type 0) (old new : List Effect)
    → new ≡ old
    → Accounts message finished old new
nothing_sent message finished old new e = ([], e ∙ sym (append-nil old), Account.untouched)

handled_ack : (r : Result Error Action) → nack_on_error r ≡ ack → r ≡ ok ack
handled_ack (ok ack) h = refl
handled_ack (ok backoff) h = absurd (cc)
handled_ack (ok nack) h = absurd (cc)
handled_ack (err e) h = absurd (cc)

module _ {S : Type 0} (up : List Effect → Bool) (message : Message) (finished : Type 0) where
  acknowledge-Accounts :
      (d : Desk S) → finished → Accounts message finished d.effects (emit up acked d).1.effects
  unfolding emit
  acknowledge-Accounts d h = elim (Bool-cases (up d.effects)) [
    | inl works ↦ rw works (acked ∷ [], refl, Account.done h)
    | inr fails ↦ rw fails (nothing_sent message finished d.effects d.effects refl)
  ]

  republish-Accounts :
      (routing_key : String) (headers : Dict Value) (d : Desk S)
      → Accounts message finished d.effects
          ((republish up routing_key message.body headers >> emit up acked) d).1.effects
  unfolding emit
  republish-Accounts routing_key headers d = elim (Bool-cases (up d.effects)) [
    | inr fails ↦ rw fails (nothing_sent message finished d.effects d.effects refl)
    | inl works ↦
        let copy : Copy = record {
          routing_key = routing_key;
          body = message.body;
          headers = headers;
        } in
        elim (Bool-cases (up (d.effects ++ published copy ∷ []))) [
          | inr fails ↦ rw works (rw fails (published copy ∷ [], refl, Account.copied copy refl))
          | inl works' ↦ rw works (
              rw works' (
                published copy ∷ acked ∷ [],
                append_assoc d.effects (published copy ∷ []) (acked ∷ []),
                Account.passed_on copy refl,
              ))
        ]
  ]

module _ {S : Type 0} (codec : Codec) (engines : Engines) (up : List Effect → Bool)
    (api_id : String) (max_retry : ℕ) where
  settle_nack-Accounts :
      (message : Message) (finished : Type 0) (count : ℕ) (d : Desk S)
      → Accounts message finished d.effects
          (settle_nack codec engines up api_id max_retry message count d).1.effects
  unfolding settle_nack
  settle_nack-Accounts message finished count d = elim (Bool-cases (leb max_retry count)) [
    | inl enough ↦
        rw enough (republish-Accounts up message finished (dead_queue api_id) message.headers d)
    | inr more ↦ rw more (
        republish-Accounts up message finished (dlq_queue api_id)
          (with_retry_count codec (suc count) message.headers) d)
  ]

  settle_action-Accounts :
      (message : Message) (finished : Type 0) (count : ℕ) (action : Action) (d : Desk S)
      → (action ≡ ack → finished)
      → Accounts message finished d.effects
          (settle_action codec engines up api_id max_retry message count action d).1.effects
  unfolding settle_action
  settle_action-Accounts message finished count ack d h =
      acknowledge-Accounts up message finished d (h refl)
  settle_action-Accounts message finished count backoff d h =
      republish-Accounts up message finished (backoff_queue api_id) message.headers d
  settle_action-Accounts message finished count nack d h =
      settle_nack-Accounts message finished count d

  settle-Accounts :
      (message : Message) (finished : Type 0) (action : Action) (d : Desk S)
      → (action ≡ ack → finished)
      → Accounts message finished d.effects
          (settle codec engines up api_id max_retry message action d).1.effects
  unfolding settle
  settle-Accounts message finished action d h =
      elim (Option-cases (retry_count codec message.headers)) [
        | inl none_read ↦ rw (none_read, settle) (nothing_sent message finished d.effects _ refl)
        | inr (count, read) ↦
            rw (read, settle) (settle_action-Accounts message finished count action d h)
      ]

  -- The handling of `message` ended with "ack".
  abbrev pub IsFinished : Consume S → Message → S → Type 0
  IsFinished consume message s =
      (body : Dict Value) × ((consume_message codec engines up api_id max_retry consume message body
          s).0
        ≡ ok ack)

  handle-Accounts :
      (consume : Consume S) (message : Message) (body : Dict Value) (d : Desk S)
      → Accounts message
          (IsFinished consume message d.inner)
          d.effects
          (handle codec engines up api_id max_retry consume message body d).1.effects
  unfolding handle
  handle-Accounts consume message body d =
      let r = consume_message codec engines up api_id max_retry consume message body d.inner in
      settle-Accounts message (IsFinished consume message d.inner) (nack_on_error r.0)
        (record d { inner = r.1 }) (λ h. (body, handled_ack r.0 h))

  by_decoded :
      (consume : Consume S) (message : Message) (d : Desk S) (decoded : Decoded)
      → Accounts message
          (IsFinished consume message d.inner)
          d.effects
          (handle_decoded codec engines up api_id max_retry consume message decoded d).1.effects
  unfolding handle_decoded
  by_decoded consume message d not_utf8 =
      nothing_sent message (IsFinished consume message d.inner) d.effects _ refl
  by_decoded consume message d not_json = handle-Accounts consume message [] d
  by_decoded consume message d (parsed body) = handle-Accounts consume message body d

  -- Whatever the message and whenever the connection fails, what `on_message` sends is nothing, or
  -- a copy with the message's body, or such a copy and then the acknowledgement, or the
  -- acknowledgement alone; the last only if its handling ended with "ack".
  pub on_message-Accounts :
      (consume : Consume S) (message : Message) (d : Desk S)
      → Accounts message
          (IsFinished consume message d.inner)
          d.effects
          (on_message codec engines up api_id max_retry consume message d).1.effects
  unfolding on_message
  on_message-Accounts consume message d =
      elim (Bool-cases (protocol_compatible engines message.headers)) [
        | inr other ↦ rw other (
            republish-Accounts up message (IsFinished consume message d.inner) (dead_queue api_id)
              message.headers d)
        | inl fits ↦ rw fits (by_decoded consume message d (codec.decode message.body))
      ]
