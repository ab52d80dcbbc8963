-- ===== src/Broker/Runner.antt =====
-- `on_message` of `run_flow_consumer` and of `_run_mq_for_api` (runner/entrypoint.py), which are
-- the same code.
pub mod Accounts
pub mod Plan
pub mod Retries
pub mod Identity
pub mod Nodes
pub mod Samples
use python_flow_hub.Prelude.{
  ℕ, suc, String, Bool, true, false, not, Option, none, some, List, [], ◌∷◌, Dict, leb,
  if◌then◌else◌, Result, ok, err,
}
use python_flow_hub.Value.{Value}
use python_flow_hub.Runtime.Errors.{Error, raised}
use python_flow_hub.Runtime.Engines.{Engines}
use python_flow_hub.Runtime.Messages.{protocol_compatible}
use python_flow_hub.Runtime.Queues.{dlq_queue, dead_queue, backoff_queue}
use python_flow_hub.Consumer.{Action, ack, backoff, nack}
use python_flow_hub.Broker.{
  Codec, Decoded, not_utf8, not_json, parsed, Message, Effect, acked, Desk, Act, ◌>>=◌, ◌>>◌, emit,
  retry_count, with_retry_count, republish,
}

-- A consumer of message bodies: `consume_with_idempotency` with all but the message given.
abbrev pub Consume : Type 0 → Type 0
Consume S = Dict Value → ℕ → Option String → S → Result Error Action × S

abbrev pub nack_on_error : Result Error Action → Action
nack_on_error (ok action) = action
nack_on_error (err e) = nack

module _ {S : Type 0} (codec : Codec) (engines : Engines) (up : List Effect → Bool)
    (api_id : String) (max_retry : ℕ) where
  -- `message.ack()`
  abbrev pub acknowledge : Act S (Unit {0})
  acknowledge = emit up acked

  -- A retry goes to the delay queue, and is archived when there were enough.
  unfoldable pub settle_nack : Message → ℕ → Act S (Unit {0})
  unfolding emit with_retry_count
  settle_nack message count =
      (if leb max_retry count
        then republish up (dead_queue api_id) message.body message.headers
        else republish up (dlq_queue api_id) message.body
            (with_retry_count codec (suc count) message.headers))
      >> acknowledge

  unfoldable pub settle_action : Message → ℕ → Action → Act S (Unit {0})
  unfolding emit settle_nack
  settle_action message count ack = acknowledge
  settle_action message count backoff =
      republish up (backoff_queue api_id) message.body message.headers >> acknowledge
  settle_action message count nack = settle_nack message count

  -- The count is read again after the handling.
  unfoldable pub settle : Message → Action → Act S (Unit {0})
  unfolding settle_action retry_count
  settle message action d = elim (retry_count codec message.headers) [
    | none ↦ (err (raised "ValueError"), d)
    | some count ↦ settle_action message count action d
  ]

  -- `consume_with_idempotency` begins by reading the count.
  unfoldable pub consume_message : Consume S → Message → Dict Value → S → Result Error Action × S
  unfolding retry_count
  consume_message consume message body s = elim (retry_count codec message.headers) [
    | none ↦ (err (raised "ValueError"), s)
    | some count ↦ consume body count message.message_id s
  ]

  unfoldable pub handle : Consume S → Message → Dict Value → Act S (Unit {0})
  unfolding consume_message settle
  handle consume message body d =
      let (r, s) = consume_message consume message body d.inner in
      settle message (nack_on_error r) (record d { inner = s })

  -- A body that is no JSON reads as empty; one that is no UTF-8 raises, outside the `try`.
  unfoldable pub handle_decoded : Consume S → Message → Decoded → Act S (Unit {0})
  unfolding handle
  handle_decoded consume message not_utf8 d = (err (raised "UnicodeDecodeError"), d)
  handle_decoded consume message not_json d = handle consume message [] d
  handle_decoded consume message (parsed body) d = handle consume message body d

  unfoldable pub on_message : Consume S → Message → Act S (Unit {0})
  unfolding emit handle_decoded
  on_message consume message d =
      if not (protocol_compatible engines message.headers)
      then (republish up (dead_queue api_id) message.body message.headers >> acknowledge) d
      else handle_decoded consume message (codec.decode message.body) d
