-- ===== src/Broker/Manager.antt =====
-- The handling of one message by `ConsumerManager` (backend/app/core/mq/consumer_manager.py).
pub mod Parity
pub mod Degraded
pub mod Requeue
pub mod Lifecycle
pub mod Samples
use python_flow_hub.Prelude.{
  ℕ, suc, ◌+◌, String, Bool, true, false, not, Option, none, some, List, [], ◌∷◌, Dict, insert, leb,
  if◌then◌else◌, Result, ok, err,
}
use python_flow_hub.Value.{Value, num, pos, text, get_value}
use python_flow_hub.Runtime.Errors.{Error, raised}
use python_flow_hub.Runtime.Engines.{Engines}
use python_flow_hub.Runtime.Messages.{protocol_compatible}
use python_flow_hub.Runtime.Queues.{dlq_queue, dead_queue, backoff_queue, main_queue}
use python_flow_hub.Consumer.{Action, ack, backoff, nack}
use python_flow_hub.Broker.{
  Codec, Decoded, not_utf8, not_json, parsed, Message, Effect, acked, Desk, Act, ◌>>=◌, ◌>>◌, emit,
  retry_count, with_retry_count, republish,
}
use python_flow_hub.Broker.Runner.{Consume}

-- The counters of `ConsumerStatus`.
pub record Tally : Type 0 where
  pub processed : ℕ
  pub errors : ℕ
  pub last_error : Option String

abbrev pub count_processed : Tally → Tally
count_processed t = record t { processed = t.processed + 1 }

abbrev pub count_error : Tally → Tally
count_error t = record t { errors = t.errors + 1 }

abbrev pub count_mismatch : Tally → Tally
count_mismatch t = record t { errors = t.errors + 1; last_error = some "protocol mismatch" }

-- Any exception of the decoding gives an empty body.
abbrev pub body_or_empty : Decoded → Dict Value
body_or_empty not_utf8 = []
body_or_empty not_json = []
body_or_empty (parsed body) = body

-- `int(mq_cfg.get("max_retry", 3))`
abbrev pub max_retry : Codec → Dict Value → Option ℕ
max_retry codec mq_config = codec.int (get_value "max_retry" (num (pos 3)) mq_config)

abbrev pub tally_for : Action → Tally → Tally
tally_for ack t = count_processed t
tally_for backoff t = t
tally_for nack t = count_error t

module _ {S : Type 0} (codec : Codec) (engines : Engines) (up : List Effect → Bool)
    (api_id : String) (mq_config : Dict Value) where
  abbrev pub publish_dead : Message → Act S (Unit {0})
  publish_dead message = republish up (dead_queue api_id) message.body message.headers

  abbrev pub publish_backoff : Message → Act S (Unit {0})
  publish_backoff message = republish up (backoff_queue api_id) message.body message.headers

  abbrev pub publish_retry : Message → ℕ → Act S (Unit {0})
  publish_retry message new_retry_count =
      republish up (dlq_queue api_id) message.body
        (with_retry_count codec new_retry_count message.headers)

  unfoldable pub retry_or_archive : Message → (count limit : ℕ) → Act S (Unit {0})
  unfolding emit with_retry_count
  retry_or_archive message count limit =
      (if leb limit count then publish_dead message else publish_retry message (suc count))
      >> emit up acked

  unfoldable pub settle_action : Message → (count limit : ℕ) → Action → Act S (Unit {0})
  unfolding emit retry_or_archive
  settle_action message count limit ack = emit up acked
  settle_action message count limit backoff = publish_backoff message >> emit up acked
  settle_action message count limit nack = retry_or_archive message count limit

  -- `self._safety_retry`: every exception is suppressed.
  unfoldable pub safety_retry : Message → Desk S → Desk S
  unfolding retry_count retry_or_archive
  safety_retry message d = elim (retry_count codec message.headers) [
    | none ↦ d
    | some count ↦ elim (max_retry codec mq_config) [
      | none ↦ d
      | some limit ↦ (retry_or_archive message count limit d).1
    ]
  ]

  -- A step and, if it returns, the change of the counters after it.
  abbrev pub then_count :
      Result Error (Unit {0}) × Desk S
      → (Tally → Tally)
      → Tally
      → Result Error (Unit {0}) × Desk S × Tally
  then_count (ok tt, d) f t = (ok tt, d, f t)
  then_count (err e, d) f t = (err e, d, t)

  unfoldable pub with_action :
      Message
      → (count limit : ℕ) → Result Error Action × S
      → List Effect
      → Tally
      → Result Error (Unit {0}) × Desk S × Tally
  unfolding settle_action
  with_action message count limit (err e, s) effects t =
      (err e, record { inner = s; effects = effects }, t)
  with_action message count limit (ok action, s) effects t =
      then_count
        (settle_action message count limit action (record { inner = s; effects = effects }))
        (tally_for action) t

  -- `_handle_message`; `consume` is the consumer with or without Redis.
  unfoldable pub handle_message :
      Consume S → Message → Desk S → Tally → Result Error (Unit {0}) × Desk S × Tally
  unfolding retry_count emit with_action
  handle_message consume message d t = elim (retry_count codec message.headers) [
    | none ↦ (err (raised "ValueError"), d, t)
    | some count ↦ elim (max_retry codec mq_config) [
      | none ↦ (err (raised "ValueError"), d, t)
      | some limit ↦
          if not (protocol_compatible engines message.headers)
          then then_count ((publish_dead message >> emit up acked) d) count_mismatch t
          else with_action message count limit
              (consume (body_or_empty (codec.decode message.body)) count message.message_id d.inner)
              d.effects t
    ]
  ]

  -- What the loop does when the handling raised. `describe` is `str(exc)[:200]`.
  abbrev pub recover :
      (Error → String) → Message → Result Error (Unit {0}) × Desk S × Tally → Desk S × Tally
  recover describe message (ok tt, d, t) = (d, t)
  recover describe message (err e, d, t) =
      (safety_retry message d, record t { errors = t.errors + 1; last_error = some (describe e) })

  -- One turn of `_consume_loop`.
  unfoldable pub consume_one :
      (Error → String) → Consume S → Message → Desk S → Tally → Desk S × Tally
  unfolding handle_message safety_retry
  consume_one describe consume message d t =
      recover describe message (handle_message consume message d t)
