-- ===== src/Broker/Runner/Identity.antt =====
-- The identity of a message that comes back (runner/entrypoint.py, pyflow_runtime/idempotency.py).
use python_flow_hub.Prelude.{ℕ, String, ◌≡◌, ◌≢◌, some, Dict, ok}
use python_flow_hub.Value.{Value}
use python_flow_hub.Runtime.Engines.{Engines}
use python_flow_hub.Runtime.Messages.{extract_business_id, build_idempotency_id}
use python_flow_hub.Runtime.Queues.{backoff_queue}
use python_flow_hub.Broker.{Codec, Message, Copy, retry_count}
use python_flow_hub.Broker.Runner.{Consume, on_message}
use python_flow_hub.Broker.Runner.Plan.{always, fresh}
use python_flow_hub.Broker.Runner.Retries.{redelivered, first_copy}

module _ {S : Type 0} (codec : Codec) (engines : Engines) (api_id : String) (max_retry : ℕ)
    (consume : Consume S) (message : Message) (count : ℕ) (body : Dict Value) (id : String)
    (s : S) where
  -- The copy of the message in the back-off queue, and the two identities.
  abbrev pub LosesId : Type 0
  LosesId =
      (copy : Copy) × (first_copy
          (on_message codec engines always api_id max_retry consume message (fresh s)).1.effects
        ≡ some copy)
      × (copy.routing_key ≡ backoff_queue api_id)
      × (copy.body ≡ message.body)
      × (retry_count codec copy.headers ≡ some count)
      × (extract_business_id engines body (some id) ≡ ok id)
      × (extract_business_id engines body (redelivered copy).message_id
          ≡ ok (engines.body_digest body))
      × (build_idempotency_id engines id count
          ≢ build_idempotency_id engines (engines.body_digest body) count)
