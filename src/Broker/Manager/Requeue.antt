-- ===== src/Broker/Manager/Requeue.antt =====
-- `requeue_dlq` of backend/app/core/mq/consumer_manager.py, on the messages that wait in the queue.
use mathlib.Core.List.{append_assoc, append-nil}
use python_flow_hub.Prelude.{
  ℕ, suc, ◌+◌, String, ◌≡◌, sym, ◌∙◌, ap, Bool, some, List, [], ◌∷◌, ◌++◌, Dict, insert, length,
  Result, ok, arith,
}
use python_flow_hub.Value.{Value, text}
use python_flow_hub.Runtime.Errors.{Error}
use python_flow_hub.Runtime.Queues.{main_queue}
use python_flow_hub.Broker.{
  Codec, Message, Copy, Effect, published, acked, Desk, Act, ◌>>◌, emit, republish, retry_count,
  with_retry_count,
}
use python_flow_hub.Broker.Runner.Plan.{always}
use python_flow_hub.Broker.Runner.Retries.{retry_count-with_retry_count}

-- The headers with a count of "0".
unfoldable pub reset_headers : Dict Value → Dict Value
reset_headers headers = insert "x-retry-count" (text "0") headers

module _ {S : Type 0} (up : List Effect → Bool) (api_id : String) where
  -- The loop, with the number of messages that were moved; an exception ends it.
  unfoldable pub requeue_dlq : List Message → ℕ → Act S ℕ
  unfolding emit reset_headers
  requeue_dlq [] moved d = (ok moved, d)
  requeue_dlq (message ∷ messages) moved d =
      (republish up (main_queue api_id) message.body (reset_headers message.headers)
          >> (emit up acked >> requeue_dlq messages (moved + 1)))
        d

abbrev pub requeued_copy : String → Message → Copy
requeued_copy api_id message = record {
  routing_key = main_queue api_id;
  body = message.body;
  headers = reset_headers message.headers;
}

-- Each message is published to the main queue, and acknowledged after that.
abbrev pub requeued : String → List Message → List Effect
requeued api_id [] = []
requeued api_id (message ∷ messages) =
    published (requeued_copy api_id message) ∷ acked ∷ requeued api_id messages

abbrev pub moved_to : {S : Type 0} → S → ℕ → List Effect → Result Error ℕ × Desk S
moved_to s n effects = (ok n, record { inner = s; effects = effects })

requeue_dlq_from :
    {S : Type 0} (api_id : String) (messages : List Message) (moved : ℕ) (s : S)
    (effects : List Effect)
    → requeue_dlq always api_id messages moved (record { inner = s; effects = effects })
      ≡ moved_to s (moved + length messages) (effects ++ requeued api_id messages)
unfolding requeue_dlq emit
requeue_dlq_from api_id [] moved s effects =
    ap (λ (n : ℕ). moved_to s n effects) (omega arith)
    ∙ ap (λ (t : List Effect). moved_to s (moved + 0) t) (sym (append-nil effects))
requeue_dlq_from api_id (message ∷ messages) moved s effects =
    let copy = published (requeued_copy api_id message) in
    requeue_dlq_from api_id messages (moved + 1) s ((effects ++ copy ∷ []) ++ acked ∷ [])
    ∙ ap
        (λ (n : ℕ).
          moved_to s n (((effects ++ copy ∷ []) ++ acked ∷ []) ++ requeued api_id messages))
        (omega arith)
    ∙ ap (λ (t : List Effect). moved_to s (moved + suc (length messages)) t) (simp append_assoc)

with_zero :
    (codec : Codec) (headers : Dict Value)
    → retry_count codec (insert "x-retry-count" (text (codec.str 0)) headers) ≡ some 0
unfolding with_retry_count
with_zero codec headers = retry_count-with_retry_count codec 0 headers

-- While the connection holds, the waiting messages go to the main queue in their order, each with
-- its body, and each is acknowledged after its copy was published; the number that is returned is
-- theirs. A copy is read with a count of 0.
pub requeue_dlq-requeued :
    {S : Type 0} (codec : Codec) (api_id : String) (messages : List Message) (s : S)
    → (requeue_dlq always api_id messages 0 (record { inner = s; effects = [] })
        ≡ moved_to s (length messages) (requeued api_id messages))
      × ((message : Message) → retry_count codec (requeued_copy api_id message).headers ≡ some 0)
unfolding reset_headers
requeue_dlq-requeued codec api_id messages s = (
  requeue_dlq_from api_id messages 0 s []
      ∙ ap (λ (n : ℕ). moved_to s n (requeued api_id messages)) (omega arith),
  λ message.
      ap (λ (t : String). retry_count codec (insert "x-retry-count" (text t) message.headers))
        (sym codec.str-zero)
      ∙ with_zero codec message.headers,
)
