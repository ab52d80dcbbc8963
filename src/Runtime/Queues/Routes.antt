-- ===== src/Runtime/Queues/Routes.antt =====
-- How the queues of a flow feed each other (pyflow_runtime/backoff_queue.py, consumer.py,
-- backend/app/core/mq/topology_builder.py).
use Prim.Native.String.{◌++◌}
use text.Mathlib.TextLemmas.{append_cancel_left}
use text.Mathlib.TextEquality.{eq_iff}
use python_flow_hub.Prelude.{
  ℕ, String, ◌≡◌, ◌≢◌, refl, ◌==◌, false, Option, none, some, [], ◌∷◌, arith,
}
use python_flow_hub.Runtime.Queues.{
  main_queue, dlq_queue, dead_queue, backoff_queue, queue_arguments, dlq_arguments,
  backoff_arguments, Queue, queue_topology, declare_flow_topology, Topology,
}

abbrev of_scope : String → String → String
of_scope suffix scope_id = "flow." ++ (scope_id ++ suffix)

of_scope-ne : (a b scope_id : String) → (a == b) ≡ false → of_scope a scope_id ≢ of_scope b scope_id
of_scope-ne a b scope_id differ e =
    let same = append_cancel_left scope_id a b (append_cancel_left "flow." _ _ e) in
    ground (arith, eq_iff a b, same, differ)

-- The names of a topology are pairwise distinct.
abbrev pub IsDistinct : Topology → Type 0
IsDistinct t =
    (t.main.name ≢ t.dlq.name)
    × (t.main.name ≢ t.backoff.name)
    × (t.main.name ≢ t.dead.name)
    × (t.dlq.name ≢ t.backoff.name)
    × (t.dlq.name ≢ t.dead.name)
    × (t.backoff.name ≢ t.dead.name)

-- A queue that hands what it drops, after `ttl` milliseconds if there is a limit, to the queue
-- `target`, through the default exchange.
abbrev pub Feeds : Queue → Option ℕ → String → Type 0
Feeds q ttl target =
    (q.arguments.dead_letter_exchange ≡ some "")
    × (q.arguments.dead_letter_routing_key ≡ some target)
    × (q.arguments.message_ttl ≡ ttl)

-- The four queues of a scope have different names. Through the default exchange, a message that
-- the main queue drops goes to the retry queue, and one that has waited there for the delay of the
-- retries, or in the back-off queue for two seconds, goes to the main queue; the main queue itself
-- drops no message for its age, and the archive keeps what it is given. The control plane declares
-- the queues that the runtime expects, each once, and returns their names.
pub declare_flow_topology-queue_topology :
    (scope_id : String) (retry_delay_ms : ℕ)
    → let t = queue_topology scope_id retry_delay_ms in
      let d = declare_flow_topology scope_id retry_delay_ms in
      IsDistinct t
      × Feeds t.main none t.dlq.name
      × Feeds t.dlq (some retry_delay_ms) t.main.name
      × Feeds t.backoff (some 2000) t.main.name
      × (t.dead.arguments.dead_letter_exchange ≡ none)
      × (t.dead.arguments.message_ttl ≡ none)
      × (d.0 ≡ t.main ∷ t.dlq ∷ t.backoff ∷ t.dead ∷ [])
      × (d.1 ≡ record {
        main = t.main.name;
        dlq = t.dlq.name;
        backoff = t.backoff.name;
        dead = t.dead.name;
      })
unfolding queue_topology declare_flow_topology main_queue dlq_queue backoff_queue dead_queue
    queue_arguments dlq_arguments backoff_arguments
declare_flow_topology-queue_topology scope_id retry_delay_ms = (
  (
    of_scope-ne ".queue" ".dlq" scope_id refl,
    of_scope-ne ".queue" ".backoff" scope_id refl,
    of_scope-ne ".queue" ".dead" scope_id refl,
    of_scope-ne ".dlq" ".backoff" scope_id refl,
    of_scope-ne ".dlq" ".dead" scope_id refl,
    of_scope-ne ".backoff" ".dead" scope_id refl,
  ),
  (refl, refl, refl),
  (refl, refl, refl),
  (refl, refl, refl),
  refl,
  refl,
  refl,
  refl,
)
