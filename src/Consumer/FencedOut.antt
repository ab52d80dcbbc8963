-- ===== src/Consumer/FencedOut.antt =====
-- The end of an execution whose ownership was lost (pyflow_runtime/consumer.py).
use python_flow_hub.Prelude.{
  ℕ, String, ◌≡◌, refl, ap, Bool, false, some, Dict, if◌then◌else◌, Result, ok, Option-cases, inl,
  inr, ◌⊎◌,
}
use python_flow_hub.Value.{Value, null}
use python_flow_hub.Runtime.Errors.{Error}
use python_flow_hub.Runtime.Engines.{Engines}
use python_flow_hub.Idempotency.Redis.{State, Redis, state_key}
use python_flow_hub.Idempotency.Scripts.{
  is_owner, update_owned_absent, update_owned_other, lua_set_terminal,
}
use python_flow_hub.Idempotency.Store.{set_terminal}
use python_flow_hub.Consumer.{
  MqConfig, Action, ack, backoff, nack, Outcome, returned, failed, lease_lost, Env, World,
  send_reply, terminal, conclude,
}

module _ (redis : Redis) (engines : Engines) (pod : String) (env : Env redis) (id : String)
    (ttl : ℕ) (token : ℕ) where
  open redis use {Server, get}

  -- The state under the identity, if there is one, is another owner's.
  abbrev pub IsLost : Server → Type 0
  IsLost s = (st : State) → get s (state_key id) ≡ some st → is_owner token pod st ≡ false

  set_terminal_lost :
      (status : String) (result : Value) (s : Server)
      → IsLost s
      → set_terminal redis pod id token status result ttl s ≡ (false, s)
  unfolding set_terminal lua_set_terminal
  set_terminal_lost status result s lost = elim (Option-cases (get s (state_key id))) [
    | inl e ↦ update_owned_absent redis (state_key id) token pod ttl _ s e
    | inr (st, e) ↦ update_owned_other redis (state_key id) token pod ttl _ s st e (lost st e)
  ]

  -- The message is put back after a lost lease, rejected after a failure, else acknowledged.
  unfoldable pub action_after : Outcome → Action
  action_after lease_lost = backoff
  action_after failed = nack
  action_after (returned v) = ack

  abbrev pub Leaves : World redis → Result Error Action × World redis → Outcome → Type 0
  Leaves w r o =
      (r.0 ≡ ok (action_after o))
      × (r.1.published ≡ w.published)
      × ((r.1.server ≡ w.server) ⊎ (r.1.server ≡ env.others 5 w.server))

  after_terminal :
      (status : String) (result : Value) (w : World redis)
      → IsLost (env.others 5 w.server)
      → terminal redis engines pod env id ttl token status result w
        ≡ (false, record w { server = env.others 5 w.server })
  after_terminal status result w lost =
      ap (λ (x : Bool × Server). (x.0, record w { server = x.1 }))
        (set_terminal_lost status result (env.others 5 w.server) lost)

  -- Once another owner holds the execution, or its state is gone, when the end of the work is to
  -- be written, this pod writes nothing and publishes no reply, whatever the outcome: Redis is as
  -- the others left it. The message is put back after a lost lease, rejected after a failure, and
  -- otherwise acknowledged.
  pub conclude-Leaves :
      (cfg : MqConfig) (body : Dict Value) (business_id : String) (o : Outcome) (w : World redis)
      → IsLost (env.others 5 w.server)
      → Leaves w (conclude redis engines pod env id ttl cfg body business_id token o w) o
  unfolding conclude action_after
  conclude-Leaves cfg body business_id lease_lost w lost = (refl, refl, inl refl)
  conclude-Leaves cfg body business_id failed w lost =
      let e = after_terminal "FAILED" null w lost in
      (
        refl,
        ap (λ (x : Bool × World redis). x.1.published) e,
        inr (ap (λ (x : Bool × World redis). x.1.server) e),
      )
  conclude-Leaves cfg body business_id (returned v) w lost =
      let e =
        ap
          (λ (x : Bool × World redis).
            if x.0
            then send_reply redis engines pod env id ttl cfg body business_id token v x.1
            else (ok ack, x.1))
          (after_terminal "SUCCESS" v w lost) in
      (
        ap (λ (r : Result Error Action × World redis). r.0) e,
        ap (λ (r : Result Error Action × World redis). r.1.published) e,
        inr (ap (λ (r : Result Error Action × World redis). r.1.server) e),
      )
