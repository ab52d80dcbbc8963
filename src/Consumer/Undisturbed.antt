-- ===== src/Consumer/Undisturbed.antt =====
-- Handling a message while no other client acts (pyflow_runtime/consumer.py).
use python_flow_hub.Prelude.{
  ℕ, ◌+◌, ◌<◌, String, ◌≡◌, refl, ◌∙◌, ap, Bool, true, false, Option, none, some, [], ◌∷◌, ◌++◌,
  Dict, eq_refl, Result, ok, err, Result-cases, Bool-cases, Option-cases, inl, inr, arith,
}
use python_flow_hub.Value.{Value}
use python_flow_hub.Runtime.Errors.{Error}
use python_flow_hub.Runtime.Engines.{Engines}
use python_flow_hub.Runtime.Messages.{map_inputs, build_reply}
use python_flow_hub.Idempotency.Redis.{State, Redis, state_key}
use python_flow_hub.Idempotency.Scripts.{
  is_owner, update_owned, update_owned_owner, update_owned_other, lua_heartbeat, lua_set_terminal,
  lua_mark_reply,
}
use python_flow_hub.Idempotency.Store.{heartbeat, set_terminal, mark_reply_sent}
use python_flow_hub.Consumer.{
  MqConfig, Action, ack, returned, Work, Env, World, default_lease_ttl, execute_with_lease, publish,
  reply_with, send_reply, conclude, is_satisfied, run_claimed, handle_claimed, with_action,
}
use python_flow_hub.Consumer.Claimed.{conclude_executed}

module _ (redis : Redis) where
  open redis use {Server, get, set}

  -- Work that meets no fault and no other client, and returns `v`.
  pub data Undisturbed (v : Value) : Work redis → Type 0 where
    ends : Undisturbed v (Work.finish (λ s. s) (ok v))
    beats :
        (now : ℕ) (rest : Work redis)
        → Undisturbed v rest
        → Undisturbed v (Work.beat now false (λ s. s) rest)

  module _ (pod : String) (id : String) (token ttl : ℕ) (pos : 0 < ttl) where
    abbrev sk : String
    sk = state_key id

    abbrev pub Owned : Server → Type 0
    Owned s = (st : State) × (get s sk ≡ some st) × (is_owner token pod st ≡ true)

    owned_write :
        (change : State → State) (s : Server) (st : State)
        → get s sk ≡ some st
        → is_owner token pod st ≡ true
        → ((update_owned redis sk token pod ttl change s).0 ≡ true)
          × (get (update_owned redis sk token pod ttl change s).1 sk ≡ some (change st))
    owned_write change s st found owner =
        let e = update_owned_owner redis sk token pod ttl change s st found owner in
        (
          ap (λ (x : Bool × Server). x.0) e,
          ap (λ (x : Bool × Server). get x.1 sk) e
              ∙ ground (arith, redis.get-set s sk sk (change st) ttl, eq_refl sk),
        )

    execute_with_lease-Owned :
        (lease : ℕ) (v : Value) (work : Work redis) (s : Server)
        → Undisturbed v work
        → Owned s
        → ((execute_with_lease redis pod id token lease ttl work s).0 ≡ returned v)
          × Owned (execute_with_lease redis pod id token lease ttl work s).1
    unfolding execute_with_lease heartbeat lua_heartbeat
    execute_with_lease-Owned lease v _ s ends o = (refl, o)
    execute_with_lease-Owned lease v _ s (beats now rest u) (st, found, owner) =
        let change : State → State =
          λ x. record x { lease_expire_at = now + lease; result = redis.cjson x.result } in
        let (alive, found') = owned_write change s st found owner in
        let s' = (update_owned redis sk token pod ttl change s).1 in
        rw alive (execute_with_lease-Owned lease v rest s' u (change st, found', owner))

  -- The result `v` as the scripts keep it: each write passes it through cjson.
  pub data IsKept (v : Value) : Value → Type 0 where
    written : IsKept v (redis.cjson v)
    again : (r : Value) → IsKept v r → IsKept v (redis.cjson r)

  -- The execution ended with the result `v`.
  abbrev pub Ended : String → Value → Server → Type 0
  Ended id v s =
      (st : State) × (get s (state_key id) ≡ some st) × (st.status ≡ "SUCCESS") × IsKept v st.result

  mark_reply_sent-Ended :
      (pod id : String) (token ttl : ℕ) (v : Value) (s : Server)
      → 0 < ttl
      → Ended id v s
      → Ended id v (mark_reply_sent redis pod id token ttl s).1
  unfolding mark_reply_sent lua_mark_reply
  mark_reply_sent-Ended pod id token ttl v s pos (st, found, done, kept) =
      elim (Bool-cases (is_owner token pod st)) [
        | inl owner ↦
            let change : State → State =
              λ x. record x { result = redis.cjson x.result; reply_sent = true } in
            (
              change st,
              (owned_write pod id token ttl pos change s st found owner).1,
              done,
              again st.result kept,
            )
        | inr other ↦ (
          st,
          ap (λ (x : Bool × Server). get x.1 (state_key id))
                (update_owned_other redis (state_key id) token pod ttl _ s st found other)
              ∙ found,
          done,
          kept,
        )
      ]

-- No other client acts while the handler waits.
abbrev pub quiet : {redis : Redis} → Env redis → Env redis
quiet env = record env { others = λ i s. s }

module _ (redis : Redis) (engines : Engines) (pod : String) (env : Env redis) (id : String)
    (ttl : ℕ) (pos : 0 < ttl) (v : Value) where
  publish-Ended :
      (send : Dict Value → Bool) (reply : Dict Value) (token : Option ℕ) (w : World redis)
      → Ended redis id v w.server
      → Ended redis id v (publish redis engines pod (quiet env) id ttl send reply token w).server
  unfolding publish
  publish-Ended send reply none w h = elim (Bool-cases (send reply)) [
    | inl sent ↦ rw sent h
    | inr lost ↦ rw lost h
  ]
  publish-Ended send reply (some t) w h = elim (Bool-cases (send reply)) [
    | inl sent ↦ rw sent (mark_reply_sent-Ended redis pod id t ttl v w.server pos h)
    | inr lost ↦ rw lost h
  ]

  pub reply_with-Ended :
      (cfg : MqConfig) (body : Dict Value) (business_id : String) (send : Dict Value → Bool)
      (result : Value) (token : Option ℕ) (w : World redis)
      → Ended redis id v w.server
      → Ended redis id v
          (reply_with redis engines pod
            (quiet env)
            id
            ttl
            cfg
            body
            business_id
            send
            result
            token
            w).1.server
  unfolding reply_with
  reply_with-Ended cfg body business_id send result token w h =
      elim (Result-cases (build_reply engines result body cfg.carry_fields (some business_id))) [
        | inl (reply, e) ↦ rw (e, reply_with) (publish-Ended send reply token w h)
        | inr (x, e) ↦ rw (e, reply_with) h
      ]

  pub with_action-Ended :
      (a : Action) (r : Result Error (Unit {0}) × World redis)
      → Ended redis id v r.1.server
      → Ended redis id v (with_action redis engines pod (quiet env) id ttl a r).1.server
  with_action-Ended a (ok tt, w) h = h
  with_action-Ended a (err e, w) h = h

  send_reply-Ended :
      (cfg : MqConfig) (body : Dict Value) (business_id : String) (token : ℕ) (result : Value)
      (w : World redis)
      → Ended redis id v w.server
      → Ended redis id v
          (send_reply redis engines pod
            (quiet env)
            id
            ttl
            cfg
            body
            business_id
            token
            result
            w).1.server
  unfolding send_reply
  send_reply-Ended cfg body business_id token result w h = elim (Option-cases env.publisher) [
    | inl e ↦ rw (e, send_reply) h
    | inr (send, e) ↦ elim (Bool-cases cfg.reply_enabled) [
      | inl on ↦
          rw (e, send_reply)
            (rw on (
              with_action-Ended ack
                (reply_with redis engines pod (quiet env) id ttl cfg body business_id send result
                  (some token) w)
                (reply_with-Ended cfg body business_id send result (some token) w h)))
      | inr off ↦ rw (e, send_reply) (rw off h)
    ]
  ]

  conclude-Ended :
      (cfg : MqConfig) (body : Dict Value) (business_id : String) (token : ℕ) (w : World redis)
      → Owned redis pod id token ttl pos w.server
      → Ended redis id v
          (conclude redis engines pod
            (quiet env)
            id
            ttl
            cfg
            body
            business_id
            token
            (returned v)
            w).1.server
  unfolding conclude set_terminal lua_set_terminal
  conclude-Ended cfg body business_id token w (st, found, owner) =
      let change : State → State =
        λ x. record x { status = "SUCCESS"; result = redis.cjson v; reply_sent = false } in
      let (wrote, found') = owned_write redis pod id token ttl pos change w.server st found owner in
      let s' = (update_owned redis (state_key id) token pod ttl change w.server).1 in
      rw wrote (
        send_reply-Ended cfg body business_id token v (record w { server = s' })
          (change st, found', refl, written))

  -- A granted claim whose work is undisturbed.
  pub handle_claimed-Ended :
      (cfg : MqConfig) (body : Dict Value) (business_id : String) (token : ℕ) (inputs : Dict Value)
      (w : World redis)
      → is_satisfied redis engines pod (quiet env) id ttl cfg body ≡ true
      → map_inputs engines body cfg.input_mapping "jsonpath" ≡ ok inputs
      → Undisturbed redis v (env.execute inputs)
      → Owned redis pod id token ttl pos w.server
      → let r = handle_claimed redis engines pod (quiet env) id ttl cfg body business_id token w in
        Ended redis id v r.1.server × (r.1.executed ≡ w.executed ++ inputs ∷ [])
  unfolding handle_claimed run_claimed
  handle_claimed-Ended cfg body business_id token inputs w met mapped u o =
      let x =
        execute_with_lease redis pod id token default_lease_ttl ttl (env.execute inputs) w.server in
      let (out, o') =
        execute_with_lease-Owned redis pod id token ttl pos default_lease_ttl v (env.execute inputs)
          w.server u o in
      let w' : World redis = record w { server = x.1; executed = w.executed ++ inputs ∷ [] } in
      (
        rw (met, handle_claimed)
            (rw mapped (rw out (conclude-Ended cfg body business_id token w' o'))),
        rw (met, handle_claimed)
            (rw mapped (
              conclude_executed redis engines pod (quiet env) id ttl cfg body business_id token x.0
                w')),
      )
