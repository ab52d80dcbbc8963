-- ===== src/Consumer/Redelivery.antt =====
-- A message that is delivered again (pyflow_runtime/consumer.py).
use python_flow_hub.Prelude.{
  ℕ, ◌<◌, String, ◌≡◌, refl, sym, ◌∙◌, ap, subst, Bool, true, ◌||◌, Option, none, some, List, [],
  ◌∷◌, ◌++◌, Dict, eq_refl, Result, ok, Bool-cases, Option-cases, inl, inr, arith,
}
use python_flow_hub.Value.{Value}
use python_flow_hub.Runtime.Errors.{Error}
use python_flow_hub.Runtime.Engines.{Engines}
use python_flow_hub.Runtime.Messages.{
  extract_business_id, build_idempotency_id, map_inputs, is_null,
}
use python_flow_hub.Idempotency.Redis.{State, Redis, state_key}
use python_flow_hub.Idempotency.Scripts.{is_owner}
use python_flow_hub.Idempotency.Store.{ClaimResult, refused, granted, claim, get_state}
use python_flow_hub.Idempotency.Claim.{claim_done, claim_first, drawn, first_state, get-next_token}
use python_flow_hub.Consumer.{
  MqConfig, Action, ack, Env, World, default_lease_ttl, state_ttl_of, is_satisfied, handle_claimed,
  handle_claim, consume_with_idempotency, republish_on, republish_reply_if_needed, was_sent,
  is_skipped_result, stored_result, state_token,
}
use python_flow_hub.Consumer.Claimed.{with_action_executed, republish_executed}
use python_flow_hub.Consumer.Undisturbed.{
  Undisturbed, Ended, quiet, reply_with-Ended, handle_claimed-Ended, with_action-Ended,
}

module _ (redis : Redis) (engines : Engines) (pod : String) (env : Env redis) (id : String)
    (ttl : ℕ) (pos : 0 < ttl) (v : Value) where
  republish_on-Ended :
      (cfg : MqConfig) (body : Dict Value) (business_id : String) (send : Dict Value → Bool)
      (existing : Value) (state : Option State) (w : World redis)
      → Ended redis id v w.server
      → Ended redis id v
          (republish_on redis engines pod
            (quiet env)
            id
            ttl
            cfg
            body
            business_id
            send
            existing
            state
            w).1.server
  unfolding republish_on
  republish_on-Ended cfg body business_id send existing state w h =
      let stored = stored_result redis engines pod (quiet env) id ttl existing state in
      elim (Bool-cases (was_sent redis engines pod (quiet env) id ttl state)) [
        | inl sent ↦ rw sent h
        | inr unsent ↦
            elim (Bool-cases
              (is_null stored || is_skipped_result redis engines pod (quiet env) id ttl stored)) [
                | inl none_left ↦ rw unsent (rw none_left h)
                | inr due ↦ rw unsent (
                    rw due (
                      reply_with-Ended redis engines pod env id ttl pos v cfg body business_id send
                        stored (state_token redis engines pod (quiet env) id ttl state) w h))
              ]
      ]

  republish-Ended :
      (cfg : MqConfig) (body : Dict Value) (business_id : String) (existing : Value)
      (w : World redis)
      → Ended redis id v w.server
      → Ended redis id v
          (republish_reply_if_needed redis engines pod
            (quiet env)
            id
            ttl
            cfg
            body
            business_id
            existing
            w).1.server
  unfolding republish_reply_if_needed
  republish-Ended cfg body business_id existing w h = elim (Option-cases env.publisher) [
    | inl e ↦ rw (e, republish_reply_if_needed) h
    | inr (send, e) ↦ elim (Bool-cases cfg.reply_enabled) [
      | inl on ↦
          rw (e, republish_reply_if_needed)
            (rw on (
              republish_on-Ended cfg body business_id send existing
                (get_state redis pod id w.server) w h))
      | inr off ↦ rw (e, republish_reply_if_needed) (rw off h)
    ]
  ]

  -- A claim that finds the execution ended.
  handle_claim-Ended :
      (cfg : MqConfig) (body : Dict Value) (business_id : String) (existing : Value)
      (w : World redis)
      → Ended redis id v w.server
      → let r =
          handle_claim redis engines pod
            (quiet env)
            id
            ttl
            cfg
            body
            business_id
            (refused "SUCCESS" existing)
            w in
        Ended redis id v r.1.server × (r.1.executed ≡ w.executed)
  unfolding handle_claim
  handle_claim-Ended cfg body business_id existing w h =
      let r =
        republish_reply_if_needed redis engines pod (quiet env) id ttl cfg body business_id existing
          w in
      (
        with_action-Ended redis engines pod env id ttl pos v ack r
            (republish-Ended cfg body business_id existing w h),
        with_action_executed redis engines pod (quiet env) id ttl ack r
            ∙ republish_executed redis engines pod (quiet env) id ttl cfg body business_id existing
                w,
      )

module _ (redis : Redis) (engines : Engines) (pod : String) (body : Dict Value) (retry_count : ℕ)
    (max_seconds : Option ℕ) (cfg : MqConfig) (message_id : Option String) where
  -- One delivery that no other client disturbs.
  unfoldable pub deliver : Env redis → World redis → Result Error Action × World redis
  deliver env w =
      consume_with_idempotency redis engines pod (quiet env) body retry_count max_seconds cfg
        message_id w

  -- Further deliveries of the message, each with its own clock and its own code to run.
  unfoldable pub deliveries : List (Env redis) → World redis → World redis
  deliveries [] w = w
  deliveries (env ∷ envs) w = deliveries envs (deliver env w).1

  module _ (business_id : String)
      (known : extract_business_id engines body message_id ≡ ok business_id) where
    abbrev pub id_of : String
    id_of = build_idempotency_id engines business_id retry_count

    abbrev ttl : ℕ
    ttl = state_ttl_of redis max_seconds

    ttl_pos : 0 < ttl
    ttl_pos = omega arith

    deliver-Ended :
        (env : Env redis) (w : World redis) (v : Value)
        → Ended redis id_of v w.server
        → Ended redis id_of v (deliver env w).1.server × ((deliver env w).1.executed ≡ w.executed)
    unfolding deliver consume_with_idempotency
    deliver-Ended env w v (st, found, done, kept) =
        let s' =
          (drawn redis pod id_of env.claim_now env.over_now default_lease_ttl ttl w.server).1 in
        let c =
          claim_done redis pod id_of env.claim_now env.over_now default_lease_ttl ttl w.server st
            found done in
        let found' =
          get-next_token redis pod id_of env.claim_now env.over_now default_lease_ttl ttl w.server
          ∙ found in
        let (a, b) =
          handle_claim-Ended redis engines pod env id_of ttl ttl_pos v cfg body business_id
            st.result (record w { server = s' }) (st, found', done, kept) in
        (
          rw (known, consume_with_idempotency) (rw c a),
          rw (known, consume_with_idempotency) (rw c b),
        )

    deliveries-Ended :
        (envs : List (Env redis)) (w : World redis) (v : Value)
        → Ended redis id_of v w.server
        → Ended redis id_of v (deliveries envs w).server
          × ((deliveries envs w).executed ≡ w.executed)
    unfolding deliveries
    deliveries-Ended [] w v h = (h, refl)
    deliveries-Ended (env ∷ envs) w v h =
        let (h', same) = deliver-Ended env w v h in
        let (h'', same') = deliveries-Ended envs (deliver env w).1 v h' in (h'', same' ∙ same)

    deliver_claimed :
        (env : Env redis) (w : World redis) (c : ClaimResult) (s : redis.Server)
        → claim redis pod (λ i x. x) id_of env.claim_now env.over_now default_lease_ttl ttl w.server
          ≡ (c, s)
        → deliver env w
          ≡ handle_claim redis engines pod
              (quiet env)
              id_of
              ttl
              cfg
              body
              business_id
              c
              (record w { server = s })
    unfolding deliver consume_with_idempotency
    deliver_claimed env w c s e =
        rw (known, consume_with_idempotency)
          (ap
            (λ (x : ClaimResult × redis.Server).
              handle_claim redis engines pod (quiet env) id_of ttl cfg body business_id x.0
                (record w { server = x.1 }))
            e)

    handle_claim-granted :
        (cfg : MqConfig) (body : Dict Value) (business_id : String) (token : ℕ) (w : World redis)
        (env : Env redis)
        → handle_claim redis engines pod
            (quiet env)
            id_of
            ttl
            cfg
            body
            business_id
            (granted token)
            w
          ≡ handle_claimed redis engines pod (quiet env) id_of ttl cfg body business_id token w
    unfolding handle_claim
    handle_claim-granted cfg body business_id token w env = refl

    -- The first delivery.
    deliver-first :
        (env : Env redis) (w : World redis) (v : Value) (inputs : Dict Value)
        → redis.get w.server (state_key id_of) ≡ none
        → is_satisfied redis engines pod (quiet env) id_of ttl cfg body ≡ true
        → map_inputs engines body cfg.input_mapping "jsonpath" ≡ ok inputs
        → Undisturbed redis v (env.execute inputs)
        → Ended redis id_of v (deliver env w).1.server
          × ((deliver env w).1.executed ≡ w.executed ++ inputs ∷ [])
    deliver-first env w v inputs absent met mapped u =
        let s1 =
          (drawn redis pod id_of env.claim_now env.over_now default_lease_ttl ttl w.server).1 in
        let token =
          (drawn redis pod id_of env.claim_now env.over_now default_lease_ttl ttl w.server).0 in
        let st =
          first_state redis pod id_of env.claim_now env.over_now default_lease_ttl ttl w.server in
        let c =
          claim_first redis pod id_of env.claim_now env.over_now default_lease_ttl ttl w.server
            absent in
        let s2 = redis.set s1 (state_key id_of) st ttl in
        let found : redis.get s2 (state_key id_of) ≡ some st = ground (
          arith,
          redis.get-set s1 (state_key id_of) (state_key id_of) st ttl ttl_pos,
          eq_refl (state_key id_of),
        ) in
        let owner : is_owner token pod st ≡ true = ground (arith, eq_refl pod) in
        let (a, b) =
          handle_claimed-Ended redis engines pod env id_of ttl ttl_pos v cfg body business_id token
            inputs (record w { server = s2 }) met mapped u (st, found, owner) in
        let e =
          deliver_claimed env w (granted token) s2 c
          ∙ handle_claim-granted cfg body business_id token (record w { server = s2 }) env in
        (
          subst (λ (r : Result Error Action × World redis). Ended redis id_of v r.1.server) (sym e)
              a,
          ap (λ (r : Result Error Action × World redis). r.1.executed) e ∙ b,
        )

    -- The first delivery of a message whose condition is met, whose inputs map and whose work
    -- returns `v`, followed by any number of deliveries of the same message, none of them
    -- disturbed by another client, and all of them before the state expires: the user's code runs
    -- once in all, on the mapped inputs, and the state under the message's identity is "SUCCESS"
    -- with the result `v` as it is after passing through cjson once or more.
    pub executed-deliveries :
        (env : Env redis) (envs : List (Env redis)) (w : World redis) (v : Value)
        (inputs : Dict Value)
        → redis.get w.server (state_key id_of) ≡ none
        → is_satisfied redis engines pod (quiet env) id_of ttl cfg body ≡ true
        → map_inputs engines body cfg.input_mapping "jsonpath" ≡ ok inputs
        → Undisturbed redis v (env.execute inputs)
        → ((deliveries (env ∷ envs) w).executed ≡ w.executed ++ inputs ∷ [])
          × Ended redis id_of v (deliveries (env ∷ envs) w).server
    unfolding deliveries
    executed-deliveries env envs w v inputs absent met mapped u =
        let (h, grew) = deliver-first env w v inputs absent met mapped u in
        let (h', same) = deliveries-Ended envs (deliver env w).1 v h in (same ∙ grew, h')
