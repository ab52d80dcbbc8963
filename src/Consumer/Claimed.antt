-- ===== src/Consumer/Claimed.antt =====
-- When the handler of pyflow_runtime/consumer.py runs the user's code.
use python_flow_hub.Prelude.{
  ℕ, String, ◌≡◌, refl, ◌∙◌, Bool, true, Option, none, some, [], ◌∷◌, ◌++◌, Dict, Result, ok, err,
  Result-cases, Bool-cases, Option-cases, inl, inr, ◌⊎◌, arith,
}
use python_flow_hub.Value.{Value}
use python_flow_hub.Runtime.Errors.{Error}
use python_flow_hub.Runtime.Engines.{Engines}
use python_flow_hub.Runtime.Messages.{
  extract_business_id, build_idempotency_id, map_inputs, build_reply,
}
use python_flow_hub.Idempotency.Redis.{State, Redis}
use python_flow_hub.Idempotency.Store.{ClaimResult, claim, get_state}
use python_flow_hub.Consumer.{
  MqConfig, Action, ack, Outcome, returned, failed, lease_lost, Env, World, default_lease_ttl,
  state_ttl_of, execute_with_lease, publish, reply_with, republish_on, republish_reply_if_needed,
  send_reply, terminal, conclude, is_satisfied, run_claimed, handle_claimed, handle_claim,
  consume_with_idempotency, with_action, stored_result, state_token, is_success, on_server,
}

module _ (redis : Redis) (engines : Engines) (pod : String) (env : Env redis) (id : String)
    (state_ttl : ℕ) where
  publish_executed :
      (send : Dict Value → Bool) (reply : Dict Value) (token : Option ℕ) (w : World redis)
      → (publish redis engines pod env id state_ttl send reply token w).executed ≡ w.executed
  unfolding publish
  publish_executed send reply none w = ground arith
  publish_executed send reply (some t) w = ground arith

  reply_with_executed :
      (cfg : MqConfig) (body : Dict Value) (business_id : String) (send : Dict Value → Bool)
      (result : Value) (token : Option ℕ) (w : World redis)
      → (reply_with redis engines pod env id state_ttl cfg body business_id send result token
          w).1.executed
        ≡ w.executed
  unfolding reply_with
  reply_with_executed cfg body business_id send result token w =
      elim (Result-cases (build_reply engines result body cfg.carry_fields (some business_id))) [
        | inl (reply, e) ↦ rw (e, reply_with) (publish_executed send reply token w)
        | inr (x, e) ↦ rw (e, reply_with)
      ]

  republish_on_executed :
      (cfg : MqConfig) (body : Dict Value) (business_id : String) (send : Dict Value → Bool)
      (existing : Value) (state : Option State) (w : World redis)
      → (republish_on redis engines pod env id state_ttl cfg body business_id send existing state
          w).1.executed
        ≡ w.executed
  unfolding republish_on
  republish_on_executed cfg body business_id send existing state w = ground (
    arith,
    reply_with_executed cfg body business_id send
        (stored_result redis engines pod env id state_ttl existing state)
        (state_token redis engines pod env id state_ttl state) w,
  )

  pub republish_executed :
      (cfg : MqConfig) (body : Dict Value) (business_id : String) (existing : Value)
      (w : World redis)
      → (republish_reply_if_needed redis engines pod env id state_ttl cfg body business_id existing
          w).1.executed
        ≡ w.executed
  unfolding republish_reply_if_needed
  republish_executed cfg body business_id existing w = elim (Option-cases env.publisher) [
    | inl e ↦ rw (e, republish_reply_if_needed)
    | inr (send, e) ↦ elim (Bool-cases cfg.reply_enabled) [
      | inl on ↦
          rw (e, republish_reply_if_needed)
            (rw on (
              let r = on_server redis (env.others 3) (λ s. (get_state redis pod id s, s)) w in
              republish_on_executed cfg body business_id send existing r.0 r.1))
      | inr off ↦ rw (e, republish_reply_if_needed) (rw off)
    ]
  ]

  pub with_action_executed :
      (a : Action) (r : Result Error (Unit {0}) × World redis)
      → (with_action redis engines pod env id state_ttl a r).1.executed ≡ r.1.executed
  with_action_executed a (ok tt, w) = refl
  with_action_executed a (err e, w) = refl

  pub send_reply_executed :
      (cfg : MqConfig) (body : Dict Value) (business_id : String) (token : ℕ) (result : Value)
      (w : World redis)
      → (send_reply redis engines pod env id state_ttl cfg body business_id token result
          w).1.executed
        ≡ w.executed
  unfolding send_reply
  send_reply_executed cfg body business_id token result w = elim (Option-cases env.publisher) [
    | inl e ↦ rw (e, send_reply)
    | inr (send, e) ↦ elim (Bool-cases cfg.reply_enabled) [
      | inl on ↦
          rw (e, send_reply)
            (rw on (
              with_action_executed ack (
                reply_with redis engines pod env id state_ttl cfg body business_id send result
                  (some token) w)
              ∙ reply_with_executed cfg body business_id send result (some token) w))
      | inr off ↦ rw (e, send_reply) (rw off)
    ]
  ]

  pub conclude_executed :
      (cfg : MqConfig) (body : Dict Value) (business_id : String) (token : ℕ) (o : Outcome)
      (w : World redis)
      → (conclude redis engines pod env id state_ttl cfg body business_id token o w).1.executed
        ≡ w.executed
  unfolding conclude
  conclude_executed cfg body business_id token lease_lost w = refl
  conclude_executed cfg body business_id token failed w = refl
  conclude_executed cfg body business_id token (returned result) w =
      let r = terminal redis engines pod env id state_ttl token "SUCCESS" result w in
      ground (arith, send_reply_executed cfg body business_id token result r.1)

  -- The user's code ran on `inputs`, once, with the condition met and the inputs mapped.
  abbrev pub RunsOnce : MqConfig → Dict Value → World redis → World redis → Type 0
  RunsOnce cfg body old new =
      (is_satisfied redis engines pod env id state_ttl cfg body ≡ true)
      × (inputs : Dict Value) × (map_inputs engines body cfg.input_mapping "jsonpath" ≡ ok inputs)
      × (new.executed ≡ old.executed ++ inputs ∷ [])

  handle_claimed_executed :
      (cfg : MqConfig) (body : Dict Value) (business_id : String) (token : ℕ) (w : World redis)
      → let r = handle_claimed redis engines pod env id state_ttl cfg body business_id token w in
        (r.1.executed ≡ w.executed) ⊎ RunsOnce cfg body w r.1
  unfolding handle_claimed run_claimed
  handle_claimed_executed cfg body business_id token w =
      elim (Bool-cases (is_satisfied redis engines pod env id state_ttl cfg body)) [
        | inr unmet ↦ inl (rw (unmet, handle_claimed))
        | inl met ↦ elim (Result-cases (map_inputs engines body cfg.input_mapping "jsonpath")) [
          | inr (x, e) ↦ inl (rw (met, handle_claimed) (rw e))
          | inl (inputs, e) ↦
              let r =
                execute_with_lease redis pod id token default_lease_ttl state_ttl
                  (env.execute inputs) w.server in
              inr (
                met,
                inputs,
                e,
                rw (met, handle_claimed)
                    (rw e (
                      conclude_executed cfg body business_id token r.0
                        (record w { server = r.1; executed = w.executed ++ inputs ∷ [] }))),
              )
        ]
      ]

  -- What `consume_with_idempotency` does with the answer of the claim.
  handle_claim_executed :
      (cfg : MqConfig) (body : Dict Value) (business_id : String) (c : ClaimResult)
      (w : World redis)
      → let r = handle_claim redis engines pod env id state_ttl cfg body business_id c w in
        (r.1.executed ≡ w.executed) ⊎ ((c.claimed ≡ true) × RunsOnce cfg body w r.1)
  unfolding handle_claim
  handle_claim_executed cfg body business_id c w = elim (Bool-cases c.claimed) [
    | inr lost ↦ inl (
        rw (lost, handle_claim)
          (elim (Bool-cases (is_success redis engines pod env id state_ttl c.existing_status)) [
            | inr other ↦ rw other
            | inl done ↦ rw done (
                with_action_executed ack (
                  republish_reply_if_needed redis engines pod env id state_ttl cfg body business_id
                    c.existing_result w)
                ∙ republish_executed cfg body business_id c.existing_result w)
          ]))
    | inl won ↦ elim (Option-cases c.fence_token) [
      | inl e ↦ inl (rw (won, handle_claim) (rw e))
      | inr (token, e) ↦ elim (handle_claimed_executed cfg body business_id token w) [
        | inl same ↦ inl (rw (won, handle_claim) (rw e same))
        | inr (met, inputs, mapped, grew) ↦
            inr (won, (met, inputs, mapped, rw (won, handle_claim) (rw e grew)))
      ]
    ]
  ]

module _ (redis : Redis) (engines : Engines) (pod : String) (env : Env redis) (body : Dict Value)
    (retry_count : ℕ) (max_seconds : Option ℕ) (cfg : MqConfig) (message_id : Option String)
    (w : World redis) where
  abbrev pub consumed : Result Error Action × World redis
  consumed =
      consume_with_idempotency redis engines pod env body retry_count max_seconds cfg message_id w

  -- The answer of the claim of a message, and the server after it.
  abbrev pub claimed_as : String → ClaimResult × redis.Server
  claimed_as business_id =
      claim redis pod env.others (build_idempotency_id engines business_id retry_count)
        env.claim_now env.over_now default_lease_ttl (state_ttl_of redis max_seconds) w.server

  -- Handling a message runs the user's code once at most, and only when the claim was granted, the
  -- condition is met and the inputs could be mapped, on those inputs.
  pub consume_with_idempotency-RunsOnce :
      (consumed.1.executed ≡ w.executed)
      ⊎ ((business_id : String) × (extract_business_id engines body message_id ≡ ok business_id)
          × ((claimed_as business_id).0.claimed ≡ true)
          × RunsOnce redis engines pod env
              (build_idempotency_id engines business_id retry_count)
              (state_ttl_of redis max_seconds)
              cfg
              body
              w
              consumed.1)
  unfolding consume_with_idempotency
  consume_with_idempotency-RunsOnce =
      elim (Result-cases (extract_business_id engines body message_id)) [
        | inr (x, e) ↦ inl (rw (e, consume_with_idempotency))
        | inl (business_id, e) ↦
            let (c, s) = claimed_as business_id in
            elim (handle_claim_executed redis engines pod env
              (build_idempotency_id engines business_id retry_count)
              (state_ttl_of redis max_seconds) cfg body business_id c (record w { server = s })) [
                | inl same ↦ inl (rw (e, consume_with_idempotency) same)
                | inr (won, once) ↦ inr (business_id, e, won, rw (e, consume_with_idempotency) once)
              ]
      ]
