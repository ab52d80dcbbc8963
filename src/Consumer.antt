-- ===== src/Consumer.antt =====
-- pyflow_runtime/consumer.py: the handling of one message.
pub mod Claimed
pub mod Undisturbed
pub mod Redelivery
pub mod FencedOut
pub mod Samples
use python_flow_hub.Prelude.{
  ℕ, zero, suc, ◌+◌, String, Bool, true, false, not, ◌&&◌, ◌||◌, Option, none, some, List, [], ◌∷◌,
  ◌++◌, Dict, lookup, if◌then◌else◌, ◌==◌, Result, ok, err, ◌>>=◌,
}
use python_flow_hub.Value.{Value, null, bool, dict, fields, as_dict, truthy}
use python_flow_hub.Runtime.Errors.{Error, raised}
use python_flow_hub.Runtime.Engines.{Engines}
use python_flow_hub.Runtime.Condition.{evaluate_condition}
use python_flow_hub.Runtime.Messages.{
  CarryRule, is_null, extract_business_id, build_idempotency_id, map_inputs, build_reply, get_or,
}
use python_flow_hub.Idempotency.Redis.{State, Redis, state_key}
use python_flow_hub.Idempotency.Store.{
  ClaimResult, claim, heartbeat, set_terminal, mark_reply_sent, get_state,
}

abbrev pub default_lease_ttl : ℕ
default_lease_ttl = 30

abbrev pub dlq_total_retry_window : ℕ
dlq_total_retry_window = 60

-- The keys of "mq_config" that are read, each absent or present.
pub record MqConfig : Type 0 where
  pub condition_expression : Option String
  pub condition_language : Option String
  pub input_mapping : Option (Dict String)
  pub reply_enabled : Bool
  pub carry_fields : List CarryRule

-- "compute_config.max_execution_time"
unfoldable pub max_execution_time : Option ℕ → ℕ
max_execution_time none = 3600
max_execution_time (some seconds) = seconds

pub data Action : Type 0 where
  ack backoff nack : Action

pub data Outcome : Type 0 where
  returned : Value → Outcome
  failed lease_lost : Outcome

module _ (redis : Redis) where
  open redis use {Server}

  -- What happens while the user's code runs: heartbeats, each at a time, after what others did
  -- and perhaps with a fault of the connection, and then the end of the work.
  pub data Work : Type 0 where
    beat : (now : ℕ) (fault : Bool) → (Server → Server) → Work → Work
    finish : (Server → Server) → Result Error Value → Work
    -- A heartbeat comes back, alive or not, in the turn of the event loop in which the work ends.
    tie : (now : ℕ) → (Server → Server) → Result Error Value → Work

  abbrev pub ended : Result Error Value → Outcome
  ended (ok v) = returned v
  ended (err e) = failed

  -- `_execute_with_lease`: the first heartbeat that does not come back alive ends the work.
  unfoldable pub execute_with_lease :
      String → String → ℕ → (lease_ttl state_ttl : ℕ) → Work → Server → Outcome × Server
  unfolding heartbeat
  execute_with_lease pod id token lease_ttl state_ttl (finish others r) s = (ended r, others s)
  execute_with_lease pod id token lease_ttl state_ttl (tie now others r) s =
      (ended r, (heartbeat redis pod id token now lease_ttl state_ttl (others s)).1)
  execute_with_lease pod id token lease_ttl state_ttl (beat now true others rest) s =
      (lease_lost, others s)
  execute_with_lease pod id token lease_ttl state_ttl (beat now false others rest) s =
      let (alive, s') = heartbeat redis pod id token now lease_ttl state_ttl (others s) in
      let later = execute_with_lease pod id token lease_ttl state_ttl rest s' in
      if alive then later else (lease_lost, s')

  -- What the handler meets: the clock, what other clients do at each wait, the user's code, and
  -- the publisher of replies, whose answer says if it returned.
  pub record Env : Type 0 where
    pub claim_now : ℕ
    pub over_now : ℕ
    pub others : ℕ → Server → Server
    pub execute : Dict Value → Work
    pub publisher : Option (Dict Value → Bool)

  pub record World : Type 0 where
    pub server : Server
    pub executed : List (Dict Value)
    pub published : List (Dict Value)

  -- A call that waits: others act, then the command runs.
  abbrev pub on_server :
      {A : Type 0} → (Server → Server) → (Server → A × Server) → World → A × World
  on_server others m w = ((m (others w.server)).0, record w { server = (m (others w.server)).1 })

  module _ (engines : Engines) (pod : String) (env : Env) (id : String) (state_ttl : ℕ) where
    -- `await reply_publisher(reply, mq_config)`, and the mark if it returns; both are in a `try`.
    unfoldable pub publish : (Dict Value → Bool) → Dict Value → Option ℕ → World → World
    unfolding mark_reply_sent
    publish send reply token w =
        let sent = record w { published = w.published ++ reply ∷ [] } in
        if send reply
        then elim token [
          | none ↦ sent
          | some t ↦ (on_server (env.others 6) (mark_reply_sent redis pod id t state_ttl) sent).1
        ]
        else w

    abbrev pub is_skipped_result : Value → Bool
    is_skipped_result v = elim (as_dict v) [
      | none ↦ false
      | some d ↦ truthy (get_or (lookup "skipped" d) null)
    ]

    abbrev pub state_result : Option State → Value
    state_result none = null
    state_result (some st) = st.result

    abbrev pub state_token : Option State → Option ℕ
    state_token none = none
    state_token (some st) = some st.fence_token

    abbrev pub was_sent : Option State → Bool
    was_sent none = false
    was_sent (some st) = st.reply_sent

    abbrev pub stored_result : Value → Option State → Value
    stored_result existing state = if is_null existing then state_result state else existing

    -- `reply = build_reply(...)`, then the publication; an exception of the first escapes.
    unfoldable pub reply_with :
        MqConfig
        → Dict Value
        → String
        → (Dict Value → Bool)
        → Value
        → Option ℕ
        → World
        → Result Error (Unit {0}) × World
    unfolding build_reply publish
    reply_with cfg body business_id send result token w =
        elim (build_reply engines result body cfg.carry_fields (some business_id)) [
          | err e ↦ (err e, w)
          | ok reply ↦ (ok tt, publish send reply token w)
        ]

    -- `_republish_reply_if_needed`, on the state that was read.
    unfoldable pub republish_on :
        MqConfig
        → Dict Value
        → String
        → (Dict Value → Bool)
        → Value
        → Option State
        → World
        → Result Error (Unit {0}) × World
    unfolding reply_with
    republish_on cfg body business_id send existing state w =
        if was_sent state
        then (ok tt, w)
        else if is_null (stored_result existing state)
            || is_skipped_result (stored_result existing state)
        then (ok tt, w)
        else reply_with cfg body business_id send (stored_result existing state) (state_token state)
            w

    unfoldable pub republish_reply_if_needed :
        MqConfig → Dict Value → String → Value → World → Result Error (Unit {0}) × World
    unfolding republish_on
    republish_reply_if_needed cfg body business_id existing w = elim env.publisher [
      | none ↦ (ok tt, w)
      | some send ↦
          if not cfg.reply_enabled
          then (ok tt, w)
          else (let (state, w') = on_server (env.others 3) (λ s. (get_state redis pod id s, s)) w in
              republish_on cfg body business_id send existing state w')
    ]

    abbrev pub with_action : Action → Result Error (Unit {0}) × World → Result Error Action × World
    with_action a (ok tt, w) = (ok a, w)
    with_action a (err e, w) = (err e, w)

    -- The reply after a success that was written.
    unfoldable pub send_reply :
        MqConfig → Dict Value → String → ℕ → Value → World → Result Error Action × World
    unfolding reply_with
    send_reply cfg body business_id token result w = elim env.publisher [
      | none ↦ (ok ack, w)
      | some send ↦
          if not cfg.reply_enabled
          then (ok ack, w)
          else with_action ack (reply_with cfg body business_id send result (some token) w)
    ]

    abbrev pub terminal : ℕ → String → Value → World → Bool × World
    terminal token status result =
        on_server (env.others 5) (set_terminal redis pod id token status result state_ttl)

    -- What follows `_execute_with_lease`.
    unfoldable pub conclude :
        MqConfig → Dict Value → String → ℕ → Outcome → World → Result Error Action × World
    unfolding set_terminal send_reply
    conclude cfg body business_id token lease_lost w = (ok backoff, w)
    conclude cfg body business_id token failed w = (ok nack, (terminal token "FAILED" null w).1)
    conclude cfg body business_id token (returned result) w =
        let (written, w') = terminal token "SUCCESS" result w in
        if written then send_reply cfg body business_id token result w' else (ok ack, w')

    abbrev pub false_on_error : {E : Type 0} → Result E Bool → Bool
    false_on_error (ok b) = b
    false_on_error (err e) = false

    -- The condition is met, or there is none.
    unfoldable pub is_satisfied : MqConfig → Dict Value → Bool
    unfolding evaluate_condition
    is_satisfied cfg body =
        (get_or cfg.condition_expression "" == "")
        || false_on_error (
            evaluate_condition engines (get_or cfg.condition_expression "")
              (get_or cfg.condition_language "jmespath") body)

    unfoldable pub run_claimed :
        MqConfig → Dict Value → String → ℕ → Dict Value → World → Result Error Action × World
    unfolding execute_with_lease conclude
    run_claimed cfg body business_id token inputs w =
        let (outcome, s) =
          execute_with_lease pod id token default_lease_ttl state_ttl (env.execute inputs)
            w.server in
        conclude cfg body business_id token outcome
          (record w { server = s; executed = w.executed ++ inputs ∷ [] })

    -- The path of a message whose claim was granted.
    unfoldable pub handle_claimed :
        MqConfig → Dict Value → String → ℕ → World → Result Error Action × World
    unfolding is_satisfied map_inputs run_claimed
    handle_claimed cfg body business_id token w =
        if not (is_satisfied cfg body)
        then (ok ack, (terminal token "SUCCESS" (dict (fields (("skipped", bool true) ∷ []))) w).1)
        else elim (map_inputs engines body cfg.input_mapping "jsonpath") [
          | err e ↦ (err e, w)
          | ok inputs ↦ run_claimed cfg body business_id token inputs w
        ]

    abbrev pub is_success : Option String → Bool
    is_success none = false
    is_success (some status) = status == "SUCCESS"

    unfoldable pub handle_claim :
        MqConfig → Dict Value → String → ClaimResult → World → Result Error Action × World
    unfolding republish_reply_if_needed handle_claimed
    handle_claim cfg body business_id c w =
        if not c.claimed
        then if is_success c.existing_status
          then with_action ack (republish_reply_if_needed cfg body business_id c.existing_result w)
          else (ok backoff, w)
        else elim c.fence_token [
          | some token ↦ handle_claimed cfg body business_id token w
          | none ↦ (err (raised "AssertionError"), w)
        ]

  abbrev pub state_ttl_of : Option ℕ → ℕ
  state_ttl_of seconds = max_execution_time seconds + dlq_total_retry_window + 300

  -- `consume_with_idempotency`, with "x-retry-count" read as a number.
  unfoldable pub consume_with_idempotency :
      Engines
      → String
      → Env
      → (body : Dict Value) (retry_count : ℕ) (max_seconds : Option ℕ) (cfg : MqConfig)
        (message_id : Option String)
      → World
      → Result Error Action × World
  unfolding max_execution_time extract_business_id build_idempotency_id claim handle_claim
  consume_with_idempotency engines pod env body retry_count max_seconds cfg message_id w =
      elim (extract_business_id engines body message_id) [
        | err e ↦ (err e, w)
        | ok business_id ↦
            let id = build_idempotency_id engines business_id retry_count in
            let ttl = state_ttl_of max_seconds in
            let (c, s) =
              claim redis pod env.others id env.claim_now env.over_now default_lease_ttl ttl
                w.server in
            handle_claim engines pod env id ttl cfg body business_id c (record w { server = s })
      ]
