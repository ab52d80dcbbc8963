-- ===== src/Broker/Manager/Degraded.antt =====
-- `_exec_without_idempotency` of backend/app/core/mq/consumer_manager.py: the path without Redis.
use mathlib.Core.Option.{none-ne-some}
use python_flow_hub.Prelude.{
  String, ◌≡◌, ◌≢◌, refl, sym, ◌∙◌, ap, subst, eq_iff, arith, Bool, true, false, not, ◌||◌, Option,
  none, some, Dict, if◌then◌else◌, ◌==◌, Result, ok, err, Bool-cases, Option-cases, Result-cases,
  inl, inr, ◌⊎◌,
}
use python_flow_hub.Value.{Value}
use python_flow_hub.Runtime.Errors.{Error, ConditionError}
use python_flow_hub.Runtime.Engines.{Engines}
use python_flow_hub.Runtime.Condition.{evaluate_condition}
use python_flow_hub.Runtime.Messages.{extract_business_id, map_inputs, build_reply, get_or}
use python_flow_hub.Consumer.{MqConfig, Action, ack, nack}

-- What a run of the flow and the publication of a reply do to the state, and how they end.
abbrev pub Execute : Type 0 → Type 0
Execute S = Dict Value → S → Result Error Value × S

abbrev pub Publish : Type 0 → Type 0
Publish S = Dict Value → S → Result Error (Unit {0}) × S

abbrev pub is_met : Result ConditionError Bool → Bool
is_met (ok b) = b
is_met (err e) = false

-- The action, the state, and the exception that `last_error` tells of.
pub record Ended (S : Type 0) : Type 0 where
  pub action : Action
  pub state : S
  pub error : Option Error

unfoldable pub passes_condition : Engines → MqConfig → Dict Value → Bool
unfolding evaluate_condition
passes_condition engines cfg body =
    (get_or cfg.condition_expression "" == "")
    || is_met (
        evaluate_condition engines (get_or cfg.condition_expression "")
          (get_or cfg.condition_language "jmespath") body)

abbrev pub send_with :
    {S : Type 0} → Publish S → Result Error (Dict Value) → S → Result Error (Unit {0}) × S
send_with publish (err e) s = (err e, s)
send_with publish (ok reply) s = publish reply s

abbrev or_else_error : Error → Option Error → Error
or_else_error e none = e
or_else_error e (some x) = x

abbrev to_option : {E A : Type 0} → Result E A → Option A
to_option (ok a) = some a
to_option (err e) = none

module _ {S : Type 0} (engines : Engines) (execute : Execute S) (publisher : Option (Publish S))
    (cfg : MqConfig) (body : Dict Value) (message_id : Option String) where
  abbrev pub ended : Result Error (Unit {0}) × S → Ended S
  ended (ok tt, s) = record { action = ack; state = s; error = none }
  ended (err e, s) = record { action = nack; state = s; error = some e }

  -- The reply, with the business id as its key.
  unfoldable pub reply_of : Value → Result Error (Dict Value)
  unfolding extract_business_id build_reply
  reply_of result = elim (extract_business_id engines body message_id) [
    | err e ↦ err e
    | ok id ↦ build_reply engines result body cfg.carry_fields (some id)
  ]

  unfoldable pub send_reply : Value → S → Result Error (Unit {0}) × S
  unfolding reply_of
  send_reply result s = elim publisher [
    | none ↦ (ok tt, s)
    | some publish ↦
        if not cfg.reply_enabled then (ok tt, s) else send_with publish (reply_of result) s
  ]

  abbrev pub after_execute : Result Error Value × S → Result Error (Unit {0}) × S
  after_execute (err e, s) = (err e, s)
  after_execute (ok result, s) = send_reply result s

  unfoldable pub run_mapped : S → Result Error (Unit {0}) × S
  unfolding map_inputs send_reply
  run_mapped s = elim (map_inputs engines body cfg.input_mapping "jsonpath") [
    | err e ↦ (err e, s)
    | ok inputs ↦ after_execute (execute inputs s)
  ]

  unfoldable pub exec_without_idempotency : S → Ended S
  unfolding passes_condition run_mapped
  exec_without_idempotency s =
      if not (passes_condition engines cfg body)
      then (record { action = ack; state = s; error = none })
      else ended (run_mapped s)

  -- The reply was built and published, or none was asked for.
  abbrev pub IsReplied : Value → S → S → Type 0
  IsReplied result s s' =
      ((publisher ≡ none) × (s' ≡ s))
      ⊎ ((cfg.reply_enabled ≡ false) × (s' ≡ s))
      ⊎ ((reply : Dict Value) × (publish : Publish S) × (publisher ≡ some publish)
          × (reply_of result ≡ ok reply)
          × (publish reply s ≡ (ok tt, s')))

  abbrev pub IsRun : S → S → Type 0
  IsRun s s' =
      (inputs : Dict Value) × (result : Value) × (mid : S) × (map_inputs engines body
          cfg.input_mapping "jsonpath"
        ≡ ok inputs)
      × (execute inputs s ≡ (ok result, mid))
      × IsReplied result mid s'

  send_reply_off : (result : Value) (s : S) → publisher ≡ none → send_reply result s ≡ (ok tt, s)
  unfolding send_reply
  send_reply_off result s off = rw (off, send_reply)

  send_reply_disabled :
      (result : Value) (publish : Publish S) (s : S)
      → publisher ≡ some publish
      → cfg.reply_enabled ≡ false
      → send_reply result s ≡ (ok tt, s)
  unfolding send_reply
  send_reply_disabled result publish s on disabled = rw (on, send_reply) (rw disabled)

  send_reply_on :
      (result : Value) (publish : Publish S) (s : S)
      → publisher ≡ some publish
      → cfg.reply_enabled ≡ true
      → send_reply result s ≡ send_with publish (reply_of result) s
  unfolding send_reply
  send_reply_on result publish s on enabled = rw (on, send_reply) (rw enabled)

  run_mapped_as :
      (inputs : Dict Value) (s : S)
      → map_inputs engines body cfg.input_mapping "jsonpath" ≡ ok inputs
      → run_mapped s ≡ after_execute (execute inputs s)
  unfolding run_mapped
  run_mapped_as inputs s e = rw (e, run_mapped)

  run_mapped_failed :
      (x : Error) (s : S)
      → map_inputs engines body cfg.input_mapping "jsonpath" ≡ err x
      → run_mapped s ≡ (err x, s)
  unfolding run_mapped
  run_mapped_failed x s e = rw (e, run_mapped)

  IsReplied-with :
      (result : Value) (publish : Publish S) (s s' : S)
      → publisher ≡ some publish
      → send_with publish (reply_of result) s ≡ (ok tt, s')
      → IsReplied result s s'
  IsReplied-with result publish s s' known h = elim (Result-cases (reply_of result)) [
    | inl (reply, e) ↦ inr (
        inr (
          reply,
          publish,
          known,
          e,
          sym (ap (λ (r : Result Error (Dict Value)). send_with publish r s) e) ∙ h,
        ))
    | inr (x, e) ↦ absurd (
        none-ne-some tt (
          ap (λ (r : Result Error (Unit {0}) × S). to_option r.0)
            (sym (ap (λ (r : Result Error (Dict Value)). send_with publish r s) e) ∙ h)))
  ]

  send_reply_ok :
      (result : Value) (s s' : S) → send_reply result s ≡ (ok tt, s') → IsReplied result s s'
  send_reply_ok result s s' h = elim (Option-cases publisher) [
    | inl off ↦
        inl
          (off, ap (λ (r : Result Error (Unit {0}) × S). r.1) (sym h ∙ send_reply_off result s off))
    | inr (publish, on) ↦ elim (Bool-cases cfg.reply_enabled) [
      | inl enabled ↦
          IsReplied-with result publish s s' on
            (sym (send_reply_on result publish s on enabled) ∙ h)
      | inr disabled ↦ inr (
          inl (
            disabled,
            ap (λ (r : Result Error (Unit {0}) × S). r.1)
                (sym h ∙ send_reply_disabled result publish s on disabled),
          ))
    ]
  ]

  after_execute_ok :
      (inputs : Dict Value) (s s' : S) (x : Result Error Value × S)
      → map_inputs engines body cfg.input_mapping "jsonpath" ≡ ok inputs
      → execute inputs s ≡ x
      → after_execute x ≡ (ok tt, s')
      → IsRun s s'
  after_execute_ok inputs s s' (ok result, mid) mapped ran h =
      (inputs, result, mid, mapped, ran, send_reply_ok result mid s' h)
  after_execute_ok inputs s s' (err e, mid) mapped ran h =
      absurd (none-ne-some tt (ap (λ (r : Result Error (Unit {0}) × S). to_option r.0) h))

  run_mapped_ok : (s s' : S) → run_mapped s ≡ (ok tt, s') → IsRun s s'
  unfolding run_mapped
  run_mapped_ok s s' h =
      elim (Result-cases (map_inputs engines body cfg.input_mapping "jsonpath")) [
        | inl (inputs, e) ↦
            after_execute_ok inputs s s' (execute inputs s) e refl
              (sym (run_mapped_as inputs s e) ∙ h)
        | inr (x, e) ↦ absurd (
            none-ne-some tt (
              ap (λ (r : Result Error (Unit {0}) × S). to_option r.0)
                (sym (run_mapped_failed x s e) ∙ h)))
      ]

  -- What went wrong: the inputs were not mapped, the flow raised, or the reply that is asked for was
  -- not built or not published.
  pub data IsFailed (s : S) : Error → S → Type 0 where
    unmapped :
        (e : Error) → map_inputs engines body cfg.input_mapping "jsonpath" ≡ err e → IsFailed s e s
    crashed :
        (e : Error) (inputs : Dict Value) (s' : S)
        → map_inputs engines body cfg.input_mapping "jsonpath" ≡ ok inputs
        → execute inputs s ≡ (err e, s')
        → IsFailed s e s'
    unreplied :
        (e : Error) (inputs : Dict Value) (result : Value) (mid s' : S) (publish : Publish S)
        → map_inputs engines body cfg.input_mapping "jsonpath" ≡ ok inputs
        → execute inputs s ≡ (ok result, mid)
        → publisher ≡ some publish
        → cfg.reply_enabled ≡ true
        → ((reply_of result ≡ err e) × (s' ≡ mid))
          ⊎ ((reply : Dict Value) × (reply_of result ≡ ok reply)
              × (publish reply mid ≡ (err e, s')))
        → IsFailed s e s'

  error_of : Result Error (Unit {0}) × S → Option Error
  error_of (ok tt, s) = none
  error_of (err e, s) = some e

  no_error :
      {P : Type 0} (e : Error) (s s' : S) (x : Result Error (Unit {0}) × S)
      → x ≡ (ok tt, s)
      → x ≡ (err e, s')
      → P
  unfolding error_of
  no_error e s s' x good bad = absurd (none-ne-some e (ap error_of (sym good ∙ bad)))

  same_end :
      (e e' : Error) (s s' : S) (x : Result Error (Unit {0}) × S)
      → x ≡ (err e, s)
      → x ≡ (err e', s')
      → (e ≡ e') × (s ≡ s')
  unfolding error_of
  same_end e e' s s' x one other = (
    ap (λ (o : Option Error). or_else_error e o) (ap error_of (sym one ∙ other)),
    ap (λ (r : Result Error (Unit {0}) × S). r.1) (sym one ∙ other),
  )

  send_with_err :
      (publish : Publish S) (result : Value) (mid s' : S) (e : Error)
      → send_with publish (reply_of result) mid ≡ (err e, s')
      → ((reply_of result ≡ err e) × (s' ≡ mid))
        ⊎ ((reply : Dict Value) × (reply_of result ≡ ok reply) × (publish reply mid ≡ (err e, s')))
  send_with_err publish result mid s' e h = elim (Result-cases (reply_of result)) [
    | inl (reply, built) ↦ inr (
      reply,
      built,
      sym (ap (λ (r : Result Error (Dict Value)). send_with publish r mid) built) ∙ h,
    )
    | inr (x, failed) ↦
        let (same, there) =
          same_end x e mid s' _
            (ap (λ (r : Result Error (Dict Value)). send_with publish r mid) failed) h in
        inl (failed ∙ ap err same, sym there)
  ]

  after_execute_err :
      (inputs : Dict Value) (s s' : S) (e : Error) (x : Result Error Value × S)
      → map_inputs engines body cfg.input_mapping "jsonpath" ≡ ok inputs
      → execute inputs s ≡ x
      → after_execute x ≡ (err e, s')
      → IsFailed s e s'
  after_execute_err inputs s s' e (err x, mid) mapped ran h =
      let (same, there) = same_end x e mid s' _ refl h in
      crashed e inputs s' mapped
        (ran ∙ ap (λ (y : Error). (err y, mid)) same ∙ ap (λ (m : S). (err e, m)) there)
  after_execute_err inputs s s' e (ok result, mid) mapped ran h = elim (Option-cases publisher) [
    | inl off ↦ no_error e mid s' _ (send_reply_off result mid off) h
    | inr (publish, on) ↦ elim (Bool-cases cfg.reply_enabled) [
      | inr disabled ↦ no_error e mid s' _ (send_reply_disabled result publish mid on disabled) h
      | inl enabled ↦ unreplied e inputs result mid s' publish mapped ran on enabled (
          send_with_err publish result mid s' e
            (sym (send_reply_on result publish mid on enabled) ∙ h))
    ]
  ]

  run_mapped_err : (s s' : S) (e : Error) → run_mapped s ≡ (err e, s') → IsFailed s e s'
  run_mapped_err s s' e h =
      elim (Result-cases (map_inputs engines body cfg.input_mapping "jsonpath")) [
        | inl (inputs, mapped) ↦
            after_execute_err inputs s s' e (execute inputs s) mapped refl
              (sym (run_mapped_as inputs s mapped) ∙ h)
        | inr (x, failed) ↦
            let (same, there) = same_end x e s s' _ (run_mapped_failed x s failed) h in
            subst (λ (m : S). IsFailed s e m) there (unmapped e (failed ∙ ap err same))
      ]

  ended_cases :
      (x : Result Error (Unit {0}) × S)
      → ((x ≡ (ok tt, (ended x).state)) × ((ended x).action ≡ ack))
        ⊎ (((ended x).action ≡ nack)
            × (e : Error) × ((ended x).error ≡ some e)
            × (x ≡ (err e, (ended x).state)))
  ended_cases (ok tt, s) = inl (refl, refl)
  ended_cases (err e, s) = inr (refl, e, refl, refl)

  abbrev verdict : Result ConditionError Bool
  verdict =
      evaluate_condition engines (get_or cfg.condition_expression "")
        (get_or cfg.condition_language "jmespath") body

  -- There is no condition, or it is true of the body.
  abbrev pub IsMet : Type 0
  IsMet = (get_or cfg.condition_expression "" ≡ "") ⊎ (verdict ≡ ok true)

  -- There is a condition, and it is false of the body or cannot be evaluated.
  abbrev pub IsUnmet : Type 0
  IsUnmet =
      (get_or cfg.condition_expression "" ≢ "")
      × ((verdict ≡ ok false) ⊎ ((e : ConditionError) × (verdict ≡ err e)))

  met_cases : (r : Result ConditionError Bool) → is_met r ≡ true → r ≡ ok true
  met_cases (ok b) h = ap ok h
  met_cases (err e) h = absurd (cc)

  unmet_cases :
      (r : Result ConditionError Bool)
      → is_met r ≡ false
      → (r ≡ ok false) ⊎ ((e : ConditionError) × (r ≡ err e))
  unmet_cases (ok b) h = inl (ap ok h)
  unmet_cases (err e) h = inr (e, refl)

  passes-IsMet : passes_condition engines cfg body ≡ true → IsMet
  unfolding passes_condition
  passes-IsMet h = elim (Bool-cases (get_or cfg.condition_expression "" == "")) [
    | inl blank ↦ inl ((eq_iff (get_or cfg.condition_expression "") "").0 blank)
    | inr asked ↦ inr (met_cases verdict (ground arith))
  ]

  passes-IsUnmet : passes_condition engines cfg body ≡ false → IsUnmet
  unfolding passes_condition
  passes-IsUnmet h = (
    λ blank. absurd (ground (arith, eq_iff (get_or cfg.condition_expression "") "", blank)),
    unmet_cases verdict (ground arith),
  )

  -- Without Redis, a message whose condition is false or cannot be evaluated is acknowledged and
  -- changes nothing. Any other is acknowledged exactly if its inputs were mapped, the flow ran, and
  -- its reply, if one is asked for, was built and published; it is rejected, with the exception,
  -- exactly if one of these failed.
  pub exec_without_idempotency_lem :
      (s : S)
      → let r = exec_without_idempotency s in
        (IsUnmet × (r.action ≡ ack) × (r.state ≡ s))
        ⊎ (IsMet × (r.action ≡ ack) × IsRun s r.state)
        ⊎ (IsMet × (r.action ≡ nack) × (e : Error) × (r.error ≡ some e) × IsFailed s e r.state)
  unfolding exec_without_idempotency
  exec_without_idempotency_lem s = elim (Bool-cases (passes_condition engines cfg body)) [
    | inr unmet ↦ inl (passes-IsUnmet unmet, rw unmet, rw unmet)
    | inl met ↦ elim (ended_cases (run_mapped s)) [
      | inl (ran, acked) ↦ inr (
          inl (
            passes-IsMet met,
            rw met acked,
            rw met (run_mapped_ok s (ended (run_mapped s)).state ran),
          ))
      | inr (failed, e, told, raised) ↦ inr (
          inr (
            passes-IsMet met,
            rw met failed,
            e,
            rw met told,
            rw met (run_mapped_err s (ended (run_mapped s)).state e raised),
          ))
    ]
  ]
