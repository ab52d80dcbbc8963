-- ===== src/Idempotency/Claim.antt =====
-- `claim` of pyflow_runtime/idempotency.py, with and without other clients at work.
use python_flow_hub.Prelude.{
  ℕ, suc, ◌+◌, ◌≤◌, ◌<◌, String, ◌≡◌, ◌≢◌, ◌∙◌, ap, Bool, true, false, Option, none, some, ◌==◌,
  eq_iff, eq_refl, arith, Option-cases, inl, inr, ◌⊎◌, Bool-cases,
}
use python_flow_hub.Value.{null}
use python_flow_hub.Idempotency.Redis.{State, Redis, state_key, fence_key}
use python_flow_hub.Idempotency.Scripts.{is_held, processing, lua_take_over_free}
use python_flow_hub.Idempotency.Store.{
  ClaimResult, granted, refused, claim, judge, next_token, set_nx_absent, set_nx_present,
  try_take_over, after_set, from_take_over,
}
use python_flow_hub.Idempotency.Keys.{keys_differ}

module _ (redis : Redis) (pod : String) (idem_id : String) (now over_now lease ttl : ℕ) where
  open redis use {Server, get, counter, set, incr, expire}

  abbrev sk : String
  sk = state_key idem_id

  abbrev fk : String
  fk = fence_key idem_id

  -- A claim while no other client acts.
  abbrev pub claim_alone : Server → ClaimResult × Server
  claim_alone s = claim redis pod (λ i x. x) idem_id now over_now lease ttl s

  abbrev pub drawn : Server → ℕ × Server
  drawn s = next_token redis pod idem_id ttl s

  next_token-eq : (s : Server) → (drawn s).0 ≡ suc (counter s fk)
  unfolding next_token
  next_token-eq s = redis.counter-incr s fk

  counter-next_token : (s : Server) → counter (drawn s).1 fk ≡ suc (counter s fk)
  unfolding next_token
  counter-next_token s =
      redis.counter-expire (incr s fk) fk (ttl + 60) (omega arith) ∙ redis.counter-incr s fk

  pub get-next_token : (s : Server) → get (drawn s).1 sk ≡ get s sk
  unfolding next_token
  get-next_token s =
      redis.get-expire (incr s fk) fk sk (ttl + 60) (keys_differ idem_id idem_id)
      ∙ redis.get-incr s fk sk (keys_differ idem_id idem_id)

  abbrev pub first_state : Server → State
  first_state s = processing pod (drawn s).0 (now + lease)

  pub claim_first :
      (s : Server)
      → get s sk ≡ none
      → claim_alone s ≡ (granted (drawn s).0, set (drawn s).1 sk (first_state s) ttl)
  unfolding claim
  claim_first s absent =
      ap
        (λ (m : Bool × Server).
          after_set redis pod m (drawn s).0
            (λ x. judge redis pod idem_id now over_now lease ttl (get x sk) x))
        (set_nx_absent redis pod sk (first_state s) ttl (drawn s).1 (get-next_token s ∙ absent))

  claim_again :
      (s : Server) (st : State)
      → get s sk ≡ some st
      → claim_alone s ≡ judge redis pod idem_id now over_now lease ttl (some st) (drawn s).1
  unfolding claim
  claim_again s st found =
      let found' = get-next_token s ∙ found in
      ap
        (λ (m : Bool × Server).
          after_set redis pod m (drawn s).0
            (λ x. judge redis pod idem_id now over_now lease ttl (get x sk) x))
        (set_nx_present redis pod sk (first_state s) st ttl (drawn s).1 found')
      ∙ ap (λ (o : Option State). judge redis pod idem_id now over_now lease ttl o (drawn s).1)
          found'

  claim_absent :
      (s : Server)
      → 0 < ttl
      → get s sk ≡ none
      → ((claim_alone s).0 ≡ granted (suc (counter s fk)))
        × (get (claim_alone s).1 sk ≡ some (processing pod (suc (counter s fk)) (now + lease)))
  claim_absent s pos absent =
      let e = claim_first s absent in
      (
        ap (λ (x : ClaimResult × Server). x.0) e ∙ ap granted (next_token-eq s),
        ap (λ (x : ClaimResult × Server). get x.1 sk) e
            ∙ ground (arith, redis.get-set (drawn s).1 sk sk (first_state s) ttl, eq_refl sk)
            ∙ ap (λ (n : ℕ). some (processing pod n (now + lease))) (next_token-eq s),
      )

  judge_success :
      (s : Server) (st : State)
      → st.status ≡ "SUCCESS"
      → judge redis pod idem_id now over_now lease ttl (some st) s
        ≡ (refused "SUCCESS" st.result, s)
  unfolding judge
  judge_success s st done = ground (arith, eq_iff st.status "SUCCESS")

  judge_held :
      (s : Server) (st : State)
      → is_held now (some st) ≡ true
      → judge redis pod idem_id now over_now lease ttl (some st) s ≡ (refused "PROCESSING" null, s)
  unfolding judge
  judge_held s st held = ground (
    arith,
    eq_iff st.status "SUCCESS",
    eq_iff st.status "PROCESSING",
    eq_iff "PROCESSING" "SUCCESS",
  )

  judge_free :
      (s : Server) (st : State)
      → (st.status == "SUCCESS") ≡ false
      → is_held now (some st) ≡ false
      → judge redis pod idem_id now over_now lease ttl (some st) s
        ≡ from_take_over redis pod (try_take_over redis pod idem_id over_now lease ttl s)
  unfolding judge
  judge_free s st other free = rw other (rw free)

  pub claim_done :
      (s : Server) (st : State)
      → get s sk ≡ some st
      → st.status ≡ "SUCCESS"
      → claim_alone s ≡ (refused "SUCCESS" st.result, (drawn s).1)
  claim_done s st found done = claim_again s st found ∙ judge_success (drawn s).1 st done

  -- A claim that meets a state `st` hands over to the tail, which reads the same state.
  abbrev pub Stays : Server → State → ClaimResult → Type 0
  Stays s st c = ((claim_alone s).0 ≡ c) × (get (claim_alone s).1 sk ≡ some st)

  stays :
      (s : Server) (st : State) (c : ClaimResult)
      → get s sk ≡ some st
      → judge redis pod idem_id now over_now lease ttl (some st) (drawn s).1 ≡ (c, (drawn s).1)
      → Stays s st c
  stays s st c found e =
      let e' = claim_again s st found ∙ e in
      (
        ap (λ (x : ClaimResult × Server). x.0) e',
        ap (λ (x : ClaimResult × Server). get x.1 sk) e' ∙ get-next_token s ∙ found,
      )

  -- The caller becomes the owner, under a token greater than every token drawn before.
  abbrev pub Takes : Server → ℕ → Type 0
  Takes s from =
      (token : ℕ) × (counter s fk < token)
      × ((claim_alone s).0 ≡ granted token)
      × (get (claim_alone s).1 sk ≡ some (processing pod token (from + lease)))

  later_free :
      (st : State)
      → now ≤ over_now
      → is_held now (some st) ≡ false
      → is_held over_now (some st) ≡ false
  later_free st le free = ground arith

  -- `st` is not held at either time.
  took_over :
      (s : Server) (st : State)
      → 0 < ttl
      → get s sk ≡ some st
      → (st.status == "SUCCESS") ≡ false
      → is_held now (some st) ≡ false
      → is_held over_now (some st) ≡ false
      → Takes s over_now
  unfolding try_take_over
  took_over s st pos found other free free' =
      let e = claim_again s st found ∙ judge_free (drawn s).1 st other free in
      let f =
        lua_take_over_free redis sk fk over_now pod lease ttl (ttl + 60) (drawn s).1
          (ap (λ (o : Option State). is_held over_now o) (get-next_token s ∙ found) ∙ free') in
      let s1 = (drawn s).1 in
      let token = counter (incr s1 fk) fk in
      let e' = e ∙ ap (λ (x : Option ℕ × Server). from_take_over redis pod x) f in
      (
        token,
        omega (arith, redis.counter-incr s1 fk, counter-next_token s),
        ap (λ (x : ClaimResult × Server). x.0) e',
        ap (λ (x : ClaimResult × Server). get x.1 sk) e'
            ∙ ground (
              arith,
              redis.get-set (expire (incr s1 fk) fk (ttl + 60)) sk sk
                  (processing pod token (over_now + lease)) ttl,
              eq_refl sk,
            ),
      )

  -- A claim that no other client disturbs. With no state the caller becomes the owner. A finished
  -- execution is reported with its result, and its state stays. One whose lease runs is refused as
  -- "PROCESSING", and its state stays. Any other, failed or with a lease that has run out, is
  -- taken over. An owner's token is greater than every token drawn before. The time to live is at
  -- least a second, and the clock does not go back.
  pub claim_alone-eq :
      (s : Server)
      → 0 < ttl
      → now ≤ over_now
      → ((get s sk ≡ none) × Takes s now)
        ⊎ ((st : State) × (get s sk ≡ some st)
            × (((st.status ≡ "SUCCESS") × Stays s st (refused "SUCCESS" st.result))
                ⊎ ((is_held now (some st) ≡ true) × Stays s st (refused "PROCESSING" null))
                ⊎ ((st.status ≢ "SUCCESS") × (is_held now (some st) ≡ false) × Takes s over_now)))
  claim_alone-eq s pos le = elim (Option-cases (get s sk)) [
    | inl absent ↦
        let (a, b) = claim_absent s pos absent in
        inl (absent, (suc (counter s fk), omega arith, a, b))
    | inr (st, found) ↦ inr (
      st,
      found,
      elim (Bool-cases (st.status == "SUCCESS")) [
        | inl done ↦
            let done' = (eq_iff st.status "SUCCESS").0 done in
            inl (done', stays s st _ found (judge_success (drawn s).1 st done'))
        | inr other ↦ elim (Bool-cases (is_held now (some st))) [
          | inl held ↦ inr (inl (held, stays s st _ found (judge_held (drawn s).1 st held)))
          | inr free ↦ inr (
              inr (
                (λ e. ground (arith, eq_iff st.status "SUCCESS", e, other)),
                free,
                took_over s st pos found other free (later_free st le free),
              ))
        ]
      ],
    )
  ]
