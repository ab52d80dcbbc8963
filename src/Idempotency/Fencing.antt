-- ===== src/Idempotency/Fencing.antt =====
-- Any interleaving of the commands of any pods: tokens only grow, and who has lost one writes no
-- more. The commands are those of pyflow_runtime/idempotency.py; a key that Redis drops at the end
-- of its time to live is not a step.
use mathlib.Core.Option.{none-ne-some}
use python_flow_hub.Prelude.{
  ℕ, suc, ◌+◌, ◌≤◌, ◌<◌, String, ◌≡◌, refl, sym, ◌∙◌, ap, subst, true, false, Option, none, some,
  ◌≢◌, ◌==◌, eq_iff, eq_refl, arith, Option-cases, inl, inr, ◌⊎◌, Bool-cases,
}
use python_flow_hub.Value.{Value}
use python_flow_hub.Idempotency.Redis.{State, Redis, state_key, fence_key}
use python_flow_hub.Idempotency.Scripts.{
  update_owned_absent, update_owned_other, update_owned_owner, lua_take_over_held,
  lua_take_over_free, is_held, is_owner, processing, lua_take_over, update_owned, lua_heartbeat,
  lua_set_terminal, lua_mark_reply,
}
use python_flow_hub.Idempotency.Store.{
  try_take_over, heartbeat, set_terminal, mark_reply_sent, set_nx, set_nx_absent, set_nx_present,
  next_token,
}
use python_flow_hub.Idempotency.Keys.{keys_differ, keys_differ'}

module _ (redis : Redis) (idem_id : String) where
  open redis use {Server, get, counter, set, incr, expire}

  abbrev sk : String
  sk = state_key idem_id

  abbrev fk : String
  fk = fence_key idem_id

  -- One command of some pod. A pod sets the first state with a token that was handed out.
  pub data Step (s : Server) : Server → Type 0 where
    drew : (pod : String) (ttl : ℕ) → Step s (next_token redis pod idem_id ttl s).1
    entered :
        (pod : String) (token until ttl : ℕ)
        → 0 < ttl
        → token ≤ counter s (fence_key idem_id)
        → Step s (set_nx redis pod (state_key idem_id) (processing pod token until) ttl s).1
    took_over :
        (pod : String) (now lease ttl : ℕ)
        → 0 < ttl
        → Step s (try_take_over redis pod idem_id now lease ttl s).1
    beat :
        (pod : String) (token now lease ttl : ℕ)
        → 0 < ttl
        → Step s (heartbeat redis pod idem_id token now lease ttl s).1
    ended :
        (pod : String) (token : ℕ) (status : String) (result : Value) (ttl : ℕ)
        → 0 < ttl
        → Step s (set_terminal redis pod idem_id token status result ttl s).1
    marked :
        (pod : String) (token ttl : ℕ)
        → 0 < ttl
        → Step s (mark_reply_sent redis pod idem_id token ttl s).1

  pub data Steps (s : Server) : Server → Type 0 where
    stay : Steps s s
    next : {t u : Server} → Steps s t → Step t u → Steps s u

  -- The state never holds a token that was not drawn from the counter.
  abbrev pub Fenced : Server → Type 0
  Fenced s = (st : State) → get s sk ≡ some st → st.fence_token ≤ counter s fk

  -- What a state may become: the same token with the same owner, or a greater token.
  pub record Succeeds (old new : State) : Type 0 where
    pub grows : old.fence_token ≤ new.fence_token
    pub keeps : new.fence_token ≡ old.fence_token → new.owner_pod ≡ old.owner_pod

  abbrev Moves : Server → Server → Type 0
  Moves s t =
      Fenced t
      × ((st : State)
          → get s sk ≡ some st
          → (st' : State) × (get t sk ≡ some st') × Succeeds st st')

  same_state : (st new : State) (o : Option State) → o ≡ some st → o ≡ some new → st ≡ new
  same_state st new o e h = cc

  moves_to :
      (s t : Server) (new : State)
      → get t sk ≡ some new
      → new.fence_token ≤ counter t fk
      → ((st : State) → get s sk ≡ some st → Succeeds st new)
      → Moves s t
  moves_to s t new h le succ = (
    λ st e. omega (arith, ap (λ (x : State). x.fence_token) (same_state st new (get t sk) e h), le),
    λ st e. (new, h, succ st e),
  )

  moves_same :
      (s t : Server) → get t sk ≡ get s sk → counter s fk ≤ counter t fk → Fenced s → Moves s t
  moves_same s t same le f = (
    λ st e. omega (arith, f st (sym same ∙ e), le),
    λ st e. (st, same ∙ e, record { grows = omega arith; keeps = λ _. refl }),
  )

  set_get : (s : Server) (v : State) (ttl : ℕ) → 0 < ttl → get (set s sk v ttl) sk ≡ some v
  set_get s v ttl pos = ground (arith, redis.get-set s sk sk v ttl, eq_refl sk)

  set_counter : (s : Server) (v : State) (ttl : ℕ) → counter (set s sk v ttl) fk ≡ counter s fk
  set_counter s v ttl = redis.counter-set s sk fk v ttl (keys_differ' idem_id idem_id)

  incr_counter : (s : Server) → counter (incr s fk) fk ≡ suc (counter s fk)
  incr_counter s = redis.counter-incr s fk

  carry : {A : Type 0} (s : Server) (x y : A × Server) → x ≡ y → Moves s y.1 → Moves s x.1
  carry {A} s x y e m = subst (λ (z : A × Server). Moves s z.1) (sym e) m

  update_owned-Moves :
      (token : ℕ) (pod : String) (ttl : ℕ) (change : State → State) (s : Server)
      → ((st : State) → (change st).fence_token ≡ st.fence_token)
      → ((st : State) → (change st).owner_pod ≡ st.owner_pod)
      → 0 < ttl
      → Fenced s
      → Moves s (update_owned redis sk token pod ttl change s).1
  update_owned-Moves token pod ttl change s same own pos f = elim (Option-cases (get s sk)) [
    | inl absent ↦
        carry s _ _ (update_owned_absent redis sk token pod ttl change s absent)
          (moves_same s s refl (omega arith) f)
    | inr (old, found) ↦ elim (Bool-cases (is_owner token pod old)) [
      | inl owner ↦
          carry s _ _ (update_owned_owner redis sk token pod ttl change s old found owner) (
            moves_to s _ (change old) (set_get s (change old) ttl pos)
              (omega (arith, set_counter s (change old) ttl, same old, f old found))
              λ st e.
                let eq = same_state st old (get s sk) e found in
                record {
                  grows = omega (arith, same old, ap (λ (x : State). x.fence_token) eq);
                  keeps = λ _. own old ∙ ap (λ (x : State). x.owner_pod) (sym eq);
                })
      | inr other ↦
          carry s _ _ (update_owned_other redis sk token pod ttl change s old found other)
            (moves_same s s refl (omega arith) f)
    ]
  ]

  take_over-Moves :
      (pod : String) (now lease ttl : ℕ) (s : Server)
      → 0 < ttl
      → Fenced s
      → Moves s (lua_take_over redis sk fk now pod lease ttl (ttl + 60) s).1
  take_over-Moves pod now lease ttl s pos f = elim (Bool-cases (is_held now (get s sk))) [
    | inl held ↦
        carry s _ _ (lua_take_over_held redis sk fk now pod lease ttl (ttl + 60) s held)
          (moves_same s s refl (omega arith) f)
    | inr free ↦
        let s' = expire (incr s fk) fk (ttl + 60) in
        let new = processing pod (counter (incr s fk) fk) (now + lease) in
        carry s _ _ (lua_take_over_free redis sk fk now pod lease ttl (ttl + 60) s free) (
          moves_to s _ new (set_get s' new ttl pos)
            (omega (arith, set_counter s' new ttl, redis.counter-expire (incr s fk) fk (ttl + 60)))
            λ st e. record {
              grows = omega (arith, f st e, incr_counter s);
              keeps = λ eq. absurd (omega (arith, eq, f st e, incr_counter s));
            })
  ]

  set_nx-Moves :
      (pod : String) (token until ttl : ℕ) (s : Server)
      → 0 < ttl
      → token ≤ counter s fk
      → Fenced s
      → Moves s (set_nx redis pod sk (processing pod token until) ttl s).1
  set_nx-Moves pod token until ttl s pos le f = elim (Option-cases (get s sk)) [
    | inl absent ↦
        let new = processing pod token until in
        carry s _ _ (set_nx_absent redis pod sk new ttl s absent) (
          moves_to s _ new (set_get s new ttl pos) (omega (arith, set_counter s new ttl, le))
            λ st e. absurd (none-ne-some st (sym absent ∙ e)))
    | inr (old, found) ↦
        carry s _ _ (set_nx_present redis pod sk (processing pod token until) old ttl s found)
          (moves_same s s refl (omega arith) f)
  ]

  next_token-Moves :
      (pod : String) (ttl : ℕ) (s : Server)
      → Fenced s
      → Moves s (next_token redis pod idem_id ttl s).1
  unfolding next_token
  next_token-Moves pod ttl s f =
      moves_same s _
        (redis.get-expire (incr s fk) fk sk (ttl + 60) (keys_differ idem_id idem_id)
          ∙ redis.get-incr s fk sk (keys_differ idem_id idem_id))
        (omega (arith, redis.counter-expire (incr s fk) fk (ttl + 60), incr_counter s)) f

  Step-Moves : {s t : Server} → Step s t → Fenced s → Moves s t
  unfolding try_take_over heartbeat set_terminal mark_reply_sent lua_heartbeat lua_set_terminal
      lua_mark_reply
  Step-Moves {s} (drew pod ttl) f = next_token-Moves pod ttl s f
  Step-Moves {s} (entered pod token until ttl pos le) f =
      set_nx-Moves pod token until ttl s pos le f
  Step-Moves {s} (took_over pod now lease ttl pos) f = take_over-Moves pod now lease ttl s pos f
  Step-Moves {s} (beat pod token now lease ttl pos) f =
      update_owned-Moves token pod ttl
        (λ st. record st { lease_expire_at = now + lease; result = redis.cjson st.result }) s
        (λ st. refl) (λ st. refl) pos f
  Step-Moves {s} (ended pod token status result ttl pos) f =
      update_owned-Moves token pod ttl
        (λ st. record st { status = status; result = redis.cjson result; reply_sent = false }) s
        (λ st. refl) (λ st. refl) pos f
  Step-Moves {s} (marked pod token ttl pos) f =
      update_owned-Moves token pod ttl
        (λ st. record st { result = redis.cjson st.result; reply_sent = true }) s (λ st. refl)
        (λ st. refl) pos f

  Steps-Moves : {s t : Server} → Steps s t → Fenced s → Moves s t
  Steps-Moves {s} stay f = moves_same s s refl (omega arith) f
  Steps-Moves (next r step) f =
      let (f', before) = Steps-Moves r f in
      let (f'', last) = Step-Moves step f' in
      (
        f'',
        λ st e.
            let (mid, e', a) = before st e in
            let (st', e'', b) = last mid e' in
            (
              st',
              e'',
              record {
                grows = omega (arith, a.grows, b.grows);
                keeps = λ eq.
                    b.keeps (omega (arith, eq, a.grows, b.grows))
                    ∙ a.keeps (omega (arith, eq, a.grows, b.grows));
              },
            ),
      )

  -- A write with a token that the state no longer holds is refused and changes nothing.
  stale_refused :
      (token : ℕ) (pod : String) (ttl : ℕ) (change : State → State) (t : Server) (st : State)
      → get t sk ≡ some st
      → token < st.fence_token
      → update_owned redis sk token pod ttl change t ≡ (false, t)
  stale_refused token pod ttl change t st found lt =
      update_owned_other redis sk token pod ttl change t st found (ground arith)

  -- Whatever commands the pods interleave after it, once the state holds a greater token every
  -- write with an older one is refused and changes nothing: the heartbeat, the terminal state and
  -- the mark of the reply. The state stays, with no smaller a token, and with the same owner as
  -- long as it holds the same token.
  pub Steps-fences :
      (s t : Server) (st : State) (token : ℕ)
      → Fenced s
      → Steps s t
      → get s sk ≡ some st
      → token < st.fence_token
      → ((pod : String) (now lease ttl : ℕ)
          → heartbeat redis pod idem_id token now lease ttl t ≡ (false, t))
        × ((pod status : String) (result : Value) (ttl : ℕ)
            → set_terminal redis pod idem_id token status result ttl t ≡ (false, t))
        × ((pod : String) (ttl : ℕ) → mark_reply_sent redis pod idem_id token ttl t ≡ (false, t))
        × (st' : State) × (get t sk ≡ some st')
        × Succeeds st st'
  unfolding heartbeat set_terminal mark_reply_sent lua_heartbeat lua_set_terminal lua_mark_reply
  Steps-fences s t st token f r found lt =
      let (_, moved) = Steps-Moves r f in
      let (st', found', succ) = moved st found in
      (
        λ pod now lease ttl. stale_refused token pod ttl _ t st' found' (omega (arith, succ.grows)),
        λ pod status result ttl.
            stale_refused token pod ttl _ t st' found' (omega (arith, succ.grows)),
        λ pod ttl. stale_refused token pod ttl _ t st' found' (omega (arith, succ.grows)),
        st',
        found',
        succ,
      )

  -- An owner is at work, and its lease runs.
  abbrev pub IsAtWork : ℕ → Server → Type 0
  IsAtWork now s =
      (st : State) × (get s sk ≡ some st) × (st.status ≡ "PROCESSING") × (now < st.lease_expire_at)

  -- There is no state, its execution has ended, or the lease of its owner is over.
  abbrev pub IsFree : ℕ → Server → Type 0
  IsFree now s =
      (get s sk ≡ none)
      ⊎ ((st : State) × (get s sk ≡ some st)
          × ((st.status ≢ "PROCESSING") ⊎ (st.lease_expire_at ≤ now)))

  is_held-IsAtWork :
      (now : ℕ) (s : Server) (o : Option State)
      → get s sk ≡ o
      → is_held now o ≡ true
      → IsAtWork now s
  is_held-IsAtWork now s none e h = absurd (cc)
  is_held-IsAtWork now s (some st) e h =
      (st, e, (eq_iff st.status "PROCESSING").0 (ground arith), ground arith)

  is_held-IsFree :
      (now : ℕ) (s : Server) (o : Option State)
      → get s sk ≡ o
      → is_held now o ≡ false
      → IsFree now s
  is_held-IsFree now s none e h = inl e
  is_held-IsFree now s (some st) e h = elim (Bool-cases (st.status == "PROCESSING")) [
    | inl working ↦ inr (st, e, inr (ground arith))
    | inr over ↦
        inr (st, e, inl (λ same. absurd (ground (arith, eq_iff st.status "PROCESSING", same))))
  ]

  -- A take over is refused, with no change, exactly while an owner is at work and its lease runs.
  -- Otherwise, a finished execution included, the caller becomes the owner of a new execution
  -- under a token greater than every token drawn before.
  pub try_take_over-eq :
      (pod : String) (now lease ttl : ℕ) (s : Server)
      → 0 < ttl
      → (IsAtWork now s × (try_take_over redis pod idem_id now lease ttl s ≡ (none, s)))
        ⊎ (IsFree now s
            × ((try_take_over redis pod idem_id now lease ttl s).0 ≡ some (suc (counter s fk)))
            × (get (try_take_over redis pod idem_id now lease ttl s).1 sk
                ≡ some (processing pod (suc (counter s fk)) (now + lease)))
            × (counter (try_take_over redis pod idem_id now lease ttl s).1 fk ≡ suc (counter s fk)))
  unfolding try_take_over
  try_take_over-eq pod now lease ttl s pos = elim (Bool-cases (is_held now (get s sk))) [
    | inl held ↦ inl (
      is_held-IsAtWork now s _ refl held,
      lua_take_over_held redis sk fk now pod lease ttl (ttl + 60) s held,
    )
    | inr free ↦
        let e = lua_take_over_free redis sk fk now pod lease ttl (ttl + 60) s free in
        let s' = expire (incr s fk) fk (ttl + 60) in
        let new = processing pod (counter (incr s fk) fk) (now + lease) in
        inr (
          is_held-IsFree now s _ refl free,
          ap (λ (x : Option ℕ × Server). x.0) e ∙ ap some (incr_counter s),
          ap (λ (x : Option ℕ × Server). get x.1 sk) e
              ∙ set_get s' new ttl pos
              ∙ ap (λ (n : ℕ). some (processing pod n (now + lease))) (incr_counter s),
          ap (λ (x : Option ℕ × Server). counter x.1 fk) e
              ∙ set_counter s' new ttl
              ∙ redis.counter-expire (incr s fk) fk (ttl + 60) (omega arith)
              ∙ incr_counter s,
        )
  ]
