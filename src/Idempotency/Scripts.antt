-- ===== src/Idempotency/Scripts.antt =====
-- The Lua scripts of pyflow_runtime/idempotency.py. A script runs atomically; it returns its
-- result and the server after it.
use python_flow_hub.Prelude.{
  ◌≡◌, ℕ, ◌+◌, String, Bool, true, false, ◌&&◌, Option, none, some, ltb, eqb, if◌then◌else◌, ◌==◌,
}
use python_flow_hub.Value.{Value, null}
use python_flow_hub.Idempotency.Redis.{State, Redis}

abbrev pub is_processing : State → Bool
is_processing st = st.status == "PROCESSING"

-- `cur` is in the hands of an owner whose lease runs.
abbrev pub is_held : ℕ → Option State → Bool
is_held now none = false
is_held now (some st) = is_processing st && ltb now st.lease_expire_at

-- The caller is the owner of `cur`, by its token and its pod.
abbrev pub is_owner : ℕ → String → State → Bool
is_owner fence_token pod st = eqb st.fence_token fence_token && st.owner_pod == pod

abbrev pub processing : String → ℕ → ℕ → State
processing pod fence_token lease_expire_at = record {
  status = "PROCESSING";
  owner_pod = pod;
  fence_token = fence_token;
  lease_expire_at = lease_expire_at;
  result = null;
  reply_sent = false;
}

module _ (redis : Redis) where
  open redis use {Server, get, counter, set, incr, expire}

  -- _LUA_TAKE_OVER
  unfoldable pub lua_take_over :
      (sk fk : String) (now : ℕ) (pod : String) (lease_ttl state_ttl fence_ttl : ℕ)
      → Server
      → Option ℕ × Server
  lua_take_over sk fk now pod lease_ttl state_ttl fence_ttl s =
      if is_held now (get s sk)
      then (none, s)
      else (let s' = expire (incr s fk) fk fence_ttl in
          let fence = counter (incr s fk) fk in
          (some fence, set s' sk (processing pod fence (now + lease_ttl)) state_ttl))

  -- What the other three scripts share: a write by the owner, or 0 and no change.
  unfoldable pub update_owned :
      (sk : String) (fence_token : ℕ) (pod : String) (state_ttl : ℕ)
      → (State → State)
      → Server
      → Bool × Server
  update_owned sk fence_token pod state_ttl change s = elim (get s sk) [
    | none ↦ (false, s)
    | some st ↦
        if is_owner fence_token pod st then (true, set s sk (change st) state_ttl) else (false, s)
  ]

  -- _LUA_HEARTBEAT
  unfoldable pub lua_heartbeat :
      (sk : String) (fence_token : ℕ) (pod : String) (now lease_ttl state_ttl : ℕ)
      → Server
      → Bool × Server
  lua_heartbeat sk fence_token pod now lease_ttl state_ttl =
      update_owned sk fence_token pod state_ttl
        (λ st. record st { lease_expire_at = now + lease_ttl; result = redis.cjson st.result })

  -- _LUA_SET_TERMINAL
  unfoldable pub lua_set_terminal :
      (sk : String) (fence_token : ℕ) (pod status : String) (result : Value) (state_ttl : ℕ)
      → Server
      → Bool × Server
  lua_set_terminal sk fence_token pod status result state_ttl =
      update_owned sk fence_token pod state_ttl
        (λ st. record st { status = status; result = redis.cjson result; reply_sent = false })

  -- _LUA_MARK_REPLY
  unfoldable pub lua_mark_reply :
      (sk : String) (fence_token : ℕ) (pod : String) (state_ttl : ℕ) → Server → Bool × Server
  lua_mark_reply sk fence_token pod state_ttl =
      update_owned sk fence_token pod state_ttl
        (λ st. record st { result = redis.cjson st.result; reply_sent = true })

  -- The three outcomes of an owner's write.
  module _ (sk : String) (fence_token : ℕ) (pod : String) (state_ttl : ℕ) (change : State → State)
      (s : Server) where
    pub update_owned_absent :
        get s sk ≡ none → update_owned sk fence_token pod state_ttl change s ≡ (false, s)
    unfolding update_owned
    update_owned_absent e = rw (e, update_owned)

    pub update_owned_other :
        (st : State)
        → get s sk ≡ some st
        → is_owner fence_token pod st ≡ false
        → update_owned sk fence_token pod state_ttl change s ≡ (false, s)
    unfolding update_owned
    update_owned_other st e other = rw (e, update_owned) (rw other)

    pub update_owned_owner :
        (st : State)
        → get s sk ≡ some st
        → is_owner fence_token pod st ≡ true
        → update_owned sk fence_token pod state_ttl change s
          ≡ (true, set s sk (change st) state_ttl)
    unfolding update_owned
    update_owned_owner st e owner = rw (e, update_owned) (rw owner)

  module _ (sk fk : String) (now : ℕ) (pod : String) (lease_ttl state_ttl fence_ttl : ℕ)
      (s : Server) where
    pub lua_take_over_held :
        is_held now (get s sk) ≡ true
        → lua_take_over sk fk now pod lease_ttl state_ttl fence_ttl s ≡ (none, s)
    unfolding lua_take_over
    lua_take_over_held h = rw h

    pub lua_take_over_free :
        is_held now (get s sk) ≡ false
        → lua_take_over sk fk now pod lease_ttl state_ttl fence_ttl s ≡ (
          some (counter (incr s fk) fk),
          set
              (expire (incr s fk) fk fence_ttl)
              sk
              (processing pod (counter (incr s fk) fk) (now + lease_ttl))
              state_ttl,
        )
    unfolding lua_take_over
    lua_take_over_free h = rw h
