-- ===== src/Idempotency/Store.antt =====
-- `IdempotencyStore` of pyflow_runtime/idempotency.py.
use python_flow_hub.Prelude.{
  ◌≡◌, ℕ, ◌+◌, String, Bool, true, false, ◌&&◌, Option, none, some, ltb, if◌then◌else◌, ◌==◌,
}
use python_flow_hub.Value.{Value, null}
use python_flow_hub.Idempotency.Redis.{State, Redis, state_key, fence_key}
use python_flow_hub.Idempotency.Scripts.{
  processing, lua_take_over, lua_heartbeat, lua_set_terminal, lua_mark_reply,
}

pub record ClaimResult : Type 0 where
  pub claimed : Bool
  pub fence_token : Option ℕ
  pub existing_status : Option String
  pub existing_result : Value

abbrev pub granted : ℕ → ClaimResult
granted fence_token = record {
  claimed = true;
  fence_token = some fence_token;
  existing_status = none;
  existing_result = null;
}

abbrev pub refused : String → Value → ClaimResult
refused status result = record {
  claimed = false;
  fence_token = none;
  existing_status = some status;
  existing_result = result;
}

module _ (redis : Redis) (pod_name : String) where
  open redis use {Server, get, counter, set, incr, expire}

  unfoldable pub try_take_over : String → (now lease_ttl state_ttl : ℕ) → Server → Option ℕ × Server
  unfolding lua_take_over
  try_take_over idem_id now lease_ttl state_ttl =
      lua_take_over redis (state_key idem_id) (fence_key idem_id) now pod_name lease_ttl state_ttl
        (state_ttl + 60)

  unfoldable pub heartbeat : String → ℕ → (now lease_ttl state_ttl : ℕ) → Server → Bool × Server
  unfolding lua_heartbeat
  heartbeat idem_id fence_token now lease_ttl state_ttl =
      lua_heartbeat redis (state_key idem_id) fence_token pod_name now lease_ttl state_ttl

  unfoldable pub set_terminal : String → ℕ → String → Value → ℕ → Server → Bool × Server
  unfolding lua_set_terminal
  set_terminal idem_id fence_token status result state_ttl =
      lua_set_terminal redis (state_key idem_id) fence_token pod_name status result state_ttl

  abbrev pub get_state : String → Server → Option State
  get_state idem_id s = get s (state_key idem_id)

  unfoldable pub mark_reply_sent : String → ℕ → ℕ → Server → Bool × Server
  unfolding lua_mark_reply
  mark_reply_sent idem_id fence_token state_ttl =
      lua_mark_reply redis (state_key idem_id) fence_token pod_name state_ttl

  -- `set(sk, value, nx=True, ex=state_ttl)`
  unfoldable pub set_nx : String → State → ℕ → Server → Bool × Server
  set_nx sk value ex s = elim (get s sk) [ none ↦ (true, set s sk value ex) | some st ↦ (false, s) ]

  pub set_nx_absent :
      (sk : String) (value : State) (ex : ℕ) (s : Server)
      → get s sk ≡ none
      → set_nx sk value ex s ≡ (true, set s sk value ex)
  unfolding set_nx
  set_nx_absent sk value ex s e = rw (e, set_nx)

  pub set_nx_present :
      (sk : String) (value st : State) (ex : ℕ) (s : Server)
      → get s sk ≡ some st
      → set_nx sk value ex s ≡ (false, s)
  unfolding set_nx
  set_nx_present sk value st ex s e = rw (e, set_nx)

  abbrev pub from_take_over : Option ℕ × Server → ClaimResult × Server
  from_take_over (none, s) = (refused "PROCESSING" null, s)
  from_take_over (some token, s) = (granted token, s)

  abbrev pub is_status : String → Option State → Bool
  is_status status none = false
  is_status status (some st) = st.status == status

  abbrev pub result_of : Option State → Value
  result_of none = null
  result_of (some st) = st.result

  abbrev pub lease_of : Option State → ℕ
  lease_of none = 0
  lease_of (some st) = st.lease_expire_at

  -- The tail of `claim`, on the state that was read.
  unfoldable pub judge :
      String → (now over_now lease_ttl state_ttl : ℕ) → Option State → Server → ClaimResult × Server
  unfolding try_take_over
  judge idem_id now over_now lease_ttl state_ttl seen s =
      if is_status "SUCCESS" seen
      then (refused "SUCCESS" (result_of seen), s)
      else if is_status "PROCESSING" seen && ltb now (lease_of seen)
      then (refused "PROCESSING" null, s)
      else from_take_over (try_take_over idem_id over_now lease_ttl state_ttl s)

  -- The token of `claim`: INCR, then EXPIRE.
  unfoldable pub next_token : String → ℕ → Server → ℕ × Server
  next_token idem_id state_ttl s =
      let s' = incr s (fence_key idem_id) in
      (counter s' (fence_key idem_id), expire s' (fence_key idem_id) (state_ttl + 60))

  abbrev pub after_set : Bool × Server → ℕ → (Server → ClaimResult × Server) → ClaimResult × Server
  after_set (true, s) token otherwise = (granted token, s)
  after_set (false, s) token otherwise = otherwise s

  -- `others i` is what other clients do while the call waits for its `i`th reply; `now` and
  -- `over_now` are the two readings of the clock.
  unfoldable pub claim :
      (ℕ → Server → Server)
      → String
      → (now over_now lease_ttl state_ttl : ℕ) → Server
      → ClaimResult × Server
  unfolding next_token set_nx judge
  claim others idem_id now over_now lease_ttl state_ttl s =
      let (token, s1) = next_token idem_id state_ttl s in
      let value = processing pod_name token (now + lease_ttl) in
      after_set (set_nx (state_key idem_id) value state_ttl (others 0 s1)) token λ s2.
        let s3 = others 1 s2 in
        judge idem_id now over_now lease_ttl state_ttl (get s3 (state_key idem_id)) (others 2 s3)
