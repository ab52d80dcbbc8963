-- ===== src/Idempotency/Samples.antt =====
-- A small Redis, and what two pods do with it.
use python_flow_hub.Prelude.{
  ℕ, suc, ◌+◌, String, ◌≡◌, ◌≢◌, ◌⊎◌, refl, ap, true, false, Option, none, some, if◌then◌else◌,
  ◌==◌, eq_refl, arith,
}
use python_flow_hub.Value.{Value, null, text}
use python_flow_hub.Idempotency.Redis.{State, Redis, state_key, fence_key}
use python_flow_hub.Idempotency.Scripts.{
  is_held, processing, lua_take_over, update_owned, lua_heartbeat, lua_set_terminal, lua_mark_reply,
}
use python_flow_hub.Idempotency.Store.{
  refused, try_take_over, heartbeat, set_terminal, mark_reply_sent, set_nx, judge, next_token,
  claim,
}
use python_flow_hub.Idempotency.Fencing.{
  Step, Steps, Fenced, Succeeds, Steps-fences, IsAtWork, IsFree, try_take_over-eq,
}
use python_flow_hub.Idempotency.Claim.{claim_alone-eq, Takes, Stays}

-- Texts and counters as functions of the key; nothing expires.
abbrev pub Memory : Type 0
Memory = (String → Option State) × (String → ℕ)

abbrev pub memory : Redis
memory = record {
  Server = Memory;
  get = λ s k. s.0 k;
  counter = λ s k. s.1 k;
  set = λ s k v ex. (λ j. if k == j then some v else s.0 j, s.1);
  incr = λ s k. (s.0, λ j. if k == j then suc (s.1 j) else s.1 j);
  expire = λ s k ttl. s;
  cjson = λ v. v;
  get-set = λ s k j v ex pos. refl;
  counter-set = λ s k j v ex ne. refl;
  get-incr = λ s k j ne. refl;
  counter-incr = λ s k. ground (arith, eq_refl k);
  get-expire = λ s k j ttl ne. refl;
  counter-expire = λ s k ttl pos. refl;
}

-- Pod "a" holds the execution "m:0" under the token 1, until the time 30.
abbrev pub held_by_a : Memory
held_by_a = (
  λ k. if state_key "m:0" == k then some (processing "a" 1 30) else none,
  λ k. if fence_key "m:0" == k then 1 else 0,
)

-- Its lease has run out, so pod "b" takes over at the time 40.
abbrev pub held_by_b : Memory
held_by_b = (try_take_over memory "b" "m:0" 40 30 100 held_by_a).1

abbrev ended_by_b : Memory
ended_by_b =
    (set_terminal memory "b" "m:0" 2 "SUCCESS" (text "done") 100
      (heartbeat memory "b" "m:0" 2 50 30 100 held_by_b).1).1

program : Unit {0}
unfolding state_key fence_key lua_take_over update_owned lua_heartbeat lua_set_terminal
    lua_mark_reply try_take_over heartbeat set_terminal mark_reply_sent set_nx judge next_token
    claim
program = tt

abbrev token_in : Option State → ℕ
token_in none = 0
token_in (some st) = st.fence_token

pub seen_b : held_by_b.0 (state_key "m:0") ≡ some (processing "b" 2 70)
unfolding program
seen_b = refl

held_by_b-Fenced : Fenced memory "m:0" held_by_b
unfolding program
held_by_b-Fenced st e =
    let e' : 2 ≡ st.fence_token = ap token_in e in
    let c : held_by_b.1 (fence_key "m:0") ≡ 2 = refl in omega (arith, e', c)

b_works : Steps memory "m:0" held_by_b ended_by_b
b_works =
    Steps.next (Steps.next Steps.stay (Step.beat "b" 2 50 30 100 (omega arith)))
      (Step.ended "b" 2 "SUCCESS" (text "done") 100 (omega arith))

-- Pod "a", which comes back with its token 1, writes no more.
Steps-fences_example :
    ((pod : String) (now lease ttl : ℕ)
      → heartbeat memory pod "m:0" 1 now lease ttl ended_by_b ≡ (false, ended_by_b))
    × ((pod status : String) (result : Value) (ttl : ℕ)
        → set_terminal memory pod "m:0" 1 status result ttl ended_by_b ≡ (false, ended_by_b))
    × ((pod : String) (ttl : ℕ)
        → mark_reply_sent memory pod "m:0" 1 ttl ended_by_b ≡ (false, ended_by_b))
    × (st' : State) × (ended_by_b.0 (state_key "m:0") ≡ some st')
    × Succeeds memory "m:0" (processing "b" 2 70) st'
Steps-fences_example =
    Steps-fences memory "m:0" held_by_b ended_by_b (processing "b" 2 70) 1 held_by_b-Fenced b_works
      seen_b (omega arith)

claim_alone-eq_example :
    ((held_by_a.0 (state_key "m:0") ≡ none) × Takes memory "b" "m:0" 40 40 30 100 held_by_a 40)
    ⊎ ((st : State) × (held_by_a.0 (state_key "m:0") ≡ some st)
        × (((st.status ≡ "SUCCESS")
              × Stays memory "b" "m:0" 40 40 30 100 held_by_a st (refused "SUCCESS" st.result))
            ⊎ ((is_held 40 (some st) ≡ true)
                × Stays memory "b" "m:0" 40 40 30 100 held_by_a st (refused "PROCESSING" null))
            ⊎ ((st.status ≢ "SUCCESS")
                × (is_held 40 (some st) ≡ false)
                × Takes memory "b" "m:0" 40 40 30 100 held_by_a 40)))
claim_alone-eq_example =
    claim_alone-eq memory "b" "m:0" 40 40 30 100 held_by_a (omega arith) (omega arith)

try_take_over-eq_example :
    (IsAtWork memory "m:0" 40 held_by_a
      × (try_take_over memory "b" "m:0" 40 30 100 held_by_a ≡ (none, held_by_a)))
    ⊎ (IsFree memory "m:0" 40 held_by_a
        × ((try_take_over memory "b" "m:0" 40 30 100 held_by_a).0
            ≡ some (suc (held_by_a.1 (fence_key "m:0"))))
        × (held_by_b.0 (state_key "m:0")
            ≡ some (processing "b" (suc (held_by_a.1 (fence_key "m:0"))) (40 + 30)))
        × (held_by_b.1 (fence_key "m:0") ≡ suc (held_by_a.1 (fence_key "m:0"))))
try_take_over-eq_example = try_take_over-eq memory "m:0" "b" 40 30 100 held_by_a (omega arith)
