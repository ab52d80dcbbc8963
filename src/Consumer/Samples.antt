-- ===== src/Consumer/Samples.antt =====
-- Messages that are handled by two pods over a small Redis.
use python_flow_hub.Prelude.{
  ℕ, ◌+◌, String, ◌≡◌, refl, true, false, Option, none, some, [], ◌∷◌, ◌++◌, Dict, lookup, insert,
  ◌⊎◌, ok, ap, sym, ◌∙◌, arith,
}
use python_flow_hub.Value.{Value, num, pos, text, bool, truthy}
use python_flow_hub.Runtime.Engines.{Engines}
use python_flow_hub.Runtime.Condition.{extract_path, evaluate_condition}
use python_flow_hub.Runtime.Messages.{
  extract_business_id, build_idempotency_id, map_inputs, map_fields, dict_or_empty,
}
use python_flow_hub.Idempotency.Redis.{State}
use python_flow_hub.Idempotency.Samples.{memory, held_by_b, seen_b}
use python_flow_hub.Consumer.{
  MqConfig, returned, Work, Env, World, conclude, is_satisfied, state_ttl_of,
}
use python_flow_hub.Consumer.Claimed.{
  RunsOnce, claimed_as, consumed, consume_with_idempotency-RunsOnce,
}
use python_flow_hub.Consumer.Undisturbed.{Undisturbed, Ended, quiet}
use python_flow_hub.Consumer.Redelivery.{deliveries, executed-deliveries}
use python_flow_hub.Consumer.FencedOut.{IsLost, Leaves, conclude-Leaves}

-- jmespath finds a match for every expression, jsonpath the text "7"; the others are constant.
abbrev engines : Engines
engines = record {
  jmespath_search = λ e p. some (bool true);
  jsonpath_find = λ e p. some (text "7" ∷ []);
  str = λ v. "0";
  body_digest = λ d. "digest";
  format_map = λ t f. none;
}

abbrev body : Dict Value
body = ("score", num (pos 7)) ∷ []

abbrev config : MqConfig
config = record {
  condition_expression = some "score > `5`";
  condition_language = none;
  input_mapping = some (("n", "score") ∷ []);
  reply_enabled = true;
  carry_fields = [];
}

-- The work sends one heartbeat and returns.
abbrev env : ℕ → Env memory
env now = record {
  claim_now = now;
  over_now = now;
  others = λ i s. s;
  execute = λ inputs. Work.beat (now + 10) false (λ s. s) (Work.finish (λ s. s) (ok (text "done")));
  publisher = some (λ reply. true);
}

abbrev empty : World memory
empty = record { server = (λ k. none, λ k. 0); executed = []; published = [] }

abbrev mapped : Dict Value
mapped = ("n", text "7") ∷ []

program : Unit {0}
unfolding extract_business_id dict_or_empty map_inputs map_fields extract_path is_satisfied
    evaluate_condition lookup insert truthy
program = tt

known : extract_business_id engines body (some "m") ≡ ok "m"
unfolding program
known = refl

met :
    is_satisfied memory engines "a"
      (quiet (env 0))
      "m:0"
      (state_ttl_of memory (some 100))
      config
      body
    ≡ true
unfolding program
met = refl

inputs_mapped : map_inputs engines body config.input_mapping "jsonpath" ≡ ok mapped
unfolding program
inputs_mapped = refl

-- Delivered three times, run once.
executed-deliveries_example :
    ((deliveries memory engines "a" body 0
        (some 100)
        config
        (some "m")
        (env 0 ∷ env 40 ∷ env 80 ∷ [])
        empty).executed
      ≡ [] ++ mapped ∷ [])
    × Ended memory
        (build_idempotency_id engines "m" 0)
        (text "done")
        (deliveries memory engines "a" body 0
          (some 100)
          config
          (some "m")
          (env 0 ∷ env 40 ∷ env 80 ∷ [])
          empty).server
unfolding build_idempotency_id
executed-deliveries_example =
    executed-deliveries memory engines "a" body 0 (some 100) config (some "m") "m" known (env 0)
      (env 40 ∷ env 80 ∷ []) empty (text "done") mapped refl met inputs_mapped
      (Undisturbed.beats 10 _ Undisturbed.ends)

consume_with_idempotency-RunsOnce_example :
    ((consumed memory engines "a" (env 0) body 0 (some 100) config (some "m") empty).1.executed
      ≡ [])
    ⊎ ((business_id : String) × (extract_business_id engines body (some "m") ≡ ok business_id)
        × ((claimed_as memory engines "a"
              (env 0)
              body
              0
              (some 100)
              config
              (some "m")
              empty
              business_id).0.claimed
            ≡ true)
        × RunsOnce memory engines "a"
            (env 0)
            (build_idempotency_id engines business_id 0)
            (state_ttl_of memory (some 100))
            config
            body
            empty
            (consumed memory engines "a" (env 0) body 0 (some 100) config (some "m") empty).1)
consume_with_idempotency-RunsOnce_example =
    consume_with_idempotency-RunsOnce memory engines "a" (env 0) body 0 (some 100) config (some "m")
      empty

-- Pod "b" took the execution "m:0" over while pod "a" was at work.
abbrev taken : World memory
taken = record { server = held_by_b; executed = mapped ∷ []; published = [] }

abbrev token_of : Option State → ℕ
token_of none = 0
token_of (some st) = st.fence_token

a-IsLost : IsLost memory engines "a" (env 0) "m:0" 100 1 held_by_b
a-IsLost st e = let t : 2 ≡ st.fence_token = ap token_of (sym seen_b ∙ e) in ground (arith, t)

conclude-Leaves_example :
    Leaves memory engines "a"
      (env 0)
      "m:0"
      100
      1
      taken
      (conclude memory engines "a"
        (env 0)
        "m:0"
        100
        config
        body
        "m"
        1
        (returned (text "done"))
        taken)
      (returned (text "done"))
conclude-Leaves_example =
    conclude-Leaves memory engines "a" (env 0) "m:0" 100 1 config body "m" (returned (text "done"))
      taken a-IsLost
