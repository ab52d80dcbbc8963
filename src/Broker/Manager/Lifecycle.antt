-- ===== src/Broker/Manager/Lifecycle.antt =====
-- The consumers that `ConsumerManager` (backend/app/core/mq/consumer_manager.py) starts and stops: the
-- statuses that it reports, and the tasks of their loops.
use python_flow_hub.Prelude.{
  String, ◌≡◌, refl, Bool, true, false, not, ◌||◌, Option, none, some, [], Dict, lookup, insert,
  remove, has_key, lookup-insert, lookup-remove, if◌then◌else◌, eq_iff, arith,
}

pub data Status : Type 0 where
  stopped connecting running error : Status

-- A task is at work until its loop ends.
pub record Consumers : Type 0 where
  pub statuses : Dict Status
  pub tasks : Dict Bool
  pub connected : Bool

-- The task is cancelled and awaited.
unfoldable pub stop_consumer : String → Consumers → Consumers
stop_consumer api_id m = record m {
  tasks = remove api_id m.tasks;
  statuses = if has_key api_id m.statuses then insert api_id stopped m.statuses else m.statuses;
}

-- `connects` is what `connect` returns, if it is called.
unfoldable pub start_consumer : (connects : Bool) → String → Consumers → Bool × Consumers
unfolding stop_consumer
start_consumer connects api_id m =
    let m' = stop_consumer api_id m in
    if not (m'.connected || connects) then (false, m') else (
      true,
      record {
        statuses = insert api_id connecting m'.statuses;
        tasks = insert api_id true m'.tasks;
        connected = true;
      },
    )

-- `_consume_loop` after it has declared the queues, and after an exception.
unfoldable pub loop_ready : String → Consumers → Consumers
loop_ready api_id m = record m { statuses = insert api_id running m.statuses }

unfoldable pub loop_failed : String → Consumers → Consumers
loop_failed api_id m = record m {
  statuses = insert api_id error m.statuses;
  tasks = insert api_id false m.tasks;
}

-- `_consume_loop` when it ends with no word on its status: `int(retry_delay_ms)` raises before the
-- `try`, or the iterator over the queue comes to its end.
unfoldable pub loop_ended : String → Consumers → Consumers
loop_ended api_id m = record m { tasks = insert api_id false m.tasks }

unfoldable pub disconnect : Consumers → Consumers
disconnect m = record m { tasks = []; connected = false }

abbrev pub no_consumers : Consumers
no_consumers = record { statuses = []; tasks = []; connected = false }

abbrev pub is_live : Option Bool → Bool
is_live none = false
is_live (some b) = b

-- The status says that the consumer is at work.
abbrev pub is_busy : Option Status → Bool
is_busy none = false
is_busy (some stopped) = false
is_busy (some connecting) = true
is_busy (some running) = true
is_busy (some error) = false

-- What happens to the consumers while the program runs.
pub data Step : Consumers → Consumers → Type 0 where
  starts :
      {m : Consumers} (connects : Bool) (api_id : String)
      → Step m (start_consumer connects api_id m).1
  stops : {m : Consumers} (api_id : String) → Step m (stop_consumer api_id m)
  readies :
      {m : Consumers} (api_id : String)
      → is_live (lookup api_id m.tasks) ≡ true
      → Step m (loop_ready api_id m)
  fails :
      {m : Consumers} (api_id : String)
      → is_live (lookup api_id m.tasks) ≡ true
      → Step m (loop_failed api_id m)
  crashes :
      {m : Consumers} (api_id : String)
      → is_live (lookup api_id m.tasks) ≡ true
      → lookup api_id m.statuses ≡ some connecting
      → Step m (loop_ended api_id m)
  runs_out :
      {m : Consumers} (api_id : String)
      → is_live (lookup api_id m.tasks) ≡ true
      → lookup api_id m.statuses ≡ some running
      → Step m (loop_ended api_id m)
  disconnects : {m : Consumers} → Step m (disconnect m)

pub data Steps (m : Consumers) : Consumers → Type 0 where
  done : Steps m m
  next : {a b : Consumers} → Steps m a → Step a b → Steps m b

-- A consumer whose task is at work is reported so.
abbrev pub IsTruthful : Consumers → Type 0
IsTruthful m =
    (api_id : String)
    → is_live (lookup api_id m.tasks) ≡ true
    → is_busy (lookup api_id m.statuses) ≡ true

stop_consumer-IsTruthful :
    (api_id : String) (m : Consumers) → IsTruthful m → IsTruthful (stop_consumer api_id m)
unfolding stop_consumer
stop_consumer-IsTruthful api_id m truthful other live = ground (
  arith,
  truthful other,
  live,
  lookup-remove api_id other m.tasks,
  lookup-insert api_id other stopped m.statuses,
  eq_iff api_id other,
)

start_consumer-IsTruthful :
    (connects : Bool) (api_id : String) (m : Consumers)
    → IsTruthful m
    → IsTruthful (start_consumer connects api_id m).1
unfolding start_consumer
start_consumer-IsTruthful connects api_id m truthful other live =
    let m' = stop_consumer api_id m in
    ground (
      arith,
      stop_consumer-IsTruthful api_id m truthful other,
      live,
      lookup-insert api_id other connecting m'.statuses,
      lookup-insert api_id other true m'.tasks,
    )

loop_ended-IsTruthful :
    (api_id : String) (m : Consumers) → IsTruthful m → IsTruthful (loop_ended api_id m)
unfolding loop_ended
loop_ended-IsTruthful api_id m truthful other live =
    ground (arith, truthful other, live, lookup-insert api_id other false m.tasks)

Step-IsTruthful : (a b : Consumers) → Step a b → IsTruthful a → IsTruthful b
unfolding loop_ready loop_failed disconnect lookup
Step-IsTruthful a b (starts connects api_id) truthful =
    start_consumer-IsTruthful connects api_id a truthful
Step-IsTruthful a b (stops api_id) truthful = stop_consumer-IsTruthful api_id a truthful
Step-IsTruthful a b (readies api_id live) truthful =
    λ other h. ground (arith, truthful other, h, lookup-insert api_id other running a.statuses)
Step-IsTruthful a b (fails api_id live) truthful = λ other h. ground (
  arith,
  truthful other,
  h,
  lookup-insert api_id other error a.statuses,
  lookup-insert api_id other false a.tasks,
)
Step-IsTruthful a b (crashes api_id live early) truthful = loop_ended-IsTruthful api_id a truthful
Step-IsTruthful a b (runs_out api_id live late) truthful = loop_ended-IsTruthful api_id a truthful
Step-IsTruthful a b disconnects truthful = λ other h. absurd (ground (arith, h))

pub Steps-IsTruthful : (m : Consumers) → Steps no_consumers m → IsTruthful m
unfolding lookup
Steps-IsTruthful m done = λ api_id live. absurd (ground (arith, live))
Steps-IsTruthful m (next {a} w s) = Step-IsTruthful a m s (Steps-IsTruthful a w)

-- After a disconnection no task is left, and every consumer that was at work before is still
-- reported as connecting or running.
pub disconnect-IsStale :
    (m : Consumers)
    → Steps no_consumers m
    → (api_id : String) → is_live (lookup api_id m.tasks) ≡ true
    → (is_live (lookup api_id (disconnect m).tasks) ≡ false)
      × (is_busy (lookup api_id (disconnect m).statuses) ≡ true)
unfolding disconnect lookup
disconnect-IsStale m w api_id live = (refl, Steps-IsTruthful m w api_id live)
