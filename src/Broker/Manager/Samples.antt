-- ===== src/Broker/Manager/Samples.antt =====
-- A consumer that comes and goes (backend/app/core/mq/consumer_manager.py).
use python_flow_hub.Prelude.{◌≡◌, refl, true, false, lookup, insert, remove}
use python_flow_hub.Broker.Manager.Lifecycle.{
  Consumers, no_consumers, start_consumer, loop_ready, disconnect, is_live, is_busy, Steps, done,
  next, starts, readies, disconnect-IsStale,
}

-- A consumer that is started on a connection, and whose queues are then declared.
abbrev started : Consumers
started = (start_consumer true "api" no_consumers).1

abbrev at_work : Consumers
at_work = loop_ready "api" started

to_work : Steps no_consumers at_work
unfolding start_consumer lookup remove insert
to_work = next (next done (starts true "api")) (readies "api" refl)

disconnect-IsStale_example :
    (is_live (lookup "api" (disconnect at_work).tasks) ≡ false)
    × (is_busy (lookup "api" (disconnect at_work).statuses) ≡ true)
unfolding start_consumer loop_ready lookup remove insert
disconnect-IsStale_example = disconnect-IsStale at_work to_work "api" refl
