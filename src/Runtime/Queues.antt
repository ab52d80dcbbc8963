-- ===== src/Runtime/Queues.antt =====
-- pyflow_runtime/backoff_queue.py, `queue_topology` of consumer.py, and the declaration of the
-- queues in backend/app/core/mq/topology_builder.py.
pub mod Routes
pub mod Samples
use Prim.Native.String.{◌++◌}
use python_flow_hub.Prelude.{ℕ, String, Option, none, some, List, [], ◌∷◌}

-- The arguments that a queue is declared with, each absent or present.
pub record Arguments : Type 0 where
  pub message_ttl : Option ℕ
  pub dead_letter_exchange : Option String
  pub dead_letter_routing_key : Option String

pub record Queue : Type 0 where
  pub name : String
  pub arguments : Arguments

pub record Topology : Type 0 where
  pub main : Queue
  pub dlq : Queue
  pub backoff : Queue
  pub dead : Queue

abbrev pub default_backoff_ttl_ms : ℕ
default_backoff_ttl_ms = 2000

unfoldable pub main_queue : String → String
main_queue scope_id = "flow." ++ (scope_id ++ ".queue")

unfoldable pub dlq_queue : String → String
dlq_queue scope_id = "flow." ++ (scope_id ++ ".dlq")

unfoldable pub dead_queue : String → String
dead_queue scope_id = "flow." ++ (scope_id ++ ".dead")

unfoldable pub backoff_queue : String → String
backoff_queue scope_id = "flow." ++ (scope_id ++ ".backoff")

abbrev pub no_arguments : Arguments
no_arguments = record {
  message_ttl = none;
  dead_letter_exchange = none;
  dead_letter_routing_key = none;
}

unfoldable pub queue_arguments : String → ℕ → Arguments
queue_arguments scope_id retry_delay_ms = record {
  message_ttl = none;
  dead_letter_exchange = some "";
  dead_letter_routing_key = some (dlq_queue scope_id);
}

unfoldable pub dlq_arguments : String → ℕ → Arguments
dlq_arguments scope_id retry_delay_ms = record {
  message_ttl = some retry_delay_ms;
  dead_letter_exchange = some "";
  dead_letter_routing_key = some (main_queue scope_id);
}

unfoldable pub backoff_arguments : String → ℕ → Arguments
backoff_arguments scope_id backoff_ttl_ms = record {
  message_ttl = some backoff_ttl_ms;
  dead_letter_exchange = some "";
  dead_letter_routing_key = some (main_queue scope_id);
}

-- `queue_topology`
unfoldable pub queue_topology : String → ℕ → Topology
queue_topology scope_id retry_delay_ms = record {
  main = record { name = main_queue scope_id; arguments = queue_arguments scope_id retry_delay_ms };
  dlq = record { name = dlq_queue scope_id; arguments = dlq_arguments scope_id retry_delay_ms };
  backoff = record {
    name = backoff_queue scope_id;
    arguments = backoff_arguments scope_id default_backoff_ttl_ms;
  };
  dead = record { name = dead_queue scope_id; arguments = no_arguments };
}

pub record Names : Type 0 where
  pub main : String
  pub dlq : String
  pub backoff : String
  pub dead : String

-- `declare_flow_topology`: the durable queues in the order in which they are declared, and the
-- names that are returned.
unfoldable pub declare_flow_topology : String → ℕ → List Queue × Names
declare_flow_topology api_id retry_delay_ms = (
  record { name = main_queue api_id; arguments = queue_arguments api_id retry_delay_ms }
      ∷ record { name = dlq_queue api_id; arguments = dlq_arguments api_id retry_delay_ms }
      ∷ record {
        name = backoff_queue api_id;
        arguments = backoff_arguments api_id default_backoff_ttl_ms;
      }
      ∷ record { name = dead_queue api_id; arguments = no_arguments }
      ∷ [],
  record {
    main = main_queue api_id;
    dlq = dlq_queue api_id;
    backoff = backoff_queue api_id;
    dead = dead_queue api_id;
  },
)
