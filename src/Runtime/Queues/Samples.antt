-- ===== src/Runtime/Queues/Samples.antt =====
-- The queues of one flow.
use python_flow_hub.Prelude.{◌≡◌, none, some, [], ◌∷◌}
use python_flow_hub.Runtime.Queues.{queue_topology, declare_flow_topology, Topology}
use python_flow_hub.Runtime.Queues.Routes.{IsDistinct, Feeds, declare_flow_topology-queue_topology}

abbrev topology : Topology
topology = queue_topology "f1" 5000

declare_flow_topology-queue_topology_example :
    IsDistinct topology
    × Feeds topology.main none topology.dlq.name
    × Feeds topology.dlq (some 5000) topology.main.name
    × Feeds topology.backoff (some 2000) topology.main.name
    × (topology.dead.arguments.dead_letter_exchange ≡ none)
    × (topology.dead.arguments.message_ttl ≡ none)
    × ((declare_flow_topology "f1" 5000).0
        ≡ topology.main ∷ topology.dlq ∷ topology.backoff ∷ topology.dead ∷ [])
    × ((declare_flow_topology "f1" 5000).1 ≡ record {
      main = topology.main.name;
      dlq = topology.dlq.name;
      backoff = topology.backoff.name;
      dead = topology.dead.name;
    })
declare_flow_topology-queue_topology_example = declare_flow_topology-queue_topology "f1" 5000
