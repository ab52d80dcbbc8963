-- ===== src/Lib.antt =====
-- Verification of python-flow-hub: the runtime that pods share (pyflow_runtime/), the consumers of
-- the runner's pods (runner/), and parts of the control plane (backend/app/).
--
-- The parts and how they interact. A message from a queue is handled by the consumer. It claims the
-- execution in Redis under the message's identity, tests the condition, maps the inputs, runs the
-- user's code under a lease that heartbeats renew, writes the end, and publishes the reply. For a
-- flow the user's code is a run of its graph: the nodes in a topological order, with inactive
-- branches pruned, and with the variables of an earlier run when it is resumed. What the consumer
-- answers decides where the message goes: it is acknowledged, put back, sent to the delay queue for
-- a retry, or archived. The control plane stores versions of blocks and runs of flows, checks
-- configurations, requirements, roles and signatures, and infers the edges of imported scripts.
--
-- Which file models which part:
--  - Prelude and its children: Boolean tests, lists, counts, dictionaries in insertion order, and
--   results. An exception is `err`; a state that outlives it is passed on beside it.
--  - Value: the JSON values that the program computes with. Python's floats are not modelled.
--  - Runtime.Errors, Runtime.Engines, Runtime.Condition: pyflow_runtime/condition_engine.py. The
--   libraries jmespath and jsonpath_ng, and the functions of Python that format text, are the
--   fields of `Engines`; the condition is a choice by language, as in `evaluate_condition`.
--  - Runtime.Messages: `extract_business_id` and `build_idempotency_id` of
--   pyflow_runtime/idempotency.py, pyflow_runtime/input_mapper.py, pyflow_runtime/reply_builder.py,
--   and `protocol_compatible` of pyflow_runtime/consumer.py.
--  - Runtime.Queues: pyflow_runtime/backoff_queue.py, `queue_topology` of consumer.py, and
--   `declare_flow_topology` of backend/app/core/mq/topology_builder.py.
--  - Runtime.Executor: pyflow_runtime/executor.py, less `discover_entrypoints`. The user's code is
--   a parameter: what its parts print, return, raise and yield. A generator is finite.
--  - Idempotency: pyflow_runtime/idempotency.py. `Redis` is a record of the commands that are used,
--   with the documented laws that the proofs need. Scripts holds the four Lua scripts, each of them
--   one step; Store the methods of `IdempotencyStore`, where other clients may act between the
--   calls of `claim`. Fencing is about any sequence of commands, Claim about an undisturbed claim.
--   What cjson makes of a result is a parameter.
--   That a key is dropped at the end of its time to live is not a step of the model.
--  - Consumer: pyflow_runtime/consumer.py. `World` is the server, the inputs that the user's code
--   was run on, and the replies that were published. `Env` says what the handler meets: the clock,
--   what other clients do at each wait, the user's code as a `Work`, and the publisher. The retry
--   count is a number that was read from its header; the keys of "mq_config" are the fields of
--   `MqConfig`, each of the type that the program expects.
--  - Broker: what the consumers publish and acknowledge. Broker.Runner is `on_message` of both roles
--   of runner/entrypoint.py, and in Nodes how they run a node. Broker.Manager is one turn of the
--   loop of `ConsumerManager` (backend/app/core/mq/consumer_manager.py), with its path without Redis
--   in Degraded, `requeue_dlq` in Requeue, and in Lifecycle the statuses and tasks of consumers, as
--   a relation of steps. A command to the broker raises while the connection is down, as a
--   parameter says. `int`, `str` and the decoding of a body are the fields of `Codec`; a body that is JSON but no
--   dictionary is not modelled. What JSON over HTTP makes of inputs and outputs is a parameter.
--  - Flow.Graph, Flow.Topology, Flow.Entry: `topological_order` and `select_entry_subgraph` of
--   pyflow_runtime/flow_dag.py. A Python set is walked in an order that is a parameter.
--  - Flow.Branch, Flow.Inputs, Flow.Run: `resolve_branch`, `_input_payload`, `_gather_inputs`,
--   `_all_inactive` and `run_flow`. `Run` holds the local variables of `run_flow`, and a trace of
--   the callbacks, which are parameters that may raise at any call.
--  - Control.RunStore: backend/app/core/flow/flow_run_store.py. The row of one flow run in the
--   database; other replicas may act between the read and the update of `claim_run`.
--  - Control.Resume: the checkpoints of `drive_flow_run` in
--   backend/app/core/flow/k8s_orchestration.py and what a resumption reads back from them.
--  - Control.Validation: backend/app/core/mq/validation.py, on the configuration as JSON.
--  - Control.Import: backend/app/core/flow/zip_import.py. Scan holds the scans of a script, whose tree
--   is a parameter; Import the candidates and the greedy choice of `infer_data_flow_edges`;
--   Archive the limits of `parse_zip`, where the paths and the bytes of zipfile are parameters, and zipfile
--   is assumed to read no more of an entry than the size that it declares.
--  - Control.Versioning: versions of blocks in backend/app/core/versioning/version_manager.py. `Vault`
--   is the storage, the rows as the session sees them, and whether it has committed them; Read,
--   Content and Stored are about reading and creating a version, Deletion about deleting a block.
--   The storage may fail at each object, and the database before its rows are written or at the
--   refresh after it. Of the reconciliation the orphans among the objects are left out. The conversions of texts,
--   digests and JSON are the fields of `Formats`.
--  - Control.Requirements: backend/app/core/k8s/requirements_policy.py, up to the white list. The
--   functions that know the characters of Unicode are the fields of `Unicode`.
--  - Control.Access: backend/app/auth/rbac.py, with the rows of its tables as lists; and, in
--   Signature, backend/app/core/auth_validator.py, with the libraries for digests as parameters.
--  - Control.Execution: `execute_block_stream` of backend/app/core/execution_service.py, over the
--   events that the sandbox gives.
--  - The Samples modules hold concrete inputs.
--
-- Fuel: the loop over the queue of `topological_order` has one turn for each node, since a node
-- enters the queue once; the walk of `select_entry_subgraph` has one turn for each edge and one
-- more, since a node's edges are pushed once; so has that of `_reachable`. All are proved to suffice.
--
-- Not modelled: the rest of the control plane in backend/app, that is, the HTTP interface, most of
-- the database, Kubernetes, sandboxes, storage and the run of a flow without a runner's pod, which
-- are mostly calls of libraries and of the database; the set-up of connections and servers in
-- runner/entrypoint.py; and the frontend.
mod Prelude
pub mod Value
pub mod Runtime
pub mod Idempotency
pub mod Consumer
pub mod Broker
pub mod Control
pub mod Flow
