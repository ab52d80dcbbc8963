-- ===== src/Flow.antt =====
-- pyflow_runtime/flow_dag.py: the graph of a flow, its order, its entry and its run.
pub mod Graph
pub mod Topology
pub mod Entry
pub mod Branch
pub mod Inputs
pub mod Run
pub mod Samples
