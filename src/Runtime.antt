-- ===== src/Runtime.antt =====
-- The parts of pyflow_runtime/ that evaluate expressions and shape messages.
pub mod Errors
pub mod Engines
pub mod Condition
pub mod Messages
pub mod Queues
pub mod Executor
