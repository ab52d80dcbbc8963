-- ===== src/Idempotency.antt =====
-- pyflow_runtime/idempotency.py: the state machine that shares one execution among pods. Redis is
-- a parameter; the Lua scripts and the commands around them are modelled call by call.
pub mod Redis
pub mod Scripts
pub mod Store
pub mod Keys
pub mod Fencing
pub mod Claim
pub mod Samples
