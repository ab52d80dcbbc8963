-- ===== src/Control.antt =====
-- The control plane: the store of flow runs, their checkpoints and the import of scripts
-- (backend/app/core/flow/), the validation of configurations (backend/app/core/mq/validation.py), the versions of
-- blocks (backend/app/core/versioning/), the policy for requirements (backend/app/core/k8s/), and roles
-- and signatures (backend/app/auth/, backend/app/core/auth_validator.py), and the stream of an execution
-- (backend/app/core/execution_service.py).
pub mod RunStore
pub mod Resume
pub mod Validation
pub mod Import
pub mod Versioning
pub mod Requirements
pub mod Access
pub mod Execution
