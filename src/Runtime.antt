-- ===== src/Runtime.antt =====
-- packages/agent-runtime/src: the versioned record of one session and the errors of the runtime.
pub mod Limits
pub mod State
pub mod Errors
pub mod Legacy
pub mod Storage
