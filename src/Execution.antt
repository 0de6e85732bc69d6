-- ===== src/Execution.antt =====
-- packages/agent-runtime/src/durable-execution.ts
pub mod Helpers
pub mod Lookup
pub mod Admission
pub mod Turn
pub mod Settle
pub mod Recovery
pub mod Prepare
pub mod Wake
pub mod Reading
pub mod Streams
pub mod Bounds
pub mod Steps
pub mod Running
pub mod Fencing
