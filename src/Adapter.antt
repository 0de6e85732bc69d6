-- ===== src/Adapter.antt =====
-- apps/backend/src/runtime-websocket-adapter.ts: the sockets of a session's object.
pub mod Attachment
pub mod Sockets
pub mod Broadcast
pub mod Resume
pub mod Dispatch
pub mod Runs
pub mod Object
