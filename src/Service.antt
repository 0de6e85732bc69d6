-- ===== src/Service.antt =====
-- packages/agent-runtime/src/agent-service-live.ts, with the session store of
-- apps/backend/src/durable-object-session-store.ts.
pub mod Effects
pub mod Store
pub mod Compact
pub mod Response
pub mod Rounds
pub mod Session
