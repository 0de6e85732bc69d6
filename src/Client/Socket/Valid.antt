-- ===== src/Client/Socket/Valid.antt =====
-- The connection of packages/client-runtime/src/resumable-agent-socket.ts after any steps.
use chemistry.Prelude.{string_eq, nat_eq}
