-- ===== src/Lib.antt =====
-- The durable agent runtime of Chemistry: a chat turn whose progress is stored as it is made, its
-- recovery after the process that ran it is lost, and the browser that reconnects to it.
--
-- One Durable Object keeps one versioned record for each session. Every transition of a turn is a
-- transaction on that record, and what a client sees is replayed from it. Parts and files:
--   Protocol    packages/contracts/src/agent-protocol.ts: events, frames, statuses. Frames:
--               packages/contracts/src/runtime-protocol.ts, the texts of the frames.
--   Runtime     packages/agent-runtime/src/runtime-state.ts and runtime-store.ts: the record and its
--               limits (State, Limits), the errors and the atomic commit (Errors), the record of
--               version one and its migration (Legacy). Storage: `load` and `transact` of
--               apps/backend/src/durable-object-runtime-store.ts.
--   Execution   packages/agent-runtime/src/durable-execution.ts. Helpers: its free functions.
--               Admission: `admit`, `claim`. Turn: `persistRequestSnapshot`, `markStreaming`,
--               `append`. Settle: `settle`, `beginPhaseEffect`, `completePhaseEffect`. Recovery:
--               `scheduleRecoveryAfterFailure`, `reconcileTranscriptTerminal`. Prepare:
--               `prepareRecovery`. Wake: `wake`. Reading: `replay`, `terminal`, `probe`, `cleanup`.
--               Each is a function from the stored record to an error, or to the next record and a
--               value: the body of its `store.transact`. Running: `executeClaimed`, for a turn that
--               no other writer interrupts; Running/Run: `run` and `recover` around it. Steps has
--               the histories that they make together, of any boots in any order.
--   Handoff     packages/agent-runtime/src/replay-handoff.ts, the order of its calls (Order), and what
--               they let through (Joined).
--   Client      packages/client-runtime/src/runtime-client-state.ts: `applyRuntimeServerFrame`.
--               Socket: packages/client-runtime/src/resumable-agent-socket.ts, as steps (Steps).
--               Its reconnect timers are listed with their handles, also those whose handle
--               `#reconnectTimer` no longer holds.
--   Transcript  the messages of a session in packages/contracts/src/agent-protocol.ts, and their records
--               and migration in packages/agent-runtime/src/session-store.ts (Legacy: the old ones).
--   Conversation packages/agent-runtime/src/conversation.ts: what the model and the browser are given.
--   Compaction  packages/agent-runtime/src/chat-compaction.ts: `buildCompactionPlan`.
--               Exchange: the calls of tools and their results, for its cuts.
--   Service     packages/agent-runtime/src/agent-service-live.ts. Effects: the storage, the clock, the
--               identifiers and the model that it runs on, whose n-th answers are arguments. Store:
--               apps/backend/src/durable-object-session-store.ts. Compact: `compact`. Response:
--               `persistResponse` and the events of a response. Rounds: `streamRound`. Session: the
--               operations of the service, and `captureRequest`. A stream is the list of its events
--               and its failure; an operation that fails keeps what it stored before.
--   Catalog     packages/chat-catalog/src/chat-catalog.ts: the list of recent conversations; what
--               the JavaScript engine does with texts is an argument. Object: its storage and handlers
--               in apps/backend/src/chat-catalog-durable-object.ts.
--   Adapter     apps/backend/src/runtime-websocket-adapter.ts. Attachment: `applyRuntimeStreamAck`.
--               Sockets: `send`, `protocolError`, `sendDurableEvent`. Broadcast: `broadcast`. Resume:
--               `handleResume`, whose argument `live` is the events that go out while the replay is
--               read. Dispatch: `dispatch`, `onMessage`, `upgrade`, `onClose`, `broadcastTerminal`.
--               Runs: `runAccepted` and `recoverSession`. Object: the handlers of
--               apps/backend/src/agent-durable-object.ts, which join the service, the runtime and the
--               sockets.
--   Prelude     lists, tests, integers and texts that the parts share.
--   Tests       concrete sessions.
--
-- A field keeps the source's name. Times and counts are natural numbers, cursors are integers from
-- -1 on, identifiers are texts. The clock, the identifiers drawn, the request snapshot that the
-- executor captures, the encoded size of an event and `toLowerCase` are arguments; nothing is
-- assumed of them. Every function is structurally recursive; the rounds of a turn are so on a fuel,
-- the configured number of tool steps, which is enough from the first step on: without fuel a stream is
-- cut off, with no event, no end and no failure, and the error of the tool loop comes from the code's
-- own limit only.
--
-- Execution takes it that the storage answers: there `store.transact` fails only with the error of its
-- body, never with a `RuntimePersistenceError`, in particular in `run_operation`, `recover_turn` and
-- `wake`. The failures of the storage itself are in Runtime/Storage.
--
-- Not modelled: the permit that lets one run go on at a time, and its time-out; what interrupts a turn
-- from outside while it runs; the promise queues of the browser's socket; failures of sending, and the
-- alarm that the chaos flag of the adapter sets; the routes and the wiring of the objects; the toolkit
-- of the agent and the interruption of its stream; the website, the lint rules and the deployment.
mod Prelude
mod Tests
pub mod Protocol
pub mod Runtime
pub mod Execution
pub mod Handoff
pub mod Client
pub mod Catalog
pub mod Transcript
pub mod Conversation
pub mod Compaction
pub mod Service
pub mod Adapter
