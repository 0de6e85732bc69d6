-- ===== src/Adapter/Sockets.antt =====
-- The sockets of runtime-websocket-adapter.ts and what is sent to one. Sending succeeds; a frame that
-- was sent is kept with its socket.
use chemistry.Prelude.{
  ℕ, String, Bool, true, Option, none, some, List, [], ◌∷◌, ◌++◌, map, ◌==◌, nat_eq, string_eq,
  if◌then◌else◌,
}
use chemistry.Protocol.{
  DurableStreamEvent, ProtocolErrorCode, invalid_frame, frame_too_large, stale_probe, stale_stream,
  queue_full, runtime_unavailable, RuntimeServerFrame,
}
use chemistry.Runtime.State.{RuntimeState}
use chemistry.Runtime.Errors.{Result, ok, err, Mutation, transact}
use chemistry.Handoff.{ReplayHandoff}
use chemistry.Adapter.Attachment.{RuntimeSocketAttachment, sent_attachment}

-- `attachment` is `none` where it does not decode.
pub record Socket : Type 0 where
  pub handle : ℕ
  pub attachment : Option RuntimeSocketAttachment
  pub sent : List RuntimeServerFrame
  pub closed : Option (ℕ × String)

-- `replay_gates` is the map of handoffs by connection, `tasks` the runs given to `waitUntil` (an
-- operation and its stream), `touched` the prompts reported to the catalog.
pub record AdapterState : Type 0 where
  pub sockets : List Socket
  pub replay_gates : String → Option ReplayHandoff
  pub runtime : RuntimeState
  pub alarm : Option ℕ
  pub tasks : List (String × String)
  pub touched : List String

abbrev pub set_gate : String → ReplayHandoff → AdapterState → AdapterState
set_gate id gate state = record state {
  replay_gates = λ other. if other == id then some gate else state.replay_gates other;
}

abbrev pub delete_gate : String → AdapterState → AdapterState
delete_gate id state = record state {
  replay_gates = λ other. if other == id then none else state.replay_gates other;
}

abbrev pub on_socket : ℕ → (Socket → Socket) → AdapterState → AdapterState
on_socket handle change state = record state {
  sockets = map (λ socket. if socket.handle == handle then change socket else socket) state.sockets;
}

abbrev pub with_frame : RuntimeServerFrame → Socket → Socket
with_frame frame socket = record socket { sent = socket.sent ++ frame ∷ [] }

abbrev pub with_close : ℕ → String → Socket → Socket
with_close code reason socket = record socket { closed = some (code, reason) }

abbrev pub with_attachment : RuntimeSocketAttachment → Socket → Socket
with_attachment attachment socket = record socket { attachment = some attachment }

abbrev pub code_text : ProtocolErrorCode → String
code_text invalid_frame = "invalid-frame"
code_text frame_too_large = "frame-too-large"
code_text stale_probe = "stale-probe"
code_text stale_stream = "stale-stream"
code_text queue_full = "queue-full"
code_text runtime_unavailable = "runtime-unavailable"

unfoldable pub with_protocol_error : ProtocolErrorCode → String → Bool → Socket → Socket
with_protocol_error code message recoverable socket =
    let told = with_frame (RuntimeServerFrame.protocol_error code message recoverable) socket in
    if recoverable then told else with_close 1_008 (code_text code) told

abbrev with_sent :
    DurableStreamEvent → Option RuntimeSocketAttachment → Option RuntimeSocketAttachment
with_sent event none = none
with_sent event (some attachment) = some (sent_attachment attachment event.stream_id event.sequence)

-- `sendDurableEvent`
unfoldable pub with_durable_event : DurableStreamEvent → Bool → Socket → Socket
with_durable_event event replay socket =
    with_frame (RuntimeServerFrame.stream_event event replay)
      (record socket { attachment = with_sent event socket.attachment })

abbrev pub send : ℕ → RuntimeServerFrame → AdapterState → AdapterState
send handle frame = on_socket handle (with_frame frame)

abbrev pub protocol_error : ℕ → ProtocolErrorCode → String → Bool → AdapterState → AdapterState
protocol_error handle code message recoverable =
    on_socket handle (with_protocol_error code message recoverable)

unfoldable pub send_durable_events : ℕ → List DurableStreamEvent → AdapterState → AdapterState
send_durable_events handle [] state = state
send_durable_events handle (event ∷ rest) state =
    send_durable_events handle rest (on_socket handle (with_durable_event event true) state)

-- An effect of the adapter keeps what it did before it fails.
abbrev pub Served {ℓ} : Type ℓ → Type ℓ
Served A = AdapterState → Result A × AdapterState

unfoldable pub served_by {ℓ κ} :
    {A : Type ℓ} {B : Type κ} → Result A × AdapterState → (A → Served B) → Result B × AdapterState
served_by (ok value, state) next = next value state
served_by (err error, state) next = (err error, state)

-- A transition of the runtime.
unfoldable pub run_runtime : {A : Type 0} → Mutation A → Served A
run_runtime mutation state =
    let done = transact mutation state.runtime in (done.0, record state { runtime = done.1 })
