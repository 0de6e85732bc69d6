-- ===== src/Adapter/Broadcast.antt =====
-- `broadcast` of runtime-websocket-adapter.ts: an event, or the end of a stream, for the sockets of a
-- session.
pub mod Isolation
use chemistry.Prelude.{
  ℕ, String, Bool, true, false, Option, none, some, List, [], ◌∷◌, not, ◌==◌, string_eq,
  if◌then◌else◌,
}
use chemistry.Protocol.{DurableStreamEvent, StreamTerminal, RuntimeServerFrame}
use chemistry.Handoff.{
  ReplayHandoff, ReplayParkResult, duplicate, buffered, overflow, park_live_event,
}
use chemistry.Adapter.Attachment.{RuntimeSocketAttachment}
use chemistry.Adapter.Sockets.{Socket, AdapterState, with_frame, with_close, with_durable_event}

abbrev pub max_pending_handoff_events : ℕ
max_pending_handoff_events = 256

-- The map of handoffs by connection.
abbrev pub Gates : Type 0
Gates = String → Option ReplayHandoff

abbrev set_in : String → Option ReplayHandoff → Gates → Gates
set_in id gate gates = λ other. if other == id then gate else gates other

abbrev parked_on : Socket → String → Gates → ReplayHandoff × ReplayParkResult → Socket × Gates
parked_on socket id gates (gate, overflow) =
    (with_close 1_013 "replay-handoff-overflow" socket, set_in id none gates)
parked_on socket id gates (gate, buffered) = (socket, set_in id (some gate) gates)
parked_on socket id gates (gate, duplicate) = (socket, set_in id (some gate) gates)

-- `gate?.streamId === streamId`
abbrev pub gates_stream : Option ReplayHandoff → String → Bool
gates_stream none stream_id = false
gates_stream (some gate) stream_id = gate.stream_id == stream_id

unfoldable pub event_gated :
    DurableStreamEvent → Socket → String → Gates → Option ReplayHandoff → Socket × Gates
unfolding with_durable_event
event_gated event socket id gates none = (with_durable_event event false socket, gates)
event_gated event socket id gates (some gate) =
    if gate.stream_id == event.stream_id
    then parked_on socket id gates (park_live_event gate event max_pending_handoff_events)
    else (with_durable_event event false socket, gates)

unfoldable pub frame_for : RuntimeServerFrame → Socket → String → Gates → Socket × Gates
unfolding event_gated
frame_for (RuntimeServerFrame.stream_event event replay) socket id gates =
    event_gated event socket id gates (gates id)
frame_for (RuntimeServerFrame.stream_terminal terminal) socket id gates =
    if gates_stream (gates id) terminal.stream_id
    then (socket, gates)
    else (with_frame (RuntimeServerFrame.stream_terminal terminal) socket, gates)
frame_for frame socket id gates = (with_frame frame socket, gates)

unfoldable pub broadcast_to :
    String → RuntimeServerFrame → Socket → Gates → Option RuntimeSocketAttachment → Socket × Gates
broadcast_to session_id frame socket gates none = (socket, gates)
broadcast_to session_id frame socket gates (some attachment) =
    if not (attachment.session_id == session_id)
    then (socket, gates)
    else frame_for frame socket attachment.connection_id gates

unfoldable pub broadcast_one : String → RuntimeServerFrame → Socket → Gates → Socket × Gates
unfolding broadcast_to
broadcast_one session_id frame socket gates =
    broadcast_to session_id frame socket gates socket.attachment

unfoldable pub broadcast_over :
    String → RuntimeServerFrame → List Socket → Gates → List Socket × Gates
broadcast_over session_id frame [] gates = ([], gates)
broadcast_over session_id frame (socket ∷ rest) gates =
    let first = broadcast_one session_id frame socket gates in
    let later = broadcast_over session_id frame rest first.1 in (first.0 ∷ later.0, later.1)

unfoldable pub broadcast : String → RuntimeServerFrame → AdapterState → AdapterState
broadcast session_id frame state =
    let done = broadcast_over session_id frame state.sockets state.replay_gates in
    record state { sockets = done.0; replay_gates = done.1 }
