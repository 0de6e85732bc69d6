-- ===== src/Adapter/Resume.antt =====
-- `handleResume` of runtime-websocket-adapter.ts: the answer to a connection that says where it stopped.
pub mod Delivered
use chemistry.Prelude.{
  ℕ, ℤ, minus_one, ltb_ℤ, String, Bool, true, false, Option, none, some, List, [], ◌∷◌, not, ◌&&◌,
  ◌==◌, string_eq, nullable_eq, is_none, if◌then◌else◌,
}
use chemistry.Prelude.Text.{◌&◌, decimal_ℤ}
use chemistry.Protocol.{
  TerminalStatus, StreamTerminal, DurableStreamEvent, ProtocolErrorCode, stale_probe, stale_stream,
  RuntimeServerFrame,
}
use chemistry.Runtime.State.{RuntimeState}
use chemistry.Runtime.Errors.{DurableExecutionError, Result, ok, err}
use chemistry.Execution.Settle.{RuntimeTerminal}
use chemistry.Execution.Reading.{RuntimeReplay, replay, terminal}
use chemistry.Handoff.{ReplayHandoff, begin_replay_handoff, park_all}
use chemistry.Handoff.Order.{deliver}
use chemistry.Adapter.Attachment.{RuntimeSocketAttachment, sent_attachment}
use chemistry.Adapter.Sockets.{
  AdapterState, Served, served_by, set_gate, delete_gate, on_socket, with_attachment, send,
  protocol_error, send_durable_events,
}
use chemistry.Adapter.Broadcast.{max_pending_handoff_events, broadcast}

pub record ResumeAck : Type 0 where
  pub probe_id : String
  pub stream_id : Option String
  pub after_sequence : ℤ

-- `RuntimeServerFrame.cases.StreamTerminal.make({…})`
abbrev pub terminal_frame : RuntimeTerminal → RuntimeServerFrame
terminal_frame ended = RuntimeServerFrame.stream_terminal (record {
  stream_id = ended.stream_id;
  operation_id = ended.operation_id;
  status = ended.status;
  sequence = ended.sequence;
  generation = ended.generation;
  attempt = ended.attempt;
  recovery_work = ended.recovery_work;
  reason = ended.reason;
})

unfoldable pub send_terminal : ℕ → Option RuntimeTerminal → AdapterState → AdapterState
send_terminal handle none state = state
send_terminal handle (some ended) state = send handle (terminal_frame ended) state

-- A read of the runtime, which changes nothing.
abbrev pub read_runtime : {A : Type 0} → (RuntimeState → Result A) → Served A
read_runtime read state = (read state.runtime, state)

-- The gate that the connection has for this stream, or a new one; its cursor is the client's.
abbrev gate_for : Option ReplayHandoff → String → ℤ → ReplayHandoff
gate_for none stream_id after_sequence = begin_replay_handoff stream_id after_sequence
gate_for (some gate) stream_id after_sequence =
    record (if gate.stream_id == stream_id
      then gate
      else begin_replay_handoff stream_id after_sequence) { high_water = after_sequence }

-- The events that went out while the replay was read: the gate keeps them, and the others hear of them.
unfoldable pub broadcast_all : String → List DurableStreamEvent → AdapterState → AdapterState
broadcast_all session_id [] state = state
broadcast_all session_id (event ∷ rest) state =
    broadcast_all session_id rest
      (broadcast session_id (RuntimeServerFrame.stream_event event false) state)

-- The replay is in: its events, the parked ones, and the end.
unfoldable pub finish_resume :
    ℕ → RuntimeSocketAttachment → String → ReplayHandoff → RuntimeReplay → Served (Unit {0})
finish_resume handle attachment stream_id gate window state =
    let delivered = deliver gate window.events in
    let sent = send_durable_events handle delivered.1 state in
    let high_water = delivered.0.high_water in
    let answered = send handle (RuntimeServerFrame.resume_complete (some stream_id) high_water) (
      on_socket handle (with_attachment (sent_attachment attachment stream_id high_water))
        (delete_gate attachment.connection_id sent)) in
    served_by (read_runtime (λ runtime. terminal runtime stream_id) answered)
      λ ended later. (ok tt, send_terminal handle ended later)

-- The replay failed.
unfoldable pub fail_resume : ℕ → RuntimeSocketAttachment → DurableExecutionError → Served (Unit {0})
fail_resume handle attachment (DurableExecutionError.cursor id after latest message) state = (
  ok tt,
  protocol_error handle stale_stream message false (delete_gate attachment.connection_id state),
)
fail_resume handle attachment error state = (err error, delete_gate attachment.connection_id state)

unfoldable pub resume_replayed :
    ℕ → RuntimeSocketAttachment → String → ReplayHandoff → Result RuntimeReplay → Served (Unit {0})
resume_replayed handle attachment stream_id gate (ok window) =
    finish_resume handle attachment stream_id gate window
resume_replayed handle attachment stream_id gate (err error) = fail_resume handle attachment error

-- A stream that is not complete: the events of `live` go out while its replay is read.
unfoldable pub resume_live :
    ℕ → RuntimeSocketAttachment → String → ℤ → List DurableStreamEvent → Served (Unit {0})
resume_live handle attachment stream_id after_sequence live state =
    let gate = gate_for (state.replay_gates attachment.connection_id) stream_id after_sequence in
    let opened = set_gate attachment.connection_id gate state in
    resume_replayed handle attachment stream_id (park_all max_pending_handoff_events gate live)
      (replay state.runtime stream_id after_sequence)
      (broadcast_all attachment.session_id live opened)

abbrev pub is_completed_terminal : TerminalStatus → Bool
is_completed_terminal TerminalStatus.completed = true
is_completed_terminal _ = false

abbrev stale_message : ℤ → ℤ → String
stale_message after_sequence sequence =
    "Replay cursor " & decimal_ℤ after_sequence & " exceeds durable sequence " & decimal_ℤ sequence

-- A stream that ended, and was completed or not.
unfoldable pub resume_ended :
    ℕ
    → RuntimeSocketAttachment
    → String
    → ℤ
    → List DurableStreamEvent
    → Option RuntimeTerminal
    → Served (Unit {0})
resume_ended handle attachment stream_id after_sequence live none state =
    resume_live handle attachment stream_id after_sequence live state
resume_ended handle attachment stream_id after_sequence live (some ended) state =
    let closed_gate = delete_gate attachment.connection_id state in
    if not (is_completed_terminal ended.status)
    then resume_live handle attachment stream_id after_sequence live state
    else if ltb_ℤ ended.sequence after_sequence
    then (
      ok tt,
      protocol_error handle stale_stream (stale_message after_sequence ended.sequence) false
          closed_gate,
    )
    else (
      ok tt,
      send handle (terminal_frame ended) (
          send handle (RuntimeServerFrame.resume_complete (some stream_id) ended.sequence)
            closed_gate),
    )

unfoldable pub resume_selected :
    ℕ → RuntimeSocketAttachment → ℤ → List DurableStreamEvent → Option String → Served (Unit {0})
resume_selected handle attachment after_sequence live none state = (
  ok tt,
  send handle (RuntimeServerFrame.resume_complete none minus_one)
      (delete_gate attachment.connection_id state),
)
resume_selected handle attachment after_sequence live (some stream_id) state =
    served_by (read_runtime (λ runtime. terminal runtime stream_id) state)
      (resume_ended handle attachment stream_id after_sequence live)

-- `frame.streamId ?? attachment.probedStreamId`
abbrev pub selected_stream : Option String → Option String → Option String
selected_stream none probed = probed
selected_stream (some stream_id) probed = some stream_id

-- Both name a stream, and not the same one.
abbrev pub names_another : Option String → Option String → Bool
names_another asked probed = not (is_none asked) && not (is_none probed) && not (asked == probed)

unfoldable pub handle_resume :
    ℕ → RuntimeSocketAttachment → ResumeAck → List DurableStreamEvent → Served (Unit {0})
handle_resume handle attachment frame live state =
    if not (frame.probe_id == attachment.probe_id)
    then (
      ok tt,
      protocol_error handle stale_probe "Resume ACK does not match the latest probe" true state,
    )
    else if names_another frame.stream_id attachment.probed_stream_id
    then (ok tt, protocol_error handle stale_stream "Resume ACK targets a stale stream" true state)
    else resume_selected handle attachment frame.after_sequence live
        (selected_stream frame.stream_id attachment.probed_stream_id) state
