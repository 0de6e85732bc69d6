-- ===== src/Adapter/Dispatch.antt =====
-- `dispatch`, `onMessage`, `upgrade` and `onClose` of runtime-websocket-adapter.ts, and
-- `broadcastTerminal`.
pub mod Submitted
use chemistry.Prelude.{
  ℕ, ◌+◌, ℤ, minus_one, String, Bool, true, false, Option, none, some, List, [], ◌∷◌, ◌++◌, not,
  is_none, ◌&&◌, if◌then◌else◌,
}
use chemistry.Prelude.Text.{◌&◌}
use chemistry.Protocol.{
  DurableStreamEvent, RuntimeClientFrame, ResumeProbe, TurnAccepted, RuntimeOperationSummary,
  ProtocolErrorCode, invalid_frame, frame_too_large, stale_stream, queue_full, runtime_unavailable,
  RuntimeServerFrame,
}
use chemistry.Runtime.State.{RuntimeState, RuntimeRequestSnapshot}
use chemistry.Runtime.Errors.{DurableExecutionError, Result, ok, err}
use chemistry.Execution.Helpers.{Environment, error_message}
use chemistry.Execution.Admission.{RuntimeAdmission, AdmitRequest, admit}
use chemistry.Execution.Settle.{RuntimeTerminal}
use chemistry.Execution.Wake.{RuntimeWakeResult, wake}
use chemistry.Execution.Reading.{RuntimeProbe, terminal, probe, cleanup}
use chemistry.Handoff.{begin_replay_handoff}
use chemistry.Adapter.Attachment.{RuntimeSocketAttachment, apply_runtime_stream_ack, new_attachment}
use chemistry.Adapter.Sockets.{
  Socket, AdapterState, Served, served_by, run_runtime, set_gate, delete_gate, on_socket,
  with_attachment, send, protocol_error,
}
use chemistry.Adapter.Broadcast.{broadcast}
use chemistry.Adapter.Resume.{handle_resume, read_runtime, send_terminal, terminal_frame}

-- What a message draws from the clock and the identifiers, and the events that go out meanwhile.
pub record Draws : Type 0 where
  pub now : ℕ
  pub incident_id : String
  pub operation_id : String
  pub stream_id : String
  pub request_snapshot : RuntimeRequestSnapshot
  pub live : List DurableStreamEvent

-- A message as the codec reads it.
pub data Incoming : Type 0 where
  binary : Incoming
  refused : (too_large : Bool) (message : String) → Incoming
  decoded : RuntimeClientFrame → Incoming

abbrev pub accepted_frame : RuntimeAdmission → RuntimeServerFrame
accepted_frame admission = RuntimeServerFrame.turn_accepted (record {
  submission_id = admission.operation.submission_id;
  operation_id = admission.operation.operation_id;
  stream_id = admission.operation.stream_id;
  queue_position = admission.queue_position;
})

abbrev pub request_of : Draws → String → String → AdmitRequest
request_of draws prompt submission_id = record {
  prompt = prompt;
  submission_id = submission_id;
  operation_id = draws.operation_id;
  stream_id = draws.stream_id;
  request_snapshot = draws.request_snapshot;
}

-- A new submission is reported to the catalog, whose failure is only logged, and its run begins.
abbrev pub begin_accepted : String → RuntimeAdmission → AdapterState → AdapterState
begin_accepted prompt admission state = record state {
  touched = state.touched ++ prompt ∷ [];
  tasks = state.tasks ++ (admission.operation.operation_id, admission.operation.stream_id) ∷ [];
}

unfoldable pub submitted : ℕ → String → RuntimeAdmission → Served (Unit {0})
submitted handle prompt admission state =
    let told = send handle (accepted_frame admission) state in
    if not admission.duplicate
    then (ok tt, begin_accepted prompt admission told)
    else served_by (read_runtime (λ runtime. terminal runtime admission.operation.stream_id) told)
        (λ ended later. (ok tt, send_terminal handle ended later))

unfoldable pub acknowledge : ℕ → Option RuntimeSocketAttachment → AdapterState → AdapterState
acknowledge handle none =
    protocol_error handle stale_stream "Stream ACK exceeds the events sent to this connection" true
acknowledge handle (some acknowledged) = on_socket handle (with_attachment acknowledged)

unfoldable pub dispatch :
    Environment → Draws → ℕ → RuntimeSocketAttachment → RuntimeClientFrame → Served (Unit {0})
dispatch env draws handle attachment (RuntimeClientFrame.resume_ack probe_id stream_id after)
      state =
    handle_resume handle attachment
      (record { probe_id = probe_id; stream_id = stream_id; after_sequence = after }) draws.live
      state
dispatch env draws handle attachment (RuntimeClientFrame.submit_turn submission_id prompt) state =
    served_by (run_runtime (admit env (request_of draws prompt submission_id) draws.now) state)
      (submitted handle prompt)
dispatch env draws handle attachment (RuntimeClientFrame.stream_ack stream_id sequence) state =
    (ok tt, acknowledge handle (apply_runtime_stream_ack attachment stream_id sequence) state)
dispatch env draws handle attachment RuntimeClientFrame.keep_alive state =
    (ok tt, send handle RuntimeServerFrame.keep_alive_ack state)
dispatch env draws handle attachment (RuntimeClientFrame.ping nonce) state = (
  ok tt,
  send handle (RuntimeServerFrame.pong nonce (probe state.runtime).snapshot.boot_id) state,
)

abbrev alarm_at : Option ℕ → Option ℕ → Option ℕ
alarm_at none alarm = alarm
alarm_at (some at) alarm = some at

-- The alarm that a wake asks for.
abbrev pub set_recovery_alarm : RuntimeWakeResult → AdapterState → AdapterState
set_recovery_alarm woken state = record state {
  alarm = alarm_at woken.recovery_alarm_at state.alarm;
}

abbrev pub start_of : Option String → Option String → List (String × String)
start_of (some operation_id) (some stream_id) = (operation_id, stream_id) ∷ []
start_of (some operation_id) none = []
start_of none stream_id = []

-- A wake, its alarm, and the run that it names.
unfoldable pub awaken : Environment → Draws → Served RuntimeWakeResult
awaken env draws state =
    served_by (run_runtime (wake env draws.incident_id draws.now) state) λ woken later.
      let alarmed = set_recovery_alarm woken later in
      (
        ok woken,
        record alarmed {
          tasks = alarmed.tasks ++ start_of woken.runnable_operation_id woken.runnable_stream_id;
        },
      )

abbrev failure_code : DurableExecutionError → ProtocolErrorCode
failure_code (DurableExecutionError.capacity resource limit message) = queue_full
failure_code _ = runtime_unavailable

-- A failed dispatch is told to the socket.
unfoldable pub answer_failure : ℕ → Result (Unit {0}) × AdapterState → AdapterState
answer_failure handle (ok value, state) = state
answer_failure handle (err error, state) =
    protocol_error handle (failure_code error) (error_message error) true state

abbrev is_submission : RuntimeClientFrame → Bool
is_submission (RuntimeClientFrame.submit_turn submission_id prompt) = true
is_submission _ = false

unfoldable pub receive_message :
    Environment
    → Draws
    → ℕ
    → RuntimeSocketAttachment
    → Incoming
    → RuntimeWakeResult
    → AdapterState
    → AdapterState
receive_message env draws handle attachment binary woken state =
    protocol_error handle invalid_frame "Binary runtime frames are not supported" false state
receive_message env draws handle attachment (refused too_large message) woken state =
    protocol_error handle (if too_large then frame_too_large else invalid_frame) message false state
receive_message env draws handle attachment (decoded frame) woken state =
    if is_submission frame && not (is_none woken.recoverable_operation_id)
    then protocol_error handle runtime_unavailable
        "The previous durable turn is recovering; retry after it terminalizes" true state
    else answer_failure handle (dispatch env draws handle attachment frame state)

unfoldable pub on_message :
    Environment → Draws → ℕ → Option RuntimeSocketAttachment → Incoming → Served (Unit {0})
on_message env draws handle none message state =
    (ok tt, protocol_error handle invalid_frame "Socket attachment is invalid" false state)
on_message env draws handle (some attachment) message state =
    served_by (awaken env draws state)
      λ woken later. (ok tt, receive_message env draws handle attachment message woken later)

unfoldable pub on_close : Option RuntimeSocketAttachment → AdapterState → AdapterState
on_close none state = state
on_close (some attachment) state = delete_gate attachment.connection_id state

abbrev open_gate : String → Option String → AdapterState → AdapterState
open_gate connection_id none state = state
open_gate connection_id (some stream_id) state =
    set_gate connection_id (begin_replay_handoff stream_id minus_one) state

-- The socket that `Cloudflare.upgrade` makes, and the probe that is sent to it.
unfoldable pub upgrade : Environment → Draws → ℕ → String → String → Served (Unit {0})
upgrade env draws handle connection_id session_id state =
    served_by (awaken env draws state) λ woken later.
      let probe_id = "probe-" & connection_id in
      let probed = probe later.runtime in
      let fresh_socket : Socket = record {
        handle = handle;
        attachment = some (new_attachment connection_id session_id probe_id probed.stream_id);
        sent = [];
        closed = none;
      } in
      let added : AdapterState = record later { sockets = later.sockets ++ fresh_socket ∷ [] } in
      (
        ok tt,
        send handle
            (RuntimeServerFrame.resume_probe (record {
              probe_id = probe_id;
              connection_id = connection_id;
              session_id = session_id;
              active_stream_id = probed.stream_id;
              latest_sequence = probed.latest_sequence;
              runtime = probed.snapshot;
            }))
            (open_gate connection_id probed.stream_id added),
      )

-- `broadcastTerminal`
unfoldable pub announce_end : Environment → ℕ → String → Option RuntimeTerminal → Served (Unit {0})
announce_end env now session_id none state = (ok tt, state)
announce_end env now session_id (some ended) state =
    served_by (run_runtime (cleanup env now) (broadcast session_id (terminal_frame ended) state))
      λ removed later. (ok tt, record later { alarm = alarm_at ended.cleanup_at later.alarm })

unfoldable pub broadcast_terminal : Environment → ℕ → String → String → Served (Unit {0})
broadcast_terminal env now session_id stream_id state =
    served_by (read_runtime (λ runtime. terminal runtime stream_id) state)
      (announce_end env now session_id)

unfoldable pub broadcast_recovering : String → RuntimeOperationSummary → AdapterState → AdapterState
broadcast_recovering session_id operation =
    broadcast session_id (RuntimeServerFrame.recovering operation)
