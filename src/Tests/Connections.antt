-- ===== src/Tests/Connections.antt =====
-- Two browsers on the session of the tests, and one on another session.
use chemistry.Prelude.{pos, ◌+ℤ◌, minus_one, false, none, some, [], ◌∷◌, ◌≡◌, refl, arith}
use chemistry.Protocol.{DurableStreamEvent, RuntimeClientFrame, RuntimeServerFrame}
use chemistry.Runtime.State.{RuntimeState}
use chemistry.Execution.Admission.{new_admission, admitted_stream}
use chemistry.Execution.Turn.{next_event}
use chemistry.Handoff.{ReplayHandoff}
use chemistry.Adapter.Attachment.{
  RuntimeSocketAttachment, apply_runtime_stream_ack, sent_attachment, new_attachment,
}
use chemistry.Adapter.Attachment.Acknowledged.{
  Acknowledges, apply_runtime_stream_ack-Acknowledges, apply_runtime_stream_ack_carries,
}
use chemistry.Adapter.Sockets.{Socket, AdapterState}
use chemistry.Adapter.Broadcast.{broadcast}
use chemistry.Adapter.Broadcast.Isolation.{others, broadcast-others}
use chemistry.Adapter.Resume.{finish_resume}
use chemistry.Adapter.Resume.Delivered.{Resumes, finish_resume-Resumes}
use chemistry.Adapter.Dispatch.{Draws, dispatch}
use chemistry.Adapter.Dispatch.Submitted.{IsQuiet, dispatch-dispatch}
use chemistry.Tests.Data.{
  first_boot, request, empty_state, queued_state, first_event, streaming_state,
}
use chemistry.Tests.Sessions.{admit_run}
use chemistry.Tests.Deliveries.{window, replay_run, stored_InBounds}

abbrev attachment : RuntimeSocketAttachment
attachment = new_attachment "c1" "session-1" "probe-c1" (some "stream-1")

-- Two events of the stream have been sent, the first is acknowledged.
abbrev reading : RuntimeSocketAttachment
reading = record (sent_attachment attachment "stream-1" (pos 1)) {
  acknowledged_stream_id = some "stream-1";
  acknowledged_sequence = pos 0;
}

acknowledged :
    apply_runtime_stream_ack reading "stream-1" (pos 1)
    ≡ some (record reading { acknowledged_sequence = pos 1 })
unfolding apply_runtime_stream_ack
acknowledged = refl

apply_runtime_stream_ack-Acknowledges_example :
    Acknowledges reading "stream-1" (pos 1) (record reading { acknowledged_sequence = pos 1 })
apply_runtime_stream_ack-Acknowledges_example =
    apply_runtime_stream_ack-Acknowledges reading (record reading { acknowledged_sequence = pos 1 })
      "stream-1" (pos 1) (omega arith) acknowledged

-- The first stream is acknowledged up to its fourth event when the second one starts.
abbrev switching : RuntimeSocketAttachment
switching = record reading { sent_sequence = pos 3; acknowledged_sequence = pos 3 }

apply_runtime_stream_ack_carries_example :
    apply_runtime_stream_ack (sent_attachment switching "stream-2" (pos 0)) "stream-2" (pos 0)
    ≡ some (record (sent_attachment switching "stream-2" (pos 0)) {
      acknowledged_stream_id = some "stream-2";
    })
apply_runtime_stream_ack_carries_example =
    apply_runtime_stream_ack_carries switching "stream-2" (pos 0) refl

abbrev socket : Socket
socket = record { handle = 1; attachment = some attachment; sent = []; closed = none }

abbrev other_socket : Socket
other_socket = record {
  handle = 2;
  attachment = some (new_attachment "c2" "session-2" "probe-c2" none);
  sent = [];
  closed = none;
}

abbrev pub state : RuntimeState → AdapterState
state runtime = record {
  sockets = socket ∷ other_socket ∷ [];
  replay_gates = λ id. none;
  runtime = runtime;
  alarm = none;
  tasks = [];
  touched = [];
}

broadcast-others_example :
    others "session-1"
      (broadcast "session-1"
        (RuntimeServerFrame.stream_event first_event false)
        (state streaming_state)).sockets
    ≡ others "session-1" (state streaming_state).sockets
broadcast-others_example =
    broadcast-others "session-1" (RuntimeServerFrame.stream_event first_event false)
      (state streaming_state)

-- The second event of the stream was parked while the first was read.
abbrev second_event : DurableStreamEvent
second_event = record first_event { sequence = pos 1 }

abbrev gate : ReplayHandoff
gate = record { stream_id = "stream-1"; high_water = minus_one; pending = second_event ∷ [] }

parked_tagged : second_event.stream_id ≡ "stream-1"
unfolding next_event admitted_stream
parked_tagged = refl

finish_resume-Resumes_example :
    Resumes 1 gate window
      (pos 1)
      streaming_state
      socket
      (finish_resume 1 attachment "stream-1" gate window (state streaming_state)).1
unfolding ◌+ℤ◌
finish_resume-Resumes_example =
    finish_resume-Resumes first_boot streaming_state 1 attachment gate window (pos 0) (pos 1)
      (state streaming_state) socket stored_InBounds replay_run (parked_tagged, tt) (refl, refl)
      (omega arith) refl

abbrev pub draws : Draws
draws = record {
  now = 1_000;
  incident_id = "incident-1";
  operation_id = "op-1";
  stream_id = "stream-1";
  request_snapshot = request.request_snapshot;
  live = [];
}

dispatch-dispatch_example :
    IsQuiet
      (dispatch first_boot draws 1 attachment
        (RuntimeClientFrame.submit_turn "submission-1" "What is a mole?")
        (state empty_state)).1
      (dispatch first_boot
        (record draws { operation_id = "op-2" })
        1
        attachment
        (RuntimeClientFrame.submit_turn "submission-1" "What is it?")
        (dispatch first_boot draws 1 attachment
          (RuntimeClientFrame.submit_turn "submission-1" "What is a mole?")
          (state empty_state)).1).1
dispatch-dispatch_example =
    dispatch-dispatch first_boot draws (record draws { operation_id = "op-2" }) 1 1 attachment
      attachment "submission-1" "What is a mole?" "What is it?" (state empty_state) queued_state
      (new_admission empty_state request 1_000) admit_run
