-- ===== src/Tests/Deliveries.antt =====
-- The stored events of the session on their way to the browser.
use chemistry.Prelude.{
  ℕ, ◌+◌, pos, ◌+ℤ◌, ◌≤ℤ◌, minus_one, true, false, none, some, [], ◌∷◌, ◌≡◌, refl, arith,
}
use chemistry.Protocol.{AgentStreamEvent, DurableStreamEvent}
use chemistry.Runtime.State.{RuntimeStreamStatus, initial_runtime_state}
use chemistry.Runtime.Errors.{ok, ◌>>=◌}
use chemistry.Execution.Helpers.{find_stream, replace_operation, replace_stream}
use chemistry.Execution.Admission.{
  enqueue, admitted_operation, admitted_stream, install_claim, claimed_operation,
}
use chemistry.Execution.Turn.{next_event, install_append, appended_operation, appended_stream}
use chemistry.Execution.Streams.{total_size}
use chemistry.Execution.Bounds.{InBounds}
use chemistry.Execution.Reading.{RuntimeReplay, replay, events_after}
use chemistry.Execution.Reading.Replay.{Replays, replay-Replays}
use chemistry.Handoff.{ReplayHandoff, begin_replay_handoff}
use chemistry.Handoff.Order.{Accepts, deliver, deliver-Accepts}
use chemistry.Client.{RuntimeSocketSnapshot, initial_runtime_socket_snapshot, receive}
use chemistry.Client.{apply_resume_probe}
use chemistry.Protocol.{ResumeProbe, RuntimeClientFrame}
use chemistry.Runtime.State.{runtime_snapshot}
use chemistry.Client.Resume.{apply_resume_probe-Follows}
use chemistry.Client.Replay.{Follows, receive-Follows}
use chemistry.Client.Delivery.{Delivers, replay-Delivers}
use chemistry.Tests.Data.{first_boot, first_event, streaming_state, streaming_stream}

pub stored_InBounds : InBounds first_boot streaming_state
unfolding initial_runtime_state enqueue admitted_operation admitted_stream install_claim
    claimed_operation install_append appended_operation appended_stream replace_operation
    replace_stream next_event total_size ◌+ℤ◌
stored_InBounds = record {
  operations = ((omega arith, omega arith), tt);
  streams = (
    record {
      chain = (refl, refl);
      tagged = (refl, tt);
      room = omega arith;
      counted = refl;
      bytes = omega arith;
    },
    tt,
  );
  queue = omega arith;
}

abbrev pub window : RuntimeReplay
window = record {
  stream_id = "stream-1";
  events = first_event ∷ [];
  latest_sequence = pos 0;
  status = RuntimeStreamStatus.opened;
  terminal_reason = none;
}

pub replay_run : replay streaming_state "stream-1" minus_one ≡ ok window
unfolding replay ◌>>=◌ find_stream events_after initial_runtime_state enqueue admitted_operation
    admitted_stream install_claim claimed_operation install_append appended_operation
    appended_stream replace_operation replace_stream next_event ◌+ℤ◌
replay_run = refl

replay-Replays_example : Replays streaming_state "stream-1" minus_one window
replay-Replays_example =
    replay-Replays first_boot streaming_state "stream-1" minus_one window stored_InBounds replay_run

stream_run : find_stream streaming_state "stream-1" ≡ some streaming_stream
unfolding find_stream initial_runtime_state enqueue admitted_operation admitted_stream install_claim
    claimed_operation install_append appended_operation appended_stream replace_operation
    replace_stream next_event ◌+ℤ◌
stream_run = refl

below_latest : minus_one ≤ℤ streaming_stream.latest_sequence
unfolding appended_stream next_event admitted_stream ◌+ℤ◌
below_latest = omega arith

-- A browser that follows the stream and has nothing of it.
abbrev browser : RuntimeSocketSnapshot
browser = record initial_runtime_socket_snapshot { stream_id = some "stream-1" }

browser_cursor : browser.last_sequence ≡ minus_one
unfolding initial_runtime_socket_snapshot
browser_cursor = refl

browser_run : replay streaming_state "stream-1" browser.last_sequence ≡ ok window
unfolding initial_runtime_socket_snapshot
browser_run = replay_run

replay-Delivers_example :
    Delivers browser (receive true browser (first_event ∷ [])) (first_event ∷ []) (pos 0)
replay-Delivers_example =
    replay-Delivers first_boot streaming_state "stream-1" window browser stored_InBounds refl
      browser_run

abbrev event_at : ℕ → DurableStreamEvent
event_at n = record {
  stream_id = "stream-1";
  operation_id = "op-1";
  sequence = pos n;
  event = AgentStreamEvent.text_delta "x";
  produced_at = 1_200 + n;
}

browser-Follows : Follows "stream-1" browser
unfolding initial_runtime_socket_snapshot
browser-Follows = record {
  following = refl;
  start = minus_one;
  run = refl;
  tagged = tt;
  within = omega arith;
}

-- An event too early, then the right ones, one of them twice.
receive-Follows_example :
    Follows "stream-1"
      (receive false browser (event_at 1 ∷ event_at 0 ∷ event_at 0 ∷ event_at 1 ∷ []))
receive-Follows_example =
    receive-Follows "stream-1" browser false
      (event_at 1 ∷ event_at 0 ∷ event_at 0 ∷ event_at 1 ∷ []) browser-Follows
      (refl, (refl, (refl, (refl, tt))))

abbrev handoff : ReplayHandoff
handoff = record {
  stream_id = "stream-1";
  high_water = minus_one;
  pending = event_at 1 ∷ event_at 2 ∷ [];
}

deliver-Accepts_example :
    Accepts minus_one
      (pos 2)
      (deliver handoff (event_at 0 ∷ event_at 1 ∷ [])).1
      (deliver handoff (event_at 0 ∷ event_at 1 ∷ [])).0.high_water
    × (pos 1 ≤ℤ (deliver handoff (event_at 0 ∷ event_at 1 ∷ [])).0.high_water)
    × ((deliver handoff (event_at 0 ∷ event_at 1 ∷ [])).0.pending ≡ [])
unfolding ◌+ℤ◌
deliver-Accepts_example =
    deliver-Accepts handoff (event_at 0 ∷ event_at 1 ∷ []) (pos 1) (pos 0) (pos 2)
      (refl, (refl, tt)) (refl, (refl, refl)) (refl, (refl, tt)) (refl, (refl, refl)) (omega arith)

abbrev begun : ReplayHandoff
begun = begin_replay_handoff "stream-1" minus_one

-- A browser with two events reconnects to a server that has only one of them.
abbrev reader : RuntimeSocketSnapshot
reader = record browser { last_sequence = pos 1; recent_events = event_at 0 ∷ event_at 1 ∷ [] }

reader-Follows : Follows "stream-1" reader
unfolding ◌+ℤ◌
reader-Follows = record {
  following = refl;
  start = minus_one;
  run = (refl, (refl, refl));
  tagged = (refl, (refl, tt));
  within = omega arith;
}

abbrev probe_frame : ResumeProbe
probe_frame = record {
  probe_id = "probe-1";
  connection_id = "connection-1";
  session_id = "session-1";
  active_stream_id = some "stream-1";
  latest_sequence = pos 0;
  runtime = runtime_snapshot streaming_state;
}

apply_resume_probe-Follows_example :
    Follows "stream-1" (apply_resume_probe reader probe_frame).snapshot
    × ((apply_resume_probe reader probe_frame).snapshot.last_sequence ≡ pos 0)
    × ((apply_resume_probe reader probe_frame).outbound
        ≡ RuntimeClientFrame.resume_ack "probe-1" (some "stream-1") (pos 0) ∷ [])
apply_resume_probe-Follows_example =
    apply_resume_probe-Follows "stream-1" reader probe_frame refl reader-Follows
