-- ===== src/Adapter/Resume/Delivered.antt =====
-- What a connection gets when it resumes, in apps/backend/src/runtime-websocket-adapter.ts.
use chemistry.Prelude.{
  ℕ, ℤ, ◌≤ℤ◌, String, true, Option, none, some, List, [], ◌∷◌, ◌++◌, map, find, ◌≡◌, refl, sym, ap,
  subst, ◌∙◌, arith, ◌==◌, nat_eq, if◌then◌else◌, All, All-filter, append_assoc, append-nil,
}
use chemistry.Protocol.{DurableStreamEvent, RuntimeServerFrame}
use chemistry.Runtime.State.{RuntimeState}
use chemistry.Runtime.Errors.{Result, ok, err}
use chemistry.Execution.Helpers.{Environment}
use chemistry.Execution.Lookup.{stream_id-find}
use chemistry.Execution.Streams.{Chain}
use chemistry.Execution.Bounds.{InBounds, found-IsValid}
use chemistry.Execution.Settle.{RuntimeTerminal}
use chemistry.Execution.Reading.{RuntimeReplay, replay, terminal, events_after}
use chemistry.Execution.Reading.Replay.{Replays, replay-Replays}
use chemistry.Handoff.{ReplayHandoff}
use chemistry.Handoff.Order.{Tagged, Accepts, deliver, deliver-Accepts}
use chemistry.Handoff.Joined.{Joins, deliver-Joins}
use chemistry.Adapter.Attachment.{RuntimeSocketAttachment, sent_attachment}
use chemistry.Adapter.Sockets.{
  Socket, AdapterState, served_by, delete_gate, on_socket, with_frame, with_attachment,
  with_durable_event, send, send_durable_events,
}
use chemistry.Adapter.Resume.{terminal_frame, send_terminal, finish_resume}

-- The first socket with this handle.
abbrev pub Has : ℕ → AdapterState → Socket → Type 0
Has handle state socket = find (λ other. other.handle == handle) state.sockets ≡ some socket

find-changed :
    (handle : ℕ) (change : Socket → Socket) (sockets : List Socket) (socket : Socket)
    → ((other : Socket) → (change other).handle ≡ other.handle)
    → find (λ other. other.handle == handle) sockets ≡ some socket
    → find
        (λ other. other.handle == handle)
        (map (λ other. if other.handle == handle then change other else other) sockets)
      ≡ some (change socket)
find-changed handle change [] socket kept found = absurd (ground (arith, found))
find-changed handle change (first ∷ rest) socket kept found =
    ground (arith, found, kept first, find-changed handle change rest socket kept)

abbrev pub replayed : DurableStreamEvent → RuntimeServerFrame
replayed event = RuntimeServerFrame.stream_event event true

-- The socket, with more frames sent.
record Grows (handle : ℕ) (state : AdapterState) (frames : List RuntimeServerFrame)
    (before : Socket) : Type 0 where
  socket : Socket
  has : Has handle state socket
  sent : socket.sent ≡ before.sent ++ frames

durable_event_handle :
    (event : DurableStreamEvent) (socket : Socket)
    → ((with_durable_event event true socket).handle ≡ socket.handle)
      × ((with_durable_event event true socket).sent ≡ socket.sent ++ replayed event ∷ [])
unfolding with_durable_event
durable_event_handle event socket = (refl, refl)

send_durable_events-Grows :
    (handle : ℕ) (events : List DurableStreamEvent) (state : AdapterState) (socket : Socket)
    → Has handle state socket
    → Grows handle (send_durable_events handle events state) (map replayed events) socket
unfolding send_durable_events
send_durable_events-Grows handle [] state socket has = record {
  socket = socket;
  has = has;
  sent = sym (append-nil socket.sent);
}
send_durable_events-Grows handle (event ∷ rest) state socket has =
    let changed = with_durable_event event true socket in
    let more =
      send_durable_events-Grows handle rest (on_socket handle (with_durable_event event true) state)
        changed
        (find-changed handle (with_durable_event event true) state.sockets socket
          (λ other. (durable_event_handle event other).0) has) in
    record {
      socket = more.socket;
      has = more.has;
      sent =
          more.sent
          ∙ ap (λ sent. sent ++ map replayed rest) (durable_event_handle event socket).1
          ∙ append_assoc socket.sent (replayed event ∷ []) (map replayed rest);
    }

send_durable_events_runtime :
    (handle : ℕ) (events : List DurableStreamEvent) (state : AdapterState)
    → (send_durable_events handle events state).runtime ≡ state.runtime
unfolding send_durable_events
send_durable_events_runtime handle [] state = refl
send_durable_events_runtime handle (event ∷ rest) state =
    send_durable_events_runtime handle rest (on_socket handle (with_durable_event event true) state)

-- The end of a stream, as a connection hears of it.
abbrev pub ending_frames : Result (Option RuntimeTerminal) → List RuntimeServerFrame
ending_frames (err error) = []
ending_frames (ok none) = []
ending_frames (ok (some ended)) = terminal_frame ended ∷ []

answered-Grows :
    (handle : ℕ) (stream_id : String) (state : AdapterState) (socket : Socket)
    (read : Result (Option RuntimeTerminal))
    → Has handle state socket
    → Grows handle
        (served_by {B = Unit {0}}
          (read, state)
          (λ ended later. (ok tt, send_terminal handle ended later))).1
        (ending_frames read)
        socket
unfolding served_by send_terminal
answered-Grows handle stream_id state socket (err error) has = record {
  socket = socket;
  has = has;
  sent = sym (append-nil socket.sent);
}
answered-Grows handle stream_id state socket (ok none) has = record {
  socket = socket;
  has = has;
  sent = sym (append-nil socket.sent);
}
answered-Grows handle stream_id state socket (ok (some ended)) has = record {
  socket = with_frame (terminal_frame ended) socket;
  has =
      find-changed handle (with_frame (terminal_frame ended)) state.sockets socket (λ other. refl)
        has;
  sent = refl;
}

finish_resume-Grows :
    (handle : ℕ) (attachment : RuntimeSocketAttachment) (stream_id : String) (gate : ReplayHandoff)
    (window : RuntimeReplay) (state : AdapterState) (socket : Socket)
    → Has handle state socket
    → let delivered = deliver gate window.events in
      Grows handle
        (finish_resume handle attachment stream_id gate window state).1
        (map replayed delivered.1
          ++ RuntimeServerFrame.resume_complete (some stream_id) delivered.0.high_water
            ∷ ending_frames (terminal state.runtime stream_id))
        socket
unfolding finish_resume
finish_resume-Grows handle attachment stream_id gate window state socket has =
    let delivered = deliver gate window.events in
    let high_water = delivered.0.high_water in
    let first = send_durable_events-Grows handle delivered.1 state socket has in
    let sent_state = send_durable_events handle delivered.1 state in
    let marked = with_attachment (sent_attachment attachment stream_id high_water) in
    let has_marked =
      find-changed handle marked sent_state.sockets first.socket (λ other. refl) first.has in
    let complete = RuntimeServerFrame.resume_complete (some stream_id) high_water in
    let cleared = delete_gate attachment.connection_id sent_state in
    let has_answered =
      find-changed handle (with_frame complete) (on_socket handle marked cleared).sockets
        (marked first.socket) (λ other. refl) has_marked in
    let last =
      answered-Grows handle stream_id (send handle complete (on_socket handle marked cleared))
        (with_frame complete (marked first.socket)) (terminal sent_state.runtime stream_id)
        has_answered in
    record {
      socket = last.socket;
      has = last.has;
      sent =
          last.sent
          ∙ ap
              (λ sent.
                (sent ++ complete ∷ []) ++ ending_frames (terminal sent_state.runtime stream_id))
              first.sent
          ∙ append_assoc (socket.sent ++ map replayed delivered.1) (complete ∷ [])
              (ending_frames (terminal sent_state.runtime stream_id))
          ∙ append_assoc socket.sent (map replayed delivered.1)
              (complete ∷ ending_frames (terminal sent_state.runtime stream_id))
          ∙ ap
              (λ runtime.
                socket.sent
                ++ (map replayed delivered.1
                    ++ complete ∷ ending_frames (terminal runtime stream_id)))
              (send_durable_events_runtime handle delivered.1 state);
    }

-- What a resumed connection was sent, behind what it had been sent before: the events that it lacked,
-- namely those read and behind them the parked ones, then that they are complete, then the end of the
-- stream, if it has one.
pub record Resumes (handle : ℕ) (gate : ReplayHandoff) (window : RuntimeReplay) (last : ℤ)
    (runtime : RuntimeState) (before : Socket) (state : AdapterState) : Type 0 where
  pub socket : Socket
  pub events : List DurableStreamEvent
  pub through : ℤ
  pub has : Has handle state socket
  pub sent :
      socket.sent
      ≡ before.sent
        ++ (map replayed events
            ++ RuntimeServerFrame.resume_complete (some gate.stream_id) through
              ∷ ending_frames (terminal runtime gate.stream_id))
  pub joins : Joins gate.stream_id window.latest_sequence gate.pending window.events events
  pub accepts : Accepts gate.high_water last events through
  pub covers : window.latest_sequence ≤ℤ through

window-Tagged :
    (env : Environment) (runtime : RuntimeState) (stream_id : String) (after : ℤ)
    (window : RuntimeReplay)
    → InBounds env runtime
    → Replays runtime stream_id after window
    → Tagged stream_id window.events
window-Tagged env runtime stream_id after window h r = rw r.handed_out (
    subst (λ id. All (λ event. event.stream_id ≡ id) (events_after after r.stream.events))
      (stream_id-find runtime stream_id r.stream r.stored)
      (unfold events_after in
        All-filter _ _ r.stream.events (found-IsValid env runtime h stream_id r.stored).tagged))

-- A connection whose replay was read from a record within its limits, and whose gate parked live
-- events of the stream that follow each other and start no later than behind the last event read,
-- is sent all the events read and then the parked ones that those do not reach, which are events of
-- the stream in a gapless run from its cursor on to the last parked one at least, then that the replay
-- is complete through the last sequence of this run, then the end of the stream, if it ended.
pub finish_resume-Resumes :
    (env : Environment) (read : RuntimeState) (handle : ℕ) (attachment : RuntimeSocketAttachment)
    (gate : ReplayHandoff) (window : RuntimeReplay) (first last : ℤ) (state : AdapterState)
    (socket : Socket)
    → InBounds env read
    → replay read gate.stream_id gate.high_water ≡ ok window
    → Tagged gate.stream_id gate.pending
    → Chain first gate.pending last
    → first ≤ℤ window.latest_sequence
    → Has handle state socket
    → Resumes handle gate window last state.runtime socket
        (finish_resume handle attachment gate.stream_id gate window state).1
finish_resume-Resumes env read handle attachment gate window first last state socket bounds e tagged
      chain low has =
    let r = replay-Replays env read gate.stream_id gate.high_water window bounds e in
    let delivered = deliver gate window.events in
    let tagged_read = window-Tagged env read gate.stream_id gate.high_water window bounds r in
    let chain_read : Chain gate.high_water window.events window.latest_sequence =
      rw (r.handed_out, r.latest) r.splits.beyond in
    let done =
      deliver-Accepts gate window.events window.latest_sequence first last tagged_read chain_read
        tagged chain low in
    let grown = finish_resume-Grows handle attachment gate.stream_id gate window state socket has in
    record {
      socket = grown.socket;
      events = delivered.1;
      through = delivered.0.high_water;
      has = grown.has;
      sent = grown.sent;
      joins =
          deliver-Joins gate window.events window.latest_sequence first last tagged_read chain_read
            tagged chain low;
      accepts = done.0;
      covers = done.1;
    }
