-- ===== src/Adapter/Runs/Live.antt =====
-- What the sockets receive while a run of apps/backend/src/runtime-websocket-adapter.ts goes on.
use chemistry.Prelude.{
  String, true, false, Option, none, some, List, [], ◌∷◌, ◌++◌, map, append-nil, append_assoc,
  string_eq, ◌≡◌, refl, sym, ap, ◌∙◌, arith, Option-cases, Bool-cases, inl, inr, if◌then◌else◌,
}
use chemistry.Protocol.{DurableStreamEvent, RuntimeServerFrame, runtime_unavailable}
use chemistry.Runtime.Errors.{DurableExecutionError}
use chemistry.Execution.Helpers.{error_message}
use chemistry.Execution.Running.{TurnRun}
use chemistry.Adapter.Runs.{tell_failure, broadcast_run}
use chemistry.Adapter.Sockets.{Socket, AdapterState, with_durable_event, with_protocol_error}
use chemistry.Adapter.Broadcast.{
  Gates, event_gated, frame_for, broadcast_to, broadcast_one, broadcast_over, broadcast,
}
use chemistry.Adapter.Broadcast.Isolation.{attached_to}
use chemistry.Adapter.Resume.{broadcast_all}

-- No connection has a replay going on.
abbrev pub NoReplay : Gates → Type 0
NoReplay gates = (id : String) → gates id ≡ none

abbrev live_event : String → DurableStreamEvent → Socket → Socket
live_event session_id event socket =
    if attached_to session_id socket then with_durable_event event false socket else socket

broadcast_one-live :
    (session_id : String) (event : DurableStreamEvent) (socket : Socket) (gates : Gates)
    → NoReplay gates
    → broadcast_one session_id (RuntimeServerFrame.stream_event event false) socket gates
      ≡ (live_event session_id event socket, gates)
unfolding broadcast_one broadcast_to frame_for event_gated
broadcast_one-live session_id event socket gates free = elim (Option-cases socket.attachment) [
  | inl undecoded ↦ ground (arith, undecoded)
  | inr (attachment, decoded) ↦ ground (arith, decoded, free attachment.connection_id)
]

broadcast_over-live :
    (session_id : String) (event : DurableStreamEvent) (sockets : List Socket) (gates : Gates)
    → NoReplay gates
    → broadcast_over session_id (RuntimeServerFrame.stream_event event false) sockets gates
      ≡ (map (live_event session_id event) sockets, gates)
unfolding broadcast_over
broadcast_over-live session_id event [] gates free = refl
broadcast_over-live session_id event (socket ∷ rest) gates free =
    rw
      (
        broadcast_one-live session_id event socket gates free,
        broadcast_over-live session_id event rest gates free,
      )
      refl

-- What each socket of the session has been sent.
unfoldable pub sent_to : String → List Socket → List (List RuntimeServerFrame)
sent_to session_id [] = []
sent_to session_id (socket ∷ rest) =
    if attached_to session_id socket
    then socket.sent ∷ sent_to session_id rest
    else sent_to session_id rest

live_event-attached :
    (session_id : String) (event : DurableStreamEvent) (socket : Socket)
    → attached_to session_id (live_event session_id event socket) ≡ attached_to session_id socket
unfolding with_durable_event
live_event-attached session_id event socket = elim (Option-cases socket.attachment) [
  | inl undecoded ↦ ground (arith, undecoded)
  | inr (attachment, decoded) ↦ ground (arith, decoded)
]

sent_to-live :
    (session_id : String) (event : DurableStreamEvent) (sockets : List Socket)
    → sent_to session_id (map (live_event session_id event) sockets)
      ≡ map
          (λ sent. sent ++ RuntimeServerFrame.stream_event event false ∷ [])
          (sent_to session_id sockets)
unfolding sent_to with_durable_event
sent_to-live session_id event [] = refl
sent_to-live session_id event (socket ∷ rest) = elim (Bool-cases (attached_to session_id socket)) [
  | inl own ↦
      rw (live_event-attached session_id event socket, own, sent_to-live session_id event rest) refl
  | inr other ↦
      rw (live_event-attached session_id event socket, other, sent_to-live session_id event rest)
        refl
]

-- The sockets are sent frames behind what they were sent before.
abbrev pub appended :
    List RuntimeServerFrame → List (List RuntimeServerFrame) → List (List RuntimeServerFrame)
appended frames = map (λ sent. sent ++ frames)

appended-nil : (all : List (List RuntimeServerFrame)) → appended [] all ≡ all
appended-nil [] = refl
appended-nil (sent ∷ rest) = rw (append-nil sent, appended-nil rest) refl

appended-appended :
    (first second : List RuntimeServerFrame) (all : List (List RuntimeServerFrame))
    → appended second (appended first all) ≡ appended (first ++ second) all
appended-appended first second [] = refl
appended-appended first second (sent ∷ rest) =
    rw (append_assoc sent first second, appended-appended first second rest) refl

abbrev pub live_frames : List DurableStreamEvent → List RuntimeServerFrame
live_frames = map (λ event. RuntimeServerFrame.stream_event event false)

broadcast-live :
    (session_id : String) (event : DurableStreamEvent) (state : AdapterState)
    → NoReplay state.replay_gates
    → broadcast session_id (RuntimeServerFrame.stream_event event false) state
      ≡ record state { sockets = map (live_event session_id event) state.sockets }
unfolding broadcast
broadcast-live session_id event state free =
    rw (broadcast_over-live session_id event state.sockets state.replay_gates free) refl

broadcast_all-live :
    (session_id : String) (events : List DurableStreamEvent) (state : AdapterState)
    → NoReplay state.replay_gates
    → sent_to session_id (broadcast_all session_id events state).sockets
      ≡ appended (live_frames events) (sent_to session_id state.sockets)
unfolding broadcast_all
broadcast_all-live session_id [] state free = sym (appended-nil (sent_to session_id state.sockets))
broadcast_all-live session_id (event ∷ rest) state free =
    rw (broadcast_all, broadcast-live session_id event state free)
      (broadcast_all-live session_id rest
          (record state { sockets = map (live_event session_id event) state.sockets }) free
        ∙ ap (appended (live_frames rest)) (sent_to-live session_id event state.sockets)
        ∙ appended-appended (RuntimeServerFrame.stream_event event false ∷ []) (live_frames rest)
            (sent_to session_id state.sockets))

-- What tells of a failed run.
abbrev pub failure_frames : Option DurableExecutionError → List RuntimeServerFrame
failure_frames none = []
failure_frames (some error) =
    RuntimeServerFrame.protocol_error runtime_unavailable (error_message error) true ∷ []

sent_to-told :
    (session_id : String) (error : DurableExecutionError) (sockets : List Socket)
    → sent_to session_id
        (map (with_protocol_error runtime_unavailable (error_message error) true) sockets)
      ≡ appended (failure_frames (some error)) (sent_to session_id sockets)
unfolding sent_to with_protocol_error
sent_to-told session_id error [] = refl
sent_to-told session_id error (socket ∷ rest) = elim (Bool-cases (attached_to session_id socket)) [
  | inl own ↦ rw (own, sent_to-told session_id error rest) refl
  | inr other ↦ rw (other, sent_to-told session_id error rest) refl
]

tell_failure-told :
    (session_id : String) (failure : Option DurableExecutionError) (state : AdapterState)
    → sent_to session_id (tell_failure failure state).sockets
      ≡ appended (failure_frames failure) (sent_to session_id state.sockets)
unfolding tell_failure
tell_failure-told session_id none state = sym (appended-nil (sent_to session_id state.sockets))
tell_failure-told session_id (some error) state = sent_to-told session_id error state.sockets

-- When no connection has a replay going on, each socket of the session is sent exactly the events
-- that the run published, once and in their order, behind what it was sent before, and then, if the
-- run failed, the one frame that tells of its failure.
pub broadcast_run-live :
    (session_id : String) (run : TurnRun) (state : AdapterState)
    → NoReplay state.replay_gates
    → sent_to session_id (broadcast_run session_id run state).sockets
      ≡ appended
          (live_frames run.published ++ failure_frames run.failure)
          (sent_to session_id state.sockets)
unfolding broadcast_run
broadcast_run-live session_id run state free =
    tell_failure-told session_id run.failure
      (broadcast_all session_id run.published (record state { runtime = run.state }))
    ∙ ap (appended (failure_frames run.failure))
        (broadcast_all-live session_id run.published (record state { runtime = run.state }) free)
    ∙ appended-appended (live_frames run.published) (failure_frames run.failure)
        (sent_to session_id state.sockets)
