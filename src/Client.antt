-- ===== src/Client.antt =====
-- packages/client-runtime/src/runtime-client-state.ts: the browser's pure reducer of server frames.
pub mod Replay
pub mod Resume
pub mod Delivery
pub mod Socket
use chemistry.Prelude.{
  ℕ, ◌-◌, ℤ, pos, ◌+ℤ◌, minus_one, min_ℤ, leb_ℤ, String, Bool, true, false, Option, none, some,
  List, [], ◌∷◌, ◌++◌, ◌==◌, string_eq, ◌&&◌, ◌||◌, not, if◌then◌else◌, length, drop, filter,
  get_or_else, pos_part, neg_part, nat_eq,
}
use chemistry.Protocol.{
  RuntimeCheckpoint, RuntimeOperationSummary, RuntimeSnapshot, DurableStreamEvent,
  RuntimeClientFrame, ResumeProbe, TurnAccepted, TerminalStatus, StreamTerminal, RuntimeServerFrame,
}

abbrev pub max_recent_events : ℕ
max_recent_events = 2_048

pub data RuntimeConnectionStatus : Type 0 where
  connecting replaying live recovering completed interrupted failed disconnected :
      RuntimeConnectionStatus

pub record RuntimeSocketSnapshot : Type 0 where
  pub status : RuntimeConnectionStatus
  pub stream_id : Option String
  pub operation_id : Option String
  pub last_sequence : ℤ
  pub checkpoint : Option RuntimeCheckpoint
  pub recovery_attempt : ℕ
  pub terminal_reason : Option String
  pub error : Option String
  pub recent_events : List DurableStreamEvent

pub data RuntimeClientAction : Type 0 where
  nothing reconnect close : RuntimeClientAction

pub record RuntimeClientTransition : Type 0 where
  pub snapshot : RuntimeSocketSnapshot
  pub outbound : List RuntimeClientFrame
  pub action : RuntimeClientAction

unfoldable pub initial_runtime_socket_snapshot : RuntimeSocketSnapshot
initial_runtime_socket_snapshot = record {
  status = RuntimeConnectionStatus.connecting;
  stream_id = none;
  operation_id = none;
  last_sequence = minus_one;
  checkpoint = none;
  recovery_attempt = 0;
  terminal_reason = none;
  error = none;
  recent_events = [];
}

abbrev quiet : RuntimeSocketSnapshot → RuntimeClientTransition
quiet snapshot = record { snapshot = snapshot; outbound = []; action = RuntimeClientAction.nothing }

-- `streamId !== null && current.streamId === streamId`
abbrev pub same_stream : Option String → Option String → Bool
same_stream none held = false
same_stream (some id) none = false
same_stream (some id) (some held) = held == id

abbrev operation_of : Option RuntimeOperationSummary → Option String
operation_of none = none
operation_of (some operation) = some operation.operation_id

abbrev checkpoint_of : Option RuntimeOperationSummary → Option RuntimeCheckpoint
checkpoint_of none = none
checkpoint_of (some operation) = some operation.checkpoint

-- `event.streamId === streamId && event.sequence <= afterSequence`
abbrev pub up_to : Option String → ℤ → DurableStreamEvent → Bool
up_to stream_id after_sequence event =
    same_stream stream_id (some event.stream_id) && leb_ℤ event.sequence after_sequence

unfoldable pub resume_cursor : RuntimeSocketSnapshot → ResumeProbe → ℤ
resume_cursor current frame =
    if same_stream frame.active_stream_id current.stream_id
    then min_ℤ current.last_sequence frame.latest_sequence
    else minus_one

unfoldable pub apply_resume_probe : RuntimeSocketSnapshot → ResumeProbe → RuntimeClientTransition
unfolding resume_cursor
apply_resume_probe current frame =
    let after_sequence = resume_cursor current frame in
    record {
      snapshot = record current {
        status = RuntimeConnectionStatus.replaying;
        stream_id = frame.active_stream_id;
        operation_id = operation_of frame.runtime.active_operation;
        last_sequence = after_sequence;
        checkpoint = checkpoint_of frame.runtime.active_operation;
        recovery_attempt = frame.runtime.recovery_attempt;
        terminal_reason = frame.runtime.last_terminal_reason;
        error = none;
        recent_events =
            if same_stream frame.active_stream_id current.stream_id
            then filter (up_to frame.active_stream_id after_sequence) current.recent_events
            else [];
      };
      outbound =
          RuntimeClientFrame.resume_ack frame.probe_id frame.active_stream_id after_sequence ∷ [];
      action = RuntimeClientAction.nothing;
    }

apply_turn_accepted : RuntimeSocketSnapshot → TurnAccepted → RuntimeClientTransition
apply_turn_accepted current frame = quiet (record current {
  status = RuntimeConnectionStatus.live;
  stream_id = some frame.stream_id;
  operation_id = some frame.operation_id;
  last_sequence = minus_one;
  checkpoint = some RuntimeCheckpoint.admitted;
  terminal_reason = none;
  error = none;
  recent_events = [];
})

-- The highest sequence that the browser has of the event's stream.
abbrev pub high_water : RuntimeSocketSnapshot → DurableStreamEvent → ℤ
high_water current event =
    if same_stream (some event.stream_id) current.stream_id
    then current.last_sequence
    else minus_one

-- `===` on integers.
abbrev pub eq_ℤ : ℤ → ℤ → Bool
eq_ℤ a b = pos_part a == pos_part b && neg_part a == neg_part b

-- `slice(-MAX_RECENT_EVENTS)`
abbrev pub recent : List DurableStreamEvent → List DurableStreamEvent
recent events = drop (length events - max_recent_events) events

unfoldable pub accept_event :
    RuntimeSocketSnapshot → DurableStreamEvent → Bool → RuntimeClientTransition
accept_event current event replay = record {
  snapshot = record current {
    status = if replay then RuntimeConnectionStatus.replaying else RuntimeConnectionStatus.live;
    stream_id = some event.stream_id;
    operation_id = some event.operation_id;
    last_sequence = event.sequence;
    checkpoint = some RuntimeCheckpoint.streaming;
    error = none;
    recent_events = recent (current.recent_events ++ event ∷ []);
  };
  outbound = RuntimeClientFrame.stream_ack event.stream_id event.sequence ∷ [];
  action = RuntimeClientAction.nothing;
}

unfoldable pub apply_stream_event :
    RuntimeSocketSnapshot → DurableStreamEvent → Bool → RuntimeClientTransition
apply_stream_event current event replay =
    if leb_ℤ event.sequence (high_water current event)
    then quiet current
    else if not (eq_ℤ event.sequence (high_water current event +ℤ pos 1))
    then record {
      snapshot = record current { error = some "Sequence gap; reconnecting for replay" };
      outbound = [];
      action = RuntimeClientAction.reconnect;
    }
    else accept_event current event replay

abbrev is_terminal : RuntimeConnectionStatus → Bool
is_terminal RuntimeConnectionStatus.completed = true
is_terminal RuntimeConnectionStatus.failed = true
is_terminal RuntimeConnectionStatus.interrupted = true
is_terminal _ = false

apply_resume_complete : RuntimeSocketSnapshot → Option String → ℤ → RuntimeClientTransition
apply_resume_complete current stream_id through_sequence = quiet (record current {
  status = if is_terminal current.status then current.status else RuntimeConnectionStatus.live;
  stream_id = stream_id;
  last_sequence = through_sequence;
  error = none;
})

apply_recovering : RuntimeSocketSnapshot → RuntimeOperationSummary → RuntimeClientTransition
apply_recovering current operation = quiet (record current {
  status = RuntimeConnectionStatus.recovering;
  stream_id = some operation.stream_id;
  operation_id = some operation.operation_id;
  checkpoint = some operation.checkpoint;
  recovery_attempt = operation.attempt;
  terminal_reason = operation.terminal_reason;
  error = none;
})

abbrev terminal_connection : TerminalStatus → RuntimeConnectionStatus
terminal_connection TerminalStatus.completed = RuntimeConnectionStatus.completed
terminal_connection TerminalStatus.interrupted = RuntimeConnectionStatus.interrupted
terminal_connection TerminalStatus.failed = RuntimeConnectionStatus.failed

abbrev terminal_error : TerminalStatus → Option String → Option String
terminal_error TerminalStatus.failed reason = some (get_or_else reason "Turn failed")
terminal_error _ reason = none

apply_stream_terminal : RuntimeSocketSnapshot → StreamTerminal → RuntimeClientTransition
apply_stream_terminal current frame = quiet (record current {
  status = terminal_connection frame.status;
  stream_id = some frame.stream_id;
  operation_id = some frame.operation_id;
  last_sequence = frame.sequence;
  checkpoint = some RuntimeCheckpoint.terminal;
  recovery_attempt = frame.attempt;
  terminal_reason = frame.reason;
  error = terminal_error frame.status frame.reason;
})

apply_protocol_error : RuntimeSocketSnapshot → String → Bool → RuntimeClientTransition
apply_protocol_error current message recoverable = record {
  snapshot = record current { error = some message };
  outbound = [];
  action = if recoverable then RuntimeClientAction.nothing else RuntimeClientAction.close;
}

unfoldable pub apply_runtime_server_frame :
    RuntimeSocketSnapshot → RuntimeServerFrame → RuntimeClientTransition
unfolding apply_resume_probe apply_turn_accepted apply_stream_event apply_resume_complete
    apply_recovering apply_stream_terminal apply_protocol_error accept_event
apply_runtime_server_frame current (RuntimeServerFrame.resume_probe frame) =
    apply_resume_probe current frame
apply_runtime_server_frame current (RuntimeServerFrame.turn_accepted frame) =
    apply_turn_accepted current frame
apply_runtime_server_frame current (RuntimeServerFrame.stream_event event replay) =
    apply_stream_event current event replay
apply_runtime_server_frame current (RuntimeServerFrame.resume_complete stream_id through_sequence) =
    apply_resume_complete current stream_id through_sequence
apply_runtime_server_frame current (RuntimeServerFrame.recovering operation) =
    apply_recovering current operation
apply_runtime_server_frame current (RuntimeServerFrame.stream_terminal frame) =
    apply_stream_terminal current frame
apply_runtime_server_frame current (RuntimeServerFrame.protocol_error code message recoverable) =
    apply_protocol_error current message recoverable
apply_runtime_server_frame current (RuntimeServerFrame.pong nonce boot_id) = quiet current
apply_runtime_server_frame current RuntimeServerFrame.keep_alive_ack = quiet current

-- The snapshot after a run of events of a replay or of the live stream.
unfoldable pub receive :
    Bool → RuntimeSocketSnapshot → List DurableStreamEvent → RuntimeSocketSnapshot
receive replay current [] = current
receive replay current (event ∷ rest) =
    receive replay
      (apply_runtime_server_frame current (RuntimeServerFrame.stream_event event replay)).snapshot
      rest
