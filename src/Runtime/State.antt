-- ===== src/Runtime/State.antt =====
-- runtime-state.ts: the durable record of one session. A field whose schema is one literal
-- (`version`, `provider`, `contextStrategy`, `kind`) holds that literal's text or number.
use chemistry.Prelude.{
  ℕ, ℤ, String, Bool, true, false, Option, none, some, List, [], ◌==◌, string_eq, length, find,
}
use chemistry.Protocol.{
  AgentContext, DurableStreamEvent, RuntimeCheckpoint, RuntimeOperationStatus,
  RuntimeOperationSummary, RuntimeSnapshot,
}

pub record RuntimeOperationInput : Type 0 where
  pub prompt : String

pub record RuntimeRequestSnapshot : Type 0 where
  pub version : ℕ
  pub provider : String
  pub model : String
  pub tool_step_limit : ℕ
  pub context_strategy : String
  pub context : AgentContext
  pub history_message_ids : List String
  pub compaction_ids : List String
  pub submitted_at : ℕ

pub data RuntimePhase : Type 0 where
  admission request_snapshot transcript_partial inference terminal : RuntimePhase

pub data PhaseStatus : Type 0 where
  pending completed failed : PhaseStatus

pub record RuntimePhaseEffect : Type 0 where
  pub effect_key : String
  pub phase : RuntimePhase
  pub status : PhaseStatus
  pub generation : ℕ
  pub attempt : ℕ
  pub updated_at : ℕ

pub record RuntimeOperationRecord : Type 0 where
  pub operation_id : String
  pub submission_id : String
  pub stream_id : String
  pub kind : String
  pub input : RuntimeOperationInput
  pub request_snapshot : RuntimeRequestSnapshot
  pub effect_ledger : List RuntimePhaseEffect
  pub user_message_id : String
  pub assistant_message_id : String
  pub status : RuntimeOperationStatus
  pub checkpoint : RuntimeCheckpoint
  pub generation : ℕ
  pub attempt : ℕ
  pub progress : ℕ
  pub recovery_work : ℕ
  pub owner_boot_id : Option String
  pub lease_expires_at : Option ℕ
  pub created_at : ℕ
  pub updated_at : ℕ
  pub terminal_reason : Option String

pub data RuntimeStreamStatus : Type 0 where
  opened completed failed interrupted : RuntimeStreamStatus

pub record RuntimeStreamRecord : Type 0 where
  pub stream_id : String
  pub operation_id : String
  pub status : RuntimeStreamStatus
  pub latest_sequence : ℤ
  pub encoded_bytes : ℕ
  pub events : List DurableStreamEvent
  pub created_at : ℕ
  pub updated_at : ℕ
  pub expires_at : Option ℕ
  pub terminal_reason : Option String

pub data RecoveryKind : Type 0 where
  pre_stream_retry partial_continuation terminal_noop parked unrecoverable : RecoveryKind

pub data RecoveryStatus : Type 0 where
  detected scheduled attempting completed parked exhausted failed : RecoveryStatus

pub record RecoveryIncident : Type 0 where
  pub incident_id : String
  pub operation_id : String
  pub kind : RecoveryKind
  pub status : RecoveryStatus
  pub attempt : ℕ
  pub progress_baseline : ℕ
  pub recovery_work : ℕ
  pub oom_strikes : ℕ
  pub first_seen_at : ℕ
  pub last_progress_at : ℕ
  pub scheduled_at : Option ℕ
  pub terminal_reason : Option String

pub record RecoverAlarm : Type 0 where
  pub operation_id : String
  pub generation : ℕ
  pub scheduled_at : ℕ

pub data RuntimeAlarmIntent : Type 0 where
  recover : RecoverAlarm → RuntimeAlarmIntent
  cleanup : ℕ → RuntimeAlarmIntent

pub record RuntimeState : Type 0 where
  pub version : ℕ
  pub session_id : String
  pub boot_id : String
  pub generation : ℕ
  pub operations : List RuntimeOperationRecord
  pub queue : List String
  pub active_operation_id : Option String
  pub streams : List RuntimeStreamRecord
  pub recovery : Option RecoveryIncident
  pub alarm : Option RuntimeAlarmIntent
  pub last_terminal_reason : Option String
  pub last_wake_at : ℕ

unfoldable pub initial_runtime_state : String → String → ℕ → RuntimeState
initial_runtime_state session_id boot_id now = record {
  version = 2;
  session_id = session_id;
  boot_id = boot_id;
  generation = 0;
  operations = [];
  queue = [];
  active_operation_id = none;
  streams = [];
  recovery = none;
  alarm = none;
  last_terminal_reason = none;
  last_wake_at = now;
}

unfoldable pub find_runtime_operation : RuntimeState → String → Option RuntimeOperationRecord
find_runtime_operation state operation_id =
    find (λ operation. operation.operation_id == operation_id) state.operations

abbrev operation_summary : RuntimeOperationRecord → RuntimeOperationSummary
operation_summary active = record {
  operation_id = active.operation_id;
  submission_id = active.submission_id;
  stream_id = active.stream_id;
  status = active.status;
  checkpoint = active.checkpoint;
  generation = active.generation;
  attempt = active.attempt;
  progress = active.progress;
  recovery_work = active.recovery_work;
  terminal_reason = active.terminal_reason;
  updated_at = active.updated_at;
}

active_summary : RuntimeState → Option String → Option RuntimeOperationSummary
active_summary state none = none
active_summary state (some id) = elim (find_runtime_operation state id) [
  | none ↦ none
  | some active ↦ some (operation_summary active)
]

recovery_attempt : Option RecoveryIncident → ℕ
recovery_attempt none = 0
recovery_attempt (some incident) = incident.attempt

unfoldable pub runtime_snapshot : RuntimeState → RuntimeSnapshot
unfolding active_summary recovery_attempt
runtime_snapshot state = record {
  boot_id = state.boot_id;
  active_operation = active_summary state state.active_operation_id;
  queue_depth = length state.queue;
  retained_stream_count = length state.streams;
  recovery_attempt = recovery_attempt state.recovery;
  last_terminal_reason = state.last_terminal_reason;
}

-- `status === "completed"` and its like.
abbrev pub stream_completed : RuntimeStreamStatus → Bool
stream_completed RuntimeStreamStatus.completed = true
stream_completed _ = false

abbrev pub stream_failed : RuntimeStreamStatus → Bool
stream_failed RuntimeStreamStatus.failed = true
stream_failed _ = false

abbrev pub stream_interrupted : RuntimeStreamStatus → Bool
stream_interrupted RuntimeStreamStatus.interrupted = true
stream_interrupted _ = false

abbrev pub stream_opened : RuntimeStreamStatus → Bool
stream_opened RuntimeStreamStatus.opened = true
stream_opened _ = false

abbrev pub phase_completed : PhaseStatus → Bool
phase_completed PhaseStatus.completed = true
phase_completed _ = false

abbrev pub kind_parked : RecoveryKind → Bool
kind_parked RecoveryKind.parked = true
kind_parked _ = false

abbrev pub kind_unrecoverable : RecoveryKind → Bool
kind_unrecoverable RecoveryKind.unrecoverable = true
kind_unrecoverable _ = false

abbrev pub kind_terminal_noop : RecoveryKind → Bool
kind_terminal_noop RecoveryKind.terminal_noop = true
kind_terminal_noop _ = false

abbrev pub recovery_parked : RecoveryStatus → Bool
recovery_parked RecoveryStatus.parked = true
recovery_parked _ = false

-- `status === "completed" || status === "exhausted" || status === "failed"`
abbrev pub recovery_over : RecoveryStatus → Bool
recovery_over RecoveryStatus.completed = true
recovery_over RecoveryStatus.exhausted = true
recovery_over RecoveryStatus.failed = true
recovery_over _ = false
