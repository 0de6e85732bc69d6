-- ===== src/Execution/Wake.antt =====
-- `wake` of durable-execution.ts.
use chemistry.Prelude.{
  ℕ, ◌+◌, String, Bool, true, ◌&&◌, not, Option, none, some, ◌==◌, string_eq, nullable_eq,
  if◌then◌else◌, leb, head?, get_or_else,
}
use chemistry.Protocol.{RuntimeSnapshot, RuntimeOperationStatus}
use chemistry.Runtime.State.{
  RuntimeState, RuntimeOperationRecord, RuntimeStreamRecord, RuntimeStreamStatus, RecoveryKind,
  RecoveryStatus, RecoveryIncident, RuntimeAlarmIntent, find_runtime_operation, runtime_snapshot,
  recovery_over, recovery_parked, kind_parked, kind_terminal_noop,
}
use chemistry.Runtime.Errors.{
  transition, Result, ok, ◌>>=◌, or_fail, return_if, branch, on_null, Mutation,
}
use chemistry.Execution.Helpers.{
  Environment, replace_operation, replace_stream, find_stream, classify_recovery,
}
use chemistry.Execution.Recovery.{recover_alarm}

pub record RuntimeWakeResult : Type 0 where
  pub snapshot : RuntimeSnapshot
  pub recovery_alarm_at : Option ℕ
  pub recoverable_operation_id : Option String
  pub runnable_operation_id : Option String
  pub runnable_stream_id : Option String

-- The answer that hands out the head of the queue, over the state to commit.
abbrev pub runnable_result : RuntimeState → Option String → Option String → RuntimeWakeResult
runnable_result awakened operation_id stream_id = record {
  snapshot = runtime_snapshot awakened;
  recovery_alarm_at = none;
  recoverable_operation_id = none;
  runnable_operation_id = operation_id;
  runnable_stream_id = stream_id;
}

unfoldable pub runnable : RuntimeState → RuntimeState → Result (RuntimeState × RuntimeWakeResult)
runnable awakened state =
    on_null (head? state.queue) (ok (awakened, runnable_result awakened none none)) λ queued_id. do
      queued_operation ←
          or_fail (find_runtime_operation state queued_id)
            (transition "wake" "Queued operation record is missing")
      ok (awakened, runnable_result awakened (some queued_id) (some queued_operation.stream_id))

-- The answer that names an operation to recover.
abbrev pub recoverable : RuntimeState → Option ℕ → Option String → RuntimeWakeResult
recoverable state recovery_alarm_at operation_id = record {
  snapshot = runtime_snapshot state;
  recovery_alarm_at = recovery_alarm_at;
  recoverable_operation_id = operation_id;
  runnable_operation_id = none;
  runnable_stream_id = none;
}

-- No operation is active.
abbrev pub wake_idle : Environment → RuntimeState → ℕ → RuntimeState
wake_idle env state now = record state { boot_id = env.boot_id; last_wake_at = now }

abbrev lease_expired : Option ℕ → ℕ → Bool
lease_expired none now = true
lease_expired (some expires) now = leb expires now

-- This boot owns the active operation.
unfoldable pub owned_here : Environment → RuntimeOperationRecord → ℕ → Bool
owned_here env operation now =
    operation.owner_boot_id == some env.boot_id
    && not (lease_expired operation.lease_expires_at now)

abbrev pub disowned_operation :
    RuntimeOperationRecord → Bool → Option String → ℕ → RuntimeOperationRecord
disowned_operation operation is_parked terminal_reason now = record operation {
  status = if is_parked then RuntimeOperationStatus.parked else RuntimeOperationStatus.interrupted;
  owner_boot_id = none;
  lease_expires_at = none;
  updated_at = now;
  terminal_reason = terminal_reason;
}

abbrev pub interrupted_stream : RuntimeStreamRecord → ℕ → RuntimeStreamRecord
interrupted_stream stream now = record stream {
  status = RuntimeStreamStatus.interrupted;
  updated_at = now;
}

abbrev alarm_at : RuntimeOperationRecord → Option ℕ → Option RuntimeAlarmIntent
alarm_at operation none = none
alarm_at operation (some scheduled_at) = some (recover_alarm operation scheduled_at)

-- What both recovery branches of `wake` write.
unfoldable pub install_wake :
    Environment
    → RuntimeState
    → RuntimeOperationRecord
    → RuntimeOperationRecord
    → RuntimeStreamRecord
    → RecoveryIncident
    → ℕ
    → RuntimeState
install_wake env state operation disowned stream incident now = record state {
  boot_id = env.boot_id;
  operations = replace_operation state disowned;
  streams = replace_stream state (interrupted_stream stream now);
  recovery = some incident;
  alarm = alarm_at operation incident.scheduled_at;
  last_wake_at = now;
}

-- The open incident of the active operation goes on.
unfoldable pub resumed_incident : Environment → RecoveryIncident → ℕ → RecoveryIncident
resumed_incident env incident now =
    let is_parked = recovery_parked incident.status in
    record incident {
      status = if is_parked then RecoveryStatus.parked else RecoveryStatus.scheduled;
      scheduled_at =
          if is_parked
          then none
          else some (get_or_else incident.scheduled_at (now + env.limits.alarm_debounce_ms));
    }

wake_resume :
    Environment
    → RuntimeOperationRecord
    → RuntimeStreamRecord
    → RecoveryIncident
    → ℕ
    → Mutation RuntimeWakeResult
wake_resume env operation stream incident now state =
    let resumed_recovery = resumed_incident env incident now in
    let resumed =
      install_wake env state operation
        (disowned_operation operation (recovery_parked incident.status) operation.terminal_reason
          now)
        stream resumed_recovery now in
    ok (resumed, recoverable resumed resumed_recovery.scheduled_at (some operation.operation_id))

-- A fresh incident for an operation that lost its owner.
unfoldable pub detected_incident :
    Environment → RuntimeOperationRecord → RecoveryKind → String → ℕ → RecoveryIncident
detected_incident env operation kind incident_id now = record {
  incident_id = incident_id;
  operation_id = operation.operation_id;
  kind = kind;
  status = if kind_parked kind then RecoveryStatus.parked else RecoveryStatus.scheduled;
  attempt = 0;
  progress_baseline = operation.progress;
  recovery_work = operation.recovery_work;
  oom_strikes = 0;
  first_seen_at = now;
  last_progress_at = now;
  scheduled_at = if kind_parked kind then none else some (now + env.limits.alarm_debounce_ms);
  terminal_reason = none;
}

unfoldable pub wake_detect :
    Environment
    → RuntimeOperationRecord
    → RuntimeStreamRecord
    → String
    → ℕ
    → Mutation RuntimeWakeResult
unfolding runnable
wake_detect env operation stream incident_id now state =
    let kind = classify_recovery operation stream in
    let incident = detected_incident env operation kind incident_id now in
    let awakened =
      install_wake env state operation (disowned_operation operation (kind_parked kind) none now)
        stream incident now in
    branch (kind_terminal_noop kind)
      (runnable (record (wake_idle env state now) { active_operation_id = none }) state)
      (ok (awakened, recoverable awakened incident.scheduled_at (some operation.operation_id)))

-- `recovery.operationId === operation.operationId`, and the incident is not over.
abbrev pub incident_open : RecoveryIncident → RuntimeOperationRecord → Bool
incident_open incident operation =
    incident.operation_id == operation.operation_id && not (recovery_over incident.status)

wake_orphan :
    Environment
    → RuntimeOperationRecord
    → RuntimeStreamRecord
    → String
    → ℕ
    → Mutation RuntimeWakeResult
unfolding wake_detect wake_resume
wake_orphan env operation stream incident_id now state =
    on_null state.recovery (wake_detect env operation stream incident_id now state) λ incident.
      branch (incident_open incident operation)
        (wake_resume env operation stream incident now state)
        (wake_detect env operation stream incident_id now state)

abbrev incident_alarm : Option RecoveryIncident → Option ℕ
incident_alarm none = none
incident_alarm (some incident) = incident.scheduled_at

abbrev incident_operation : Option RecoveryIncident → Option String
incident_operation none = none
incident_operation (some incident) = some incident.operation_id

wake_active : Environment → String → String → ℕ → Mutation RuntimeWakeResult
unfolding wake_orphan
wake_active env active_id incident_id now state = do
  operation ←
      or_fail (find_runtime_operation state active_id)
        (transition "wake" "Active operation record is missing")
  stream ←
      or_fail (find_stream state operation.stream_id)
        (transition "wake" "Active stream record is missing")
  let same_boot = record state { last_wake_at = now }
  return_if (owned_here env operation now)
      (
        same_boot,
        recoverable same_boot (incident_alarm state.recovery) (incident_operation state.recovery),
      )
      (wake_orphan env operation stream incident_id now state)

unfoldable pub wake : Environment → String → ℕ → Mutation RuntimeWakeResult
unfolding wake_active runnable
wake env incident_id now state =
    on_null state.active_operation_id (runnable (wake_idle env state now) state)
      λ active_id. wake_active env active_id incident_id now state
