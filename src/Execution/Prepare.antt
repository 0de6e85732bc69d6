-- ===== src/Execution/Prepare.antt =====
-- `prepareRecovery` of durable-execution.ts.
pub mod Outcomes
pub mod Attempts
pub mod Carried
use chemistry.Prelude.{
  ℕ, ◌+◌, String, Bool, true, false, ◌||◌, ◌&&◌, not, Option, none, some, ◌==◌, string_eq, nat_eq,
  if◌then◌else◌, leb, ltb,
}
use chemistry.Protocol.{RuntimeOperationStatus}
use chemistry.Runtime.State.{
  RuntimeState, RuntimeOperationRecord, RuntimeStreamRecord, RuntimeStreamStatus, RecoveryKind,
  RecoveryStatus, RecoveryIncident, RecoverAlarm, RuntimeAlarmIntent, find_runtime_operation,
  recovery_over, kind_parked, kind_unrecoverable,
}
use chemistry.Runtime.Errors.{transition, ok, ◌>>=◌, or_fail, return_if, branch, on_null, Mutation}
use chemistry.Execution.Helpers.{
  Environment, replace_operation, replace_stream, find_stream, upsert_phase_effect, partial_text,
}
use chemistry.Execution.Turn.{ledger_error}
use chemistry.Execution.Recovery.{terminal_entry, ended_operation, ended_stream}

pub data RecoveryPreparation : Type 0 where
  noop : Option RuntimeOperationRecord → RecoveryPreparation
  exhausted parked : RuntimeOperationRecord → RecoveryPreparation
  attempt : RuntimeOperationRecord → RecoveryKind → String → RecoveryPreparation

-- `now - lastProgressAt >= noProgressTimeoutMs`, with the subtraction moved across.
unfoldable pub no_progress_expired : Environment → RecoveryIncident → ℕ → Bool
no_progress_expired env incident now =
    leb (incident.last_progress_at + env.limits.no_progress_timeout_ms) now

unfoldable pub is_exhausted : Environment → RecoveryIncident → ℕ → Bool
unfolding no_progress_expired
is_exhausted env incident now =
    leb env.limits.max_recovery_attempts incident.attempt
    || leb env.limits.max_recovery_work incident.recovery_work
    || leb env.limits.max_oom_strikes incident.oom_strikes
    || no_progress_expired env incident now

unfoldable pub exhaustion_reason : Environment → RecoveryIncident → ℕ → String
unfolding no_progress_expired
exhaustion_reason env incident now =
    if kind_unrecoverable incident.kind
    then "unrecoverable-checkpoint"
    else if leb env.limits.max_recovery_work incident.recovery_work
    then "recovery-work-exhausted"
    else if leb env.limits.max_oom_strikes incident.oom_strikes
    then "recovery-oom-exhausted"
    else if no_progress_expired env incident now
    then "recovery-no-progress-timeout"
    else "recovery-attempts-exhausted"

unfoldable pub install_exhausted :
    Environment
    → RuntimeState
    → RecoveryIncident
    → RuntimeOperationRecord
    → RuntimeStreamRecord
    → String
    → ℕ
    → RuntimeState
install_exhausted env state incident exhausted_operation stream reason now = record state {
  generation = state.generation + 1;
  operations = replace_operation state exhausted_operation;
  streams =
      replace_stream state (ended_stream env stream RuntimeStreamStatus.failed (some reason) now);
  active_operation_id = none;
  recovery = some (record incident {
    status = RecoveryStatus.exhausted;
    terminal_reason = some reason;
    scheduled_at = none;
  });
  alarm = none;
  last_terminal_reason = some reason;
}

prepare_exhausted :
    Environment
    → RecoveryIncident
    → RuntimeOperationRecord
    → RuntimeStreamRecord
    → ℕ
    → Mutation RecoveryPreparation
prepare_exhausted env incident operation stream now state = do
  let reason = exhaustion_reason env incident now
  let generation = state.generation + 1
  exhausted_operation ←
      or_fail
        (upsert_phase_effect
          (ended_operation operation RuntimeOperationStatus.failed (some reason) generation now)
          (terminal_entry operation generation now) env.limits.max_phase_effects)
        (ledger_error env)
  ok (
    install_exhausted env state incident exhausted_operation stream reason now,
    exhausted exhausted_operation,
  )

unfoldable pub recovering_operation :
    Environment → RuntimeOperationRecord → ℕ → ℕ → RuntimeOperationRecord
recovering_operation env operation generation now = record operation {
  status = RuntimeOperationStatus.recovering;
  generation = generation;
  attempt = operation.attempt + 1;
  owner_boot_id = some env.boot_id;
  lease_expires_at = some (now + env.limits.lease_duration_ms);
  updated_at = now;
}

unfoldable pub install_attempt :
    Environment
    → RuntimeState
    → RecoveryIncident
    → RuntimeOperationRecord
    → RuntimeStreamRecord
    → ℕ
    → RuntimeState
install_attempt env state incident operation stream now =
    let generation = state.generation + 1 in
    record state {
      boot_id = env.boot_id;
      generation = generation;
      operations = replace_operation state (recovering_operation env operation generation now);
      streams =
          replace_stream state
            (record stream { status = RuntimeStreamStatus.opened; updated_at = now });
      active_operation_id = some operation.operation_id;
      recovery = some (record incident {
        status = RecoveryStatus.attempting;
        attempt = incident.attempt + 1;
        scheduled_at = none;
      });
      alarm = none;
    }

-- `incident.scheduledAt === alarm.scheduledAt`
abbrev scheduled_for : Option ℕ → ℕ → Bool
scheduled_for none at = false
scheduled_for (some scheduled_at) at = scheduled_at == at

abbrev pub alarm_matches : RecoverAlarm → RuntimeOperationRecord → RecoveryIncident → Bool
alarm_matches alarm operation incident =
    alarm.operation_id == operation.operation_id
    && alarm.generation == operation.generation
    && scheduled_for incident.scheduled_at alarm.scheduled_at

prepare_due :
    Environment
    → RecoveryIncident
    → RuntimeOperationRecord
    → RuntimeStreamRecord
    → RecoverAlarm
    → ℕ
    → Mutation RecoveryPreparation
prepare_due env incident operation stream alarm now state =
    return_if (not (alarm_matches alarm operation incident))
      (
        record state {
          recovery =
              some (record incident { status = RecoveryStatus.scheduled; scheduled_at = none });
          alarm = none;
        },
        noop (some operation),
      )
      (return_if (ltb now alarm.scheduled_at) (state, noop (some operation))
        (ok (
          install_attempt env state incident operation stream now,
          attempt (recovering_operation env operation (state.generation + 1) now) incident.kind
              (partial_text stream),
        )))

-- `alarm === null || alarm._tag !== "Recover"`
abbrev pub recover_intent : Option RuntimeAlarmIntent → Option RecoverAlarm
recover_intent none = none
recover_intent (some (RuntimeAlarmIntent.cleanup at)) = none
recover_intent (some (RuntimeAlarmIntent.recover alarm)) = some alarm

prepare_incident :
    Environment
    → RecoveryIncident
    → RuntimeOperationRecord
    → RuntimeStreamRecord
    → ℕ
    → Mutation RecoveryPreparation
unfolding prepare_exhausted prepare_due
prepare_incident env incident operation stream now state =
    return_if (recovery_over incident.status) (state, exhausted operation)
      (branch (is_exhausted env incident now || kind_unrecoverable incident.kind)
        (prepare_exhausted env incident operation stream now state)
        (return_if (kind_parked incident.kind) (state, parked operation)
          (on_null (recover_intent state.alarm) (ok (state, noop (some operation)))
            λ alarm. prepare_due env incident operation stream alarm now state)))

prepare_found : Environment → RecoveryIncident → ℕ → Mutation RecoveryPreparation
unfolding prepare_incident
prepare_found env incident now state = do
  operation ←
      or_fail (find_runtime_operation state incident.operation_id)
        (transition "recover" "Recovery operation is missing")
  stream ←
      or_fail (find_stream state operation.stream_id)
        (transition "recover" "Recovery stream is missing")
  prepare_incident env incident operation stream now state

unfoldable pub prepare_recovery : Environment → ℕ → Mutation RecoveryPreparation
unfolding prepare_found
prepare_recovery env now state =
    on_null state.recovery (ok (state, noop none)) λ incident. prepare_found env incident now state
