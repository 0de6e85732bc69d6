-- ===== src/Execution/Recovery.antt =====
-- `scheduleRecoveryAfterFailure` and `reconcileTranscriptTerminal` of durable-execution.ts.
use chemistry.Prelude.{
  ℕ, ◌+◌, String, Bool, true, false, Option, none, some, string_eq, nat_eq, if◌then◌else◌, any,
}
use chemistry.Protocol.{
  AgentStreamEvent, RuntimeOperationStatus, RuntimeCheckpoint, is_completed, at_streaming,
}
use chemistry.Runtime.State.{
  RuntimeState, RuntimeOperationRecord, RuntimeStreamRecord, RuntimeStreamStatus, RuntimePhase,
  PhaseStatus, RuntimePhaseEffect, RecoveryStatus, RecoveryIncident, RuntimeAlarmIntent,
  find_runtime_operation,
}
use chemistry.Runtime.Errors.{
  DurableExecutionError, transition, ok, ◌>>=◌, ◌>>◌, guard, or_fail, return_if, Mutation,
}
use chemistry.Execution.Helpers.{
  Environment, replace_operation, replace_stream, find_stream, upsert_phase_effect,
  classify_recovery, error_message, is_memory_limit_reset,
}
use chemistry.Execution.Turn.{holds_fence, fence_error, ledger_error, phase_entry}

-- `existing?.field ?? fallback`
abbrev kept {ℓ} : {A : Type ℓ} → Option RecoveryIncident → (RecoveryIncident → A) → A → A
kept none field fallback = fallback
kept (some existing) field fallback = field existing

unfoldable pub scheduled_incident :
    Environment
    → RuntimeState
    → RuntimeOperationRecord
    → RuntimeStreamRecord
    → String
    → DurableExecutionError
    → ℕ
    → RecoveryIncident
scheduled_incident env state current stream incident_id error now = record {
  incident_id = kept state.recovery (λ existing. existing.incident_id) incident_id;
  operation_id = current.operation_id;
  kind = classify_recovery current stream;
  status = RecoveryStatus.scheduled;
  attempt = kept state.recovery (λ existing. existing.attempt) current.attempt;
  progress_baseline = kept state.recovery (λ existing. existing.progress_baseline) current.progress;
  recovery_work = current.recovery_work;
  oom_strikes =
      kept state.recovery (λ existing. existing.oom_strikes) 0
      + (if is_memory_limit_reset env error then 1 else 0);
  first_seen_at = kept state.recovery (λ existing. existing.first_seen_at) now;
  last_progress_at = kept state.recovery (λ existing. existing.last_progress_at) now;
  scheduled_at = some (now + env.limits.alarm_debounce_ms);
  terminal_reason = none;
}

abbrev pub recover_alarm : RuntimeOperationRecord → ℕ → RuntimeAlarmIntent
recover_alarm operation scheduled_at = RuntimeAlarmIntent.recover (record {
  operation_id = operation.operation_id;
  generation = operation.generation;
  scheduled_at = scheduled_at;
})

abbrev pub interrupted_operation :
    RuntimeOperationRecord → Bool → String → ℕ → RuntimeOperationRecord
interrupted_operation current recovered_partial message now = record current {
  status = RuntimeOperationStatus.interrupted;
  checkpoint =
      if recovered_partial then RuntimeCheckpoint.partial_persisted else current.checkpoint;
  owner_boot_id = none;
  lease_expires_at = none;
  updated_at = now;
  terminal_reason = some message;
}

unfoldable pub install_schedule :
    Environment
    → RuntimeState
    → RuntimeOperationRecord
    → RuntimeStreamRecord
    → RuntimeOperationRecord
    → RecoveryIncident
    → DurableExecutionError
    → ℕ
    → RuntimeState
install_schedule env state current stream interrupted incident error now = record state {
  operations = replace_operation state interrupted;
  streams = replace_stream state (record stream {
    status = RuntimeStreamStatus.interrupted;
    updated_at = now;
    terminal_reason = some (error_message error);
  });
  active_operation_id = some current.operation_id;
  recovery = some incident;
  alarm = some (recover_alarm current (now + env.limits.alarm_debounce_ms));
}

-- The value is the time of the alarm.
unfoldable pub schedule_recovery_after_failure :
    Environment → RuntimeOperationRecord → DurableExecutionError → Bool → String → ℕ → Mutation ℕ
schedule_recovery_after_failure env operation error recovered_partial incident_id now state = do
  current ←
      or_fail (find_runtime_operation state operation.operation_id)
        (transition "schedule-recovery" "Operation or stream disappeared")
  stream ←
      or_fail (find_stream state operation.stream_id)
        (transition "schedule-recovery" "Operation or stream disappeared")
  guard (holds_fence current operation now)
      (fence_error current operation "Stale or lease-expired owner cannot schedule recovery")
  interrupted ←
      or_fail
        (upsert_phase_effect
          (interrupted_operation current recovered_partial (error_message error) now)
          (phase_entry current RuntimePhase.inference PhaseStatus.failed now)
          env.limits.max_phase_effects)
        (ledger_error env)
  ok (
    install_schedule env state current stream interrupted
        (scheduled_incident env state current stream incident_id error now) error now,
    now + env.limits.alarm_debounce_ms,
  )

-- A `terminal` entry under the generation that fences every earlier owner off.
abbrev pub terminal_entry : RuntimeOperationRecord → ℕ → ℕ → RuntimePhaseEffect
terminal_entry operation generation now =
    phase_entry (record operation { generation = generation }) RuntimePhase.terminal
      PhaseStatus.completed now

-- `{ status, checkpoint: "terminal", generation, owner: null, … }`
abbrev pub ended_operation :
    RuntimeOperationRecord → RuntimeOperationStatus → Option String → ℕ → ℕ → RuntimeOperationRecord
ended_operation operation status reason generation now = record operation {
  status = status;
  checkpoint = RuntimeCheckpoint.terminal;
  generation = generation;
  owner_boot_id = none;
  lease_expires_at = none;
  terminal_reason = reason;
  updated_at = now;
}

abbrev pub ended_stream :
    Environment
    → RuntimeStreamRecord
    → RuntimeStreamStatus
    → Option String
    → ℕ
    → RuntimeStreamRecord
ended_stream env stream status reason now = record stream {
  status = status;
  terminal_reason = reason;
  expires_at = some (now + env.limits.completed_stream_retention_ms);
  updated_at = now;
}

abbrev is_tool_call : AgentStreamEvent → Bool
is_tool_call (AgentStreamEvent.tool_call call_id name input) = true
is_tool_call _ = false

reconcile_stream :
    RuntimeOperationRecord → Option RuntimeStreamRecord → Option RuntimeOperationRecord
reconcile_stream operation none = none
reconcile_stream operation (some stream) =
    if any (λ item. is_tool_call item.event) stream.events then none else some operation

reconcile_operation : RuntimeState → Option RuntimeOperationRecord → Option RuntimeOperationRecord
unfolding reconcile_stream
reconcile_operation state none = none
reconcile_operation state (some operation) =
    if at_streaming operation.checkpoint
    then reconcile_stream operation (find_stream state operation.stream_id)
    else none

-- The tests of `reconcileTranscriptTerminal` on the record that it loads first: the operation whose
-- transcript it then asks the executor about.
unfoldable pub reconcile_candidate : RuntimeState → Option RuntimeOperationRecord
unfolding reconcile_operation
reconcile_candidate state = elim state.recovery [
  | none ↦ none
  | some incident ↦ reconcile_operation state (find_runtime_operation state incident.operation_id)
]

reconcile_live : Environment → RuntimeOperationRecord → RuntimeStreamRecord → ℕ → Mutation Bool
reconcile_live env current current_stream now state = do
  let generation = state.generation + 1
  completed_operation ←
      or_fail
        (upsert_phase_effect
          (ended_operation current RuntimeOperationStatus.completed none generation now)
          (terminal_entry current generation now) env.limits.max_phase_effects)
        (ledger_error env)
  ok (
    record state {
      generation = generation;
      operations = replace_operation state completed_operation;
      streams =
          replace_stream state
            (ended_stream env current_stream RuntimeStreamStatus.completed none now);
      active_operation_id = none;
      recovery = none;
      alarm = none;
    },
    true,
  )

-- The transaction of `reconcileTranscriptTerminal`, for the operation found before.
unfoldable pub reconcile_terminal : Environment → RuntimeOperationRecord → ℕ → Mutation Bool
unfolding reconcile_live
reconcile_terminal env operation now state = do
  current ←
      or_fail (find_runtime_operation state operation.operation_id)
        (transition "reconcile-terminal" "Operation or stream disappeared")
  current_stream ←
      or_fail (find_stream state operation.stream_id)
        (transition "reconcile-terminal" "Operation or stream disappeared")
  return_if (is_completed current.status) (state, true)
      (reconcile_live env current current_stream now state)
