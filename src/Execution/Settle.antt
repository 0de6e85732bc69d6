-- ===== src/Execution/Settle.antt =====
-- `settle`, `beginPhaseEffect` and `completePhaseEffect` of durable-execution.ts.
pub mod Convergence
pub mod Effects
use chemistry.Prelude.{
  ℕ, ◌+◌, ℤ, String, Bool, true, false, ◌||◌, Option, none, some, ◌==◌, string_eq, if◌then◌else◌,
  find,
}
use chemistry.Protocol.{
  RuntimeOperationStatus, RuntimeCheckpoint, TerminalStatus, is_completed, is_failed,
}
use chemistry.Runtime.State.{
  RuntimeState, RuntimeOperationRecord, RuntimeStreamRecord, RuntimeStreamStatus, RuntimePhase,
  PhaseStatus, RuntimePhaseEffect, find_runtime_operation, stream_completed, stream_failed,
  phase_completed,
}
use chemistry.Runtime.Errors.{transition, ok, ◌>>=◌, ◌>>◌, guard, or_fail, return_if, Mutation}
use chemistry.Execution.Helpers.{
  Environment, replace_operation, replace_stream, find_stream, upsert_phase_effect,
}
use chemistry.Execution.Turn.{holds_fence, fence_error, ledger_error, phase_entry, put_operation}

pub record RuntimeTerminal : Type 0 where
  pub stream_id : String
  pub operation_id : String
  pub status : TerminalStatus
  pub sequence : ℤ
  pub generation : ℕ
  pub attempt : ℕ
  pub recovery_work : ℕ
  pub reason : Option String
  pub cleanup_at : Option ℕ

-- How a turn may end.
pub data Outcome : Type 0 where
  completed failed : Outcome

abbrev pub outcome_status : Outcome → RuntimeOperationStatus
outcome_status Outcome.completed = RuntimeOperationStatus.completed
outcome_status Outcome.failed = RuntimeOperationStatus.failed

abbrev pub outcome_stream : Outcome → RuntimeStreamStatus
outcome_stream Outcome.completed = RuntimeStreamStatus.completed
outcome_stream Outcome.failed = RuntimeStreamStatus.failed

abbrev pub outcome_terminal : Outcome → TerminalStatus
outcome_terminal Outcome.completed = TerminalStatus.completed
outcome_terminal Outcome.failed = TerminalStatus.failed

abbrev pub outcome_phase : Outcome → PhaseStatus
outcome_phase Outcome.completed = PhaseStatus.completed
outcome_phase Outcome.failed = PhaseStatus.failed

abbrev pub is_settled : RuntimeOperationRecord → RuntimeStreamRecord → Bool
is_settled current stream =
    is_completed current.status
    || is_failed current.status
    || stream_completed stream.status
    || stream_failed stream.status

-- The answer for a turn that is over already.
abbrev pub settled_terminal : RuntimeOperationRecord → RuntimeStreamRecord → RuntimeTerminal
settled_terminal current stream = record {
  stream_id = stream.stream_id;
  operation_id = current.operation_id;
  status =
      if stream_completed stream.status then TerminalStatus.completed else TerminalStatus.failed;
  sequence = stream.latest_sequence;
  generation = current.generation;
  attempt = current.attempt;
  recovery_work = current.recovery_work;
  reason = stream.terminal_reason;
  cleanup_at = stream.expires_at;
}

abbrev pub settled_operation :
    RuntimeOperationRecord → Outcome → Option String → ℕ → RuntimeOperationRecord
settled_operation current outcome reason now = record current {
  status = outcome_status outcome;
  checkpoint = RuntimeCheckpoint.terminal;
  lease_expires_at = none;
  owner_boot_id = none;
  terminal_reason = reason;
  updated_at = now;
}

abbrev pub settled_stream :
    Environment → RuntimeStreamRecord → Outcome → Option String → ℕ → RuntimeStreamRecord
settled_stream env stream outcome reason now = record stream {
  status = outcome_stream outcome;
  expires_at = some (now + env.limits.completed_stream_retention_ms);
  terminal_reason = reason;
  updated_at = now;
}

unfoldable pub install_settle :
    Environment
    → RuntimeState
    → RuntimeOperationRecord
    → RuntimeStreamRecord
    → Outcome
    → Option String
    → ℕ
    → RuntimeState
install_settle env state updated stream outcome reason now = record state {
  operations = replace_operation state updated;
  streams = replace_stream state (settled_stream env stream outcome reason now);
  active_operation_id = none;
  recovery = none;
  alarm = none;
  last_terminal_reason = reason;
}

settle_live :
    Environment
    → RuntimeOperationRecord
    → RuntimeOperationRecord
    → RuntimeStreamRecord
    → Outcome
    → Option String
    → ℕ
    → Mutation RuntimeTerminal
settle_live env operation current stream outcome reason now state = do
  guard (holds_fence current operation now)
      (fence_error current operation "Stale or lease-expired owner cannot terminalize an operation")
  inference_completed ←
      or_fail
        (upsert_phase_effect (settled_operation current outcome reason now)
          (phase_entry current RuntimePhase.inference (outcome_phase outcome) now)
          env.limits.max_phase_effects)
        (ledger_error env)
  updated ←
      or_fail
        (upsert_phase_effect inference_completed
          (phase_entry current RuntimePhase.terminal PhaseStatus.completed now)
          env.limits.max_phase_effects)
        (ledger_error env)
  ok (
    install_settle env state updated stream outcome reason now,
    record {
      stream_id = stream.stream_id;
      operation_id = current.operation_id;
      status = outcome_terminal outcome;
      sequence = stream.latest_sequence;
      generation = updated.generation;
      attempt = updated.attempt;
      recovery_work = updated.recovery_work;
      reason = reason;
      cleanup_at = some (now + env.limits.completed_stream_retention_ms);
    },
  )

unfoldable pub settle :
    Environment → RuntimeOperationRecord → Outcome → Option String → ℕ → Mutation RuntimeTerminal
unfolding settle_live
settle env operation outcome reason now state = do
  current ←
      or_fail (find_runtime_operation state operation.operation_id)
        (transition "settle" "Operation or stream disappeared")
  stream ←
      or_fail (find_stream state operation.stream_id)
        (transition "settle" "Operation or stream disappeared")
  return_if (is_settled current stream) (state, settled_terminal current stream)
      (settle_live env operation current stream outcome reason now state)

-- The ledger entry that an at-least-once effect writes before and after it runs.
abbrev pub effect_entry :
    RuntimeOperationRecord → RuntimePhase → String → PhaseStatus → ℕ → RuntimePhaseEffect
effect_entry current phase effect_key status now = record {
  effect_key = effect_key;
  phase = phase;
  status = status;
  generation = current.generation;
  attempt = current.attempt;
  updated_at = now;
}

-- `existing?.status === "completed"`
unfoldable pub effect_done : RuntimeOperationRecord → String → Bool
effect_done current effect_key =
    elim (find (λ entry. entry.effect_key == effect_key) current.effect_ledger) [
      | none ↦ false
      | some entry ↦ phase_completed entry.status
    ]

begin_pending : Environment → RuntimeOperationRecord → RuntimePhase → String → ℕ → Mutation Bool
begin_pending env current phase effect_key now state = do
  updated ←
      or_fail
        (upsert_phase_effect current (effect_entry current phase effect_key PhaseStatus.pending now)
          env.limits.max_phase_effects)
        (ledger_error env)
  ok (put_operation state updated, true)

unfoldable pub begin_phase_effect :
    Environment → RuntimeOperationRecord → RuntimePhase → String → ℕ → Mutation Bool
unfolding begin_pending
begin_phase_effect env operation phase effect_key now state = do
  current ←
      or_fail (find_runtime_operation state operation.operation_id)
        (transition "begin-phase-effect" "Operation disappeared")
  guard (holds_fence current operation now)
      (fence_error current operation "Stale or lease-expired owner cannot begin a phase effect")
  return_if (effect_done current effect_key) (state, false)
      (begin_pending env current phase effect_key now state)

unfoldable pub complete_phase_effect :
    Environment → RuntimeOperationRecord → RuntimePhase → String → ℕ → Mutation Unit
complete_phase_effect env operation phase effect_key now state = do
  current ←
      or_fail (find_runtime_operation state operation.operation_id)
        (transition "complete-phase-effect" "Operation disappeared")
  guard (holds_fence current operation now)
      (fence_error current operation "Stale or lease-expired owner cannot complete a phase effect")
  updated ←
      or_fail
        (upsert_phase_effect current
          (effect_entry current phase effect_key PhaseStatus.completed now)
          env.limits.max_phase_effects)
        (ledger_error env)
  ok (put_operation state updated, tt)
