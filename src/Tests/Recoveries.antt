-- ===== src/Tests/Recoveries.antt =====
-- A failed turn, its alarm and its recovery.
use chemistry.Prelude.{◌≤◌, ◌+ℤ◌, true, some, [], ◌∷◌, ◌++◌, ◌≡◌, refl, arith, ◌⊎◌}
use chemistry.Prelude.Text.{decimal}
use chemistry.Protocol.{RuntimeOperationStatus}
use chemistry.Runtime.State.{
  RuntimeState, RuntimeOperationRecord, RecoveryKind, initial_runtime_state, find_runtime_operation,
}
use chemistry.Runtime.Errors.{ok, ◌>>=◌}
use chemistry.Execution.Helpers.{
  replace_operation, replace_stream, find_stream, phase_effect_key, owns_unexpired_lease,
  upsert_phase_effect, is_memory_limit_reset, classify_recovery, error_message, partial_text,
}
use chemistry.Execution.Admission.{
  enqueue, admitted_operation, admitted_stream, install_claim, claimed_operation,
}
use chemistry.Execution.Turn.{
  holds_fence, next_event, install_append, appended_operation, appended_stream,
}
use chemistry.Execution.Recovery.{
  schedule_recovery_after_failure, scheduled_incident, install_schedule,
}
use chemistry.Execution.Prepare.{
  exhausted, attempt, prepare_recovery, install_attempt, recovering_operation, install_exhausted,
  is_exhausted, exhaustion_reason,
}
use chemistry.Execution.Recovery.{terminal_entry, ended_operation}
use chemistry.Execution.Prepare.Outcomes.{WasOver, Exhausts, Attempts}
use chemistry.Execution.Prepare.Attempts.{prepare_recovery-Attempts, prepare_recovery_exhausted}
use chemistry.Execution.Prepare.Carried.{schedule_without_budget}
use chemistry.Execution.Steps.{Reach}
use chemistry.Execution.Fencing.Rejected.{FencedOff, prepare_recovery-FencedOff}
use chemistry.Tests.Data.{
  first_boot, second_boot, streaming_operation, failure, failed_operation, failed_stream,
  failed_state_of, failed_state, incident_of, spent_incident, spent_state, streaming_state,
}

abbrev recovered_operation : RuntimeOperationRecord
recovered_operation = recovering_operation second_boot failed_operation 2 4_000

abbrev recovered_state : RuntimeState
recovered_state =
    install_attempt second_boot failed_state (incident_of streaming_state) failed_operation
      failed_stream 4_000

attempt_run :
    prepare_recovery second_boot 4_000 failed_state
    ≡ ok (recovered_state, attempt recovered_operation RecoveryKind.partial_continuation "It")
unfolding prepare_recovery ◌>>=◌ initial_runtime_state find_runtime_operation find_stream enqueue
    admitted_operation admitted_stream install_claim claimed_operation install_append
    appended_operation appended_stream replace_operation replace_stream install_schedule
    scheduled_incident is_exhausted is_memory_limit_reset classify_recovery partial_text next_event
    ◌+ℤ◌ error_message
attempt_run = refl

prepare_recovery-Attempts_example :
    Attempts second_boot failed_state 4_000 recovered_state recovered_operation
      RecoveryKind.partial_continuation
prepare_recovery-Attempts_example =
    prepare_recovery-Attempts second_boot failed_state recovered_state 4_000 recovered_operation
      RecoveryKind.partial_continuation "It" attempt_run

streaming_issued : streaming_operation.generation ≤ failed_state.generation
unfolding install_schedule install_append install_claim appended_operation claimed_operation enqueue
    initial_runtime_state
streaming_issued = omega arith

same_operation : recovered_operation.operation_id ≡ streaming_operation.operation_id
unfolding recovering_operation
same_operation = refl

prepare_recovery-FencedOff_example : FencedOff second_boot streaming_operation recovered_state
prepare_recovery-FencedOff_example =
    prepare_recovery-FencedOff second_boot streaming_operation failed_state recovered_state
      recovered_state 4_000 streaming_issued Reach.here recovered_operation
      RecoveryKind.partial_continuation "It" same_operation attempt_run

-- Nothing has progressed for too long.
abbrev abandoned_operation : RuntimeOperationRecord
abandoned_operation =
    record (ended_operation failed_operation RuntimeOperationStatus.failed
      (some "recovery-no-progress-timeout") 2 200_000) {
        effect_ledger =
            failed_operation.effect_ledger ++ terminal_entry failed_operation 2 200_000 ∷ [];
      }

abbrev abandoned_state : RuntimeState
abandoned_state =
    install_exhausted second_boot failed_state (incident_of streaming_state) abandoned_operation
      failed_stream "recovery-no-progress-timeout" 200_000

exhausted_run :
    prepare_recovery second_boot 200_000 failed_state
    ≡ ok (abandoned_state, exhausted abandoned_operation)
unfolding prepare_recovery ◌>>=◌ initial_runtime_state find_runtime_operation find_stream enqueue
    admitted_operation admitted_stream install_claim claimed_operation install_append
    appended_operation appended_stream replace_operation replace_stream install_schedule
    scheduled_incident is_exhausted exhaustion_reason is_memory_limit_reset classify_recovery
    upsert_phase_effect phase_effect_key decimal next_event ◌+ℤ◌ install_exhausted
exhausted_run = refl

prepare_recovery_exhausted_example :
    ((abandoned_state ≡ failed_state) × WasOver failed_state abandoned_operation)
    ⊎ Exhausts second_boot failed_state 200_000 abandoned_state abandoned_operation
prepare_recovery_exhausted_example =
    prepare_recovery_exhausted second_boot failed_state abandoned_state 200_000 abandoned_operation
      exhausted_run

schedule_run :
    schedule_recovery_after_failure first_boot streaming_operation failure true "incident-1" 2_000
      spent_state
    ≡ ok (failed_state_of spent_state, 3_000)
unfolding schedule_recovery_after_failure ◌>>=◌ initial_runtime_state find_runtime_operation
    find_stream enqueue admitted_operation admitted_stream install_claim claimed_operation
    install_append appended_operation appended_stream replace_operation replace_stream
    install_schedule scheduled_incident classify_recovery upsert_phase_effect phase_effect_key
    decimal next_event ◌+ℤ◌ holds_fence owns_unexpired_lease error_message
schedule_run = refl

schedule_without_budget_example : ¬ (
    prepare_recovery first_boot 4_000 (failed_state_of spent_state)
    ≡ ok (recovered_state, attempt recovered_operation RecoveryKind.partial_continuation "It"))
schedule_without_budget_example =
    schedule_without_budget first_boot spent_state (failed_state_of spent_state) streaming_operation
      failure true "incident-1" 2_000 3_000 spent_incident refl (omega arith) schedule_run
      recovered_state 4_000 recovered_operation RecoveryKind.partial_continuation "It"
