-- ===== src/Execution/Prepare/Carried.antt =====
-- `scheduleRecoveryAfterFailure` over an incident that the record holds, then `prepareRecovery`.
use chemistry.Prelude.{ℕ, ◌≤◌, String, Bool, some, ◌≡◌, refl, arith, ◌∙◌, sym}
use chemistry.Runtime.State.{RuntimeState, RuntimeOperationRecord, RecoveryKind, RecoveryIncident}
use chemistry.Runtime.Errors.{
  DurableExecutionError, ok, Ensures, Ensures-returns, returned, Ensures-or_fail, Ensures-guard,
}
use chemistry.Execution.Helpers.{Environment}
use chemistry.Execution.Lookup.{operation_id-find}
use chemistry.Execution.Recovery.{
  schedule_recovery_after_failure, install_schedule, scheduled_incident,
}
use chemistry.Execution.Prepare.{prepare_recovery, attempt}
use chemistry.Execution.Prepare.Outcomes.{Attempts}
use chemistry.Execution.Prepare.Attempts.{prepare_recovery-Attempts}

-- The recorded incident has used up as many attempts as another.
pub record Carries (old : RecoveryIncident) (id : String) (t : RuntimeState) : Type 0 where
  pub incident : RecoveryIncident
  pub recorded : t.recovery ≡ some incident
  pub attempts : incident.attempt ≡ old.attempt
  pub operation_id : incident.operation_id ≡ id

schedule-Carries :
    (env : Environment) (s : RuntimeState) (operation : RuntimeOperationRecord)
    (error : DurableExecutionError) (partial : Bool) (incident_id : String) (now : ℕ)
    (old : RecoveryIncident)
    → s.recovery ≡ some old
    → Ensures
        (λ pair. Carries old operation.operation_id pair.0)
        (schedule_recovery_after_failure env operation error partial incident_id now s)
unfolding schedule_recovery_after_failure install_schedule scheduled_incident
schedule-Carries env s operation error partial incident_id now old held =
    Ensures-or_fail _ λ current found. Ensures-or_fail _ λ stream found_stream.
      Ensures-guard _ λ fenced. Ensures-or_fail _ λ updated put. returned (record {
        incident = _;
        recorded = refl;
        attempts = ground (arith, held);
        operation_id = operation_id-find s operation.operation_id current found;
      })

-- When a failed turn schedules its recovery while the record still holds an incident without
-- attempts left, of whatever operation, the turn is never given a recovery attempt on that schedule.
pub schedule_without_budget :
    (env : Environment) (s t : RuntimeState) (operation : RuntimeOperationRecord)
    (error : DurableExecutionError) (partial : Bool) (incident_id : String) (now at : ℕ)
    (old : RecoveryIncident)
    → s.recovery ≡ some old
    → env.limits.max_recovery_attempts ≤ old.attempt
    → schedule_recovery_after_failure env operation error partial incident_id now s ≡ ok (t, at)
    → (u : RuntimeState) (later : ℕ) (winner : RuntimeOperationRecord) (kind : RecoveryKind)
      (text : String)
    → ¬ (prepare_recovery env later t ≡ ok (u, attempt winner kind text))
schedule_without_budget env s t operation error partial incident_id now at old held spent done u
      later winner kind text made =
    let carried =
      Ensures-returns {P = λ pair. Carries old operation.operation_id pair.0}
        (schedule-Carries env s operation error partial incident_id now old held) done in
    let tried = prepare_recovery-Attempts env t u later winner kind text made in
    absurd (impossible carried tried)
  where
    impossible : Carries old operation.operation_id t → Attempts env t later u winner kind → ⊥
    impossible c a =
        ground (arith, c.attempts, a.budget.attempts, sym c.recorded ∙ a.recorded, spent)
