-- ===== src/Execution/Prepare/Attempts.antt =====
-- The outcomes of `prepareRecovery`.
use chemistry.Prelude.{
  ℕ, String, Option, none, ◌≡◌, refl, arith, ap, ◌⊎◌, inl, inr, string_eq, nat_eq,
}
use chemistry.Runtime.State.{RuntimeState, RuntimeOperationRecord, RecoveryKind}
use chemistry.Runtime.Errors.{
  ok, Ensures, Ensures-returns, returned, Ensures-or_fail, Ensures-return_if, Ensures-branch,
  Ensures-on_null,
}
use chemistry.Execution.Helpers.{Environment}
use chemistry.Execution.Lookup.{upsert_phase_effect-Upserts}
use chemistry.Execution.Prepare.{
  RecoveryPreparation, noop, exhausted, parked, attempt, prepare_recovery,
}
use chemistry.Execution.Prepare.Outcomes.{
  Attempts, WasOver, Exhausts, install_exhausted-Exhausts, install_attempt-Attempts,
}

-- What each answer leaves behind.
abbrev PreparesWell : Environment → RuntimeState → ℕ → RuntimeState × RecoveryPreparation → Type 0
PreparesWell env s now (t, attempt winner kind partial) = Attempts env s now t winner kind
PreparesWell env s now (t, parked operation) = t ≡ s
PreparesWell env s now (t, noop operation) =
    (t ≡ s)
    ⊎ ((t.alarm ≡ none)
        × (t.operations ≡ s.operations)
        × (t.streams ≡ s.streams)
        × (t.generation ≡ s.generation)
        × (t.active_operation_id ≡ s.active_operation_id))
PreparesWell env s now (t, exhausted operation) =
    ((t ≡ s) × WasOver s operation) ⊎ Exhausts env s now t operation

prepare_recovery-PreparesWell :
    (env : Environment) (s : RuntimeState) (now : ℕ)
    → Ensures (PreparesWell env s now) (prepare_recovery env now s)
unfolding prepare_recovery
prepare_recovery-PreparesWell env s now =
    Ensures-on_null (λ _. returned (inl refl))
      λ incident recorded. Ensures-or_fail _ λ operation found.
        Ensures-or_fail _ λ stream found_stream.
          Ensures-return_if _
            (λ over. inl (
              refl,
              record { incident = incident; recorded = recorded; over = over; found = found },
            ))
            λ ongoing.
              Ensures-branch
                (λ spent. Ensures-or_fail _ λ updated put.
                  let only = (upsert_phase_effect-Upserts _ _ _ put).only in
                  returned (
                    inr (
                      install_exhausted-Exhausts env s now incident operation stream recorded
                        ongoing found found_stream updated spent (ap (λ o. o.operation_id) only)
                        (ap (λ o. o.stream_id) only) (ap (λ o. o.status) only)
                        (ap (λ o. o.owner_boot_id) only) (ap (λ o. o.generation) only))))
                λ budget.
                  Ensures-return_if _ (λ is_parked. refl)
                    λ active.
                      Ensures-on_null (λ _. returned (inl refl))
                        λ alarm armed.
                          Ensures-return_if _ (λ stale. inr (refl, refl, refl, refl, refl))
                            λ matching.
                              Ensures-return_if _ (λ early. inl refl)
                                λ due. returned (
                                  install_attempt-Attempts env s now incident operation stream
                                    recorded ongoing found found_stream alarm budget armed matching
                                    (ground (arith, due)))

-- A recovery attempt is made only for a live incident with budget left, and only by the alarm that
-- was set for it: the alarm names the operation, its generation and the incident's time, and is due.
-- The attempt uses the alarm up and counts itself on the incident; the operation of the incident is
-- then active and stored as the one returned, which counts the attempt, and which this boot owns, with a
-- lease, under the next generation; its stream is stored as open.
pub prepare_recovery-Attempts :
    (env : Environment) (s t : RuntimeState) (now : ℕ) (winner : RuntimeOperationRecord)
    (kind : RecoveryKind) (partial : String)
    → prepare_recovery env now s ≡ ok (t, attempt winner kind partial)
    → Attempts env s now t winner kind
prepare_recovery-Attempts env s t now winner kind partial e =
    Ensures-returns {P = PreparesWell env s now} (prepare_recovery-PreparesWell env s now) e

-- When no attempt is made because recovery is exhausted, either the incident was over before, and
-- nothing changes; or its budget is spent or it cannot be recovered, and then its operation is stored as
-- failed, under the next generation and without an owner, its stream is stored as failed, no alarm is
-- left and the session is free. The operation returned is the stored one.
pub prepare_recovery_exhausted :
    (env : Environment) (s t : RuntimeState) (now : ℕ) (operation : RuntimeOperationRecord)
    → prepare_recovery env now s ≡ ok (t, exhausted operation)
    → ((t ≡ s) × WasOver s operation) ⊎ Exhausts env s now t operation
prepare_recovery_exhausted env s t now operation e =
    Ensures-returns {P = PreparesWell env s now} (prepare_recovery-PreparesWell env s now) e

-- An alarm that is early, for another generation or missing claims no work: the state is as it was,
-- or the stale alarm alone is used up.
prepare_recovery_noop :
    (env : Environment) (s t : RuntimeState) (now : ℕ) (operation : Option RuntimeOperationRecord)
    → prepare_recovery env now s ≡ ok (t, noop operation)
    → (t ≡ s)
      ⊎ ((t.alarm ≡ none)
          × (t.operations ≡ s.operations)
          × (t.streams ≡ s.streams)
          × (t.generation ≡ s.generation)
          × (t.active_operation_id ≡ s.active_operation_id))
prepare_recovery_noop env s t now operation e =
    Ensures-returns {P = PreparesWell env s now} (prepare_recovery-PreparesWell env s now) e
