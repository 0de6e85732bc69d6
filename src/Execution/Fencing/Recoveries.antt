-- ===== src/Execution/Fencing/Recoveries.antt =====
-- The recovery transitions, `wake` and `cleanup`, from a record for which a token is stale.
use chemistry.Prelude.{ℕ, String, Bool, Option, refl, arith, inl, inr, All-filter, string_eq}
use chemistry.Runtime.State.{
  RuntimeState, RuntimeOperationRecord, RuntimeStreamRecord, RecoveryIncident,
}
use chemistry.Runtime.Errors.{
  DurableExecutionError, Ensures, returned, Ensures-or_fail, Ensures-guard, Ensures-return_if,
  Ensures-branch, Ensures-on_null,
}
use chemistry.Execution.Helpers.{Environment}
use chemistry.Execution.Lookup.{upsert_phase_effect-Upserts}
use chemistry.Execution.Recovery.{
  schedule_recovery_after_failure, install_schedule, reconcile_terminal,
}
use chemistry.Execution.Prepare.{
  prepare_recovery, install_exhausted, install_attempt, recovering_operation,
}
use chemistry.Execution.Wake.{wake, runnable, wake_detect, install_wake, disowned_operation}
use chemistry.Execution.Reading.{cleanup}
use chemistry.Execution.Fencing.{IsStale, Stale, replaced, upserted}

module _ (env : Environment) (token : RuntimeOperationRecord) (state : RuntimeState)
    (h : IsStale token state) where
  pub schedule-Stale :
      (operation : RuntimeOperationRecord) (error : DurableExecutionError) (partial : Bool)
      (incident_id : String) (now : ℕ)
      → Ensures
          (Stale token)
          (schedule_recovery_after_failure env operation error partial incident_id now state)
  unfolding schedule_recovery_after_failure install_schedule
  schedule-Stale operation error partial incident_id now = Ensures-or_fail _ λ current found.
      Ensures-or_fail _ λ stream found_stream. Ensures-guard _ λ held.
        Ensures-or_fail _ λ updated put. returned (record {
          issued = h.issued;
          lost =
              replaced token state h _
                (upserted token state h (upsert_phase_effect-Upserts _ _ _ put) λ _. inl refl);
        })

  pub reconcile-Stale :
      (operation : RuntimeOperationRecord) (now : ℕ)
      → Ensures (Stale token) (reconcile_terminal env operation now state)
  unfolding reconcile_terminal
  reconcile-Stale operation now = Ensures-or_fail _ λ current found.
      Ensures-or_fail _ λ stream found_stream.
        Ensures-return_if _ (λ over. h)
          λ live. Ensures-or_fail _ λ updated put. returned (record {
            issued = omega (arith, h.issued);
            lost =
                replaced token state h _
                  (upserted token state h (upsert_phase_effect-Upserts _ _ _ put) λ _. inl refl);
          })

  pub prepare-Stale : (now : ℕ) → Ensures (Stale token) (prepare_recovery env now state)
  unfolding prepare_recovery install_exhausted install_attempt recovering_operation
  prepare-Stale now =
      Ensures-on_null (λ _. returned h)
        λ incident open_incident. Ensures-or_fail _ λ operation found.
          Ensures-or_fail _ λ stream found_stream.
            Ensures-return_if _ (λ over. h)
              λ live.
                Ensures-branch
                  (λ spent. Ensures-or_fail _ λ updated put. returned (record {
                    issued = omega (arith, h.issued);
                    lost = replaced token state h _ (
                        upserted token state h (upsert_phase_effect-Upserts _ _ _ put)
                          λ _. inl refl);
                  }))
                  λ budget.
                    Ensures-return_if _ (λ is_parked. h)
                      λ active.
                        Ensures-on_null (λ _. returned h)
                          λ alarm armed.
                            Ensures-return_if _
                              (λ stale. record { issued = h.issued; lost = h.lost })
                              λ matching.
                                Ensures-return_if _ (λ early. h)
                                  λ due. returned (record {
                                    issued = omega (arith, h.issued);
                                    lost =
                                        replaced token state h _ λ _. inr (omega (arith, h.issued));
                                  })

  rewoken :
      (boot_id : String) (active : Option String) (now : ℕ)
      → IsStale token
          (record state { boot_id = boot_id; active_operation_id = active; last_wake_at = now })
  rewoken boot_id active now = record { issued = h.issued; lost = h.lost }

  installed :
      (operation : RuntimeOperationRecord) (is_parked : Bool) (reason : Option String)
      (stream : RuntimeStreamRecord) (incident : RecoveryIncident) (now : ℕ)
      → IsStale token (
          install_wake env state operation
            (disowned_operation operation is_parked reason now)
            stream
            incident
            now)
  unfolding install_wake
  installed operation is_parked reason stream incident now = record {
    issued = h.issued;
    lost = replaced token state h _ λ _. inl refl;
  }

  runnable-Stale :
      (awakened : RuntimeState)
      → IsStale token awakened
      → Ensures (Stale token) (runnable awakened state)
  unfolding runnable
  runnable-Stale awakened k =
      Ensures-on_null (λ _. returned k) λ queued _. Ensures-or_fail _ λ operation _. returned k

  wake_detect-Stale :
      (operation : RuntimeOperationRecord) (stream : RuntimeStreamRecord) (incident_id : String)
      (now : ℕ)
      → Ensures (Stale token) (wake_detect env operation stream incident_id now state)
  unfolding wake_detect
  wake_detect-Stale operation stream incident_id now =
      Ensures-branch (λ over. runnable-Stale _ (rewoken _ _ _))
        λ live. returned (installed operation _ _ stream _ now)

  pub wake-Stale :
      (incident_id : String) (now : ℕ) → Ensures (Stale token) (wake env incident_id now state)
  unfolding wake
  wake-Stale incident_id now =
      Ensures-on_null (λ idle. runnable-Stale _ (rewoken _ _ _))
        λ active_id active. Ensures-or_fail _ λ operation found.
          Ensures-or_fail _ λ stream found_stream.
            Ensures-return_if _ (λ ours. rewoken _ _ _)
              λ orphan.
                Ensures-on_null (λ _. wake_detect-Stale operation stream incident_id now)
                  λ incident recorded.
                    Ensures-branch (λ is_open. returned (installed operation _ _ stream _ now))
                      λ closed. wake_detect-Stale operation stream incident_id now

  pub cleanup-Stale : (now : ℕ) → Ensures (Stale token) (cleanup env now state)
  unfolding cleanup
  cleanup-Stale now =
      returned (record { issued = h.issued; lost = All-filter _ _ state.operations h.lost })
