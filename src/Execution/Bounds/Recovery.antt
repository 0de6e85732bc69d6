-- ===== src/Execution/Bounds/Recovery.antt =====
-- The recovery transitions, `wake` and `cleanup` under the limits of the record.
use chemistry.Prelude.{ℕ, ◌+◌, some, Option, String, Bool, ◌≡◌, arith, All, All-filter}
use chemistry.Runtime.State.{
  RuntimeState, RuntimeOperationRecord, RuntimeStreamRecord, RuntimeStreamStatus, RecoveryIncident,
}
use chemistry.Runtime.Errors.{
  DurableExecutionError, Ensures, returned, Ensures-or_fail, Ensures-guard, Ensures-return_if,
  Ensures-branch, Ensures-on_null,
}
use chemistry.Execution.Helpers.{Environment, find_stream, replace_operation, replace_stream}
use chemistry.Execution.Lookup.{
  replace_operation-All, replace_stream-All, upsert_phase_effect-Upserts,
}
use chemistry.Execution.Streams.{StreamIsValid, restamped-IsValid}
use chemistry.Execution.Recovery.{
  schedule_recovery_after_failure, install_schedule, reconcile_terminal,
}
use chemistry.Execution.Prepare.{
  prepare_recovery, install_exhausted, install_attempt, recovering_operation,
}
use chemistry.Execution.Wake.{wake, runnable, wake_detect, install_wake, disowned_operation}
use chemistry.Execution.Reading.{cleanup, next_streams}
use chemistry.Execution.Bounds.{Fits, InBounds, Bounded, Upserts-Fits, found_Fits, found-IsValid}

module _ (env : Environment) (state : RuntimeState) (h : InBounds env state) where
  replaced_streams :
      (id : String) (stream : RuntimeStreamRecord) (status : RuntimeStreamStatus) (updated_at : ℕ)
      (expires_at : Option ℕ) (reason : Option String)
      → find_stream state id ≡ some stream
      → All (StreamIsValid env) (
          replace_stream state (record stream {
            status = status;
            updated_at = updated_at;
            expires_at = expires_at;
            terminal_reason = reason;
          }))
  replaced_streams id stream status updated_at expires_at reason e =
      replace_stream-All (StreamIsValid env) state _
        (restamped-IsValid env stream status updated_at expires_at reason
          (found-IsValid env state h id e))
        h.streams

  replaced_operations :
      (updated : RuntimeOperationRecord)
      → Fits env.limits state.generation updated
      → All (Fits env.limits state.generation) (replace_operation state updated)
  replaced_operations updated fits =
      replace_operation-All (Fits env.limits state.generation) (Fits env.limits state.generation)
        state _ fits (λ other _ p. p) h.operations

  next_generation :
      (updated : RuntimeOperationRecord)
      → Fits env.limits (state.generation + 1) updated
      → All (Fits env.limits (state.generation + 1)) (replace_operation state updated)
  next_generation updated fits =
      replace_operation-All (Fits env.limits state.generation)
        (Fits env.limits (state.generation + 1)) state _ fits
        (λ other _ p. (omega (arith, p.0), p.1)) h.operations

  pub schedule_recovery-InBounds :
      (operation : RuntimeOperationRecord) (error : DurableExecutionError) (partial : Bool)
      (incident_id : String) (now : ℕ)
      → Ensures
          (Bounded env)
          (schedule_recovery_after_failure env operation error partial incident_id now state)
  unfolding schedule_recovery_after_failure install_schedule
  schedule_recovery-InBounds operation error partial incident_id now =
      Ensures-or_fail _ λ current found. Ensures-or_fail _ λ stream found_stream.
        Ensures-guard _ λ held. Ensures-or_fail _ λ updated put. returned (record {
          operations = replaced_operations updated (
              Upserts-Fits env.limits state.generation (upsert_phase_effect-Upserts _ _ _ put)
                (found_Fits env state h _ found));
          streams = replaced_streams _ stream _ _ _ _ found_stream;
          queue = h.queue;
        })

  pub reconcile_terminal-InBounds :
      (operation : RuntimeOperationRecord) (now : ℕ)
      → Ensures (Bounded env) (reconcile_terminal env operation now state)
  unfolding reconcile_terminal
  reconcile_terminal-InBounds operation now = Ensures-or_fail _ λ current found.
      Ensures-or_fail _ λ stream found_stream.
        Ensures-return_if _ (λ over. h)
          λ live. Ensures-or_fail _ λ updated put. returned (record {
            operations = next_generation updated (
                Upserts-Fits env.limits (state.generation + 1)
                  (upsert_phase_effect-Upserts _ _ _ put)
                  (omega arith, (found_Fits env state h _ found).1));
            streams = replaced_streams _ stream _ _ _ _ found_stream;
            queue = h.queue;
          })

  pub prepare_recovery-InBounds : (now : ℕ) → Ensures (Bounded env) (prepare_recovery env now state)
  unfolding prepare_recovery install_exhausted install_attempt recovering_operation
  prepare_recovery-InBounds now =
      Ensures-on_null (λ _. returned h)
        λ incident open_incident. Ensures-or_fail _ λ operation found.
          Ensures-or_fail _ λ stream found_stream.
            Ensures-return_if _ (λ over. h)
              λ live.
                Ensures-branch
                  (λ spent. Ensures-or_fail _ λ updated put. returned (record {
                    operations = next_generation updated (
                        Upserts-Fits env.limits (state.generation + 1)
                          (upsert_phase_effect-Upserts _ _ _ put)
                          (omega arith, (found_Fits env state h _ found).1));
                    streams = replaced_streams _ stream _ _ _ _ found_stream;
                    queue = h.queue;
                  }))
                  λ budget.
                    Ensures-return_if _ (λ is_parked. h)
                      λ active.
                        Ensures-on_null (λ _. returned h)
                          λ alarm armed.
                            Ensures-return_if _
                              (λ stale. record {
                                operations = h.operations;
                                streams = h.streams;
                                queue = h.queue;
                              })
                              λ matching.
                                Ensures-return_if _ (λ early. h)
                                  λ due. returned (record {
                                    operations =
                                        next_generation _
                                          (omega arith, (found_Fits env state h _ found).1);
                                    streams = replaced_streams _ stream _ _ _ _ found_stream;
                                    queue = h.queue;
                                  })

  rewoken :
      (boot_id : String) (active : Option String) (now : ℕ)
      → InBounds env
          (record state { boot_id = boot_id; active_operation_id = active; last_wake_at = now })
  rewoken boot_id active now = record {
    operations = h.operations;
    streams = h.streams;
    queue = h.queue;
  }

  installed :
      (operation : RuntimeOperationRecord) (is_parked : Bool) (reason : Option String)
      (stream : RuntimeStreamRecord) (incident : RecoveryIncident) (now : ℕ)
      → Fits env.limits state.generation operation
      → find_stream state operation.stream_id ≡ some stream
      → InBounds env (
          install_wake env state operation
            (disowned_operation operation is_parked reason now)
            stream
            incident
            now)
  unfolding install_wake
  installed operation is_parked reason stream incident now fits found_stream = record {
    operations = replaced_operations _ fits;
    streams = replaced_streams _ stream _ _ _ _ found_stream;
    queue = h.queue;
  }

  runnable-InBounds :
      (awakened : RuntimeState)
      → InBounds env awakened
      → Ensures (Bounded env) (runnable awakened state)
  unfolding runnable
  runnable-InBounds awakened k =
      Ensures-on_null (λ _. returned k) λ queued _. Ensures-or_fail _ λ operation _. returned k

  wake_detect-InBounds :
      (operation : RuntimeOperationRecord) (stream : RuntimeStreamRecord) (incident_id : String)
      (now : ℕ)
      → Fits env.limits state.generation operation
      → find_stream state operation.stream_id ≡ some stream
      → Ensures (Bounded env) (wake_detect env operation stream incident_id now state)
  unfolding wake_detect
  wake_detect-InBounds operation stream incident_id now fits found_stream =
      Ensures-branch (λ over. runnable-InBounds _ (rewoken _ _ _))
        λ live. returned (installed operation _ _ stream _ now fits found_stream)

  pub wake-InBounds :
      (incident_id : String) (now : ℕ) → Ensures (Bounded env) (wake env incident_id now state)
  unfolding wake
  wake-InBounds incident_id now =
      Ensures-on_null (λ idle. runnable-InBounds _ (rewoken _ _ _))
        λ active_id active. Ensures-or_fail _ λ operation found.
          Ensures-or_fail _ λ stream found_stream.
            Ensures-return_if _ (λ ours. rewoken _ _ _)
              λ orphan.
                Ensures-on_null
                  (λ _.
                    wake_detect-InBounds operation stream incident_id now
                      (found_Fits env state h _ found) found_stream)
                  λ incident recorded.
                    Ensures-branch
                      (λ is_open. returned (
                        installed operation _ _ stream _ now (found_Fits env state h _ found)
                          found_stream))
                      λ closed.
                        wake_detect-InBounds operation stream incident_id now
                          (found_Fits env state h _ found) found_stream

  pub cleanup-InBounds : (now : ℕ) → Ensures (Bounded env) (cleanup env now state)
  unfolding cleanup next_streams
  cleanup-InBounds now = returned (record {
    operations = All-filter _ _ state.operations h.operations;
    streams = All-filter _ _ state.streams h.streams;
    queue = h.queue;
  })
