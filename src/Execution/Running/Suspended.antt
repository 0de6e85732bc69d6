-- ===== src/Execution/Running/Suspended.antt =====
-- A turn whose model breaks off, up to the recovery that it schedules.
use chemistry.Prelude.{
  ℕ, ◌+◌, ℤ, pos, ltb_ℤ, ◌≤◌, ◌<◌, String, Bool, false, some, List, [], ◌∷◌, ap, ◌≡◌, refl, subst,
  ◌∙◌, arith, length, Bool-cases, inl, inr, eq_iff, string_eq, nat_eq,
}
use chemistry.Protocol.{DurableStreamEvent}
use chemistry.Runtime.State.{
  RuntimeState, RuntimeOperationRecord, RuntimeStreamRecord, RuntimeStreamStatus, RuntimePhase,
  PhaseStatus, RecoveryKind, find_runtime_operation,
}
use chemistry.Runtime.Errors.{DurableExecutionError, Result, ok, ◌>>=◌}
use chemistry.Execution.Helpers.{Environment, find_stream, classify_recovery, error_message}
use chemistry.Execution.Lookup.{operation_id-find, stream_id-find}
use chemistry.Execution.Turn.{phase_entry}
use chemistry.Execution.Settle.{is_settled}
use chemistry.Execution.Settle.Convergence.{find-put_operation, find-put_stream}
use chemistry.Execution.Recovery.{
  interrupted_operation, scheduled_incident, install_schedule, schedule_recovery_after_failure,
}
use chemistry.Execution.Prepare.{is_exhausted, no_progress_expired}
use chemistry.Execution.Running.Ready.{Ready, Unbroken, IsStreaming, bytes_of, Fits, fence_held}
use chemistry.Execution.Running.Entered.{upsert_phase_effect-Enters}
use chemistry.Execution.Running.Due.{Due, Resumes, retries, continues}

-- A streaming turn can be retried or continued.
classify_recovery-Resumes :
    (current : RuntimeOperationRecord) (stream : RuntimeStreamRecord)
    → IsStreaming current
    → is_settled current stream ≡ false
    → Resumes (classify_recovery current stream)
unfolding classify_recovery
classify_recovery-Resumes current stream streaming live =
    elim (Bool-cases (ltb_ℤ stream.latest_sequence (pos 0))) [
      | inl before ↦
          let same : classify_recovery current stream ≡ RecoveryKind.pre_stream_retry =
            ground (arith, before, streaming.0, streaming.1, live) in
          rw same retries
      | inr after ↦
          let same : classify_recovery current stream ≡ RecoveryKind.partial_continuation =
            ground (arith, after, streaming.0, streaming.1, live) in
          rw same continues
    ]

-- The limits leave a first failure another attempt at `now`, for so many events.
pub record Allows (env : Environment) (work events failed now : ℕ) : Type 0 where
  pub attempts : 0 < env.limits.max_recovery_attempts
  pub strikes : 1 < env.limits.max_oom_strikes
  pub spent : work < env.limits.max_recovery_work
  pub spare : work + events ≤ env.limits.max_recovery_work
  pub debounced : failed + env.limits.alarm_debounce_ms ≤ now
  pub recent : now < failed + env.limits.no_progress_timeout_ms

-- A failure is scheduled for recovery.
pub record Schedules (env : Environment) (id stream_id boot : String) (latest : ℤ)
    (pending : List DurableStreamEvent) (now : ℕ) (result : Result (RuntimeState × ℕ))
    : Type 0 where
  pub after : RuntimeState
  pub at : ℕ
  pub commits : result ≡ ok (after, at)
  pub due : Due (record env { boot_id = boot }) id stream_id latest pending now after

-- Both boots encode and bound events alike.
Fits-boot :
    (env : Environment) (boot : String) (pending : List DurableStreamEvent)
    → Fits env pending
    → Fits (record env { boot_id = boot }) pending
Fits-boot env boot [] fits = fits
Fits-boot env boot (event ∷ rest) fits = (fits.0, Fits-boot env boot rest fits.1)

bytes_of-boot :
    (env : Environment) (boot : String) (pending : List DurableStreamEvent)
    → bytes_of (record env { boot_id = boot }) pending ≡ bytes_of env pending
bytes_of-boot env boot [] = refl
bytes_of-boot env boot (event ∷ rest) =
    ap (λ bytes. env.encoded_size event + bytes) (bytes_of-boot env boot rest)

module _ (env : Environment) (id stream_id boot : String) (token : RuntimeOperationRecord)
    (own : token.operation_id ≡ id) (on_stream : token.stream_id ≡ stream_id) {latest : ℤ}
    {pending : List DurableStreamEvent} {until : ℕ} (s : RuntimeState)
    (h : Ready env token 7 latest pending until s) (failed : ℕ) (in_time : failed < until)
    (work now : ℕ) (clear : Unbroken work s h.current) (streaming : IsStreaming h.current)
    (budget : Allows env work (length pending) failed now) where
  own_id : h.current.operation_id ≡ id
  own_id = operation_id-find s token.operation_id h.current h.found ∙ own

  within_budget :
      (error : DurableExecutionError) (incident_id : String)
      → is_exhausted
          (record env { boot_id = boot })
          (scheduled_incident env s h.current h.stream incident_id error failed)
          now
        ≡ false
  unfolding is_exhausted no_progress_expired scheduled_incident
  within_budget error incident_id =
      simp (clear.0, clear.1, clear.2)
        (ground (arith, budget.attempts, budget.strikes, budget.spent, budget.recent))

  pub schedule-Schedules :
      (error : DurableExecutionError) (partial : Bool) (incident_id : String)
      → Schedules env id stream_id boot latest pending now
          (schedule_recovery_after_failure env token error partial incident_id failed s)
  unfolding schedule_recovery_after_failure ◌>>=◌ install_schedule scheduled_incident
  schedule-Schedules error partial incident_id =
      let base = interrupted_operation h.current partial (error_message error) failed in
      let entered =
        upsert_phase_effect-Enters base
          (phase_entry h.current RuntimePhase.inference PhaseStatus.failed failed)
          env.limits.max_phase_effects (omega (arith, h.ledger)) in
      let stored : RuntimeOperationRecord = record base { effect_ledger = entered.ledger } in
      let incident = scheduled_incident env s h.current h.stream incident_id error failed in
      let after = install_schedule env s h.current h.stream stored incident error failed in
      record {
        after = after;
        at = failed + env.limits.alarm_debounce_ms;
        commits = rw (h.found, h.at, fence_held env token s h failed in_time, entered.put) refl;
        due = record {
          incident = incident;
          recovers = refl;
          own = own_id;
          kind = classify_recovery-Resumes h.current h.stream streaming h.live;
          going_on = refl;
          budget = within_budget error incident_id;
          operation = stored;
          found =
              find-put_operation s after id h.current stored refl own_id
                (subst (λ key. find_runtime_operation s key ≡ some h.current) own h.found);
          on_stream = h.on_stream ∙ on_stream;
          stream = record h.stream {
            status = RuntimeStreamStatus.interrupted;
            updated_at = failed;
            terminal_reason = some (error_message error);
          };
          at =
              find-put_stream s after stream_id h.stream _ refl
                (stream_id-find s token.stream_id h.stream h.at ∙ on_stream)
                (subst (λ key. find_stream s key ≡ some h.stream) on_stream h.at);
          alarm = record {
            operation_id = h.current.operation_id;
            generation = h.current.generation;
            scheduled_at = failed + env.limits.alarm_debounce_ms;
          };
          scheduled = refl;
          matches = ground (arith, eq_iff h.current.operation_id h.current.operation_id);
          due = ground (arith, budget.debounced);
          ledger = omega (arith, entered.grows, h.ledger);
          work = omega (arith, budget.spare, clear.2);
          last = h.last;
          room = h.room;
          size = omega (arith, h.size, bytes_of-boot env boot pending);
          fits = Fits-boot env boot pending h.fits;
        };
      }
