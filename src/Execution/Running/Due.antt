-- ===== src/Execution/Running/Due.antt =====
-- `prepareRecovery` of an incident whose alarm is due and that has budget left.
use chemistry.Prelude.{
  ℕ, ◌+◌, ℤ, ◌≤◌, String, true, false, inr, some, List, ◌≡◌, refl, length, string_eq, nat_eq, ltb,
  subst, sym, ◌∙◌,
}
use chemistry.Protocol.{DurableStreamEvent}
use chemistry.Runtime.State.{
  RuntimeState, RuntimeOperationRecord, RuntimeStreamRecord, RuntimeStreamStatus, RecoveryIncident,
  RecoverAlarm, RuntimeAlarmIntent, RecoveryKind, kind_parked, kind_unrecoverable,
  find_runtime_operation, recovery_over,
}
use chemistry.Runtime.Errors.{ok, ◌>>=◌}
use chemistry.Execution.Helpers.{Environment, find_stream, partial_text}
use chemistry.Execution.Lookup.{operation_id-find, stream_id-find}
use chemistry.Execution.Settle.Convergence.{find-put_operation, find-put_stream}
use chemistry.Execution.Prepare.{
  attempt, prepare_recovery, is_exhausted, alarm_matches, install_attempt, recovering_operation,
}
use chemistry.Execution.Running.Ready.{Ready, Fits, bytes_of}

-- The kinds of incident that lead to another turn.
pub data Resumes : RecoveryKind → Type 0 where
  retries : Resumes RecoveryKind.pre_stream_retry
  continues : Resumes RecoveryKind.partial_continuation

-- The incident of the operation has budget left and its alarm is due at `now`; its ledger has room for
-- the six entries of a recovered turn, its stream, whose last event is number `latest`, for the
-- `pending` events, and so has its budget of recovery work.
pub record Due (env : Environment) (id stream_id : String) (latest : ℤ)
    (pending : List DurableStreamEvent) (now : ℕ) (s : RuntimeState) : Type 0 where
  pub incident : RecoveryIncident
  pub recovers : s.recovery ≡ some incident
  pub own : incident.operation_id ≡ id
  pub kind : Resumes incident.kind
  pub going_on : recovery_over incident.status ≡ false
  pub budget : is_exhausted env incident now ≡ false
  pub operation : RuntimeOperationRecord
  pub found : find_runtime_operation s id ≡ some operation
  pub on_stream : operation.stream_id ≡ stream_id
  pub stream : RuntimeStreamRecord
  pub at : find_stream s stream_id ≡ some stream
  pub alarm : RecoverAlarm
  pub scheduled : s.alarm ≡ some (RuntimeAlarmIntent.recover alarm)
  pub matches : alarm_matches alarm operation incident ≡ true
  pub due : ltb now alarm.scheduled_at ≡ false
  pub ledger : length operation.effect_ledger + 6 ≤ env.limits.max_phase_effects
  pub work : operation.recovery_work + length pending ≤ env.limits.max_recovery_work
  pub last : stream.latest_sequence ≡ latest
  pub room : length stream.events + length pending ≤ env.limits.max_events_per_stream
  pub size : stream.encoded_bytes + bytes_of env pending ≤ env.limits.max_stream_bytes
  pub fits : Fits env pending

Resumes-going :
    {kind : RecoveryKind}
    → Resumes kind
    → (kind_unrecoverable kind ≡ false) × (kind_parked kind ≡ false)
Resumes-going retries = (refl, refl)
Resumes-going continues = (refl, refl)

module _ (env : Environment) {id stream_id : String} {latest : ℤ}
    {pending : List DurableStreamEvent} (now : ℕ) (s : RuntimeState)
    (h : Due env id stream_id latest pending now s) where
  abbrev pub recovering : RuntimeOperationRecord
  recovering = recovering_operation env h.operation (s.generation + 1) now

  abbrev pub attempted : RuntimeState
  attempted = install_attempt env s h.incident h.operation h.stream now

  pub attempted-Ready :
      Ready env recovering 6 latest pending (now + env.limits.lease_duration_ms) attempted
  unfolding recovering_operation install_attempt find_stream
  attempted-Ready = record {
    current = recovering;
    stream = record h.stream { status = RuntimeStreamStatus.opened; updated_at = now };
    boot = env.boot_id;
    found =
        find-put_operation s attempted h.operation.operation_id h.operation recovering refl refl (
          subst (λ key. find_runtime_operation s key ≡ some h.operation)
            (sym (operation_id-find s id h.operation h.found)) h.found);
    on_stream = refl;
    at =
        find-put_stream s attempted h.operation.stream_id h.stream _ refl
          (stream_id-find s stream_id h.stream h.at ∙ sym h.on_stream) (rw h.on_stream h.at);
    same_generation = refl;
    owned = refl;
    claimed = refl;
    leased = refl;
    spare = inr h.work;
    live = refl;
    ledger = h.ledger;
    last = h.last;
    room = h.room;
    size = h.size;
    fits = h.fits;
  }

  pub due_commits :
      prepare_recovery env now s
      ≡ ok (attempted, attempt recovering h.incident.kind (partial_text h.stream))
  unfolding prepare_recovery ◌>>=◌
  due_commits =
      simp
        (
          h.recovers,
          h.own,
          h.found,
          h.on_stream,
          h.at,
          h.going_on,
          h.budget,
          (Resumes-going h.kind).0,
          (Resumes-going h.kind).1,
          h.scheduled,
          h.matches,
          h.due,
        )
        refl
