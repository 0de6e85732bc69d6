-- ===== src/Execution/Prepare/Outcomes.antt =====
-- What `prepareRecovery` writes: an attempt, and the end of an incident without budget.
use chemistry.Prelude.{
  sym, subst, ◌∙◌, true, Bool-cases, ℕ, ◌+◌, ◌≤◌, ◌<◌, false, Option, none, some, ◌≡◌, refl, arith,
  ap, ◌⊎◌, inl, inr, not, ◌||◌, eq_iff, string_eq, nat_eq,
}
use chemistry.Protocol.{RuntimeOperationStatus}
use chemistry.Runtime.Limits.{RuntimeLimits}
use chemistry.Runtime.State.{
  RuntimeStreamRecord, RuntimeStreamStatus, RuntimeState, RuntimeOperationRecord, RecoveryKind,
  RecoveryStatus, RecoveryIncident, RecoverAlarm, RuntimeAlarmIntent, find_runtime_operation,
  recovery_over, kind_unrecoverable,
}
use chemistry.Execution.Helpers.{Environment, find_stream}
use chemistry.Execution.Recovery.{ended_stream}
use chemistry.Execution.Settle.Convergence.{find-put_operation, find-put_stream}
use chemistry.Execution.Lookup.{operation_id-find, stream_id-find}
use chemistry.Execution.Prepare.{
  exhaustion_reason, no_progress_expired, is_exhausted, install_attempt, recovering_operation,
  install_exhausted, alarm_matches, recover_intent,
}

-- The incident still has recovery budget.
pub record HasBudget (limits : RuntimeLimits) (incident : RecoveryIncident) (now : ℕ) : Type 0 where
  pub attempts : incident.attempt < limits.max_recovery_attempts
  pub work : incident.recovery_work < limits.max_recovery_work
  pub strikes : incident.oom_strikes < limits.max_oom_strikes
  pub progress : now < incident.last_progress_at + limits.no_progress_timeout_ms

unrecoverable_of :
    (kind : RecoveryKind) → kind_unrecoverable kind ≡ true → kind ≡ RecoveryKind.unrecoverable
unrecoverable_of kind h = ground (arith, h)

budget_of :
    (env : Environment) (incident : RecoveryIncident) (now : ℕ)
    → (is_exhausted env incident now || kind_unrecoverable incident.kind) ≡ false
    → HasBudget env.limits incident now
unfolding is_exhausted
budget_of env incident now h = ground arith

-- Without an attempt there is no budget, or no way to recover.
spent_of :
    (env : Environment) (incident : RecoveryIncident) (now : ℕ)
    → (is_exhausted env incident now || kind_unrecoverable incident.kind) ≡ true
    → (¬ HasBudget env.limits incident now) ⊎ (incident.kind ≡ RecoveryKind.unrecoverable)
unfolding is_exhausted no_progress_expired
spent_of env incident now h = elim (Bool-cases (kind_unrecoverable incident.kind)) [
  | inl lost ↦ inr (unrecoverable_of incident.kind lost)
  | inr open_kind ↦ inl (λ budget.
      ground (arith, h, open_kind, budget.attempts, budget.work, budget.strikes, budget.progress))
]

-- The alarm is the one that was set for this operation, generation and incident.
pub record Matches (alarm : RecoverAlarm) (operation : RuntimeOperationRecord)
    (incident : RecoveryIncident) : Type 0 where
  pub operation_id : alarm.operation_id ≡ operation.operation_id
  pub generation : alarm.generation ≡ operation.generation
  pub scheduled_at : incident.scheduled_at ≡ some alarm.scheduled_at

alarm_matches-Matches :
    (alarm : RecoverAlarm) (operation : RuntimeOperationRecord) (incident : RecoveryIncident)
    → not (alarm_matches alarm operation incident) ≡ false
    → Matches alarm operation incident
alarm_matches-Matches alarm operation incident h =
    ground (arith, eq_iff alarm.operation_id operation.operation_id)

armed_of :
    (intent : Option RuntimeAlarmIntent) (alarm : RecoverAlarm)
    → recover_intent intent ≡ some alarm
    → intent ≡ some (RuntimeAlarmIntent.recover alarm)
armed_of none alarm e = ground (arith, e)
armed_of (some (RuntimeAlarmIntent.cleanup at)) alarm e = ground (arith, e)
armed_of (some (RuntimeAlarmIntent.recover other)) alarm e = ground (arith, e)

-- What an attempt of the state `s` rests on, and what it writes: the operation of the incident is stored
-- as this boot's, and its stream is open again.
pub record Attempts (env : Environment) (s : RuntimeState) (now : ℕ) (t : RuntimeState)
    (winner : RuntimeOperationRecord) (kind : RecoveryKind) : Type 0 where
  pub incident : RecoveryIncident
  pub operation : RuntimeOperationRecord
  pub alarm : RecoverAlarm
  pub recorded : s.recovery ≡ some incident
  pub found : find_runtime_operation s incident.operation_id ≡ some operation
  pub armed : s.alarm ≡ some (RuntimeAlarmIntent.recover alarm)
  pub matching : Matches alarm operation incident
  pub due : alarm.scheduled_at ≤ now
  pub budget : HasBudget env.limits incident now
  pub ongoing : recovery_over incident.status ≡ false
  pub same_kind : kind ≡ incident.kind
  pub consumed : t.alarm ≡ none
  pub counted :
      t.recovery
      ≡ some (record incident {
        status = RecoveryStatus.attempting;
        attempt = incident.attempt + 1;
        scheduled_at = none;
      })
  pub stored : find_runtime_operation t incident.operation_id ≡ some winner
  pub active : t.active_operation_id ≡ some incident.operation_id
  pub session_generation : t.generation ≡ s.generation + 1
  pub generation : winner.generation ≡ s.generation + 1
  pub owner : winner.owner_boot_id ≡ some env.boot_id
  pub lease : winner.lease_expires_at ≡ some (now + env.limits.lease_duration_ms)
  pub tried : winner.attempt ≡ operation.attempt + 1
  pub stream : RuntimeStreamRecord
  pub reopened : find_stream t operation.stream_id ≡ some stream
  pub open_stream : stream.status ≡ RuntimeStreamStatus.opened

-- The incident was over before.
pub record WasOver (s : RuntimeState) (operation : RuntimeOperationRecord) : Type 0 where
  pub incident : RecoveryIncident
  pub recorded : s.recovery ≡ some incident
  pub over : recovery_over incident.status ≡ true
  pub found : find_runtime_operation s incident.operation_id ≡ some operation

-- The budget of the incident was spent at `now`, or nothing can be recovered: the operation is stored as
-- failed under the next generation and without an owner, its stream as failed, and the session is free.
pub record Exhausts (env : Environment) (s : RuntimeState) (now : ℕ) (t : RuntimeState)
    (operation : RuntimeOperationRecord) : Type 0 where
  pub incident : RecoveryIncident
  pub recorded : s.recovery ≡ some incident
  pub ongoing : recovery_over incident.status ≡ false
  pub spent : (¬ HasBudget env.limits incident now) ⊎ (incident.kind ≡ RecoveryKind.unrecoverable)
  pub stored : find_runtime_operation t incident.operation_id ≡ some operation
  pub failed : operation.status ≡ RuntimeOperationStatus.failed
  pub unowned : operation.owner_boot_id ≡ none
  pub generation : operation.generation ≡ s.generation + 1
  pub session_generation : t.generation ≡ s.generation + 1
  pub stream : RuntimeStreamRecord
  pub ended : find_stream t operation.stream_id ≡ some stream
  pub stream_failed : stream.status ≡ RuntimeStreamStatus.failed
  pub free : t.active_operation_id ≡ none
  pub disarmed : t.alarm ≡ none

module _ (env : Environment) (s : RuntimeState) (now : ℕ) (incident : RecoveryIncident)
    (operation : RuntimeOperationRecord) (stream : RuntimeStreamRecord)
    (recorded : s.recovery ≡ some incident) (ongoing : recovery_over incident.status ≡ false)
    (found : find_runtime_operation s incident.operation_id ≡ some operation)
    (found_stream : find_stream s operation.stream_id ≡ some stream) where
  pub install_exhausted-Exhausts :
      (updated : RuntimeOperationRecord)
      → (is_exhausted env incident now || kind_unrecoverable incident.kind) ≡ true
      → updated.operation_id ≡ operation.operation_id
      → updated.stream_id ≡ operation.stream_id
      → updated.status ≡ RuntimeOperationStatus.failed
      → updated.owner_boot_id ≡ none
      → updated.generation ≡ s.generation + 1
      → Exhausts env s now
          (install_exhausted env s incident updated stream (exhaustion_reason env incident now) now)
          updated
  unfolding install_exhausted
  install_exhausted-Exhausts updated spent same_id on_stream failed unowned next = record {
    incident = incident;
    recorded = recorded;
    ongoing = ongoing;
    spent = spent_of env incident now spent;
    stored =
        find-put_operation s _ incident.operation_id operation updated refl
          (same_id ∙ operation_id-find s incident.operation_id operation found) found;
    failed = failed;
    unowned = unowned;
    generation = next;
    session_generation = refl;
    stream =
        ended_stream env stream RuntimeStreamStatus.failed
          (some (exhaustion_reason env incident now)) now;
    ended =
        find-put_stream s _ updated.stream_id stream _ refl
          (stream_id-find s operation.stream_id stream found_stream ∙ sym on_stream)
          (subst (λ key. find_stream s key ≡ some stream) (sym on_stream) found_stream);
    stream_failed = refl;
    free = refl;
    disarmed = refl;
  }

  pub install_attempt-Attempts :
      (alarm : RecoverAlarm)
      → (is_exhausted env incident now || kind_unrecoverable incident.kind) ≡ false
      → recover_intent s.alarm ≡ some alarm
      → not (alarm_matches alarm operation incident) ≡ false
      → alarm.scheduled_at ≤ now
      → Attempts env s now
          (install_attempt env s incident operation stream now)
          (recovering_operation env operation (s.generation + 1) now)
          incident.kind
  unfolding install_attempt recovering_operation
  install_attempt-Attempts alarm budget armed matching due = record {
    incident = incident;
    operation = operation;
    alarm = alarm;
    recorded = recorded;
    found = found;
    armed = armed_of s.alarm alarm armed;
    matching = alarm_matches-Matches alarm operation incident matching;
    due = due;
    budget = budget_of env incident now budget;
    ongoing = ongoing;
    same_kind = refl;
    consumed = refl;
    counted = refl;
    stored =
        find-put_operation s _ incident.operation_id operation _ refl
          (operation_id-find s incident.operation_id operation found) found;
    active = ap some (operation_id-find s incident.operation_id operation found);
    session_generation = refl;
    generation = refl;
    owner = refl;
    lease = refl;
    tried = refl;
    stream = record stream { status = RuntimeStreamStatus.opened; updated_at = now };
    reopened =
        find-put_stream s _ operation.stream_id stream _ refl
          (stream_id-find s operation.stream_id stream found_stream) found_stream;
    open_stream = refl;
  }
