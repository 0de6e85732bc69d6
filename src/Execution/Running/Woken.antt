-- ===== src/Execution/Running/Woken.antt =====
-- `wake` of a boot that finds a turn without its owner, and then `recover`.
use chemistry.Prelude.{
  ℕ, ◌+◌, ℤ, ◌≤◌, String, false, none, some, List, ◌++◌, ◌≡◌, refl, subst, ap, arith, length,
  eq_iff, string_eq, nat_eq,
}
use chemistry.Protocol.{DurableStreamEvent}
use chemistry.Runtime.State.{
  RuntimeState, RuntimeOperationRecord, RuntimeStreamRecord, RuntimeRequestSnapshot, RecoveryKind,
  find_runtime_operation, kind_parked, kind_terminal_noop,
}
use chemistry.Runtime.Errors.{Result, transact, ok, ◌>>=◌}
use chemistry.Execution.Helpers.{Environment, find_stream, classify_recovery}
use chemistry.Execution.Lookup.{operation_id-find, stream_id-find}
use chemistry.Execution.Settle.Convergence.{find-put_operation, find-put_stream}
use chemistry.Execution.Prepare.{is_exhausted, no_progress_expired}
use chemistry.Execution.Wake.{
  RuntimeWakeResult, recoverable, wake, owned_here, install_wake, detected_incident,
  disowned_operation, interrupted_stream,
}
use chemistry.Execution.Running.{TurnRun}
use chemistry.Execution.Running.Run.{RecoverDraws, recover_turn}
use chemistry.Execution.Running.Stored.{Stores}
use chemistry.Execution.Running.Published.{Tracks}
use chemistry.Execution.Running.Recovered.{recover_turn-Publishes}
use chemistry.Execution.Running.Ready.{numbered, bytes_of, Fits}
use chemistry.Execution.Running.Finished.{Completes}
use chemistry.Execution.Running.Due.{Due, Resumes, retries, continues}
use chemistry.Execution.Running.Resumed.{Answers, recover_turn-Completes}
use chemistry.Execution.Running.Suspended.{Allows}

-- The active operation, which can be retried or continued, is owned by another boot or by none, or its
-- lease is over at `now`, and nothing is being recovered; its ledger has room for the six entries of a
-- recovered turn, and its stream, whose last event is number `latest`, for the `pending` events.
pub record Orphaned (env : Environment) (id stream_id : String) (latest : ℤ)
    (pending : List DurableStreamEvent) (now : ℕ) (s : RuntimeState) : Type 0 where
  pub operation : RuntimeOperationRecord
  pub stream : RuntimeStreamRecord
  pub active : s.active_operation_id ≡ some id
  pub found : find_runtime_operation s id ≡ some operation
  pub on_stream : operation.stream_id ≡ stream_id
  pub at : find_stream s stream_id ≡ some stream
  pub lost : owned_here env operation now ≡ false
  pub no_incident : s.recovery ≡ none
  pub kind : Resumes (classify_recovery operation stream)
  pub ledger : length operation.effect_ledger + 6 ≤ env.limits.max_phase_effects
  pub last : stream.latest_sequence ≡ latest
  pub room : length stream.events + length pending ≤ env.limits.max_events_per_stream
  pub size : stream.encoded_bytes + bytes_of env pending ≤ env.limits.max_stream_bytes
  pub fits : Fits env pending

Resumes-open :
    {kind : RecoveryKind}
    → Resumes kind
    → (kind_terminal_noop kind ≡ false) × (kind_parked kind ≡ false)
Resumes-open retries = (refl, refl)
Resumes-open continues = (refl, refl)

-- What the wake answers and leaves.
record Wakes (env : Environment) (id stream_id : String) (latest : ℤ)
    (pending stored : List DurableStreamEvent) (woken now : ℕ)
    (result : Result (RuntimeState × RuntimeWakeResult)) : Type 0 where
  after : RuntimeState
  answer : RuntimeWakeResult
  commits : result ≡ ok (after, answer)
  alarm : answer.recovery_alarm_at ≡ some (woken + env.limits.alarm_debounce_ms)
  to_recover : answer.recoverable_operation_id ≡ some id
  due : Due env id stream_id latest pending now after
  kept : due.stream.events ≡ stored

module _ (env : Environment) (id stream_id : String) (latest : ℤ)
    (pending : List DurableStreamEvent) (woken : ℕ) (incident_id : String) (s : RuntimeState)
    (h : Orphaned env id stream_id latest pending woken s) (now : ℕ)
    (budget : Allows env h.operation.recovery_work (length pending) woken now) where
  wake-Wakes :
      Wakes env id stream_id latest pending h.stream.events woken now (wake env incident_id woken s)
  unfolding wake ◌>>=◌ install_wake detected_incident is_exhausted no_progress_expired
  wake-Wakes =
      let own = operation_id-find s id h.operation h.found in
      let going = Resumes-open h.kind in
      let incident =
        detected_incident env h.operation (classify_recovery h.operation h.stream) incident_id
          woken in
      let updated = disowned_operation h.operation false none woken in
      let after = install_wake env s h.operation updated h.stream incident woken in
      record {
        after = after;
        answer =
            recoverable after (some (woken + env.limits.alarm_debounce_ms))
              (some h.operation.operation_id);
        commits =
            simp (h.active, h.found, h.on_stream, h.at, h.lost, h.no_incident, going.0, going.1)
              refl;
        alarm = refl;
        to_recover = ap some own;
        due = record {
          incident = incident;
          recovers = refl;
          own = own;
          kind = h.kind;
          going_on = rw going.1 refl;
          budget = ground (arith, budget.attempts, budget.strikes, budget.spent, budget.recent);
          operation = updated;
          found = find-put_operation s after id h.operation updated refl own h.found;
          on_stream = h.on_stream;
          stream = interrupted_stream h.stream woken;
          at =
              find-put_stream s after stream_id h.stream (interrupted_stream h.stream woken) refl
                (stream_id-find s stream_id h.stream h.at) h.at;
          alarm = record {
            operation_id = h.operation.operation_id;
            generation = h.operation.generation;
            scheduled_at = woken + env.limits.alarm_debounce_ms;
          };
          scheduled = rw going.1 refl;
          matches =
              ground (arith, going.1, eq_iff h.operation.operation_id h.operation.operation_id);
          due = ground (arith, budget.debounced);
          ledger = h.ledger;
          work = budget.spare;
          last = h.last;
          room = h.room;
          size = h.size;
          fits = h.fits;
        };
        kept = refl;
      }

-- The wake names the operation and its alarm, the recovery runs the turn to its end, and the stream
-- then holds what it held before the process was lost, followed by the events of the recovery.
pub record Revives (id stream_id : String) (alarm_at : ℕ) (before events : List DurableStreamEvent)
    (woken : Result RuntimeWakeResult) (recovery : TurnRun) : Type 0 where
  pub answer : RuntimeWakeResult
  pub answered : woken ≡ ok answer
  pub alarm : answer.recovery_alarm_at ≡ some alarm_at
  pub to_recover : answer.recoverable_operation_id ≡ some id
  pub completes : Completes id stream_id events recovery
  pub stored : Stores stream_id (before ++ events) recovery.state

module _ (env : Environment) (id stream_id : String) (latest : ℤ) (draws : RecoverDraws)
    (incident_id : String) (woken : ℕ) where
  abbrev events : List DurableStreamEvent
  events = numbered stream_id id latest draws.run.turn.events

  -- A turn survives its process. A boot that wakes and finds the active turn without an owner (another
  -- boot's, or with an expired lease), where nothing is being recovered and the turn can be retried or
  -- continued, schedules its recovery, names it and the time of its alarm, and commits; when the alarm
  -- is due and before the time without progress is over, the recovery runs the turn to its end: it has
  -- no failure, it publishes exactly the events of the model, numbered without a gap after the last
  -- stored one, the operation and its stream are completed, the session is free, and the stream holds
  -- what the lost process had stored, followed by these events. The limits have room: for the events,
  -- for six entries of the ledger, for an attempt, a strike and the recovered work. The request can be
  -- captured, the model ends without a failure, each step comes before the lease expires, which the
  -- attempt takes and `markStreaming` and every event renew, the transcript has no answer of the turn
  -- and takes the partial one, the storage answers every transaction, and no other writer interrupts.
  pub wake-recover_turn :
      (s : RuntimeState) (captured : RuntimeRequestSnapshot)
      → (h : Orphaned env id stream_id latest events woken s)
      → Allows env h.operation.recovery_work (length events) woken draws.recovered_at
      → Answers env draws captured
      → Revives id stream_id
          (woken + env.limits.alarm_debounce_ms)
          h.stream.events
          events
          (transact (wake env incident_id woken) s).0
          (recover_turn env draws (transact (wake env incident_id woken) s).1)
  unfolding transact
  wake-recover_turn s captured h budget answers =
      let awake =
        wake-Wakes env id stream_id latest events woken incident_id s h draws.recovered_at budget in
      let completes =
        recover_turn-Completes env id stream_id latest draws captured answers awake.after
          awake.due in
      let tracks : Tracks id stream_id h.stream.events awake.after = record {
        operation = awake.due.operation;
        found = awake.due.found;
        on_stream = awake.due.on_stream;
        stored = record { stream = awake.due.stream; found = awake.due.at; holds = awake.kept };
      } in
      rw awake.commits (record {
        answer = awake.answer;
        answered = refl;
        alarm = awake.alarm;
        to_recover = awake.to_recover;
        completes = completes;
        stored =
            subst
              (λ later.
                Stores stream_id (h.stream.events ++ later)
                  (recover_turn env draws awake.after).state)
              completes.in_order
              (recover_turn-Publishes id stream_id h.stream.events env awake.after
                awake.due.incident awake.due.recovers awake.due.own tracks draws);
      })
