-- ===== src/Execution/Running/Stored.antt =====
-- What `executeClaimed` publishes against what its stream stores.
use chemistry.Prelude.{
  ℕ, String, Bool, Option, none, some, List, [], ◌∷◌, ◌++◌, ◌≡◌, refl, ap, subst, arith, append-nil,
  append_assoc, Bool-cases, inl, inr, string_eq,
}
use chemistry.Protocol.{AgentStreamEvent, DurableStreamEvent}
use chemistry.Runtime.State.{RuntimeState, RuntimeOperationRecord, RuntimeStreamRecord}
use chemistry.Runtime.Errors.{
  DurableExecutionError, Result, ok, err, Ensures, returned, Ensures-returns, Ensures-or_fail,
  Ensures-guard, Ensures-return_if, Ensures-bind,
}
use chemistry.Execution.Helpers.{Environment, TurnMode, find_stream}
use chemistry.Execution.Lookup.{stream_id-find}
use chemistry.Execution.Turn.{mark_streaming, append, install_append, appended_stream, next_event}
use chemistry.Execution.Settle.{Outcome, settle, install_settle}
use chemistry.Execution.Settle.Convergence.{find-put_stream}
use chemistry.Execution.Recovery.{schedule_recovery_after_failure, install_schedule}
use chemistry.Execution.Running.{
  ModelTurn, TurnRun, append_all, conclude, caught, end_run, handle, execute_streaming,
  execute_claimed, recoverable_failure,
}

-- The record holds exactly these events of the stream.
pub record Stores (id : String) (events : List DurableStreamEvent) (state : RuntimeState)
    : Type 0 where
  pub stream : RuntimeStreamRecord
  pub found : find_stream state id ≡ some stream
  pub holds : stream.events ≡ events

module _ (env : Environment) (operation : RuntimeOperationRecord) (events : List DurableStreamEvent)
    (s : RuntimeState) (h : Stores operation.stream_id events s) where
  same_events :
      (stream : RuntimeStreamRecord)
      → find_stream s operation.stream_id ≡ some stream
      → stream.events ≡ events
  same_events stream found = ground (arith, h.found, h.holds, found)

  append-Stores :
      (event : AgentStreamEvent) (now : ℕ)
      → Ensures
          (λ pair. Stores operation.stream_id (events ++ pair.1 ∷ []) pair.0)
          (append env operation event now s)
  unfolding append install_append appended_stream
  append-Stores event now = Ensures-or_fail _ λ current found.
      Ensures-or_fail _ λ stream found_stream. Ensures-guard _ λ held. Ensures-bind λ u room.
        returned (record {
          stream = _;
          found =
              find-put_stream s _ operation.stream_id stream _ refl
                (stream_id-find s operation.stream_id stream found_stream) found_stream;
          holds =
              ap (λ stored. stored ++ next_event stream operation event now ∷ [])
                (same_events stream found_stream);
        })

  settle-Stores :
      (outcome : Outcome) (reason : Option String) (now : ℕ)
      → Ensures
          (λ pair. Stores operation.stream_id events pair.0)
          (settle env operation outcome reason now s)
  unfolding settle install_settle
  settle-Stores outcome reason now = Ensures-or_fail _ λ current found.
      Ensures-or_fail _ λ stream found_stream.
        Ensures-return_if _ (λ over. h)
          λ live. Ensures-guard _ λ held. Ensures-or_fail _ λ partly put.
            Ensures-or_fail _ λ updated put_again. returned (record {
              stream = _;
              found =
                  find-put_stream s _ operation.stream_id stream _ refl
                    (stream_id-find s operation.stream_id stream found_stream) found_stream;
              holds = same_events stream found_stream;
            })

  schedule-Stores :
      (error : DurableExecutionError) (partial : Bool) (incident_id : String) (now : ℕ)
      → Ensures
          (λ pair. Stores operation.stream_id events pair.0)
          (schedule_recovery_after_failure env operation error partial incident_id now s)
  unfolding schedule_recovery_after_failure install_schedule
  schedule-Stores error partial incident_id now = Ensures-or_fail _ λ current found.
      Ensures-or_fail _ λ stream found_stream. Ensures-guard _ λ held.
        Ensures-or_fail _ λ updated put. returned (record {
          stream = _;
          found =
              find-put_stream s _ operation.stream_id stream _ refl
                (stream_id-find s operation.stream_id stream found_stream) found_stream;
          holds = same_events stream found_stream;
        })

-- What a run publishes comes right behind what the stream held before.
abbrev pub Publishes : String → List DurableStreamEvent → TurnRun → Type 0
Publishes id before run = Stores id (before ++ run.published) run.state

module _ (env : Environment) (streaming : RuntimeOperationRecord) where
  append_all-Publishes :
      (before : List DurableStreamEvent) (events : List (AgentStreamEvent × ℕ)) (s : RuntimeState)
      → Stores streaming.stream_id before s
      → Publishes streaming.stream_id before (append_all env streaming events s)
  unfolding append_all
  append_all-Publishes before [] s h = rw append-nil h
  append_all-Publishes before ((event, now) ∷ rest) s h =
      appended (append env streaming event now s) (append-Stores env streaming before s h event now)
        (λ held t k. append_all-Publishes held rest t k)
    where
      appended :
          (result : Result (RuntimeState × DurableStreamEvent))
          → Ensures (λ pair. Stores streaming.stream_id (before ++ pair.1 ∷ []) pair.0) result
          → ((held : List DurableStreamEvent) (t : RuntimeState)
              → Stores streaming.stream_id held t
              → Publishes streaming.stream_id held (append_all env streaming rest t))
          → Publishes streaming.stream_id before (elim result [
            | err error ↦ record { published = []; state = s; failure = some error }
            | ok stored ↦
                let more = append_all env streaming rest stored.0 in
                record more { published = stored.1 ∷ more.published }
          ])
      appended (err error) k next = rw append-nil h
      appended (ok (t, stored)) (returned k) next =
          let more : TurnRun = append_all env streaming rest t in
          subst (λ events. Stores streaming.stream_id events more.state)
            (append_assoc before (stored ∷ []) more.published) (next (before ++ stored ∷ []) t k)

  conclude-Publishes :
      {A : Type 0} (before : List DurableStreamEvent) (run : TurnRun)
      (result : Result (RuntimeState × A)) (failure : Option DurableExecutionError)
      → Publishes streaming.stream_id before run
      → Ensures (λ pair. Stores streaming.stream_id (before ++ run.published) pair.0) result
      → Publishes streaming.stream_id before (conclude result run failure)
  unfolding conclude
  conclude-Publishes before run (ok (t, value)) failure h (returned k) = k
  conclude-Publishes before run (err error) failure h k = h

  end_run-Publishes :
      (before : List DurableStreamEvent) (turn : ModelTurn) (run : TurnRun)
      (failure : Option DurableExecutionError)
      → Publishes streaming.stream_id before run
      → Publishes streaming.stream_id before (end_run env streaming turn run failure)
  unfolding end_run
  end_run-Publishes before turn run (some error) h = h
  end_run-Publishes before turn run none h =
      conclude-Publishes before run
        (settle env streaming Outcome.completed none turn.ended_at run.state) none h
        (settle-Stores env streaming (before ++ run.published) run.state h _ _ _)

  caught-Publishes :
      (before : List DurableStreamEvent) (mode : TurnMode) (turn : ModelTurn)
      (error : DurableExecutionError) (run : TurnRun)
      → Publishes streaming.stream_id before run
      → Publishes streaming.stream_id before (caught env streaming mode turn error run)
  unfolding caught
  caught-Publishes before mode turn error run h =
      elim (Bool-cases (recoverable_failure env streaming error)) [
        | inl recovers ↦ rw recovers (
            conclude-Publishes before run _ none h
              (schedule-Stores env streaming (before ++ run.published) run.state h _ _ _ _))
        | inr fails ↦ rw fails (
            conclude-Publishes before run _ (some error) h
              (settle-Stores env streaming (before ++ run.published) run.state h _ _ _))
      ]

  handle-Publishes :
      (before : List DurableStreamEvent) (mode : TurnMode) (turn : ModelTurn) (run : TurnRun)
      (failure : Option DurableExecutionError)
      → Publishes streaming.stream_id before run
      → Publishes streaming.stream_id before (handle env streaming mode turn run failure)
  unfolding handle
  handle-Publishes before mode turn run none h = h
  handle-Publishes before mode turn run (some error) h =
      caught-Publishes before mode turn error run h

  pub execute_streaming-Publishes :
      (before : List DurableStreamEvent) (mode : TurnMode) (turn : ModelTurn) (s : RuntimeState)
      → Stores streaming.stream_id before s
      → Publishes streaming.stream_id before (execute_streaming env streaming mode turn s)
  unfolding execute_streaming
  execute_streaming-Publishes before mode turn s h =
      handle-Publishes before mode turn _ _
        (end_run-Publishes before turn _ _ (append_all-Publishes before turn.events s h))

mark_streaming-streams :
    (env : Environment) (operation : RuntimeOperationRecord) (now : ℕ) (s : RuntimeState)
    → Ensures (λ pair. pair.0.streams ≡ s.streams) (mark_streaming env operation now s)
unfolding mark_streaming
mark_streaming-streams env operation now s =
    Ensures-or_fail _
      λ current found. Ensures-guard _ λ held. Ensures-or_fail _ λ updated put. returned refl

marked-Stores :
    (id : String) (stream : RuntimeStreamRecord) (s t : RuntimeState)
    → t.streams ≡ s.streams
    → find_stream s id ≡ some stream
    → Stores id stream.events t
unfolding find_stream
marked-Stores id stream s t same found = record {
  stream = stream;
  found = rw same found;
  holds = refl;
}

-- However a claimed turn whose stream has begun ends (the model finishes, stalls or fails, a capacity is exceeded, the lease
-- is lost, or the last transaction fails), its stream then stores what it stored before, followed by
-- exactly the events that were published, in their order. No other writer interrupts the turn.
execute_claimed-Publishes :
    (env : Environment) (operation streaming : RuntimeOperationRecord) (mode : TurnMode)
    (turn : ModelTurn) (now : ℕ) (s t : RuntimeState) (stream : RuntimeStreamRecord)
    → mark_streaming env operation now s ≡ ok (t, streaming)
    → find_stream s streaming.stream_id ≡ some stream
    → Publishes streaming.stream_id stream.events (execute_claimed env operation mode turn now s)
unfolding execute_claimed
execute_claimed-Publishes env operation streaming mode turn now s t stream marked found =
    rw (execute_claimed, marked)
      (execute_streaming-Publishes env streaming stream.events mode turn t (
        marked-Stores streaming.stream_id stream s t
          (Ensures-returns {P = λ pair. pair.0.streams ≡ s.streams}
            (mark_streaming-streams env operation now s) marked)
          found))
