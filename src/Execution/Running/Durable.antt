-- ===== src/Execution/Running/Durable.antt =====
-- `run` and then `recover` of one turn, over a failure of its model.
use chemistry.Prelude.{
  ℕ, ◌+◌, ℤ, ◌<◌, String, true, none, some, List, ◌++◌, ◌≡◌, refl, subst, arith, length,
}
use chemistry.Protocol.{DurableStreamEvent}
use chemistry.Runtime.State.{RuntimeState, RuntimeRequestSnapshot}
use chemistry.Runtime.Errors.{DurableExecutionError, ok}
use chemistry.Execution.Helpers.{Environment, fresh, is_retryable_inference}
use chemistry.Execution.Running.{TurnRun}
use chemistry.Execution.Running.Run.{RunDraws, RecoverDraws, run_operation, recover_turn}
use chemistry.Execution.Running.Stored.{Stores}
use chemistry.Execution.Running.Published.{Tracks, run_operation-Publishes}
use chemistry.Execution.Running.Recovered.{recover_turn-Publishes}
use chemistry.Execution.Running.Ready.{Unbroken, numbered}
use chemistry.Execution.Running.Finished.{Timely, latest_after, Completes}
use chemistry.Execution.Running.Started.{Claimable, run_operation-Starts}
use chemistry.Execution.Running.Due.{Due}
use chemistry.Execution.Running.Resumed.{Answers, recover_turn-Completes}
use chemistry.Execution.Running.Suspended.{Allows}
use chemistry.Execution.Running.Broken.{Suspends, execute_streaming-Suspends}

-- The run published `events` and the recovery `later`, with which the turn completed; the stream holds
-- what it held `before`, and these.
pub record Endures (id stream_id : String) (before events later : List DurableStreamEvent)
    (run recovery : TurnRun) : Type 0 where
  pub first : run.published ≡ events
  pub no_failure : run.failure ≡ none
  pub second : Completes id stream_id later recovery
  pub stored : Stores stream_id (before ++ events ++ later) recovery.state

module _ (env : Environment) (id stream_id boot : String) (latest : ℤ) (draws : RunDraws)
    (recovery : RecoverDraws) (s : RuntimeState) {effects : ℕ} {pending : List DurableStreamEvent}
    (h : Claimable env id stream_id effects latest pending s) where
  -- Both turns store what they publish.
  stores_both :
      {next : ℤ} {left : List DurableStreamEvent}
      → Due
          (record env { boot_id = boot })
          id
          stream_id
          next
          left
          recovery.recovered_at
          (run_operation env draws id s).state
      → Stores stream_id
          ((h.stream.events ++ (run_operation env draws id s).published)
            ++ (recover_turn
                (record env { boot_id = boot })
                recovery
                (run_operation env draws id s).state).published)
          (recover_turn
            (record env { boot_id = boot })
            recovery
            (run_operation env draws id s).state).state
  stores_both due =
      let run = run_operation env draws id s in
      let tracks : Tracks id stream_id h.stream.events s = record {
        operation = h.operation;
        found = h.found;
        on_stream = h.on_stream;
        stored = record { stream = h.stream; found = h.at; holds = refl };
      } in
      recover_turn-Publishes id stream_id (h.stream.events ++ run.published)
        (record env { boot_id = boot }) run.state due.incident due.recovers due.own
        (record {
          operation = due.operation;
          found = due.found;
          on_stream = due.on_stream;
          stored =
              run_operation-Publishes id stream_id h.stream.events env draws s tracks
                (ground (arith, h.live));
        })
        recovery

module _ (env : Environment) (id stream_id boot : String) (latest : ℤ) (draws : RunDraws)
    (recovery : RecoverDraws) (s : RuntimeState) (work : ℕ)
    (h : Claimable env id stream_id 9 latest
      (numbered stream_id id latest (draws.turn.events ++ recovery.run.turn.events))
      s)
    (clear : Unbroken work s h.operation) (captured : RuntimeRequestSnapshot)
    (answer : draws.request_snapshot ≡ ok captured)
    (prepared_in_time : draws.prepared_at < draws.claimed_at + env.limits.lease_duration_ms)
    (streaming_in_time : draws.streaming_at < draws.claimed_at + env.limits.lease_duration_ms)
    (timely : Timely env
      (draws.streaming_at + env.limits.lease_duration_ms)
      draws.turn.events
      draws.turn.caught_at)
    (error : DurableExecutionError) (breaks : draws.turn.failure ≡ some error)
    (retryable : is_retryable_inference error ≡ true)
    (budget : Allows env work
      (length
        (numbered stream_id id (latest_after latest draws.turn.events) recovery.run.turn.events))
      draws.turn.caught_at
      recovery.recovered_at) where
  abbrev after : ℤ
  after = latest_after latest draws.turn.events

  run_operation-Suspends :
      Suspends env id stream_id boot
        (numbered stream_id id latest draws.turn.events)
        after
        (numbered stream_id id after recovery.run.turn.events)
        recovery.recovered_at
        (run_operation env draws id s)
  run_operation-Suspends =
      let started =
        run_operation-Starts env id stream_id draws captured answer s h prepared_in_time
          streaming_in_time in
      rw started.begins (
        execute_streaming-Suspends env id stream_id boot started.token started.own_id
          started.own_stream fresh draws.turn error retryable recovery.run.turn.events work
          recovery.recovered_at breaks started.after started.ready (started.unbroken work clear)
          started.streaming timely budget)

  -- A turn survives its model. A submission at the head of the queue of an idle session (or whose
  -- session it owns already), of a record without a recovery, is run, and its model breaks off or stalls
  -- with a retryable error; the recovery runs in some boot with the same limits once its alarm is due
  -- and before the time without progress is over, and its model ends without a failure. Then the run
  -- publishes the first model's events and has no failure, the recovery publishes the second model's
  -- events, numbered on without a gap, and has no failure, the operation and its stream are completed,
  -- the session is free, and the stream holds what it held before, followed by both models' events.
  -- The limits have room: for the events, for nine entries of the ledger, for an attempt, a strike and
  -- the recovered work. The requests can be captured, each step comes before its lease expires, which
  -- `markStreaming` and every event renew, the transcript has no answer of the turn and takes the
  -- partial one, the storage answers every transaction, and no other writer interrupts either of the two.
  pub run_operation-recover_turn :
      (answered : RuntimeRequestSnapshot)
      → Answers (record env { boot_id = boot }) recovery answered
      → Endures id stream_id h.stream.events
          (numbered stream_id id latest draws.turn.events)
          (numbered stream_id id after recovery.run.turn.events)
          (run_operation env draws id s)
          (recover_turn
            (record env { boot_id = boot })
            recovery
            (run_operation env draws id s).state)
  run_operation-recover_turn answered answers =
      let suspended = run_operation-Suspends in
      let again =
        recover_turn (record env { boot_id = boot }) recovery
          (run_operation env draws id s).state in
      let completed =
        recover_turn-Completes (record env { boot_id = boot }) id stream_id after recovery answered
          answers (run_operation env draws id s).state suspended.due in
      record {
        first = suspended.in_order;
        no_failure = suspended.no_failure;
        second = completed;
        stored =
            subst (λ events. Stores stream_id events again.state)
              (cc (suspended.in_order, completed.in_order))
              (stores_both env id stream_id boot latest draws recovery s h suspended.due);
      }
