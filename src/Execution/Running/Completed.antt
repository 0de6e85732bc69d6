-- ===== src/Execution/Running/Completed.antt =====
-- `run` of a submission that waits at the head of the queue.
use chemistry.Prelude.{ℕ, ◌+◌, ℤ, ◌<◌, String, none, ◌≡◌, string_eq}
use chemistry.Runtime.State.{RuntimeState, RuntimeOperationRecord, RuntimeRequestSnapshot}
use chemistry.Runtime.Errors.{ok}
use chemistry.Execution.Helpers.{Environment, TurnMode, fresh}
use chemistry.Execution.Running.{TurnRun, ModelTurn}
use chemistry.Execution.Running.Run.{RunDraws, run_operation}
use chemistry.Execution.Running.Ready.{numbered}
use chemistry.Execution.Running.Finished.{Timely, Completes, execute_streaming-Completes}
use chemistry.Execution.Running.Started.{Claimable, Starts, run_operation-Starts}

module _ (env : Environment) (id stream_id : String) (latest : ℤ) where
  -- A turn that started is run to its end.
  pub Starts-Completes :
      (mode : TurnMode) (turn : ModelTurn) {until : ℕ} {s : RuntimeState}
      {current : RuntimeOperationRecord} {run : TurnRun}
      → turn.failure ≡ none
      → Timely env until turn.events turn.ended_at
      → Starts env id stream_id mode turn 2 latest
          (numbered stream_id id latest turn.events)
          until
          s
          current
          run
      → Completes id stream_id (numbered stream_id id latest turn.events) run
  Starts-Completes mode turn ends timely started = rw started.begins (
      execute_streaming-Completes env turn id stream_id started.token mode started.own_id
        started.own_stream ends started.after started.ready timely)

  -- A submission that waits at the head of the queue of an idle session (or whose session it owns
  -- already), that has not ended nor been recovered, and that has room in its stream and its ledger,
  -- is run to its end when its request can be captured, the model ends without a failure, every event
  -- fits the limit of one event, and each step comes before the lease expires, which `markStreaming`
  -- and every event renew: the run has no failure, it publishes exactly the events of the model,
  -- numbered without a gap after the last stored one, and afterwards the operation and its stream
  -- are completed and the session is free. The storage answers every transaction, and no other writer
  -- interrupts the run.
  pub run_operation-Completes :
      (draws : RunDraws) (s : RuntimeState) (captured : RuntimeRequestSnapshot)
      → Claimable env id stream_id 4 latest (numbered stream_id id latest draws.turn.events) s
      → draws.request_snapshot ≡ ok captured
      → draws.turn.failure ≡ none
      → draws.prepared_at < draws.claimed_at + env.limits.lease_duration_ms
      → draws.streaming_at < draws.claimed_at + env.limits.lease_duration_ms
      → Timely env
          (draws.streaming_at + env.limits.lease_duration_ms)
          draws.turn.events
          draws.turn.ended_at
      → Completes id stream_id
          (numbered stream_id id latest draws.turn.events)
          (run_operation env draws id s)
  run_operation-Completes draws s captured h answer ends prepared_in_time streaming_in_time timely =
      Starts-Completes fresh draws.turn ends timely (
        run_operation-Starts env id stream_id draws captured answer s h prepared_in_time
          streaming_in_time)
