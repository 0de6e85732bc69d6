-- ===== src/Execution/Running/Broken.antt =====
-- `executeClaimed` of a turn whose model breaks off with a retryable error.
use chemistry.Prelude.{ℕ, ℤ, String, true, Option, none, some, List, ◌++◌, ◌≡◌, refl, arith, length}
use chemistry.Protocol.{DurableStreamEvent, AgentStreamEvent}
use chemistry.Runtime.State.{RuntimeState, RuntimeOperationRecord}
use chemistry.Runtime.Errors.{DurableExecutionError}
use chemistry.Execution.Helpers.{Environment, TurnMode, is_retryable_inference}
use chemistry.Execution.Running.{
  ModelTurn, TurnRun, append_all, or_else, conclude, end_run, handle, caught, execute_streaming,
  is_continuing, recoverable_failure,
}
use chemistry.Execution.Running.Ready.{Ready, Unbroken, IsStreaming, numbered}
use chemistry.Execution.Running.Finished.{Timely, AppendsAll, append_all-AppendsAll, latest_after}
use chemistry.Execution.Running.Due.{Due}
use chemistry.Execution.Running.Suspended.{Allows, schedule-Schedules}

-- The run published these events, ended without a failure and left the turn due for recovery by the
-- next boot.
pub record Suspends (env : Environment) (id stream_id boot : String)
    (events : List DurableStreamEvent) (latest : ℤ) (pending : List DurableStreamEvent) (now : ℕ)
    (run : TurnRun) : Type 0 where
  pub in_order : run.published ≡ events
  pub no_failure : run.failure ≡ none
  pub due : Due (record env { boot_id = boot }) id stream_id latest pending now run.state

module _ (env : Environment) (id stream_id boot : String) (token : RuntimeOperationRecord)
    (own : token.operation_id ≡ id) (on_stream : token.stream_id ≡ stream_id) (mode : TurnMode)
    (turn : ModelTurn) (error : DurableExecutionError)
    (retryable : is_retryable_inference error ≡ true) (later : List (AgentStreamEvent × ℕ))
    (work now : ℕ) where
  abbrev pub pending : ℤ → List DurableStreamEvent
  pending latest = numbered stream_id id (latest_after latest turn.events) later

  -- The turn has appended all its events.
  broken-Suspends :
      {latest : ℤ} (s : RuntimeState) (current : RuntimeOperationRecord) (appended : TurnRun)
      (failure : Option DurableExecutionError)
      → AppendsAll env id stream_id token 7 latest turn.events later turn.caught_at s current
          appended
      → Unbroken work s current
      → IsStreaming current
      → Allows env work (length (pending latest)) turn.caught_at now
      → failure ≡ some error
      → Suspends env id stream_id boot
          (numbered stream_id id latest turn.events)
          (latest_after latest turn.events)
          (pending latest)
          now
          (handle env token mode turn
            (end_run env token turn appended failure)
            (end_run env token turn appended failure).failure)
  unfolding end_run handle caught conclude
  broken-Suspends s current appended none all clear streaming budget e = absurd (ground (arith, e))
  broken-Suspends s current appended (some other) all clear streaming budget e =
      let same : other ≡ error = ground (arith, e) in
      let recoverable : recoverable_failure env token other ≡ true =
        ground (arith, retryable, same) in
      let scheduled =
        schedule-Schedules env id stream_id boot token own on_stream appended.state all.ready
          turn.caught_at all.in_time work now (all.unbroken work clear) (all.streaming streaming)
          budget other (is_continuing mode) turn.incident_id in
      rw (recoverable, scheduled.commits)
        (record { in_order = all.in_order; no_failure = refl; due = scheduled.due })

  pub execute_streaming-Suspends :
      turn.failure ≡ some error
      → {latest : ℤ} {until : ℕ} (s : RuntimeState)
      → (h : Ready env token 7 latest (numbered stream_id id latest (turn.events ++ later)) until s)
      → Unbroken work s h.current
      → IsStreaming h.current
      → Timely env until turn.events turn.caught_at
      → Allows env work (length (pending latest)) turn.caught_at now
      → Suspends env id stream_id boot
          (numbered stream_id id latest turn.events)
          (latest_after latest turn.events)
          (pending latest)
          now
          (execute_streaming env token mode turn s)
  unfolding execute_streaming
  execute_streaming-Suspends breaks s h clear streaming timely budget =
      let appended = append_all env token turn.events s in
      let all =
        append_all-AppendsAll env id stream_id token own on_stream turn.events later turn.caught_at
          s h timely in
      broken-Suspends s h.current appended (or_else appended.failure turn.failure) all clear
        streaming budget (rw (all.no_failure, breaks) refl)
