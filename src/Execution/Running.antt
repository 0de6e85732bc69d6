-- ===== src/Execution/Running.antt =====
-- `executeClaimed` of durable-execution.ts, for one run of the language model that no other writer
-- interrupts: the model's stream is the list of its events and how it ended.
pub mod Stored
pub mod Run
pub mod Published
pub mod Restored
pub mod Recovered
pub mod Ready
pub mod Entered
pub mod Effects
pub mod Finished
pub mod Started
pub mod Completed
pub mod Due
pub mod Resumed
pub mod Suspended
pub mod Broken
pub mod Durable
pub mod Woken
use chemistry.Prelude.{
  ℕ, String, Bool, true, false, ◌||◌, Option, none, some, List, [], ◌∷◌, if◌then◌else◌, ltb,
}
use chemistry.Protocol.{AgentStreamEvent, DurableStreamEvent}
use chemistry.Runtime.State.{RuntimeState, RuntimeOperationRecord}
use chemistry.Runtime.Errors.{DurableExecutionError, Result, ok, err}
use chemistry.Execution.Helpers.{
  Environment, TurnMode, fresh, continuing, error_message, is_retryable_inference,
  is_memory_limit_reset,
}
use chemistry.Execution.Turn.{mark_streaming, append}
use chemistry.Execution.Settle.{Outcome, settle}
use chemistry.Execution.Recovery.{schedule_recovery_after_failure}

-- What `executor.execute` produced: its events with the times at which they are stored, its failure
-- (a stall is one), and the times and the identifier that the end of the turn draws.
pub record ModelTurn : Type 0 where
  pub events : List (AgentStreamEvent × ℕ)
  pub failure : Option DurableExecutionError
  pub ended_at : ℕ
  pub caught_at : ℕ
  pub incident_id : String

-- What the stream emitted to its consumers, the record that it left, and its own failure.
pub record TurnRun : Type 0 where
  pub published : List DurableStreamEvent
  pub state : RuntimeState
  pub failure : Option DurableExecutionError

abbrev pub is_continuing : TurnMode → Bool
is_continuing fresh = false
is_continuing continuing = true

-- `Stream.mapEffect((event) => append(sessionId, streaming, event))`
unfoldable pub append_all :
    Environment → RuntimeOperationRecord → List (AgentStreamEvent × ℕ) → RuntimeState → TurnRun
append_all env streaming [] state = record { published = []; state = state; failure = none }
append_all env streaming ((event, now) ∷ rest) state = elim (append env streaming event now state) [
  | err error ↦ record { published = []; state = state; failure = some error }
  | ok stored ↦
      let more = append_all env streaming rest stored.0 in
      record more { published = stored.1 ∷ more.published }
]

-- The last transaction of a turn; `failure` is how the stream ends when it commits.
unfoldable pub conclude :
    {A : Type 0} → Result (RuntimeState × A) → TurnRun → Option DurableExecutionError → TurnRun
conclude (ok (next, value)) run failure = record run { state = next; failure = failure }
conclude (err error) run failure = record run { failure = some error }

abbrev pub recoverable_failure : Environment → RuntimeOperationRecord → DurableExecutionError → Bool
recoverable_failure env streaming error =
    ltb 0 streaming.attempt || is_retryable_inference error || is_memory_limit_reset env error

-- `Stream.catchIf`
unfoldable pub caught :
    Environment
    → RuntimeOperationRecord
    → TurnMode
    → ModelTurn
    → DurableExecutionError
    → TurnRun
    → TurnRun
unfolding conclude
caught env streaming mode turn error run =
    if recoverable_failure env streaming error
    then conclude
        (schedule_recovery_after_failure env streaming error (is_continuing mode) turn.incident_id
          turn.caught_at run.state)
        run none
    else conclude
        (settle env streaming Outcome.failed (some (error_message error)) turn.caught_at run.state)
        run (some error)

abbrev or_else :
    Option DurableExecutionError → Option DurableExecutionError → Option DurableExecutionError
or_else none later = later
or_else (some error) later = some error

-- `Stream.onEnd(settle(…))`: only a stream that has not failed is settled.
unfoldable pub end_run :
    Environment
    → RuntimeOperationRecord
    → ModelTurn
    → TurnRun
    → Option DurableExecutionError
    → TurnRun
unfolding conclude
end_run env streaming turn run (some error) = record run { failure = some error }
end_run env streaming turn run none =
    conclude (settle env streaming Outcome.completed none turn.ended_at run.state) run none

-- The handler of every failure.
unfoldable pub handle :
    Environment
    → RuntimeOperationRecord
    → TurnMode
    → ModelTurn
    → TurnRun
    → Option DurableExecutionError
    → TurnRun
unfolding caught
handle env streaming mode turn run none = run
handle env streaming mode turn run (some error) = caught env streaming mode turn error run

unfoldable pub execute_streaming :
    Environment → RuntimeOperationRecord → TurnMode → ModelTurn → RuntimeState → TurnRun
unfolding end_run handle
execute_streaming env streaming mode turn state =
    let appended = append_all env streaming turn.events state in
    let ended = end_run env streaming turn appended (or_else appended.failure turn.failure) in
    handle env streaming mode turn ended ended.failure

unfoldable pub execute_claimed :
    Environment → RuntimeOperationRecord → TurnMode → ModelTurn → ℕ → RuntimeState → TurnRun
execute_claimed env operation mode turn now state = elim (mark_streaming env operation now state) [
  | err error ↦ record { published = []; state = state; failure = some error }
  | ok marked ↦ execute_streaming env marked.1 mode turn marked.0
]
