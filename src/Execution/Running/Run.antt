-- ===== src/Execution/Running/Run.antt =====
-- `run` and `recover` of durable-execution.ts, under the permit that lets one turn run at a time, for
-- turns that no other writer interrupts.
use chemistry.Prelude.{ℕ, String, Bool, true, false, none, some, List, [], minus_one, if◌then◌else◌}
use chemistry.Protocol.{DurableStreamEvent}
use chemistry.Runtime.State.{
  RuntimeState, RuntimeOperationRecord, RuntimeRequestSnapshot, RuntimePhase, RecoveryKind,
}
use chemistry.Runtime.Errors.{DurableExecutionError, Result, ok, err, transact}
use chemistry.Execution.Helpers.{Environment, TurnMode, fresh, continuing, phase_effect_key}
use chemistry.Execution.Admission.{ClaimResult, claimed, claim}
use chemistry.Execution.Turn.{persist_request_snapshot}
use chemistry.Execution.Settle.{begin_phase_effect, complete_phase_effect}
use chemistry.Execution.Recovery.{reconcile_candidate, reconcile_terminal}
use chemistry.Execution.Prepare.{
  RecoveryPreparation, noop, exhausted, parked, attempt, prepare_recovery,
}
use chemistry.Execution.Reading.{replay}
use chemistry.Execution.Running.{ModelTurn, TurnRun, execute_claimed}

-- What a run draws from the clock and the executor, in the order of its steps.
pub record RunDraws : Type 0 where
  pub claimed_at : ℕ
  pub request_snapshot : Result RuntimeRequestSnapshot
  pub prepared_at : ℕ
  pub streaming_at : ℕ
  pub turn : ModelTurn

abbrev pub failed_run : DurableExecutionError → RuntimeState → TurnRun
failed_run error state = record { published = []; state = state; failure = some error }

abbrev pub finished_run : List DurableStreamEvent → RuntimeState → TurnRun
finished_run events state = record { published = events; state = state; failure = none }

-- The next step of a stream over the committed record.
unfoldable pub next_run {ℓ} :
    {A : Type ℓ} → Result A × RuntimeState → (A → RuntimeState → TurnRun) → TurnRun
next_run (ok value, state) next = next value state
next_run (err error, state) next = failed_run error state

unfoldable pub run_prepared :
    Environment → RunDraws → RuntimeOperationRecord → TurnMode → RuntimeState → TurnRun
run_prepared env draws operation mode =
    execute_claimed env operation mode draws.turn draws.streaming_at

-- The request as it is when the phase starts.
unfoldable pub prepare_request :
    Environment
    → RunDraws
    → RuntimeOperationRecord
    → RuntimeState
    → Result RuntimeOperationRecord × RuntimeState
prepare_request env draws operation state = elim draws.request_snapshot [
  | err error ↦ (err error, state)
  | ok captured ↦ transact (persist_request_snapshot env operation captured draws.prepared_at) state
]

-- What a claim leads to.
unfoldable pub run_claimed :
    Environment → RunDraws → TurnMode → ClaimResult → RuntimeState → TurnRun
run_claimed env draws mode (ClaimResult.terminal operation) state =
    next_run (replay state operation.stream_id minus_one, state)
      λ window later. finished_run window.events later
run_claimed env draws continuing (claimed operation) state =
    run_prepared env draws operation continuing state
run_claimed env draws fresh (claimed operation) state =
    next_run (prepare_request env draws operation state)
      λ prepared later. run_prepared env draws prepared fresh later

unfoldable pub run_unlocked : Environment → RunDraws → String → TurnMode → RuntimeState → TurnRun
run_unlocked env draws operation_id mode state =
    next_run (transact (claim env operation_id mode draws.claimed_at) state)
      (run_claimed env draws mode)

unfoldable pub run_operation : Environment → RunDraws → String → RuntimeState → TurnRun
run_operation env draws operation_id state = run_unlocked env draws operation_id fresh state

-- What a recovery draws besides.
pub record RecoverDraws : Type 0 where
  pub has_assistant_message : Result Bool
  pub reconciled_at : ℕ
  pub recovered_at : ℕ
  pub begun_at : ℕ
  pub persist_partial : (assistant_message_id : String) (text : String) → Result (Unit {0})
  pub completed_at : ℕ
  pub run : RunDraws

-- `reconcileTranscriptTerminal`
unfoldable pub reconcile_transcript :
    Environment → RecoverDraws → RuntimeState → Result Bool × RuntimeState
reconcile_transcript env draws state = elim (reconcile_candidate state) [
  | none ↦ (ok false, state)
  | some operation ↦ elim draws.has_assistant_message [
    | err error ↦ (err error, state)
    | ok false ↦ (ok false, state)
    | ok true ↦ transact (reconcile_terminal env operation draws.reconciled_at) state
  ]
]

-- The partial answer is in the transcript before its continuation runs.
unfoldable pub persist_transcript :
    Environment
    → RecoverDraws
    → RuntimeOperationRecord
    → (partial : String) → Bool
    → RuntimeState
    → TurnRun
persist_transcript env draws prepared partial false state =
    run_prepared env draws.run prepared continuing state
persist_transcript env draws prepared partial true state =
    next_run (draws.persist_partial prepared.assistant_message_id partial, state)
      λ persisted later.
        next_run
          (transact
            (complete_phase_effect env prepared RuntimePhase.transcript_partial
              (phase_effect_key prepared.operation_id RuntimePhase.transcript_partial 0)
              draws.completed_at)
            later)
          λ completed last. run_prepared env draws.run prepared continuing last

unfoldable pub continue_partial :
    Environment
    → RecoverDraws
    → RuntimeOperationRecord
    → (partial : String) → RuntimeState
    → TurnRun
continue_partial env draws operation partial state =
    next_run (prepare_request env draws.run operation state) λ prepared later.
      next_run
        (transact
          (begin_phase_effect env prepared RuntimePhase.transcript_partial
            (phase_effect_key prepared.operation_id RuntimePhase.transcript_partial 0)
            draws.begun_at)
          later)
        (persist_transcript env draws prepared partial)

unfoldable pub retry_turn :
    Environment → RecoverDraws → RuntimeOperationRecord → RuntimeState → TurnRun
retry_turn env draws operation state =
    next_run (prepare_request env draws.run operation state)
      λ prepared later. run_prepared env draws.run prepared fresh later

unfoldable pub recover_prepared :
    Environment → RecoverDraws → RecoveryPreparation → RuntimeState → TurnRun
recover_prepared env draws (noop operation) state = finished_run [] state
recover_prepared env draws (exhausted operation) state = finished_run [] state
recover_prepared env draws (parked operation) state = finished_run [] state
recover_prepared env draws (attempt operation RecoveryKind.partial_continuation partial) state =
    continue_partial env draws operation partial state
recover_prepared env draws (attempt operation RecoveryKind.pre_stream_retry partial) state =
    retry_turn env draws operation state
recover_prepared env draws (attempt operation kind partial) state = finished_run [] state

unfoldable pub recover_turn : Environment → RecoverDraws → RuntimeState → TurnRun
recover_turn env draws state = next_run (reconcile_transcript env draws state) λ reconciled later.
    if reconciled
    then finished_run [] later
    else next_run (transact (prepare_recovery env draws.recovered_at) later)
        (recover_prepared env draws)
