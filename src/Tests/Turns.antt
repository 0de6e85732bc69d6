-- ===== src/Tests/Turns.antt =====
-- The turns of the tests, run to their end.
use chemistry.Prelude.{some, ◌++◌, List, minus_one, pos, ◌+ℤ◌, [], refl, string_eq, arith}
use chemistry.Runtime.State.{initial_runtime_state, find_runtime_operation}
use chemistry.Execution.Helpers.{
  is_retryable_inference, find_stream, replace_operation, replace_stream, classify_recovery,
}
use chemistry.Execution.Admission.{
  enqueue, admitted_operation, admitted_stream, install_claim, claimed_operation,
}
use chemistry.Execution.Running.Run.{RunDraws, run_operation, recover_turn}
use chemistry.Execution.Running.Ready.{numbered}
use chemistry.Execution.Running.Finished.{Completes}
use chemistry.Execution.Running.Due.{continues}
use chemistry.Execution.Running.Resumed.{Answers}
use chemistry.Execution.Wake.{wake, owned_here}
use chemistry.Runtime.Errors.{transact}
use chemistry.Execution.Running.Woken.{Orphaned, Revives, wake-recover_turn}
use chemistry.Execution.Running.Started.{Claimable}
use chemistry.Execution.Running.Durable.{Endures, run_operation-recover_turn}
use chemistry.Execution.Running.Completed.{run_operation-Completes}
use chemistry.Execution.Turn.{next_event, install_append, appended_operation, appended_stream}
use chemistry.Tests.Data.{
  streaming_operation, streaming_stream, failure, first_boot, second_boot, request,
  queued_operation, queued_state, streaming_state,
}
use chemistry.Protocol.{DurableStreamEvent}
use chemistry.Tests.Runs.{model_turn, run_draws, recover_draws, later_draws}

-- What the model says, as it will be stored.
abbrev said : List DurableStreamEvent
said = numbered "stream-1" "op-1" minus_one model_turn.events

queued_state-Claimable : Claimable first_boot "op-1" "stream-1" 4 minus_one said queued_state
unfolding find_stream find_runtime_operation enqueue admitted_operation admitted_stream
    initial_runtime_state
queued_state-Claimable = record {
  operation = queued_operation;
  stream = admitted_stream request 1_000;
  found = refl;
  on_stream = refl;
  at = refl;
  live = refl;
  first = refl;
  free = refl;
  at_head = refl;
  ledger = omega arith;
  last = refl;
  room = omega arith;
  size = omega arith;
  fits = (omega arith, tt);
}

run_operation-Completes_example :
    Completes "op-1" "stream-1" said (run_operation first_boot run_draws "op-1" queued_state)
run_operation-Completes_example =
    run_operation-Completes first_boot "op-1" "stream-1" minus_one run_draws queued_state
      request.request_snapshot queued_state-Claimable refl refl (omega arith) (omega arith)
      (omega arith, omega arith)

-- The recovery of the failed turn.
abbrev resumed : List DurableStreamEvent
resumed = numbered "stream-1" "op-1" (pos 0) later_draws.turn.events

answering : Answers second_boot recover_draws request.request_snapshot
answering = record {
  unanswered = refl;
  persists = λ assistant_message_id text. refl;
  captures = refl;
  ends = refl;
  prepared_in_time = omega arith;
  begun_in_time = omega arith;
  completed_in_time = omega arith;
  streaming_in_time = omega arith;
  timely = (omega arith, omega arith);
}

-- The model of the first boot breaks off, and the second boot ends the turn.
abbrev broken_draws : RunDraws
broken_draws = record run_draws { turn = record model_turn { failure = some failure } }

abbrev said_twice : List DurableStreamEvent
said_twice =
    numbered "stream-1" "op-1" minus_one (broken_draws.turn.events ++ later_draws.turn.events)

queued_state-Claimable_twice :
    Claimable first_boot "op-1" "stream-1" 9 minus_one said_twice queued_state
unfolding find_stream find_runtime_operation enqueue admitted_operation admitted_stream
    initial_runtime_state
queued_state-Claimable_twice = record {
  operation = queued_operation;
  stream = admitted_stream request 1_000;
  found = refl;
  on_stream = refl;
  at = refl;
  live = refl;
  first = refl;
  free = refl;
  at_head = refl;
  ledger = omega arith;
  last = refl;
  room = omega arith;
  size = omega arith;
  fits = (omega arith, (omega arith, tt));
}

run_operation-recover_turn_example :
    Endures "op-1" "stream-1" []
      (numbered "stream-1" "op-1" minus_one broken_draws.turn.events)
      (numbered "stream-1" "op-1" (minus_one +ℤ pos 1) later_draws.turn.events)
      (run_operation first_boot broken_draws "op-1" queued_state)
      (recover_turn second_boot recover_draws
        (run_operation first_boot broken_draws "op-1" queued_state).state)
unfolding admitted_operation admitted_stream enqueue initial_runtime_state
    queued_state-Claimable_twice is_retryable_inference
run_operation-recover_turn_example =
    run_operation-recover_turn first_boot "op-1" "stream-1" "boot-2" minus_one broken_draws
      recover_draws queued_state 0 queued_state-Claimable_twice (refl, refl, refl)
      request.request_snapshot refl (omega arith) (omega arith) (omega arith, omega arith) failure
      refl refl
      (record {
        attempts = omega arith;
        strikes = omega arith;
        spent = omega arith;
        spare = omega arith;
        debounced = omega arith;
        recent = omega arith;
      })
      request.request_snapshot answering

-- The first boot is lost while the turn streams, and the second boot wakes.
streaming_state-Orphaned :
    Orphaned second_boot "op-1" "stream-1" (pos 0) resumed 2_000 streaming_state
unfolding find_stream find_runtime_operation enqueue admitted_operation admitted_stream
    initial_runtime_state install_claim claimed_operation install_append appended_operation
    appended_stream replace_operation replace_stream classify_recovery next_event ◌+ℤ◌ owned_here
streaming_state-Orphaned = record {
  operation = streaming_operation;
  stream = streaming_stream;
  active = refl;
  found = refl;
  on_stream = refl;
  at = refl;
  lost = refl;
  no_incident = refl;
  kind = continues;
  ledger = omega arith;
  last = refl;
  room = omega arith;
  size = omega arith;
  fits = (omega arith, tt);
}

wake-recover_turn_example :
    Revives "op-1" "stream-1" 3_000 streaming_stream.events resumed
      (transact (wake second_boot "incident-2" 2_000) streaming_state).0
      (recover_turn second_boot recover_draws
        (transact (wake second_boot "incident-2" 2_000) streaming_state).1)
unfolding claimed_operation admitted_operation appended_operation appended_stream admitted_stream
    streaming_state-Orphaned
wake-recover_turn_example =
    wake-recover_turn second_boot "op-1" "stream-1" (pos 0) recover_draws "incident-2" 2_000
      streaming_state request.request_snapshot streaming_state-Orphaned
      (record {
        attempts = omega arith;
        strikes = omega arith;
        spent = omega arith;
        spare = omega arith;
        debounced = omega arith;
        recent = omega arith;
      })
      answering
