-- ===== src/Tests/Runs.antt =====
-- A run that is broadcast to the sockets of the tests.
use chemistry.Prelude.{false, none, [], ◌∷◌, ◌≡◌, refl, string_eq}
use chemistry.Runtime.State.{initial_runtime_state, find_runtime_operation}
use chemistry.Runtime.Errors.{ok}
use chemistry.Execution.Helpers.{find_stream, replace_operation, replace_stream, error_message}
use chemistry.Execution.Admission.{
  enqueue, admitted_operation, admitted_stream, install_claim, claimed_operation,
}
use chemistry.Execution.Running.Run.{RunDraws, RecoverDraws, run_operation, recover_turn}
use chemistry.Execution.Running.Stored.{Publishes}
use chemistry.Execution.Running.Recovered.{recover_turn-Publishes}
use chemistry.Execution.Running.Published.{Tracks}
use chemistry.Adapter.Runs.{broadcast_run}
use chemistry.Adapter.Runs.Told.{Tells, broadcast_run-run_operation}
use chemistry.Execution.Turn.{install_append, appended_operation, appended_stream}
use chemistry.Execution.Recovery.{install_schedule, scheduled_incident}
use chemistry.Tests.Data.{
  first_boot, second_boot, request, queued_operation, queued_state, streaming_stream,
  streaming_state, failed_state, failed_operation, failed_stream, incident_of,
}
use chemistry.Protocol.{AgentStreamEvent}
use chemistry.Execution.Running.{ModelTurn}
use chemistry.Tests.Connections.{state}

-- The model says one more word and ends.
abbrev pub model_turn : ModelTurn
model_turn = record {
  events = (AgentStreamEvent.text_delta " is", 1_400) ∷ [];
  failure = none;
  ended_at = 1_500;
  caught_at = 1_600;
  incident_id = "incident-1";
}

-- The first boot claims the turn, and the model says a word and ends.
abbrev pub run_draws : RunDraws
run_draws = record {
  claimed_at = 1_100;
  request_snapshot = ok request.request_snapshot;
  prepared_at = 1_150;
  streaming_at = 1_200;
  turn = model_turn;
}

queued : Tracks "op-1" "stream-1" [] queued_state
unfolding find_stream find_runtime_operation enqueue admitted_operation admitted_stream
    initial_runtime_state
queued = record {
  operation = queued_operation;
  found = refl;
  on_stream = refl;
  stored = record { stream = admitted_stream request 1_000; found = refl; holds = refl };
}

broadcast_run-run_operation_example :
    Tells "session-1" "stream-1" []
      (run_operation first_boot run_draws "op-1" queued_state)
      (state queued_state)
      (broadcast_run "session-1"
        (run_operation first_boot run_draws "op-1" queued_state)
        (state queued_state))
unfolding admitted_operation queued
broadcast_run-run_operation_example =
    broadcast_run-run_operation first_boot run_draws "session-1" "op-1" "stream-1" []
      (state queued_state) queued (λ id. refl) refl

-- Or the model had failed, and the second boot goes on from the partial answer.
abbrev pub later_draws : RunDraws
later_draws = record {
  claimed_at = 4_000;
  request_snapshot = ok request.request_snapshot;
  prepared_at = 4_050;
  streaming_at = 4_300;
  turn = record model_turn {
    events = (AgentStreamEvent.text_delta " is", 4_400) ∷ [];
    ended_at = 4_500;
    caught_at = 4_600;
  };
}

abbrev pub recover_draws : RecoverDraws
recover_draws = record {
  has_assistant_message = ok false;
  reconciled_at = 3_900;
  recovered_at = 4_000;
  begun_at = 4_100;
  persist_partial = λ assistant_message_id text. ok tt;
  completed_at = 4_200;
  run = later_draws;
}

interrupted : Tracks "op-1" "stream-1" streaming_stream.events failed_state
unfolding find_stream find_runtime_operation enqueue admitted_operation admitted_stream
    initial_runtime_state install_claim claimed_operation install_append appended_operation
    appended_stream replace_operation replace_stream install_schedule error_message
interrupted = record {
  operation = failed_operation;
  found = refl;
  on_stream = refl;
  stored = record { stream = failed_stream; found = refl; holds = refl };
}

same_operation : (incident_of streaming_state).operation_id ≡ "op-1"
unfolding scheduled_incident claimed_operation appended_operation admitted_operation
same_operation = refl

recover_turn-Publishes_example :
    Publishes "stream-1" streaming_stream.events
      (recover_turn second_boot recover_draws failed_state)
unfolding install_schedule
recover_turn-Publishes_example =
    recover_turn-Publishes "op-1" "stream-1" streaming_stream.events second_boot failed_state
      (incident_of streaming_state) refl same_operation interrupted recover_draws
