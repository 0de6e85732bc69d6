-- ===== src/Tests/Data.antt =====
-- One session, from its first submission to a failed turn and its recovery.
use chemistry.Prelude.{true, none, some, [], ◌∷◌, ◌++◌}
use chemistry.Protocol.{AgentStreamEvent, AgentRpcError, DurableStreamEvent}
use chemistry.Runtime.Limits.{default_runtime_limits}
use chemistry.Runtime.State.{
  RuntimeState, RuntimeOperationRecord, RuntimeStreamRecord, RuntimePhase, PhaseStatus,
  RuntimeStreamStatus, RecoveryIncident, RecoveryKind, RecoveryStatus, initial_runtime_state,
}
use chemistry.Runtime.Errors.{DurableExecutionError, rpc}
use chemistry.Execution.Helpers.{Environment, fresh, continuing}
use chemistry.Execution.Admission.{
  AdmitRequest, enqueue, admitted_operation, admitted_stream, install_claim, claimed_operation,
}
use chemistry.Execution.Turn.{
  next_event, install_append, appended_operation, appended_stream, phase_entry,
}
use chemistry.Execution.Recovery.{interrupted_operation, scheduled_incident, install_schedule}

-- Two boots of the Durable Object, with a fixed size for every event.
abbrev pub first_boot : Environment
first_boot = record {
  limits = default_runtime_limits;
  boot_id = "boot-1";
  encoded_size = λ event. 100;
  to_lower_case = λ text. text;
}

abbrev pub second_boot : Environment
second_boot = record first_boot { boot_id = "boot-2" }

abbrev pub request : AdmitRequest
request = record {
  prompt = "What is a mole?";
  submission_id = "submission-1";
  operation_id = "op-1";
  stream_id = "stream-1";
  request_snapshot = record {
    version = 1;
    provider = "workers-ai";
    model = "model";
    tool_step_limit = 8;
    context_strategy = "durable-session";
    context = record { system_prompt = "Help."; memory = "" };
    history_message_ids = [];
    compaction_ids = [];
    submitted_at = 1_000;
  };
}

abbrev pub empty_state : RuntimeState
empty_state = initial_runtime_state "session-1" "boot-1" 900

-- The turn is submitted, then claimed by the first boot.
abbrev pub queued_operation : RuntimeOperationRecord
queued_operation = admitted_operation request 1_000

abbrev pub queued_state : RuntimeState
queued_state = enqueue empty_state request 1_000

abbrev pub running_operation : RuntimeOperationRecord
running_operation = claimed_operation first_boot fresh queued_operation 1 1_100

abbrev pub running_state : RuntimeState
running_state = install_claim first_boot fresh queued_operation "op-1" 1_100 queued_state

-- It appends its first event.
abbrev pub first_event : DurableStreamEvent
first_event =
    next_event (admitted_stream request 1_000) running_operation (AgentStreamEvent.text_delta "It")
      1_200

abbrev pub streaming_operation : RuntimeOperationRecord
streaming_operation = appended_operation first_boot running_operation 1_200

abbrev pub streaming_stream : RuntimeStreamRecord
streaming_stream = appended_stream first_boot (admitted_stream request 1_000) first_event 1_200

abbrev pub streaming_state : RuntimeState
streaming_state =
    install_append first_boot running_state running_operation (admitted_stream request 1_000)
      first_event 1_200

-- The second boot claims it anew.
abbrev pub retaken_operation : RuntimeOperationRecord
retaken_operation = claimed_operation second_boot continuing streaming_operation 2 2_000

abbrev pub retaken_state : RuntimeState
retaken_state =
    install_claim second_boot continuing streaming_operation "op-1" 2_000 streaming_state

-- Or the model fails, and a recovery is scheduled.
abbrev pub failure : DurableExecutionError
failure = rpc (AgentRpcError.inference "stream-text" "reset")

abbrev pub failed_operation : RuntimeOperationRecord
failed_operation = record (interrupted_operation streaming_operation true "reset" 2_000) {
  effect_ledger =
      streaming_operation.effect_ledger
      ++ phase_entry streaming_operation RuntimePhase.inference PhaseStatus.failed 2_000 ∷ [];
}

abbrev pub incident_of : RuntimeState → RecoveryIncident
incident_of state =
    scheduled_incident first_boot state streaming_operation streaming_stream "incident-1" failure
      2_000

abbrev pub failed_state_of : RuntimeState → RuntimeState
failed_state_of state =
    install_schedule first_boot state streaming_operation streaming_stream failed_operation
      (incident_of state) failure 2_000

abbrev pub failed_state : RuntimeState
failed_state = failed_state_of streaming_state

abbrev pub failed_stream : RuntimeStreamRecord
failed_stream = record streaming_stream {
  status = RuntimeStreamStatus.interrupted;
  updated_at = 2_000;
  terminal_reason = some "reset";
}

-- A record that still holds the incident of another operation, out of attempts.
abbrev pub spent_incident : RecoveryIncident
spent_incident = record {
  incident_id = "incident-0";
  operation_id = "op-0";
  kind = RecoveryKind.pre_stream_retry;
  status = RecoveryStatus.exhausted;
  attempt = 5;
  progress_baseline = 0;
  recovery_work = 0;
  oom_strikes = 0;
  first_seen_at = 100;
  last_progress_at = 100;
  scheduled_at = none;
  terminal_reason = some "recovery-attempts-exhausted";
}

abbrev pub spent_state : RuntimeState
spent_state = record streaming_state { recovery = some spent_incident }
