-- ===== src/Execution/Admission.antt =====
-- `admit` and `claim` of durable-execution.ts. The identifiers that `ids` allocates, the request
-- snapshot that `executor.captureRequest` returns and the clock are arguments.
use chemistry.Prelude.{
  ℕ, ◌+◌, String, minus_one, Bool, true, false, ◌&&◌, ◌||◌, not, Option, none, some, List, [], ◌∷◌,
  ◌++◌, ◌==◌, string_eq, nullable_eq, is_none, if◌then◌else◌, ltb, length, find, filter, head?,
  get_or_else,
}
pub mod Idempotence
use chemistry.Prelude.Text.{◌&◌, decimal}
use chemistry.Protocol.{RuntimeOperationStatus, RuntimeCheckpoint, is_completed, is_failed}
use chemistry.Runtime.Limits.{RuntimeLimits}
use chemistry.Runtime.State.{
  RuntimeState, RuntimeOperationRecord, RuntimeStreamRecord, RuntimeStreamStatus, RuntimePhase,
  PhaseStatus, RuntimePhaseEffect, RuntimeRequestSnapshot, find_runtime_operation,
}
use chemistry.Runtime.Errors.{
  DurableExecutionError, transition, capacity, Result, ok, err, ◌>>=◌, ◌>>◌, guard, or_fail,
  return_if, on_null, Mutation,
}
use chemistry.Execution.Helpers.{
  Environment, TurnMode, fresh, continuing, replace_operation, queue_position, phase_effect_key,
}

pub record RuntimeAdmission : Type 0 where
  pub operation : RuntimeOperationRecord
  pub queue_position : ℕ
  pub duplicate : Bool

-- What one call of `admit` is given, with the identifiers drawn for it.
pub record AdmitRequest : Type 0 where
  pub prompt : String
  pub submission_id : String
  pub operation_id : String
  pub stream_id : String
  pub request_snapshot : RuntimeRequestSnapshot

abbrev pub completed_effect : String → RuntimePhase → ℕ → RuntimePhaseEffect
completed_effect operation_id phase now = record {
  effect_key = phase_effect_key operation_id phase 0;
  phase = phase;
  status = PhaseStatus.completed;
  generation = 0;
  attempt = 0;
  updated_at = now;
}

unfoldable pub admitted_operation : AdmitRequest → ℕ → RuntimeOperationRecord
admitted_operation request now = record {
  operation_id = request.operation_id;
  submission_id = request.submission_id;
  stream_id = request.stream_id;
  kind = "agent-turn";
  input = record { prompt = request.prompt };
  request_snapshot = request.request_snapshot;
  effect_ledger =
      completed_effect request.operation_id RuntimePhase.request_snapshot now
      ∷ completed_effect request.operation_id RuntimePhase.admission now
      ∷ [];
  user_message_id = request.operation_id & ":user";
  assistant_message_id = request.operation_id & ":assistant";
  status = RuntimeOperationStatus.queued;
  checkpoint = RuntimeCheckpoint.admitted;
  generation = 0;
  attempt = 0;
  progress = 0;
  recovery_work = 0;
  owner_boot_id = none;
  lease_expires_at = none;
  created_at = now;
  updated_at = now;
  terminal_reason = none;
}

unfoldable pub admitted_stream : AdmitRequest → ℕ → RuntimeStreamRecord
admitted_stream request now = record {
  stream_id = request.stream_id;
  operation_id = request.operation_id;
  status = RuntimeStreamStatus.opened;
  latest_sequence = minus_one;
  encoded_bytes = 0;
  events = [];
  created_at = now;
  updated_at = now;
  expires_at = none;
  terminal_reason = none;
}

unfoldable pub find_submission : RuntimeState → String → Option RuntimeOperationRecord
find_submission state submission_id =
    find (λ operation. operation.submission_id == submission_id) state.operations

-- The state after a new submission.
unfoldable pub enqueue : RuntimeState → AdmitRequest → ℕ → RuntimeState
enqueue state request now = record state {
  operations = state.operations ++ admitted_operation request now ∷ [];
  queue = state.queue ++ request.operation_id ∷ [];
  streams = state.streams ++ admitted_stream request now ∷ [];
}

abbrev pub queue_error : Environment → DurableExecutionError
queue_error env =
    let limit = env.limits.max_queued_turns in
    capacity "turn-queue" limit ("Turn queue is limited to " & decimal limit & " submissions")

abbrev pub new_admission : RuntimeState → AdmitRequest → ℕ → RuntimeAdmission
new_admission state request now = record {
  operation = admitted_operation request now;
  queue_position = queue_position (enqueue state request now) request.operation_id;
  duplicate = false;
}

admit_new : Environment → AdmitRequest → ℕ → Mutation RuntimeAdmission
admit_new env request now state = do
  guard (ltb (length state.queue) env.limits.max_queued_turns) (queue_error env)
  ok (enqueue state request now, new_admission state request now)

unfoldable pub admit : Environment → AdmitRequest → ℕ → Mutation RuntimeAdmission
unfolding admit_new
admit env request now state =
    on_null (find_submission state request.submission_id) (admit_new env request now state)
      λ existing. ok (
        state,
        record {
          operation = existing;
          queue_position = queue_position state existing.operation_id;
          duplicate = true;
        },
      )

pub data ClaimResult : Type 0 where
  terminal claimed : RuntimeOperationRecord → ClaimResult

abbrev pub is_fresh : TurnMode → Bool
is_fresh fresh = true
is_fresh continuing = false

unfoldable pub claimed_operation :
    Environment → TurnMode → RuntimeOperationRecord → ℕ → ℕ → RuntimeOperationRecord
claimed_operation env mode operation generation now = record operation {
  status =
      if is_fresh mode then RuntimeOperationStatus.running else RuntimeOperationStatus.recovering;
  checkpoint =
      if is_fresh mode then RuntimeCheckpoint.preparing else RuntimeCheckpoint.partial_persisted;
  generation = generation;
  attempt = if is_fresh mode then operation.attempt else operation.attempt + 1;
  owner_boot_id = some env.boot_id;
  lease_expires_at = some (now + env.limits.lease_duration_ms);
  updated_at = now;
}

unfoldable pub install_claim :
    Environment → TurnMode → RuntimeOperationRecord → String → ℕ → RuntimeState → RuntimeState
install_claim env mode operation operation_id now state =
    let generation = state.generation + 1 in
    record state {
      boot_id = env.boot_id;
      generation = generation;
      operations = replace_operation state (claimed_operation env mode operation generation now);
      queue = filter (λ queued_id. not (queued_id == operation_id)) state.queue;
      active_operation_id = some operation_id;
      last_wake_at = now;
    }

-- The two conditions under which a claim may go on.
abbrev pub session_free : RuntimeState → String → Bool
session_free state operation_id =
    is_none state.active_operation_id || state.active_operation_id == some operation_id

abbrev pub fifo_head : TurnMode → RuntimeState → String → Bool
fifo_head mode state operation_id =
    not (is_fresh mode)
    || not (is_none state.active_operation_id)
    || head? state.queue == some operation_id

claim_live : Environment → TurnMode → RuntimeOperationRecord → String → ℕ → Mutation ClaimResult
claim_live env mode operation operation_id now state = do
  guard (session_free state operation_id) (
      transition "claim"
        ("Operation " & get_or_else state.active_operation_id "null" & " already owns the session"))
  guard (fifo_head mode state operation_id)
      (transition "claim" ("Operation " & operation_id & " is not FIFO head"))
  ok (
    install_claim env mode operation operation_id now state,
    claimed (claimed_operation env mode operation (state.generation + 1) now),
  )

unfoldable pub claim : Environment → String → TurnMode → ℕ → Mutation ClaimResult
unfolding claim_live
claim env operation_id mode now state = do
  operation ←
      or_fail (find_runtime_operation state operation_id)
        (transition "claim" ("Operation " & operation_id & " does not exist"))
  return_if (is_completed operation.status || is_failed operation.status)
      (state, terminal operation) (claim_live env mode operation operation_id now state)
