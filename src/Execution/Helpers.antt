-- ===== src/Execution/Helpers.antt =====
-- The functions above `makeDurableExecutionLayer` in durable-execution.ts, and what its closure
-- holds.
use text.Mathlib.Text.{find?}
use chemistry.Prelude.{
  ℕ, pos, ◌+◌, String, Bool, false, ◌&&◌, ◌||◌, not, Option, none, some, List, [], ◌∷◌, ◌++◌, map,
  ◌==◌, string_eq, nullable_eq, nat_eq, is_none, if◌then◌else◌, leb, ltb, ltb_ℤ, length, find,
  find_index,
}
use chemistry.Prelude.Text.{◌&◌, decimal}
use chemistry.Protocol.{
  AgentRpcError, AgentStreamEvent, DurableStreamEvent, is_completed, is_failed, is_parked,
  at_parked, at_streaming, at_partial_persisted,
}
use chemistry.Runtime.Limits.{RuntimeLimits}
use chemistry.Runtime.State.{
  RuntimeState, RuntimeOperationRecord, RuntimeStreamRecord, RuntimePhase, RuntimePhaseEffect,
  RuntimeRequestSnapshot, RecoveryKind, stream_completed, stream_failed,
}
use chemistry.Runtime.Errors.{
  DurableExecutionError, rpc, persistence, transition, capacity, cursor, fence,
}

-- What the closure of the layer holds: the limits, the identity of this boot, and two functions of
-- the JavaScript engine: the bytes of `JSON.stringify` in UTF-8, and `toLowerCase`.
pub record Environment : Type 0 where
  pub limits : RuntimeLimits
  pub boot_id : String
  pub encoded_size : DurableStreamEvent → ℕ
  pub to_lower_case : String → String

unfoldable pub replace_operation :
    RuntimeState → RuntimeOperationRecord → List RuntimeOperationRecord
replace_operation state operation =
    map
      (λ candidate.
        if candidate.operation_id == operation.operation_id then operation else candidate)
      state.operations

unfoldable pub replace_stream : RuntimeState → RuntimeStreamRecord → List RuntimeStreamRecord
replace_stream state stream =
    map (λ candidate. if candidate.stream_id == stream.stream_id then stream else candidate)
      state.streams

unfoldable pub find_stream : RuntimeState → String → Option RuntimeStreamRecord
find_stream state stream_id = find (λ stream. stream.stream_id == stream_id) state.streams

unfoldable pub queue_position : RuntimeState → String → ℕ
queue_position state operation_id =
    if state.active_operation_id == some operation_id
    then 0
    else elim (find_index (λ queued_id. queued_id == operation_id) state.queue) [
      | none ↦ 0
      | some index ↦ index + (if is_none state.active_operation_id then 0 else 1)
    ]

unfoldable pub classify_recovery : RuntimeOperationRecord → RuntimeStreamRecord → RecoveryKind
classify_recovery operation stream =
    if is_parked operation.status || at_parked operation.checkpoint
    then RecoveryKind.parked
    else if is_completed operation.status || is_failed operation.status
    then RecoveryKind.terminal_noop
    else if stream_completed stream.status || stream_failed stream.status
    then RecoveryKind.terminal_noop
    else if ltb_ℤ stream.latest_sequence (pos 0)
    then RecoveryKind.pre_stream_retry
    else if at_streaming operation.checkpoint || at_partial_persisted operation.checkpoint
    then RecoveryKind.partial_continuation
    else RecoveryKind.unrecoverable

abbrev delta_of : AgentStreamEvent → String
delta_of (AgentStreamEvent.text_delta delta) = delta
delta_of _ = ""

-- The loop `text += item.event.delta`.
partial_from : String → List DurableStreamEvent → String
partial_from text [] = text
partial_from text (item ∷ rest) = partial_from (text & delta_of item.event) rest

unfoldable pub partial_text : RuntimeStreamRecord → String
unfolding partial_from
partial_text stream = partial_from "" stream.events

pub data TurnMode : Type 0 where
  fresh continuing : TurnMode

pub record TurnExecutionInput : Type 0 where
  pub session_id : String
  pub operation_id : String
  pub submission_id : String
  pub stream_id : String
  pub prompt : String
  pub request_snapshot : RuntimeRequestSnapshot
  pub user_message_id : String
  pub assistant_message_id : String
  pub mode : TurnMode

unfoldable pub to_turn_input : RuntimeOperationRecord → String → TurnMode → TurnExecutionInput
to_turn_input operation session_id mode = record {
  session_id = session_id;
  operation_id = operation.operation_id;
  submission_id = operation.submission_id;
  stream_id = operation.stream_id;
  prompt = operation.input.prompt;
  request_snapshot = operation.request_snapshot;
  user_message_id = operation.user_message_id;
  assistant_message_id = operation.assistant_message_id;
  mode = mode;
}

upsert_entry : List RuntimePhaseEffect → RuntimePhaseEffect → ℕ → Option (List RuntimePhaseEffect)
upsert_entry ledger entry limit =
    elim (find_index (λ candidate. candidate.effect_key == entry.effect_key) ledger) [
      | none ↦ if leb limit (length ledger) then none else some (ledger ++ entry ∷ [])
      | some _ ↦ some (
          map (λ candidate. if candidate.effect_key == entry.effect_key then entry else candidate)
            ledger)
    ]

unfoldable pub upsert_phase_effect :
    RuntimeOperationRecord → RuntimePhaseEffect → ℕ → Option RuntimeOperationRecord
unfolding upsert_entry
upsert_phase_effect operation entry limit =
    elim (upsert_entry operation.effect_ledger entry limit) [
      | none ↦ none
      | some effect_ledger ↦ some (record operation { effect_ledger = effect_ledger })
    ]

abbrev pub phase_name : RuntimePhase → String
phase_name RuntimePhase.admission = "admission"
phase_name RuntimePhase.request_snapshot = "request-snapshot"
phase_name RuntimePhase.transcript_partial = "transcript-partial"
phase_name RuntimePhase.inference = "inference"
phase_name RuntimePhase.terminal = "terminal"

unfoldable pub phase_effect_key : String → RuntimePhase → ℕ → String
phase_effect_key operation_id phase generation =
    operation_id & ":" & phase_name phase & ":" & decimal generation

-- `owner !== null && owner === claimed`, and the lease is not over.
abbrev same_owner : Option String → Option String → Bool
same_owner none claimed = false
same_owner (some owner) claimed = claimed == some owner

abbrev lease_runs : Option ℕ → ℕ → Bool
lease_runs none now = false
lease_runs (some expires) now = ltb now expires

unfoldable pub owns_unexpired_lease : RuntimeOperationRecord → RuntimeOperationRecord → ℕ → Bool
owns_unexpired_lease current claimed now =
    same_owner current.owner_boot_id claimed.owner_boot_id
    && lease_runs current.lease_expires_at now

abbrev rpc_message : AgentRpcError → String
rpc_message (AgentRpcError.persistence operation message) = message
rpc_message (AgentRpcError.inference operation message) = message
rpc_message (AgentRpcError.compaction message) = message
rpc_message (AgentRpcError.tool_loop_limit max_steps message) = message

unfoldable pub error_message : DurableExecutionError → String
error_message (rpc e) = rpc_message e
error_message (persistence operation message) = message
error_message (transition operation message) = message
error_message (capacity resource limit message) = message
error_message (cursor stream_id requested latest message) = message
error_message (fence operation_id expected received message) = message

unfoldable pub is_retryable_inference : DurableExecutionError → Bool
is_retryable_inference (rpc (AgentRpcError.inference operation message)) =
    operation == "inference-stall"
    || operation == "stream-text"
    || operation == "empty-model-stream"
is_retryable_inference _ = false

abbrev pub includes : String → String → Bool
includes text piece = not (is_none (find? text piece))

unfoldable pub is_memory_limit_reset : Environment → DurableExecutionError → Bool
unfolding error_message
is_memory_limit_reset env error =
    includes (env.to_lower_case (error_message error)) "exceeded its memory limit"
