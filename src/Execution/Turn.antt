-- ===== src/Execution/Turn.antt =====
-- The fenced writes of a running turn in durable-execution.ts: `persistRequestSnapshot`,
-- `markStreaming` and `append`. Each rereads the record inside its transaction.
use chemistry.Prelude.{
  ℕ, ◌+◌, pos, ◌+ℤ◌, String, Bool, ◌&&◌, not, Option, none, some, [], ◌∷◌, ◌++◌, ◌==◌, string_eq,
  nat_eq, if◌then◌else◌, ltb, leb, length,
}
use chemistry.Prelude.Text.{◌&◌, decimal}
use chemistry.Protocol.{
  AgentStreamEvent, DurableStreamEvent, RuntimeOperationStatus, RuntimeCheckpoint,
}
use chemistry.Runtime.State.{
  RuntimeState, RuntimeOperationRecord, RuntimeStreamRecord, RuntimeStreamStatus, RuntimePhase,
  PhaseStatus, RuntimePhaseEffect, RuntimeRequestSnapshot, RecoveryIncident, find_runtime_operation,
}
use chemistry.Runtime.Errors.{
  DurableExecutionError, transition, capacity, fence, Result, ok, ◌>>=◌, ◌>>◌, guard, or_fail,
  Mutation,
}
use chemistry.Execution.Helpers.{
  Environment, replace_operation, replace_stream, find_stream, upsert_phase_effect,
  phase_effect_key, owns_unexpired_lease,
}

-- `current.generation === operation.generation && ownsUnexpiredLease(current, operation, now)`
unfoldable pub holds_fence : RuntimeOperationRecord → RuntimeOperationRecord → ℕ → Bool
holds_fence current operation now =
    current.generation == operation.generation && owns_unexpired_lease current operation now

abbrev pub fence_error :
    RuntimeOperationRecord → RuntimeOperationRecord → String → DurableExecutionError
fence_error current operation message =
    fence operation.operation_id current.generation operation.generation message

abbrev pub ledger_error : Environment → DurableExecutionError
ledger_error env =
    let limit = env.limits.max_phase_effects in
    capacity "phase-effect-ledger" limit
      ("Phase effect ledger is limited to " & decimal limit & " entries")

-- The ledger entry of a phase of the current generation.
abbrev pub phase_entry :
    RuntimeOperationRecord → RuntimePhase → PhaseStatus → ℕ → RuntimePhaseEffect
phase_entry current phase status now = record {
  effect_key = phase_effect_key current.operation_id phase current.generation;
  phase = phase;
  status = status;
  generation = current.generation;
  attempt = current.attempt;
  updated_at = now;
}

-- `{ ...state, operations: replaceOperation(state, updated) }`
abbrev pub put_operation : RuntimeState → RuntimeOperationRecord → RuntimeState
put_operation state updated = record state { operations = replace_operation state updated }

unfoldable pub persist_request_snapshot :
    Environment
    → RuntimeOperationRecord
    → RuntimeRequestSnapshot
    → ℕ
    → Mutation RuntimeOperationRecord
persist_request_snapshot env operation request_snapshot now state = do
  current ←
      or_fail (find_runtime_operation state operation.operation_id)
        (transition "persist-request-snapshot" "Operation disappeared")
  guard (holds_fence current operation now) (
      fence_error current operation
        "Stale or lease-expired owner cannot persist a request snapshot")
  updated ←
      or_fail
        (upsert_phase_effect
          (record current {
            request_snapshot = request_snapshot;
            checkpoint = RuntimeCheckpoint.preparing;
            updated_at = now;
          })
          (phase_entry current RuntimePhase.request_snapshot PhaseStatus.completed now)
          env.limits.max_phase_effects)
        (ledger_error env)
  ok (put_operation state updated, updated)

unfoldable pub mark_streaming :
    Environment → RuntimeOperationRecord → ℕ → Mutation RuntimeOperationRecord
mark_streaming env operation now state = do
  current ←
      or_fail (find_runtime_operation state operation.operation_id)
        (transition "mark-streaming" "Operation disappeared")
  guard (holds_fence current operation now)
      (fence_error current operation "Stale or lease-expired owner cannot begin streaming")
  updated ←
      or_fail
        (upsert_phase_effect
          (record current {
            status = RuntimeOperationStatus.running;
            checkpoint = RuntimeCheckpoint.streaming;
            updated_at = now;
            lease_expires_at = some (now + env.limits.lease_duration_ms);
          })
          (phase_entry current RuntimePhase.inference PhaseStatus.pending now)
          env.limits.max_phase_effects)
        (ledger_error env)
  ok (put_operation state updated, updated)

unfoldable pub next_event :
    RuntimeStreamRecord → RuntimeOperationRecord → AgentStreamEvent → ℕ → DurableStreamEvent
next_event stream operation event now = record {
  stream_id = stream.stream_id;
  operation_id = operation.operation_id;
  sequence = stream.latest_sequence +ℤ pos 1;
  event = event;
  produced_at = now;
}

-- The capacity tests of `append`, in their order.
unfoldable pub append_capacity :
    Environment
    → RuntimeOperationRecord
    → RuntimeStreamRecord
    → DurableStreamEvent
    → Result (Unit {0})
append_capacity env current stream durable_event = do
  let limits = env.limits
  guard (ltb (length stream.events) limits.max_events_per_stream) (
      capacity "stream-events" limits.max_events_per_stream
        ("Stream is limited to " & decimal limits.max_events_per_stream & " events"))
  guard (not (ltb 0 current.attempt && leb limits.max_recovery_work current.recovery_work)) (
      capacity "recovery-work" limits.max_recovery_work
        ("Recovery is limited to " & decimal limits.max_recovery_work & " events"))
  guard (leb (env.encoded_size durable_event) limits.max_event_bytes) (
      capacity "stream-event-bytes" limits.max_event_bytes
        ("Durable stream event is limited to " & decimal limits.max_event_bytes & " bytes"))
  guard (leb (stream.encoded_bytes + env.encoded_size durable_event) limits.max_stream_bytes) (
      capacity "stream-bytes" limits.max_stream_bytes
        ("Durable stream is limited to " & decimal limits.max_stream_bytes & " encoded bytes"))

unfoldable pub appended_operation :
    Environment → RuntimeOperationRecord → ℕ → RuntimeOperationRecord
appended_operation env current now = record current {
  status = RuntimeOperationStatus.running;
  checkpoint = RuntimeCheckpoint.streaming;
  progress = current.progress + 1;
  recovery_work =
      if ltb 0 current.attempt then current.recovery_work + 1 else current.recovery_work;
  lease_expires_at = some (now + env.limits.lease_duration_ms);
  updated_at = now;
}

unfoldable pub appended_stream :
    Environment → RuntimeStreamRecord → DurableStreamEvent → ℕ → RuntimeStreamRecord
appended_stream env stream durable_event now = record stream {
  status = RuntimeStreamStatus.opened;
  latest_sequence = durable_event.sequence;
  encoded_bytes = stream.encoded_bytes + env.encoded_size durable_event;
  events = stream.events ++ durable_event ∷ [];
  updated_at = now;
  expires_at = none;
  terminal_reason = none;
}

abbrev progressed : Option RecoveryIncident → ℕ → ℕ → Option RecoveryIncident
progressed none work now = none
progressed (some incident) work now =
    some (record incident { last_progress_at = now; recovery_work = work })

unfoldable pub install_append :
    Environment
    → RuntimeState
    → RuntimeOperationRecord
    → RuntimeStreamRecord
    → DurableStreamEvent
    → ℕ
    → RuntimeState
install_append env state current stream durable_event now =
    let updated = appended_operation env current now in
    record state {
      operations = replace_operation state updated;
      streams = replace_stream state (appended_stream env stream durable_event now);
      recovery = progressed state.recovery updated.recovery_work now;
    }

unfoldable pub append :
    Environment → RuntimeOperationRecord → AgentStreamEvent → ℕ → Mutation DurableStreamEvent
append env operation event now state = do
  current ←
      or_fail (find_runtime_operation state operation.operation_id)
        (transition "append" "Operation or stream disappeared")
  stream ←
      or_fail (find_stream state operation.stream_id)
        (transition "append" "Operation or stream disappeared")
  guard (holds_fence current operation now)
      (fence_error current operation "Stale or lease-expired owner cannot append a stream event")
  append_capacity env current stream (next_event stream operation event now)
  ok (
    install_append env state current stream (next_event stream operation event now) now,
    next_event stream operation event now,
  )
