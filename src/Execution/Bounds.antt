-- ===== src/Execution/Bounds.antt =====
-- The limits of the record, and the writes of a running turn under them.
pub mod Admission
pub mod Recovery
use chemistry.Prelude.{
  ℕ, ◌+◌, ◌≤◌, some, String, Bool, true, false, List, [], ◌∷◌, ◌≡◌, arith, length, All,
}
use chemistry.Protocol.{AgentStreamEvent, DurableStreamEvent}
use chemistry.Runtime.Limits.{RuntimeLimits}
use chemistry.Runtime.State.{
  RuntimeState, RuntimeOperationRecord, RuntimeStreamRecord, RuntimePhase, RuntimePhaseEffect,
  RuntimeRequestSnapshot, find_runtime_operation,
}
use chemistry.Runtime.Errors.{
  Ensures, returned, Ensures-or_fail, Ensures-guard, Ensures-return_if, Ensures-branch,
  Ensures-on_null, Ensures-bind,
}
use chemistry.Execution.Helpers.{Environment, find_stream}
use chemistry.Execution.Lookup.{
  replace_operation-All, replace_stream-All, find_stream-All, find_runtime_operation-All, Upserts,
  upsert_phase_effect-Upserts,
}
use chemistry.Execution.Streams.{StreamFits, StreamIsValid, appended_stream-IsValid}
use chemistry.Execution.Turn.{
  put_operation, mark_streaming, persist_request_snapshot, append, install_append,
  appended_operation,
}
use chemistry.Execution.Settle.{begin_phase_effect, complete_phase_effect}

-- No operation is ahead of the session's generation, and no ledger is over its limit.
abbrev pub Fits : RuntimeLimits → ℕ → RuntimeOperationRecord → Type 0
Fits limits generation operation =
    (operation.generation ≤ generation)
    × (length operation.effect_ledger ≤ limits.max_phase_effects)

pub record StateFits (limits : RuntimeLimits) (size : DurableStreamEvent → ℕ) (state : RuntimeState)
    : Type 0 where
  pub operations : All (Fits limits state.generation) state.operations
  pub streams : All (StreamFits limits size) state.streams
  pub queue : length state.queue ≤ limits.max_queued_turns

-- The same for every boot that runs under these limits.
abbrev pub InBounds : Environment → RuntimeState → Type 0
InBounds env = StateFits env.limits env.encoded_size

-- A successful transition ends in a state within the limits.
abbrev pub Bounded : {A : Type 0} → Environment → RuntimeState × A → Type 0
Bounded env result = InBounds env result.0

pub Upserts-Fits :
    (limits : RuntimeLimits) (generation : ℕ) {operation updated : RuntimeOperationRecord}
    → Upserts limits.max_phase_effects operation updated
    → Fits limits generation operation
    → Fits limits generation updated
Upserts-Fits limits generation u fits = rw u.only (fits.0, u.within fits.1)

module _ (env : Environment) (state : RuntimeState) (h : InBounds env state) where
  put_operation-InBounds :
      (updated : RuntimeOperationRecord)
      → Fits env.limits state.generation updated
      → InBounds env (put_operation state updated)
  put_operation-InBounds updated fits = record {
    operations =
        replace_operation-All (Fits env.limits state.generation) (Fits env.limits state.generation)
          state updated fits (λ other _ p. p) h.operations;
    streams = h.streams;
    queue = h.queue;
  }

  pub found_Fits :
      (id : String) {current : RuntimeOperationRecord}
      → find_runtime_operation state id ≡ some current
      → Fits env.limits state.generation current
  found_Fits id e =
      find_runtime_operation-All (Fits env.limits state.generation) state id h.operations e

  pub found-IsValid :
      (id : String) {stream : RuntimeStreamRecord}
      → find_stream state id ≡ some stream
      → StreamIsValid env stream
  found-IsValid id e = find_stream-All (StreamIsValid env) state id h.streams e

  pub mark_streaming-InBounds :
      (operation : RuntimeOperationRecord) (now : ℕ)
      → Ensures (Bounded env) (mark_streaming env operation now state)
  unfolding mark_streaming
  mark_streaming-InBounds operation now = Ensures-or_fail _ λ current found. Ensures-guard _ λ held.
      Ensures-or_fail _ λ updated put. returned (
        put_operation-InBounds updated (
          Upserts-Fits env.limits state.generation (upsert_phase_effect-Upserts _ _ _ put)
            (found_Fits _ found)))

  pub persist_request_snapshot-InBounds :
      (operation : RuntimeOperationRecord) (snapshot : RuntimeRequestSnapshot) (now : ℕ)
      → Ensures (Bounded env) (persist_request_snapshot env operation snapshot now state)
  unfolding persist_request_snapshot
  persist_request_snapshot-InBounds operation snapshot now = Ensures-or_fail _ λ current found.
      Ensures-guard _ λ held. Ensures-or_fail _ λ updated put. returned (
        put_operation-InBounds updated (
          Upserts-Fits env.limits state.generation (upsert_phase_effect-Upserts _ _ _ put)
            (found_Fits _ found)))

  pub begin_phase_effect-InBounds :
      (operation : RuntimeOperationRecord) (phase : RuntimePhase) (key : String) (now : ℕ)
      → Ensures (Bounded env) (begin_phase_effect env operation phase key now state)
  unfolding begin_phase_effect
  begin_phase_effect-InBounds operation phase key now = Ensures-or_fail _ λ current found.
      Ensures-guard _ λ held.
        Ensures-return_if _ (λ done. h)
          λ open_yet. Ensures-or_fail _ λ updated put. returned (
            put_operation-InBounds updated (
              Upserts-Fits env.limits state.generation (upsert_phase_effect-Upserts _ _ _ put)
                (found_Fits _ found)))

  pub complete_phase_effect-InBounds :
      (operation : RuntimeOperationRecord) (phase : RuntimePhase) (key : String) (now : ℕ)
      → Ensures (Bounded env) (complete_phase_effect env operation phase key now state)
  unfolding complete_phase_effect
  complete_phase_effect-InBounds operation phase key now = Ensures-or_fail _ λ current found.
      Ensures-guard _ λ held. Ensures-or_fail _ λ updated put. returned (
        put_operation-InBounds updated (
          Upserts-Fits env.limits state.generation (upsert_phase_effect-Upserts _ _ _ put)
            (found_Fits _ found)))

  pub append-InBounds :
      (operation : RuntimeOperationRecord) (event : AgentStreamEvent) (now : ℕ)
      → Ensures (Bounded env) (append env operation event now state)
  unfolding append install_append appended_operation
  append-InBounds operation event now = Ensures-or_fail _ λ current found.
      Ensures-or_fail _ λ stream found_stream. Ensures-guard _ λ held. Ensures-bind λ unit room.
        returned (record {
          operations =
              replace_operation-All (Fits env.limits state.generation)
                (Fits env.limits state.generation) state _ (found_Fits _ found) (λ other _ p. p)
                h.operations;
          streams =
              replace_stream-All (StreamIsValid env) state _
                (appended_stream-IsValid env current operation stream event now room
                  (found-IsValid _ found_stream))
                h.streams;
          queue = h.queue;
        })
