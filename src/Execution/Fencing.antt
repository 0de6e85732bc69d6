-- ===== src/Execution/Fencing.antt =====
-- The generation fence: when the token of an owner is stale.
pub mod Writes
pub mod Recoveries
pub mod Kept
pub mod Rejected
use chemistry.Prelude.{
  ℕ, ◌+◌, ◌≤◌, ◌<◌, String, Bool, true, false, Option, none, some, List, [], ◌∷◌, ◌≡◌, refl, arith,
  ◌⊎◌, inl, inr, All, All-append, All-filter, eq_iff, ◌==◌, string_eq,
}
use chemistry.Protocol.{AgentStreamEvent}
use chemistry.Runtime.State.{
  RuntimeState, RuntimeOperationRecord, RuntimeStreamRecord, RuntimePhase, RuntimeRequestSnapshot,
  RecoveryIncident, find_runtime_operation,
}
use chemistry.Runtime.Errors.{
  DurableExecutionError, Ensures, returned, Ensures-or_fail, Ensures-guard, Ensures-return_if,
  Ensures-branch, Ensures-on_null, Ensures-bind,
}
use chemistry.Execution.Helpers.{Environment, TurnMode, replace_operation, owns_unexpired_lease}
use chemistry.Execution.Lookup.{
  replace_operation-All, find_runtime_operation-All, operation_id-find, Upserts,
  upsert_phase_effect-Upserts,
}
use chemistry.Execution.Admission.{
  AdmitRequest, ClaimResult, claimed, admit, enqueue, admitted_operation, claim, install_claim,
  claimed_operation,
}
use chemistry.Execution.Turn.{
  holds_fence, persist_request_snapshot, mark_streaming, append, install_append, appended_operation,
}
use chemistry.Execution.Settle.{
  Outcome, settle, install_settle, begin_phase_effect, complete_phase_effect,
}
use chemistry.Execution.Recovery.{
  schedule_recovery_after_failure, install_schedule, reconcile_terminal,
}
use chemistry.Execution.Prepare.{
  prepare_recovery, install_exhausted, install_attempt, recovering_operation,
}
use chemistry.Execution.Wake.{wake, runnable, wake_detect, install_wake, disowned_operation}
use chemistry.Execution.Reading.{cleanup}

-- The stored operation is no longer the token's: nobody owns it, or a later claim does.
abbrev pub Lost : RuntimeOperationRecord → RuntimeOperationRecord → Type 0
Lost token stored =
    stored.operation_id ≡ token.operation_id
    → (stored.owner_boot_id ≡ none) ⊎ (token.generation < stored.generation)

pub record IsStale (token : RuntimeOperationRecord) (state : RuntimeState) : Type 0 where
  pub issued : token.generation ≤ state.generation
  pub lost : All (Lost token) state.operations

-- A transition keeps the token stale.
abbrev pub Stale : {A : Type 0} → RuntimeOperationRecord → RuntimeState × A → Type 0
Stale token result = IsStale token result.0

module _ (token : RuntimeOperationRecord) (state : RuntimeState) (h : IsStale token state) where
  pub found-Lost :
      (id : String) {current : RuntimeOperationRecord}
      → find_runtime_operation state id ≡ some current
      → Lost token current
  found-Lost id e = find_runtime_operation-All (Lost token) state id h.lost e

  pub replaced :
      (updated : RuntimeOperationRecord)
      → Lost token updated
      → All (Lost token) (replace_operation state updated)
  replaced updated lost =
      replace_operation-All (Lost token) (Lost token) state updated lost (λ other _ p. p) h.lost

  pub upserted :
      {limit : ℕ} {operation updated : RuntimeOperationRecord}
      → Upserts limit operation updated
      → Lost token operation
      → Lost token updated
  upserted u lost = rw u.only lost

  -- The fence of a stale token does not hold.
  pub no_fence :
      (current : RuntimeOperationRecord) (now : ℕ)
      → find_runtime_operation state token.operation_id ≡ some current
      → holds_fence current token now ≡ true
      → ⊥
  unfolding holds_fence owns_unexpired_lease
  no_fence current now found held = ground (
    arith,
    found-Lost token.operation_id found,
    operation_id-find state token.operation_id current found,
  )
