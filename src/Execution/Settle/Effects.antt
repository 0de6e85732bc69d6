-- ===== src/Execution/Settle/Effects.antt =====
-- `beginPhaseEffect` after `completePhaseEffect`.
use chemistry.Prelude.{
  ℕ, String, true, false, none, some, List, [], ◌∷◌, ◌++◌, map, ◌≡◌, refl, arith, eq_iff, ap, ◌==◌,
  string_eq, if◌then◌else◌, find, find_index, inl, inr, ◌∙◌, ◌-◌, Option-cases, get_or_else,
}
use chemistry.Runtime.State.{
  RuntimeState, RuntimeOperationRecord, RuntimePhase, RuntimePhaseEffect, PhaseStatus,
  find_runtime_operation,
}
use chemistry.Runtime.Errors.{
  ok, err, ◌>>=◌, Ensures, Ensures-returns, returned, Ensures-or_fail, Ensures-guard,
}
use chemistry.Execution.Helpers.{Environment, upsert_phase_effect}
use chemistry.Execution.Lookup.{operation_id-find, upsert_phase_effect-Upserts}
use chemistry.Execution.Turn.{holds_fence, fence_error}
use chemistry.Execution.Settle.{
  effect_done, effect_entry, begin_phase_effect, complete_phase_effect,
}
use chemistry.Execution.Settle.Convergence.{find-put_operation}

-- What a ledger holds under a key after an entry of that key was put into it.
find-append :
    (entry : RuntimePhaseEffect) (ledger : List RuntimePhaseEffect)
    → find_index (λ other. other.effect_key == entry.effect_key) ledger ≡ none
    → find (λ other. other.effect_key == entry.effect_key) (ledger ++ entry ∷ []) ≡ some entry
find-append entry [] e = ground (arith, eq_iff entry.effect_key entry.effect_key)
find-append entry (x ∷ xs) e = ground (arith, find-append entry xs)

find-map :
    (entry : RuntimePhaseEffect) (ledger : List RuntimePhaseEffect) (i : ℕ)
    → find_index (λ other. other.effect_key == entry.effect_key) ledger ≡ some i
    → find
        (λ other. other.effect_key == entry.effect_key)
        (map (λ other. if other.effect_key == entry.effect_key then entry else other) ledger)
      ≡ some entry
find-map entry [] i e = ground (arith, e)
find-map entry (x ∷ xs) i e = ground (
  arith,
  eq_iff entry.effect_key entry.effect_key,
  eq_iff x.effect_key entry.effect_key,
  Option-cases (find_index (λ other. other.effect_key == entry.effect_key) xs),
  find-map entry xs (i - 1),
)

find-upsert :
    (operation updated : RuntimeOperationRecord) (entry : RuntimePhaseEffect) (limit : ℕ)
    → upsert_phase_effect operation entry limit ≡ some updated
    → find (λ other. other.effect_key == entry.effect_key) updated.effect_ledger ≡ some entry
unfolding upsert_phase_effect
find-upsert operation updated entry limit e =
    elim (Option-cases
      (find_index (λ other. other.effect_key == entry.effect_key) operation.effect_ledger)) [
        | inl absent ↦ ground (arith, find-append entry operation.effect_ledger, e)
        | inr (i, present) ↦ ground (arith, find-map entry operation.effect_ledger i, e)
      ]

-- The stored operation has the effect marked as completed.
pub record Done (operation_id key : String) (t : RuntimeState) : Type 0 where
  pub current : RuntimeOperationRecord
  pub found : find_runtime_operation t operation_id ≡ some current
  pub done : effect_done current key ≡ true

complete-Done :
    (env : Environment) (s : RuntimeState) (operation : RuntimeOperationRecord)
    (phase : RuntimePhase) (key : String) (now : ℕ)
    → Ensures
        (λ pair. Done operation.operation_id key pair.0)
        (complete_phase_effect env operation phase key now s)
unfolding complete_phase_effect effect_done
complete-Done env s operation phase key now = Ensures-or_fail _ λ current found.
    Ensures-guard _ λ held. Ensures-or_fail _ λ updated put. returned (record {
      current = updated;
      found =
          find-put_operation s _ operation.operation_id current updated refl
            (ap (λ o. o.operation_id) (upsert_phase_effect-Upserts _ _ _ put).only
              ∙ operation_id-find s operation.operation_id current found)
            found;
      done = ground (
        arith,
        find-upsert current updated (effect_entry current phase key PhaseStatus.completed now)
            env.limits.max_phase_effects put,
      );
    })

-- Once an effect has been completed, the operation's owner, whoever that is by then, is told not to
-- run it again, and the record stays as it is; anybody else is refused.
pub begin_phase_effect-complete_phase_effect :
    (env : Environment) (s t : RuntimeState) (operation owner : RuntimeOperationRecord)
    (phase again : RuntimePhase) (key : String) (now later : ℕ)
    → owner.operation_id ≡ operation.operation_id
    → complete_phase_effect env operation phase key now s ≡ ok (t, tt)
    → begin_phase_effect env owner again key later t ≡ (
        if holds_fence
          (get_or_else (find_runtime_operation t operation.operation_id) owner)
          owner
          later
        then ok (t, false)
        else err (
            fence_error
              (get_or_else (find_runtime_operation t operation.operation_id) owner)
              owner
              "Stale or lease-expired owner cannot begin a phase effect"))
unfolding begin_phase_effect ◌>>=◌
begin_phase_effect-complete_phase_effect env s t operation owner phase again key now later same
      done =
    let h =
      Ensures-returns {P = λ pair. Done operation.operation_id key pair.0}
        (complete-Done env s operation phase key now) done in
    rw (same, h.found, h.done) (ground arith)
