-- ===== src/Execution/Fencing/Rejected.antt =====
-- What a stale token is refused, and what makes a token stale.
use chemistry.Prelude.{
  ℕ, ◌≤◌, ◌<◌, String, Bool, true, Option, some, List, [], ◌∷◌, ◌≡◌, refl, arith, inr, All, eq_iff,
  string_eq,
}
use chemistry.Protocol.{AgentStreamEvent}
use chemistry.Runtime.State.{
  RuntimeState, RuntimeOperationRecord, RuntimePhase, RuntimeRequestSnapshot, RecoveryKind,
  find_runtime_operation,
}
use chemistry.Runtime.Errors.{
  Result, ok, DurableExecutionError, Ensures, Ensures-returns, returned, Ensures-or_fail,
  Ensures-guard, Ensures-return_if, Ensures-branch, Ensures-on_null,
}
use chemistry.Execution.Helpers.{Environment, TurnMode, replace_operation}
use chemistry.Execution.Lookup.{replace_operation-All, operation_id-find}
use chemistry.Execution.Admission.{ClaimResult, claimed, claim, install_claim, claimed_operation}
use chemistry.Execution.Turn.{holds_fence, persist_request_snapshot, mark_streaming, append}
use chemistry.Execution.Settle.{Outcome, settle, begin_phase_effect, complete_phase_effect}
use chemistry.Execution.Recovery.{schedule_recovery_after_failure}
use chemistry.Execution.Prepare.{
  RecoveryPreparation, prepare_recovery, install_attempt, recovering_operation,
}
use chemistry.Execution.Steps.{Reach}
use chemistry.Execution.Fencing.{Lost, IsStale, no_fence}
use chemistry.Execution.Fencing.Kept.{Reach-Stale}

-- A transaction that never commits.
abbrev pub Refused : {A : Type 0} → Result (RuntimeState × A) → Type 0
Refused {A} result = Ensures (λ (pair : RuntimeState × A). ⊥) result

-- A transaction that commits no change.
abbrev pub ChangesNothing : {A : Type 0} → RuntimeState → Result (RuntimeState × A) → Type 0
ChangesNothing {A} state result = Ensures (λ (pair : RuntimeState × A). pair.0 ≡ state) result

-- No write of the token's owner goes through any more.
pub record FencedOff (env : Environment) (token : RuntimeOperationRecord) (state : RuntimeState)
    : Type 0 where
  pub no_append : (event : AgentStreamEvent) (now : ℕ) → Refused (append env token event now state)
  pub no_snapshot :
      (snapshot : RuntimeRequestSnapshot) (now : ℕ)
      → Refused (persist_request_snapshot env token snapshot now state)
  pub no_streaming : (now : ℕ) → Refused (mark_streaming env token now state)
  pub no_schedule :
      (error : DurableExecutionError) (partial : Bool) (incident_id : String) (now : ℕ)
      → Refused (schedule_recovery_after_failure env token error partial incident_id now state)
  pub no_begin :
      (phase : RuntimePhase) (key : String) (now : ℕ)
      → Refused (begin_phase_effect env token phase key now state)
  pub no_complete :
      (phase : RuntimePhase) (key : String) (now : ℕ)
      → Refused (complete_phase_effect env token phase key now state)
  pub no_settle :
      (outcome : Outcome) (reason : Option String) (now : ℕ)
      → ChangesNothing state (settle env token outcome reason now state)

module _ (env : Environment) (token : RuntimeOperationRecord) (state : RuntimeState)
    (h : IsStale token state) where
  refuse :
      {A : Type 0} {P : A → Type 0} {r : Result A} {current : RuntimeOperationRecord} (now : ℕ)
      → find_runtime_operation state token.operation_id ≡ some current
      → holds_fence current token now ≡ true
      → Ensures P r
  refuse {current} now found held = absurd (no_fence token state h current now found held)

  pub IsStale-FencedOff : FencedOff env token state
  unfolding append persist_request_snapshot mark_streaming schedule_recovery_after_failure
      begin_phase_effect complete_phase_effect settle
  IsStale-FencedOff = record {
    no_append = λ event now. Ensures-or_fail _ λ current found.
        Ensures-or_fail _ λ stream found_stream. Ensures-guard _ λ held. refuse now found held;
    no_snapshot = λ snapshot now.
        Ensures-or_fail _ λ current found. Ensures-guard _ λ held. refuse now found held;
    no_streaming =
        λ now. Ensures-or_fail _ λ current found. Ensures-guard _ λ held. refuse now found held;
    no_schedule = λ error partial incident_id now. Ensures-or_fail _ λ current found.
        Ensures-or_fail _ λ stream found_stream. Ensures-guard _ λ held. refuse now found held;
    no_begin = λ phase key now.
        Ensures-or_fail _ λ current found. Ensures-guard _ λ held. refuse now found held;
    no_complete = λ phase key now.
        Ensures-or_fail _ λ current found. Ensures-guard _ λ held. refuse now found held;
    no_settle = λ outcome reason now. Ensures-or_fail _ λ current found.
        Ensures-or_fail _ λ stream found_stream.
          Ensures-return_if _ (λ over. refl) λ live. Ensures-guard _ λ held. refuse now found held;
  }

-- The transaction took the operation over from the token's owner.
abbrev pub TakenOver : RuntimeOperationRecord → RuntimeState × ClaimResult → Type 0
TakenOver token (state, ClaimResult.terminal operation) = Unit
TakenOver token (state, ClaimResult.claimed operation) = IsStale token state

-- The same of a recovery attempt.
abbrev pub AttemptTakesOver : RuntimeOperationRecord → RuntimeState × RecoveryPreparation → Type 0
AttemptTakesOver token (state, RecoveryPreparation.attempt operation kind partial) =
    operation.operation_id ≡ token.operation_id → IsStale token state
AttemptTakesOver token (state, _) = Unit

All-true : (operations : List RuntimeOperationRecord) → All (λ _. Unit {0}) operations
All-true [] = tt
All-true (x ∷ xs) = (tt, All-true xs)

-- Replacing the token's operation by one of a later generation makes the token stale.
replaced-Lost :
    (token updated : RuntimeOperationRecord) (state : RuntimeState)
    → updated.operation_id ≡ token.operation_id
    → token.generation < updated.generation
    → All (Lost token) (replace_operation state updated)
replaced-Lost token updated state same later =
    replace_operation-All (λ _. Unit {0}) (Lost token) state updated (λ _. inr later)
      (λ other miss _ other_same.
        absurd (ground (arith, eq_iff other.operation_id updated.operation_id)))
      (All-true state.operations)

module _ (env : Environment) (token : RuntimeOperationRecord) (state : RuntimeState) where
  claim-TakenOver :
      (mode : TurnMode) (now : ℕ)
      → token.generation ≤ state.generation
      → Ensures (TakenOver token) (claim env token.operation_id mode now state)
  unfolding claim install_claim claimed_operation
  claim-TakenOver mode now issued = Ensures-or_fail _ λ operation found.
      Ensures-return_if _ (λ over. tt)
        λ live. Ensures-guard _ λ free. Ensures-guard _ λ head. returned (record {
          issued = omega (arith, issued);
          lost =
              replaced-Lost token _ state
                (operation_id-find state token.operation_id operation found)
                (omega (arith, issued));
        })

  prepare-TakesOver :
      (now : ℕ)
      → token.generation ≤ state.generation
      → Ensures (AttemptTakesOver token) (prepare_recovery env now state)
  unfolding prepare_recovery install_attempt recovering_operation
  prepare-TakesOver now issued =
      Ensures-on_null (λ _. returned tt)
        λ incident open_incident. Ensures-or_fail _ λ operation found.
          Ensures-or_fail _ λ stream found_stream.
            Ensures-return_if _ (λ over. tt)
              λ live.
                Ensures-branch (λ spent. Ensures-or_fail _ λ updated put. returned tt)
                  λ budget.
                    Ensures-return_if _ (λ is_parked. tt)
                      λ active.
                        Ensures-on_null (λ _. returned tt)
                          λ alarm armed.
                            Ensures-return_if _ (λ stale. tt)
                              λ matching.
                                Ensures-return_if _ (λ early. tt)
                                  λ due. returned λ same. record {
                                    issued = omega (arith, issued);
                                    lost = replaced-Lost token _ state same (omega (arith, issued));
                                  }

module _ (env : Environment) (token : RuntimeOperationRecord) (s t u : RuntimeState) (now : ℕ)
    (issued : token.generation ≤ s.generation) (history : Reach env t u) where
  -- Once an operation has been claimed anew, in the state `s`, no owner that got it under a
  -- generation up to that of `s` can ever write again, in any state that any transactions reach:
  -- each of its transitions fails, but for a `settle` of a turn that is over, which changes nothing.
  pub claim-FencedOff :
      (mode : TurnMode) (winner : RuntimeOperationRecord)
      → claim env token.operation_id mode now s ≡ ok (t, claimed winner)
      → FencedOff env token u
  claim-FencedOff mode winner e = IsStale-FencedOff env token u (
      Reach-Stale env token
        (Ensures-returns {P = TakenOver token} (claim-TakenOver env token s mode now issued) e)
        history)

  -- The same once a recovery attempt has taken the operation over.
  pub prepare_recovery-FencedOff :
      (winner : RuntimeOperationRecord) (kind : RecoveryKind) (partial : String)
      → winner.operation_id ≡ token.operation_id
      → prepare_recovery env now s ≡ ok (t, RecoveryPreparation.attempt winner kind partial)
      → FencedOff env token u
  prepare_recovery-FencedOff winner kind partial same e = IsStale-FencedOff env token u (
      Reach-Stale env token
        (Ensures-returns {P = AttemptTakesOver token} (prepare-TakesOver env token s now issued) e
          same)
        history)
