-- ===== src/Execution/Steps.antt =====
-- Histories of one session's record: each step is one committed transaction, of any boot of the
-- Durable Object, in any order.
use chemistry.Prelude.{ℕ, ◌≤◌, String, Bool, Option, none, ◌≡◌}
use chemistry.Protocol.{AgentStreamEvent}
use chemistry.Runtime.State.{
  RuntimeState, RuntimeOperationRecord, RuntimePhase, RuntimeRequestSnapshot,
  find_runtime_operation,
}
use chemistry.Runtime.Errors.{DurableExecutionError, Result, ok, Ensures, Ensures-returns}
use chemistry.Execution.Helpers.{Environment, TurnMode}
use chemistry.Execution.Admission.{AdmitRequest, admit, claim}
use chemistry.Execution.Turn.{persist_request_snapshot, mark_streaming, append}
use chemistry.Execution.Settle.{Outcome, settle, begin_phase_effect, complete_phase_effect}
use chemistry.Execution.Recovery.{schedule_recovery_after_failure, reconcile_terminal}
use chemistry.Execution.Prepare.{prepare_recovery}
use chemistry.Execution.Wake.{wake}
use chemistry.Execution.Reading.{cleanup}
use chemistry.Execution.Bounds.{
  InBounds, mark_streaming-InBounds, persist_request_snapshot-InBounds, begin_phase_effect-InBounds,
  complete_phase_effect-InBounds, append-InBounds,
}
use chemistry.Execution.Bounds.Admission.{admit-InBounds, claim-InBounds, settle-InBounds}
use chemistry.Execution.Bounds.Recovery.{
  schedule_recovery-InBounds, reconcile_terminal-InBounds, prepare_recovery-InBounds, wake-InBounds,
  cleanup-InBounds,
}

-- A boot under the session's limits.
abbrev pub at_boot : Environment → String → Environment
at_boot env boot = record env { boot_id = boot }

-- The transaction committed, and left the state `after`.
pub data Commits {A : Type 0} (result : Result (RuntimeState × A)) (after : RuntimeState)
    : Type 0 where
  commits : {value : A} → result ≡ ok (after, value) → Commits result after

-- One step of the record. An admitted operation gets an identifier that no operation has: it is a
-- random UUID.
pub data Step (env : Environment) (s t : RuntimeState) : Type 0 where
  admits :
      (request : AdmitRequest) (now : ℕ)
      → find_runtime_operation s request.operation_id ≡ none
      → Commits (admit env request now s) t
      → Step env s t
  claims :
      (boot id : String) (mode : TurnMode) (now : ℕ)
      → Commits (claim (at_boot env boot) id mode now s) t
      → Step env s t
  snapshots :
      (operation : RuntimeOperationRecord) (snapshot : RuntimeRequestSnapshot) (now : ℕ)
      → Commits (persist_request_snapshot env operation snapshot now s) t
      → Step env s t
  streams :
      (operation : RuntimeOperationRecord) (now : ℕ)
      → Commits (mark_streaming env operation now s) t
      → Step env s t
  appends :
      (operation : RuntimeOperationRecord) (event : AgentStreamEvent) (now : ℕ)
      → Commits (append env operation event now s) t
      → Step env s t
  settles :
      (operation : RuntimeOperationRecord) (outcome : Outcome) (reason : Option String) (now : ℕ)
      → Commits (settle env operation outcome reason now s) t
      → Step env s t
  begins :
      (operation : RuntimeOperationRecord) (phase : RuntimePhase) (key : String) (now : ℕ)
      → Commits (begin_phase_effect env operation phase key now s) t
      → Step env s t
  completes :
      (operation : RuntimeOperationRecord) (phase : RuntimePhase) (key : String) (now : ℕ)
      → Commits (complete_phase_effect env operation phase key now s) t
      → Step env s t
  schedules :
      (operation : RuntimeOperationRecord) (error : DurableExecutionError) (partial : Bool)
      (incident_id : String) (now : ℕ)
      → Commits (schedule_recovery_after_failure env operation error partial incident_id now s) t
      → Step env s t
  reconciles :
      (operation : RuntimeOperationRecord) (now : ℕ)
      → Commits (reconcile_terminal env operation now s) t
      → Step env s t
  prepares :
      (boot : String) (now : ℕ)
      → Commits (prepare_recovery (at_boot env boot) now s) t
      → Step env s t
  wakes :
      (boot incident_id : String) (now : ℕ)
      → Commits (wake (at_boot env boot) incident_id now s) t
      → Step env s t
  cleans : (now : ℕ) → Commits (cleanup env now s) t → Step env s t

pub data Reach (env : Environment) (s : RuntimeState) : RuntimeState → Type 0 where
  here : Reach env s s
  next : {t u : RuntimeState} → Reach env s t → Step env t u → Reach env s u

module _ {A : Type 0} (P : RuntimeState → Type 0) {t : RuntimeState} where
  -- What a transaction ensures of the states that it commits holds of the one that it left.
  pub Ensures-Commits :
      {result : Result (RuntimeState × A)}
      → Ensures (λ pair. P pair.0) result
      → Commits result t
      → P t
  Ensures-Commits h (commits {value = v} e) =
      Ensures-returns {P = λ pair. P pair.0} {b = (t, v)} h e

module _ (env : Environment) (two : 2 ≤ env.limits.max_phase_effects) where
  Step-InBounds : {s t : RuntimeState} → InBounds env s → Step env s t → InBounds env t
  Step-InBounds {s} h (admits request now fresh c) =
      Ensures-Commits (InBounds env) (admit-InBounds env s h request now two) c
  Step-InBounds {s} h (claims boot id mode now c) =
      Ensures-Commits (InBounds env) (claim-InBounds (at_boot env boot) s h id mode now) c
  Step-InBounds {s} h (snapshots operation snapshot now c) =
      Ensures-Commits (InBounds env)
        (persist_request_snapshot-InBounds env s h operation snapshot now) c
  Step-InBounds {s} h (streams operation now c) =
      Ensures-Commits (InBounds env) (mark_streaming-InBounds env s h operation now) c
  Step-InBounds {s} h (appends operation event now c) =
      Ensures-Commits (InBounds env) (append-InBounds env s h operation event now) c
  Step-InBounds {s} h (settles operation outcome reason now c) =
      Ensures-Commits (InBounds env) (settle-InBounds env s h operation outcome reason now) c
  Step-InBounds {s} h (begins operation phase key now c) =
      Ensures-Commits (InBounds env) (begin_phase_effect-InBounds env s h operation phase key now) c
  Step-InBounds {s} h (completes operation phase key now c) =
      Ensures-Commits (InBounds env)
        (complete_phase_effect-InBounds env s h operation phase key now) c
  Step-InBounds {s} h (schedules operation error partial incident_id now c) =
      Ensures-Commits (InBounds env)
        (schedule_recovery-InBounds env s h operation error partial incident_id now) c
  Step-InBounds {s} h (reconciles operation now c) =
      Ensures-Commits (InBounds env) (reconcile_terminal-InBounds env s h operation now) c
  Step-InBounds {s} h (prepares boot now c) =
      Ensures-Commits (InBounds env) (prepare_recovery-InBounds (at_boot env boot) s h now) c
  Step-InBounds {s} h (wakes boot incident_id now c) =
      Ensures-Commits (InBounds env) (wake-InBounds (at_boot env boot) s h incident_id now) c
  Step-InBounds {s} h (cleans now c) =
      Ensures-Commits (InBounds env) (cleanup-InBounds env s h now) c

  -- Whatever transactions follow one another, of whatever boots, the record stays within its limits:
  -- from a record within its limits every reachable one is within them, when the limits give a
  -- ledger room for two entries.
  pub Reach-InBounds : {s t : RuntimeState} → InBounds env s → Reach env s t → InBounds env t
  Reach-InBounds h here = h
  Reach-InBounds h (next r step) = Step-InBounds (Reach-InBounds h r) step
