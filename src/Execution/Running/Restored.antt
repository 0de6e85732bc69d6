-- ===== src/Execution/Running/Restored.antt =====
-- What the transactions of `recover` leave of the stream of the recovered operation.
use chemistry.Prelude.{ℕ, ◌+◌, String, true, some, List, ◌≡◌, refl, ◌∙◌, subst, arith, string_eq}
use chemistry.Protocol.{DurableStreamEvent}
use chemistry.Runtime.State.{
  RuntimeState, RuntimeOperationRecord, RuntimeStreamRecord, RuntimePhase, RecoveryIncident,
  find_runtime_operation,
}
use chemistry.Runtime.Errors.{
  Ensures, returned, Ensures-or_fail, Ensures-guard, Ensures-return_if, Ensures-branch,
  Ensures-on_null,
}
use chemistry.Execution.Helpers.{Environment, find_stream, replace_stream}
use chemistry.Execution.Lookup.{operation_id-find, stream_id-find, upsert_phase_effect-Upserts}
use chemistry.Execution.Settle.{begin_phase_effect, complete_phase_effect}
use chemistry.Execution.Settle.Convergence.{find-put_operation, find-put_stream}
use chemistry.Execution.Recovery.{reconcile_candidate, reconcile_terminal}
use chemistry.Execution.Prepare.{
  RecoveryPreparation, noop, exhausted, parked, attempt, prepare_recovery, install_exhausted,
  install_attempt, recovering_operation,
}
use chemistry.Execution.Running.Stored.{Stores}
use chemistry.Execution.Running.Published.{Tracks, Returns, put-Returns, renamed, same_streams}

module _ (id stream_id : String) (events : List DurableStreamEvent) where
  -- The stream is stored anew with the same events.
  restored :
      (s t : RuntimeState) (key : String) (found stream : RuntimeStreamRecord)
      → find_stream s key ≡ some found
      → key ≡ stream_id
      → t.streams ≡ replace_stream s stream
      → (stream.stream_id ≡ found.stream_id) × (stream.events ≡ found.events)
      → Stores stream_id events s
      → Stores stream_id events t
  restored s t key found stream at own put kept h =
      let here = subst (λ key. find_stream s key ≡ some found) own at in
      record {
        stream = stream;
        found =
            find-put_stream s t stream_id found stream put
              (kept.0 ∙ stream_id-find s stream_id found here) here;
        holds = ground (arith, kept.1, here, h.found, h.holds);
      }

  pub begin_phase_effect-Tracks :
      (env : Environment) (operation : RuntimeOperationRecord) (phase : RuntimePhase) (key : String)
      (now : ℕ) (s : RuntimeState)
      → operation.operation_id ≡ id
      → Tracks id stream_id events s
      → Ensures
          (λ pair. Tracks id stream_id events pair.0)
          (begin_phase_effect env operation phase key now s)
  unfolding begin_phase_effect
  begin_phase_effect-Tracks env operation phase key now s own h = Ensures-or_fail _ λ current found.
      Ensures-guard _ λ held.
        Ensures-return_if _ (λ done. h)
          λ pending. Ensures-or_fail _ λ updated put.
            let only = (upsert_phase_effect-Upserts _ _ _ put).only in
            let put_back =
              put-Returns id stream_id events s _ current updated
                (renamed id stream_id events s operation.operation_id current own found)
                (ground (arith, only), ground (arith, only)) refl refl h in
            returned put_back.tracked

  pub complete_phase_effect-Tracks :
      (env : Environment) (operation : RuntimeOperationRecord) (phase : RuntimePhase) (key : String)
      (now : ℕ) (s : RuntimeState)
      → operation.operation_id ≡ id
      → Tracks id stream_id events s
      → Ensures
          (λ pair. Tracks id stream_id events pair.0)
          (complete_phase_effect env operation phase key now s)
  unfolding complete_phase_effect
  complete_phase_effect-Tracks env operation phase key now s own h =
      Ensures-or_fail _ λ current found. Ensures-guard _ λ held. Ensures-or_fail _ λ updated put.
        let only = (upsert_phase_effect-Upserts _ _ _ put).only in
        let put_back =
          put-Returns id stream_id events s _ current updated
            (renamed id stream_id events s operation.operation_id current own found)
            (ground (arith, only), ground (arith, only)) refl refl h in
        returned put_back.tracked

  -- What a preparation leaves: the same events, and the operation where an attempt is made.
  abbrev pub Prepares : RuntimeState × RecoveryPreparation → Type 0
  Prepares (t, noop operation) = Stores stream_id events t
  Prepares (t, exhausted operation) = Stores stream_id events t
  Prepares (t, parked operation) = Stores stream_id events t
  Prepares (t, attempt operation kind partial) = Returns id stream_id events (t, operation)

  module _ (env : Environment) (s : RuntimeState) (incident : RecoveryIncident)
      (recovers : s.recovery ≡ some incident) (own : incident.operation_id ≡ id)
      (h : Tracks id stream_id events s) where
    recovered :
        (other : RecoveryIncident) (operation : RuntimeOperationRecord)
        → s.recovery ≡ some other
        → find_runtime_operation s other.operation_id ≡ some operation
        → (find_runtime_operation s id ≡ some operation) × (operation.stream_id ≡ stream_id)
    recovered other operation recorded found =
        let key : other.operation_id ≡ id = ground (arith, recorded, recovers, own) in
        let here = renamed id stream_id events s other.operation_id operation key found in
        (here, ground (arith, here, h.found, h.on_stream))

    pub prepare_recovery-Prepares : (now : ℕ) → Ensures Prepares (prepare_recovery env now s)
    unfolding prepare_recovery install_exhausted install_attempt recovering_operation
    prepare_recovery-Prepares now =
        Ensures-on_null (λ none_open. absurd (ground (arith, none_open, recovers)))
          λ other recorded. Ensures-or_fail _ λ operation found. Ensures-or_fail _ λ stream at.
            let same = recovered other operation recorded found in
            Ensures-return_if _ (λ over. h.stored)
              λ live.
                Ensures-branch
                  (λ spent. Ensures-or_fail _ λ updated put. returned (
                    restored s _ operation.stream_id stream _ at same.1 refl (refl, refl) h.stored))
                  λ budget.
                    Ensures-return_if _ (λ is_parked. h.stored)
                      λ active.
                        Ensures-on_null (λ _. returned h.stored)
                          λ alarm armed.
                            Ensures-return_if _
                              (λ stale. same_streams id stream_id events s _ refl h.stored)
                              λ matching.
                                Ensures-return_if _ (λ early. h.stored)
                                  λ due.
                                    let own_id : operation.operation_id ≡ id =
                                      operation_id-find s id operation same.0 in
                                    returned (record {
                                      tracked = record {
                                        operation =
                                            recovering_operation env operation (s.generation + 1)
                                              now;
                                        found =
                                            find-put_operation s _ id operation
                                              (recovering_operation env operation (s.generation + 1)
                                                now)
                                              refl own_id same.0;
                                        on_stream = same.1;
                                        stored =
                                            restored s _ operation.stream_id stream _ at same.1 refl
                                              (refl, refl) h.stored;
                                      };
                                      own_id = own_id;
                                      own_stream = same.1;
                                    })

    pub reconcile_terminal-Stores :
        (operation : RuntimeOperationRecord) (now : ℕ)
        → operation.stream_id ≡ stream_id
        → Ensures
            (λ pair. (pair.1 ≡ true) × Stores stream_id events pair.0)
            (reconcile_terminal env operation now s)
    unfolding reconcile_terminal
    reconcile_terminal-Stores operation now on_stream = Ensures-or_fail _ λ current found.
        Ensures-or_fail _ λ stream at.
          Ensures-return_if _ (λ over. (refl, h.stored))
            λ live. Ensures-or_fail _ λ updated put. returned (
              refl,
              restored s _ operation.stream_id stream _ at on_stream refl (refl, refl) h.stored,
            )

    pub candidate_found :
        (operation : RuntimeOperationRecord)
        → reconcile_candidate s ≡ some operation
        → operation.stream_id ≡ stream_id
    unfolding reconcile_candidate
    candidate_found operation e = ground (arith, e, recovers, h.found, h.on_stream, own)
