-- ===== src/Execution/Running/Recovered.antt =====
-- What `recover` publishes against what the stream of the recovered operation stores.
use chemistry.Prelude.{
  String, Bool, true, false, Option, none, some, List, [], ◌≡◌, refl, string_eq, if◌then◌else◌,
}
use chemistry.Protocol.{DurableStreamEvent}
use chemistry.Runtime.State.{
  RuntimeState, RuntimeOperationRecord, RuntimePhase, RecoveryKind, RecoveryIncident,
}
use chemistry.Runtime.Errors.{Result, ok, err, transact}
use chemistry.Execution.Helpers.{Environment, fresh, continuing, phase_effect_key}
use chemistry.Execution.Settle.{begin_phase_effect, complete_phase_effect}
use chemistry.Execution.Recovery.{reconcile_candidate, reconcile_terminal}
use chemistry.Execution.Prepare.{
  RecoveryPreparation, noop, exhausted, parked, attempt, prepare_recovery,
}
use chemistry.Execution.Running.{TurnRun}
use chemistry.Execution.Running.Stored.{Stores, Publishes}
use chemistry.Execution.Running.Run.{
  RecoverDraws, next_run, finished_run, run_prepared, reconcile_transcript, persist_transcript,
  continue_partial, retry_turn, recover_prepared, recover_turn,
}
use chemistry.Execution.Running.Published.{
  Tracks, Returns, Stores-none, next_run-Publishes, prepare_request-Publishes,
  run_prepared-Publishes,
}
use chemistry.Execution.Running.Restored.{
  Prepares, begin_phase_effect-Tracks, complete_phase_effect-Tracks, prepare_recovery-Prepares,
  reconcile_terminal-Stores, candidate_found,
}

module _ (id stream_id : String) (events : List DurableStreamEvent) where
  module _ (env : Environment) (s : RuntimeState) (incident : RecoveryIncident)
      (recovers : s.recovery ≡ some incident) (own : incident.operation_id ≡ id)
      (h : Tracks id stream_id events s) where
    persist_transcript-Publishes :
        (draws : RecoverDraws) (prepared : RuntimeOperationRecord) (partial : String) (begun : Bool)
        (t : RuntimeState)
        → Returns id stream_id events (t, prepared)
        → Publishes stream_id events (persist_transcript env draws prepared partial begun t)
    unfolding persist_transcript transact next_run
    persist_transcript-Publishes draws prepared partial false t r =
        run_prepared-Publishes id stream_id events env draws.run prepared continuing t r
    persist_transcript-Publishes draws prepared partial true t r =
        persisted (draws.persist_partial prepared.assistant_message_id partial)
      where
        persisted :
            (answer : Result (Unit {0}))
            → Publishes stream_id events (
                next_run
                  (answer, t)
                  λ stored later.
                    next_run
                      (transact
                        (complete_phase_effect env prepared RuntimePhase.transcript_partial
                          (phase_effect_key prepared.operation_id RuntimePhase.transcript_partial 0)
                          draws.completed_at)
                        later)
                      λ completed last. run_prepared env draws.run prepared continuing last)
        persisted (err error) = Stores-none id stream_id events t r.tracked.stored
        persisted (ok tt) =
            let key = phase_effect_key prepared.operation_id RuntimePhase.transcript_partial 0 in
            next_run-Publishes id stream_id events (λ pair. Tracks id stream_id events pair.0) t
              (complete_phase_effect env prepared RuntimePhase.transcript_partial key
                draws.completed_at t)
              (λ completed last. run_prepared env draws.run prepared continuing last)
              r.tracked.stored
              (complete_phase_effect-Tracks id stream_id events env prepared
                RuntimePhase.transcript_partial key draws.completed_at t r.own_id r.tracked)
              λ last completed k.
                run_prepared-Publishes id stream_id events env draws.run prepared continuing last
                  (record { tracked = k; own_id = r.own_id; own_stream = r.own_stream })

    continue_partial-Publishes :
        (draws : RecoverDraws) (operation : RuntimeOperationRecord) (partial : String)
        (t : RuntimeState)
        → Returns id stream_id events (t, operation)
        → Publishes stream_id events (continue_partial env draws operation partial t)
    unfolding continue_partial transact
    continue_partial-Publishes draws operation partial t r =
        prepare_request-Publishes id stream_id events env draws.run operation t _ r.own_id r.tracked
          λ later prepared p.
            let key = phase_effect_key prepared.operation_id RuntimePhase.transcript_partial 0 in
            next_run-Publishes id stream_id events (λ pair. Tracks id stream_id events pair.0) later
              (begin_phase_effect env prepared RuntimePhase.transcript_partial key draws.begun_at
                later)
              (persist_transcript env draws prepared partial) p.tracked.stored
              (begin_phase_effect-Tracks id stream_id events env prepared
                RuntimePhase.transcript_partial key draws.begun_at later p.own_id p.tracked)
              λ last begun k.
                persist_transcript-Publishes draws prepared partial begun last
                  (record { tracked = k; own_id = p.own_id; own_stream = p.own_stream })

    retry_turn-Publishes :
        (draws : RecoverDraws) (operation : RuntimeOperationRecord) (t : RuntimeState)
        → Returns id stream_id events (t, operation)
        → Publishes stream_id events (retry_turn env draws operation t)
    unfolding retry_turn
    retry_turn-Publishes draws operation t r =
        prepare_request-Publishes id stream_id events env draws.run operation t _ r.own_id r.tracked
          λ later prepared p.
            run_prepared-Publishes id stream_id events env draws.run prepared fresh later p

    recover_prepared-Publishes :
        (draws : RecoverDraws) (t : RuntimeState) (prepared : RecoveryPreparation)
        → Prepares id stream_id events (t, prepared)
        → Publishes stream_id events (recover_prepared env draws prepared t)
    unfolding recover_prepared
    recover_prepared-Publishes draws t (noop operation) r = Stores-none id stream_id events t r
    recover_prepared-Publishes draws t (exhausted operation) r = Stores-none id stream_id events t r
    recover_prepared-Publishes draws t (parked operation) r = Stores-none id stream_id events t r
    recover_prepared-Publishes draws t (attempt operation RecoveryKind.partial_continuation partial)
          r =
        continue_partial-Publishes draws operation partial t r
    recover_prepared-Publishes draws t (attempt operation RecoveryKind.pre_stream_retry partial) r =
        retry_turn-Publishes draws operation t r
    recover_prepared-Publishes draws t (attempt operation RecoveryKind.terminal_noop partial) r =
        Stores-none id stream_id events t r.tracked.stored
    recover_prepared-Publishes draws t (attempt operation RecoveryKind.parked partial) r =
        Stores-none id stream_id events t r.tracked.stored
    recover_prepared-Publishes draws t (attempt operation RecoveryKind.unrecoverable partial) r =
        Stores-none id stream_id events t r.tracked.stored

    -- What follows the reconciliation.
    abbrev after_reconciliation : RecoverDraws → Bool → RuntimeState → TurnRun
    after_reconciliation draws reconciled later =
        if reconciled
        then finished_run [] later
        else next_run (transact (prepare_recovery env draws.recovered_at) later)
            (recover_prepared env draws)

    unreconciled-Publishes :
        (draws : RecoverDraws) → Publishes stream_id events (after_reconciliation draws false s)
    unfolding transact
    unreconciled-Publishes draws =
        next_run-Publishes id stream_id events (Prepares id stream_id events) s
          (prepare_recovery env draws.recovered_at s) (recover_prepared env draws) h.stored
          (prepare_recovery-Prepares id stream_id events env s incident recovers own h
            draws.recovered_at)
          λ t prepared r. recover_prepared-Publishes draws t prepared r

    reconciled-Publishes :
        (draws : RecoverDraws) (operation : RuntimeOperationRecord) (answer : Result Bool)
        → reconcile_candidate s ≡ some operation
        → Publishes stream_id events (
            next_run
              (elim answer [
                | err error ↦ (err error, s)
                | ok false ↦ (ok false, s)
                | ok true ↦ transact (reconcile_terminal env operation draws.reconciled_at) s
              ])
              (after_reconciliation draws))
    unfolding next_run transact
    reconciled-Publishes draws operation (err error) candidate =
        Stores-none id stream_id events s h.stored
    reconciled-Publishes draws operation (ok false) candidate = unreconciled-Publishes draws
    reconciled-Publishes draws operation (ok true) candidate =
        next_run-Publishes id stream_id events
          (λ pair. (pair.1 ≡ true) × Stores stream_id events pair.0) s
          (reconcile_terminal env operation draws.reconciled_at s) (after_reconciliation draws)
          h.stored
          (reconcile_terminal-Stores id stream_id events env s incident recovers own h operation
            draws.reconciled_at
            (candidate_found id stream_id events env s incident recovers own h operation candidate))
          λ t reconciled k. rw k.0 (Stores-none id stream_id events t k.1)

    -- Whatever happens to the recovery of an operation (its transcript turns out to be complete, there
    -- is nothing to do yet, the budget is spent, it is parked, or it is retried or continued, and each
    -- step of this fails or not), its stream then stores what it stored before, followed by exactly the
    -- events that were published, in their order. No other writer interrupts the recovery.
    pub recover_turn-Publishes :
        (draws : RecoverDraws) → Publishes stream_id events (recover_turn env draws s)
    unfolding recover_turn reconcile_transcript next_run
    recover_turn-Publishes draws = transcript (reconcile_candidate s) refl
      where
        transcript :
            (candidate : Option RuntimeOperationRecord)
            → reconcile_candidate s ≡ candidate
            → Publishes stream_id events (
                next_run
                  (elim candidate [
                    | none ↦ (ok false, s)
                    | some operation ↦ elim draws.has_assistant_message [
                      | err error ↦ (err error, s)
                      | ok false ↦ (ok false, s)
                      | ok true ↦ transact (reconcile_terminal env operation draws.reconciled_at) s
                    ]
                  ])
                  (after_reconciliation draws))
        transcript none e = unreconciled-Publishes draws
        transcript (some operation) e =
            reconciled-Publishes draws operation draws.has_assistant_message e
