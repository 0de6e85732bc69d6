-- ===== src/Execution/Running/Resumed.antt =====
-- `recover` of a turn whose alarm is due.
use chemistry.Prelude.{
  ℕ, ◌+◌, ℤ, ◌<◌, String, Bool, true, false, inl, inr, none, List, ◌≡◌, refl, string_eq, nat_eq,
  Option-cases, ◌∙◌,
}
use chemistry.Protocol.{DurableStreamEvent}
use chemistry.Runtime.State.{
  RuntimeState, RuntimeOperationRecord, RuntimeRequestSnapshot, RuntimePhase, RecoveryKind,
}
use chemistry.Runtime.Errors.{ok, transact}
use chemistry.Execution.Helpers.{Environment, fresh, continuing, partial_text, phase_effect_key}
use chemistry.Execution.Lookup.{operation_id-find}
use chemistry.Execution.Recovery.{reconcile_candidate}
use chemistry.Execution.Prepare.{attempt, recovering_operation}
use chemistry.Execution.Running.Run.{
  RecoverDraws, next_run, run_prepared, reconcile_transcript, persist_transcript, continue_partial,
  retry_turn, recover_prepared, recover_turn,
}
use chemistry.Execution.Running.Ready.{Ready, numbered}
use chemistry.Execution.Running.Finished.{Timely, Completes}
use chemistry.Execution.Running.Started.{prepare_commits, execute_claimed-Starts, prepared-Starts}
use chemistry.Execution.Running.Completed.{Starts-Completes}
use chemistry.Execution.Running.Entered.{fewer, persist_request_snapshot-Moves}
use chemistry.Execution.Running.Effects.{begin_phase_effect-Stays, complete_phase_effect-Stays}
use chemistry.Execution.Running.Due.{
  Resumes, retries, continues, Due, recovering, attempted, attempted-Ready, due_commits,
}

-- The transcript has no answer of the turn yet, and takes its partial answer; the request can be
-- captured, the model ends without a failure, and each step comes before the lease expires, which the
-- attempt takes and `markStreaming` and every event renew.
pub record Answers (env : Environment) (draws : RecoverDraws) (captured : RuntimeRequestSnapshot)
    : Type 0 where
  pub unanswered : draws.has_assistant_message ≡ ok false
  pub persists :
      (assistant_message_id text : String) → draws.persist_partial assistant_message_id text ≡ ok tt
  pub captures : draws.run.request_snapshot ≡ ok captured
  pub ends : draws.run.turn.failure ≡ none
  pub prepared_in_time : draws.run.prepared_at < draws.recovered_at + env.limits.lease_duration_ms
  pub begun_in_time : draws.begun_at < draws.recovered_at + env.limits.lease_duration_ms
  pub completed_in_time : draws.completed_at < draws.recovered_at + env.limits.lease_duration_ms
  pub streaming_in_time : draws.run.streaming_at < draws.recovered_at + env.limits.lease_duration_ms
  pub timely :
      Timely env
        (draws.run.streaming_at + env.limits.lease_duration_ms)
        draws.run.turn.events
        draws.run.turn.ended_at

module _ (env : Environment) (id stream_id : String) (latest : ℤ) (draws : RecoverDraws)
    (captured : RuntimeRequestSnapshot) (k : Answers env draws captured) where
  abbrev until : ℕ
  until = draws.recovered_at + env.limits.lease_duration_ms

  abbrev events : List DurableStreamEvent
  events = numbered stream_id id latest draws.run.turn.events

  run_prepared-Completes :
      (token : RuntimeOperationRecord) (t : RuntimeState)
      → token.operation_id ≡ id
      → token.stream_id ≡ stream_id
      → Ready env token 3 latest events until t
      → Completes id stream_id events (run_prepared env draws.run token continuing t)
  unfolding run_prepared
  run_prepared-Completes token t own on_stream h =
      Starts-Completes env id stream_id latest continuing draws.run.turn k.ends k.timely (
        execute_claimed-Starts env id stream_id token continuing draws.run.turn
          draws.run.streaming_at t own on_stream h k.streaming_in_time)

  persist_transcript-Completes :
      (token : RuntimeOperationRecord) (partial : String) (begun : Bool) (t : RuntimeState)
      → token.operation_id ≡ id
      → token.stream_id ≡ stream_id
      → Ready env token 4 latest events until t
      → Completes id stream_id events (persist_transcript env draws token partial begun t)
  unfolding persist_transcript next_run transact
  persist_transcript-Completes token partial false t own on_stream h =
      run_prepared-Completes token t own on_stream (fewer env token t h)
  persist_transcript-Completes token partial true t own on_stream h =
      let key = phase_effect_key token.operation_id RuntimePhase.transcript_partial 0 in
      let done =
        complete_phase_effect-Stays env token t h draws.completed_at k.completed_in_time
          RuntimePhase.transcript_partial key in
      rw (k.persists token.assistant_message_id partial, done.commits)
        (run_prepared-Completes token done.after own on_stream done.ready)

  continue_partial-Completes :
      (token : RuntimeOperationRecord) (partial : String) (t : RuntimeState)
      → token.operation_id ≡ id
      → token.stream_id ≡ stream_id
      → Ready env token 6 latest events until t
      → Completes id stream_id events (continue_partial env draws token partial t)
  unfolding continue_partial next_run transact
  continue_partial-Completes token partial t own on_stream h =
      let prepared =
        persist_request_snapshot-Moves env token t h draws.run.prepared_at k.prepared_in_time
          captured in
      let key = phase_effect_key prepared.next.operation_id RuntimePhase.transcript_partial 0 in
      let begun =
        begin_phase_effect-Stays env prepared.next prepared.after prepared.ready draws.begun_at
          k.begun_in_time RuntimePhase.transcript_partial key in
      rw
        (
          prepare_commits env draws.run token captured t h.current prepared k.captures,
          begun.commits,
        )
        (persist_transcript-Completes prepared.next partial begun.value begun.after
          (prepared.own_id ∙ own) (prepared.own_stream ∙ on_stream) begun.ready)

  recover_prepared-Completes :
      (token : RuntimeOperationRecord) (kind : RecoveryKind) (partial : String) (t : RuntimeState)
      → Resumes kind
      → token.operation_id ≡ id
      → token.stream_id ≡ stream_id
      → Ready env token 6 latest events until t
      → Completes id stream_id events (recover_prepared env draws (attempt token kind partial) t)
  unfolding recover_prepared retry_turn
  recover_prepared-Completes token kind partial t continues own on_stream h =
      continue_partial-Completes token partial t own on_stream h
  recover_prepared-Completes token kind partial t retries own on_stream h =
      Starts-Completes env id stream_id latest fresh draws.run.turn k.ends k.timely (
        prepared-Starts env id stream_id draws.run captured k.captures token fresh t own on_stream
          (fewer env token t (fewer env token t h)) k.prepared_in_time k.streaming_in_time)

  unreconciled : (s : RuntimeState) → reconcile_transcript env draws s ≡ (ok false, s)
  unfolding reconcile_transcript
  unreconciled s = elim (Option-cases (reconcile_candidate s)) [
    | inl nothing ↦ rw (reconcile_transcript, nothing) refl
    | inr (operation, found) ↦ rw (reconcile_transcript, found, k.unanswered) refl
  ]

  -- A turn that was interrupted with budget left is brought to its end by its recovery, be it a retry
  -- or a continuation, when its alarm is due: the recovery has no failure, it publishes exactly the
  -- events of the model, numbered without a gap after the last stored one, and afterwards the operation
  -- and its stream are completed and the session is free. The ledger, the stream and the budget of
  -- recovery work have room for the turn; the transcript has no answer of it yet and takes the partial
  -- one, the request can be captured, the model ends without a failure, and each step comes before the
  -- lease expires, which the attempt takes and every event renews. No other writer interrupts the
  -- recovery.
  pub recover_turn-Completes :
      (s : RuntimeState)
      → Due env id stream_id latest events draws.recovered_at s
      → Completes id stream_id events (recover_turn env draws s)
  unfolding recover_turn next_run transact recovering_operation
  recover_turn-Completes s h =
      rw (unreconciled s, due_commits env draws.recovered_at s h)
        (recover_prepared-Completes (recovering env draws.recovered_at s h) h.incident.kind
          (partial_text h.stream) (attempted env draws.recovered_at s h) h.kind
          (operation_id-find s id h.operation h.found) h.on_stream
          (attempted-Ready env draws.recovered_at s h))
