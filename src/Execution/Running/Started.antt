-- ===== src/Execution/Running/Started.antt =====
-- The steps of `run` and `recover` before the model is asked.
use chemistry.Prelude.{
  suc, ℕ, ◌+◌, ℤ, ◌≤◌, inl, ◌<◌, String, true, false, ◌||◌, some, List, ◌≡◌, refl, arith, length,
  string_eq, subst, sym, ◌∙◌,
}
use chemistry.Protocol.{DurableStreamEvent, is_completed, is_failed}
use chemistry.Runtime.State.{
  RuntimeState, RuntimeOperationRecord, RuntimeStreamRecord, RuntimeRequestSnapshot,
  find_runtime_operation,
}
use chemistry.Runtime.Errors.{ok, ◌>>=◌, transact}
use chemistry.Execution.Helpers.{Environment, TurnMode, fresh, find_stream}
use chemistry.Execution.Lookup.{operation_id-find}
use chemistry.Execution.Admission.{
  ClaimResult, claim, install_claim, claimed_operation, session_free, fifo_head,
}
use chemistry.Execution.Turn.{persist_request_snapshot}
use chemistry.Execution.Settle.{is_settled}
use chemistry.Execution.Settle.Convergence.{find-put_operation}
use chemistry.Execution.Running.{execute_streaming, TurnRun, ModelTurn, execute_claimed}
use chemistry.Execution.Running.Run.{
  RunDraws, next_run, prepare_request, run_prepared, run_claimed, run_unlocked, run_operation,
}
use chemistry.Execution.Running.Ready.{Unbroken, IsStreaming, Ready, Fits, bytes_of}
use chemistry.Execution.Running.Entered.{
  Puts, Moves, persist_request_snapshot-Moves, mark_streaming-Moves,
}

-- The operation has not ended nor been recovered, may be claimed, and has room for the `pending`
-- events in its stream, whose last event is number `latest`, and for so many entries in its ledger.
pub record Claimable (env : Environment) (id stream_id : String) (effects : ℕ) (latest : ℤ)
    (pending : List DurableStreamEvent) (s : RuntimeState) : Type 0 where
  pub operation : RuntimeOperationRecord
  pub stream : RuntimeStreamRecord
  pub found : find_runtime_operation s id ≡ some operation
  pub on_stream : operation.stream_id ≡ stream_id
  pub at : find_stream s stream_id ≡ some stream
  pub live : is_settled operation stream ≡ false
  pub first : operation.attempt ≡ 0
  pub free : session_free s id ≡ true
  pub at_head : fifo_head fresh s id ≡ true
  pub ledger : length operation.effect_ledger + effects ≤ env.limits.max_phase_effects
  pub last : stream.latest_sequence ≡ latest
  pub room : length stream.events + length pending ≤ env.limits.max_events_per_stream
  pub size : stream.encoded_bytes + bytes_of env pending ≤ env.limits.max_stream_bytes
  pub fits : Fits env pending

-- What comes before the model is asked has committed.
pub record Starts (env : Environment) (id stream_id : String) (mode : TurnMode) (turn : ModelTurn)
    (effects : ℕ) (latest : ℤ) (pending : List DurableStreamEvent) (until : ℕ) (s : RuntimeState)
    (current : RuntimeOperationRecord) (run : TurnRun) : Type 0 where
  pub token : RuntimeOperationRecord
  pub after : RuntimeState
  pub begins : run ≡ execute_streaming env token mode turn after
  pub own_id : token.operation_id ≡ id
  pub own_stream : token.stream_id ≡ stream_id
  pub ready : Ready env token effects latest pending until after
  pub unbroken : (work : ℕ) → Unbroken work s current → Unbroken work after ready.current
  pub streaming : IsStreaming ready.current

module _ (env : Environment) {effects : ℕ} {latest : ℤ} {pending : List DurableStreamEvent} where
  pub execute_claimed-Starts :
      (id stream_id : String) (token : RuntimeOperationRecord) (mode : TurnMode) (turn : ModelTurn)
      (now : ℕ) {until : ℕ} (s : RuntimeState)
      → token.operation_id ≡ id
      → token.stream_id ≡ stream_id
      → (h : Ready env token (suc effects) latest pending until s) → now < until
      → Starts env id stream_id mode turn effects latest pending
          (now + env.limits.lease_duration_ms)
          s
          h.current
          (execute_claimed env token mode turn now s)
  unfolding execute_claimed
  execute_claimed-Starts id stream_id token mode turn now s own on_stream h in_time =
      let marked = mark_streaming-Moves env token s h now in_time in
      record {
        token = marked.next;
        after = marked.after;
        begins = rw (execute_claimed, marked.commits) refl;
        own_id = marked.own_id ∙ own;
        own_stream = marked.own_stream ∙ on_stream;
        ready = marked.ready;
        unbroken = λ work clear. rw marked.stored (marked.unbroken work clear);
        streaming = rw marked.stored marked.holds;
      }

  pub prepare_commits :
      (draws : RunDraws) (token : RuntimeOperationRecord) (captured : RuntimeRequestSnapshot)
      {P : RuntimeOperationRecord → Type 0} {until : ℕ} (s : RuntimeState)
      (current : RuntimeOperationRecord)
      (m : Moves env P token.operation_id token.stream_id effects latest pending until s current
        (persist_request_snapshot env token captured draws.prepared_at s))
      → draws.request_snapshot ≡ ok captured
      → prepare_request env draws token s ≡ (ok m.next, m.after)
  unfolding prepare_request transact
  prepare_commits draws token captured s current m answer = rw (answer, m.commits) refl

module _ (env : Environment) {effects : ℕ} {latest : ℤ} {pending : List DurableStreamEvent}
    (id stream_id : String) (draws : RunDraws) (captured : RuntimeRequestSnapshot)
    (answer : draws.request_snapshot ≡ ok captured) where
  -- The request is captured, and both steps come before the lease that runs until `until` expires.
  pub prepared-Starts :
      (token : RuntimeOperationRecord) (mode : TurnMode) {until : ℕ} (s : RuntimeState)
      → token.operation_id ≡ id
      → token.stream_id ≡ stream_id
      → (h : Ready env token (suc (suc effects)) latest pending until s) → draws.prepared_at < until
      → draws.streaming_at < until
      → Starts env id stream_id mode draws.turn effects latest pending
          (draws.streaming_at + env.limits.lease_duration_ms)
          s
          h.current
          (next_run
            (prepare_request env draws token s)
            λ prepared later. run_prepared env draws prepared mode later)
  unfolding next_run run_prepared
  prepared-Starts token mode s own on_stream h prepared_in_time streaming_in_time =
      let prepared =
        persist_request_snapshot-Moves env token s h draws.prepared_at prepared_in_time captured in
      let started =
        execute_claimed-Starts env id stream_id prepared.next mode draws.turn draws.streaming_at
          prepared.after (prepared.own_id ∙ own) (prepared.own_stream ∙ on_stream) prepared.ready
          streaming_in_time in
      record {
        token = started.token;
        after = started.after;
        begins =
            rw (prepare_commits env draws token captured s h.current prepared answer)
              started.begins;
        own_id = started.own_id;
        own_stream = started.own_stream;
        ready = started.ready;
        unbroken =
            λ work clear. started.unbroken work (rw prepared.stored (prepared.unbroken work clear));
        streaming = started.streaming;
      }

  module _ (s : RuntimeState)
      (h : Claimable env id stream_id (suc (suc effects)) latest pending s) where
    abbrev winner : RuntimeOperationRecord
    winner = claimed_operation env fresh h.operation (s.generation + 1) draws.claimed_at

    abbrev claimed : RuntimeState
    claimed = install_claim env fresh h.operation id draws.claimed_at s

    claimed-Puts :
        Puts env winner winner
          (suc (suc effects))
          latest
          pending
          (draws.claimed_at + env.limits.lease_duration_ms)
          claimed
    unfolding claimed_operation install_claim find_stream
    claimed-Puts = record {
      ready = record {
        current = winner;
        stream = h.stream;
        boot = env.boot_id;
        found = find-put_operation s claimed h.operation.operation_id h.operation winner refl refl (
            subst (λ key. find_runtime_operation s key ≡ some h.operation)
              (sym (operation_id-find s id h.operation h.found)) h.found);
        on_stream = refl;
        at = rw h.on_stream h.at;
        same_generation = refl;
        owned = refl;
        claimed = refl;
        leased = refl;
        spare = inl h.first;
        live = ground (arith, h.live);
        ledger = h.ledger;
        room = h.room;
        last = h.last;
        size = h.size;
        fits = h.fits;
      };
      same = refl;
    }

    unended : is_completed h.operation.status || is_failed h.operation.status ≡ false
    unended = ground (arith, h.live)

    claim_commits : claim env id fresh draws.claimed_at s ≡ ok (claimed, ClaimResult.claimed winner)
    unfolding claim ◌>>=◌
    claim_commits = rw (h.found, unended, h.free, h.at_head) refl

    claimed-Unbroken : (work : ℕ) → Unbroken work s h.operation → Unbroken work claimed winner
    unfolding claimed_operation install_claim
    claimed-Unbroken work clear = clear

    pub run_operation-Starts :
        draws.prepared_at < draws.claimed_at + env.limits.lease_duration_ms
        → draws.streaming_at < draws.claimed_at + env.limits.lease_duration_ms
        → Starts env id stream_id fresh draws.turn effects latest pending
            (draws.streaming_at + env.limits.lease_duration_ms)
            s
            h.operation
            (run_operation env draws id s)
    unfolding run_operation run_unlocked transact next_run run_claimed run_prepared
        claimed_operation
    run_operation-Starts prepared_in_time streaming_in_time =
        let started =
          prepared-Starts winner fresh claimed (operation_id-find s id h.operation h.found)
            h.on_stream claimed-Puts.ready prepared_in_time streaming_in_time in
        record {
          token = started.token;
          after = started.after;
          begins = rw claim_commits started.begins;
          own_id = started.own_id;
          own_stream = started.own_stream;
          ready = started.ready;
          unbroken = λ work clear.
              started.unbroken work (rw claimed-Puts.same (claimed-Unbroken work clear));
          streaming = started.streaming;
        }
