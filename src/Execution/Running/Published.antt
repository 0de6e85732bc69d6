-- ===== src/Execution/Running/Published.antt =====
-- What `run` publishes against what the stream of its operation stores.
use chemistry.Prelude.{
  ℕ, String, false, ◌||◌, some, List, [], ◌++◌, ◌≡◌, refl, sym, ◌∙◌, subst, arith, append-nil,
  string_eq,
}
use chemistry.Protocol.{DurableStreamEvent, is_completed, is_failed}
use chemistry.Runtime.State.{
  RuntimeState, RuntimeOperationRecord, RuntimeRequestSnapshot, find_runtime_operation,
}
use chemistry.Runtime.Errors.{
  Result, ok, err, transact, commit, Ensures, returned, raised, Ensures-or_fail, Ensures-guard,
  Ensures-return_if,
}
use chemistry.Execution.Helpers.{
  Environment, TurnMode, fresh, continuing, find_stream, replace_operation,
}
use chemistry.Execution.Lookup.{operation_id-find, upsert_phase_effect-Upserts}
use chemistry.Execution.Admission.{ClaimResult, claim, install_claim, claimed_operation}
use chemistry.Execution.Turn.{mark_streaming, persist_request_snapshot}
use chemistry.Execution.Settle.Convergence.{find-put_operation}
use chemistry.Execution.Running.{ModelTurn, TurnRun, execute_claimed, execute_streaming}
use chemistry.Execution.Running.Stored.{Stores, Publishes, execute_streaming-Publishes}
use chemistry.Execution.Running.Run.{
  RunDraws, next_run, prepare_request, run_claimed, run_unlocked, run_operation, run_prepared,
}

module _ (id stream_id : String) (events : List DurableStreamEvent) where
  -- The record has the operation on its stream, with these events.
  pub record Tracks (state : RuntimeState) : Type 0 where
    pub operation : RuntimeOperationRecord
    pub found : find_runtime_operation state id ≡ some operation
    pub on_stream : operation.stream_id ≡ stream_id
    pub stored : Stores stream_id events state

  -- A transition that returned the operation.
  pub record Returns (pair : RuntimeState × RuntimeOperationRecord) : Type 0 where
    pub tracked : Tracks pair.0
    pub own_id : pair.1.operation_id ≡ id
    pub own_stream : pair.1.stream_id ≡ stream_id

  pub same_streams :
      (s t : RuntimeState)
      → t.streams ≡ s.streams
      → Stores stream_id events s
      → Stores stream_id events t
  unfolding find_stream
  same_streams s t same h = record { stream = h.stream; found = rw same h.found; holds = h.holds }

  pub put-Returns :
      (s t : RuntimeState) (current updated : RuntimeOperationRecord)
      → find_runtime_operation s id ≡ some current
      → (updated.operation_id ≡ current.operation_id) × (updated.stream_id ≡ current.stream_id)
      → t.operations ≡ replace_operation s updated
      → t.streams ≡ s.streams
      → Tracks s
      → Returns (t, updated)
  put-Returns s t current updated found kept put same h =
      let own = kept.0 ∙ operation_id-find s id current found in
      let on_stream : updated.stream_id ≡ stream_id =
        ground (arith, kept.1, found, h.found, h.on_stream) in
      record {
        tracked = record {
          operation = updated;
          found = find-put_operation s t id current updated put own found;
          on_stream = on_stream;
          stored = same_streams s t same h.stored;
        };
        own_id = own;
        own_stream = on_stream;
      }

  pub renamed :
      (s : RuntimeState) (key : String) (current : RuntimeOperationRecord)
      → key ≡ id
      → find_runtime_operation s key ≡ some current
      → find_runtime_operation s id ≡ some current
  renamed s key current own found =
      subst (λ key. find_runtime_operation s key ≡ some current) own found

  mark_streaming-Returns :
      (env : Environment) (operation : RuntimeOperationRecord) (now : ℕ) (s : RuntimeState)
      → operation.operation_id ≡ id
      → Tracks s
      → Ensures Returns (mark_streaming env operation now s)
  unfolding mark_streaming
  mark_streaming-Returns env operation now s own h = Ensures-or_fail _ λ current found.
      Ensures-guard _ λ held. Ensures-or_fail _ λ updated put.
        let only = (upsert_phase_effect-Upserts _ _ _ put).only in
        returned (
          put-Returns s _ current updated (renamed s operation.operation_id current own found)
            (ground (arith, only), ground (arith, only)) refl refl h)

  persist_request_snapshot-Returns :
      (env : Environment) (operation : RuntimeOperationRecord) (captured : RuntimeRequestSnapshot)
      (now : ℕ) (s : RuntimeState)
      → operation.operation_id ≡ id
      → Tracks s
      → Ensures Returns (persist_request_snapshot env operation captured now s)
  unfolding persist_request_snapshot
  persist_request_snapshot-Returns env operation captured now s own h =
      Ensures-or_fail _ λ current found. Ensures-guard _ λ held. Ensures-or_fail _ λ updated put.
        let only = (upsert_phase_effect-Upserts _ _ _ put).only in
        returned (
          put-Returns s _ current updated (renamed s operation.operation_id current own found)
            (ground (arith, only), ground (arith, only)) refl refl h)

  -- A claim of an operation that has not ended.
  abbrev IsClaimed : RuntimeState × ClaimResult → Type 0
  IsClaimed (t, ClaimResult.claimed winner) = Returns (t, winner)
  IsClaimed (t, ClaimResult.terminal operation) = ⊥

  claim-IsClaimed :
      (env : Environment) (mode : TurnMode) (now : ℕ) (s : RuntimeState) (h : Tracks s)
      → is_completed h.operation.status || is_failed h.operation.status ≡ false
      → Ensures IsClaimed (claim env id mode now s)
  unfolding claim install_claim claimed_operation
  claim-IsClaimed env mode now s h live = Ensures-or_fail _ λ current found.
      Ensures-return_if _ (λ over. absurd (ground (arith, over, live, found, h.found)))
        λ running. Ensures-guard _ λ free.
          Ensures-guard _
            λ at_head. returned (put-Returns s _ current _ found (refl, refl) refl refl h)

  pub Stores-none :
      (state : RuntimeState) → Stores stream_id events state → Stores stream_id (events ++ []) state
  Stores-none state h = subst (λ held. Stores stream_id held state) (sym (append-nil events)) h

  -- A transition and what follows it; a transition that fails stores and publishes nothing.
  pub next_run-Publishes {ℓ} :
      {A : Type 0} (P : RuntimeState × A → Type ℓ) (s : RuntimeState)
      (result : Result (RuntimeState × A)) (next : A → RuntimeState → TurnRun)
      → Stores stream_id events s
      → Ensures P result
      → ((t : RuntimeState) (value : A) → P (t, value) → Publishes stream_id events (next value t))
      → Publishes stream_id events (next_run (commit s result) next)
  unfolding next_run
  next_run-Publishes P s (ok (t, value)) next h (returned p) k = k t value p
  next_run-Publishes P s (err error) next h raised k = Stores-none s h

  module _ (env : Environment) where
    execute_claimed-Tracks :
        (operation : RuntimeOperationRecord) (mode : TurnMode) (turn : ModelTurn) (now : ℕ)
        (s : RuntimeState)
        → operation.operation_id ≡ id
        → Tracks s
        → Publishes stream_id events (execute_claimed env operation mode turn now s)
    unfolding execute_claimed
    execute_claimed-Tracks operation mode turn now s own h =
        executed (mark_streaming env operation now s)
          (mark_streaming-Returns env operation now s own h)
      where
        executed :
            (result : Result (RuntimeState × RuntimeOperationRecord))
            → Ensures Returns result
            → Publishes stream_id events (elim result [
              | err error ↦ record { published = []; state = s; failure = some error }
              | ok marked ↦ execute_streaming env marked.1 mode turn marked.0
            ])
        executed (ok (t, streaming)) (returned r) =
            subst (λ key. Publishes key events (execute_streaming env streaming mode turn t))
              r.own_stream
              (execute_streaming-Publishes env streaming events mode turn t
                (subst (λ key. Stores key events t) (sym r.own_stream) r.tracked.stored))
        executed (err error) raised = Stores-none s h.stored

    -- The request is prepared, and what follows goes on with the prepared operation.
    pub prepare_request-Publishes :
        (draws : RunDraws) (operation : RuntimeOperationRecord) (s : RuntimeState)
        (next : RuntimeOperationRecord → RuntimeState → TurnRun)
        → operation.operation_id ≡ id
        → Tracks s
        → ((t : RuntimeState) (prepared : RuntimeOperationRecord)
            → Returns (t, prepared)
            → Publishes stream_id events (next prepared t))
        → Publishes stream_id events (next_run (prepare_request env draws operation s) next)
    unfolding prepare_request next_run transact
    prepare_request-Publishes draws operation s next own h k = captured draws.request_snapshot
      where
        captured :
            (answer : Result RuntimeRequestSnapshot)
            → Publishes stream_id events (
                next_run
                  (elim answer [
                    | err error ↦ (err error, s)
                    | ok snapshot ↦
                        transact
                          (persist_request_snapshot env operation snapshot draws.prepared_at)
                          s
                  ])
                  next)
        captured (err error) = Stores-none s h.stored
        captured (ok snapshot) =
            next_run-Publishes Returns s
              (persist_request_snapshot env operation snapshot draws.prepared_at s) next h.stored
              (persist_request_snapshot-Returns env operation snapshot draws.prepared_at s own h) k

    pub run_prepared-Publishes :
        (draws : RunDraws) (operation : RuntimeOperationRecord) (mode : TurnMode) (t : RuntimeState)
        → Returns (t, operation)
        → Publishes stream_id events (run_prepared env draws operation mode t)
    unfolding run_prepared
    run_prepared-Publishes draws operation mode t r =
        execute_claimed-Tracks operation mode draws.turn draws.streaming_at t r.own_id r.tracked

    run_claimed-Publishes :
        (draws : RunDraws) (mode : TurnMode) (t : RuntimeState) (result : ClaimResult)
        → IsClaimed (t, result)
        → Publishes stream_id events (run_claimed env draws mode result t)
    unfolding run_claimed
    run_claimed-Publishes draws fresh t (ClaimResult.claimed winner) r =
        prepare_request-Publishes draws winner t _ r.own_id r.tracked
          λ later prepared p. run_prepared-Publishes draws prepared fresh later p
    run_claimed-Publishes draws continuing t (ClaimResult.claimed winner) r =
        run_prepared-Publishes draws winner continuing t r
    run_claimed-Publishes draws mode t (ClaimResult.terminal operation) r = absurd r

    -- Whatever happens to a run of an operation that has not ended (its claim is refused, the request
    -- cannot be captured or stored, the model fails or stalls, a capacity is exceeded, the lease is
    -- lost, or its last transaction fails), its stream then stores what it stored before, followed by
    -- exactly the events that were published, in their order. No other writer interrupts the run.
    pub run_operation-Publishes :
        (draws : RunDraws) (s : RuntimeState) (h : Tracks s)
        → is_completed h.operation.status || is_failed h.operation.status ≡ false
        → Publishes stream_id events (run_operation env draws id s)
    unfolding run_operation run_unlocked transact
    run_operation-Publishes draws s h live =
        next_run-Publishes IsClaimed s (claim env id fresh draws.claimed_at s)
          (run_claimed env draws fresh) h.stored
          (claim-IsClaimed env fresh draws.claimed_at s h live)
          λ t result claimed. run_claimed-Publishes draws fresh t result claimed
