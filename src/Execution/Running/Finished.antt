-- ===== src/Execution/Running/Finished.antt =====
-- A turn whose model ends, from its first event to its settlement.
use chemistry.Prelude.{
  sym, append-nil, pos, ◌+ℤ◌, ◌++◌, ℕ, ◌+◌, ℤ, ◌<◌, String, Option, none, some, List, [], ◌∷◌, ◌≡◌,
  refl, subst, arith,
}
use chemistry.Protocol.{AgentStreamEvent, DurableStreamEvent, RuntimeOperationStatus}
use chemistry.Runtime.State.{
  RuntimeState, RuntimeOperationRecord, RuntimeStreamRecord, RuntimePhase, PhaseStatus,
  RuntimeStreamStatus, find_runtime_operation,
}
use chemistry.Runtime.Errors.{DurableExecutionError, ◌>>=◌}
use chemistry.Execution.Helpers.{Environment, TurnMode, find_stream}
use chemistry.Execution.Lookup.{operation_id-find, stream_id-find}
use chemistry.Execution.Turn.{phase_entry}
use chemistry.Execution.Settle.{Outcome, settle, install_settle, settled_operation, settled_stream}
use chemistry.Execution.Settle.Convergence.{find-put_operation, find-put_stream}
use chemistry.Execution.Running.{
  ModelTurn, TurnRun, append_all, or_else, conclude, end_run, handle, execute_streaming,
}
use chemistry.Execution.Running.Entered.{upsert_phase_effect-Enters}
use chemistry.Execution.Running.Ready.{
  Unbroken, IsStreaming, Ready, numbered, fence_held, append-Appends,
}

-- Every event comes while the lease runs, which each one renews, and the end does so too.
abbrev pub Timely : Environment → ℕ → List (AgentStreamEvent × ℕ) → ℕ → Type 0
Timely env until [] ended = ended < until
Timely env until ((event, now) ∷ rest) ended =
    (now < until) × Timely env (now + env.limits.lease_duration_ms) rest ended

-- The number of the last event once the events are stored.
abbrev pub latest_after : ℤ → List (AgentStreamEvent × ℕ) → ℤ
latest_after latest [] = latest
latest_after latest (event ∷ rest) = latest_after (latest +ℤ pos 1) rest

-- All the events are stored, the lease still runs, and there is room for the `later` ones.
pub record AppendsAll (env : Environment) (id stream_id : String) (token : RuntimeOperationRecord)
    (effects : ℕ) (latest : ℤ) (events later : List (AgentStreamEvent × ℕ)) (ended : ℕ)
    (s : RuntimeState) (current : RuntimeOperationRecord) (run : TurnRun) : Type 0 where
  pub no_failure : run.failure ≡ none
  pub in_order : run.published ≡ numbered stream_id id latest events
  pub until : ℕ
  pub in_time : ended < until
  pub ready :
      Ready env token effects
        (latest_after latest events)
        (numbered stream_id id (latest_after latest events) later)
        until
        run.state
  pub unbroken : (work : ℕ) → Unbroken work s current → Unbroken work run.state ready.current
  pub streaming : IsStreaming current → IsStreaming ready.current

module _ (env : Environment) (id stream_id : String) (token : RuntimeOperationRecord)
    (own : token.operation_id ≡ id) (on_stream : token.stream_id ≡ stream_id) {effects : ℕ} where
  pub append_all-AppendsAll :
      (events later : List (AgentStreamEvent × ℕ)) (ended : ℕ) {latest : ℤ} {until : ℕ}
      (s : RuntimeState)
      (h : Ready env token effects latest (numbered stream_id id latest (events ++ later)) until s)
      → Timely env until events ended
      → AppendsAll env id stream_id token effects latest events later ended s h.current
          (append_all env token events s)
  unfolding append_all
  append_all-AppendsAll [] later ended {latest} {until} s h timely = record {
    no_failure = refl;
    in_order = refl;
    until = until;
    in_time = timely;
    ready = h;
    unbroken = λ work clear. clear;
    streaming = λ streaming. streaming;
  }
  append_all-AppendsAll ((event, now) ∷ rest) later ended s h timely =
      let first =
        append-Appends env id stream_id token own on_stream event now (rest ++ later) s h
          timely.0 in
      let more = append_all-AppendsAll rest later ended first.after first.ready timely.1 in
      rw (append_all, first.commits)
        (record {
          no_failure = more.no_failure;
          in_order = ground (arith, first.is_next, more.in_order);
          until = more.until;
          in_time = more.in_time;
          ready = more.ready;
          unbroken = λ work clear. more.unbroken work (first.unbroken work clear);
          streaming = λ streaming. more.streaming first.streaming;
        })

-- The operation has ended as completed, and its stream too.
pub record IsFinished (id stream_id : String) (s : RuntimeState) : Type 0 where
  pub operation : RuntimeOperationRecord
  pub stream : RuntimeStreamRecord
  pub found : find_runtime_operation s id ≡ some operation
  pub at : find_stream s stream_id ≡ some stream
  pub completed : operation.status ≡ RuntimeOperationStatus.completed
  pub stream_completed : stream.status ≡ RuntimeStreamStatus.completed
  pub idle : s.active_operation_id ≡ none

record Settles (env : Environment) (token : RuntimeOperationRecord) (now : ℕ) (run : TurnRun)
    : Type 0 where
  after : RuntimeState
  commits :
      conclude (settle env token Outcome.completed none now run.state) run none
      ≡ record run { state = after; failure = none }
  finished : IsFinished token.operation_id token.stream_id after

module _ (env : Environment) (token : RuntimeOperationRecord) {latest : ℤ}
    {pending : List DurableStreamEvent} {until : ℕ} (run : TurnRun)
    (h : Ready env token 2 latest pending until run.state) (now : ℕ) (in_time : now < until) where
  settle-Settles : Settles env token now run
  unfolding conclude settle ◌>>=◌ install_settle
  settle-Settles =
      let base = settled_operation h.current Outcome.completed none now in
      let first =
        upsert_phase_effect-Enters base
          (phase_entry h.current RuntimePhase.inference PhaseStatus.completed now)
          env.limits.max_phase_effects (omega (arith, h.ledger)) in
      let second =
        upsert_phase_effect-Enters (record base { effect_ledger = first.ledger })
          (phase_entry h.current RuntimePhase.terminal PhaseStatus.completed now)
          env.limits.max_phase_effects (omega (arith, h.ledger, first.grows)) in
      let updated : RuntimeOperationRecord = record base { effect_ledger = second.ledger } in
      let stream = settled_stream env h.stream Outcome.completed none now in
      let after = install_settle env run.state updated h.stream Outcome.completed none now in
      record {
        after = after;
        commits =
            rw
              (
                h.found,
                h.at,
                h.live,
                fence_held env token run.state h now in_time,
                first.put,
                second.put,
              )
              refl;
        finished = record {
          operation = updated;
          stream = stream;
          found =
              find-put_operation run.state after token.operation_id h.current updated refl
                (operation_id-find run.state token.operation_id h.current h.found) h.found;
          at =
              find-put_stream run.state after token.stream_id h.stream stream refl
                (stream_id-find run.state token.stream_id h.stream h.at) h.at;
          completed = refl;
          stream_completed = refl;
          idle = refl;
        };
      }

-- The run published all the events of the model and ended without a failure.
pub record Completes (id stream_id : String) (events : List DurableStreamEvent) (run : TurnRun)
    : Type 0 where
  pub no_failure : run.failure ≡ none
  pub in_order : run.published ≡ events
  pub finished : IsFinished id stream_id run.state

module _ (env : Environment) (turn : ModelTurn) (id stream_id : String)
    (token : RuntimeOperationRecord) (mode : TurnMode) (own : token.operation_id ≡ id)
    (on_stream : token.stream_id ≡ stream_id) where
  -- The turn has appended all its events.
  ended-Completes :
      {latest : ℤ} (s : RuntimeState) (current : RuntimeOperationRecord) (appended : TurnRun)
      (failure : Option DurableExecutionError)
      → AppendsAll env id stream_id token 2 latest turn.events [] turn.ended_at s current appended
      → failure ≡ none
      → Completes id stream_id (numbered stream_id id latest turn.events) (
          handle env token mode turn
            (end_run env token turn appended failure)
            (end_run env token turn appended failure).failure)
  unfolding end_run handle
  ended-Completes s current appended none all e =
      let settled = settle-Settles env token appended all.ready turn.ended_at all.in_time in
      rw settled.commits (record {
        no_failure = refl;
        in_order = all.in_order;
        finished =
            subst (λ key. IsFinished key stream_id settled.after) own
              (subst (λ key. IsFinished token.operation_id key settled.after) on_stream
                settled.finished);
      })
  ended-Completes s current appended (some error) all e = absurd (ground (arith, e))

  pub execute_streaming-Completes :
      turn.failure ≡ none
      → {latest : ℤ} {until : ℕ} (s : RuntimeState)
      → Ready env token 2 latest (numbered stream_id id latest turn.events) until s
      → Timely env until turn.events turn.ended_at
      → Completes id stream_id
          (numbered stream_id id latest turn.events)
          (execute_streaming env token mode turn s)
  unfolding execute_streaming
  execute_streaming-Completes ends {latest} {until} s h timely =
      let appended = append_all env token turn.events s in
      let ready : Ready env token 2 latest (numbered stream_id id latest (turn.events ++ [])) until
          s =
        subst (λ events. Ready env token 2 latest (numbered stream_id id latest events) until s)
          (sym (append-nil turn.events)) h in
      let all =
        append_all-AppendsAll env id stream_id token own on_stream turn.events [] turn.ended_at s
          ready timely in
      ended-Completes s ready.current appended (or_else appended.failure turn.failure) all
        (rw (all.no_failure, ends) refl)
