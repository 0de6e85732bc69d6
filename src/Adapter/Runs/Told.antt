-- ===== src/Adapter/Runs/Told.antt =====
-- What the sockets hear of a run of apps/backend/src/runtime-websocket-adapter.ts against what the
-- record of packages/agent-runtime/src/durable-execution.ts stores of it.
use chemistry.Prelude.{
  String, false, ◌||◌, Option, none, some, List, [], ◌∷◌, ◌++◌, ◌≡◌, refl, sym, ◌∙◌, subst,
}
use chemistry.Protocol.{DurableStreamEvent, RuntimeServerFrame, is_completed, is_failed}
use chemistry.Runtime.Errors.{DurableExecutionError}
use chemistry.Execution.Helpers.{Environment}
use chemistry.Execution.Running.{TurnRun}
use chemistry.Execution.Running.Run.{RunDraws, run_operation}
use chemistry.Execution.Running.Stored.{Stores}
use chemistry.Execution.Running.Published.{Tracks, run_operation-Publishes}
use chemistry.Adapter.Sockets.{AdapterState}
use chemistry.Adapter.Broadcast.{broadcast}
use chemistry.Adapter.Resume.{broadcast_all}
use chemistry.Adapter.Runs.{tell_failure, broadcast_run}
use chemistry.Adapter.Runs.Live.{
  NoReplay, sent_to, appended, live_frames, failure_frames, broadcast_run-live,
}

broadcast_all-runtime :
    (session_id : String) (events : List DurableStreamEvent) (state : AdapterState)
    → (broadcast_all session_id events state).runtime ≡ state.runtime
unfolding broadcast_all broadcast
broadcast_all-runtime session_id [] state = refl
broadcast_all-runtime session_id (event ∷ rest) state =
    broadcast_all-runtime session_id rest
      (broadcast session_id (RuntimeServerFrame.stream_event event false) state)

broadcast_run-runtime :
    (session_id : String) (run : TurnRun) (state : AdapterState)
    → (broadcast_run session_id run state).runtime ≡ run.state
unfolding broadcast_run tell_failure
broadcast_run-runtime session_id run state =
    told run.failure (broadcast_all session_id run.published (record state { runtime = run.state }))
    ∙ broadcast_all-runtime session_id run.published (record state { runtime = run.state })
  where
    told :
        (failure : Option DurableExecutionError) (state : AdapterState)
        → (tell_failure failure state).runtime ≡ state.runtime
    told none state = refl
    told (some error) state = refl

-- The stream stores the events of the run behind those that it had, and each socket of the session is
-- sent just these, and the failure.
pub record Tells (session_id stream_id : String) (events : List DurableStreamEvent) (run : TurnRun)
    (state after : AdapterState) : Type 0 where
  pub stored : Stores stream_id (events ++ run.published) after.runtime
  pub sent :
      sent_to session_id after.sockets
      ≡ appended
          (live_frames run.published ++ failure_frames run.failure)
          (sent_to session_id state.sockets)

-- When no connection has a replay going on and nothing else writes to the record, a run of an
-- operation that has not ended, however it goes, sends each socket of the session exactly the events
-- that it adds to the operation's stream, in the order in which the stream stores them behind those it
-- had, and then, if the run failed, the one frame that tells of it.
pub broadcast_run-run_operation :
    (env : Environment) (draws : RunDraws) (session_id id stream_id : String)
    (events : List DurableStreamEvent) (state : AdapterState)
    (h : Tracks id stream_id events state.runtime)
    → NoReplay state.replay_gates
    → is_completed h.operation.status || is_failed h.operation.status ≡ false
    → Tells session_id stream_id events
        (run_operation env draws id state.runtime)
        state
        (broadcast_run session_id (run_operation env draws id state.runtime) state)
broadcast_run-run_operation env draws session_id id stream_id events state h free live =
    let run = run_operation env draws id state.runtime in
    record {
      stored =
          subst (Stores stream_id (events ++ run.published))
            (sym (broadcast_run-runtime session_id run state))
            (run_operation-Publishes id stream_id events env draws state.runtime h live);
      sent = broadcast_run-live session_id run state free;
    }
