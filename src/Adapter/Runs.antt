-- ===== src/Adapter/Runs.antt =====
-- `runAccepted` and `recoverSession` of runtime-websocket-adapter.ts, which broadcast what a run of the
-- runtime emits.
pub mod Live
pub mod Told
use chemistry.Prelude.{
  ℕ, ◌+◌, String, Bool, true, Option, none, some, map, is_none, not, ◌&&◌, if◌then◌else◌,
}
use chemistry.Protocol.{RuntimeOperationSummary, runtime_unavailable}
use chemistry.Runtime.State.{RuntimeState}
use chemistry.Runtime.Errors.{DurableExecutionError, Result, ok, err}
use chemistry.Execution.Helpers.{Environment, error_message}
use chemistry.Execution.Wake.{RuntimeWakeResult, wake}
use chemistry.Execution.Reading.{RuntimeProbe, probe}
use chemistry.Execution.Running.{TurnRun}
use chemistry.Execution.Running.Run.{RunDraws, RecoverDraws, run_operation, recover_turn}
use chemistry.Adapter.Sockets.{AdapterState, Served, served_by, run_runtime, with_protocol_error}
use chemistry.Adapter.Resume.{broadcast_all}
use chemistry.Adapter.Dispatch.{set_recovery_alarm, broadcast_terminal, broadcast_recovering}

-- The clock and the identifier that the steps after a run draw.
pub record AfterDraws : Type 0 where
  pub ended_at : ℕ
  pub incident_id : String
  pub woken_at : ℕ
  pub alarm_set_at : ℕ

-- The failure is told to every socket of the object.
unfoldable pub tell_failure : Option DurableExecutionError → AdapterState → AdapterState
tell_failure none state = state
tell_failure (some error) state = record state {
  sockets = map (with_protocol_error runtime_unavailable (error_message error) true) state.sockets;
}

-- `Stream.runForEach` over what the run publishes, and its failure.
unfoldable pub broadcast_run : String → TurnRun → AdapterState → AdapterState
broadcast_run session_id run state =
    tell_failure run.failure
      (broadcast_all session_id run.published (record state { runtime = run.state }))

-- The alarm at which a run that is ready starts.
abbrev pub set_runnable_alarm : ℕ → RuntimeWakeResult → AdapterState → AdapterState
set_runnable_alarm now woken state =
    if not (is_none woken.runnable_operation_id) && not (is_none woken.runnable_stream_id)
    then record state { alarm = some (now + 1) }
    else state

unfoldable pub rearm : Environment → AfterDraws → Served RuntimeWakeResult
rearm env draws state =
    served_by (run_runtime (wake env draws.incident_id draws.woken_at) state)
      λ woken later. (ok woken, set_recovery_alarm woken later)

unfoldable pub run_accepted :
    Environment → RunDraws → AfterDraws → String → String → String → Served (Unit {0})
run_accepted env run_draws draws session_id operation_id stream_id state =
    served_by
      (broadcast_terminal env draws.ended_at session_id stream_id
        (broadcast_run session_id (run_operation env run_draws operation_id state.runtime) state))
      λ told later.
        served_by (rearm env draws later)
          λ woken last. (ok tt, set_runnable_alarm draws.alarm_set_at woken last)

abbrev tell_recovering : String → Option RuntimeOperationSummary → AdapterState → AdapterState
tell_recovering session_id none state = state
tell_recovering session_id (some operation) state = broadcast_recovering session_id operation state

abbrev tell_end : Environment → ℕ → String → Option String → Served (Unit {0})
tell_end env now session_id none state = (ok tt, state)
tell_end env now session_id (some stream_id) state =
    broadcast_terminal env now session_id stream_id state

unfoldable pub recover_session :
    Environment → RecoverDraws → AfterDraws → String → Served RuntimeWakeResult
recover_session env recover_draws draws session_id state =
    let probed = probe state.runtime in
    let told = tell_recovering session_id probed.snapshot.active_operation state in
    served_by
      (tell_end env draws.ended_at session_id probed.stream_id
        (broadcast_run session_id (recover_turn env recover_draws told.runtime) told))
      λ ended later. rearm env draws later
