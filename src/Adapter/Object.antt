-- ===== src/Adapter/Object.antt =====
-- apps/backend/src/agent-durable-object.ts: the handlers of a session's object, which join the agent
-- service, the runtime and the sockets. The object is of one session.
pub mod Guarded
use chemistry.Prelude.{
  ℕ, ◌+◌, String, Bool, true, false, Option, none, some, List, [], ◌∷◌, ◌++◌, map, not, is_none,
}
use chemistry.Protocol.{
  AgentRpcError, AgentContext, AgentStreamEvent, CompactionResult, DurableStreamEvent,
  RuntimeSnapshot,
}
use chemistry.Runtime.Errors.{DurableExecutionError, Result, ok, err}
use chemistry.Transcript.{SessionSnapshot}
use chemistry.Execution.Helpers.{Environment, error_message}
use chemistry.Execution.Admission.{RuntimeAdmission, admit}
use chemistry.Execution.Wake.{RuntimeWakeResult, wake}
use chemistry.Execution.Reading.{probe, cleanup}
use chemistry.Execution.Running.{TurnRun}
use chemistry.Execution.Running.Run.{RunDraws, RecoverDraws, run_operation}
use chemistry.Service.Effects.{Services, ServiceState, Attempt, returned, raised, Agent}
use chemistry.Service.Session.{get_session, update_context, compact_session}
use chemistry.Adapter.Sockets.{AdapterState, Served, served_by, run_runtime}
use chemistry.Adapter.Resume.{broadcast_all}
use chemistry.Adapter.Dispatch.{Draws, request_of, awaken, start_of, broadcast_terminal}
use chemistry.Adapter.Runs.{AfterDraws, set_runnable_alarm, rearm, recover_session}

unfoldable pub runtime_rpc_error : DurableExecutionError → AgentRpcError
runtime_rpc_error (DurableExecutionError.rpc error) = error
runtime_rpc_error (DurableExecutionError.persistence operation message) =
    AgentRpcError.persistence operation message
runtime_rpc_error error = AgentRpcError.inference "durable-execution" (error_message error)

-- The sockets with the runtime, and the agent service.
pub record ObjectState : Type 0 where
  pub adapter : AdapterState
  pub agent : ServiceState

abbrev pub Handler : Type 0 → Type 0
Handler A = ObjectState → Attempt A × ObjectState

unfoldable pub handled_by :
    {A B : Type 0} → Attempt A × ObjectState → (A → Handler B) → Attempt B × ObjectState
handled_by (returned value, state) next = next value state
handled_by (raised error, state) next = (raised error, state)

-- An effect of the runtime, with the error that a client is told.
unfoldable pub as_rpc :
    {A : Type 0} → ServiceState → Result A × AdapterState → Attempt A × ObjectState
as_rpc agent (ok value, adapter) = (returned value, record { adapter = adapter; agent = agent })
as_rpc agent (err error, adapter) =
    (raised (runtime_rpc_error error), record { adapter = adapter; agent = agent })

-- An effect of the agent service.
unfoldable pub ask_agent : {A : Type 0} → Agent A → Handler A
ask_agent effect state =
    let asked = effect state.agent in (asked.0, record state { agent = asked.1 })

-- `AgentSession.ready`: a wake, its alarm, and the run that is ready.
unfoldable pub ready : Environment → Draws → Handler RuntimeWakeResult
ready env draws state = as_rpc state.agent (awaken env draws state.adapter)

abbrev refuse_recovering : RuntimeWakeResult → Option String → Handler RuntimeWakeResult
refuse_recovering woken none state = (returned woken, state)
refuse_recovering woken (some operation_id) state = (
  raised (
      AgentRpcError.inference "durable-recovery-pending"
        "The previous durable turn must recover before session mutation"),
  state,
)

unfoldable pub turn_ready : Environment → Draws → Handler RuntimeWakeResult
turn_ready env draws state =
    handled_by (ready env draws state)
      λ woken later. refuse_recovering woken woken.recoverable_operation_id later

abbrev refuse_active : Bool → Handler (Unit {0})
refuse_active true state = (returned tt, state)
refuse_active false state = (
  raised (
      AgentRpcError.inference "durable-turn-active"
        "Context and compaction cannot change during an active durable turn"),
  state,
)

unfoldable pub mutable_session : Environment → Draws → Handler (Unit {0})
mutable_session env draws state =
    handled_by (turn_ready env draws state)
      λ woken later. refuse_active (is_none woken.snapshot.active_operation) later

unfoldable pub handle_get_session :
    Environment → Services → Draws → String → Handler SessionSnapshot
handle_get_session env services draws session_id state =
    handled_by (ready env draws state)
      λ woken later. ask_agent (get_session services session_id) later

unfoldable pub handle_get_runtime : Environment → Draws → Handler RuntimeSnapshot
handle_get_runtime env draws state =
    handled_by (ready env draws state)
      λ woken later. (returned (probe later.adapter.runtime).snapshot, later)

unfoldable pub handle_update_context :
    Environment → Services → Draws → String → AgentContext → Handler SessionSnapshot
handle_update_context env services draws session_id context state =
    handled_by (mutable_session env draws state)
      λ allowed later. ask_agent (update_context services session_id context) later

unfoldable pub handle_compact_session :
    Environment → Services → Draws → String → Handler CompactionResult
handle_compact_session env services draws session_id state =
    handled_by (mutable_session env draws state)
      λ allowed later. ask_agent (compact_session services session_id) later

-- What a client of `sendMessage` reads, and what it leaves.
pub record MessageRun : Type 0 where
  pub events : List AgentStreamEvent
  pub failure : Option AgentRpcError
  pub state : ObjectState

-- `Stream.ensuring`: the end is told and the next run is scheduled, whatever fails.
unfoldable pub after_message :
    Environment → AfterDraws → String → String → AdapterState → AdapterState
after_message env draws session_id stream_id adapter =
    let told = (broadcast_terminal env draws.ended_at session_id stream_id adapter).1 in
    (served_by {B = Unit {0}} (rearm env draws told)
      λ woken later. (ok tt, set_runnable_alarm draws.alarm_set_at woken later)).1

abbrev record_chat_activity : Bool → String → AdapterState → AdapterState
record_chat_activity true prompt adapter = adapter
record_chat_activity false prompt adapter = record adapter {
  touched = adapter.touched ++ prompt ∷ [];
}

abbrev rpc_failure : Option DurableExecutionError → Option AgentRpcError
rpc_failure none = none
rpc_failure (some error) = some (runtime_rpc_error error)

-- A run whose events go to the sockets as well as to the client.
unfoldable pub run_message :
    Environment
    → RunDraws
    → AfterDraws
    → String
    → String
    → RuntimeAdmission
    → ServiceState
    → AdapterState
    → MessageRun
run_message env run_draws draws session_id prompt admission agent adapter =
    let recorded = record_chat_activity admission.duplicate prompt adapter in
    let run = run_operation env run_draws admission.operation.operation_id recorded.runtime in
    let told = broadcast_all session_id run.published (record recorded { runtime = run.state }) in
    record {
      events = map (λ (published : DurableStreamEvent). published.event) run.published;
      failure = rpc_failure run.failure;
      state = record {
        adapter = after_message env draws session_id admission.operation.stream_id told;
        agent = agent;
      };
    }

abbrev refused_message : AgentRpcError → ObjectState → MessageRun
refused_message error state = record { events = []; failure = some error; state = state }

unfoldable pub admitted_message :
    Environment
    → RunDraws
    → AfterDraws
    → String
    → String
    → ServiceState
    → Result RuntimeAdmission × AdapterState
    → MessageRun
admitted_message env run_draws draws session_id prompt agent (ok admission, adapter) =
    run_message env run_draws draws session_id prompt admission agent adapter
admitted_message env run_draws draws session_id prompt agent (err error, adapter) =
    refused_message (runtime_rpc_error error) (record { adapter = adapter; agent = agent })

abbrev ready_message :
    Environment
    → Draws
    → RunDraws
    → AfterDraws
    → String
    → String
    → String
    → Attempt RuntimeWakeResult × ObjectState
    → MessageRun
ready_message env draws run_draws after submission_id session_id prompt (returned woken, state) =
    admitted_message env run_draws after session_id prompt state.agent
      (run_runtime (admit env (request_of draws prompt submission_id) draws.now) state.adapter)
ready_message env draws run_draws after submission_id session_id prompt (raised error, state) =
    refused_message error state

-- The submission's identifier is drawn.
unfoldable pub handle_send_message :
    Environment
    → Draws
    → RunDraws
    → AfterDraws
    → (submission_id session_id prompt : String) → ObjectState
    → MessageRun
handle_send_message env draws run_draws after submission_id session_id prompt state =
    ready_message env draws run_draws after submission_id session_id prompt
      (turn_ready env draws state)

-- What is left of an effect whose failure is only logged.
unfoldable pub alarm_fired :
    Environment
    → RecoverDraws
    → AfterDraws
    → (cleaned_at : ℕ) → String
    → AdapterState
    → AdapterState
alarm_fired env recover_draws draws cleaned_at session_id adapter =
    (served_by (recover_session env recover_draws draws session_id adapter) λ woken later.
      run_runtime (cleanup env cleaned_at) (record later {
        tasks = later.tasks ++ start_of woken.runnable_operation_id woken.runnable_stream_id;
      })).1
