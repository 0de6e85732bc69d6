-- ===== src/Adapter/Object/Guarded.antt =====
-- Changes of a session in apps/backend/src/agent-durable-object.ts, and the turns of the runtime.
use chemistry.Prelude.{String, none, ◌≡◌, refl, Option-cases, inl, inr, ◌⊎◌}
use chemistry.Protocol.{AgentContext}
use chemistry.Runtime.Errors.{Result, ok, err}
use chemistry.Execution.Helpers.{Environment}
use chemistry.Execution.Wake.{RuntimeWakeResult}
use chemistry.Service.Effects.{Services, Agent}
use chemistry.Service.Session.{update_context, compact_session}
use chemistry.Adapter.Sockets.{AdapterState}
use chemistry.Adapter.Dispatch.{Draws, awaken}
use chemistry.Adapter.Object.{
  ObjectState, Handler, handled_by, as_rpc, ask_agent, ready, turn_ready, mutable_session,
  handle_update_context, handle_compact_session,
}

-- The wake finds no turn that is active or waits for its recovery.
pub record IsIdle (env : Environment) (draws : Draws) (adapter : AdapterState) : Type 0 where
  pub woken : RuntimeWakeResult
  pub later : AdapterState
  pub awoke : awaken env draws adapter ≡ (ok woken, later)
  pub recovered : woken.recoverable_operation_id ≡ none
  pub ended : woken.snapshot.active_operation ≡ none

-- A refused change leaves the agent as it was.
abbrev pub Guards : Environment → Draws → ObjectState → ObjectState → Type 0
Guards env draws state after = (after.agent ≡ state.agent) ⊎ IsIdle env draws state.adapter

unfoldable guarded : {A : Type 0} → Environment → Draws → Agent A → Handler A
guarded env draws effect state =
    handled_by (mutable_session env draws state) λ allowed later. ask_agent effect later

awoken-Guards :
    {A : Type 0} (env : Environment) (draws : Draws) (effect : Agent A) (state : ObjectState)
    (answer : Result RuntimeWakeResult) (later : AdapterState)
    → awaken env draws state.adapter ≡ (answer, later)
    → Guards env draws state (guarded env draws effect state).1
unfolding guarded mutable_session turn_ready ready as_rpc handled_by
awoken-Guards env draws effect state (err error) later awoke = inl (rw awoke refl)
awoken-Guards env draws effect state (ok woken) later awoke =
    elim (Option-cases woken.recoverable_operation_id) [
      | inr (operation_id, waits) ↦ inl (rw (awoke, waits) refl)
      | inl recovered ↦ elim (Option-cases woken.snapshot.active_operation) [
        | inr (operation, runs) ↦ inl (rw (awoke, recovered, runs) refl)
        | inl ended ↦ inr (record {
          woken = woken;
          later = later;
          awoke = awoke;
          recovered = recovered;
          ended = ended;
        })
      ]
    ]

-- Whatever the storage, the model and the runtime answer, an update of the context and a compaction
-- leave the agent service as it was, its stored sessions included, unless a wake finds that no turn is
-- active and none waits for its recovery.
pub mutable_session-Guards :
    (env : Environment) (services : Services) (draws : Draws) (session_id : String)
    (context : AgentContext) (state : ObjectState)
    → Guards env draws state (handle_update_context env services draws session_id context state).1
      × Guards env draws state (handle_compact_session env services draws session_id state).1
unfolding handle_update_context handle_compact_session guarded
mutable_session-Guards env services draws session_id context state =
    let awoke = awaken env draws state.adapter in
    (
      awoken-Guards env draws (update_context services session_id context) state awoke.0 awoke.1
          refl,
      awoken-Guards env draws (compact_session services session_id) state awoke.0 awoke.1 refl,
    )
