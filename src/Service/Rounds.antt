-- ===== src/Service/Rounds.antt =====
-- `streamRound` and `continueAfterResponse` of agent-service-live.ts: the rounds of the model in one
-- turn. A stream is the list of its events and the failure behind them; its effects happen as it is
-- read.
pub mod Silence
pub mod Limit
pub mod Arrival
pub mod Overrun
pub mod Ending
pub mod Enough
use chemistry.Prelude.{
  ℕ, zero, suc, ◌+◌, String, Bool, true, false, ◌&&◌, not, Option, none, some, List, [], ◌∷◌, ◌++◌,
  ◌==◌, nat_eq, if◌then◌else◌, leb, any,
}
use chemistry.Prelude.Text.{◌&◌, decimal}
use chemistry.Protocol.{AgentRpcError, AgentStreamEvent}
use chemistry.Transcript.{Message, ChatMessage, StoredSession}
use chemistry.Conversation.{
  assemble_model_prompt, assemble_continuation_prompt, assistant_message, stream_message,
  compaction_stats,
}
use chemistry.Execution.Helpers.{TurnMode, fresh, continuing, includes}
use chemistry.Service.Effects.{
  ResponsePart, ToolChoice, no_tools, automatic, required, ModelRequest, ModelResponse, Cause,
  Services, ServiceState, Attempt, returned, raised, Agent, succeed, followed_by, ◌>>=◌, draw_id,
  read_clock, ask_model,
}
use chemistry.Service.Store.{save}
use chemistry.Service.Compact.{default_agent_configuration}
use chemistry.Service.Response.{
  live_events, PersistedResponse, persist_response, calls_tool, has_content,
}

pub record Emission : Type 0 where
  pub events : List AgentStreamEvent
  pub failure : Option AgentRpcError

-- A stream and the effects of reading it.
abbrev pub Streaming : Type 0
Streaming = ServiceState → Emission × ServiceState

abbrev pub emit_fail : AgentRpcError → Streaming
emit_fail error state = (record { events = []; failure = some error }, state)

abbrev pub emit_one : AgentStreamEvent → Streaming
emit_one event state = (record { events = event ∷ []; failure = none }, state)

-- `Stream.concat(Stream.fromIterable(events), later)`
unfoldable pub concat_stream : List AgentStreamEvent → Streaming → Streaming
concat_stream events later state =
    let after = later state in (record after.0 { events = events ++ after.0.events }, after.1)

-- `Stream.unwrap`
unfoldable pub unwrap {ℓ} :
    {A : Type ℓ} → Attempt A × ServiceState → (A → Streaming) → Emission × ServiceState
unwrap (returned value, state) next = next value state
unwrap (raised error, state) next = emit_fail error state

abbrev cause_message : Cause → String
cause_message (Cause.from_error message) = message
cause_message (Cause.from_value text) = text

abbrev pub inference_error : String → Cause → AgentRpcError
inference_error operation cause = AgentRpcError.inference operation (cause_message cause)

abbrev pub limit_error : AgentRpcError
limit_error =
    let limit = default_agent_configuration.max_tool_steps in
    AgentRpcError.tool_loop_limit limit ("Tool loop exceeded " & decimal limit & " steps")

abbrev pub empty_error : AgentRpcError
empty_error =
    AgentRpcError.inference "empty-model-stream"
      "Model stream completed without text or tool output"

abbrev prompt_of : Services → TurnMode → StoredSession → List Message
prompt_of env fresh active = assemble_model_prompt env.engine active
prompt_of env continuing active = assemble_continuation_prompt env.engine active

abbrev pub is_fresh_turn : TurnMode → Bool
is_fresh_turn fresh = true
is_fresh_turn continuing = false

-- `requiresFactTool`
abbrev pub requires_fact_tool : TurnMode → ℕ → String → Bool
requires_fact_tool mode step original_prompt =
    is_fresh_turn mode && step == 1 && includes original_prompt "lookup_project_fact"

-- The request of one round.
unfoldable pub round_request : Services → StoredSession → String → ℕ → TurnMode → ModelRequest
round_request env active original_prompt step mode =
    let choice =
      if requires_fact_tool mode step original_prompt
      then required "lookup_project_fact"
      else if is_fresh_turn mode && not (includes original_prompt "lookup_project_fact")
      then automatic
      else no_tools in
    record {
      prompt = prompt_of env mode active;
      toolkit = is_fresh_turn mode;
      tool_choice = choice;
    }

-- The end of a turn without an assistant message: an empty one is stored.
unfoldable pub save_empty : Services → StoredSession → ChatMessage → Agent Streaming
save_empty env session empty_assistant =
    let completed : StoredSession = record session {
      messages = session.messages ++ empty_assistant ∷ [];
    } in
    save env completed >>= λ _. succeed (
      emit_one (
        AgentStreamEvent.turn_completed (stream_message empty_assistant)
          (compaction_stats env.engine completed)))

-- `preferredAssistantId ?? (yield* ids.next())`
abbrev pub preferred_or_drawn : Services → Option String → ServiceState → String × ServiceState
preferred_or_drawn env (some id) state = (id, state)
preferred_or_drawn env none state = draw_id env state

unfoldable pub complete_empty : Services → StoredSession → Option String → Agent Streaming
complete_empty env session preferred_assistant_id state =
    let drawn = preferred_or_drawn env preferred_assistant_id state in
    let read = read_clock env drawn.1 in
    save_empty env session (assistant_message drawn.0 "" read.0) read.1

-- `persisted.assistant ?? previousAssistant`
abbrev pub or_previous : Option ChatMessage → Option ChatMessage → Option ChatMessage
or_previous none previous = previous
or_previous (some assistant) previous = some assistant

-- The end of a turn that called no tool.
unfoldable pub complete_turn :
    Services → StoredSession → Option String → Option ChatMessage → Agent Streaming
complete_turn env session preferred_assistant_id none =
    complete_empty env session preferred_assistant_id
complete_turn env session preferred_assistant_id (some assistant) = succeed (
    emit_one (
      AgentStreamEvent.turn_completed (stream_message assistant)
        (compaction_stats env.engine session)))

-- `continueAfterResponse`, given the next round: the effect that returns the rest of the stream.
unfoldable pub continue_after_response :
    Services
    → StoredSession
    → ℕ
    → Option ChatMessage
    → List ResponsePart
    → Option String
    → (StoredSession → Option ChatMessage → Streaming)
    → Agent Streaming
continue_after_response env active step previous_assistant parts preferred_assistant_id next_round
      state =
    followed_by (persist_response env active parts preferred_assistant_id state) λ persisted.
      let assistant = or_previous persisted.assistant previous_assistant in
      if any calls_tool parts
      then (if leb default_agent_configuration.max_tool_steps step
          then succeed (emit_fail limit_error)
          else succeed (next_round persisted.session assistant))
      else complete_turn env persisted.session preferred_assistant_id assistant

-- A round whose whole response is awaited, for the required tool call. The response is persisted
-- before its events are emitted.
unfoldable pub generated_round : Services → ModelResponse → Agent Streaming → Streaming
generated_round env response continuation state = elim response.failure [
  | some cause ↦ emit_fail (inference_error "generate-tool-call" cause) state
  | none ↦
      let live = live_events env response.parts in
      elim live.1 [
        | some error ↦ emit_fail error state
        | none ↦ unwrap (continuation state) (λ later. concat_stream live.0 later)
      ]
]

-- How a streamed response fails: at a part, behind its parts, or because it has no content.
unfoldable pub stream_failure : Services → ModelResponse → Option AgentRpcError
stream_failure env response = elim (live_events env response.parts).1 [
  | some error ↦ some error
  | none ↦ elim response.failure [
    | some cause ↦ some (inference_error "stream-text" cause)
    | none ↦ if any (has_content env) response.parts then none else some empty_error
  ]
]

-- A streamed round: the events of the parts as they come, then the rest of the turn.
unfoldable pub streamed_round : Services → ModelResponse → Agent Streaming → Streaming
streamed_round env response continuation = concat_stream (live_events env response.parts).0 λ state.
    elim (stream_failure env response) [
      | some error ↦ emit_fail error state
      | none ↦ unwrap (continuation state) (λ later. later)
    ]

-- `streamRound`, given the next round.
unfoldable pub one_round :
    Services
    → StoredSession
    → String
    → ℕ
    → Option ChatMessage
    → Option String
    → TurnMode
    → (StoredSession → Option ChatMessage → Streaming)
    → Streaming
one_round env active original_prompt step previous_assistant preferred_assistant_id mode
      next_round =
    λ state.
      let asked = ask_model env (round_request env active original_prompt step mode) state in
      let continuation =
        continue_after_response env active step previous_assistant asked.0.parts
          preferred_assistant_id next_round in
      if requires_fact_tool mode step original_prompt
      then generated_round env asked.0 continuation asked.1
      else streamed_round env asked.0 continuation asked.1

-- A stream that was cut off: no event, no end and no failure.
abbrev pub cut_off : Streaming
cut_off state = (record { events = []; failure = none }, state)

-- The rounds from a step on, at most as many as the fuel; without fuel the stream is cut off, which the
-- source never does. A round that calls a tool has a next one.
unfoldable pub stream_round :
    Services
    → (fuel : ℕ) → StoredSession
    → String
    → ℕ
    → Option ChatMessage
    → Option String
    → TurnMode
    → Streaming
stream_round env zero active original_prompt step previous_assistant preferred_assistant_id mode =
    cut_off
stream_round env (suc fuel) active original_prompt step previous_assistant preferred_assistant_id
      mode =
    one_round env active original_prompt step previous_assistant preferred_assistant_id mode
      λ session assistant.
        stream_round env fuel session original_prompt (step + 1) assistant none fresh
