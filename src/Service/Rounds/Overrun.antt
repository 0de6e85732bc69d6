-- ===== src/Service/Rounds/Overrun.antt =====
-- The limit of the tool loop in packages/agent-runtime/src/agent-service-live.ts.
use chemistry.Prelude.{
  ℕ, zero, suc, ◌+◌, ◌≤◌, String, true, false, Option, none, some, List, ◌≡◌, sym, arith,
  if◌then◌else◌, any, leb, subst,
}
use chemistry.Protocol.{AgentStreamEvent}
use chemistry.Transcript.{ChatMessage, StoredSession}
use chemistry.Execution.Helpers.{TurnMode, fresh}
use chemistry.Service.Effects.{
  ResponsePart, ModelRequest, Services, ServiceState, returned, followed_by, ask_model,
}
use chemistry.Service.Store.Kept.{IsCalm, saved}
use chemistry.Service.Compact.{default_agent_configuration}
use chemistry.Service.Response.{transcript_segments_from_response, calls_tool, live_events}
use chemistry.Service.Rounds.{
  Streaming, Emission, concat_stream, emit_fail, limit_error, round_request, or_previous,
  continue_after_response, one_round, stream_round,
}
use chemistry.Service.Rounds.Enough.{stream_round-enough}
use chemistry.Service.Rounds.Silence.{persist_segments_silent}
use chemistry.Service.Rounds.Arrival.{Arrives, one_round_arrived, drafted, persist_response_calm}

-- A round that called a tool.
continue_called :
    (env : Services) (active : StoredSession) (step : ℕ) (previous : Option ChatMessage)
    (parts : List ResponsePart) (id : Option String)
    (next_round : StoredSession → Option ChatMessage → Streaming) (state : ServiceState)
    → IsCalm env
    → any calls_tool parts ≡ true
    → let last = drafted env active parts id state in
      let updated : StoredSession = record active { messages = last.0.messages } in
      continue_after_response env active step previous parts id next_round state ≡ (
        returned (
            if leb default_agent_configuration.max_tool_steps step
            then emit_fail limit_error
            else next_round updated (or_previous last.0.assistant previous)),
        saved updated last.1,
      )
unfolding continue_after_response followed_by
continue_called env active step previous parts id next_round state calm called =
    ground (arith, called, persist_response_calm env active parts id state calm)

-- A model whose every answer calls a tool.
pub record AlwaysCalls (env : Services) : Type 0 where
  pub arrives : (n : ℕ) (request : ModelRequest) → Arrives env (env.infer n request)
  pub calls : (n : ℕ) (request : ModelRequest) → any calls_tool (env.infer n request).parts ≡ true

abbrev pub Overruns : ℕ → ServiceState → Emission × ServiceState → Type 0
Overruns rounds before ran =
    (ran.0.failure ≡ some limit_error) × (ran.1.inferences ≡ before.inferences + rounds)

concat_stream-Overruns :
    (rounds : ℕ) (before later : ServiceState) (events : List AgentStreamEvent) (stream : Streaming)
    → later.inferences ≡ suc before.inferences
    → Overruns rounds later (stream later)
    → Overruns (suc rounds) before (concat_stream events stream later)
unfolding concat_stream
concat_stream-Overruns rounds before later events stream h overruns =
    (overruns.0, omega (arith, h, overruns.1))

one_round-Overruns :
    (rounds : ℕ) (env : Services) (active : StoredSession) (original_prompt : String) (step : ℕ)
    (previous : Option ChatMessage) (id : Option String) (mode : TurnMode)
    (next_round : StoredSession → Option ChatMessage → Streaming) (state : ServiceState)
    → IsCalm env
    → AlwaysCalls env
    → ((session : StoredSession) (assistant : Option ChatMessage) (later : ServiceState)
        → Overruns rounds later (
            (if leb default_agent_configuration.max_tool_steps step
                then emit_fail limit_error
                else next_round session assistant)
              later))
    → Overruns
        (suc rounds)
        state
        (one_round env active original_prompt step previous id mode next_round state)
unfolding drafted
one_round-Overruns rounds env active original_prompt step previous id mode next_round state calm
      always h =
    let request = round_request env active original_prompt step mode in
    let asked = ask_model env request state in
    let parts = asked.0.parts in
    let last = drafted env active parts id asked.1 in
    let updated : StoredSession = record active { messages = last.0.messages } in
    let assistant = or_previous last.0.assistant previous in
    let rest : Streaming =
      if leb default_agent_configuration.max_tool_steps step
      then emit_fail limit_error
      else next_round updated assistant in
    subst (Overruns (suc rounds) state)
      (sym (
        one_round_arrived env active original_prompt step previous id mode next_round state
          (saved updated last.1) rest (always.arrives state.inferences request)
          (continue_called env active step previous parts id next_round asked.1 calm
            (always.calls state.inferences request))))
      (concat_stream-Overruns rounds state (saved updated last.1) (live_events env parts).0 rest
        (persist_segments_silent env _ (transcript_segments_from_response env parts) asked.1)
        (h updated assistant (saved updated last.1)))

below_limit :
    (left step : ℕ)
    → suc left + step ≡ default_agent_configuration.max_tool_steps
    → leb default_agent_configuration.max_tool_steps step ≡ false
below_limit left step h = ground (arith, h)

stream_round-Overruns_exactly :
    (env : Services) (left : ℕ) (active : StoredSession) (original_prompt : String) (step : ℕ)
    (previous_assistant : Option ChatMessage) (id : Option String) (mode : TurnMode)
    (state : ServiceState)
    → IsCalm env
    → AlwaysCalls env
    → left + step ≡ default_agent_configuration.max_tool_steps
    → Overruns
        (suc left)
        state
        (stream_round env (suc left) active original_prompt step previous_assistant id mode state)
unfolding stream_round
stream_round-Overruns_exactly env zero active original_prompt step previous id mode state calm
      always h =
    one_round-Overruns 0 env active original_prompt step previous id mode _ state calm always
      λ session assistant later. ground (arith, h)
stream_round-Overruns_exactly env (suc left) active original_prompt step previous id mode state calm
      always h =
    one_round-Overruns (suc left) env active original_prompt step previous id mode _ state calm
      always
      λ session assistant later.
        subst
          (λ limited. Overruns (suc left) later (
            (if limited
                then emit_fail limit_error
                else stream_round env (suc left) session original_prompt (step + 1) assistant none
                    fresh)
              later))
          (sym (below_limit left step h))
          (stream_round-Overruns_exactly env left session original_prompt (step + 1) assistant none
            fresh later calm always (omega (arith, h)))

-- On a storage that answers and with a model whose every answer arrives and calls a tool, the turn
-- from a step up to the configured limit on, on any fuel that exceeds the steps left, asks the model
-- once for each step up to the limit, and then fails with the error of the tool loop.
pub stream_round-Overruns :
    (env : Services) (left fuel : ℕ) (active : StoredSession) (original_prompt : String) (step : ℕ)
    (previous_assistant : Option ChatMessage) (id : Option String) (mode : TurnMode)
    (state : ServiceState)
    → IsCalm env
    → AlwaysCalls env
    → left + step ≡ default_agent_configuration.max_tool_steps
    → suc left ≤ fuel
    → Overruns
        (suc left)
        state
        (stream_round env fuel active original_prompt step previous_assistant id mode state)
stream_round-Overruns env left fuel active original_prompt step previous id mode state calm always h
      enough =
    subst (λ stream. Overruns (suc left) state (stream state))
      (sym
        (stream_round-enough env left fuel active original_prompt step previous id mode h enough))
      (stream_round-Overruns_exactly env left active original_prompt step previous id mode state
        calm always h)
