-- ===== src/Service/Rounds/Enough.antt =====
-- The fuel of a turn of packages/agent-runtime/src/agent-service-live.ts.
use chemistry.Prelude.{
  ℕ, zero, suc, ◌+◌, ◌≤◌, String, true, Option, none, List, ◌≡◌, ap, fun_ext, arith, if◌then◌else◌,
  leb,
}
use chemistry.Transcript.{ChatMessage, StoredSession}
use chemistry.Execution.Helpers.{TurnMode, fresh}
use chemistry.Service.Effects.{ResponsePart, Services, followed_by, ask_model}
use chemistry.Service.Compact.{default_agent_configuration}
use chemistry.Service.Rounds.{
  Streaming, requires_fact_tool, round_request, continue_after_response, generated_round,
  streamed_round, one_round, stream_round,
}

-- At the last step the next round is not asked for.
continue_at_limit :
    (env : Services) (active : StoredSession) (step : ℕ) (previous : Option ChatMessage)
    (parts : List ResponsePart) (id : Option String)
    (first second : StoredSession → Option ChatMessage → Streaming)
    → leb default_agent_configuration.max_tool_steps step ≡ true
    → continue_after_response env active step previous parts id first
      ≡ continue_after_response env active step previous parts id second
unfolding continue_after_response followed_by
continue_at_limit env active step previous parts id first second h =
    fun_ext λ state. ground (arith, h)

one_round_at_limit :
    (env : Services) (active : StoredSession) (original_prompt : String) (step : ℕ)
    (previous : Option ChatMessage) (id : Option String) (mode : TurnMode)
    (first second : StoredSession → Option ChatMessage → Streaming)
    → leb default_agent_configuration.max_tool_steps step ≡ true
    → one_round env active original_prompt step previous id mode first
      ≡ one_round env active original_prompt step previous id mode second
unfolding one_round
one_round_at_limit env active original_prompt step previous id mode first second h =
    fun_ext λ state.
      let asked = ask_model env (round_request env active original_prompt step mode) state in
      ap
        (λ continuation.
          if requires_fact_tool mode step original_prompt
          then generated_round env asked.0 continuation asked.1
          else streamed_round env asked.0 continuation asked.1)
        (continue_at_limit env active step previous asked.0.parts id first second h)

-- From a step up to the configured limit on, all fuel that exceeds the number of steps left gives the
-- same stream: the rounds end by themselves.
pub stream_round-enough :
    (env : Services) (left fuel : ℕ) (active : StoredSession) (original_prompt : String) (step : ℕ)
    (previous_assistant : Option ChatMessage) (id : Option String) (mode : TurnMode)
    → left + step ≡ default_agent_configuration.max_tool_steps
    → suc left ≤ fuel
    → stream_round env fuel active original_prompt step previous_assistant id mode
      ≡ stream_round env (suc left) active original_prompt step previous_assistant id mode
unfolding stream_round
stream_round-enough env left zero active original_prompt step previous_assistant id mode h le =
    absurd (omega (arith, le))
stream_round-enough env zero (suc fuel) active original_prompt step previous_assistant id mode h
      le =
    one_round_at_limit env active original_prompt step previous_assistant id mode _ _
      (ground (arith, h))
stream_round-enough env (suc left) (suc fuel) active original_prompt step previous_assistant id mode
      h le =
    ap (one_round env active original_prompt step previous_assistant id mode) (
      fun_ext λ session. fun_ext λ assistant.
        stream_round-enough env left fuel session original_prompt (step + 1) assistant none fresh
          (omega (arith, h)) (omega (arith, le)))
