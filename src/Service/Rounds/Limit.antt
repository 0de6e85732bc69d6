-- ===== src/Service/Rounds/Limit.antt =====
-- How often one turn of packages/agent-runtime/src/agent-service-live.ts asks the model.
use chemistry.Prelude.{
  ℕ, zero, suc, ◌+◌, Bool-cases, inl, inr, sym, subst, ◌≤◌, String, Bool, true, false, Option, none,
  some, List, ◌≡◌, refl, ◌∙◌, arith, if◌then◌else◌, any, leb,
}
use chemistry.Protocol.{AgentStreamEvent}
use chemistry.Transcript.{ChatMessage, StoredSession}
use chemistry.Execution.Helpers.{TurnMode, fresh}
use chemistry.Service.Effects.{
  ResponsePart, ModelResponse, Services, ServiceState, Attempt, returned, raised, Agent,
  followed_by, ask_model,
}
use chemistry.Service.Compact.{default_agent_configuration}
use chemistry.Service.Response.{live_events, calls_tool}
use chemistry.Service.Rounds.{
  Streaming, concat_stream, unwrap, emit_fail, limit_error, round_request, save_empty,
  complete_empty, complete_turn, or_previous, continue_after_response, generated_round,
  streamed_round, one_round, stream_round,
}
use chemistry.Service.Rounds.Enough.{stream_round-enough}
use chemistry.Service.Rounds.Silence.{IsSilent, save-IsSilent, persist_response-IsSilent}

-- A stream that asks the model so many times at most.
abbrev pub AsksAtMost : ℕ → Streaming → Type 0
AsksAtMost n stream = (state : ServiceState) → (stream state).1.inferences ≤ state.inferences + n

-- An effect that asks nothing and returns such a stream, or fails.
abbrev Returns : ℕ → ServiceState → Attempt Streaming × ServiceState → Type 0
Returns n before (returned stream, later) =
    (later.inferences ≡ before.inferences) × AsksAtMost n stream
Returns n before (raised error, later) = later.inferences ≡ before.inferences

Returns-before :
    (n : ℕ) (before state : ServiceState) (ran : Attempt Streaming × ServiceState)
    → state.inferences ≡ before.inferences
    → Returns n state ran
    → Returns n before ran
Returns-before n before state (returned stream, later) h r = (r.0 ∙ h, r.1)
Returns-before n before state (raised error, later) h r = r ∙ h

Returns-followed_by {ℓ} :
    {A : Type ℓ} (n : ℕ) (before : ServiceState) (ran : Attempt A × ServiceState)
    (next : A → Agent Streaming)
    → IsSilent before ran
    → ((value : A) (state : ServiceState) → Returns n state (next value state))
    → Returns n before (followed_by ran next)
unfolding followed_by
Returns-followed_by n before (returned value, state) next h k =
    Returns-before n before state (next value state) h (k value state)
Returns-followed_by n before (raised error, state) next h k = h

Returns-succeed :
    (n : ℕ) (state : ServiceState) (stream : Streaming)
    → AsksAtMost n stream
    → Returns n state (returned stream, state)
Returns-succeed n state stream h = (refl, h)

complete_turn-Returns :
    (n : ℕ) (env : Services) (session : StoredSession) (id : Option String)
    (assistant : Option ChatMessage) (state : ServiceState)
    → Returns n state (complete_turn env session id assistant state)
unfolding complete_turn complete_empty save_empty
complete_turn-Returns n env session id (some assistant) state = (refl, λ state. omega arith)
complete_turn-Returns n env session none none state =
    Returns-followed_by n state _ _ (save-IsSilent env _ _)
      (λ value later. (refl, λ state. omega arith))
complete_turn-Returns n env session (some id) none state =
    Returns-followed_by n state _ _ (save-IsSilent env _ _)
      (λ value later. (refl, λ state. omega arith))

Returns-if :
    (n : ℕ) (state : ServiceState) (test : Bool) (first second : Agent Streaming)
    → Returns n state (first state)
    → Returns n state (second state)
    → Returns n state ((if test then first else second) state)
Returns-if n state true first second f s = f
Returns-if n state false first second f s = s

continue_after_response-Returns :
    (n : ℕ) (env : Services) (active : StoredSession) (step : ℕ) (previous : Option ChatMessage)
    (parts : List ResponsePart) (id : Option String)
    (next_round : StoredSession → Option ChatMessage → Streaming) (state : ServiceState)
    → ((session : StoredSession) (assistant : Option ChatMessage)
        → AsksAtMost n (next_round session assistant))
    → Returns n state (continue_after_response env active step previous parts id next_round state)
unfolding continue_after_response
continue_after_response-Returns n env active step previous parts id next_round state h =
    Returns-followed_by n state _ _ (persist_response-IsSilent env active parts id state)
      (λ persisted later.
        Returns-if n later (any calls_tool parts) _
          (complete_turn env persisted.session id (or_previous persisted.assistant previous))
          (Returns-if n later (leb default_agent_configuration.max_tool_steps step) _ _
            (Returns-succeed n later (emit_fail limit_error) (λ state. omega arith))
            (Returns-succeed n later
              (next_round persisted.session (or_previous persisted.assistant previous))
              (h persisted.session (or_previous persisted.assistant previous))))
          (complete_turn-Returns n env persisted.session id
            (or_previous persisted.assistant previous) later))

unwrap-AsksAtMost :
    (n : ℕ) (before : ServiceState) (ran : Attempt Streaming × ServiceState)
    (wrap : Streaming → Streaming)
    → ((stream : Streaming) → AsksAtMost n stream → AsksAtMost n (wrap stream))
    → Returns n before ran
    → (unwrap ran wrap).1.inferences ≤ before.inferences + n
unfolding unwrap
unwrap-AsksAtMost n before (returned stream, state) wrap h r =
    omega (arith, r.0, h stream r.1 state)
unwrap-AsksAtMost n before (raised error, state) wrap h r = omega (arith, r)

concat_stream-AsksAtMost :
    (n : ℕ) (events : List AgentStreamEvent) (stream : Streaming)
    → AsksAtMost n stream
    → AsksAtMost n (concat_stream events stream)
unfolding concat_stream
concat_stream-AsksAtMost n events stream h state = h state

generated_round-AsksAtMost :
    (n : ℕ) (env : Services) (response : ModelResponse) (continuation : Agent Streaming)
    → ((state : ServiceState) → Returns n state (continuation state))
    → AsksAtMost n (generated_round env response continuation)
unfolding generated_round
generated_round-AsksAtMost n env response continuation h state = ground (
  arith,
  unwrap-AsksAtMost n state (continuation state)
      (λ later. concat_stream (live_events env response.parts).0 later)
      (concat_stream-AsksAtMost n (live_events env response.parts).0) (h state),
)

streamed_round-AsksAtMost :
    (n : ℕ) (env : Services) (response : ModelResponse) (continuation : Agent Streaming)
    → ((state : ServiceState) → Returns n state (continuation state))
    → AsksAtMost n (streamed_round env response continuation)
unfolding streamed_round
streamed_round-AsksAtMost n env response continuation h =
    concat_stream-AsksAtMost n (live_events env response.parts).0 _ λ state. ground (
      arith,
      unwrap-AsksAtMost n state (continuation state) (λ later. later) (λ later bounded. bounded)
          (h state),
    )

one_round-AsksAtMost :
    (n : ℕ) (env : Services) (active : StoredSession) (original_prompt : String) (step : ℕ)
    (previous : Option ChatMessage) (id : Option String) (mode : TurnMode)
    (next_round : StoredSession → Option ChatMessage → Streaming)
    → ((session : StoredSession) (assistant : Option ChatMessage)
        → AsksAtMost n (next_round session assistant))
    → AsksAtMost (suc n) (one_round env active original_prompt step previous id mode next_round)
unfolding one_round
one_round-AsksAtMost n env active original_prompt step previous id mode next_round h state =
    let asked = ask_model env (round_request env active original_prompt step mode) state in
    let continuation : Agent Streaming =
      continue_after_response env active step previous asked.0.parts id next_round in
    let bounded : (later : ServiceState) → Returns n later (continuation later) = λ later.
      continue_after_response-Returns n env active step previous asked.0.parts id next_round later
        h in
    ground (
      arith,
      generated_round-AsksAtMost n env asked.0 continuation bounded asked.1,
      streamed_round-AsksAtMost n env asked.0 continuation bounded asked.1,
    )

stream_round-asks_fuel :
    (env : Services) (fuel : ℕ) (active : StoredSession) (original_prompt : String) (step : ℕ)
    (previous_assistant : Option ChatMessage) (id : Option String) (mode : TurnMode)
    → AsksAtMost fuel (stream_round env fuel active original_prompt step previous_assistant id mode)
unfolding stream_round
stream_round-asks_fuel env zero active original_prompt step previous_assistant id mode state =
    omega arith
stream_round-asks_fuel env (suc fuel) active original_prompt step previous_assistant id mode state =
    one_round-AsksAtMost fuel env active original_prompt step previous_assistant id mode _
      (λ session assistant.
        stream_round-asks_fuel env fuel session original_prompt (step + 1) assistant none fresh)
      state

AsksAtMost-le : (n m : ℕ) (stream : Streaming) → n ≤ m → AsksAtMost n stream → AsksAtMost m stream
AsksAtMost-le n m stream le asks state = omega (arith, le, asks state)

-- From any state, with any answers of the model and of the storage, and whatever the fuel, the rounds
-- of a turn from a step up to the configured limit on ask the model at most once for each step from
-- this one up to the limit.
pub stream_round-AsksAtMost :
    (env : Services) (left fuel : ℕ) (active : StoredSession) (original_prompt : String) (step : ℕ)
    (previous_assistant : Option ChatMessage) (id : Option String) (mode : TurnMode)
    → left + step ≡ default_agent_configuration.max_tool_steps
    → AsksAtMost
        (suc left)
        (stream_round env fuel active original_prompt step previous_assistant id mode)
stream_round-AsksAtMost env left fuel active original_prompt step previous id mode h =
    elim (Bool-cases (leb (suc left) fuel)) [
      | inl enough ↦
          subst (AsksAtMost (suc left))
            (sym (
              stream_round-enough env left fuel active original_prompt step previous id mode h
                (ground (arith, enough))))
            (stream_round-asks_fuel env (suc left) active original_prompt step previous id mode)
      | inr short ↦
          AsksAtMost-le fuel (suc left)
            (stream_round env fuel active original_prompt step previous id mode)
            (ground (arith, short))
            (stream_round-asks_fuel env fuel active original_prompt step previous id mode)
    ]
