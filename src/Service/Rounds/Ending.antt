-- ===== src/Service/Rounds/Ending.antt =====
-- How a turn of packages/agent-runtime/src/agent-service-live.ts ends.
use chemistry.Prelude.{
  ℕ, suc, ◌+◌, String, false, Option, none, some, List, [], ◌∷◌, ◌++◌, ◌≡◌, refl, ap, sym, ◌∙◌,
  arith, any, subst,
}
use chemistry.Protocol.{AgentStreamEvent, StreamMessage, CompactionStats}
use chemistry.Transcript.{ChatMessage, StoredSession}
use chemistry.Conversation.{assistant_message, stream_message, compaction_stats}
use chemistry.Execution.Helpers.{TurnMode, fresh}
use chemistry.Service.Effects.{
  ResponsePart, ModelResponse, Services, ServiceState, Attempt, returned, followed_by, ask_model,
  draw_id, read_clock,
}
use chemistry.Service.Store.Kept.{IsCalm, save_calm, saved}
use chemistry.Service.Response.{calls_tool, live_events}
use chemistry.Service.Rounds.{
  Streaming, Emission, concat_stream, emit_one, round_request, save_empty, complete_empty,
  complete_turn, or_previous, continue_after_response, stream_round,
}
use chemistry.Service.Rounds.Arrival.{Arrives, one_round_arrived, drafted, persist_response_calm}

record Finishes (ran : Attempt Streaming × ServiceState) : Type 0 where
  message : StreamMessage
  stats : CompactionStats
  later : ServiceState
  finished : ran ≡ (returned (emit_one (AgentStreamEvent.turn_completed message stats)), later)

save_empty-Finishes :
    (env : Services) (session : StoredSession) (assistant : ChatMessage) (state : ServiceState)
    → IsCalm env
    → Finishes (save_empty env session assistant state)
unfolding save_empty followed_by
save_empty-Finishes env session assistant state calm =
    let completed : StoredSession = record session {
      messages = session.messages ++ assistant ∷ [];
    } in
    record {
      message = stream_message assistant;
      stats = compaction_stats env.engine completed;
      later = saved completed state;
      finished = ground (arith, save_calm env completed state calm);
    }

complete_turn-Finishes :
    (env : Services) (session : StoredSession) (id : Option String) (assistant : Option ChatMessage)
    (state : ServiceState)
    → IsCalm env
    → Finishes (complete_turn env session id assistant state)
unfolding complete_turn complete_empty followed_by
complete_turn-Finishes env session id (some assistant) state calm = record {
  message = stream_message assistant;
  stats = compaction_stats env.engine session;
  later = state;
  finished = refl;
}
complete_turn-Finishes env session none none state calm =
    let drawn = draw_id env state in
    let read = read_clock env drawn.1 in
    save_empty-Finishes env session (assistant_message drawn.0 "" read.0) read.1 calm
complete_turn-Finishes env session (some id) none state calm =
    let read = read_clock env state in
    save_empty-Finishes env session (assistant_message id "" read.0) read.1 calm

continue_silent :
    (env : Services) (active : StoredSession) (step : ℕ) (previous : Option ChatMessage)
    (parts : List ResponsePart) (id : Option String)
    (next_round : StoredSession → Option ChatMessage → Streaming) (state : ServiceState)
    → IsCalm env
    → any calls_tool parts ≡ false
    → Finishes (continue_after_response env active step previous parts id next_round state)
unfolding continue_after_response followed_by
continue_silent env active step previous parts id next_round state calm silent =
    let last = drafted env active parts id state in
    let updated : StoredSession = record active { messages = last.0.messages } in
    let end =
      complete_turn-Finishes env updated id (or_previous last.0.assistant previous)
        (saved updated last.1) calm in
    record {
      message = end.message;
      stats = end.stats;
      later = end.later;
      finished =
          ground
            (arith, silent, end.finished, persist_response_calm env active parts id state calm);
    }

-- The stream emits the events of the response, then that the turn is complete, and does not fail.
pub record Completes (env : Services) (response : ModelResponse) (emission : Emission)
    : Type 0 where
  pub message : StreamMessage
  pub stats : CompactionStats
  pub emitted :
      emission.events
      ≡ (live_events env response.parts).0 ++ AgentStreamEvent.turn_completed message stats ∷ []
  pub succeeds : emission.failure ≡ none

-- On a storage that answers, a turn whose next response arrives and calls no tool emits the events
-- of this response in order, then that the turn is complete, and does not fail.
pub stream_round-Completes :
    (env : Services) (fuel : ℕ) (active : StoredSession) (original_prompt : String) (step : ℕ)
    (previous_assistant : Option ChatMessage) (id : Option String) (mode : TurnMode)
    (state : ServiceState) (response : ModelResponse)
    → IsCalm env
    → env.infer state.inferences (round_request env active original_prompt step mode) ≡ response
    → Arrives env response
    → any calls_tool response.parts ≡ false
    → Completes env response
        (stream_round env (suc fuel) active original_prompt step previous_assistant id mode state).0
unfolding stream_round concat_stream
stream_round-Completes env fuel active original_prompt step previous id mode state response calm e
      arrives silent =
    let next_round : StoredSession → Option ChatMessage → Streaming = λ session assistant.
      stream_round env fuel session original_prompt (step + 1) assistant none fresh in
    let asked = ask_model env (round_request env active original_prompt step mode) state in
    let end =
      continue_silent env active step previous asked.0.parts id next_round asked.1 calm
        (subst (λ answer. any calls_tool answer.parts ≡ false) (sym e) silent) in
    let ran =
      one_round_arrived env active original_prompt step previous id mode next_round state end.later
        (emit_one (AgentStreamEvent.turn_completed end.message end.stats))
        (subst (Arrives env) (sym e) arrives) end.finished in
    record {
      message = end.message;
      stats = end.stats;
      emitted =
          ap (λ after. after.0.events) ran
          ∙ ap
              (λ answer.
                (live_events env answer.parts).0
                ++ AgentStreamEvent.turn_completed end.message end.stats ∷ [])
              e;
      succeeds = ap (λ after. after.0.failure) ran;
    }
