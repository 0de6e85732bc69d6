-- ===== src/Service/Rounds/Arrival.antt =====
-- A response that arrives in a round of packages/agent-runtime/src/agent-service-live.ts.
use chemistry.Prelude.{ℕ, String, true, Option, none, List, ◌≡◌, arith, any}
use chemistry.Transcript.{ChatMessage, StoredSession}
use chemistry.Execution.Helpers.{TurnMode}
use chemistry.Service.Effects.{
  ResponsePart, ModelResponse, Services, ServiceState, returned, followed_by, ask_model,
}
use chemistry.Service.Store.Kept.{IsCalm, save_calm, saved}
use chemistry.Service.Response.{
  Draft, persist_segments, transcript_segments_from_response, persist_response, has_content,
  live_events,
}
use chemistry.Service.Rounds.{
  Streaming, concat_stream, unwrap, round_request, continue_after_response, generated_round,
  streamed_round, stream_failure, one_round,
}

-- A response whose parts are all events or nothing, which did not fail.
pub record Arrives (env : Services) (response : ModelResponse) : Type 0 where
  pub whole : response.failure ≡ none
  pub readable : (live_events env response.parts).1 ≡ none
  pub has_something : any (has_content env) response.parts ≡ true

pub one_round_arrived :
    (env : Services) (active : StoredSession) (original_prompt : String) (step : ℕ)
    (previous : Option ChatMessage) (id : Option String) (mode : TurnMode)
    (next_round : StoredSession → Option ChatMessage → Streaming) (state later : ServiceState)
    (rest : Streaming)
    → let asked = ask_model env (round_request env active original_prompt step mode) state in
      Arrives env asked.0
      → continue_after_response env active step previous asked.0.parts id next_round asked.1
        ≡ (returned rest, later)
      → one_round env active original_prompt step previous id mode next_round state
        ≡ concat_stream (live_events env asked.0.parts).0 rest later
unfolding one_round generated_round streamed_round stream_failure unwrap concat_stream
one_round_arrived env active original_prompt step previous id mode next_round state later rest
      arrives e =
    ground (arith, arrives.whole, arrives.readable, arrives.has_something, e)

unfoldable pub drafted :
    Services
    → StoredSession
    → List ResponsePart
    → Option String
    → ServiceState
    → Draft × ServiceState
drafted env active parts id state =
    persist_segments env
      (record { messages = active.messages; assistant = none; available_assistant_id = id })
      (transcript_segments_from_response env parts) state

pub persist_response_calm :
    (env : Services) (active : StoredSession) (parts : List ResponsePart) (id : Option String)
    (state : ServiceState)
    → IsCalm env
    → let last = drafted env active parts id state in
      let updated : StoredSession = record active { messages = last.0.messages } in
      persist_response env active parts id state ≡ (
        returned (record { session = updated; assistant = last.0.assistant }),
        saved updated last.1,
      )
unfolding persist_response followed_by drafted
persist_response_calm env active parts id state calm =
    let last = drafted env active parts id state in
    ground (arith, save_calm env (record active { messages = last.0.messages }) last.1 calm)
