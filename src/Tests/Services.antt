-- ===== src/Tests/Services.antt =====
-- The service on the session of the transcripts' tests.
use chemistry.Prelude.{none, some, [], ◌∷◌, ◌≡◌, refl, arith, if◌then◌else◌, ◌==◌, string_eq}
use chemistry.Transcript.{Part, Message, persisted_session_from_stored}
use chemistry.Execution.Helpers.{fresh}
use chemistry.Service.Effects.{
  ResponsePart, ModelResponse, Json, StoredRecord, Services, ServiceState,
}
use chemistry.Service.Store.{key_for}
use chemistry.Service.Store.Kept.{IsCalm, IsFiled}
use chemistry.Service.Compact.{manual, compact}
use chemistry.Service.Compact.Overlay.{Compacts, compact-Compacts}
use chemistry.Service.Response.{live_events, agent_event_from_response_part}
use chemistry.Service.Rounds.{stream_round}
use chemistry.Service.Rounds.Limit.{AsksAtMost, stream_round-AsksAtMost}
use chemistry.Service.Rounds.Enough.{stream_round-enough}
use chemistry.Service.Rounds.Arrival.{Arrives}
use chemistry.Service.Rounds.Overrun.{AlwaysCalls, Overruns, stream_round-Overruns}
use chemistry.Service.Rounds.Ending.{Completes, stream_round-Completes}
use chemistry.Service.Session.{PersistPartialInput, persist_partial}
use chemistry.Service.Session.Partial.{IsFiledIn, IsPersisted, loaded, persist_partial-IsPersisted}
use chemistry.Tests.Transcripts.{session, session-AreDistinct}

abbrev calling_response : ModelResponse
calling_response = record {
  parts = ResponsePart.tool_call "c" "lookup_project_fact" (some "{}") ∷ [];
  text = "";
  failure = none;
}

abbrev pub text_response : ModelResponse
text_response = record {
  parts = ResponsePart.text_delta "Hello" ∷ [];
  text = "Hello";
  failure = none;
}

-- The payload is its own text; a text is as long as it is not empty.
abbrev pub services : ModelResponse → Services
services response = record {
  engine = record { trim = λ text. text; units = λ text. if text == "" then 0 else 5 };
  next_id = λ n. "m";
  current_time_millis = λ n. n;
  infer = λ n request. response;
  storage_fault = λ n. none;
  encode_fault = λ persisted. none;
  decode_json = λ payload. Json.json "{}";
  from_response_parts = λ parts. Message.assistant (Part.text "Hello" ∷ []) ∷ [];
}

abbrev pub state : ServiceState
state = record {
  stored = λ key.
      if key == key_for "s"
      then some (StoredRecord.current (persisted_session_from_stored session))
      else none;
  storage_calls = 0;
  ids = 0;
  readings = 0;
  inferences = 0;
}

services-IsCalm : (response : ModelResponse) → IsCalm (services response)
services-IsCalm response = record { answers = λ n. refl; encodes = λ persisted. refl }

state-IsFiledIn : IsFiledIn state "s"
unfolding IsFiled persisted_session_from_stored
state-IsFiledIn = refl

abbrev partial : PersistPartialInput
partial = record { session_id = "s"; assistant_message_id = "a4"; text = "Done, nearly." }

persist_partial-IsPersisted_example :
    IsPersisted
      (services text_response)
      partial
      (loaded "s" state)
      (persist_partial (services text_response) partial state)
persist_partial-IsPersisted_example =
    persist_partial-IsPersisted (services text_response) partial state
      (services-IsCalm text_response) state-IsFiledIn

compact-Compacts_example :
    Compacts
      (services text_response)
      session
      state
      (compact (services text_response) session manual state)
compact-Compacts_example =
    compact-Compacts (services text_response) session manual state session-AreDistinct

stream_round-AsksAtMost_example :
    AsksAtMost 5 (stream_round (services calling_response) 9 session "Hi" 1 none none fresh)
stream_round-AsksAtMost_example =
    stream_round-AsksAtMost (services calling_response) 4 9 session "Hi" 1 none none fresh refl

stream_round-enough_example :
    stream_round (services calling_response) 9 session "Hi" 1 none none fresh
    ≡ stream_round (services calling_response) 5 session "Hi" 1 none none fresh
stream_round-enough_example =
    stream_round-enough (services calling_response) 4 9 session "Hi" 1 none none fresh refl
      (omega arith)

calling-AlwaysCalls : AlwaysCalls (services calling_response)
unfolding live_events agent_event_from_response_part
calling-AlwaysCalls = record {
  arrives = λ n request. record { whole = refl; readable = refl; has_something = refl };
  calls = λ n request. refl;
}

stream_round-Overruns_example :
    Overruns 5 state
      (stream_round (services calling_response) 9 session "Hi" 1 none none fresh state)
stream_round-Overruns_example =
    stream_round-Overruns (services calling_response) 4 9 session "Hi" 1 none none fresh state
      (services-IsCalm calling_response) calling-AlwaysCalls refl (omega arith)

text-Arrives : Arrives (services text_response) text_response
unfolding live_events agent_event_from_response_part
text-Arrives = record { whole = refl; readable = refl; has_something = refl }

stream_round-Completes_example :
    Completes
      (services text_response)
      text_response
      (stream_round (services text_response) 5 session "Hi" 1 none none fresh state).0
stream_round-Completes_example =
    stream_round-Completes (services text_response) 4 session "Hi" 1 none none fresh state
      text_response (services-IsCalm text_response) refl text-Arrives refl
