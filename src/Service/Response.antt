-- ===== src/Service/Response.antt =====
-- What agent-service-live.ts keeps of a response of the model: the events of its parts, by
-- `agentEventFromResponsePart` of conversation.ts, and its messages, by `persistResponse`.
use chemistry.Prelude.{
  ℕ, String, Bool, true, false, Option, none, some, List, [], ◌∷◌, ◌++◌, map, ◌==◌, string_eq,
  nat_eq, if◌then◌else◌, find, flat_map, ltb,
}
use chemistry.Protocol.{AgentRpcError, AgentStreamEvent}
use chemistry.Transcript.{Part, Message, ChatMessage, StoredSession}
use chemistry.Service.Effects.{
  ResponsePart, Json, Services, ServiceState, Agent, succeed, followed_by, draw_id, read_clock,
}
use chemistry.Service.Store.{save}

-- A part as an event, as no event, or the error of its payload.
pub data PartEvent : Type 0 where
  event : AgentStreamEvent → PartEvent
  no_event : PartEvent
  part_error : AgentRpcError → PartEvent

tool_call_event : String → String → Json → PartEvent
tool_call_event id name (Json.json input) = event (AgentStreamEvent.tool_call id name input)
tool_call_event id name (Json.malformed cause) =
    part_error (AgentRpcError.inference "decode-tool-call" cause)

tool_result_event : String → String → Bool → Json → PartEvent
tool_result_event id name is_failure (Json.json output) =
    event (AgentStreamEvent.tool_result id name output is_failure)
tool_result_event id name is_failure (Json.malformed cause) =
    part_error (AgentRpcError.inference "decode-tool-result" cause)

unfoldable pub agent_event_from_response_part : Services → ResponsePart → PartEvent
unfolding tool_call_event tool_result_event
agent_event_from_response_part env (ResponsePart.text value) =
    event (AgentStreamEvent.text_delta value)
agent_event_from_response_part env (ResponsePart.text_delta delta) =
    event (AgentStreamEvent.text_delta delta)
agent_event_from_response_part env (ResponsePart.tool_call id name params) =
    tool_call_event id name (env.decode_json params)
agent_event_from_response_part env (ResponsePart.tool_result id name result is_failure) =
    tool_result_event id name is_failure (env.decode_json result)
agent_event_from_response_part env (ResponsePart.other type) = no_event

-- The events of the parts up to the first error, and that error.
unfoldable pub live_events :
    Services → List ResponsePart → List AgentStreamEvent × Option AgentRpcError
live_events env [] = ([], none)
live_events env (part ∷ rest) =
    let later = live_events env rest in
    elim (agent_event_from_response_part env part) [
      | event value ↦ (value ∷ later.0, later.1)
      | no_event ↦ later
      | part_error error ↦ ([], some error)
    ]

abbrev pub is_assistant : Message → Bool
is_assistant (Message.assistant content) = true
is_assistant _ = false

abbrev pub is_user : Message → Bool
is_user (Message.user content) = true
is_user _ = false

abbrev transcript_segment : Message → List Message
transcript_segment (Message.assistant content) = Message.assistant content ∷ []
transcript_segment (Message.tool content) = Message.tool content ∷ []
transcript_segment (Message.system content) = []
transcript_segment (Message.user content) = []

unfoldable pub transcript_segments_from_response : Services → List ResponsePart → List Message
transcript_segments_from_response env parts =
    flat_map transcript_segment (env.from_response_parts parts)

-- The variables of the loop of `persistResponse`.
pub record Draft : Type 0 where
  pub messages : List ChatMessage
  pub assistant : Option ChatMessage
  pub available_assistant_id : Option String

abbrev pub content_of : Message → List Part
content_of (Message.assistant content) = content
content_of (Message.user content) = content
content_of (Message.tool content) = content
content_of (Message.system content) = []

-- `messages.map((candidate) => candidate.id === id ? message : candidate)`
abbrev pub replace_message : String → ChatMessage → List ChatMessage → List ChatMessage
replace_message id message messages =
    map (λ candidate. if candidate.id == id then message else candidate) messages

-- `find((entry) => entry.id === id)`, when it is one of these.
unfoldable pub find_candidate : (Message → Bool) → List ChatMessage → String → Option ChatMessage
find_candidate accepts messages id = elim (find (λ entry. entry.id == id) messages) [
  | none ↦ none
  | some entry ↦ if accepts entry.message then some entry else none
]

-- A segment that takes the preferred identifier: a new message, or the end of the existing one.
unfoldable pub take_segment : Draft → String → List Part → ℕ → Draft
take_segment draft id content created_at = elim (find_candidate is_assistant draft.messages id) [
  | none ↦
      let message : ChatMessage = record {
        id = id;
        created_at = created_at;
        message = Message.assistant content;
      } in
      record {
        messages = draft.messages ++ message ∷ [];
        assistant = some message;
        available_assistant_id = none;
      }
  | some existing ↦
      let message : ChatMessage = record {
        id = id;
        created_at = existing.created_at;
        message = Message.assistant (content_of existing.message ++ content);
      } in
      record {
        messages = replace_message id message draft.messages;
        assistant = some message;
        available_assistant_id = none;
      }
]

-- Any other segment.
unfoldable pub add_segment : Draft → String → Message → ℕ → Draft
add_segment draft id segment created_at =
    let message : ChatMessage = record { id = id; created_at = created_at; message = segment } in
    record draft {
      messages = draft.messages ++ message ∷ [];
      assistant = if is_assistant segment then some message else draft.assistant;
    }

abbrev draw_segment : Services → Draft → Message → ℕ → ServiceState → Draft × ServiceState
draw_segment env draft segment created_at state =
    let drawn = draw_id env state in (add_segment draft drawn.0 segment created_at, drawn.1)

unfoldable pub persist_segment :
    Services → Draft → Option String → Message → ℕ → ServiceState → Draft × ServiceState
persist_segment env draft (some id) (Message.assistant content) created_at state =
    (take_segment draft id content created_at, state)
persist_segment env draft (some id) (Message.tool content) created_at state =
    draw_segment env draft (Message.tool content) created_at state
persist_segment env draft (some id) (Message.user content) created_at state =
    draw_segment env draft (Message.user content) created_at state
persist_segment env draft (some id) (Message.system content) created_at state =
    draw_segment env draft (Message.system content) created_at state
persist_segment env draft none segment created_at state =
    draw_segment env draft segment created_at state

unfoldable pub persist_segments :
    Services → Draft → List Message → ServiceState → Draft × ServiceState
persist_segments env draft [] state = (draft, state)
persist_segments env draft (segment ∷ rest) state =
    let read = read_clock env state in
    let next = persist_segment env draft draft.available_assistant_id segment read.0 read.1 in
    persist_segments env next.0 rest next.1

pub record PersistedResponse : Type 0 where
  pub session : StoredSession
  pub assistant : Option ChatMessage

unfoldable pub persist_response :
    Services → StoredSession → List ResponsePart → Option String → Agent PersistedResponse
persist_response env active parts preferred_assistant_id state =
    let draft : Draft = record {
      messages = active.messages;
      assistant = none;
      available_assistant_id = preferred_assistant_id;
    } in
    let last = persist_segments env draft (transcript_segments_from_response env parts) state in
    let updated = record active { messages = last.0.messages } in
    followed_by (save env updated last.1)
      λ _. succeed (record { session = updated; assistant = last.0.assistant })

abbrev pub calls_tool : ResponsePart → Bool
calls_tool (ResponsePart.tool_call id name params) = true
calls_tool _ = false

-- `hasResponseContent` of one part.
abbrev pub has_content : Services → ResponsePart → Bool
has_content env (ResponsePart.text value) = ltb 0 (env.engine.units value)
has_content env (ResponsePart.text_delta delta) = ltb 0 (env.engine.units delta)
has_content env (ResponsePart.tool_call id name params) = true
has_content env (ResponsePart.tool_result id name result is_failure) = true
has_content env (ResponsePart.other type) = false
