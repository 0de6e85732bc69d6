-- ===== src/Conversation.antt =====
-- packages/agent-runtime/src/conversation.ts: what the model and the browser are given of a session.
-- `trim` and the length of a text in UTF-16 units are the JavaScript engine's.
use chemistry.Prelude.{
  ℕ, ◌+◌, ◌/◌, String, Option, none, some, List, [], ◌∷◌, ◌++◌, map, ◌==◌, string_eq, nat_eq,
  if◌then◌else◌, length, last?, find_index, drop, flat_map, is_none, get_or_else,
}
use chemistry.Prelude.Text.{◌&◌}
use chemistry.Protocol.{
  AgentContext, CompactionStats, MessageRole, StreamMessage, StreamMessagePart,
}
use chemistry.Transcript.{
  Part, FileData, inline, url, bytes, Message, ChatMessage, Compaction, SessionSnapshot,
  StoredSession, chat_history_from_messages,
}

pub record PromptEngine : Type 0 where
  pub trim : String → String
  pub units : String → ℕ

abbrev pub default_agent_context : AgentContext
default_agent_context = record {
  system_prompt =
      "You are a concise assistant. Use tools when they improve the answer and explain their results clearly.";
  memory = "";
}

unfoldable pub create_initial_session : String → StoredSession
create_initial_session session_id = record {
  session_id = session_id;
  context = default_agent_context;
  messages = [];
  compactions = [];
}

unfoldable pub context_text : PromptEngine → AgentContext → String
context_text engine context =
    if engine.units (engine.trim context.memory) == 0
    then context.system_prompt
    else context.system_prompt & "\n\n<session-memory>\n" & context.memory & "\n</session-memory>"

pub record VisibleHistory : Type 0 where
  pub summary : Option String
  pub messages : List ChatMessage

-- `findIndex((message) => message.id === id)`, with `none` for -1
abbrev pub message_index : List ChatMessage → String → Option ℕ
message_index messages id = find_index (λ message. message.id == id) messages

abbrev pub raw_history : StoredSession → VisibleHistory
raw_history session = record { summary = none; messages = session.messages }

unfoldable pub visible_after : StoredSession → Compaction → Option ℕ → VisibleHistory
visible_after session overlay none = raw_history session
visible_after session overlay (some end_index) = record {
  summary = some overlay.summary;
  messages = drop (end_index + 1) session.messages;
}

unfoldable pub visible_under : StoredSession → Option Compaction → VisibleHistory
unfolding visible_after
visible_under session none = raw_history session
visible_under session (some overlay) =
    visible_after session overlay (message_index session.messages overlay.to_message_id)

unfoldable pub visible_history : StoredSession → VisibleHistory
unfolding visible_under
visible_history session = visible_under session (last? session.compactions)

abbrev summary_message : Option String → List Message
summary_message none = []
summary_message (some summary) =
    Message.system ("<conversation-summary>\n" & summary & "\n</conversation-summary>") ∷ []

unfoldable pub model_messages : PromptEngine → StoredSession → List Message
model_messages engine session =
    let visible = visible_history session in
    Message.system (context_text engine session.context)
    ∷ (summary_message visible.summary ++ map (λ entry. entry.message) visible.messages)

-- `Prompt.fromMessages` of the library keeps the messages as they are.
unfoldable pub assemble_model_prompt : PromptEngine → StoredSession → List Message
assemble_model_prompt engine session = model_messages engine session

abbrev pub continuation_request : Message
continuation_request = Message.user (
    Part.text
      "Continue the previous assistant response exactly where it stopped. Do not repeat completed text."
    ∷ [])

unfoldable pub assemble_continuation_prompt : PromptEngine → StoredSession → List Message
assemble_continuation_prompt engine session =
    model_messages engine session ++ continuation_request ∷ []

-- `value?.length ?? 0`
abbrev length_or_zero : PromptEngine → Option String → ℕ
length_or_zero engine none = 0
length_or_zero engine (some value) = engine.units value

abbrev data_size : PromptEngine → FileData → ℕ
data_size engine (inline value) = engine.units value
data_size engine (url href) = engine.units href
data_size engine (bytes count) = count

unfoldable pub part_size : PromptEngine → Part → ℕ
part_size engine (Part.text value) = engine.units value
part_size engine (Part.reasoning value) = engine.units value
part_size engine (Part.file media_type file_name contents) =
    engine.units media_type + length_or_zero engine file_name + data_size engine contents
part_size engine (Part.tool_call id name params provider_executed) =
    engine.units name + length_or_zero engine params
part_size engine (Part.tool_result id name result is_failure provider_executed) =
    engine.units name + length_or_zero engine result
part_size engine (Part.tool_approval_request approval_id tool_call_id) =
    engine.units approval_id + engine.units tool_call_id
part_size engine (Part.tool_approval_response approval_id approved reason) =
    engine.units approval_id + length_or_zero engine reason

-- `reduce((total, item) => total + size(item), total)`
unfoldable pub total_of {ℓ} : {A : Type ℓ} → (A → ℕ) → ℕ → List A → ℕ
total_of size total [] = total
total_of size total (item ∷ rest) = total_of size (total + size item) rest

unfoldable pub message_size : PromptEngine → Message → ℕ
unfolding total_of part_size
message_size engine (Message.system content) = engine.units content
message_size engine (Message.user content) = total_of (part_size engine) 0 content
message_size engine (Message.assistant content) = total_of (part_size engine) 0 content
message_size engine (Message.tool content) = total_of (part_size engine) 0 content

-- `Math.ceil(characters / 4)`
unfoldable pub estimate_model_tokens : PromptEngine → StoredSession → ℕ
estimate_model_tokens engine session =
    let visible = visible_history session in
    let characters =
      engine.units (context_text engine session.context)
      + length_or_zero engine visible.summary
      + total_of (λ entry. message_size engine entry.message) 0 visible.messages in
    (characters + 3) / 4

abbrev compacted_at : Option Compaction → Option ℕ
compacted_at none = none
compacted_at (some compaction) = some compaction.created_at

unfoldable pub compaction_stats : PromptEngine → StoredSession → CompactionStats
compaction_stats engine session =
    let visible = visible_history session in
    record {
      raw_message_count = length session.messages;
      model_message_count = length visible.messages + (if is_none visible.summary then 0 else 1);
      estimated_model_tokens = estimate_model_tokens engine session;
      compaction_count = length session.compactions;
      last_compacted_at = compacted_at (last? session.compactions);
    }

unfoldable pub snapshot : PromptEngine → StoredSession → SessionSnapshot
snapshot engine session = record {
  session_id = session.session_id;
  context = session.context;
  chat = chat_history_from_messages session.messages;
  compactions = session.compactions;
  stats = compaction_stats engine session;
}

abbrev pub user_text : String → Message
user_text text = Message.user (Part.text text ∷ [])

abbrev pub assistant_text : String → Message
assistant_text text = Message.assistant (Part.text text ∷ [])

-- `textMessage` in its two roles.
abbrev pub user_message : String → String → ℕ → ChatMessage
user_message id text created_at = record {
  id = id;
  created_at = created_at;
  message = user_text text;
}

abbrev pub assistant_message : String → String → ℕ → ChatMessage
assistant_message id text created_at = record {
  id = id;
  created_at = created_at;
  message = assistant_text text;
}

stream_part : Part → List StreamMessagePart
stream_part (Part.text value) = StreamMessagePart.text value ∷ []
stream_part (Part.reasoning value) = StreamMessagePart.text value ∷ []
stream_part (Part.file media_type file_name contents) =
    StreamMessagePart.text ("[file " & get_or_else file_name media_type & "]") ∷ []
stream_part (Part.tool_call id name params provider_executed) = []
stream_part (Part.tool_result id name result is_failure provider_executed) = []
stream_part (Part.tool_approval_request approval_id tool_call_id) = []
stream_part (Part.tool_approval_response approval_id approved reason) = []

abbrev pub role_of : Message → MessageRole
role_of (Message.system content) = MessageRole.system
role_of (Message.user content) = MessageRole.user
role_of (Message.assistant content) = MessageRole.assistant
role_of (Message.tool content) = MessageRole.tool

stream_parts : Message → List StreamMessagePart
unfolding stream_part
stream_parts (Message.system content) = StreamMessagePart.text content ∷ []
stream_parts (Message.user content) = flat_map stream_part content
stream_parts (Message.assistant content) = flat_map stream_part content
stream_parts (Message.tool content) = flat_map stream_part content

unfoldable pub stream_message : ChatMessage → StreamMessage
unfolding stream_parts
stream_message entry = record {
  id = entry.id;
  role = role_of entry.message;
  parts = stream_parts entry.message;
  created_at = entry.created_at;
}
