-- ===== src/Transcript/Legacy.antt =====
-- The transcript that packages/agent-runtime/src/session-store.ts reads from before the messages of
-- Effect AI, and its migration.
use chemistry.Prelude.{ℕ, String, Bool, false, some, List, [], ◌∷◌, map, flat_map}
use chemistry.Prelude.Text.{join}
use chemistry.Protocol.{AgentContext, MessageRole}
use chemistry.Transcript.{Part, Message, Compaction, StoredSession}

pub data LegacyTranscriptPart : Type 0 where
  text : String → LegacyTranscriptPart
  tool_call : (call_id name input : String) → LegacyTranscriptPart
  tool_result : (call_id name output : String) (is_failure : Bool) → LegacyTranscriptPart

pub record LegacyTranscriptMessage : Type 0 where
  pub id : String
  pub role : MessageRole
  pub parts : List LegacyTranscriptPart
  pub created_at : ℕ

pub record LegacyStoredSession : Type 0 where
  pub session_id : String
  pub context : AgentContext
  pub messages : List LegacyTranscriptMessage
  pub compactions : List Compaction

unfoldable pub assistant_part_from_legacy : LegacyTranscriptPart → Part
assistant_part_from_legacy (text content) = Part.text content
assistant_part_from_legacy (tool_call call_id name input) =
    Part.tool_call call_id name (some input) false
assistant_part_from_legacy (tool_result call_id name output is_failure) =
    Part.tool_result call_id name (some output) is_failure false

-- `filter(LegacyTranscriptPart.guards.Text).map((part) => part.text)`
abbrev pub texts_of : LegacyTranscriptPart → List String
texts_of (text content) = content ∷ []
texts_of (tool_call call_id name input) = []
texts_of (tool_result call_id name output is_failure) = []

-- `filter(LegacyTranscriptPart.guards.ToolResult).map(…)`
abbrev pub results_of : LegacyTranscriptPart → List Part
results_of (text content) = []
results_of (tool_call call_id name input) = []
results_of (tool_result call_id name output is_failure) =
    Part.tool_result call_id name (some output) is_failure false ∷ []

prompt_by_role : MessageRole → List LegacyTranscriptPart → Message
prompt_by_role MessageRole.system parts = Message.system (join "\n" (flat_map texts_of parts))
prompt_by_role MessageRole.user parts = Message.user (map Part.text (flat_map texts_of parts))
prompt_by_role MessageRole.assistant parts =
    Message.assistant (map assistant_part_from_legacy parts)
prompt_by_role MessageRole.tool parts = Message.tool (flat_map results_of parts)

unfoldable pub prompt_message_from_legacy : LegacyTranscriptMessage → Message
unfolding prompt_by_role assistant_part_from_legacy
prompt_message_from_legacy message = prompt_by_role message.role message.parts

unfoldable pub migrate_legacy_stored_session : LegacyStoredSession → StoredSession
migrate_legacy_stored_session legacy = record {
  session_id = legacy.session_id;
  context = legacy.context;
  messages =
      map
        (λ message. record {
          id = message.id;
          created_at = message.created_at;
          message = prompt_message_from_legacy message;
        })
        legacy.messages;
  compactions = legacy.compactions;
}
