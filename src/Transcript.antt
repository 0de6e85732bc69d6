-- ===== src/Transcript.antt =====
-- The transcript of a session: its messages in packages/contracts/src/agent-protocol.ts and the
-- records of packages/agent-runtime/src/session-store.ts. A message of the Effect AI library is the
-- data that this code reads of it; a JSON payload is its text, `none` where it is undefined.
pub mod Legacy
pub mod Stored
use chemistry.Prelude.{ℕ, String, Bool, Option, none, some, List, [], ◌∷◌, map}
use chemistry.Protocol.{AgentContext, CompactionStats}

-- The data of a file part: a text, the address of a URL, or so many bytes.
pub data FileData : Type 0 where
  inline : String → FileData
  url : String → FileData
  bytes : ℕ → FileData

pub data Part : Type 0 where
  text reasoning : String → Part
  file : (media_type : String) (file_name : Option String) → FileData → Part
  tool_call : (id name : String) (params : Option String) (provider_executed : Bool) → Part
  tool_result :
      (id name : String) (result : Option String) (is_failure provider_executed : Bool) → Part
  tool_approval_request : (approval_id tool_call_id : String) → Part
  tool_approval_response : (approval_id : String) (approved : Bool) (reason : Option String) → Part

pub data Message : Type 0 where
  system : String → Message
  user assistant tool : List Part → Message

pub record ChatMessageMetadata : Type 0 where
  pub id : String
  pub created_at : ℕ

pub record ChatHistory : Type 0 where
  pub prompt : List Message
  pub metadata : List ChatMessageMetadata

pub record ChatMessage : Type 0 where
  pub id : String
  pub created_at : ℕ
  pub message : Message

-- The loop over `prompt.content.entries()`: a message without metadata is left out.
zip_messages : List Message → List ChatMessageMetadata → List ChatMessage
zip_messages [] metadata = []
zip_messages (message ∷ rest) [] = []
zip_messages (message ∷ rest) (data_of ∷ metadata) =
    record { id = data_of.id; created_at = data_of.created_at; message = message }
    ∷ zip_messages rest metadata

unfoldable pub chat_messages : ChatHistory → List ChatMessage
unfolding zip_messages
chat_messages history = zip_messages history.prompt history.metadata

abbrev pub metadata_of : ChatMessage → ChatMessageMetadata
metadata_of entry = record { id = entry.id; created_at = entry.created_at }

unfoldable pub chat_history_from_messages : List ChatMessage → ChatHistory
chat_history_from_messages messages = record {
  prompt = map (λ entry. entry.message) messages;
  metadata = map metadata_of messages;
}

pub record Compaction : Type 0 where
  pub id : String
  pub from_message_id : String
  pub to_message_id : String
  pub summary : String
  pub source_message_count : ℕ
  pub created_at : ℕ

pub record SessionSnapshot : Type 0 where
  pub session_id : String
  pub context : AgentContext
  pub chat : ChatHistory
  pub compactions : List Compaction
  pub stats : CompactionStats

pub record StoredSession : Type 0 where
  pub session_id : String
  pub context : AgentContext
  pub messages : List ChatMessage
  pub compactions : List Compaction

pub record PersistedSession : Type 0 where
  pub version : ℕ
  pub session_id : String
  pub context : AgentContext
  pub chat : ChatHistory
  pub compactions : List Compaction

unfoldable pub stored_session_from_persisted : PersistedSession → StoredSession
stored_session_from_persisted persisted = record {
  session_id = persisted.session_id;
  context = persisted.context;
  messages = chat_messages persisted.chat;
  compactions = persisted.compactions;
}

unfoldable pub persisted_session_from_stored : StoredSession → PersistedSession
persisted_session_from_stored session = record {
  version = 2;
  session_id = session.session_id;
  context = session.context;
  chat = chat_history_from_messages session.messages;
  compactions = session.compactions;
}
