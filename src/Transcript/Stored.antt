-- ===== src/Transcript/Stored.antt =====
-- A session on its way to the storage and back.
use chemistry.Prelude.{List, [], ◌∷◌, ◌≡◌, refl, ap, length, arith}
use chemistry.Transcript.{
  Message, ChatMessageMetadata, ChatMessage, StoredSession, PersistedSession, chat_messages,
  chat_history_from_messages, stored_session_from_persisted, persisted_session_from_stored,
}

chat_messages-chat_history_from_messages :
    (messages : List ChatMessage) → chat_messages (chat_history_from_messages messages) ≡ messages
unfolding chat_messages chat_history_from_messages
chat_messages-chat_history_from_messages [] = refl
chat_messages-chat_history_from_messages (entry ∷ rest) =
    ap (λ messages. entry ∷ messages) (chat_messages-chat_history_from_messages rest)

history_of_pairs :
    (prompt : List Message) (metadata : List ChatMessageMetadata)
    → length prompt ≡ length metadata
    → chat_history_from_messages (chat_messages (record { prompt = prompt; metadata = metadata }))
      ≡ record { prompt = prompt; metadata = metadata }
unfolding chat_messages chat_history_from_messages
history_of_pairs [] [] h = refl
history_of_pairs [] (m ∷ metadata) h = absurd (omega arith)
history_of_pairs (message ∷ prompt) [] h = absurd (omega arith)
history_of_pairs (message ∷ prompt) (m ∷ metadata) h =
    ap (λ history. record { prompt = message ∷ history.prompt; metadata = m ∷ history.metadata })
      (history_of_pairs prompt metadata (omega arith))

pub stored_session_round_trip :
    (session : StoredSession)
    → stored_session_from_persisted (persisted_session_from_stored session) ≡ session
unfolding stored_session_from_persisted persisted_session_from_stored
stored_session_round_trip session =
    ap
      (λ messages. record {
        session_id = session.session_id;
        context = session.context;
        messages = messages;
        compactions = session.compactions;
      })
      (chat_messages-chat_history_from_messages session.messages)

-- Storing a session and reading it back gives the session; reading a stored record and storing it
-- again gives the record, when it is of version 2 and has as many metadata as messages, as its
-- schema demands.
pub stored_session_from_persisted-persisted_session_from_stored :
    (session : StoredSession) (persisted : PersistedSession)
    → persisted.version ≡ 2
    → length persisted.chat.prompt ≡ length persisted.chat.metadata
    → (stored_session_from_persisted (persisted_session_from_stored session) ≡ session)
      × (persisted_session_from_stored (stored_session_from_persisted persisted) ≡ persisted)
unfolding stored_session_from_persisted persisted_session_from_stored
stored_session_from_persisted-persisted_session_from_stored session persisted version equal = (
  stored_session_round_trip session,
  ground (arith, version, history_of_pairs persisted.chat.prompt persisted.chat.metadata equal),
)
