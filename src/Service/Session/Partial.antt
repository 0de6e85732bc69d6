-- ===== src/Service/Session/Partial.antt =====
-- `persistPartial` and `hasAssistantMessage` of packages/agent-runtime/src/agent-service-live.ts.
use chemistry.Prelude.{
  [], ◌∷◌, ℕ, String, true, ◌&&◌, not, Option, none, some, List, ◌≡◌, refl, ap, sym, subst, ◌∙◌,
  arith, ◌==◌, string_eq, find, filter, any,
}
use chemistry.Transcript.{Message, Part, ChatMessage, StoredSession}
use chemistry.Conversation.{create_initial_session, assistant_message}
use chemistry.Service.Effects.{Services, ServiceState, Attempt, returned, followed_by}
use chemistry.Service.Store.{key_for}
use chemistry.Service.Store.Kept.{
  IsCalm, IsFiled, called, saved, save_calm, session_in, state_after, get_or_create_calm,
  session_in_id, saved_again, session_in-saved,
}
use chemistry.Service.Response.{is_assistant}
use chemistry.Service.Session.Placed.{
  put_partial_has, put_partial_others, put_partial_found, put_partial_again,
}
use chemistry.Service.Session.{
  PersistPartialInput, created_at_or_now, put_partial, persist_partial, has_assistant_message,
}

-- What `load` returns for a session.
abbrev pub loaded : String → ServiceState → StoredSession
loaded session_id state =
    session_in (create_initial_session session_id) (state.stored (key_for session_id))

abbrev pub state_behind : String → ServiceState → ServiceState
state_behind session_id state =
    state_after (create_initial_session session_id) (state.stored (key_for session_id)) state

abbrev pub IsFiledIn : ServiceState → String → Type 0
IsFiledIn state session_id = IsFiled session_id (state.stored (key_for session_id))

pub initial_id : (session_id : String) → (create_initial_session session_id).session_id ≡ session_id
unfolding create_initial_session
initial_id session_id = refl

pub loaded_id :
    (session_id : String) (state : ServiceState)
    → IsFiledIn state session_id
    → (loaded session_id state).session_id ≡ session_id
loaded_id session_id state filed =
    session_in_id session_id (create_initial_session session_id) (state.stored (key_for session_id))
      (initial_id session_id) filed

abbrev existing_in : PersistPartialInput → List ChatMessage → Option ChatMessage
existing_in input messages = find (λ message. message.id == input.assistant_message_id) messages

-- The transcript after `persistPartial`.
abbrev pub partial_messages :
    Services → PersistPartialInput → ServiceState → List ChatMessage → List ChatMessage
partial_messages env input state messages =
    let existing = existing_in input messages in
    put_partial existing
      (assistant_message input.assistant_message_id input.text
        (created_at_or_now env existing state).0)
      messages

abbrev pub partial_session : Services → PersistPartialInput → ServiceState → StoredSession
partial_session env input state =
    let session = loaded input.session_id state in
    record session {
      messages = partial_messages env input (state_behind input.session_id state) session.messages;
    }

abbrev partial_state : Services → PersistPartialInput → ServiceState → ServiceState
partial_state env input state =
    (created_at_or_now env (existing_in input (loaded input.session_id state).messages)
      (state_behind input.session_id state)).1

pub persist_partial_calm :
    (env : Services) (input : PersistPartialInput) (state : ServiceState)
    → IsCalm env
    → IsFiledIn state input.session_id
    → persist_partial env input state
      ≡ (returned tt, saved (partial_session env input state) (partial_state env input state))
unfolding persist_partial followed_by
persist_partial_calm env input state calm filed = ground (
  arith,
  get_or_create_calm env input.session_id (create_initial_session input.session_id) state calm
      filed,
  save_calm env (partial_session env input state) (partial_state env input state) calm,
)

has_assistant_message-saved :
    (env : Services) (session : StoredSession) (session_id id : String) (state : ServiceState)
    → IsCalm env
    → session.session_id ≡ session_id
    → any (λ message. message.id == id && is_assistant message.message) session.messages ≡ true
    → (has_assistant_message env session_id id (saved session state)).0 ≡ returned true
unfolding has_assistant_message followed_by
has_assistant_message-saved env session session_id id state calm named has = ground (
  arith,
  has,
  saved_again env session (create_initial_session session_id) session_id state calm named,
)

-- The message is as old as the one that it replaces, if there is one.
abbrev pub IsAsOld : Option ChatMessage → ChatMessage → Type 0
IsAsOld none message = Unit
IsAsOld (some existing) message = message.created_at ≡ existing.created_at

-- The message under the identifier is the assistant's, with this text, and as old as it was before.
pub record IsPartial (input : PersistPartialInput) (before : Option ChatMessage)
    (messages : List ChatMessage) : Type 0 where
  pub message : ChatMessage
  pub found : find (λ message. message.id == input.assistant_message_id) messages ≡ some message
  pub says : message.message ≡ Message.assistant (Part.text input.text ∷ [])
  pub as_old : IsAsOld before message

-- A partial answer in the storage: it is there, and the messages of other identifiers are kept.
abbrev pub IsPersisted :
    Services → PersistPartialInput → StoredSession → Attempt (Unit {0}) × ServiceState → Type 0
IsPersisted env input before ran =
    (ran.0 ≡ returned tt)
    × ((has_assistant_message env input.session_id input.assistant_message_id ran.1).0
        ≡ returned true)
    × IsPartial input (existing_in input before.messages) (loaded input.session_id ran.1).messages
    × (filter (λ message. not (message.id == input.assistant_message_id))
          (loaded input.session_id ran.1).messages
        ≡ filter (λ message. not (message.id == input.assistant_message_id)) before.messages)

created_at_or_now_lem :
    (env : Services) (id text : String) (existing : Option ChatMessage) (state : ServiceState)
    → IsAsOld existing (assistant_message id text (created_at_or_now env existing state).0)
created_at_or_now_lem env id text none state = tt
created_at_or_now_lem env id text (some existing) state = refl

-- On a storage that answers, with a readable record of the session, a partial answer that has been
-- persisted is stored as an assistant message with its text, which keeps the time of the message that
-- it replaces, and every message of another identifier is where and as it was.
pub persist_partial-IsPersisted :
    (env : Services) (input : PersistPartialInput) (state : ServiceState)
    → IsCalm env
    → IsFiledIn state input.session_id
    → IsPersisted env input (loaded input.session_id state) (persist_partial env input state)
persist_partial-IsPersisted env input state calm filed =
    let messages = (loaded input.session_id state).messages in
    let updated = partial_session env input state in
    let last = partial_state env input state in
    let named = loaded_id input.session_id state filed in
    let partial =
      assistant_message input.assistant_message_id input.text
        (created_at_or_now env (existing_in input messages)
          (state_behind input.session_id state)).0 in
    let stored =
      session_in-saved updated (create_initial_session input.session_id) input.session_id last
        named in
    subst (IsPersisted env input (loaded input.session_id state))
      (sym (persist_partial_calm env input state calm filed))
      (
        refl,
        has_assistant_message-saved env updated input.session_id input.assistant_message_id last
            calm named (put_partial_has partial messages (existing_in input messages) refl refl),
        record {
          message = partial;
          found =
              ap
                (λ session.
                  find (λ message. message.id == input.assistant_message_id) session.messages)
                stored
              ∙ put_partial_found partial messages (existing_in input messages) refl;
          says = refl;
          as_old =
              created_at_or_now_lem env input.assistant_message_id input.text
                (existing_in input messages) (state_behind input.session_id state);
        },
        ap
              (λ session.
                filter (λ message. not (message.id == input.assistant_message_id)) session.messages)
              stored
            ∙ put_partial_others partial messages (existing_in input messages),
      )

persist_partial-saved :
    (env : Services) (input : PersistPartialInput) (session : StoredSession) (created_at : ℕ)
    (state : ServiceState)
    → IsCalm env
    → session.session_id ≡ input.session_id
    → let partial = assistant_message input.assistant_message_id input.text created_at in
      existing_in input session.messages ≡ some partial
      → put_partial (some partial) partial session.messages ≡ session.messages
      → persist_partial env input (saved session state)
        ≡ (returned tt, saved session (called (saved session state)))
unfolding persist_partial followed_by
persist_partial-saved env input session created_at state calm named found again = ground (
  arith,
  found,
  again,
  saved_again env session (create_initial_session input.session_id) input.session_id state calm
      named,
  save_calm env session (called (saved session state)) calm,
)

saved_twice :
    (session : StoredSession) (state : ServiceState) (key : String)
    → (saved session (called (saved session state))).stored key ≡ (saved session state).stored key
saved_twice session state key = ground arith

-- On a storage that answers, with a readable record of the session, persisting the same partial
-- answer a second time changes no stored record.
persist_partial-persist_partial :
    (env : Services) (input : PersistPartialInput) (state : ServiceState) (key : String)
    → IsCalm env
    → IsFiledIn state input.session_id
    → (persist_partial env input (persist_partial env input state).1).1.stored key
      ≡ (persist_partial env input state).1.stored key
persist_partial-persist_partial env input state key calm filed =
    let messages = (loaded input.session_id state).messages in
    let updated = partial_session env input state in
    let last = partial_state env input state in
    let created_at =
      (created_at_or_now env (existing_in input messages)
        (state_behind input.session_id state)).0 in
    let partial = assistant_message input.assistant_message_id input.text created_at in
    let existing = existing_in input messages in
    subst (λ ran. (persist_partial env input ran.1).1.stored key ≡ ran.1.stored key)
      (sym (persist_partial_calm env input state calm filed))
      (ap (λ ran. ran.1.stored key)
          (persist_partial-saved env input updated created_at last calm
            (loaded_id input.session_id state filed)
            (put_partial_found partial messages existing refl)
            (put_partial_again partial messages existing refl))
        ∙ saved_twice updated last key)
