-- ===== src/Service/Store/Saving.antt =====
-- What `save` of apps/backend/src/durable-object-session-store.ts leaves.
use chemistry.Prelude.{String, Option, none, some, ◌≡◌, refl, string_eq}
use chemistry.Protocol.{AgentRpcError}
use chemistry.Transcript.{StoredSession, persisted_session_from_stored}
use chemistry.Service.Effects.{
  StoredRecord, Services, ServiceState, Attempt, returned, raised, followed_by, fail_with, ◌>>=◌,
}
use chemistry.Service.Store.{key_for, storage_call, put, save}
use chemistry.Service.Store.Kept.{called, Holds, saved-Holds}

-- A save that returns stored the session; one that fails stored nothing.
abbrev pub Saves : StoredSession → ServiceState → Attempt (Unit {0}) × ServiceState → Type 0
Saves session before (returned value, later) = Holds session later
Saves session before (raised error, later) = later.stored ≡ before.stored

storage_call-Saves :
    (env : Services) (session : StoredSession) (fault : Option String)
    (error : String → AgentRpcError) (state : ServiceState)
    → Saves session state (
        followed_by (fail_with fault error (called state)) (λ _ last. (
          returned tt,
          put
              (key_for session.session_id)
              (StoredRecord.current (persisted_session_from_stored session))
              last,
        )))
unfolding followed_by fail_with
storage_call-Saves env session none error state = saved-Holds session state
storage_call-Saves env session (some message) error state = refl

encode-Saves :
    (env : Services) (session : StoredSession) (fault : Option String)
    (error : String → AgentRpcError) (state : ServiceState)
    → Saves session state (
        followed_by (fail_with fault error state) (λ _. storage_call env "save" >>= λ _ last. (
          returned tt,
          put
              (key_for session.session_id)
              (StoredRecord.current (persisted_session_from_stored session))
              last,
        )))
unfolding followed_by fail_with storage_call
encode-Saves env session none error state =
    storage_call-Saves env session (env.storage_fault state.storage_calls)
      (λ message. AgentRpcError.persistence "save" message) state
encode-Saves env session (some message) error state = refl

pub save-Saves :
    (env : Services) (session : StoredSession) (state : ServiceState)
    → Saves session state (save env session state)
unfolding save
save-Saves env session state =
    encode-Saves env session (env.encode_fault (persisted_session_from_stored session))
      (λ message. AgentRpcError.persistence "encode" message) state
