-- ===== src/Service/Store/Kept.antt =====
-- What the session store of apps/backend/src/durable-object-session-store.ts keeps.
use chemistry.Prelude.{
  ℕ, suc, String, Option, none, some, ◌≡◌, refl, subst, arith, eq_iff, string_eq,
}
use chemistry.Transcript.{
  PersistedSession, StoredSession, stored_session_from_persisted, persisted_session_from_stored,
}
use chemistry.Transcript.Legacy.{migrate_legacy_stored_session}
use chemistry.Transcript.Stored.{stored_session_round_trip}
use chemistry.Service.Effects.{
  StoredRecord, Services, ServiceState, returned, followed_by, fail_with,
}
use chemistry.Service.Store.{key_for, storage_call, put, save, decode_stored, get_or_create}

-- The storage answers, and every session can be encoded.
pub record IsCalm (env : Services) : Type 0 where
  pub answers : (n : ℕ) → env.storage_fault n ≡ none
  pub encodes : (persisted : PersistedSession) → env.encode_fault persisted ≡ none

abbrev pub called : ServiceState → ServiceState
called state = record state { storage_calls = suc state.storage_calls }

abbrev pub saved : StoredSession → ServiceState → ServiceState
saved session state =
    put (key_for session.session_id) (StoredRecord.current (persisted_session_from_stored session))
      (called state)

-- The storage holds this session.
abbrev pub Holds : StoredSession → ServiceState → Type 0
Holds session state =
    state.stored (key_for session.session_id)
    ≡ some (StoredRecord.current (persisted_session_from_stored session))

pub storage_call_calm :
    (env : Services) (operation : String) (state : ServiceState)
    → IsCalm env
    → storage_call env operation state ≡ (returned tt, called state)
unfolding storage_call fail_with
storage_call_calm env operation state calm = ground (arith, calm.answers state.storage_calls)

pub save_calm :
    (env : Services) (session : StoredSession) (state : ServiceState)
    → IsCalm env
    → save env session state ≡ (returned tt, saved session state)
unfolding save followed_by fail_with
save_calm env session state calm = ground (
  arith,
  calm.encodes (persisted_session_from_stored session),
  storage_call_calm env "save" state calm,
)

pub saved-Holds :
    (session : StoredSession) (state : ServiceState) → Holds session (saved session state)
saved-Holds session state =
    ground (arith, eq_iff (key_for session.session_id) (key_for session.session_id))

pub get_or_create-Holds :
    (env : Services) (session initial : StoredSession) (state : ServiceState)
    → IsCalm env
    → Holds session state
    → get_or_create env session.session_id initial state ≡ (returned session, called state)
unfolding get_or_create followed_by decode_stored
get_or_create-Holds env session initial state calm holds =
    ground (arith, holds, storage_call_calm env "get" state calm, stored_session_round_trip session)

-- A record under a session's key is a record of this session, and is readable.
unfoldable pub IsFiled : String → Option StoredRecord → Type 0
IsFiled session_id none = Unit
IsFiled session_id (some (StoredRecord.current persisted)) = persisted.session_id ≡ session_id
IsFiled session_id (some (StoredRecord.legacy old)) = old.session_id ≡ session_id
IsFiled session_id (some (StoredRecord.undecodable message)) = ⊥

-- What a record is read as.
unfoldable pub session_in : StoredSession → Option StoredRecord → StoredSession
session_in initial none = initial
session_in initial (some (StoredRecord.current persisted)) = stored_session_from_persisted persisted
session_in initial (some (StoredRecord.legacy old)) = migrate_legacy_stored_session old
session_in initial (some (StoredRecord.undecodable message)) = initial

-- The state behind that reading.
unfoldable pub state_after : StoredSession → Option StoredRecord → ServiceState → ServiceState
state_after initial none state = saved initial (called state)
state_after initial (some (StoredRecord.current persisted)) state = called state
state_after initial (some (StoredRecord.legacy old)) state =
    saved (migrate_legacy_stored_session old) (called state)
state_after initial (some (StoredRecord.undecodable message)) state = called state

decode_stored_calm :
    (env : Services) (session_id : String) (initial : StoredSession) (kept : Option StoredRecord)
    (state : ServiceState)
    → IsCalm env
    → IsFiled session_id kept
    → decode_stored env initial kept (called state)
      ≡ (returned (session_in initial kept), state_after initial kept state)
unfolding decode_stored session_in state_after followed_by IsFiled
decode_stored_calm env session_id initial none state calm filed =
    ground (arith, save_calm env initial (called state) calm)
decode_stored_calm env session_id initial (some (StoredRecord.current persisted)) state calm filed =
    refl
decode_stored_calm env session_id initial (some (StoredRecord.legacy old)) state calm filed =
    ground (arith, save_calm env (migrate_legacy_stored_session old) (called state) calm)
decode_stored_calm env session_id initial (some (StoredRecord.undecodable message)) state calm
      filed =
    absurd filed

pub get_or_create_calm :
    (env : Services) (session_id : String) (initial : StoredSession) (state : ServiceState)
    → IsCalm env
    → IsFiled session_id (state.stored (key_for session_id))
    → get_or_create env session_id initial state ≡ (
      returned (session_in initial (state.stored (key_for session_id))),
      state_after initial (state.stored (key_for session_id)) state,
    )
unfolding get_or_create followed_by
get_or_create_calm env session_id initial state calm filed = ground (
  arith,
  storage_call_calm env "get" state calm,
  decode_stored_calm env session_id initial (state.stored (key_for session_id)) state calm filed,
)

pub session_in_id :
    (session_id : String) (initial : StoredSession) (kept : Option StoredRecord)
    → initial.session_id ≡ session_id
    → IsFiled session_id kept
    → (session_in initial kept).session_id ≡ session_id
unfolding session_in IsFiled stored_session_from_persisted migrate_legacy_stored_session
session_in_id session_id initial none named filed = named
session_in_id session_id initial (some (StoredRecord.current persisted)) named filed = filed
session_in_id session_id initial (some (StoredRecord.legacy old)) named filed = filed
session_in_id session_id initial (some (StoredRecord.undecodable message)) named filed = named

pub saved_again :
    (env : Services) (session initial : StoredSession) (session_id : String) (state : ServiceState)
    → IsCalm env
    → session.session_id ≡ session_id
    → get_or_create env session_id initial (saved session state)
      ≡ (returned session, called (saved session state))
saved_again env session initial session_id state calm named =
    subst
      (λ id.
        get_or_create env id initial (saved session state)
        ≡ (returned session, called (saved session state)))
      named
      (get_or_create-Holds env session initial (saved session state) calm
        (saved-Holds session state))

read_current :
    (env : Services) (session_id : String) (other : StoredSession) (persisted : PersistedSession)
    (state : ServiceState)
    → IsCalm env
    → state.stored (key_for session_id) ≡ some (StoredRecord.current persisted)
    → get_or_create env session_id other state
      ≡ (returned (stored_session_from_persisted persisted), called state)
unfolding get_or_create followed_by decode_stored
read_current env session_id other persisted state calm e =
    ground (arith, e, storage_call_calm env "get" state calm)

read_again :
    (env : Services) (session_id : String) (initial other : StoredSession)
    (kept : Option StoredRecord) (state : ServiceState)
    → IsCalm env
    → initial.session_id ≡ session_id
    → IsFiled session_id kept
    → state.stored (key_for session_id) ≡ kept
    → get_or_create env session_id other (state_after initial kept state)
      ≡ (returned (session_in initial kept), called (state_after initial kept state))
unfolding session_in state_after IsFiled migrate_legacy_stored_session
read_again env session_id initial other none state calm named filed e =
    saved_again env initial other session_id (called state) calm named
read_again env session_id initial other (some (StoredRecord.legacy old)) state calm named filed e =
    saved_again env (migrate_legacy_stored_session old) other session_id (called state) calm filed
read_again env session_id initial other (some (StoredRecord.current persisted)) state calm named
      filed e =
    read_current env session_id other persisted (called state) calm e
read_again env session_id initial other (some (StoredRecord.undecodable message)) state calm named
      filed e =
    absurd filed

-- On a storage that answers, where every session can be encoded and the record under a session's
-- key is of this session and readable, what the store returns for the session, be it the initial
-- session, a stored one or the migration of an old one, is what it returns the next time, whatever
-- initial session is offered then, and that reading stores nothing.
get_or_create-get_or_create :
    (env : Services) (session_id : String) (initial other : StoredSession) (state : ServiceState)
    → IsCalm env
    → initial.session_id ≡ session_id
    → IsFiled session_id (state.stored (key_for session_id))
    → get_or_create env session_id other (get_or_create env session_id initial state).1 ≡ (
      (get_or_create env session_id initial state).0,
      called (get_or_create env session_id initial state).1,
    )
get_or_create-get_or_create env session_id initial other state calm named filed = ground (
  arith,
  get_or_create_calm env session_id initial state calm filed,
  read_again env session_id initial other (state.stored (key_for session_id)) state calm named filed
      refl,
)

-- What is read of a session that has just been saved.
pub session_in-saved :
    (session initial : StoredSession) (session_id : String) (state : ServiceState)
    → session.session_id ≡ session_id
    → session_in initial ((saved session state).stored (key_for session_id)) ≡ session
unfolding session_in
session_in-saved session initial session_id state named =
    subst (λ id. session_in initial ((saved session state).stored (key_for id)) ≡ session) named
      (ground (arith, saved-Holds session state, stored_session_round_trip session))
