-- ===== src/Service/Store.antt =====
-- apps/backend/src/durable-object-session-store.ts: the stored record of a session.
pub mod Kept
pub mod Saving
use chemistry.Prelude.{ℕ, suc, String, Option, none, some, ◌==◌, string_eq, if◌then◌else◌}
use chemistry.Prelude.Text.{◌&◌}
use chemistry.Protocol.{AgentRpcError}
use chemistry.Transcript.{
  PersistedSession, StoredSession, stored_session_from_persisted, persisted_session_from_stored,
}
use chemistry.Transcript.Legacy.{migrate_legacy_stored_session}
use chemistry.Service.Effects.{
  StoredRecord, Services, ServiceState, Attempt, returned, raised, Agent, succeed, fail, fail_with,
  ◌>>=◌, ◌>>◌,
}

abbrev pub key_for : String → String
key_for session_id = "agent-session:" & session_id

-- One call of the storage, which may fail.
unfoldable pub storage_call : Services → (operation : String) → Agent (Unit {0})
storage_call env operation state =
    fail_with (env.storage_fault state.storage_calls)
      (λ message. AgentRpcError.persistence operation message)
      (record state { storage_calls = suc state.storage_calls })

abbrev pub put : String → StoredRecord → ServiceState → ServiceState
put key value state = record state {
  stored = λ other. if other == key then some value else state.stored other;
}

unfoldable pub save : Services → StoredSession → Agent (Unit {0})
save env session = do
  let persisted = persisted_session_from_stored session
  fail_with (env.encode_fault persisted) (λ message. AgentRpcError.persistence "encode" message)
  storage_call env "save"
  λ state. (returned tt, put (key_for session.session_id) (StoredRecord.current persisted) state)

unfoldable pub decode_stored : Services → StoredSession → Option StoredRecord → Agent StoredSession
decode_stored env initial none = do save env initial; succeed initial
decode_stored env initial (some (StoredRecord.current persisted)) =
    succeed (stored_session_from_persisted persisted)
decode_stored env initial (some (StoredRecord.legacy old)) = do
  let migrated = migrate_legacy_stored_session old
  save env migrated
  succeed migrated
decode_stored env initial (some (StoredRecord.undecodable message)) =
    fail (AgentRpcError.persistence "decode" message)

unfoldable pub get_or_create : Services → String → StoredSession → Agent StoredSession
get_or_create env session_id initial = do
  storage_call env "get"
  λ state. decode_stored env initial (state.stored (key_for session_id)) state
