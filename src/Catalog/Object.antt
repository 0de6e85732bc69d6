-- ===== src/Catalog/Object.antt =====
-- apps/backend/src/chat-catalog-durable-object.ts: the list of conversations in the storage of its own
-- object.
pub mod Valid
use chemistry.Prelude.{ℕ, String, Option, none, some, List, map}
use chemistry.Prelude.Text.{◌&◌}
use chemistry.Protocol.{AgentRpcError}
use chemistry.Runtime.Errors.{Result, ok, err, rpc}
use chemistry.Runtime.Storage.{StorageFaults}
use chemistry.Catalog.{
  TextEngine, ChatCatalogState, LegacyChatCatalogStateV1, ChatSummary, empty_chat_catalog,
  migrate_chat_catalog_state_v1, create_chat, touch_chat, list_chats,
}

-- What is stored under the key, as the two schemas read it.
pub data StoredCatalog : Type 0 where
  current : ChatCatalogState → StoredCatalog
  legacy : LegacyChatCatalogStateV1 → StoredCatalog
  undecodable : String → StoredCatalog

-- An answer, and what is stored afterwards.
abbrev pub CatalogEffect : Type 0 → Type 0
CatalogEffect A = Option StoredCatalog → Result A × Option StoredCatalog

abbrev pub persistence_error : {A : Type 0} → String → String → Result A
persistence_error operation message =
    err (rpc (AgentRpcError.persistence ("chat-catalog:" & operation) message))

unfoldable pub current_catalog :
    (operation : String) → Option StoredCatalog → Result ChatCatalogState
current_catalog operation none = ok empty_chat_catalog
current_catalog operation (some (StoredCatalog.current state)) = ok state
current_catalog operation (some (StoredCatalog.legacy old)) = ok (migrate_chat_catalog_state_v1 old)
current_catalog operation (some (StoredCatalog.undecodable message)) =
    persistence_error (operation & ":decode") message

abbrev pub put_next :
    (ChatCatalogState → ChatCatalogState × ChatSummary)
    → Result ChatCatalogState
    → CatalogEffect ChatSummary
put_next change (ok state) stored =
    let changed = change state in (ok changed.1, some (StoredCatalog.current changed.0))
put_next change (err error) stored = (err error, stored)

unfoldable pub mutate :
    StorageFaults
    → (operation : String) → (ChatCatalogState → ChatCatalogState × ChatSummary)
    → CatalogEffect ChatSummary
mutate faults operation change stored = elim faults.on_transaction [
  | some message ↦ (persistence_error operation message, stored)
  | none ↦ put_next change (current_catalog operation stored) stored
]

-- A migrated list is stored again, which may fail.
abbrev put_migrated : ChatCatalogState → Option String → CatalogEffect ChatCatalogState
put_migrated migrated none stored = (ok migrated, some (StoredCatalog.current migrated))
put_migrated migrated (some message) stored = (persistence_error "list:migrate-v1" message, stored)

unfoldable pub load_decoded : StorageFaults → CatalogEffect ChatCatalogState
load_decoded faults none = (ok empty_chat_catalog, none)
load_decoded faults (some (StoredCatalog.current state)) =
    (ok state, some (StoredCatalog.current state))
load_decoded faults (some (StoredCatalog.legacy old)) =
    put_migrated (migrate_chat_catalog_state_v1 old) faults.on_put (some (StoredCatalog.legacy old))
load_decoded faults (some (StoredCatalog.undecodable message)) =
    (persistence_error "list:decode" message, some (StoredCatalog.undecodable message))

unfoldable pub load_catalog : StorageFaults → CatalogEffect ChatCatalogState
load_catalog faults stored = elim faults.on_get [
  | some message ↦ (persistence_error "list" message, stored)
  | none ↦ load_decoded faults stored
]

-- The handlers.
unfoldable pub handle_create_chat :
    TextEngine → StorageFaults → String → ℕ → CatalogEffect ChatSummary
handle_create_chat engine faults session_id now =
    mutate faults "create" (λ (state : ChatCatalogState). create_chat engine state session_id now)

unfoldable pub handle_touch_chat :
    TextEngine → StorageFaults → String → String → ℕ → CatalogEffect ChatSummary
handle_touch_chat engine faults session_id prompt now =
    mutate faults "touch"
      (λ (state : ChatCatalogState). touch_chat engine state session_id prompt now)

abbrev listed : TextEngine → Result ChatCatalogState → Result (List ChatSummary)
listed engine (ok state) = ok (list_chats engine state)
listed engine (err error) = err error

unfoldable pub handle_list_chats : TextEngine → StorageFaults → CatalogEffect (List ChatSummary)
handle_list_chats engine faults stored =
    let loaded = load_catalog faults stored in (listed engine loaded.0, loaded.1)
