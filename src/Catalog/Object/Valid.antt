-- ===== src/Catalog/Object/Valid.antt =====
-- What the object of apps/backend/src/chat-catalog-durable-object.ts keeps in its storage.
use chemistry.Prelude.{ℕ, String, Option, none, some, arith, Option-cases, inl, inr}
use chemistry.Runtime.Storage.{StorageFaults}
use chemistry.Catalog.{
  TextEngine, ChatCatalogState, ChatSummary, empty_chat_catalog, migrate_chat_catalog_state_v1,
}
use chemistry.Catalog.Distinct.{CatalogIsValid, touch_chat-IsValid, create_chat-IsValid}
use chemistry.Catalog.Object.{
  StoredCatalog, current_catalog, put_next, mutate, load_decoded, load_catalog, handle_create_chat,
  handle_touch_chat, handle_list_chats,
}

-- The stored list is valid, or becomes so by its migration.
unfoldable pub StoredIsValid : Option StoredCatalog → Type 0
StoredIsValid none = Unit
StoredIsValid (some (StoredCatalog.current state)) = CatalogIsValid state
StoredIsValid (some (StoredCatalog.legacy old)) = CatalogIsValid (migrate_chat_catalog_state_v1 old)
StoredIsValid (some (StoredCatalog.undecodable message)) = Unit

empty_chat_catalog-IsValid : CatalogIsValid empty_chat_catalog
unfolding empty_chat_catalog
empty_chat_catalog-IsValid = record { fits = omega arith; distinct = tt; latest_first = tt }

-- A transition that keeps every valid list valid.
abbrev Keeps : (ChatCatalogState → ChatCatalogState × ChatSummary) → Type 0
Keeps change = (state : ChatCatalogState) → CatalogIsValid state → CatalogIsValid (change state).0

mutate-StoredIsValid :
    (faults : StorageFaults) (operation : String)
    (change : ChatCatalogState → ChatCatalogState × ChatSummary) (stored : Option StoredCatalog)
    → Keeps change
    → StoredIsValid stored
    → StoredIsValid (mutate faults operation change stored).1
unfolding mutate current_catalog StoredIsValid
mutate-StoredIsValid faults operation change stored keeps h =
    elim (Option-cases faults.on_transaction) [
      | inr (message, fails) ↦ rw fails h
      | inl calm ↦ rw calm (
          elim stored
              as (λ stored.
                StoredIsValid stored
                → StoredIsValid (put_next change (current_catalog operation stored) stored).1) [
                  | none ↦ λ _. keeps empty_chat_catalog empty_chat_catalog-IsValid
                  | some (StoredCatalog.current state) ↦ λ valid. keeps state valid
                  | some (StoredCatalog.legacy old) ↦
                      λ valid. keeps (migrate_chat_catalog_state_v1 old) valid
                  | some (StoredCatalog.undecodable message) ↦ λ valid. tt
                ]
            h)
    ]

load_decoded-StoredIsValid :
    (faults : StorageFaults) (stored : Option StoredCatalog)
    → StoredIsValid stored
    → StoredIsValid (load_decoded faults stored).1
unfolding load_decoded StoredIsValid
load_decoded-StoredIsValid faults none h = tt
load_decoded-StoredIsValid faults (some (StoredCatalog.current state)) h = h
load_decoded-StoredIsValid faults (some (StoredCatalog.undecodable message)) h = tt
load_decoded-StoredIsValid faults (some (StoredCatalog.legacy old)) h =
    elim (Option-cases faults.on_put) [ inr (message, fails) ↦ rw fails h | inl calm ↦ rw calm h ]

load_catalog-StoredIsValid :
    (faults : StorageFaults) (stored : Option StoredCatalog)
    → StoredIsValid stored
    → StoredIsValid (load_catalog faults stored).1
unfolding load_catalog load_decoded
load_catalog-StoredIsValid faults stored h = elim (Option-cases faults.on_get) [
  | inr (message, fails) ↦ rw fails h
  | inl calm ↦ rw calm (load_decoded-StoredIsValid faults stored h)
]

-- Whatever the storage fails at, creating, touching and listing chats keep the stored list, if it can
-- be read, valid (each chat once, latest first, at most 200), where it is so before, or an old list
-- becomes so by its migration.
pub handlers-StoredIsValid :
    (engine : TextEngine) (faults : StorageFaults) (session_id prompt : String) (now : ℕ)
    (stored : Option StoredCatalog)
    → StoredIsValid stored
    → StoredIsValid (handle_create_chat engine faults session_id now stored).1
      × StoredIsValid (handle_touch_chat engine faults session_id prompt now stored).1
      × StoredIsValid (handle_list_chats engine faults stored).1
unfolding handle_create_chat handle_touch_chat handle_list_chats
handlers-StoredIsValid engine faults session_id prompt now stored h = (
  mutate-StoredIsValid faults "create" _ stored
      (λ state valid. create_chat-IsValid engine state session_id now valid) h,
  mutate-StoredIsValid faults "touch" _ stored
      (λ state valid. touch_chat-IsValid engine state session_id prompt now valid) h,
  load_catalog-StoredIsValid faults stored h,
)
