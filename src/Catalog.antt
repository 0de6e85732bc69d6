-- ===== src/Catalog.antt =====
-- packages/chat-catalog/src/chat-catalog.ts: the bounded list of recent conversations. What the
-- JavaScript engine does with texts is an argument.
pub mod Recency
pub mod Distinct
pub mod Object
use chemistry.Prelude.{
  ℕ, ◌-◌, ℤ, pos, leb_ℤ, String, Bool, true, false, not, Option, none, some, List, [], ◌∷◌, ◌++◌,
  map, ◌==◌, string_eq, nat_eq, if◌then◌else◌, leb, ltb, take, filter, find,
}
use chemistry.Prelude.Text.{◌&◌}

-- `trim`, `replace(/\s+/g, " ")`, `trimEnd`, `length` in UTF-16 units, `slice(0, n)`,
-- `lastIndexOf(" ")` with `none` for -1, and `localeCompare`.
pub record TextEngine : Type 0 where
  pub trim : String → String
  pub collapse_spaces : String → String
  pub trim_end : String → String
  pub units : String → ℕ
  pub slice : String → ℕ → String
  pub last_space : String → Option ℕ
  pub locale_compare : String → String → ℤ

pub data TitleStatus : Type 0 where
  placeholder first_prompt : TitleStatus

pub record ChatCatalogEntry : Type 0 where
  pub session_id : String
  pub title : String
  pub title_status : TitleStatus
  pub created_at : ℕ
  pub updated_at : ℕ

pub record ChatSummary : Type 0 where
  pub session_id : String
  pub title : String
  pub created_at : ℕ
  pub updated_at : ℕ

pub record LegacyChatCatalogStateV1 : Type 0 where
  pub version : ℕ
  pub chats : List ChatSummary

pub record ChatCatalogState : Type 0 where
  pub version : ℕ
  pub chats : List ChatCatalogEntry

abbrev pub default_title : String
default_title = "New chat"

abbrev pub max_title_length : ℕ
max_title_length = 56

abbrev pub max_catalog_chats : ℕ
max_catalog_chats = 200

unfoldable pub empty_chat_catalog : ChatCatalogState
empty_chat_catalog = record { version = 2; chats = [] }

-- The comparison is not positive: by recency, then by the locale's order of the identifiers.
abbrev pub precedes : TextEngine → ChatCatalogEntry → ChatCatalogEntry → Bool
precedes engine left right =
    if left.updated_at == right.updated_at
    then leb_ℤ (engine.locale_compare left.session_id right.session_id) (pos 0)
    else ltb right.updated_at left.updated_at

-- `sort`, which is stable.
unfoldable pub insert_entry :
    TextEngine → ChatCatalogEntry → List ChatCatalogEntry → List ChatCatalogEntry
insert_entry engine entry [] = entry ∷ []
insert_entry engine entry (head ∷ rest) =
    if precedes engine entry head
    then entry ∷ head ∷ rest
    else head ∷ insert_entry engine entry rest

unfoldable pub ordered_entries : TextEngine → List ChatCatalogEntry → List ChatCatalogEntry
ordered_entries engine [] = []
ordered_entries engine (entry ∷ rest) = insert_entry engine entry (ordered_entries engine rest)

unfoldable pub bounded : TextEngine → List ChatCatalogEntry → List ChatCatalogEntry
bounded engine chats = take max_catalog_chats (ordered_entries engine chats)

abbrev pub summary_of : ChatCatalogEntry → ChatSummary
summary_of entry = record {
  session_id = entry.session_id;
  title = entry.title;
  created_at = entry.created_at;
  updated_at = entry.updated_at;
}

abbrev entry_of : ChatSummary → ChatCatalogEntry
entry_of chat = record {
  session_id = chat.session_id;
  title = chat.title;
  title_status = TitleStatus.first_prompt;
  created_at = chat.created_at;
  updated_at = chat.updated_at;
}

unfoldable pub migrate_chat_catalog_state_v1 : LegacyChatCatalogStateV1 → ChatCatalogState
migrate_chat_catalog_state_v1 legacy = record { version = 2; chats = map entry_of legacy.chats }

-- `lastSpace >= 28 ? prefix.slice(0, lastSpace) : prefix`
abbrev clip : TextEngine → String → Option ℕ → String
clip engine prefix none = prefix
clip engine prefix (some last_space) =
    if leb 28 last_space then engine.slice prefix last_space else prefix

unfoldable pub title_from_first_prompt : TextEngine → String → String
title_from_first_prompt engine prompt =
    let normalized = engine.collapse_spaces (engine.trim prompt) in
    let prefix = engine.trim_end (engine.slice normalized (max_title_length - 1)) in
    if engine.units normalized == 0
    then default_title
    else if leb (engine.units normalized) max_title_length
    then normalized
    else clip engine prefix (engine.last_space prefix) & "…"

abbrev pub find_chat : ChatCatalogState → String → Option ChatCatalogEntry
find_chat state session_id = find (λ chat. chat.session_id == session_id) state.chats

abbrev pub created_entry : String → ℕ → ChatCatalogEntry
created_entry session_id now = record {
  session_id = session_id;
  title = default_title;
  title_status = TitleStatus.placeholder;
  created_at = now;
  updated_at = now;
}

create_in :
    TextEngine
    → ChatCatalogState
    → String
    → ℕ
    → Option ChatCatalogEntry
    → ChatCatalogState × ChatSummary
create_in engine state session_id now (some existing) = (state, summary_of existing)
create_in engine state session_id now none =
    let created = created_entry session_id now in
    (
      record { version = 2; chats = bounded engine (state.chats ++ created ∷ []) },
      summary_of created,
    )

unfoldable pub create_chat :
    TextEngine → ChatCatalogState → String → ℕ → ChatCatalogState × ChatSummary
unfolding create_in
create_chat engine state session_id now =
    create_in engine state session_id now (find_chat state session_id)

abbrev kept_title : TextEngine → String → ChatCatalogEntry → TitleStatus → String
kept_title engine prompt existing TitleStatus.placeholder = title_from_first_prompt engine prompt
kept_title engine prompt existing TitleStatus.first_prompt = existing.title

abbrev pub touched_title : TextEngine → String → Option ChatCatalogEntry → String
touched_title engine prompt none = title_from_first_prompt engine prompt
touched_title engine prompt (some existing) =
    kept_title engine prompt existing existing.title_status

abbrev pub touched_created_at : Option ChatCatalogEntry → ℕ → ℕ
touched_created_at none now = now
touched_created_at (some existing) now = existing.created_at

unfoldable pub touched_entry :
    TextEngine → Option ChatCatalogEntry → String → String → ℕ → ChatCatalogEntry
touched_entry engine existing session_id prompt now = record {
  session_id = session_id;
  title = touched_title engine prompt existing;
  title_status = TitleStatus.first_prompt;
  created_at = touched_created_at existing now;
  updated_at = now;
}

abbrev pub other_chats : ChatCatalogState → String → List ChatCatalogEntry
other_chats state session_id = filter (λ chat. not (chat.session_id == session_id)) state.chats

unfoldable pub touch_chat :
    TextEngine → ChatCatalogState → String → String → ℕ → ChatCatalogState × ChatSummary
touch_chat engine state session_id prompt now =
    let touched = touched_entry engine (find_chat state session_id) session_id prompt now in
    (
      record { version = 2; chats = bounded engine (other_chats state session_id ++ touched ∷ []) },
      summary_of touched,
    )

unfoldable pub list_chats : TextEngine → ChatCatalogState → List ChatSummary
list_chats engine state = map summary_of (ordered_entries engine state.chats)
