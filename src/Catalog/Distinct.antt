-- ===== src/Catalog/Distinct.antt =====
-- The chats of a catalog: their number, their order and their identifiers.
use chemistry.Prelude.{
  ℕ, zero, suc, ◌≤◌, String, Bool, true, false, not, none, List, [], ◌∷◌, ◌++◌, ◌≡◌, sym, arith,
  eq_iff, ◌==◌, string_eq, nat_eq, nat_beq_iff, length, length-take-le, take, filter, find, All,
  All-append, All-filter, All-imp, Bool-cases, Option-cases, inl, inr,
}
use chemistry.Catalog.{
  TextEngine, ChatCatalogEntry, ChatCatalogState, max_catalog_chats, precedes, insert_entry,
  ordered_entries, bounded, created_entry, create_chat, touched_entry, other_chats, find_chat,
  touch_chat,
}

abbrev pub Differs : ChatCatalogEntry → ChatCatalogEntry → Type 0
Differs a b = ¬ (b.session_id ≡ a.session_id)

abbrev pub Distinct : List ChatCatalogEntry → Type 0
Distinct [] = Unit
Distinct (chat ∷ rest) = All (Differs chat) rest × Distinct rest

abbrev pub NotAfter : ChatCatalogEntry → ChatCatalogEntry → Type 0
NotAfter a b = b.updated_at ≤ a.updated_at

abbrev pub LatestFirst : List ChatCatalogEntry → Type 0
LatestFirst [] = Unit
LatestFirst (chat ∷ rest) = All (NotAfter chat) rest × LatestFirst rest

pub record CatalogIsValid (state : ChatCatalogState) : Type 0 where
  pub fits : length state.chats ≤ max_catalog_chats
  pub distinct : Distinct state.chats
  pub latest_first : LatestFirst state.chats

module _ (engine : TextEngine) where
  All-insert_entry {ℓ} :
      (P : ChatCatalogEntry → Type ℓ) (entry : ChatCatalogEntry) (chats : List ChatCatalogEntry)
      → P entry
      → All P chats
      → All P (insert_entry engine entry chats)
  unfolding insert_entry
  All-insert_entry P entry [] h k = (h, tt)
  All-insert_entry P entry (chat ∷ rest) h k = elim (Bool-cases (precedes engine entry chat)) [
    | inl first ↦ rw first (h, k)
    | inr later ↦ rw later (k.0, All-insert_entry P entry rest h k.1)
  ]

  All-ordered_entries {ℓ} :
      (P : ChatCatalogEntry → Type ℓ) (chats : List ChatCatalogEntry)
      → All P chats
      → All P (ordered_entries engine chats)
  unfolding ordered_entries
  All-ordered_entries P [] h = tt
  All-ordered_entries P (chat ∷ rest) h =
      All-insert_entry P chat (ordered_entries engine rest) h.0 (All-ordered_entries P rest h.1)

  insert_entry-Distinct :
      (entry : ChatCatalogEntry) (chats : List ChatCatalogEntry)
      → All (Differs entry) chats
      → Distinct chats
      → Distinct (insert_entry engine entry chats)
  unfolding insert_entry
  insert_entry-Distinct entry [] new h = (tt, tt)
  insert_entry-Distinct entry (chat ∷ rest) new h = elim (Bool-cases (precedes engine entry chat)) [
    | inl first ↦ rw first (new, h)
    | inr later ↦ rw later (
      All-insert_entry (Differs chat) entry rest (λ same. new.0 (sym same)) h.0,
      insert_entry-Distinct entry rest new.1 h.1,
    )
  ]

  ordered_entries-Distinct :
      (chats : List ChatCatalogEntry) → Distinct chats → Distinct (ordered_entries engine chats)
  unfolding ordered_entries
  ordered_entries-Distinct [] h = tt
  ordered_entries-Distinct (chat ∷ rest) h =
      insert_entry-Distinct chat (ordered_entries engine rest)
        (All-ordered_entries (Differs chat) rest h.0) (ordered_entries-Distinct rest h.1)

  first_NotAfter : (a b : ChatCatalogEntry) → precedes engine a b ≡ true → NotAfter a b
  first_NotAfter a b h = ground (arith, nat_beq_iff a.updated_at b.updated_at)

  later_NotAfter : (a b : ChatCatalogEntry) → precedes engine a b ≡ false → NotAfter b a
  later_NotAfter a b h = ground (arith, nat_beq_iff a.updated_at b.updated_at)

  insert_entry-LatestFirst :
      (entry : ChatCatalogEntry) (chats : List ChatCatalogEntry)
      → LatestFirst chats
      → LatestFirst (insert_entry engine entry chats)
  unfolding insert_entry
  insert_entry-LatestFirst entry [] h = (tt, tt)
  insert_entry-LatestFirst entry (chat ∷ rest) h = elim (Bool-cases (precedes engine entry chat)) [
    | inl first ↦
        let low : NotAfter entry chat = first_NotAfter entry chat first in
        rw first
          ((low, All-imp (NotAfter chat) (NotAfter entry) (λ other le. omega arith) rest h.0), h)
    | inr later ↦ rw later (
      All-insert_entry (NotAfter chat) entry rest (later_NotAfter entry chat later) h.0,
      insert_entry-LatestFirst entry rest h.1,
    )
  ]

  ordered_entries-LatestFirst :
      (chats : List ChatCatalogEntry) → LatestFirst (ordered_entries engine chats)
  unfolding ordered_entries
  ordered_entries-LatestFirst [] = tt
  ordered_entries-LatestFirst (chat ∷ rest) =
      insert_entry-LatestFirst chat (ordered_entries engine rest) (ordered_entries-LatestFirst rest)

All-take {ℓ} :
    (P : ChatCatalogEntry → Type ℓ) (n : ℕ) (chats : List ChatCatalogEntry)
    → All P chats
    → All P (take n chats)
All-take P zero chats h = tt
All-take P (suc n) [] h = tt
All-take P (suc n) (chat ∷ rest) h = (h.0, All-take P n rest h.1)

take-Distinct : (n : ℕ) (chats : List ChatCatalogEntry) → Distinct chats → Distinct (take n chats)
take-Distinct zero chats h = tt
take-Distinct (suc n) [] h = tt
take-Distinct (suc n) (chat ∷ rest) h =
    (All-take (Differs chat) n rest h.0, take-Distinct n rest h.1)

take-LatestFirst :
    (n : ℕ) (chats : List ChatCatalogEntry) → LatestFirst chats → LatestFirst (take n chats)
take-LatestFirst zero chats h = tt
take-LatestFirst (suc n) [] h = tt
take-LatestFirst (suc n) (chat ∷ rest) h =
    (All-take (NotAfter chat) n rest h.0, take-LatestFirst n rest h.1)

append-Distinct :
    (chats : List ChatCatalogEntry) (entry : ChatCatalogEntry)
    → All (Differs entry) chats
    → Distinct chats
    → Distinct (chats ++ entry ∷ [])
append-Distinct [] entry new h = (tt, tt)
append-Distinct (chat ∷ rest) entry new h = (
  All-append (Differs chat) rest (entry ∷ []) h.0 ((λ same. new.0 (sym same)), tt),
  append-Distinct rest entry new.1 h.1,
)

filter-Distinct :
    (p : ChatCatalogEntry → Bool) (chats : List ChatCatalogEntry)
    → Distinct chats
    → Distinct (filter p chats)
filter-Distinct p [] h = tt
filter-Distinct p (chat ∷ rest) h = elim (Bool-cases (p chat)) [
  | inl kept ↦ rw kept (All-filter (Differs chat) p rest h.0, filter-Distinct p rest h.1)
  | inr gone ↦ rw gone (filter-Distinct p rest h.1)
]

other_chats-Differs :
    (entry : ChatCatalogEntry) (chats : List ChatCatalogEntry)
    → All (Differs entry) (filter (λ chat. not (chat.session_id == entry.session_id)) chats)
other_chats-Differs entry [] = tt
other_chats-Differs entry (chat ∷ rest) = elim (Bool-cases (chat.session_id == entry.session_id)) [
  | inl same ↦ rw same (other_chats-Differs entry rest)
  | inr other ↦ rw other (
    (λ same. ground (arith, eq_iff chat.session_id entry.session_id)),
    other_chats-Differs entry rest,
  )
]

find_chat-Differs :
    (entry : ChatCatalogEntry) (chats : List ChatCatalogEntry)
    → find (λ chat. chat.session_id == entry.session_id) chats ≡ none
    → All (Differs entry) chats
find_chat-Differs entry [] h = tt
find_chat-Differs entry (chat ∷ rest) h = (
  (λ same. ground (arith, eq_iff chat.session_id entry.session_id)),
  find_chat-Differs entry rest (ground arith),
)

bounded-IsValid :
    (engine : TextEngine) (chats : List ChatCatalogEntry)
    → Distinct chats
    → CatalogIsValid (record { version = 2; chats = bounded engine chats })
unfolding bounded
bounded-IsValid engine chats h = record {
  fits = length-take-le max_catalog_chats (ordered_entries engine chats);
  distinct = take-Distinct max_catalog_chats _ (ordered_entries-Distinct engine chats h);
  latest_first = take-LatestFirst max_catalog_chats _ (ordered_entries-LatestFirst engine chats);
}

-- Touching a chat keeps the catalog valid: each chat once, latest first, at most 200.
pub touch_chat-IsValid :
    (engine : TextEngine) (state : ChatCatalogState) (id prompt : String) (now : ℕ)
    → CatalogIsValid state
    → CatalogIsValid (touch_chat engine state id prompt now).0
unfolding touch_chat touched_entry
touch_chat-IsValid engine state id prompt now h =
    let touched : ChatCatalogEntry = touched_entry engine (find_chat state id) id prompt now in
    bounded-IsValid engine _ (
      append-Distinct (other_chats state id) touched (other_chats-Differs touched state.chats)
        (filter-Distinct _ state.chats h.distinct))

-- Creating a chat keeps the catalog valid: each chat once, latest first, at most 200.
pub create_chat-IsValid :
    (engine : TextEngine) (state : ChatCatalogState) (id : String) (now : ℕ)
    → CatalogIsValid state
    → CatalogIsValid (create_chat engine state id now).0
unfolding create_chat
create_chat-IsValid engine state id now h = elim (Option-cases (find_chat state id)) [
  | inl new ↦ rw new (
      bounded-IsValid engine _ (
        append-Distinct state.chats (created_entry id now)
          (find_chat-Differs (created_entry id now) state.chats new) h.distinct))
  | inr (existing, found) ↦ rw found h
]
