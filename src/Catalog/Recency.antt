-- ===== src/Catalog/Recency.antt =====
-- `createChat` and `touchChat` of a catalog whose chats were all used before.
use chemistry.Prelude.{
  ℕ, ◌<◌, String, List, [], ◌∷◌, ◌++◌, ◌≡◌, refl, arith, eq_iff, ap, string_eq, nat_eq, take, All,
  All-filter, Option-cases, inl, inr,
}
use chemistry.Catalog.{
  TextEngine, ChatCatalogEntry, ChatCatalogState, max_catalog_chats, insert_entry, ordered_entries,
  bounded, created_entry, create_chat, touched_entry, other_chats, find_chat, touch_chat,
}

-- Every chat was used before `now`.
abbrev Before : ℕ → List ChatCatalogEntry → Type 0
Before now = All (λ chat. chat.updated_at < now)

-- The newest entry goes to the front of the order.
ordered_entries-newest :
    (engine : TextEngine) (newest : ChatCatalogEntry) (chats : List ChatCatalogEntry)
    → Before newest.updated_at chats
    → ordered_entries engine (chats ++ newest ∷ []) ≡ newest ∷ ordered_entries engine chats
unfolding ordered_entries insert_entry
ordered_entries-newest engine newest [] h = refl
ordered_entries-newest engine newest (chat ∷ rest) h =
    rw (ordered_entries-newest engine newest rest h.1) (ground (arith, h.0))

bounded-newest :
    (engine : TextEngine) (newest : ChatCatalogEntry) (chats : List ChatCatalogEntry)
    → Before newest.updated_at chats
    → bounded engine (chats ++ newest ∷ []) ≡ newest ∷ take 199 (ordered_entries engine chats)
unfolding bounded
bounded-newest engine newest chats h =
    ap (take max_catalog_chats) (ordered_entries-newest engine newest chats h)

module _ (engine : TextEngine) (state : ChatCatalogState) (id : String) (now : ℕ)
    (recent : Before now state.chats) where
  -- A touched chat leads the catalog, when every chat in it was used before; behind it come the 199
  -- latest of the others.
  touch_chat_leads :
      (prompt : String)
      → (touch_chat engine state id prompt now).0.chats
        ≡ touched_entry engine (find_chat state id) id prompt now
          ∷ take 199 (ordered_entries engine (other_chats state id))
  unfolding touch_chat touched_entry
  touch_chat_leads prompt =
      bounded-newest engine _ (other_chats state id) (All-filter _ _ state.chats recent)

  -- When every chat was used before, the title that a touch gave stays: touching the chat again, with
  -- another prompt, keeps its title and its time of creation, and moves its time of use.
  touch_chat-touch_chat :
      (prompt other : String) (later : ℕ)
      → (touch_chat engine (touch_chat engine state id prompt now).0 id other later).1
        ≡ record (touch_chat engine state id prompt now).1 { updated_at = later }
  unfolding touch_chat touched_entry
  touch_chat-touch_chat prompt other later =
      let touched : ChatCatalogEntry = touched_entry engine (find_chat state id) id prompt now in
      rw (bounded-newest engine touched (other_chats state id) (All-filter _ _ state.chats recent))
        (ground (arith, eq_iff id id))

  -- When every chat was used before, creating a chat is idempotent: a second creation changes nothing
  -- and returns the same summary.
  create_chat-create_chat :
      (later : ℕ)
      → create_chat engine (create_chat engine state id now).0 id later
        ≡ create_chat engine state id now
  unfolding create_chat
  create_chat-create_chat later = elim (Option-cases (find_chat state id)) [
    | inl new ↦
        rw (new, bounded-newest engine (created_entry id now) state.chats recent)
          (ground (arith, eq_iff id id))
    | inr (existing, found) ↦ rw (found, found)
  ]
