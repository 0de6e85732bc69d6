-- ===== src/Handoff/Order.antt =====
-- The handoff on gapless runs of events.
use chemistry.Prelude.{
  ℕ, ◌+◌, ◌≤◌, ℤ, pos, ◌+ℤ◌, ◌≤ℤ◌, pos_part, neg_part, eq_of_parts, +ℤ_parts, leb_ℤ, String, true,
  false, List, [], ◌∷◌, ◌++◌, ◌≡◌, refl, sym, ap, subst, ◌∙◌, arith, eq_iff, string_eq, length,
  length-append, All, Bool-cases, inl, inr, append-nil, append_assoc,
}
use chemistry.Protocol.{DurableStreamEvent}
use chemistry.Execution.Streams.{Chain}
use chemistry.Handoff.{
  ReplayHandoff, is_behind, park_live_event, sort_sequence, accept_sorted, accept_replay_backlog,
  drain_replay_pending, park_all,
}

-- All the events are of one stream.
abbrev pub Tagged : String → List DurableStreamEvent → Type 0
Tagged stream_id = All (λ event. event.stream_id ≡ stream_id)

pub Chain-++ :
    (a b c : ℤ) (xs ys : List DurableStreamEvent)
    → Chain a xs b
    → Chain b ys c
    → Chain a (xs ++ ys) c
Chain-++ a b c [] ys h k = subst (λ from. Chain from ys c) (sym h) k
Chain-++ a b c (x ∷ xs) ys h k = (h.0, Chain-++ x.sequence b c xs ys h.1 k)

Chain-le : (a b : ℤ) (events : List DurableStreamEvent) → Chain a events b → a ≤ℤ b
Chain-le a b [] h = ground (arith, ap pos_part h, ap neg_part h)
Chain-le a b (x ∷ xs) h =
    ground
      (arith, +ℤ_parts a (pos 1), ap pos_part h.0, ap neg_part h.0, Chain-le x.sequence b xs h.1)

after-le : (a b : ℤ) → b ≡ a +ℤ pos 1 → leb_ℤ a b ≡ true
after-le a b e = ground (arith, +ℤ_parts a (pos 1), ap pos_part e, ap neg_part e)

-- A chain is in order already.
pub sort-Chain :
    (a b : ℤ) (events : List DurableStreamEvent) → Chain a events b → sort_sequence events ≡ events
unfolding sort_sequence
sort-Chain a b [] h = refl
sort-Chain a b (x ∷ []) h = refl
sort-Chain a b (x ∷ y ∷ ys) h =
    rw (sort-Chain x.sequence b (y ∷ ys) h.1) (rw (after-le x.sequence y.sequence h.1.0))

ahead :
    (id : String) (high_water : ℤ) (event : DurableStreamEvent)
    → event.stream_id ≡ id
    → event.sequence ≡ high_water +ℤ pos 1
    → is_behind id high_water event ≡ false
ahead id high_water event same e =
    ground
      (arith, eq_iff event.stream_id id, +ℤ_parts high_water (pos 1), ap pos_part e, ap neg_part e)

-- A chain that starts at the cursor is accepted whole.
pub accept-Chain :
    (id : String) (a b : ℤ) (events : List DurableStreamEvent)
    → Tagged id events
    → Chain a events b
    → accept_sorted id a events ≡ (events, b)
unfolding accept_sorted
accept-Chain id a b [] tagged h = ground (arith, h)
accept-Chain id a b (x ∷ xs) tagged h =
    rw (ahead id a x tagged.0 h.0, accept-Chain id x.sequence b xs tagged.1 h.1)

pub behind_of :
    (id : String) (high_water : ℤ) (event : DurableStreamEvent)
    → event.stream_id ≡ id
    → is_behind id high_water event ≡ true
    → event.sequence ≤ℤ high_water
behind_of id high_water event same e = ground (arith, eq_iff event.stream_id id)

at_cursor :
    (id : String) (from high_water : ℤ) (event : DurableStreamEvent)
    → from ≤ℤ high_water
    → event.sequence ≡ from +ℤ pos 1
    → is_behind id high_water event ≡ false
    → from ≡ high_water
at_cursor id from high_water event low e b =
    eq_of_parts from high_water
      (ground (arith, +ℤ_parts from (pos 1), ap pos_part e, ap neg_part e))

-- What was accepted is a chain from the old cursor to the new, and covers the events given.
pub record Accepts (from to : ℤ) (accepted : List DurableStreamEvent) (high_water : ℤ)
    : Type 0 where
  pub chain : Chain from accepted high_water
  pub covered : to ≤ℤ high_water

-- A chain that starts at or before the cursor: what is behind is skipped, the rest accepted.
accept_overlap :
    (id : String) (from to high_water : ℤ) (events : List DurableStreamEvent)
    → Tagged id events
    → from ≤ℤ high_water
    → Chain from events to
    → Accepts high_water to
        (accept_sorted id high_water events).0
        (accept_sorted id high_water events).1
unfolding accept_sorted
accept_overlap id from to high_water [] tagged low h = record {
  chain = refl;
  covered = ground (arith, ap pos_part h, ap neg_part h);
}
accept_overlap id from to high_water (x ∷ xs) tagged low h =
    elim (Bool-cases (is_behind id high_water x)) [
      | inl behind ↦ rw behind (
          accept_overlap id x.sequence to high_water xs tagged.1
            (behind_of id high_water x tagged.0 behind) h.1)
      | inr new ↦
          let same : from ≡ high_water = at_cursor id from high_water x low h.0 new in
          rw (new, accept-Chain id x.sequence to xs tagged.1 h.1)
            (record {
              chain = (h.0 ∙ ap (λ cursor. cursor +ℤ pos 1) same, h.1);
              covered = omega arith;
            })
    ]

-- The whole handoff: the backlog, then the parked events.
unfoldable pub deliver :
    ReplayHandoff → List DurableStreamEvent → ReplayHandoff × List DurableStreamEvent
deliver handoff backlog =
    let (drained, sent) = accept_replay_backlog handoff backlog in
    let (done, rest) = drain_replay_pending drained in (done, sent ++ rest)

-- Across a handoff the client gets a gapless run of events, each once and in order, from its cursor
-- to an end that covers both the backlog and the parked events, when the backlog starts at the cursor
-- and the parked events start no later than right behind the backlog's end; nothing stays parked.
pub deliver-Accepts :
    (handoff : ReplayHandoff) (backlog : List DurableStreamEvent) (latest first last : ℤ)
    → Tagged handoff.stream_id backlog
    → Chain handoff.high_water backlog latest
    → Tagged handoff.stream_id handoff.pending
    → Chain first handoff.pending last
    → first ≤ℤ latest
    → Accepts handoff.high_water last
        (deliver handoff backlog).1
        (deliver handoff backlog).0.high_water
      × (latest ≤ℤ (deliver handoff backlog).0.high_water)
      × ((deliver handoff backlog).0.pending ≡ [])
unfolding deliver accept_replay_backlog drain_replay_pending
deliver-Accepts handoff backlog latest first last tagged chain tagged_pending parked low =
    let drained =
      accept_overlap handoff.stream_id first last latest handoff.pending tagged_pending low
        parked in
    rw
      (
        sort-Chain handoff.high_water latest backlog chain,
        accept-Chain handoff.stream_id handoff.high_water latest backlog tagged chain,
        sort-Chain first last handoff.pending parked,
      )
      (
        record {
          chain = Chain-++ handoff.high_water latest _ backlog _ chain drained.chain;
          covered = drained.covered;
        },
        Chain-le latest _ _ drained.chain,
        refl,
      )

next_cursor :
    (high_water first : ℤ) (event : DurableStreamEvent)
    → high_water ≤ℤ first
    → event.sequence ≡ first +ℤ pos 1
    → high_water ≤ℤ event.sequence
next_cursor high_water first event low e =
    ground (arith, +ℤ_parts first (pos 1), ap pos_part e, ap neg_part e)

not_behind :
    (id : String) (high_water first : ℤ) (event : DurableStreamEvent)
    → event.stream_id ≡ id
    → high_water ≤ℤ first
    → event.sequence ≡ first +ℤ pos 1
    → is_behind id high_water event ≡ false
not_behind id high_water first event same low e =
    ground (arith, eq_iff event.stream_id id, +ℤ_parts first (pos 1), ap pos_part e, ap neg_part e)

park_next :
    (capacity : ℕ) (handoff : ReplayHandoff) (first : ℤ) (event : DurableStreamEvent)
    → event.stream_id ≡ handoff.stream_id
    → event.sequence ≡ first +ℤ pos 1
    → handoff.high_water ≤ℤ first
    → length handoff.pending + 1 ≤ capacity
    → (park_live_event handoff event capacity).0
      ≡ record handoff { pending = handoff.pending ++ event ∷ [] }
unfolding park_live_event
park_next capacity handoff first event same e low room =
    rw (not_behind handoff.stream_id handoff.high_water first event same low e) (ground arith)

-- Live events that follow the cursor are parked as they come, while there is room for them.
pub park_all-Chain :
    (capacity : ℕ) (handoff : ReplayHandoff) (first last : ℤ) (live : List DurableStreamEvent)
    → Tagged handoff.stream_id live
    → Chain first live last
    → handoff.high_water ≤ℤ first
    → length handoff.pending + length live ≤ capacity
    → park_all capacity handoff live ≡ record handoff { pending = handoff.pending ++ live }
unfolding park_all
park_all-Chain capacity handoff first last [] tagged h low room =
    ground (arith, append-nil handoff.pending)
park_all-Chain capacity handoff first last (x ∷ xs) tagged h low room =
    let more : ReplayHandoff = record handoff { pending = handoff.pending ++ x ∷ [] } in
    rw (park_next capacity handoff first x tagged.0 h.0 low (omega arith)) (
      park_all-Chain capacity more x.sequence last xs tagged.1 h.1
        (next_cursor handoff.high_water first x low h.0)
        (omega (arith, length-append handoff.pending (x ∷ [])))
      ∙ ap (λ pending. record handoff { pending = pending })
          (append_assoc handoff.pending (x ∷ []) xs))
