-- ===== src/Handoff.antt =====
-- packages/agent-runtime/src/replay-handoff.ts: the buffer that joins a stored replay to the live
-- events of one connection. A call returns the new handoff beside its result, for the one that the
-- source mutates.
pub mod Order
pub mod Joined
use chemistry.Prelude.{
  ℕ, ℤ, ◌≤ℤ◌, ltb_ℤ, leb_ℤ, String, Bool, true, false, List, [], ◌∷◌, ◌++◌, not, ◌||◌, ◌==◌,
  string_eq, if◌then◌else◌, leb, length,
}
use chemistry.Protocol.{DurableStreamEvent}

pub record ReplayHandoff : Type 0 where
  pub stream_id : String
  pub high_water : ℤ
  pub pending : List DurableStreamEvent

pub data ReplayParkResult : Type 0 where
  duplicate buffered overflow : ReplayParkResult

unfoldable pub begin_replay_handoff : String → ℤ → ReplayHandoff
begin_replay_handoff stream_id after_sequence = record {
  stream_id = stream_id;
  high_water = after_sequence;
  pending = [];
}

-- `event.streamId !== handoff.streamId || event.sequence <= handoff.highWater`
abbrev pub is_behind : String → ℤ → DurableStreamEvent → Bool
is_behind stream_id high_water event =
    not (event.stream_id == stream_id) || leb_ℤ event.sequence high_water

unfoldable pub park_live_event :
    ReplayHandoff → DurableStreamEvent → ℕ → ReplayHandoff × ReplayParkResult
park_live_event handoff event capacity =
    if is_behind handoff.stream_id handoff.high_water event
    then (handoff, duplicate)
    else if leb capacity (length handoff.pending)
    then (handoff, overflow)
    else (record handoff { pending = handoff.pending ++ event ∷ [] }, buffered)

-- `sort((left, right) => left.sequence - right.sequence)`, which is stable.
insert_sequence : DurableStreamEvent → List DurableStreamEvent → List DurableStreamEvent
insert_sequence event [] = event ∷ []
insert_sequence event (head ∷ rest) =
    if leb_ℤ event.sequence head.sequence
    then event ∷ head ∷ rest
    else head ∷ insert_sequence event rest

unfoldable pub sort_sequence : List DurableStreamEvent → List DurableStreamEvent
unfolding insert_sequence
sort_sequence [] = []
sort_sequence (event ∷ rest) = insert_sequence event (sort_sequence rest)

-- The loop over the sorted events: those accepted, and the cursor behind them.
unfoldable pub accept_sorted : String → ℤ → List DurableStreamEvent → List DurableStreamEvent × ℤ
accept_sorted stream_id high_water [] = ([], high_water)
accept_sorted stream_id high_water (event ∷ rest) =
    let passed = accept_sorted stream_id high_water rest in
    let taken = accept_sorted stream_id event.sequence rest in
    if is_behind stream_id high_water event then passed else (event ∷ taken.0, taken.1)

unfoldable pub accept_replay_backlog :
    ReplayHandoff → List DurableStreamEvent → ReplayHandoff × List DurableStreamEvent
accept_replay_backlog handoff events =
    let (accepted, high_water) =
      accept_sorted handoff.stream_id handoff.high_water (sort_sequence events) in
    (record handoff { high_water = high_water }, accepted)

unfoldable pub drain_replay_pending : ReplayHandoff → ReplayHandoff × List DurableStreamEvent
drain_replay_pending handoff =
    accept_replay_backlog (record handoff { pending = [] }) handoff.pending

-- Live events parked one after another while the backlog is read; none when one overflows.
unfoldable pub park_all : ℕ → ReplayHandoff → List DurableStreamEvent → ReplayHandoff
park_all capacity handoff [] = handoff
park_all capacity handoff (event ∷ rest) =
    park_all capacity (park_live_event handoff event capacity).0 rest
