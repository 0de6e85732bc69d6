-- ===== src/Execution/Reading/Replay.antt =====
-- `replay` of a stream within its limits.
use chemistry.Prelude.{
  ℤ, pos, ◌+ℤ◌, ◌≤ℤ◌, minus_one, pos_part, neg_part, +ℤ_parts, eq_of_parts, String, true, false,
  some, List, [], ◌∷◌, ◌++◌, ◌≡◌, refl, arith, inl, inr, Bool-cases, string_eq, ltb_ℤ, leb_ℤ, sym,
  ap, ◌∙◌,
}
use chemistry.Protocol.{DurableStreamEvent}
use chemistry.Runtime.State.{RuntimeState, RuntimeStreamRecord}
use chemistry.Runtime.Errors.{
  ok, ◌>>=◌, Ensures, Ensures-returns, returned, Ensures-or_fail, Ensures-guard,
}
use chemistry.Execution.Helpers.{Environment, find_stream}
use chemistry.Execution.Streams.{Chain}
use chemistry.Execution.Bounds.{InBounds, found-IsValid}
use chemistry.Execution.Reading.{RuntimeReplay, replay, events_after}

of_test : (a b : ℤ) → leb_ℤ a b ≡ true → a ≤ℤ b
of_test a b h = ground arith

weaken : (a b : ℤ) → ltb_ℤ a b ≡ true → a ≤ℤ b
weaken a b h = ground arith

reverse_test : (a b : ℤ) → ltb_ℤ a b ≡ false → b ≤ℤ a
reverse_test a b h = ground arith

leb_of : (a b : ℤ) → a ≤ℤ b → leb_ℤ a b ≡ true
leb_of a b h = ground arith

-- The cursor right before the first event after it.
reached :
    (from after sequence : ℤ)
    → from ≤ℤ after
    → ltb_ℤ after sequence ≡ true
    → sequence ≡ from +ℤ pos 1
    → from ≡ after
reached from after sequence low later e =
    eq_of_parts from after (ground (arith, ap pos_part e, ap neg_part e, +ℤ_parts from (pos 1)))

-- Behind a cursor that the chain has passed, nothing is dropped.
events_after_all :
    (after from to : ℤ) (events : List DurableStreamEvent)
    → after ≤ℤ from
    → Chain from events to
    → events_after after events ≡ events
unfolding events_after
events_after_all after from to [] h c = refl
events_after_all after from to (event ∷ rest) h c =
    ground (arith, +ℤ_parts from (pos 1), events_after_all after event.sequence to rest, c.0, c.1)

-- The events split at a cursor that the chain reaches, into a chain up to it and the rest.
pub record SplitsAt (from after to : ℤ) (events : List DurableStreamEvent) : Type 0 where
  pub seen : List DurableStreamEvent
  pub joined : events ≡ seen ++ events_after after events
  pub up_to : Chain from seen after
  pub beyond : Chain after (events_after after events) to

events_after-SplitsAt :
    (after from to : ℤ) (events : List DurableStreamEvent)
    → from ≤ℤ after
    → after ≤ℤ to
    → Chain from events to
    → SplitsAt from after to events
unfolding events_after
events_after-SplitsAt after from to [] low high c =
    let same : from ≡ after =
      eq_of_parts from after (ground (arith, ap pos_part c, ap neg_part c)) in
    record { seen = []; joined = refl; up_to = same; beyond = sym same ∙ c }
events_after-SplitsAt after from to (event ∷ rest) low high c =
    elim (Bool-cases (ltb_ℤ after event.sequence)) [
      | inl later ↦
          let same : from ≡ after = reached from after event.sequence low later c.0 in
          let all =
            events_after_all after event.sequence to rest (weaken after event.sequence later) c.1 in
          record {
            seen = [];
            joined = rw (later, all);
            up_to = same;
            beyond = rw (later, all) (c.0 ∙ ap (λ cursor. cursor +ℤ pos 1) same, c.1);
          }
      | inr seen ↦
          let split =
            events_after-SplitsAt after event.sequence to rest
              (reverse_test after event.sequence seen) high c.1 in
          record {
            seen = event ∷ split.seen;
            joined = rw seen (ap (λ later. event ∷ later) split.joined);
            up_to = (c.0, split.up_to);
            beyond = rw seen split.beyond;
          }
    ]

-- What a replay from `after` hands out of the stored stream.
pub record Replays (state : RuntimeState) (stream_id : String) (after : ℤ) (window : RuntimeReplay)
    : Type 0 where
  pub stream : RuntimeStreamRecord
  pub stored : find_stream state stream_id ≡ some stream
  pub handed_out : window.events ≡ events_after after stream.events
  pub latest : window.latest_sequence ≡ stream.latest_sequence
  pub splits : SplitsAt minus_one after stream.latest_sequence stream.events

run-Replays :
    (env : Environment) (state : RuntimeState) (stream_id : String) (after : ℤ)
    → InBounds env state
    → Ensures (Replays state stream_id after) (replay state stream_id after)
unfolding replay
run-Replays env state stream_id after h = Ensures-guard _ λ low. Ensures-or_fail _ λ stream found.
    Ensures-guard _ λ high. returned (record {
      stream = stream;
      stored = found;
      handed_out = refl;
      latest = refl;
      splits =
          events_after-SplitsAt after minus_one stream.latest_sequence stream.events
            (of_test minus_one after low) (of_test after stream.latest_sequence high)
            (found-IsValid env state h _ found).chain;
    })

-- From a record within its limits, a replay from a client's cursor hands out exactly what the client lacks: the stored events are a
-- gapless run from sequence 0 up to the cursor, followed by the events handed out, which run without
-- a gap to the last event stored.
pub replay-Replays :
    (env : Environment) (state : RuntimeState) (stream_id : String) (after : ℤ)
    (window : RuntimeReplay)
    → InBounds env state
    → replay state stream_id after ≡ ok window
    → Replays state stream_id after window
replay-Replays env state stream_id after window h e =
    Ensures-returns {P = Replays state stream_id after} (run-Replays env state stream_id after h) e

-- A cursor between -1 and the last event of a retained stream is always served.
replay_total :
    (state : RuntimeState) (stream_id : String) (after : ℤ) (stream : RuntimeStreamRecord)
    → find_stream state stream_id ≡ some stream
    → minus_one ≤ℤ after
    → after ≤ℤ stream.latest_sequence
    → (window : RuntimeReplay) × (replay state stream_id after ≡ ok window)
unfolding replay ◌>>=◌
replay_total state stream_id after stream found low high = (
  record {
    stream_id = stream_id;
    events = events_after after stream.events;
    latest_sequence = stream.latest_sequence;
    status = stream.status;
    terminal_reason = stream.terminal_reason;
  },
  rw (leb_of minus_one after low, found) (ground arith),
)
