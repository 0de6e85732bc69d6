-- ===== src/Execution/Streams.antt =====
-- Well-formed stored streams, and the writes of the runtime to them.
use chemistry.Prelude.{
  ℕ, ◌+◌, ◌≤◌, ℤ, pos, ◌+ℤ◌, minus_one, String, Option, List, [], ◌∷◌, ◌++◌, ◌≡◌, refl, arith,
  length, length-append, All, All-append, sym, ap, ◌∙◌,
}
use chemistry.Protocol.{AgentStreamEvent, DurableStreamEvent}
use chemistry.Runtime.Limits.{RuntimeLimits}
use chemistry.Runtime.State.{RuntimeOperationRecord, RuntimeStreamRecord, RuntimeStreamStatus}
use chemistry.Runtime.Errors.{ok, ◌>>=◌}
use chemistry.Execution.Helpers.{Environment}
use chemistry.Execution.Turn.{appended_stream, append_capacity, next_event}

-- The events count up by one from just after a cursor to another cursor.
abbrev pub Chain : ℤ → List DurableStreamEvent → ℤ → Type 0
Chain from [] to = from ≡ to
Chain from (event ∷ rest) to = (event.sequence ≡ from +ℤ pos 1) × Chain event.sequence rest to

pub Chain-append :
    (from to : ℤ) (events : List DurableStreamEvent) (event : DurableStreamEvent)
    → Chain from events to
    → event.sequence ≡ to +ℤ pos 1
    → Chain from (events ++ event ∷ []) event.sequence
Chain-append from to [] event h e = (e ∙ ap (λ cursor. cursor +ℤ pos 1) (sym h), refl)
Chain-append from to (first ∷ rest) event h e =
    (h.0, Chain-append first.sequence to rest event h.1 e)

-- The bytes of all the events.
unfoldable pub total_size : (DurableStreamEvent → ℕ) → List DurableStreamEvent → ℕ
total_size size [] = 0
total_size size (event ∷ rest) = size event + total_size size rest

pub total_size-append :
    (size : DurableStreamEvent → ℕ) (events : List DurableStreamEvent) (event : DurableStreamEvent)
    → total_size size (events ++ event ∷ []) ≡ total_size size events + size event
unfolding total_size
total_size-append size [] event = omega arith
total_size-append size (first ∷ rest) event = omega (arith, total_size-append size rest event)

-- A stream within its limits: events numbered from 0, all its own, and its bytes counted right.
pub record StreamFits (limits : RuntimeLimits) (size : DurableStreamEvent → ℕ)
    (stream : RuntimeStreamRecord) : Type 0 where
  pub chain : Chain minus_one stream.events stream.latest_sequence
  pub tagged : All (λ event. event.stream_id ≡ stream.stream_id) stream.events
  pub room : length stream.events ≤ limits.max_events_per_stream
  pub counted : stream.encoded_bytes ≡ total_size size stream.events
  pub bytes : stream.encoded_bytes ≤ limits.max_stream_bytes

abbrev pub StreamIsValid : Environment → RuntimeStreamRecord → Type 0
StreamIsValid env = StreamFits env.limits env.encoded_size

module _ (env : Environment) (current operation : RuntimeOperationRecord)
    (stream : RuntimeStreamRecord) (event : AgentStreamEvent) (now : ℕ)
    (room : append_capacity env current stream (next_event stream operation event now)
      ≡ ok tt) where
  append_room : length stream.events + 1 ≤ env.limits.max_events_per_stream
  unfolding append_capacity ◌>>=◌
  append_room = ground (arith, room)

  append_bytes :
      stream.encoded_bytes + env.encoded_size (next_event stream operation event now)
      ≤ env.limits.max_stream_bytes
  unfolding append_capacity ◌>>=◌
  append_bytes = ground (arith, room)

  -- An event that passed the tests of `append` keeps its stream well formed.
  pub appended_stream-IsValid :
      StreamIsValid env stream
      → StreamIsValid env (appended_stream env stream (next_event stream operation event now) now)
  unfolding appended_stream next_event
  appended_stream-IsValid valid =
      let added : DurableStreamEvent = next_event stream operation event now in
      record {
        chain = Chain-append minus_one stream.latest_sequence stream.events added valid.chain refl;
        tagged = All-append _ stream.events (added ∷ []) valid.tagged (refl, tt);
        room = omega (arith, append_room, length-append stream.events (added ∷ []), valid.room);
        counted =
            omega (arith, total_size-append env.encoded_size stream.events added, valid.counted);
        bytes = append_bytes;
      }

-- Changing only the lifecycle of a stream keeps its events.
pub restamped-IsValid :
    (env : Environment) (stream : RuntimeStreamRecord) (status : RuntimeStreamStatus)
    (updated_at : ℕ) (expires_at : Option ℕ) (terminal_reason : Option String)
    → StreamIsValid env stream
    → StreamIsValid env (record stream {
      status = status;
      updated_at = updated_at;
      expires_at = expires_at;
      terminal_reason = terminal_reason;
    })
restamped-IsValid env stream status updated_at expires_at terminal_reason valid = record {
  chain = valid.chain;
  tagged = valid.tagged;
  room = valid.room;
  counted = valid.counted;
  bytes = valid.bytes;
}
