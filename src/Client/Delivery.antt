-- ===== src/Client/Delivery.antt =====
-- `replay` of the durable store and the browser's reducer together.
use chemistry.Prelude.{
  ℤ, pos, ◌+ℤ◌, pos_part, neg_part, +ℤ_parts, leb_ℤ, String, Bool, true, false, some, List, [], ◌∷◌,
  ◌++◌, ◌≡◌, refl, sym, ap, subst, ◌∙◌, arith, All, All-filter, append-nil, append_assoc,
}
use chemistry.Protocol.{DurableStreamEvent}
use chemistry.Runtime.State.{RuntimeState}
use chemistry.Runtime.Errors.{ok}
use chemistry.Execution.Helpers.{Environment}
use chemistry.Execution.Lookup.{stream_id-find}
use chemistry.Execution.Streams.{Chain}
use chemistry.Execution.Bounds.{InBounds, found-IsValid}
use chemistry.Execution.Reading.{RuntimeReplay, replay, events_after}
use chemistry.Execution.Reading.Replay.{replay-Replays}
use chemistry.Client.{
  RuntimeSocketSnapshot, recent, accept_event, apply_stream_event, apply_runtime_server_frame,
  receive,
}
use chemistry.Client.Replay.{high_water-same, eq-eq_ℤ, recent-recent}

-- The events reach the browser: its cursor is theirs, and it keeps the last of all it has.
pub record Delivers (before after : RuntimeSocketSnapshot) (events : List DurableStreamEvent)
    (to : ℤ) : Type 0 where
  pub cursor : after.last_sequence ≡ to
  pub same_stream : after.stream_id ≡ before.stream_id
  pub kept : recent after.recent_events ≡ recent (before.recent_events ++ events)

next_is_new : (a b : ℤ) → a ≡ b +ℤ pos 1 → leb_ℤ a b ≡ false
next_is_new a b e = ground (arith, +ℤ_parts b (pos 1), ap pos_part e, ap neg_part e)

-- The next event of its stream is accepted.
apply_next :
    (id : String) (current : RuntimeSocketSnapshot) (event : DurableStreamEvent) (replay : Bool)
    → current.stream_id ≡ some id
    → event.stream_id ≡ id
    → event.sequence ≡ current.last_sequence +ℤ pos 1
    → apply_stream_event current event replay ≡ accept_event current event replay
unfolding apply_stream_event
apply_next id current event replay held same next = rw (
  high_water-same current event id held same,
  next_is_new event.sequence current.last_sequence next,
  eq-eq_ℤ event.sequence (current.last_sequence +ℤ pos 1) next,
)

-- A browser that follows a stream takes a gapless run of its events that starts right behind the
-- browser's cursor whole: its cursor is then the run's end, and it keeps the last 2048 of all events.
pub receive-Delivers :
    (id : String) (current : RuntimeSocketSnapshot) (replay : Bool)
    (events : List DurableStreamEvent) (to : ℤ)
    → current.stream_id ≡ some id
    → All (λ event. event.stream_id ≡ id) events
    → Chain current.last_sequence events to
    → Delivers current (receive replay current events) events to
unfolding receive apply_runtime_server_frame
receive-Delivers id current replay [] to held tagged h = record {
  cursor = h;
  same_stream = refl;
  kept = rw append-nil;
}
receive-Delivers id current replay (event ∷ rest) to held tagged h =
    let after : RuntimeSocketSnapshot = (accept_event current event replay).snapshot in
    let ih =
      receive-Delivers id after replay rest to (unfold accept_event in ap some tagged.0) tagged.1
        (unfold accept_event in h.1) in
    rw (apply_next id current event replay held tagged.0 h.0) (record {
      cursor = ih.cursor;
      same_stream = ih.same_stream ∙ (unfold accept_event in ap some tagged.0) ∙ sym held;
      kept =
          ih.kept
          ∙ (unfold accept_event in
              recent-recent (current.recent_events ++ event ∷ []) rest
              ∙ ap recent (append_assoc current.recent_events (event ∷ []) rest));
    })

-- After a reconnect to a record within its limits: the browser that follows a retained stream and
-- replays it from its own cursor has, once the events handed out have arrived, the stream's last event as its cursor, and the last
-- 2048 events of those that it had and those handed out.
pub replay-Delivers :
    (env : Environment) (state : RuntimeState) (stream_id : String) (window : RuntimeReplay)
    (current : RuntimeSocketSnapshot)
    → InBounds env state
    → current.stream_id ≡ some stream_id
    → replay state stream_id current.last_sequence ≡ ok window
    → Delivers current (receive true current window.events) window.events window.latest_sequence
replay-Delivers env state stream_id window current h held e =
    let r = replay-Replays env state stream_id current.last_sequence window h e in
    let valid = found-IsValid env state h stream_id r.stored in
    receive-Delivers stream_id current true window.events window.latest_sequence held
      (rw r.handed_out (
        subst
          (λ id.
            All (λ event. event.stream_id ≡ id)
              (events_after current.last_sequence r.stream.events))
          (stream_id-find state stream_id r.stream r.stored)
          (unfold events_after in All-filter _ _ r.stream.events valid.tagged)))
      (rw (r.handed_out, r.latest) r.splits.beyond)
