-- ===== src/Client/Resume.antt =====
-- The browser's reducer on a resume probe for the stream that it follows.
use chemistry.Prelude.{
  ℤ, pos, ◌≤ℤ◌, pos_part, neg_part, +ℤ_parts, eq_of_parts, leb_ℤ, min_ℤ, String, true, some, List,
  [], ◌∷◌, ◌≡◌, refl, ap, arith, eq_iff, string_eq, nullable_eq, length-filter-le, filter, All,
  All-filter, Bool-cases, inl, inr,
}
use chemistry.Protocol.{DurableStreamEvent, ResumeProbe, RuntimeClientFrame}
use chemistry.Execution.Streams.{Chain}
use chemistry.Client.{RuntimeSocketSnapshot, up_to, same_stream, resume_cursor, apply_resume_probe}
use chemistry.Client.Replay.{Follows}

-- What a probe keeps of a run, and that nothing is kept of a run behind the cursor.
record Cut (id : String) (from after : ℤ) (events : List DurableStreamEvent) : Type 0 where
  run : from ≤ℤ after → Chain from (filter (up_to (some id) after) events) after
  gone : after ≤ℤ from → filter (up_to (some id) after) events ≡ []

filter-Cut :
    (id : String) (from after to : ℤ) (events : List DurableStreamEvent)
    → All (λ event. event.stream_id ≡ id) events
    → Chain from events to
    → after ≤ℤ to
    → Cut id from after events
filter-Cut id from after to [] tagged h low = record {
  run = λ le. eq_of_parts from after (ground (arith, ap pos_part h, ap neg_part h));
  gone = λ ge. refl;
}
filter-Cut id from after to (x ∷ xs) tagged h low =
    let rest = filter-Cut id x.sequence after to xs tagged.1 h.1 low in
    elim (Bool-cases (up_to (some id) after x)) [
      | inl kept ↦
          let reached : x.sequence ≤ℤ after = ground (arith, kept) in
          record {
            run = λ le. rw kept (h.0, rest.run reached);
            gone = λ ge.
                absurd (ground (arith, +ℤ_parts from (pos 1), ap pos_part h.0, ap neg_part h.0));
          }
      | inr dropped ↦
          let passed : after ≤ℤ from = ground (
            arith,
            dropped,
            tagged.0,
            eq_iff x.stream_id id,
            +ℤ_parts from (pos 1),
            ap pos_part h.0,
            ap neg_part h.0,
          ) in
          let behind : after ≤ℤ x.sequence =
            ground (arith, +ℤ_parts from (pos 1), ap pos_part h.0, ap neg_part h.0) in
          record {
            run = λ le. rw (dropped, rest.gone behind) (eq_of_parts from after (omega arith));
            gone = λ ge. rw (dropped, rest.gone behind);
          }
    ]

cut_start :
    (id : String) (from after : ℤ) (events : List DurableStreamEvent)
    → Cut id from after events
    → (start : ℤ) × Chain start (filter (up_to (some id) after) events) after
cut_start id from after events cut = elim (Bool-cases (leb_ℤ from after)) [
  | inl le ↦ (from, cut.run (ground (arith, le)))
  | inr gt ↦ (after, rw (cut.gone (ground (arith, gt))) refl)
]

resumed_Follows :
    (id : String) (current : RuntimeSocketSnapshot) (latest : ℤ)
    → Follows id current
    → Follows id (record current {
      stream_id = some id;
      last_sequence = min_ℤ current.last_sequence latest;
      recent_events =
          filter (up_to (some id) (min_ℤ current.last_sequence latest)) current.recent_events;
    })
resumed_Follows id current latest h =
    let after : ℤ = min_ℤ current.last_sequence latest in
    let cut = cut_start id h.start after current.recent_events (
      filter-Cut id h.start after current.last_sequence current.recent_events h.tagged h.run
        (ground arith)) in
    record {
      following = refl;
      start = cut.0;
      run = cut.1;
      tagged = All-filter _ _ current.recent_events h.tagged;
      within =
          omega (arith, length-filter-le (up_to (some id) after) current.recent_events, h.within);
    }

-- On a resume probe for the stream that it follows, the browser goes back to the smaller of its own
-- cursor and the server's, keeps a gapless run of that stream which ends there, and asks for a replay
-- from there.
pub apply_resume_probe-Follows :
    (id : String) (current : RuntimeSocketSnapshot) (frame : ResumeProbe)
    → frame.active_stream_id ≡ some id
    → Follows id current
    → Follows id (apply_resume_probe current frame).snapshot
      × ((apply_resume_probe current frame).snapshot.last_sequence
          ≡ min_ℤ current.last_sequence frame.latest_sequence)
      × ((apply_resume_probe current frame).outbound
          ≡ RuntimeClientFrame.resume_ack frame.probe_id
              (some id)
              (min_ℤ current.last_sequence frame.latest_sequence)
            ∷ [])
unfolding apply_resume_probe resume_cursor
apply_resume_probe-Follows id current frame active h =
    let same : same_stream (some id) (some id) ≡ true = (eq_iff id id).1 refl in
    let resumed = resumed_Follows id current frame.latest_sequence h in
    rw (active, h.following, same)
      (
        record {
          following = refl;
          start = resumed.start;
          run = resumed.run;
          tagged = resumed.tagged;
          within = resumed.within;
        },
        refl,
        refl,
      )
