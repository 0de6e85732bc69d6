-- ===== src/Handoff/Joined.antt =====
-- Which events the handoff of packages/agent-runtime/src/replay-handoff.ts lets through.
use chemistry.Prelude.{
  String, ℤ, ◌≤ℤ◌, List, [], ◌∷◌, ◌++◌, ◌≡◌, refl, ap, All, All-append, Bool-cases, inl, inr,
}
use chemistry.Protocol.{DurableStreamEvent}
use chemistry.Execution.Streams.{Chain}
use chemistry.Handoff.{
  ReplayHandoff, is_behind, accept_sorted, accept_replay_backlog, drain_replay_pending,
}
use chemistry.Handoff.Order.{Tagged, sort-Chain, accept-Chain, behind_of, deliver}

-- The parked events are those skipped, which the backlog has reached, and then those let through,
-- which are sent behind the backlog.
pub record Joins (stream_id : String) (latest : ℤ)
    (parked backlog accepted : List DurableStreamEvent) : Type 0 where
  pub skipped : List DurableStreamEvent
  pub passed : List DurableStreamEvent
  pub parts : parked ≡ skipped ++ passed
  pub reached : All (λ event. event.sequence ≤ℤ latest) skipped
  pub joined : accepted ≡ backlog ++ passed
  pub tagged : Tagged stream_id accepted

accept_overlap_parts :
    (id : String) (from to high_water : ℤ) (events : List DurableStreamEvent)
    → Tagged id events
    → from ≤ℤ high_water
    → Chain from events to
    → Joins id high_water events [] (accept_sorted id high_water events).0
unfolding accept_sorted
accept_overlap_parts id from to high_water [] tagged low h = record {
  skipped = [];
  passed = [];
  parts = refl;
  reached = tt;
  joined = refl;
  tagged = tt;
}
accept_overlap_parts id from to high_water (x ∷ xs) tagged low h =
    elim (Bool-cases (is_behind id high_water x)) [
      | inl behind ↦
          let reached = behind_of id high_water x tagged.0 behind in
          let more = accept_overlap_parts id x.sequence to high_water xs tagged.1 reached h.1 in
          rw behind (record {
            skipped = x ∷ more.skipped;
            passed = more.passed;
            parts = ap (λ rest. x ∷ rest) more.parts;
            reached = (reached, more.reached);
            joined = more.joined;
            tagged = more.tagged;
          })
      | inr new ↦
          rw (new, accept-Chain id x.sequence to xs tagged.1 h.1)
            (record {
              skipped = [];
              passed = x ∷ xs;
              parts = refl;
              reached = tt;
              joined = refl;
              tagged = tagged;
            })
    ]

-- A backlog that starts at the cursor is sent whole, then what it does not reach of the parked events.
pub deliver-Joins :
    (handoff : ReplayHandoff) (backlog : List DurableStreamEvent) (latest first last : ℤ)
    → Tagged handoff.stream_id backlog
    → Chain handoff.high_water backlog latest
    → Tagged handoff.stream_id handoff.pending
    → Chain first handoff.pending last
    → first ≤ℤ latest
    → Joins handoff.stream_id latest handoff.pending backlog (deliver handoff backlog).1
unfolding deliver accept_replay_backlog drain_replay_pending
deliver-Joins handoff backlog latest first last tagged chain tagged_pending parked low =
    let drained =
      accept_overlap_parts handoff.stream_id first last latest handoff.pending tagged_pending low
        parked in
    rw
      (
        sort-Chain handoff.high_water latest backlog chain,
        accept-Chain handoff.stream_id handoff.high_water latest backlog tagged chain,
        sort-Chain first last handoff.pending parked,
      )
      (record {
        skipped = drained.skipped;
        passed = drained.passed;
        parts = drained.parts;
        reached = drained.reached;
        joined = ap (λ rest. backlog ++ rest) drained.joined;
        tagged =
            All-append (λ event. event.stream_id ≡ handoff.stream_id) backlog _ tagged
              drained.tagged;
      })
