-- ===== src/Execution/Fencing/Kept.antt =====
-- Every transition of the runtime from a record for which a token is stale.
use chemistry.Prelude.{string_eq}
use chemistry.Runtime.State.{RuntimeState, RuntimeOperationRecord}
use chemistry.Execution.Helpers.{Environment}
use chemistry.Execution.Steps.{
  Step, Reach, here, next, Ensures-Commits, at_boot, admits, claims, snapshots, streams, appends,
  settles, begins, completes, schedules, reconciles, prepares, wakes, cleans,
}
use chemistry.Execution.Fencing.{IsStale}
use chemistry.Execution.Fencing.Writes.{
  admit-Stale, claim-Stale, snapshot-Stale, mark_streaming-Stale, begin-Stale, complete-Stale,
  append-Stale, settle-Stale,
}
use chemistry.Execution.Fencing.Recoveries.{
  schedule-Stale, reconcile-Stale, prepare-Stale, wake-Stale, cleanup-Stale,
}

module _ (env : Environment) (token : RuntimeOperationRecord) where
  pub Step-Stale : {s t : RuntimeState} → IsStale token s → Step env s t → IsStale token t
  Step-Stale {s} h (admits request now fresh c) =
      Ensures-Commits (IsStale token) (admit-Stale env token s h request now) c
  Step-Stale {s} h (claims boot id mode now c) =
      Ensures-Commits (IsStale token) (claim-Stale (at_boot env boot) token s h id mode now) c
  Step-Stale {s} h (snapshots operation snapshot now c) =
      Ensures-Commits (IsStale token) (snapshot-Stale env token s h operation snapshot now) c
  Step-Stale {s} h (streams operation now c) =
      Ensures-Commits (IsStale token) (mark_streaming-Stale env token s h operation now) c
  Step-Stale {s} h (appends operation event now c) =
      Ensures-Commits (IsStale token) (append-Stale env token s h operation event now) c
  Step-Stale {s} h (settles operation outcome reason now c) =
      Ensures-Commits (IsStale token) (settle-Stale env token s h operation outcome reason now) c
  Step-Stale {s} h (begins operation phase key now c) =
      Ensures-Commits (IsStale token) (begin-Stale env token s h operation phase key now) c
  Step-Stale {s} h (completes operation phase key now c) =
      Ensures-Commits (IsStale token) (complete-Stale env token s h operation phase key now) c
  Step-Stale {s} h (schedules operation error partial incident_id now c) =
      Ensures-Commits (IsStale token)
        (schedule-Stale env token s h operation error partial incident_id now) c
  Step-Stale {s} h (reconciles operation now c) =
      Ensures-Commits (IsStale token) (reconcile-Stale env token s h operation now) c
  Step-Stale {s} h (prepares boot now c) =
      Ensures-Commits (IsStale token) (prepare-Stale (at_boot env boot) token s h now) c
  Step-Stale {s} h (wakes boot incident_id now c) =
      Ensures-Commits (IsStale token) (wake-Stale (at_boot env boot) token s h incident_id now) c
  Step-Stale {s} h (cleans now c) =
      Ensures-Commits (IsStale token) (cleanup-Stale env token s h now) c

  pub Reach-Stale : {s t : RuntimeState} → IsStale token s → Reach env s t → IsStale token t
  Reach-Stale h here = h
  Reach-Stale h (next r step) = Step-Stale (Reach-Stale h r) step
