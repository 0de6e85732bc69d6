-- ===== src/Execution/Reading.antt =====
-- `replay`, `terminal`, `probe` and `cleanup` of durable-execution.ts.
pub mod Replay
use chemistry.Prelude.{
  ℕ, ◌-◌, ℤ, minus_one, String, Bool, true, false, ◌||◌, ◌&&◌, not, Option, none, some, List, [],
  ◌∷◌, map, ◌==◌, string_eq, nullable_eq, if◌then◌else◌, leb, ltb, ltb_ℤ, leb_ℤ, length, take,
  filter, find, any, last?,
}
use chemistry.Prelude.Text.{◌&◌, decimal_ℤ}
use chemistry.Protocol.{DurableStreamEvent, RuntimeSnapshot, TerminalStatus}
use chemistry.Runtime.State.{
  RuntimeState, RuntimeOperationRecord, RuntimeStreamRecord, RuntimeStreamStatus,
  find_runtime_operation, runtime_snapshot, stream_opened, stream_interrupted,
}
use chemistry.Runtime.Errors.{
  transition, cursor, Result, ok, ◌>>=◌, ◌>>◌, guard, or_fail, on_null, Mutation,
}
use chemistry.Execution.Helpers.{Environment, find_stream}
use chemistry.Execution.Settle.{RuntimeTerminal}

pub record RuntimeReplay : Type 0 where
  pub stream_id : String
  pub events : List DurableStreamEvent
  pub latest_sequence : ℤ
  pub status : RuntimeStreamStatus
  pub terminal_reason : Option String

pub record RuntimeProbe : Type 0 where
  pub stream_id : Option String
  pub latest_sequence : ℤ
  pub snapshot : RuntimeSnapshot

-- `stream.events.filter((event) => event.sequence > afterSequence)`
unfoldable pub events_after : ℤ → List DurableStreamEvent → List DurableStreamEvent
events_after after_sequence = filter (λ event. ltb_ℤ after_sequence event.sequence)

-- `replay`, on the record that `load` gives. A cursor is an integer here by its type.
unfoldable pub replay : RuntimeState → String → ℤ → Result RuntimeReplay
replay state stream_id after_sequence = do
  guard (leb_ℤ minus_one after_sequence)
      (transition "replay" "Replay cursor must be an integer at least -1")
  stream ←
      or_fail (find_stream state stream_id)
        (transition "replay" ("Stream " & stream_id & " is not retained"))
  guard (leb_ℤ after_sequence stream.latest_sequence) (
      cursor stream_id after_sequence stream.latest_sequence (
        "Replay cursor "
        & decimal_ℤ after_sequence
        & " exceeds durable sequence "
        & decimal_ℤ stream.latest_sequence))
  ok (record {
    stream_id = stream_id;
    events = events_after after_sequence stream.events;
    latest_sequence = stream.latest_sequence;
    status = stream.status;
    terminal_reason = stream.terminal_reason;
  })

abbrev terminal_status : RuntimeStreamStatus → Option TerminalStatus
terminal_status RuntimeStreamStatus.opened = none
terminal_status RuntimeStreamStatus.completed = some TerminalStatus.completed
terminal_status RuntimeStreamStatus.failed = some TerminalStatus.failed
terminal_status RuntimeStreamStatus.interrupted = some TerminalStatus.interrupted

unfoldable pub terminal : RuntimeState → String → Result (Option RuntimeTerminal)
terminal state stream_id = on_null (find_stream state stream_id) (ok none) λ stream.
    on_null (terminal_status stream.status) (ok none) λ status. do
      operation ←
          or_fail (find_runtime_operation state stream.operation_id)
            (transition "terminal" "Terminal operation record is missing")
      ok (
          some (record {
            stream_id = stream_id;
            operation_id = stream.operation_id;
            status = status;
            sequence = stream.latest_sequence;
            generation = operation.generation;
            attempt = operation.attempt;
            recovery_work = operation.recovery_work;
            reason = stream.terminal_reason;
            cleanup_at = stream.expires_at;
          }))

-- The first stream of the active operation.
abbrev active_stream : RuntimeState → Option String → Option RuntimeStreamRecord
active_stream state none = none
active_stream state (some id) = find (λ stream. stream.operation_id == id) state.streams

abbrev or_last : Option RuntimeStreamRecord → List RuntimeStreamRecord → Option RuntimeStreamRecord
or_last none streams = last? streams
or_last (some stream) streams = some stream

abbrev probe_of : RuntimeState → Option RuntimeStreamRecord → RuntimeProbe
probe_of state none = record {
  stream_id = none;
  latest_sequence = minus_one;
  snapshot = runtime_snapshot state;
}
probe_of state (some selected) = record {
  stream_id = some selected.stream_id;
  latest_sequence = selected.latest_sequence;
  snapshot = runtime_snapshot state;
}

unfoldable pub probe : RuntimeState → RuntimeProbe
probe state = probe_of state (or_last (active_stream state state.active_operation_id) state.streams)

-- `status === "open" || status === "interrupted"`
abbrev pub is_live : RuntimeStreamRecord → Bool
is_live stream = stream_opened stream.status || stream_interrupted stream.status

-- `streamId !== state.streams.find(…)?.streamId`
abbrev other_than : Option RuntimeStreamRecord → RuntimeStreamRecord → Bool
other_than none stream = true
other_than (some active) stream = not (stream.stream_id == active.stream_id)

-- `sort((left, right) => right.updatedAt - left.updatedAt)`, which is stable: latest first.
insert_latest : RuntimeStreamRecord → List RuntimeStreamRecord → List RuntimeStreamRecord
insert_latest stream [] = stream ∷ []
insert_latest stream (head ∷ rest) =
    if leb head.updated_at stream.updated_at
    then stream ∷ head ∷ rest
    else head ∷ insert_latest stream rest

latest_first : List RuntimeStreamRecord → List RuntimeStreamRecord
unfolding insert_latest
latest_first [] = []
latest_first (stream ∷ rest) = insert_latest stream (latest_first rest)

unfoldable pub retained_ids : Environment → RuntimeState → List String
unfolding latest_first
retained_ids env state =
    map (λ stream. stream.stream_id)
      (take env.limits.max_retained_streams (
        latest_first (
          filter
            (λ stream.
              other_than (active_stream state state.active_operation_id) stream
              && not (is_live stream))
            state.streams)))

abbrev unexpired : Option ℕ → ℕ → Bool
unexpired none now = true
unexpired (some expires) now = ltb now expires

abbrev pub holds : List String → String → Bool
holds ids id = any (λ other. other == id) ids

unfoldable pub next_streams : Environment → ℕ → RuntimeState → List RuntimeStreamRecord
next_streams env now state =
    let ids = retained_ids env state in
    filter
      (λ stream. is_live stream || holds ids stream.stream_id && unexpired stream.expires_at now)
      state.streams

-- The operations of the streams that go.
unfoldable pub removed_ids : List RuntimeStreamRecord → List RuntimeStreamRecord → List String
removed_ids streams kept =
    let kept_ids = map (λ stream. stream.stream_id) kept in
    map (λ stream. stream.operation_id)
      (filter (λ stream. not (holds kept_ids stream.stream_id)) streams)

unfoldable pub cleanup : Environment → ℕ → Mutation ℕ
cleanup env now state =
    let kept = next_streams env now state in
    let removed = removed_ids state.streams kept in
    ok (
      record state {
        streams = kept;
        operations =
            filter (λ operation. not (holds removed operation.operation_id)) state.operations;
      },
      length state.streams - length kept,
    )
