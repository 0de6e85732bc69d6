-- ===== src/Execution/Running/Ready.antt =====
-- A turn that holds its lease, with room for what it is to store: its writes commit.
use chemistry.Prelude.{
  none, ℕ, ◌+◌, ℤ, pos, ◌+ℤ◌, ◌≤◌, ◌<◌, String, true, false, some, List, [], ◌∷◌, ◌≡◌, refl, arith,
  eq_iff, length, length-append, string_eq, nat_eq, ◌⊎◌,
}
use chemistry.Protocol.{
  RuntimeOperationStatus, RuntimeCheckpoint, AgentStreamEvent, DurableStreamEvent,
}
use chemistry.Runtime.State.{
  RuntimeState, RuntimeOperationRecord, RuntimeStreamRecord, find_runtime_operation,
}
use chemistry.Runtime.Errors.{ok, ◌>>=◌}
use chemistry.Execution.Helpers.{Environment, find_stream, owns_unexpired_lease}
use chemistry.Execution.Lookup.{operation_id-find, stream_id-find}
use chemistry.Execution.Turn.{
  holds_fence, append, append_capacity, next_event, install_append, appended_operation,
  appended_stream,
}
use chemistry.Execution.Settle.{is_settled}
use chemistry.Execution.Settle.Convergence.{find-put_operation, find-put_stream}

-- The durable events of a model's events, numbered after `latest`.
abbrev pub numbered :
    (stream_id operation_id : String) (latest : ℤ)
    → List (AgentStreamEvent × ℕ)
    → List DurableStreamEvent
numbered stream_id operation_id latest [] = []
numbered stream_id operation_id latest ((event, now) ∷ rest) =
    record {
      stream_id = stream_id;
      operation_id = operation_id;
      sequence = latest +ℤ pos 1;
      event = event;
      produced_at = now;
    }
    ∷ numbered stream_id operation_id (latest +ℤ pos 1) rest

-- Each event fits the limit of one event.
abbrev pub Fits : Environment → List DurableStreamEvent → Type 0
Fits env [] = Unit
Fits env (event ∷ rest) = (env.encoded_size event ≤ env.limits.max_event_bytes) × Fits env rest

abbrev pub bytes_of : Environment → List DurableStreamEvent → ℕ
bytes_of env [] = 0
bytes_of env (event ∷ rest) = env.encoded_size event + bytes_of env rest

-- The operation was not recovered, or its budget covers so many events.
abbrev pub Spare : Environment → RuntimeOperationRecord → ℕ → Type 0
Spare env operation events =
    (operation.attempt ≡ 0) ⊎ (operation.recovery_work + events ≤ env.limits.max_recovery_work)

-- The stored operation is owned as `token` says until `until`; its ledger has room for `effects`
-- entries, and its stream, whose last event is number `latest`, for the `pending` events.
pub record Ready (env : Environment) (token : RuntimeOperationRecord) (effects : ℕ) (latest : ℤ)
    (pending : List DurableStreamEvent) (until : ℕ) (s : RuntimeState) : Type 0 where
  pub current : RuntimeOperationRecord
  pub stream : RuntimeStreamRecord
  pub boot : String
  pub found : find_runtime_operation s token.operation_id ≡ some current
  pub on_stream : current.stream_id ≡ token.stream_id
  pub at : find_stream s token.stream_id ≡ some stream
  pub same_generation : current.generation ≡ token.generation
  pub owned : current.owner_boot_id ≡ some boot
  pub claimed : token.owner_boot_id ≡ some boot
  pub leased : current.lease_expires_at ≡ some until
  pub spare : Spare env current (length pending)
  pub live : is_settled current stream ≡ false
  pub ledger : length current.effect_ledger + effects ≤ env.limits.max_phase_effects
  pub last : stream.latest_sequence ≡ latest
  pub room : length stream.events + length pending ≤ env.limits.max_events_per_stream
  pub size : stream.encoded_bytes + bytes_of env pending ≤ env.limits.max_stream_bytes
  pub fits : Fits env pending

module _ (env : Environment) (token : RuntimeOperationRecord) {effects : ℕ} {latest : ℤ}
    {pending : List DurableStreamEvent} {until : ℕ} (s : RuntimeState)
    (h : Ready env token effects latest pending until s) (now : ℕ) (in_time : now < until) where
  pub fence_held : holds_fence h.current token now ≡ true
  unfolding holds_fence owns_unexpired_lease
  fence_held = ground (arith, h.same_generation, h.owned, h.claimed, h.leased, eq_iff h.boot h.boot)

-- Nothing is being recovered, and the operation never was; its recovered work is `work`.
abbrev pub Unbroken : ℕ → RuntimeState → RuntimeOperationRecord → Type 0
Unbroken work s current =
    (s.recovery ≡ none) × (current.attempt ≡ 0) × (current.recovery_work ≡ work)

abbrev pub IsStreaming : RuntimeOperationRecord → Type 0
IsStreaming current =
    (current.status ≡ RuntimeOperationStatus.running)
    × (current.checkpoint ≡ RuntimeCheckpoint.streaming)

-- What an append commits.
pub record Appends (env : Environment) (id stream_id : String) (token : RuntimeOperationRecord)
    (event : AgentStreamEvent) (effects : ℕ) (latest : ℤ) (rest : List (AgentStreamEvent × ℕ))
    (now : ℕ) (s : RuntimeState) (current : RuntimeOperationRecord) : Type 0 where
  pub after : RuntimeState
  pub stored : DurableStreamEvent
  pub commits : append env token event now s ≡ ok (after, stored)
  pub is_next : stored ∷ [] ≡ numbered stream_id id latest ((event, now) ∷ [])
  pub ready :
      Ready env token effects
        (latest +ℤ pos 1)
        (numbered stream_id id (latest +ℤ pos 1) rest)
        (now + env.limits.lease_duration_ms)
        after
  pub unbroken : (work : ℕ) → Unbroken work s current → Unbroken work after ready.current
  pub streaming : IsStreaming ready.current

module _ (env : Environment) (id stream_id : String) (token : RuntimeOperationRecord)
    (own : token.operation_id ≡ id) (on_stream : token.stream_id ≡ stream_id) {effects : ℕ}
    {latest : ℤ} {until : ℕ} (event : AgentStreamEvent) (now : ℕ)
    (rest : List (AgentStreamEvent × ℕ)) (s : RuntimeState)
    (h : Ready env token effects latest
      (numbered stream_id id latest ((event, now) ∷ rest))
      until
      s)
    (in_time : now < until) where
  abbrev stored : DurableStreamEvent
  stored = record {
    stream_id = stream_id;
    operation_id = id;
    sequence = latest +ℤ pos 1;
    event = event;
    produced_at = now;
  }

  is_stored : next_event h.stream token event now ≡ stored
  unfolding next_event
  is_stored = ground (arith, stream_id-find s token.stream_id h.stream h.at, h.last, own, on_stream)

  capacity_left : append_capacity env h.current h.stream stored ≡ ok tt
  unfolding append_capacity ◌>>=◌
  capacity_left = ground (arith, h.spare, h.room, h.size, h.fits)

  append_commits :
      append env token event now s ≡ ok (install_append env s h.current h.stream stored now, stored)
  unfolding append ◌>>=◌
  append_commits =
      rw (h.found, h.at, fence_held env token s h now in_time, is_stored, capacity_left) refl

  pub append-Appends : Appends env id stream_id token event effects latest rest now s h.current
  unfolding install_append appended_operation appended_stream
  append-Appends = record {
    after = install_append env s h.current h.stream stored now;
    stored = stored;
    commits = append_commits;
    is_next = refl;
    ready = record {
      current = appended_operation env h.current now;
      stream = appended_stream env h.stream stored now;
      boot = h.boot;
      found =
          find-put_operation s _ token.operation_id h.current (appended_operation env h.current now)
            refl (operation_id-find s token.operation_id h.current h.found) h.found;
      at =
          find-put_stream s _ token.stream_id h.stream _ refl
            (stream_id-find s token.stream_id h.stream h.at) h.at;
      on_stream = h.on_stream;
      same_generation = h.same_generation;
      owned = h.owned;
      claimed = h.claimed;
      leased = refl;
      spare = ground (arith, h.spare);
      live = refl;
      ledger = h.ledger;
      last = refl;
      room = omega (arith, h.room, length-append h.stream.events (stored ∷ []));
      size = omega (arith, h.size);
      fits = h.fits.1;
    };
    unbroken = λ work clear. ground (arith, clear.0, clear.1, clear.2);
    streaming = (refl, refl);
  }
