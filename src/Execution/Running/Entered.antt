-- ===== src/Execution/Running/Entered.antt =====
-- The writes of a turn that enter its ledger, and commit while it holds its lease.
use chemistry.Prelude.{
  ℕ, suc, sym, ◌∙◌, ◌+◌, ℤ, ◌≤◌, ◌<◌, String, false, some, List, [], ◌∷◌, ◌++◌, ◌≡◌, refl, arith,
  length, length-append, string_eq, nat_eq, map, ◌==◌, if◌then◌else◌, find_index, Option-cases, inl,
  inr,
}
use chemistry.Protocol.{DurableStreamEvent, RuntimeOperationStatus, RuntimeCheckpoint}
use chemistry.Runtime.State.{
  RuntimeState, RuntimeOperationRecord, RuntimePhase, PhaseStatus, RuntimePhaseEffect,
  RuntimeRequestSnapshot,
}
use chemistry.Runtime.Errors.{Result, ok, ◌>>=◌}
use chemistry.Execution.Helpers.{Environment, find_stream, upsert_phase_effect}
use chemistry.Execution.Lookup.{operation_id-find, length-map}
use chemistry.Execution.Turn.{persist_request_snapshot, mark_streaming, phase_entry, put_operation}
use chemistry.Execution.Settle.{is_settled}
use chemistry.Execution.Settle.Convergence.{find-put_operation}
use chemistry.Execution.Running.Ready.{Unbroken, IsStreaming, Ready, Spare, fence_held}

-- An entry finds room in the ledger.
pub record Enters (operation : RuntimeOperationRecord) (entry : RuntimePhaseEffect) (limit : ℕ)
    : Type 0 where
  pub ledger : List RuntimePhaseEffect
  pub put :
      upsert_phase_effect operation entry limit ≡ some (record operation { effect_ledger = ledger })
  pub grows : length ledger ≤ length operation.effect_ledger + 1

pub upsert_phase_effect-Enters :
    (operation : RuntimeOperationRecord) (entry : RuntimePhaseEffect) (limit : ℕ)
    → length operation.effect_ledger < limit
    → Enters operation entry limit
unfolding upsert_phase_effect
upsert_phase_effect-Enters operation entry limit room =
    let overwrite : RuntimePhaseEffect → RuntimePhaseEffect =
      λ candidate. if candidate.effect_key == entry.effect_key then entry else candidate in
    elim (Option-cases (
      find_index (λ candidate. candidate.effect_key == entry.effect_key) operation.effect_ledger)) [
        | inl new ↦ record {
          ledger = operation.effect_ledger ++ entry ∷ [];
          put = ground (arith, new, room);
          grows = omega (arith, length-append operation.effect_ledger (entry ∷ []));
        }
        | inr (index, found) ↦ record {
          ledger = map overwrite operation.effect_ledger;
          put = ground (arith, found);
          grows = omega (arith, length-map overwrite operation.effect_ledger);
        }
      ]

module _ (env : Environment) (token : RuntimeOperationRecord) {effects : ℕ} {latest : ℤ}
    {pending : List DurableStreamEvent} {until : ℕ} (s : RuntimeState)
    (h : Ready env token (suc effects) latest pending until s) where
  -- A place in the ledger that stays free.
  pub fewer : Ready env token effects latest pending until s
  fewer = record {
    current = h.current;
    stream = h.stream;
    boot = h.boot;
    found = h.found;
    on_stream = h.on_stream;
    at = h.at;
    same_generation = h.same_generation;
    owned = h.owned;
    claimed = h.claimed;
    leased = h.leased;
    spare = h.spare;
    live = h.live;
    last = h.last;
    room = h.room;
    size = h.size;
    fits = h.fits;
    ledger = omega (arith, h.ledger);
  }

-- A write that entered the ledger returned the operation that it stored, of which `P` holds.
pub record Moves (env : Environment) (P : RuntimeOperationRecord → Type 0) (id stream_id : String)
    (effects : ℕ) (latest : ℤ) (pending : List DurableStreamEvent) (until : ℕ) (s : RuntimeState)
    (current : RuntimeOperationRecord) (result : Result (RuntimeState × RuntimeOperationRecord))
    : Type 0 where
  pub after : RuntimeState
  pub next : RuntimeOperationRecord
  pub commits : result ≡ ok (after, next)
  pub own_id : next.operation_id ≡ id
  pub own_stream : next.stream_id ≡ stream_id
  pub ready : Ready env next effects latest pending until after
  pub stored : ready.current ≡ next
  pub unbroken : (work : ℕ) → Unbroken work s current → Unbroken work after next
  pub holds : P next

-- An operation that was put into the record.
pub record Puts (env : Environment) (next stored : RuntimeOperationRecord) (effects : ℕ)
    (latest : ℤ) (pending : List DurableStreamEvent) (until : ℕ) (s : RuntimeState) : Type 0 where
  pub ready : Ready env next effects latest pending until s
  pub same : ready.current ≡ stored

module _ (env : Environment) (token : RuntimeOperationRecord) {effects : ℕ} {latest : ℤ}
    {pending : List DurableStreamEvent} {until : ℕ} (s : RuntimeState)
    (h : Ready env token (suc effects) latest pending until s) (now : ℕ)
    (in_time : now < until) where
  -- The operation is replaced by `base` with this ledger, and `next` is what its owner holds.
  pub put_operation-Puts :
      (next base : RuntimeOperationRecord) {later : ℕ} (ledger : List RuntimePhaseEffect)
      → (next.operation_id ≡ token.operation_id) × (next.stream_id ≡ token.stream_id)
      → (base.operation_id ≡ token.operation_id) × (base.stream_id ≡ token.stream_id)
      → base.generation ≡ next.generation
      → (base.owner_boot_id ≡ some h.boot) × (next.owner_boot_id ≡ some h.boot)
      → Spare env base (length pending)
      → base.lease_expires_at ≡ some later
      → is_settled base h.stream ≡ false
      → length ledger ≤ length h.current.effect_ledger + 1
      → Puts env next
          (record base { effect_ledger = ledger })
          effects
          latest
          pending
          later
          (put_operation s (record base { effect_ledger = ledger }))
  unfolding find_stream
  put_operation-Puts next base ledger same own same_generation owned spare leased live grows =
      record {
        ready = record {
          current = record base { effect_ledger = ledger };
          stream = h.stream;
          boot = h.boot;
          found =
              find-put_operation s _ next.operation_id h.current _ refl (own.0 ∙ sym same.0)
                (rw same.0 h.found);
          on_stream = own.1 ∙ sym same.1;
          at = rw same.1 h.at;
          same_generation = same_generation;
          owned = owned.0;
          claimed = owned.1;
          leased = leased;
          spare = spare;
          live = live;
          ledger = omega (arith, grows, h.ledger);
          last = h.last;
          room = h.room;
          size = h.size;
          fits = h.fits;
        };
        same = refl;
      }

  pub room_left : length h.current.effect_ledger < env.limits.max_phase_effects
  room_left = omega (arith, h.ledger)

  pub own_id : h.current.operation_id ≡ token.operation_id
  own_id = operation_id-find s token.operation_id h.current h.found

  pub persist_request_snapshot-Moves :
      (captured : RuntimeRequestSnapshot)
      → Moves env
          (λ next. Unit)
          token.operation_id
          token.stream_id
          effects
          latest
          pending
          until
          s
          h.current
          (persist_request_snapshot env token captured now s)
  unfolding persist_request_snapshot ◌>>=◌
  persist_request_snapshot-Moves captured =
      let base : RuntimeOperationRecord = record h.current {
        request_snapshot = captured;
        checkpoint = RuntimeCheckpoint.preparing;
        updated_at = now;
      } in
      let entered =
        upsert_phase_effect-Enters base
          (phase_entry h.current RuntimePhase.request_snapshot PhaseStatus.completed now)
          env.limits.max_phase_effects room_left in
      let put =
        put_operation-Puts (record base { effect_ledger = entered.ledger }) base entered.ledger
          (own_id, h.on_stream) (own_id, h.on_stream) refl (h.owned, h.owned) h.spare h.leased
          h.live entered.grows in
      record {
        after = put_operation s (record base { effect_ledger = entered.ledger });
        next = record base { effect_ledger = entered.ledger };
        commits = rw (h.found, fence_held env token s h now in_time, entered.put) refl;
        own_id = own_id;
        own_stream = h.on_stream;
        ready = put.ready;
        stored = put.same;
        unbroken = λ work clear. clear;
        holds = tt;
      }

  pub mark_streaming-Moves :
      Moves env IsStreaming token.operation_id token.stream_id effects latest pending
        (now + env.limits.lease_duration_ms)
        s
        h.current
        (mark_streaming env token now s)
  unfolding mark_streaming ◌>>=◌
  mark_streaming-Moves =
      let base : RuntimeOperationRecord = record h.current {
        status = RuntimeOperationStatus.running;
        checkpoint = RuntimeCheckpoint.streaming;
        updated_at = now;
        lease_expires_at = some (now + env.limits.lease_duration_ms);
      } in
      let entered =
        upsert_phase_effect-Enters base
          (phase_entry h.current RuntimePhase.inference PhaseStatus.pending now)
          env.limits.max_phase_effects room_left in
      let put =
        put_operation-Puts (record base { effect_ledger = entered.ledger }) base entered.ledger
          (own_id, h.on_stream) (own_id, h.on_stream) refl (h.owned, h.owned) h.spare refl
          (ground (arith, h.live)) entered.grows in
      record {
        after = put_operation s (record base { effect_ledger = entered.ledger });
        next = record base { effect_ledger = entered.ledger };
        commits = rw (h.found, fence_held env token s h now in_time, entered.put) refl;
        own_id = own_id;
        own_stream = h.on_stream;
        ready = put.ready;
        stored = put.same;
        unbroken = λ work clear. clear;
        holds = (refl, refl);
      }
