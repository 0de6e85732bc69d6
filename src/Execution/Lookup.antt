-- ===== src/Execution/Lookup.antt =====
-- Facts about the record's two tables: what a lookup finds, what a replacement keeps, and what
-- `upsertPhaseEffect` changes.
use chemistry.Prelude.{
  ℕ, ◌≤◌, String, false, some, List, [], ◌∷◌, map, ◌≡◌, refl, arith, eq_iff, ◌==◌, string_eq,
  if◌then◌else◌, length, All, find-All, find-passes, length-append, Bool-cases, inl, inr,
}
use chemistry.Runtime.State.{
  RuntimeState, RuntimeOperationRecord, RuntimeStreamRecord, RuntimePhaseEffect,
  find_runtime_operation,
}
use chemistry.Execution.Helpers.{
  replace_operation, replace_stream, find_stream, upsert_phase_effect,
}

module _ {ℓ κ} {A : Type ℓ} (P Q : A → Type κ) (key : A → String) (new : A) (holds : Q new) where
  -- Every item under the key of `new` gives way to it.
  All-replace :
      (items : List A)
      → ((other : A) → ((key other == key new) ≡ false) → P other → Q other)
      → All P items
      → All Q (map (λ item. if key item == key new then new else item) items)
  All-replace [] keep h = tt
  All-replace (x ∷ xs) keep h = elim (Bool-cases (key x == key new)) [
    | inl hit ↦ rw hit (holds, All-replace xs keep h.1)
    | inr miss ↦ rw miss (keep x miss h.0, All-replace xs keep h.1)
  ]

module _ {κ} (P Q : RuntimeOperationRecord → Type κ) (state : RuntimeState) where
  pub replace_operation-All :
      (operation : RuntimeOperationRecord)
      → Q operation
      → ((other : RuntimeOperationRecord)
          → ((other.operation_id == operation.operation_id) ≡ false)
          → P other
          → Q other)
      → All P state.operations
      → All Q (replace_operation state operation)
  unfolding replace_operation
  replace_operation-All operation holds keep h =
      All-replace P Q (λ o. o.operation_id) operation holds state.operations keep h

module _ {κ} (P : RuntimeOperationRecord → Type κ) (state : RuntimeState) where
  pub find_runtime_operation-All :
      (id : String) {operation : RuntimeOperationRecord}
      → All P state.operations
      → find_runtime_operation state id ≡ some operation
      → P operation
  unfolding find_runtime_operation
  find_runtime_operation-All id {operation} h e =
      find-All P (λ o. o.operation_id == id) state.operations operation h e

module _ {κ} (P : RuntimeStreamRecord → Type κ) (state : RuntimeState) where
  pub replace_stream-All :
      (stream : RuntimeStreamRecord)
      → P stream
      → All P state.streams
      → All P (replace_stream state stream)
  unfolding replace_stream
  replace_stream-All stream holds h =
      All-replace P P (λ s. s.stream_id) stream holds state.streams (λ other _ p. p) h

  pub find_stream-All :
      (id : String) {stream : RuntimeStreamRecord}
      → All P state.streams
      → find_stream state id ≡ some stream
      → P stream
  unfolding find_stream
  find_stream-All id {stream} h e = find-All P (λ s. s.stream_id == id) state.streams stream h e

pub operation_id-find :
    (state : RuntimeState) (id : String) (operation : RuntimeOperationRecord)
    → find_runtime_operation state id ≡ some operation
    → operation.operation_id ≡ id
unfolding find_runtime_operation
operation_id-find state id operation e =
    (eq_iff operation.operation_id id).0
      (find-passes (λ o. o.operation_id == id) state.operations operation e)

pub stream_id-find :
    (state : RuntimeState) (id : String) (stream : RuntimeStreamRecord)
    → find_stream state id ≡ some stream
    → stream.stream_id ≡ id
unfolding find_stream
stream_id-find state id stream e =
    (eq_iff stream.stream_id id).0 (find-passes (λ s. s.stream_id == id) state.streams stream e)

pub length-map {ℓ κ} :
    {A : Type ℓ} {B : Type κ} (f : A → B) (xs : List A) → length (map f xs) ≡ length xs
length-map f [] = refl
length-map f (x ∷ xs) = omega (arith, length-map f xs)

-- `upsertPhaseEffect` changes the ledger alone, and keeps it within the limit.
pub record Upserts (limit : ℕ) (operation updated : RuntimeOperationRecord) : Type 0 where
  pub ledger : List RuntimePhaseEffect
  pub only : updated ≡ record operation { effect_ledger = ledger }
  pub within : length operation.effect_ledger ≤ limit → length ledger ≤ limit

pub upsert_phase_effect-Upserts :
    (operation : RuntimeOperationRecord) (entry : RuntimePhaseEffect) (limit : ℕ)
    {updated : RuntimeOperationRecord}
    → upsert_phase_effect operation entry limit ≡ some updated
    → Upserts limit operation updated
unfolding upsert_phase_effect
upsert_phase_effect-Upserts operation entry limit {updated} e = record {
  ledger = updated.effect_ledger;
  only = ground (arith, e);
  within = ground (
    arith,
    e,
    length-append operation.effect_ledger (entry ∷ []),
    length-map (λ candidate. if candidate.effect_key == entry.effect_key then entry else candidate)
        operation.effect_ledger,
  );
}
