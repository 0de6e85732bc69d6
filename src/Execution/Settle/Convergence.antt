-- ===== src/Execution/Settle/Convergence.antt =====
-- `settle` after `settle`.
use chemistry.Prelude.{
  ℕ, String, true, Option, some, List, [], ◌∷◌, map, ◌≡◌, refl, arith, eq_iff, ap, ◌==◌, string_eq,
  if◌then◌else◌, find, ◌∙◌,
}
use chemistry.Runtime.State.{
  RuntimeState, RuntimeOperationRecord, RuntimeStreamRecord, find_runtime_operation,
}
use chemistry.Runtime.Errors.{
  ok, ◌>>=◌, Ensures, Ensures-returns, returned, Ensures-or_fail, Ensures-guard, Ensures-return_if,
}
use chemistry.Execution.Helpers.{Environment, find_stream, replace_operation, replace_stream}
use chemistry.Execution.Lookup.{operation_id-find, stream_id-find, upsert_phase_effect-Upserts}
use chemistry.Execution.Settle.{
  RuntimeTerminal, Outcome, settle, install_settle, is_settled, settled_terminal,
}

module _ {ℓ} {A : Type ℓ} (key : A → String) (new : A) where
  -- After a replacement the key of `new` finds `new`, if it was there.
  find-replace :
      (id : String) (items : List A) (old : A)
      → key new ≡ id
      → find (λ item. key item == id) items ≡ some old
      → find
          (λ item. key item == id)
          (map (λ item. if key item == key new then new else item) items)
        ≡ some new
  find-replace id [] old same e = ground (arith, e)
  find-replace id (x ∷ xs) old same e = ground (
    arith,
    eq_iff (key x) id,
    eq_iff (key x) (key new),
    eq_iff (key new) id,
    find-replace id xs old same,
  )

-- The record after a settlement holds the operation and its stream, settled.
pub record Settled (operation : RuntimeOperationRecord) (t : RuntimeState)
    (terminal : RuntimeTerminal) : Type 0 where
  pub current : RuntimeOperationRecord
  pub stream : RuntimeStreamRecord
  pub found : find_runtime_operation t operation.operation_id ≡ some current
  pub found_stream : find_stream t operation.stream_id ≡ some stream
  pub over : is_settled current stream ≡ true
  pub answer : settled_terminal current stream ≡ terminal

pub find-put_operation :
    (state t : RuntimeState) (id : String) (current updated : RuntimeOperationRecord)
    → t.operations ≡ replace_operation state updated
    → updated.operation_id ≡ id
    → find_runtime_operation state id ≡ some current
    → find_runtime_operation t id ≡ some updated
unfolding find_runtime_operation replace_operation
find-put_operation state t id current updated e same found =
    ap (find (λ o. o.operation_id == id)) e
    ∙ find-replace (λ o. o.operation_id) updated id state.operations current same found

find-replace_other {ℓ} :
    {A : Type ℓ} (key : A → String) (new : A) (id : String) (items : List A)
    → ¬ (key new ≡ id)
    → find (λ item. key item == id) (map (λ item. if key item == key new then new else item) items)
      ≡ find (λ item. key item == id) items
find-replace_other key new id [] apart = refl
find-replace_other key new id (x ∷ xs) apart = ground (
  arith,
  apart,
  eq_iff (key x) id,
  eq_iff (key x) (key new),
  eq_iff (key new) id,
  find-replace_other key new id xs apart,
)

pub find-put_other :
    (state t : RuntimeState) (id : String) (updated : RuntimeOperationRecord)
    → t.operations ≡ replace_operation state updated
    → ¬ (updated.operation_id ≡ id)
    → find_runtime_operation t id ≡ find_runtime_operation state id
unfolding find_runtime_operation replace_operation
find-put_other state t id updated e apart =
    ap (find (λ o. o.operation_id == id)) e
    ∙ find-replace_other (λ o. o.operation_id) updated id state.operations apart

pub find-put_stream :
    (state t : RuntimeState) (id : String) (stream updated : RuntimeStreamRecord)
    → t.streams ≡ replace_stream state updated
    → updated.stream_id ≡ id
    → find_stream state id ≡ some stream
    → find_stream t id ≡ some updated
unfolding find_stream replace_stream
find-put_stream state t id stream updated e same found =
    ap (find (λ s. s.stream_id == id)) e
    ∙ find-replace (λ s. s.stream_id) updated id state.streams stream same found

settle-Settled :
    (env : Environment) (s : RuntimeState) (operation : RuntimeOperationRecord) (outcome : Outcome)
    (reason : Option String) (now : ℕ)
    → Ensures (λ pair. Settled operation pair.0 pair.1) (settle env operation outcome reason now s)
unfolding settle install_settle
settle-Settled env s operation outcome reason now = Ensures-or_fail _ λ current found.
    Ensures-or_fail _ λ stream found_stream.
      Ensures-return_if _
        (λ over. record {
          current = current;
          stream = stream;
          found = found;
          found_stream = found_stream;
          over = over;
          answer = refl;
        })
        λ live. Ensures-guard _ λ held. Ensures-or_fail _ λ partly put.
          Ensures-or_fail _ λ updated put_again.
            let first = (upsert_phase_effect-Upserts _ _ _ put).only in
            let second = (upsert_phase_effect-Upserts _ _ _ put_again).only in
            returned (record {
              current = updated;
              stream = _;
              found =
                  find-put_operation s _ operation.operation_id current updated refl
                    (ap (λ o. o.operation_id) second
                      ∙ ap (λ o. o.operation_id) first
                      ∙ operation_id-find s operation.operation_id current found)
                    found;
              found_stream =
                  find-put_stream s _ operation.stream_id stream _ refl
                    (stream_id-find s operation.stream_id stream found_stream) found_stream;
              over = ground (arith, first, second);
              answer = ground (arith, first, second);
            })

-- A turn settles once: after a settlement, every further one of the same operation, with whatever
-- outcome, reason and time, changes nothing and returns the terminal that the first one returned.
pub settle-settle :
    (env : Environment) (s t : RuntimeState) (operation : RuntimeOperationRecord)
    (outcome again : Outcome) (reason other : Option String) (now later : ℕ)
    (terminal : RuntimeTerminal)
    → settle env operation outcome reason now s ≡ ok (t, terminal)
    → settle env operation again other later t ≡ ok (t, terminal)
unfolding settle ◌>>=◌
settle-settle env s t operation outcome again reason other now later terminal done =
    let h =
      Ensures-returns {P = λ pair. Settled operation pair.0 pair.1}
        (settle-Settled env s operation outcome reason now) done in
    rw (h.found, h.found_stream, h.over, h.answer)
