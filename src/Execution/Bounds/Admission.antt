-- ===== src/Execution/Bounds/Admission.antt =====
-- `admit`, `claim` and `settle` under the limits of the record.
use chemistry.Prelude.{
  ℕ, ◌+◌, ◌≤◌, Option, String, [], ◌∷◌, refl, arith, length-append, length-filter-le, All-append,
  ◌==◌, string_eq, not,
}
use chemistry.Runtime.State.{RuntimeState, RuntimeOperationRecord}
use chemistry.Runtime.Errors.{
  Ensures, returned, Ensures-or_fail, Ensures-guard, Ensures-return_if, Ensures-on_null,
}
use chemistry.Execution.Helpers.{Environment, TurnMode}
use chemistry.Execution.Lookup.{
  replace_operation-All, replace_stream-All, upsert_phase_effect-Upserts,
}
use chemistry.Execution.Streams.{StreamIsValid, restamped-IsValid, total_size}
use chemistry.Execution.Admission.{
  AdmitRequest, admit, enqueue, admitted_operation, admitted_stream, claim, install_claim,
  claimed_operation,
}
use chemistry.Execution.Settle.{Outcome, settle, install_settle}
use chemistry.Execution.Bounds.{Fits, InBounds, Bounded, Upserts-Fits, found_Fits, found-IsValid}

admitted_stream-IsValid :
    (env : Environment) (request : AdmitRequest) (now : ℕ)
    → StreamIsValid env (admitted_stream request now)
unfolding admitted_stream total_size
admitted_stream-IsValid env request now = record {
  chain = refl;
  tagged = tt;
  room = omega arith;
  counted = refl;
  bytes = omega arith;
}

module _ (env : Environment) (state : RuntimeState) (h : InBounds env state) where
  -- A new operation has two ledger entries.
  pub admit-InBounds :
      (request : AdmitRequest) (now : ℕ)
      → 2 ≤ env.limits.max_phase_effects
      → Ensures (Bounded env) (admit env request now state)
  unfolding admit enqueue admitted_operation
  admit-InBounds request now two =
      Ensures-on_null
        (λ new. Ensures-guard _ λ room. returned (record {
          operations = All-append _ state.operations _ h.operations ((omega arith, two), tt);
          streams =
              All-append _ state.streams _ h.streams (admitted_stream-IsValid env request now, tt);
          queue = ground (arith, room, length-append state.queue (request.operation_id ∷ []));
        }))
        (λ existing found. returned h)

  pub claim-InBounds :
      (operation_id : String) (mode : TurnMode) (now : ℕ)
      → Ensures (Bounded env) (claim env operation_id mode now state)
  unfolding claim install_claim claimed_operation
  claim-InBounds operation_id mode now = Ensures-or_fail _ λ operation found.
      Ensures-return_if _ (λ over. h)
        λ live. Ensures-guard _ λ free. Ensures-guard _ λ head. returned (record {
          operations =
              replace_operation-All (Fits env.limits state.generation)
                (Fits env.limits (state.generation + 1)) state _
                (omega arith, (found_Fits env state h _ found).1)
                (λ other _ p. (omega (arith, p.0), p.1)) h.operations;
          streams = h.streams;
          queue = omega (
            arith,
            h.queue,
            length-filter-le (λ queued_id. not (queued_id == operation_id)) state.queue,
          );
        })

  pub settle-InBounds :
      (operation : RuntimeOperationRecord) (outcome : Outcome) (reason : Option String) (now : ℕ)
      → Ensures (Bounded env) (settle env operation outcome reason now state)
  unfolding settle install_settle
  settle-InBounds operation outcome reason now = Ensures-or_fail _ λ current found.
      Ensures-or_fail _ λ stream found_stream.
        Ensures-return_if _ (λ over. h)
          λ live. Ensures-guard _ λ held. Ensures-or_fail _ λ partly put.
            Ensures-or_fail _ λ updated put_again. returned (record {
              operations =
                  replace_operation-All (Fits env.limits state.generation)
                    (Fits env.limits state.generation) state _
                    (Upserts-Fits env.limits state.generation
                      (upsert_phase_effect-Upserts _ _ _ put_again)
                      (Upserts-Fits env.limits state.generation
                        (upsert_phase_effect-Upserts _ _ _ put) (found_Fits env state h _ found)))
                    (λ other _ p. p) h.operations;
              streams =
                  replace_stream-All (StreamIsValid env) state _
                    (restamped-IsValid env stream _ _ _ _
                      (found-IsValid env state h _ found_stream))
                    h.streams;
              queue = h.queue;
            })
