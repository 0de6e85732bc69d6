-- ===== src/Execution/Fencing/Writes.antt =====
-- Admission, claims and the writes of a running turn, from a record for which a token is stale.
use chemistry.Prelude.{ℕ, String, Option, refl, arith, inl, inr, All-append, string_eq}
use chemistry.Protocol.{AgentStreamEvent}
use chemistry.Runtime.State.{
  RuntimeState, RuntimeOperationRecord, RuntimePhase, RuntimeRequestSnapshot,
}
use chemistry.Runtime.Errors.{
  Ensures, returned, Ensures-or_fail, Ensures-guard, Ensures-return_if, Ensures-on_null,
  Ensures-bind,
}
use chemistry.Execution.Helpers.{Environment, TurnMode}
use chemistry.Execution.Lookup.{Upserts, upsert_phase_effect-Upserts}
use chemistry.Execution.Admission.{
  AdmitRequest, admit, enqueue, admitted_operation, claim, install_claim, claimed_operation,
}
use chemistry.Execution.Turn.{
  put_operation, persist_request_snapshot, mark_streaming, append, install_append,
  appended_operation,
}
use chemistry.Execution.Settle.{
  Outcome, settle, install_settle, begin_phase_effect, complete_phase_effect,
}
use chemistry.Execution.Fencing.{Lost, IsStale, Stale, found-Lost, replaced, upserted}

module _ (env : Environment) (token : RuntimeOperationRecord) (state : RuntimeState)
    (h : IsStale token state) where
  rewritten :
      {limit : ℕ} {operation : RuntimeOperationRecord} (updated : RuntimeOperationRecord)
      → Upserts limit operation updated
      → Lost token operation
      → IsStale token (put_operation state updated)
  rewritten updated u lost = record {
    issued = h.issued;
    lost = replaced token state h updated (upserted token state h u lost);
  }

  pub admit-Stale :
      (request : AdmitRequest) (now : ℕ) → Ensures (Stale token) (admit env request now state)
  unfolding admit enqueue admitted_operation
  admit-Stale request now =
      Ensures-on_null
        (λ new. Ensures-guard _ λ room. returned (record {
          issued = h.issued;
          lost = All-append _ state.operations _ h.lost ((λ _. inl refl), tt);
        }))
        (λ existing found. returned h)

  pub claim-Stale :
      (id : String) (mode : TurnMode) (now : ℕ)
      → Ensures (Stale token) (claim env id mode now state)
  unfolding claim install_claim claimed_operation
  claim-Stale id mode now = Ensures-or_fail _ λ operation found.
      Ensures-return_if _ (λ over. h)
        λ live. Ensures-guard _ λ free. Ensures-guard _ λ head. returned (record {
          issued = omega (arith, h.issued);
          lost = replaced token state h _ λ _. inr (omega (arith, h.issued));
        })

  pub snapshot-Stale :
      (operation : RuntimeOperationRecord) (snapshot : RuntimeRequestSnapshot) (now : ℕ)
      → Ensures (Stale token) (persist_request_snapshot env operation snapshot now state)
  unfolding persist_request_snapshot
  snapshot-Stale operation snapshot now = Ensures-or_fail _ λ current found. Ensures-guard _ λ held.
      Ensures-or_fail _ λ updated put. returned (
        rewritten updated (upsert_phase_effect-Upserts _ _ _ put)
          (found-Lost token state h _ found))

  pub mark_streaming-Stale :
      (operation : RuntimeOperationRecord) (now : ℕ)
      → Ensures (Stale token) (mark_streaming env operation now state)
  unfolding mark_streaming
  mark_streaming-Stale operation now = Ensures-or_fail _ λ current found. Ensures-guard _ λ held.
      Ensures-or_fail _ λ updated put. returned (
        rewritten updated (upsert_phase_effect-Upserts _ _ _ put)
          (found-Lost token state h _ found))

  pub begin-Stale :
      (operation : RuntimeOperationRecord) (phase : RuntimePhase) (key : String) (now : ℕ)
      → Ensures (Stale token) (begin_phase_effect env operation phase key now state)
  unfolding begin_phase_effect
  begin-Stale operation phase key now = Ensures-or_fail _ λ current found. Ensures-guard _ λ held.
      Ensures-return_if _ (λ done. h)
        λ open_yet. Ensures-or_fail _ λ updated put. returned (
          rewritten updated (upsert_phase_effect-Upserts _ _ _ put)
            (found-Lost token state h _ found))

  pub complete-Stale :
      (operation : RuntimeOperationRecord) (phase : RuntimePhase) (key : String) (now : ℕ)
      → Ensures (Stale token) (complete_phase_effect env operation phase key now state)
  unfolding complete_phase_effect
  complete-Stale operation phase key now = Ensures-or_fail _ λ current found.
      Ensures-guard _ λ held. Ensures-or_fail _ λ updated put. returned (
        rewritten updated (upsert_phase_effect-Upserts _ _ _ put)
          (found-Lost token state h _ found))

  pub append-Stale :
      (operation : RuntimeOperationRecord) (event : AgentStreamEvent) (now : ℕ)
      → Ensures (Stale token) (append env operation event now state)
  unfolding append install_append appended_operation
  append-Stale operation event now = Ensures-or_fail _ λ current found.
      Ensures-or_fail _ λ stream found_stream. Ensures-guard _ λ held. Ensures-bind λ unit room.
        returned (record {
          issued = h.issued;
          lost = replaced token state h _ (found-Lost token state h _ found);
        })

  pub settle-Stale :
      (operation : RuntimeOperationRecord) (outcome : Outcome) (reason : Option String) (now : ℕ)
      → Ensures (Stale token) (settle env operation outcome reason now state)
  unfolding settle install_settle
  settle-Stale operation outcome reason now = Ensures-or_fail _ λ current found.
      Ensures-or_fail _ λ stream found_stream.
        Ensures-return_if _ (λ over. h)
          λ live. Ensures-guard _ λ held. Ensures-or_fail _ λ partly put.
            Ensures-or_fail _ λ updated put_again. returned (record {
              issued = h.issued;
              lost = replaced token state h _ (
                  upserted token state h (upsert_phase_effect-Upserts _ _ _ put_again)
                    (upserted token state h (upsert_phase_effect-Upserts _ _ _ put) λ _. inl refl));
            })
