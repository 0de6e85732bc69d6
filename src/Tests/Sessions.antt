-- ===== src/Tests/Sessions.antt =====
-- The life of a session up to the loss of its owner.
use chemistry.Prelude.{
  ◌≤◌, pos, ◌+ℤ◌, false, none, some, ◌≡◌, refl, arith, if◌then◌else◌, get_or_else,
}
use chemistry.Prelude.Text.{decimal}
use chemistry.Protocol.{TerminalStatus, AgentStreamEvent}
use chemistry.Runtime.State.{
  RuntimeState, RuntimePhase, initial_runtime_state, find_runtime_operation,
}
use chemistry.Runtime.Errors.{ok, err, ◌>>=◌, transact}
use chemistry.Execution.Helpers.{
  fresh, continuing, replace_operation, replace_stream, find_stream, phase_effect_key,
  owns_unexpired_lease, upsert_phase_effect,
}
use chemistry.Execution.Admission.{
  claimed, admit, claim, enqueue, admitted_operation, admitted_stream, find_submission,
  new_admission, install_claim, claimed_operation,
}
use chemistry.Execution.Admission.Idempotence.{duplicate_of, admit-admit, Claims, claim-Claims}
use chemistry.Execution.Turn.{
  holds_fence, mark_streaming, append, append_capacity, next_event, install_append,
  appended_operation, appended_stream, fence_error,
}
use chemistry.Execution.Settle.{
  RuntimeTerminal, Outcome, settle, install_settle, begin_phase_effect, complete_phase_effect,
}
use chemistry.Execution.Settle.Convergence.{settle-settle}
use chemistry.Execution.Settle.Effects.{begin_phase_effect-complete_phase_effect}
use chemistry.Execution.Bounds.{InBounds}
use chemistry.Execution.Steps.{Step, Reach, commits, Reach-InBounds}
use chemistry.Execution.Fencing.Rejected.{FencedOff, claim-FencedOff}
use chemistry.Tests.Data.{
  first_boot, second_boot, request, empty_state, queued_operation, queued_state, running_operation,
  running_state, streaming_operation, streaming_state, retaken_operation, retaken_state,
}

pub admit_run :
    admit first_boot request 1_000 empty_state
    ≡ ok (queued_state, new_admission empty_state request 1_000)
unfolding admit find_submission ◌>>=◌ initial_runtime_state
admit_run = refl

claim_run :
    claim first_boot "op-1" fresh 1_100 queued_state ≡ ok (running_state, claimed running_operation)
unfolding claim ◌>>=◌ initial_runtime_state find_runtime_operation enqueue admitted_operation
claim_run = refl

retake_run :
    claim second_boot "op-1" continuing 2_000 streaming_state
    ≡ ok (retaken_state, claimed retaken_operation)
unfolding claim ◌>>=◌ initial_runtime_state find_runtime_operation enqueue admitted_operation
    install_claim claimed_operation install_append appended_operation replace_operation
retake_run = refl

-- The second boot's turn goes on after the claim.
retaken_history :
    Reach second_boot retaken_state
      (transact (mark_streaming second_boot retaken_operation 2_100) retaken_state).1
unfolding transact mark_streaming ◌>>=◌ initial_runtime_state find_runtime_operation enqueue
    admitted_operation install_claim claimed_operation install_append appended_operation
    replace_operation holds_fence owns_unexpired_lease upsert_phase_effect phase_effect_key decimal
retaken_history = Reach.next Reach.here (Step.streams retaken_operation 2_100 (commits refl))

empty_InBounds : InBounds first_boot empty_state
unfolding initial_runtime_state
empty_InBounds = record { operations = tt; streams = tt; queue = omega arith }

streaming_history : Reach first_boot empty_state streaming_state
unfolding admit find_submission claim append ◌>>=◌ initial_runtime_state find_runtime_operation
    find_stream enqueue admitted_operation admitted_stream install_claim claimed_operation
    install_append appended_operation appended_stream replace_operation replace_stream holds_fence
    owns_unexpired_lease append_capacity next_event ◌+ℤ◌
streaming_history =
    Reach.next
      (Reach.next (Reach.next Reach.here (Step.admits request 1_000 refl (commits refl)))
        (Step.claims "boot-1" "op-1" fresh 1_100 (commits refl)))
      (Step.appends running_operation (AgentStreamEvent.text_delta "It") 1_200 (commits refl))

Reach-InBounds_example : InBounds first_boot streaming_state
Reach-InBounds_example = Reach-InBounds first_boot (omega arith) empty_InBounds streaming_history

running_issued : running_operation.generation ≤ streaming_state.generation
unfolding install_append install_claim claimed_operation enqueue initial_runtime_state
running_issued = omega arith

claim-FencedOff_example :
    FencedOff second_boot running_operation
      (transact (mark_streaming second_boot retaken_operation 2_100) retaken_state).1
unfolding claimed_operation admitted_operation
claim-FencedOff_example =
    claim-FencedOff second_boot running_operation streaming_state retaken_state _ 2_000
      running_issued retaken_history continuing retaken_operation retake_run

admit-admit_example :
    admit first_boot (record request { operation_id = "op-2" }) 5_000 queued_state
    ≡ ok (queued_state, duplicate_of queued_state queued_operation)
admit-admit_example =
    admit-admit first_boot empty_state queued_state request
      (record request { operation_id = "op-2" }) 1_000 5_000
      (new_admission empty_state request 1_000) refl admit_run

claim-Claims_example :
    Claims first_boot queued_state "op-1" fresh 1_100 running_state running_operation
claim-Claims_example =
    claim-Claims first_boot queued_state running_state "op-1" fresh 1_100 running_operation
      claim_run

abbrev settled_state : RuntimeState
settled_state =
    (transact (settle first_boot streaming_operation Outcome.completed none 3_000)
      streaming_state).1

abbrev settled : RuntimeTerminal
settled = record {
  stream_id = "stream-1";
  operation_id = "op-1";
  status = TerminalStatus.completed;
  sequence = pos 0;
  generation = 1;
  attempt = 0;
  recovery_work = 0;
  reason = none;
  cleanup_at = some 86_403_000;
}

settle_run :
    settle first_boot streaming_operation Outcome.completed none 3_000 streaming_state
    ≡ ok (settled_state, settled)
unfolding settle ◌>>=◌ transact initial_runtime_state find_runtime_operation find_stream enqueue
    admitted_operation admitted_stream install_claim claimed_operation install_append
    appended_operation appended_stream replace_operation replace_stream holds_fence
    owns_unexpired_lease upsert_phase_effect phase_effect_key decimal next_event ◌+ℤ◌ install_settle
settle_run = refl

settle-settle_example :
    settle first_boot streaming_operation Outcome.failed (some "late") 4_000 settled_state
    ≡ ok (settled_state, settled)
settle-settle_example =
    settle-settle first_boot streaming_state settled_state streaming_operation Outcome.completed
      Outcome.failed none (some "late") 3_000 4_000 settled settle_run

abbrev persisted_state : RuntimeState
persisted_state =
    (transact
      (complete_phase_effect first_boot streaming_operation RuntimePhase.transcript_partial
        "op-1:partial" 3_000)
      streaming_state).1

complete_run :
    complete_phase_effect first_boot streaming_operation RuntimePhase.transcript_partial
      "op-1:partial" 3_000 streaming_state
    ≡ ok (persisted_state, tt)
unfolding complete_phase_effect ◌>>=◌ transact initial_runtime_state find_runtime_operation enqueue
    admitted_operation install_claim claimed_operation install_append appended_operation
    replace_operation holds_fence owns_unexpired_lease upsert_phase_effect phase_effect_key decimal
complete_run = refl

begin_phase_effect-complete_phase_effect_example :
    begin_phase_effect first_boot streaming_operation RuntimePhase.transcript_partial "op-1:partial"
      3_100 persisted_state
    ≡ (if holds_fence
          (get_or_else
            (find_runtime_operation persisted_state streaming_operation.operation_id)
            streaming_operation)
          streaming_operation
          3_100
        then ok (persisted_state, false)
        else err (
            fence_error
              (get_or_else
                (find_runtime_operation persisted_state streaming_operation.operation_id)
                streaming_operation)
              streaming_operation
              "Stale or lease-expired owner cannot begin a phase effect"))
begin_phase_effect-complete_phase_effect_example =
    begin_phase_effect-complete_phase_effect first_boot streaming_state persisted_state
      streaming_operation streaming_operation RuntimePhase.transcript_partial
      RuntimePhase.transcript_partial "op-1:partial" 3_000 3_100 refl complete_run
