-- ===== src/Adapter/Dispatch/Submitted.antt =====
-- Submissions that arrive at apps/backend/src/runtime-websocket-adapter.ts more than once.
use chemistry.Prelude.{
  ℕ, String, true, Option, none, some, ◌≡◌, refl, sym, subst, Bool-cases, inl, inr,
}
use chemistry.Protocol.{RuntimeClientFrame}
use chemistry.Runtime.State.{RuntimeState}
use chemistry.Runtime.Errors.{Result, ok, err, transact}
use chemistry.Execution.Helpers.{Environment}
use chemistry.Execution.Admission.{RuntimeAdmission, admit}
use chemistry.Execution.Admission.Idempotence.{admit-admit, duplicate_of}
use chemistry.Execution.Settle.{RuntimeTerminal}
use chemistry.Execution.Reading.{terminal}
use chemistry.Adapter.Attachment.{RuntimeSocketAttachment}
use chemistry.Adapter.Sockets.{AdapterState, served_by, run_runtime, send}
use chemistry.Adapter.Resume.{send_terminal}
use chemistry.Adapter.Dispatch.{Draws, accepted_frame, request_of, submitted, dispatch}

-- The runtime, the runs begun and the reports to the catalog are as they were.
pub record IsQuiet (before after : AdapterState) : Type 0 where
  pub same_runtime : after.runtime ≡ before.runtime
  pub same_tasks : after.tasks ≡ before.tasks
  pub same_touched : after.touched ≡ before.touched

send_terminal-IsQuiet :
    (handle : ℕ) (ended : Option RuntimeTerminal) (state : AdapterState)
    → IsQuiet state (send_terminal handle ended state)
unfolding send_terminal
send_terminal-IsQuiet handle none state = record {
  same_runtime = refl;
  same_tasks = refl;
  same_touched = refl;
}
send_terminal-IsQuiet handle (some ended) state = record {
  same_runtime = refl;
  same_tasks = refl;
  same_touched = refl;
}

ended-IsQuiet :
    (handle : ℕ) (state : AdapterState) (read : Result (Option RuntimeTerminal))
    → IsQuiet state
        (served_by {B = Unit {0}}
          (read, state)
          (λ ended later. (ok tt, send_terminal handle ended later))).1
unfolding served_by
ended-IsQuiet handle state (ok ended) = send_terminal-IsQuiet handle ended state
ended-IsQuiet handle state (err error) = record {
  same_runtime = refl;
  same_tasks = refl;
  same_touched = refl;
}

submitted_again :
    (handle : ℕ) (prompt : String) (admission : RuntimeAdmission) (state : AdapterState)
    → admission.duplicate ≡ true
    → IsQuiet state (submitted handle prompt admission state).1
unfolding submitted
submitted_again handle prompt admission state h =
    let quiet =
      ended-IsQuiet handle (send handle (accepted_frame admission) state)
        (terminal state.runtime admission.operation.stream_id) in
    rw h (record {
      same_runtime = quiet.same_runtime;
      same_tasks = quiet.same_tasks;
      same_touched = quiet.same_touched;
    })

submitted_runtime :
    (handle : ℕ) (prompt : String) (admission : RuntimeAdmission) (state : AdapterState)
    → (submitted handle prompt admission state).1.runtime ≡ state.runtime
unfolding submitted
submitted_runtime handle prompt admission state = elim (Bool-cases admission.duplicate) [
  | inl again ↦ (submitted_again handle prompt admission state again).same_runtime
  | inr new ↦ rw new refl
]

-- A submission that the runtime answers without a change.
resubmitted :
    (env : Environment) (draws : Draws) (handle : ℕ) (attachment : RuntimeSocketAttachment)
    (submission_id prompt : String) (state : AdapterState) (admission : RuntimeAdmission)
    → admit env (request_of draws prompt submission_id) draws.now state.runtime
      ≡ ok (state.runtime, admission)
    → admission.duplicate ≡ true
    → IsQuiet state
        (dispatch env draws handle attachment
          (RuntimeClientFrame.submit_turn submission_id prompt)
          state).1
unfolding dispatch run_runtime served_by transact
resubmitted env draws handle attachment submission_id prompt state admission e duplicate =
    rw e (submitted_again handle prompt admission state duplicate)

first_runtime :
    (env : Environment) (draws : Draws) (handle : ℕ) (attachment : RuntimeSocketAttachment)
    (submission_id prompt : String) (state : AdapterState) (next : RuntimeState)
    (admission : RuntimeAdmission)
    → admit env (request_of draws prompt submission_id) draws.now state.runtime
      ≡ ok (next, admission)
    → (dispatch env draws handle attachment
        (RuntimeClientFrame.submit_turn submission_id prompt)
        state).1.runtime
      ≡ next
unfolding dispatch run_runtime served_by transact
first_runtime env draws handle attachment submission_id prompt state next admission e =
    rw e (submitted_runtime handle prompt admission (record state { runtime = next }))

-- When a submission was admitted, or answered as a duplicate, submitting it again, over whatever
-- socket, with whatever prompt and draws, changes nothing of the runtime, begins no run and reports
-- nothing to the catalog.
pub dispatch-dispatch :
    (env : Environment) (draws again : Draws) (handle other : ℕ)
    (attachment reattached : RuntimeSocketAttachment) (submission_id prompt reprompt : String)
    (state : AdapterState) (next : RuntimeState) (admission : RuntimeAdmission)
    → admit env (request_of draws prompt submission_id) draws.now state.runtime
      ≡ ok (next, admission)
    → IsQuiet
        (dispatch env draws handle attachment
          (RuntimeClientFrame.submit_turn submission_id prompt)
          state).1
        (dispatch env again other reattached
          (RuntimeClientFrame.submit_turn submission_id reprompt)
          (dispatch env draws handle attachment
            (RuntimeClientFrame.submit_turn submission_id prompt)
            state).1).1
dispatch-dispatch env draws again handle other attachment reattached submission_id prompt reprompt
      state next admission e =
    let same =
      first_runtime env draws handle attachment submission_id prompt state next admission e in
    resubmitted env again other reattached submission_id reprompt
      (dispatch env draws handle attachment (RuntimeClientFrame.submit_turn submission_id prompt)
        state).1
      (duplicate_of
        (dispatch env draws handle attachment (RuntimeClientFrame.submit_turn submission_id prompt)
          state).1.runtime
        admission.operation)
      (subst
        (λ runtime.
          admit env (request_of again reprompt submission_id) again.now runtime
          ≡ ok (runtime, duplicate_of runtime admission.operation))
        (sym same)
        (admit-admit env state.runtime next (request_of draws prompt submission_id)
          (request_of again reprompt submission_id) draws.now again.now admission refl e))
      refl
