-- ===== src/Execution/Running/Effects.antt =====
-- `beginPhaseEffect` and `completePhaseEffect` of a turn that holds its lease.
use chemistry.Prelude.{
  ℕ, Bool-cases, suc, ℤ, ◌<◌, String, true, false, List, ◌≡◌, refl, string_eq, nat_eq, inl, inr,
}
use chemistry.Protocol.{DurableStreamEvent}
use chemistry.Runtime.State.{
  RuntimeState, RuntimeOperationRecord, RuntimePhase, PhaseStatus, RuntimePhaseEffect,
}
use chemistry.Runtime.Errors.{Result, ok, ◌>>=◌}
use chemistry.Execution.Helpers.{Environment}
use chemistry.Execution.Turn.{put_operation}
use chemistry.Execution.Settle.{
  effect_entry, effect_done, begin_phase_effect, complete_phase_effect,
}
use chemistry.Execution.Running.Ready.{Ready, fence_held}
use chemistry.Execution.Running.Entered.{
  Enters, upsert_phase_effect-Enters, fewer, put_operation-Puts, room_left, own_id,
}

module _ (env : Environment) (token : RuntimeOperationRecord) {effects : ℕ} {latest : ℤ}
    {pending : List DurableStreamEvent} {until : ℕ} (s : RuntimeState)
    (h : Ready env token (suc effects) latest pending until s) (now : ℕ)
    (in_time : now < until) where
  -- A write that leaves the owner its operation.
  pub record Stays {A : Type 0} (result : Result (RuntimeState × A)) : Type 0 where
    pub after : RuntimeState
    pub value : A
    pub commits : result ≡ ok (after, value)
    pub ready : Ready env token effects latest pending until after

  put_effect-Ready :
      (entry : RuntimePhaseEffect) (entered : Enters h.current entry env.limits.max_phase_effects)
      → Ready env token effects latest pending until
          (put_operation s (record h.current { effect_ledger = entered.ledger }))
  put_effect-Ready entry entered =
      (put_operation-Puts env token s h now in_time token h.current entered.ledger (refl, refl)
        ((own_id env token s h now in_time), h.on_stream) h.same_generation (h.owned, h.claimed)
        h.spare h.leased h.live entered.grows).ready

  pub complete_phase_effect-Stays :
      (phase : RuntimePhase) (effect_key : String)
      → Stays (complete_phase_effect env token phase effect_key now s)
  unfolding complete_phase_effect ◌>>=◌
  complete_phase_effect-Stays phase effect_key =
      let entry = effect_entry h.current phase effect_key PhaseStatus.completed now in
      let entered =
        upsert_phase_effect-Enters h.current entry env.limits.max_phase_effects
          (room_left env token s h now in_time) in
      record {
        after = put_operation s (record h.current { effect_ledger = entered.ledger });
        value = tt;
        commits = rw (h.found, fence_held env token s h now in_time, entered.put) refl;
        ready = put_effect-Ready entry entered;
      }

  pub begin_phase_effect-Stays :
      (phase : RuntimePhase) (effect_key : String)
      → Stays (begin_phase_effect env token phase effect_key now s)
  unfolding begin_phase_effect ◌>>=◌
  begin_phase_effect-Stays phase effect_key = elim (Bool-cases (effect_done h.current effect_key)) [
    | inl done ↦ record {
      after = s;
      value = false;
      commits = rw (h.found, fence_held env token s h now in_time, done) refl;
      ready = fewer env token s h;
    }
    | inr pending ↦
        let entry = effect_entry h.current phase effect_key PhaseStatus.pending now in
        let entered =
          upsert_phase_effect-Enters h.current entry env.limits.max_phase_effects
            (room_left env token s h now in_time) in
        record {
          after = put_operation s (record h.current { effect_ledger = entered.ledger });
          value = true;
          commits = rw (h.found, fence_held env token s h now in_time, pending, entered.put) refl;
          ready = put_effect-Ready entry entered;
        }
  ]
