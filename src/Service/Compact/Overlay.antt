-- ===== src/Service/Compact/Overlay.antt =====
-- `compact` of packages/agent-runtime/src/agent-service-live.ts and the transcript.
use chemistry.Prelude.{
  List, String, Bool, true, false, Option, none, some, ◌≡◌, refl, ◌∙◌, arith, ◌&&◌, leb, ◌⊎◌, inl,
  inr, if◌then◌else◌,
}
use chemistry.Protocol.{CompactionReason}
use chemistry.Transcript.{Message, Compaction, StoredSession}
use chemistry.Conversation.{estimate_model_tokens}
use chemistry.Compaction.{CompactionPlan, build_compaction_plan}
use chemistry.Compaction.Coverage.{
  AreDistinct, overlaid, Continues, build_compaction_plan-Continues,
}
use chemistry.Service.Effects.{
  Services, ServiceState, ToolChoice, ModelRequest, ModelResponse, Attempt, Agent, returned, raised,
  succeed, followed_by, ask_model,
}
use chemistry.Service.Store.{save}
use chemistry.Service.Store.Kept.{Holds}
use chemistry.Service.Store.Saving.{Saves, save-Saves}
use chemistry.Service.Compact.{
  default_agent_configuration, Trigger, is_threshold, CompactOutcome, not_compacted, summary_text,
  make_overlay, compacted_outcome, save_overlay, compact_plan, compact_under, compact,
}

-- The session is as it was, and so is the storage.
pub record IsUnchanged (current : StoredSession) (before later : ServiceState)
    (outcome : CompactOutcome) : Type 0 where
  pub same_session : outcome.session ≡ current
  pub not_done : outcome.result.compacted ≡ false
  pub same_storage : later.stored ≡ before.stored

-- What the model says of the messages it is given.
abbrev pub said : Services → List Message → ServiceState → String
said env prompt state =
    let request : ModelRequest = record {
      prompt = prompt;
      toolkit = false;
      tool_choice = ToolChoice.no_tools;
    } in
    (ask_model env request state).0.text

-- The session has one more overlay, whose summary the model gave to the plan's prompt, which continues
-- it, and is stored.
pub record IsOverlaid (env : Services) (current : StoredSession) (before later : ServiceState)
    (outcome : CompactOutcome) : Type 0 where
  pub plan : CompactionPlan
  pub overlay : Compaction
  pub planned :
      build_compaction_plan current default_agent_configuration.retain_recent_messages ≡ some plan
  pub done : outcome.result.compacted ≡ true
  pub longer : outcome.session ≡ overlaid current overlay
  pub continues : Continues current plan overlay
  pub answered : overlay.summary ≡ env.engine.trim (said env plan.prompt before)
  pub stored : Holds outcome.session later

abbrev pub Compacts :
    Services → StoredSession → ServiceState → Attempt CompactOutcome × ServiceState → Type 0
Compacts env current before (returned outcome, later) =
    IsUnchanged current before later outcome ⊎ IsOverlaid env current before later outcome
Compacts env current before (raised error, later) = later.stored ≡ before.stored

overlaid_ran :
    (env : Services) (current : StoredSession) (trigger : Trigger) (plan : CompactionPlan)
    (overlay : Compaction) (before state : ServiceState)
    → build_compaction_plan current default_agent_configuration.retain_recent_messages ≡ some plan
    → Continues current plan overlay
    → overlay.summary ≡ env.engine.trim (said env plan.prompt before)
    → state.stored ≡ before.stored
    → (ran : Attempt (Unit {0}) × ServiceState) → Saves (overlaid current overlay) state ran
    → Compacts env current before (
        followed_by ran
          (λ _ last. (returned (compacted_outcome env (overlaid current overlay) trigger), last)))
unfolding followed_by
overlaid_ran env current trigger plan overlay before state planned continues answered same
      (raised error, later) saves =
    saves ∙ same
overlaid_ran env current trigger plan overlay before state planned continues answered same
      (returned value, later) saves =
    inr (record {
      plan = plan;
      overlay = overlay;
      planned = planned;
      done = refl;
      longer = refl;
      continues = continues;
      answered = answered;
      stored = saves;
    })

-- A summary that was read is this text.
abbrev Answers : String → Attempt String × ServiceState → Type 0
Answers text (returned summary, later) = summary ≡ text
Answers text (raised error, later) = Unit

-- What the model's answer leads to.
summarized :
    (env : Services) (current : StoredSession) (trigger : Trigger) (plan : CompactionPlan)
    (before : ServiceState)
    → AreDistinct current.messages
    → build_compaction_plan current default_agent_configuration.retain_recent_messages ≡ some plan
    → (ran : Attempt String × ServiceState) → ran.1.stored ≡ before.stored
    → Answers (env.engine.trim (said env plan.prompt before)) ran
    → Compacts env current before (
        followed_by ran (λ summary later.
          let made = make_overlay env plan summary later in
          save_overlay env current trigger made.0 made.1))
unfolding followed_by make_overlay save_overlay
summarized env current trigger plan before distinct planned (raised error, state) same answered =
    same
summarized env current trigger plan before distinct planned (returned summary, state) same
      answered =
    let made = make_overlay env plan summary state in
    overlaid_ran env current trigger plan made.0 before made.1 planned
      (build_compaction_plan-Continues current default_agent_configuration.retain_recent_messages
        plan made.0 distinct planned refl)
      answered same (save env (overlaid current made.0) made.1)
      (save-Saves env (overlaid current made.0) made.1)

summary_text_stored :
    (env : Services) (response : ModelResponse) (state : ServiceState)
    → (summary_text env response state).1.stored ≡ state.stored
unfolding summary_text
summary_text_stored env response state = ground arith

summary_text-Answers :
    (env : Services) (response : ModelResponse) (state : ServiceState)
    → Answers (env.engine.trim response.text) (summary_text env response state)
unfolding summary_text
summary_text-Answers env response state = ground arith

compact_plan-Compacts :
    (env : Services) (current : StoredSession) (trigger : Trigger) (plan : CompactionPlan)
    (state : ServiceState)
    → AreDistinct current.messages
    → build_compaction_plan current default_agent_configuration.retain_recent_messages ≡ some plan
    → Compacts env current state (compact_plan env current trigger plan state)
unfolding compact_plan
compact_plan-Compacts env current trigger plan state distinct planned =
    let request : ModelRequest = record {
      prompt = plan.prompt;
      toolkit = false;
      tool_choice = ToolChoice.no_tools;
    } in
    let asked = ask_model env request state in
    summarized env current trigger plan state distinct planned (summary_text env asked.0 asked.1)
      (summary_text_stored env asked.0 asked.1) (summary_text-Answers env asked.0 asked.1)

Compacts-if :
    (env : Services) (current : StoredSession) (state : ServiceState) (test : Bool)
    (first second : Agent CompactOutcome)
    → Compacts env current state (first state)
    → Compacts env current state (second state)
    → Compacts env current state ((if test then first else second) state)
Compacts-if env current state true first second f s = f
Compacts-if env current state false first second f s = s

compact_under-Compacts :
    (env : Services) (current : StoredSession) (trigger : Trigger) (planned : Option CompactionPlan)
    (state : ServiceState)
    → AreDistinct current.messages
    → build_compaction_plan current default_agent_configuration.retain_recent_messages ≡ planned
    → Compacts env current state (compact_under env current trigger planned state)
unfolding compact_under not_compacted
compact_under-Compacts env current trigger none state distinct planned =
    inl (record { same_session = refl; not_done = refl; same_storage = refl })
compact_under-Compacts env current trigger (some plan) state distinct planned =
    compact_plan-Compacts env current trigger plan state distinct planned

-- Compaction of a session whose messages have distinct ids, in any state of the storage and with
-- any answer of the model: it fails and stores nothing; or it leaves the session and the storage as
-- they were; or it stores the session with one more overlay, after which the messages that were
-- visible before are those whose text is in the prompt of its plan, followed by those visible after
-- it, and its summary is the trimmed answer of the model to this prompt.
pub compact-Compacts :
    (env : Services) (current : StoredSession) (trigger : Trigger) (state : ServiceState)
    → AreDistinct current.messages
    → Compacts env current state (compact env current trigger state)
unfolding compact not_compacted
compact-Compacts env current trigger state distinct =
    Compacts-if env current state
      (is_threshold trigger
        && leb (estimate_model_tokens env.engine current)
            default_agent_configuration.compaction_threshold_tokens)
      (succeed (not_compacted env current CompactionReason.below_threshold))
      (compact_under env current trigger
        (build_compaction_plan current default_agent_configuration.retain_recent_messages))
      (inl (record { same_session = refl; not_done = refl; same_storage = refl }))
      (compact_under-Compacts env current trigger
        (build_compaction_plan current default_agent_configuration.retain_recent_messages) state
        distinct refl)
