-- ===== src/Service/Compact.antt =====
-- `load` and `compact` of agent-service-live.ts, under the configuration of agent-service.ts.
pub mod Overlay
use chemistry.Prelude.{
  ℕ, String, Bool, true, false, ◌&&◌, Option, none, some, List, [], ◌∷◌, ◌++◌, ◌==◌, nat_eq,
  if◌then◌else◌, leb,
}
use chemistry.Prelude.Text.{◌&◌}
use chemistry.Protocol.{AgentRpcError, CompactionReason, CompactionResult}
use chemistry.Transcript.{Compaction, StoredSession}
use chemistry.Conversation.{create_initial_session, estimate_model_tokens, compaction_stats}
use chemistry.Compaction.{CompactionPlan, build_compaction_plan}
use chemistry.Service.Effects.{
  Services, ServiceState, ToolChoice, ModelRequest, ModelResponse, Cause, Attempt, returned, raised,
  Agent, succeed, fail, followed_by, ◌>>=◌, ◌>>◌, draw_id, read_clock, ask_model,
}
use chemistry.Service.Store.{save, get_or_create}

pub record AgentConfiguration : Type 0 where
  pub max_tool_steps : ℕ
  pub compaction_threshold_tokens : ℕ
  pub retain_recent_messages : ℕ

abbrev pub default_agent_configuration : AgentConfiguration
default_agent_configuration = record {
  max_tool_steps = 5;
  compaction_threshold_tokens = 1_200;
  retain_recent_messages = 6;
}

abbrev pub load : Services → String → Agent StoredSession
load env session_id = get_or_create env session_id (create_initial_session session_id)

pub data Trigger : Type 0 where
  manual threshold : Trigger

abbrev pub is_threshold : Trigger → Bool
is_threshold manual = false
is_threshold threshold = true

abbrev pub reason_of : Trigger → CompactionReason
reason_of manual = CompactionReason.manual
reason_of threshold = CompactionReason.threshold

pub record CompactOutcome : Type 0 where
  pub session : StoredSession
  pub result : CompactionResult

unfoldable pub not_compacted : Services → StoredSession → CompactionReason → CompactOutcome
not_compacted env current reason = record {
  session = current;
  result = record {
    compacted = false;
    reason = reason;
    stats = compaction_stats env.engine current;
  };
}

abbrev compaction_failure : Cause → AgentRpcError
compaction_failure (Cause.from_error message) = AgentRpcError.compaction message
compaction_failure (Cause.from_value text) =
    AgentRpcError.compaction ("Compaction inference failed: " & text)

-- The trimmed text of the model, unless it failed or said nothing.
unfoldable pub summary_text : Services → ModelResponse → Agent String
summary_text env response state = elim response.failure [
  | some cause ↦ (raised (compaction_failure cause), state)
  | none ↦
      let summary = env.engine.trim response.text in
      if env.engine.units summary == 0
      then (raised (AgentRpcError.compaction "Compaction model returned an empty summary"), state)
      else (returned summary, state)
]

-- The overlay of a plan, with an identifier and a time drawn for it.
unfoldable pub make_overlay :
    Services → CompactionPlan → String → ServiceState → Compaction × ServiceState
make_overlay env plan summary state =
    let drawn = draw_id env state in
    let read = read_clock env drawn.1 in
    (
      record {
        id = drawn.0;
        from_message_id = plan.from_message.id;
        to_message_id = plan.to_message.id;
        summary = summary;
        source_message_count = plan.source_message_count;
        created_at = read.0;
      },
      read.1,
    )

abbrev pub compacted_outcome : Services → StoredSession → Trigger → CompactOutcome
compacted_outcome env updated trigger = record {
  session = updated;
  result = record {
    compacted = true;
    reason = reason_of trigger;
    stats = compaction_stats env.engine updated;
  };
}

unfoldable pub save_overlay : Services → StoredSession → Trigger → Compaction → Agent CompactOutcome
save_overlay env current trigger overlay =
    let updated : StoredSession = record current {
      compactions = current.compactions ++ overlay ∷ [];
    } in
    save env updated >>= λ _. succeed (compacted_outcome env updated trigger)

unfoldable pub compact_plan :
    Services → StoredSession → Trigger → CompactionPlan → Agent CompactOutcome
compact_plan env current trigger plan state =
    let request : ModelRequest = record {
      prompt = plan.prompt;
      toolkit = false;
      tool_choice = ToolChoice.no_tools;
    } in
    let asked = ask_model env request state in
    followed_by (summary_text env asked.0 asked.1) λ summary later.
      let made = make_overlay env plan summary later in
      save_overlay env current trigger made.0 made.1

unfoldable pub compact_under :
    Services → StoredSession → Trigger → Option CompactionPlan → Agent CompactOutcome
compact_under env current trigger none =
    succeed (not_compacted env current CompactionReason.insufficient_history)
compact_under env current trigger (some plan) = compact_plan env current trigger plan

unfoldable pub compact : Services → StoredSession → Trigger → Agent CompactOutcome
compact env current trigger =
    if is_threshold trigger
      && leb (estimate_model_tokens env.engine current)
          default_agent_configuration.compaction_threshold_tokens
    then succeed (not_compacted env current CompactionReason.below_threshold)
    else compact_under env current trigger
        (build_compaction_plan current default_agent_configuration.retain_recent_messages)
