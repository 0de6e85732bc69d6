-- ===== src/Service/Session.antt =====
-- The operations of agent-service-live.ts, each of which holds the lock of the service from its first
-- effect to its last, and `captureRequest` of agent-turn-executor-live.ts.
pub mod Partial
pub mod Placed
use chemistry.Prelude.{
  ℕ, suc, String, Bool, true, false, ◌&&◌, Option, none, some, List, [], ◌∷◌, ◌++◌, map, ◌==◌,
  string_eq, if◌then◌else◌, find, filter, any,
}
use chemistry.Protocol.{AgentContext, CompactionReason, CompactionResult, AgentStreamEvent}
use chemistry.Transcript.{ChatMessage, SessionSnapshot, StoredSession}
use chemistry.Conversation.{snapshot, user_message, assistant_message, stream_message}
use chemistry.Runtime.State.{RuntimeRequestSnapshot}
use chemistry.Execution.Helpers.{TurnMode, fresh, continuing, TurnExecutionInput}
use chemistry.Service.Effects.{
  Services, ServiceState, Attempt, returned, raised, Agent, succeed, followed_by, ◌>>=◌, ◌>>◌,
  draw_id, read_clock,
}
use chemistry.Service.Store.{save}
use chemistry.Service.Compact.{
  default_agent_configuration, load, manual, threshold, CompactOutcome, not_compacted, compact,
}
use chemistry.Service.Response.{is_assistant, is_user, find_candidate, replace_message}
use chemistry.Service.Rounds.{Emission, Streaming, concat_stream, unwrap, stream_round}

unfoldable pub get_session : Services → String → Agent SessionSnapshot
get_session env session_id = do session ← load env session_id; succeed (snapshot env.engine session)

unfoldable pub update_context : Services → String → AgentContext → Agent SessionSnapshot
update_context env session_id context = do
  session ← load env session_id
  let updated = record session { context = context }
  save env updated
  succeed (snapshot env.engine updated)

unfoldable pub compact_session : Services → String → Agent CompactionResult
compact_session env session_id = do
  session ← load env session_id
  outcome ← compact env session manual
  succeed outcome.result

-- The events before the first round, and the rounds.
unfoldable pub turn_stream :
    Services → CompactionResult → StoredSession → ChatMessage → String → Option String → Streaming
turn_stream env compaction session user prompt assistant_message_id =
    let started = AgentStreamEvent.turn_started (stream_message user) ∷ [] in
    concat_stream
      (if compaction.compacted
        then AgentStreamEvent.compaction_completed compaction ∷ started
        else started)
      (stream_round env default_agent_configuration.max_tool_steps session prompt 1 none
        assistant_message_id fresh)

-- A new user message at the end of a transcript.
unfoldable pub add_user_message :
    Services → CompactOutcome → String → String → Option String → Agent Streaming
add_user_message env compacted user_id prompt assistant_message_id state =
    let read = read_clock env state in
    let user = user_message user_id prompt read.0 in
    let with_user : StoredSession = record compacted.session {
      messages = compacted.session.messages ++ user ∷ [];
    } in
    followed_by (save env with_user read.1)
      λ _. succeed (turn_stream env compacted.result with_user user prompt assistant_message_id)

unfoldable pub prepare_legacy_turn : Services → String → String → Agent Streaming
prepare_legacy_turn env session_id prompt = do
  loaded ← load env session_id
  compacted ← compact env loaded threshold
  λ state.
      let drawn = draw_id env state in add_user_message env compacted drawn.0 prompt none drawn.1

-- `new Set(ids).has(id)`
abbrev pub set_has : List String → String → Bool
set_has ids id = any (λ other. other == id) ids

-- The session as the request captured it.
unfoldable pub captured_session : StoredSession → RuntimeRequestSnapshot → StoredSession
captured_session loaded request = record loaded {
  context = request.context;
  messages = filter (λ message. set_has request.history_message_ids message.id) loaded.messages;
  compactions = filter (λ overlay. set_has request.compaction_ids overlay.id) loaded.compactions;
}

-- A fresh turn on the captured session, whose user message may be there already.
unfoldable pub prepare_fresh_turn : Services → TurnExecutionInput → StoredSession → Agent Streaming
prepare_fresh_turn env input captured =
    elim (find_candidate is_user captured.messages input.user_message_id) [
      | some existing ↦ λ state.
          let read = read_clock env state in
          let outcome = not_compacted env captured CompactionReason.below_threshold in
          (
            returned (
                turn_stream env outcome.result captured existing input.prompt
                  (some input.assistant_message_id)),
            read.1,
          )
      | none ↦ compact env captured threshold >>= λ compacted.
          add_user_message env compacted input.user_message_id input.prompt
            (some input.assistant_message_id)
    ]

unfoldable pub prepare_runtime_turn : Services → TurnExecutionInput → Agent Streaming
prepare_runtime_turn env input = do
  loaded ← load env input.session_id
  elim input.mode [
    | continuing ↦
        let continued : StoredSession = record loaded {
          context = input.request_snapshot.context;
        } in
        succeed (
          stream_round env default_agent_configuration.max_tool_steps continued input.prompt 1
            (find_candidate is_assistant continued.messages input.assistant_message_id)
            (some input.assistant_message_id) continuing)
    | fresh ↦ prepare_fresh_turn env input (captured_session loaded input.request_snapshot)
  ]

-- `sendMessage` and `runTurn`: the stream of a turn that is prepared when it is read.
unfoldable pub send_message : Services → String → String → Streaming
send_message env session_id prompt state =
    unwrap (prepare_legacy_turn env session_id prompt state) (λ stream. stream)

unfoldable pub run_turn : Services → TurnExecutionInput → Streaming
run_turn env input state = unwrap (prepare_runtime_turn env input state) (λ stream. stream)

pub record PersistPartialInput : Type 0 where
  pub session_id : String
  pub assistant_message_id : String
  pub text : String

-- `existing?.createdAt ?? (yield* Clock.currentTimeMillis)`
abbrev pub created_at_or_now : Services → Option ChatMessage → ServiceState → ℕ × ServiceState
created_at_or_now env none state = read_clock env state
created_at_or_now env (some existing) state = (existing.created_at, state)

-- The transcript with the partial text in the place of its message, or at the end.
unfoldable pub put_partial : Option ChatMessage → ChatMessage → List ChatMessage → List ChatMessage
put_partial none partial messages = messages ++ partial ∷ []
put_partial (some existing) partial messages = replace_message partial.id partial messages

unfoldable pub persist_partial : Services → PersistPartialInput → Agent (Unit {0})
persist_partial env input = do
  loaded ← load env input.session_id
  λ state.
      let existing = find (λ message. message.id == input.assistant_message_id) loaded.messages in
      let read = created_at_or_now env existing state in
      let partial = assistant_message input.assistant_message_id input.text read.0 in
      save env (record loaded { messages = put_partial existing partial loaded.messages }) read.1

unfoldable pub has_assistant_message : Services → String → String → Agent Bool
has_assistant_message env session_id assistant_message_id = do
  loaded ← load env session_id
  succeed (
      any (λ message. message.id == assistant_message_id && is_assistant message.message)
        loaded.messages)

unfoldable pub capture_request :
    Services → (model_name : String) → String → ℕ → Agent RuntimeRequestSnapshot
capture_request env model_name session_id submitted_at = do
  session ← get_session env session_id
  succeed (record {
    version = 1;
    provider = "cloudflare-workers-ai";
    model = model_name;
    tool_step_limit = default_agent_configuration.max_tool_steps;
    context_strategy = "durable-session-at-phase-start";
    context = session.context;
    history_message_ids = map (λ message. message.id) session.chat.metadata;
    compaction_ids = map (λ overlay. overlay.id) session.compactions;
    submitted_at = submitted_at;
  })
