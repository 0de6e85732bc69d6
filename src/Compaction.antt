-- ===== src/Compaction.antt =====
-- packages/agent-runtime/src/chat-compaction.ts: which part of a transcript is summarized next.
pub mod Exchange
pub mod Boundary
pub mod Coverage
use chemistry.Prelude.{
  ℕ, zero, suc, ◌+◌, ◌-◌, String, Bool, true, false, ◌&&◌, ◌||◌, Option, none, some, List, [], ◌∷◌,
  map, if◌then◌else◌, leb, ltb, length, take, drop, last?, any, get_elem?, get_or_else,
}
use chemistry.Prelude.Text.{◌&◌, join}
use chemistry.Transcript.{Part, Message, ChatMessage, Compaction, StoredSession}
use chemistry.Conversation.{message_index}

pub record CompactionPlan : Type 0 where
  pub from_message : ChatMessage
  pub to_message : ChatMessage
  pub source_message_count : ℕ
  pub prompt : List Message

abbrev pub is_tool_call_part : Part → Bool
is_tool_call_part (Part.tool_call id name params provider_executed) = true
is_tool_call_part _ = false

unfoldable pub contains_tool_call : Message → Bool
contains_tool_call (Message.assistant content) = any is_tool_call_part content
contains_tool_call (Message.system content) = false
contains_tool_call (Message.user content) = false
contains_tool_call (Message.tool content) = false

abbrev pub is_tool : Message → Bool
is_tool (Message.tool content) = true
is_tool _ = false

abbrev pub tool_entry : Option ChatMessage → Bool
tool_entry none = false
tool_entry (some entry) = is_tool entry.message

abbrev pub calling_entry : Option ChatMessage → Bool
calling_entry none = false
calling_entry (some entry) = contains_tool_call entry.message

-- A cut between two messages that the loop goes back from.
abbrev pub splits_exchange : Option ChatMessage → Option ChatMessage → Bool
splits_exchange previous next = tool_entry next || tool_entry previous || calling_entry previous

-- The loop `while (endExclusive > 0 && endExclusive < messages.length)`.
unfoldable pub retreat : List ChatMessage → ℕ → ℕ
retreat messages zero = zero
retreat messages (suc end) =
    if ltb (suc end) (length messages)
      && splits_exchange (get_elem? messages end) (get_elem? messages (suc end))
    then retreat messages end
    else suc end

unfoldable pub safe_end_exclusive : List ChatMessage → ℕ → ℕ
safe_end_exclusive messages retain_recent_messages =
    retreat messages (length messages - retain_recent_messages)

unfoldable pub overlay_end_index : List ChatMessage → Option Compaction → Option ℕ
overlay_end_index messages none = none
overlay_end_index messages (some overlay) = message_index messages overlay.to_message_id

-- `JSON.stringify` in a template literal.
abbrev json_text : Option String → String
json_text none = "undefined"
json_text (some value) = value

unfoldable pub render_part : Part → String
render_part (Part.text value) = value
render_part (Part.reasoning value) = value
render_part (Part.file media_type file_name contents) =
    "[file " & get_or_else file_name media_type & "]"
render_part (Part.tool_call id name params provider_executed) =
    "[tool call " & name & "] " & json_text params
render_part (Part.tool_result id name result is_failure provider_executed) =
    "[tool result " & name & (if is_failure then " failed" else "") & "] " & json_text result
render_part (Part.tool_approval_request approval_id tool_call_id) =
    "[tool approval requested " & tool_call_id & "]"
render_part (Part.tool_approval_response approval_id approved reason) =
    "[tool approval " & (if approved then "granted" else "denied") & "] " & get_or_else reason ""

unfoldable pub render_message : Message → String
unfolding render_part
render_message (Message.system content) = "SYSTEM: " & content
render_message (Message.user content) = "USER: " & join "\n" (map render_part content)
render_message (Message.assistant content) = "ASSISTANT: " & join "\n" (map render_part content)
render_message (Message.tool content) = "TOOL: " & join "\n" (map render_part content)

-- `previousEnd + 1`
abbrev pub after_overlay : Option ℕ → ℕ
after_overlay none = 0
after_overlay (some end) = end + 1

-- `messages.slice(previousEnd + 1, endExclusive)`
unfoldable pub newly_eligible : List ChatMessage → Option ℕ → ℕ → List ChatMessage
newly_eligible messages previous_end end_exclusive =
    drop (after_overlay previous_end) (take end_exclusive messages)

unfoldable pub summary_input : Option Compaction → List ChatMessage → String
unfolding render_message
summary_input latest eligible =
    let transcript = join "\n\n" (map (λ entry. render_message entry.message) eligible) in
    elim latest [
      | none ↦ transcript
      | some overlay ↦
          "<previous-summary>\n" & overlay.summary & "\n</previous-summary>\n\n<new-transcript>\n"
          & transcript & "\n</new-transcript>"
    ]

abbrev pub compaction_instruction : Message
compaction_instruction =
    Message.system
      "You compact conversation history. Return only a concise factual summary that preserves user preferences, decisions, unresolved work, and tool findings. Do not add facts."

unfoldable pub make_plan :
    StoredSession → Option ℕ → ℕ → Option ChatMessage → Option ChatMessage → Option CompactionPlan
make_plan session previous_end end_exclusive (some from_message) (some to_message) = some (record {
  from_message = from_message;
  to_message = to_message;
  source_message_count = end_exclusive;
  prompt =
      compaction_instruction
      ∷ Message.user (
          Part.text (
            summary_input (last? session.compactions)
              (newly_eligible session.messages previous_end end_exclusive))
          ∷ [])
      ∷ [];
})
make_plan session previous_end end_exclusive none to_message = none
make_plan session previous_end end_exclusive (some from_message) none = none

-- The plan for a boundary that has been chosen. `endExclusive - 1 <= previousEnd` is written without
-- a subtraction.
unfoldable pub plan_to : StoredSession → ℕ → Option CompactionPlan
unfolding make_plan
plan_to session end_exclusive =
    let previous_end = overlay_end_index session.messages (last? session.compactions) in
    if ltb end_exclusive 2
    then none
    else if leb end_exclusive (after_overlay previous_end)
    then none
    else make_plan session previous_end end_exclusive (get_elem? session.messages 0)
        (get_elem? session.messages (end_exclusive - 1))

-- `Math.max(1, retainRecentMessages)`
abbrev pub at_least_one : ℕ → ℕ
at_least_one n = if leb 1 n then n else 1

unfoldable pub build_compaction_plan : StoredSession → ℕ → Option CompactionPlan
build_compaction_plan session retain_recent_messages =
    plan_to session (safe_end_exclusive session.messages (at_least_one retain_recent_messages))
