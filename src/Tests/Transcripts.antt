-- ===== src/Tests/Transcripts.antt =====
-- A session of eight messages, two of which are a tool call and its result.
use chemistry.Prelude.{
  get_or_else, map, String, Bool, true, false, ◌&&◌, not, some, List, [], ◌∷◌, ◌≡◌, refl, arith,
  eq_iff, ◌==◌, string_eq, any, All, length, ◌-◌,
}
use chemistry.Transcript.{
  Part, Message, ChatMessage, Compaction, StoredSession, PersistedSession, metadata_of,
  stored_session_from_persisted, persisted_session_from_stored,
}
use chemistry.Transcript.Stored.{stored_session_from_persisted-persisted_session_from_stored}
use chemistry.Conversation.{default_agent_context, user_message, assistant_message}
use chemistry.Compaction.{
  CompactionPlan, retreat, safe_end_exclusive, plan_to, make_plan, overlay_end_index,
  build_compaction_plan, contains_tool_call,
}
use chemistry.Compaction.Boundary.{IsGreatestWhole, safe_end_exclusive-IsGreatestWhole}
use chemistry.Compaction.Coverage.{AreDistinct, Continues, build_compaction_plan-Continues}

-- A test of `AreDistinct`.
abbrev are_distinct : List ChatMessage → Bool
are_distinct [] = true
are_distinct (entry ∷ rest) = not (any (λ other. other.id == entry.id) rest) && are_distinct rest

none_has :
    (id : String) (rest : List ChatMessage)
    → any (λ other. other.id == id) rest ≡ false
    → All (λ other. ¬ (other.id ≡ id)) rest
none_has id [] h = tt
none_has id (entry ∷ rest) h =
    ((λ same. ground (arith, h, same, eq_iff entry.id id)), none_has id rest (ground (arith, h)))

pub are_distinct-AreDistinct :
    (messages : List ChatMessage) → are_distinct messages ≡ true → AreDistinct messages
are_distinct-AreDistinct [] h = tt
are_distinct-AreDistinct (entry ∷ rest) h =
    (none_has entry.id rest (ground (arith, h)), are_distinct-AreDistinct rest (ground (arith, h)))

abbrev pub messages : List ChatMessage
messages =
    user_message "u1" "Which project is this?" 1
    ∷ record {
      id = "a1";
      created_at = 2;
      message =
          Message.assistant (Part.tool_call "c1" "lookup_project_fact" (some "{}") false ∷ []);
    }
    ∷ record {
      id = "t1";
      created_at = 3;
      message =
          Message.tool (Part.tool_result "c1" "lookup_project_fact" (some "1") false false ∷ []);
    }
    ∷ assistant_message "a2" "Chemistry." 4
    ∷ user_message "u2" "Thanks." 5
    ∷ assistant_message "a3" "Welcome." 6
    ∷ user_message "u3" "Go on." 7
    ∷ assistant_message "a4" "Done." 8
    ∷ []

abbrev pub session : StoredSession
session = record {
  session_id = "s";
  context = default_agent_context;
  messages = messages;
  compactions = [];
}

pub session-AreDistinct : AreDistinct session.messages
session-AreDistinct = are_distinct-AreDistinct session.messages refl

safe_end : safe_end_exclusive messages 5 ≡ 1
unfolding safe_end_exclusive retreat contains_tool_call
safe_end = refl

safe_end_exclusive-IsGreatestWhole_example :
    IsGreatestWhole messages (length messages - 5) (safe_end_exclusive messages 5)
safe_end_exclusive-IsGreatestWhole_example =
    safe_end_exclusive-IsGreatestWhole messages 5 (omega arith)

-- The plan that retains three messages, with another one that no test reaches.
abbrev plan : CompactionPlan
plan = get_or_else (build_compaction_plan session 3) (record {
  from_message = user_message "u1" "" 0;
  to_message = user_message "u1" "" 0;
  source_message_count = 0;
  prompt = [];
})

planned : build_compaction_plan session 3 ≡ some plan
unfolding build_compaction_plan plan_to safe_end_exclusive retreat contains_tool_call make_plan
    overlay_end_index
planned = refl

plan_end : plan.source_message_count ≡ 5
unfolding build_compaction_plan plan_to safe_end_exclusive retreat contains_tool_call make_plan
    overlay_end_index
plan_end = refl

abbrev overlay : Compaction
overlay = record {
  id = "o1";
  from_message_id = "u1";
  to_message_id = plan.to_message.id;
  summary = "They talked.";
  source_message_count = 5;
  created_at = 9;
}

build_compaction_plan-Continues_example : Continues session plan overlay
build_compaction_plan-Continues_example =
    build_compaction_plan-Continues session 3 plan overlay session-AreDistinct planned refl

abbrev persisted : PersistedSession
persisted = record {
  version = 2;
  session_id = "s";
  context = default_agent_context;
  chat = record {
    prompt = map (λ entry. entry.message) messages;
    metadata = map metadata_of messages;
  };
  compactions = overlay ∷ [];
}

stored_session_from_persisted-persisted_session_from_stored_example :
    (stored_session_from_persisted (persisted_session_from_stored session) ≡ session)
    × (persisted_session_from_stored (stored_session_from_persisted persisted) ≡ persisted)
stored_session_from_persisted-persisted_session_from_stored_example =
    stored_session_from_persisted-persisted_session_from_stored session persisted refl refl
