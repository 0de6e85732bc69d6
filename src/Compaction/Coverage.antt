-- ===== src/Compaction/Coverage.antt =====
-- What the overlay of a plan of packages/agent-runtime/src/chat-compaction.ts leaves to be seen of a
-- transcript, as packages/agent-runtime/src/conversation.ts shows it.
use chemistry.Prelude.{
  Option, none, map, ℕ, zero, suc, ◌+◌, ◌-◌, ◌≤◌, String, List, [], ◌∷◌, ◌++◌, some, ◌≡◌, refl,
  subst, ap, sym, ◌∙◌, arith, take, drop, get_elem?, last?, All, string_eq, eq_iff,
}
use text.Mathlib.TextLemmas.{nil-append, append-nil, append_assoc as text_assoc}
use chemistry.Prelude.Text.{◌&◌, join}
use chemistry.Transcript.{Part, Message, ChatMessage, Compaction, StoredSession}
use chemistry.Conversation.{message_index, visible_history, visible_under, visible_after}
use chemistry.Compaction.{
  CompactionPlan, compaction_instruction, summary_input, render_message, overlay_end_index,
  after_overlay, newly_eligible, build_compaction_plan,
}
use chemistry.Compaction.Boundary.{build_compaction_plan-Covers}

-- No two messages have one id.
abbrev pub AreDistinct : List ChatMessage → Type 0
AreDistinct [] = Unit
AreDistinct (entry ∷ rest) = All (λ other. ¬ (other.id ≡ entry.id)) rest × AreDistinct rest

unlike :
    (id : String) (rest : List ChatMessage) (n : ℕ) (found : ChatMessage)
    → All (λ other. ¬ (other.id ≡ id)) rest
    → get_elem? rest n ≡ some found
    → ¬ (found.id ≡ id)
unlike id [] n found others e = absurd (ground (arith, e))
unlike id (entry ∷ rest) zero found others e = λ same. others.0 (ground (arith, e, same))
unlike id (entry ∷ rest) (suc n) found others e = unlike id rest n found others.1 e

-- Among distinct messages the search for an id finds the message that has it.
pub message_index-get_elem? :
    (messages : List ChatMessage) (n : ℕ) (found : ChatMessage)
    → AreDistinct messages
    → get_elem? messages n ≡ some found
    → message_index messages found.id ≡ some n
message_index-get_elem? [] n found distinct e = absurd (ground (arith, e))
message_index-get_elem? (entry ∷ rest) zero found distinct e =
    ground (arith, e, eq_iff entry.id found.id)
message_index-get_elem? (entry ∷ rest) (suc n) found distinct e = ground (
  arith,
  e,
  unlike entry.id rest n found distinct.0 e,
  message_index-get_elem? rest n found distinct.1 e,
  eq_iff entry.id found.id,
)

drop-drop-take :
    (messages : List ChatMessage) (k n : ℕ)
    → k ≤ n
    → drop k messages ≡ drop k (take n messages) ++ drop n messages
drop-drop-take messages zero zero le = refl
drop-drop-take [] (suc k) (suc n) le = refl
drop-drop-take (entry ∷ rest) (suc k) (suc n) le = drop-drop-take rest k n (omega arith)
drop-drop-take [] zero (suc n) le = refl
drop-drop-take (entry ∷ rest) zero (suc n) le =
    ap (λ messages. entry ∷ messages) (drop-drop-take rest zero n (omega arith))
drop-drop-take messages (suc k) zero le = absurd (omega arith)

last?-append : (xs : List Compaction) (x : Compaction) → last? (xs ++ x ∷ []) ≡ some x
last?-append [] x = refl
last?-append (y ∷ []) x = refl
last?-append (y ∷ z ∷ zs) x = last?-append (z ∷ zs) x

-- `{ ...current, compactions: [...current.compactions, overlay] }`
abbrev pub overlaid : StoredSession → Compaction → StoredSession
overlaid session overlay = record session { compactions = session.compactions ++ overlay ∷ [] }

visible_messages :
    (session : StoredSession)
    → (visible_history session).messages
      ≡ drop
          (after_overlay (overlay_end_index session.messages (last? session.compactions)))
          session.messages
unfolding visible_history visible_under visible_after overlay_end_index
visible_messages session = ground arith

visible_overlaid :
    (session : StoredSession) (overlay : Compaction) (n : ℕ)
    → message_index session.messages overlay.to_message_id ≡ some n
    → visible_history (overlaid session overlay)
      ≡ record { summary = some overlay.summary; messages = drop (n + 1) session.messages }
unfolding visible_history visible_under visible_after
visible_overlaid session overlay n e = ground (arith, e, last?-append session.compactions overlay)

back_to :
    (messages : List ChatMessage) (n : ℕ) → 2 ≤ n → drop (n - 1 + 1) messages ≡ drop n messages
back_to messages n several = ap (λ m. drop m messages) (omega (arith, several))

-- A text that has another one in it.
pub record Mentions (whole piece : String) : Type 0 where
  pub before : String
  pub after : String
  pub text : whole ≡ before & piece & after

-- The messages as the model reads them.
abbrev pub transcript : List ChatMessage → String
transcript messages = join "\n\n" (map (λ entry. render_message entry.message) messages)

-- The summary of the overlay, if there is one.
abbrev pub MentionsLatest : String → Option Compaction → Type 0
MentionsLatest input none = Unit
MentionsLatest input (some overlay) = Mentions input overlay.summary

-- A prompt that asks to summarize these messages, and the summary there is already.
pub record Summarizes (latest : Option Compaction) (messages : List ChatMessage)
    (prompt : List Message) : Type 0 where
  pub input : String
  pub asks : prompt ≡ compaction_instruction ∷ Message.user (Part.text input ∷ []) ∷ []
  pub new : Mentions input (transcript messages)
  pub previous : MentionsLatest input latest

summary_input-Mentions :
    (latest : Option Compaction) (messages : List ChatMessage)
    → Mentions (summary_input latest messages) (transcript messages)
unfolding summary_input
summary_input-Mentions none messages = record {
  before = "";
  after = "";
  text = sym (nil-append _ ∙ append-nil (transcript messages));
}
summary_input-Mentions (some overlay) messages = record {
  before =
      ("<previous-summary>\n" & overlay.summary) & "\n</previous-summary>\n\n<new-transcript>\n";
  after = "\n</new-transcript>";
  text = sym (
      text_assoc ("<previous-summary>\n" & overlay.summary) _ _
      ∙ text_assoc "<previous-summary>\n" overlay.summary _);
}

summary_input-MentionsLatest :
    (latest : Option Compaction) (messages : List ChatMessage)
    → MentionsLatest (summary_input latest messages) latest
unfolding summary_input
summary_input-MentionsLatest none messages = tt
summary_input-MentionsLatest (some overlay) messages = record {
  before = "<previous-summary>\n";
  after = _;
  text = refl;
}

-- What was seen and is now covered, which the plan asks to summarize, then what is still seen, is
-- what was seen before.
pub record Continues (session : StoredSession) (plan : CompactionPlan) (overlay : Compaction)
    : Type 0 where
  pub covered : List ChatMessage
  pub asks : Summarizes (last? session.compactions) covered plan.prompt
  pub summarized : (visible_history (overlaid session overlay)).summary ≡ some overlay.summary
  pub continues :
      (visible_history session).messages
      ≡ covered ++ (visible_history (overlaid session overlay)).messages

-- In a session whose messages have distinct ids, an overlay that ends where a plan does shows its
-- own summary, and the messages that were visible before it are those whose text, with the summary of
-- the latest overlay, is in the plan's prompt, followed by those that are visible after it: none is
-- lost, repeated or moved.
pub build_compaction_plan-Continues :
    (session : StoredSession) (retain_recent_messages : ℕ) (plan : CompactionPlan)
    (overlay : Compaction)
    → AreDistinct session.messages
    → build_compaction_plan session retain_recent_messages ≡ some plan
    → overlay.to_message_id ≡ plan.to_message.id
    → Continues session plan overlay
unfolding newly_eligible
build_compaction_plan-Continues session retain_recent_messages plan overlay distinct e ends =
    let covers = build_compaction_plan-Covers session retain_recent_messages plan e in
    let n = plan.source_message_count in
    let at =
      subst (λ id. message_index session.messages id ≡ some (n - 1)) (sym ends)
        (message_index-get_elem? session.messages (n - 1) plan.to_message distinct
          covers.to_last) in
    let previous_end = overlay_end_index session.messages (last? session.compactions) in
    let shown = visible_overlaid session overlay (n - 1) at in
    let covered = newly_eligible session.messages previous_end n in
    record {
      covered = covered;
      asks = record {
        input = summary_input (last? session.compactions) covered;
        asks = covers.prompts;
        new = summary_input-Mentions (last? session.compactions) covered;
        previous = summary_input-MentionsLatest (last? session.compactions) covered;
      };
      summarized = ap (λ visible. visible.summary) shown;
      continues =
          visible_messages session
          ∙ drop-drop-take session.messages (after_overlay previous_end) n
              (omega (arith, covers.advances))
          ∙ ap (λ rest. drop (after_overlay previous_end) (take n session.messages) ++ rest)
              (sym (
                ap (λ visible. visible.messages) shown
                ∙ back_to session.messages n covers.several));
    }
