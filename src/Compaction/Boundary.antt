-- ===== src/Compaction/Boundary.antt =====
-- Where packages/agent-runtime/src/chat-compaction.ts cuts a transcript.
use chemistry.Prelude.{
  ℕ, zero, suc, ◌-◌, ◌≤◌, ◌<◌, false, List, Option, none, some, [], ◌∷◌, ◌≡◌, refl, subst, arith,
  length, get_elem?, last?, ◌⊎◌, inl, inr,
}
use chemistry.Transcript.{Part, Message, ChatMessage, StoredSession}
use chemistry.Compaction.Exchange.{
  IsWhole, IsExchange, IsWhole-apart, splits_at, IsWhole-splits_at, splits_at-IsWhole,
}
use chemistry.Compaction.{
  CompactionPlan, retreat, safe_end_exclusive, overlay_end_index, after_overlay, at_least_one,
  plan_to, build_compaction_plan, make_plan, compaction_instruction, summary_input, newly_eligible,
}

le_suc : (k n : ℕ) → k ≤ suc n → (k ≤ n) ⊎ (k ≡ suc n)
le_suc k n h = ground arith

retreat-le : (messages : List ChatMessage) (n : ℕ) → retreat messages n ≤ n
unfolding retreat
retreat-le messages zero = omega arith
retreat-le messages (suc n) = ground (arith, retreat-le messages n)

retreat_whole :
    (messages : List ChatMessage) (n : ℕ)
    → n ≤ length messages - 1
    → splits_at messages (retreat messages n) ≡ false
unfolding retreat
retreat_whole messages zero h = refl
retreat_whole messages (suc n) h = ground (arith, h, retreat_whole messages n (omega arith))

retreat_greatest :
    (messages : List ChatMessage) (n k : ℕ)
    → n ≤ length messages - 1
    → k ≤ n
    → splits_at messages k ≡ false
    → k ≤ retreat messages n
unfolding retreat
retreat_greatest messages zero k h le whole = omega arith
retreat_greatest messages (suc n) k h le whole = elim (le_suc k n le) [
  | inl low ↦ ground (arith, h, retreat_greatest messages n k (omega arith) low whole)
  | inr same ↦ ground (arith, h, subst (λ m. splits_at messages m ≡ false) same whole)
]

-- The greatest place to cut at, at or before `end`; it has every exchange on one side.
pub record IsGreatestWhole (messages : List ChatMessage) (end cut : ℕ) : Type 0 where
  pub bounded : cut ≤ end
  pub whole : IsWhole messages cut
  pub greatest : (k : ℕ) → k ≤ end → IsWhole messages k → k ≤ cut
  pub apart : (call last : ℕ) → IsExchange messages call last → (cut ≤ call) ⊎ (last < cut)

-- The cut of a transcript that keeps at least one recent message leaves so many messages, has no tool
-- message on either side and no call of a tool in the message before it, unless it is before the first
-- message, and is the greatest such cut; every message that calls tools and the tool messages right
-- behind it are on one side of it.
pub safe_end_exclusive-IsGreatestWhole :
    (messages : List ChatMessage) (retain_recent_messages : ℕ)
    → 1 ≤ retain_recent_messages
    → IsGreatestWhole messages
        (length messages - retain_recent_messages)
        (safe_end_exclusive messages retain_recent_messages)
unfolding safe_end_exclusive
safe_end_exclusive-IsGreatestWhole messages retain_recent_messages h =
    let end = length messages - retain_recent_messages in
    let whole =
      IsWhole-splits_at messages (retreat messages end)
        (retreat_whole messages end (omega arith)) in
    record {
      bounded = retreat-le messages end;
      whole = whole;
      greatest = λ k le place.
          retreat_greatest messages end k (omega arith) le (splits_at-IsWhole messages k place);
      apart = λ call last exchange.
          IsWhole-apart messages (retreat messages end) call last whole exchange;
    }

-- What the model is asked: the instruction, then the text of what is to be summarized.
abbrev pub Prompts : StoredSession → Option ℕ → ℕ → CompactionPlan → Type 0
Prompts session previous_end n plan =
    plan.prompt
    ≡ compaction_instruction
      ∷ Message.user (
          Part.text (
            summary_input (last? session.compactions)
              (newly_eligible session.messages previous_end n))
          ∷ [])
      ∷ []

-- What a plan covers of a session: the messages before a cut.
pub record Covers (session : StoredSession) (retained : ℕ) (plan : CompactionPlan) : Type 0 where
  pub from_first : get_elem? session.messages 0 ≡ some plan.from_message
  pub to_last : get_elem? session.messages (plan.source_message_count - 1) ≡ some plan.to_message
  pub several : 2 ≤ plan.source_message_count
  pub advances :
      after_overlay (overlay_end_index session.messages (last? session.compactions))
      < plan.source_message_count
  pub cut :
      IsGreatestWhole session.messages
        (length session.messages - retained)
        plan.source_message_count
  pub prompts :
      Prompts session
        (overlay_end_index session.messages (last? session.compactions))
        plan.source_message_count
        plan

make_plan_lem :
    (session : StoredSession) (previous_end : Option ℕ) (n : ℕ) (first last : Option ChatMessage)
    (plan : CompactionPlan)
    → make_plan session previous_end n first last ≡ some plan
    → (first ≡ some plan.from_message)
      × (last ≡ some plan.to_message)
      × (n ≡ plan.source_message_count)
      × Prompts session previous_end n plan
unfolding make_plan
make_plan_lem session previous_end n (some first) (some last) plan e = ground (arith, e)
make_plan_lem session previous_end n none last plan e = absurd (ground (arith, e))
make_plan_lem session previous_end n (some first) none plan e = absurd (ground (arith, e))

-- The end of a plan, as a plan to this end has it.
record PlansTo (session : StoredSession) (n : ℕ) (plan : CompactionPlan) : Type 0 where
  several : 2 ≤ n
  advances : after_overlay (overlay_end_index session.messages (last? session.compactions)) < n
  made :
      (get_elem? session.messages 0 ≡ some plan.from_message)
      × (get_elem? session.messages (n - 1) ≡ some plan.to_message)
      × (n ≡ plan.source_message_count)
      × Prompts session (overlay_end_index session.messages (last? session.compactions)) n plan

plan_to-PlansTo :
    (session : StoredSession) (n : ℕ) (plan : CompactionPlan)
    → plan_to session n ≡ some plan
    → PlansTo session n plan
unfolding plan_to
plan_to-PlansTo session n plan e =
    let previous_end = overlay_end_index session.messages (last? session.compactions) in
    let made =
      make_plan_lem session previous_end n (get_elem? session.messages 0)
        (get_elem? session.messages (n - 1)) plan in
    record {
      several = ground (arith, e);
      advances = ground (arith, e);
      made = made (ground (arith, e));
    }

pub build_compaction_plan-Covers :
    (session : StoredSession) (retain_recent_messages : ℕ) (plan : CompactionPlan)
    → build_compaction_plan session retain_recent_messages ≡ some plan
    → Covers session (at_least_one retain_recent_messages) plan
unfolding build_compaction_plan plan_to
build_compaction_plan-Covers session retain_recent_messages plan e =
    let retained = at_least_one retain_recent_messages in
    let n = safe_end_exclusive session.messages retained in
    let to = plan_to-PlansTo session n plan e in
    let at_count =
      subst
        (λ m.
          PlansTo session m plan
          × IsGreatestWhole session.messages (length session.messages - retained) m)
        to.made.2
        (to, safe_end_exclusive-IsGreatestWhole session.messages retained (ground arith)) in
    record {
      from_first = to.made.0;
      to_last = at_count.0.made.1;
      several = at_count.0.several;
      advances = at_count.0.advances;
      cut = at_count.1;
      prompts = at_count.0.made.3;
    }
