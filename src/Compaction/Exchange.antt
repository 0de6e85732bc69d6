-- ===== src/Compaction/Exchange.antt =====
-- Calls of tools and their results in a transcript, for the cuts of
-- packages/agent-runtime/src/chat-compaction.ts.
use chemistry.Prelude.{
  ℕ, zero, suc, ◌≤◌, ◌<◌, Bool, true, false, Option, none, some, List, [], ◌∷◌, any, leb, String,
  ◌≡◌, refl, subst, arith, get_elem?, ◌⊎◌, inl, inr, Bool-cases,
}
use chemistry.Transcript.{Part, Message, ChatMessage}
use chemistry.Compaction.{
  is_tool_call_part, contains_tool_call, is_tool, tool_entry, calling_entry, splits_exchange,
}

-- The results of tools.
pub data IsTool : Message → Type 0 where
  tool : (content : List Part) → IsTool (Message.tool content)

pub data HasCall : List Part → Type 0 where
  here :
      (id name : String) (params : Option String) (provider_executed : Bool) (rest : List Part)
      → HasCall (Part.tool_call id name params provider_executed ∷ rest)
  there : (part : Part) (rest : List Part) → HasCall rest → HasCall (part ∷ rest)

-- An answer of the model that calls a tool.
pub data CallsTool : Message → Type 0 where
  calls : (content : List Part) → HasCall content → CallsTool (Message.assistant content)

-- What holds of a message, if there is one.
abbrev pub IfAny : (Message → Type 0) → Option ChatMessage → Type 0
IfAny P none = Unit
IfAny P (some entry) = P entry.message

-- The places of a transcript to cut at: before it, or where no result of a tool stands on either side
-- and the message before calls no tool.
abbrev pub IsWhole : List ChatMessage → ℕ → Type 0
IsWhole messages zero = Unit
IsWhole messages (suc n) =
    IfAny (λ message. ¬ IsTool message) (get_elem? messages (suc n))
    × IfAny (λ message. ¬ IsTool message) (get_elem? messages n)
    × IfAny (λ message. ¬ CallsTool message) (get_elem? messages n)

pub record At (P : Message → Type 0) (messages : List ChatMessage) (n : ℕ) : Type 0 where
  pub entry : ChatMessage
  pub at : get_elem? messages n ≡ some entry
  pub holds : P entry.message

-- The message that calls tools, and the results behind it up to the last.
pub record IsExchange (messages : List ChatMessage) (call last : ℕ) : Type 0 where
  pub called : At CallsTool messages call
  pub results : (n : ℕ) → call < n → n ≤ last → At IsTool messages n

not_IfAny :
    (P : Message → Type 0) (found : Option ChatMessage) (entry : ChatMessage)
    → found ≡ some entry
    → IfAny (λ message. ¬ P message) found
    → ¬ P entry.message
not_IfAny P found entry e h = subst (IfAny (λ message. ¬ P message)) e h

-- A cut at such a place has every exchange on one side.
pub IsWhole-apart :
    (messages : List ChatMessage) (cut call last : ℕ)
    → IsWhole messages cut
    → IsExchange messages call last
    → (cut ≤ call) ⊎ (last < cut)
IsWhole-apart messages zero call last whole exchange = inl (omega arith)
IsWhole-apart messages (suc n) call last whole exchange = elim (Bool-cases (leb (suc n) call)) [
  | inl before ↦ inl (ground (arith, before))
  | inr behind ↦ elim (Bool-cases (leb (suc n) last)) [
    | inr after ↦ inr (ground (arith, after))
    | inl within ↦
        let result = exchange.results (suc n) (ground (arith, behind)) (ground (arith, within)) in
        absurd (
          not_IfAny IsTool (get_elem? messages (suc n)) result.entry result.at whole.0 result.holds)
  ]
]

of_is_tool : (message : Message) → is_tool message ≡ false → ¬ IsTool message
of_is_tool message e (tool content) = absurd (ground (arith, e))

is_tool_of : (message : Message) → ¬ IsTool message → is_tool message ≡ false
is_tool_of (Message.tool content) h = absurd (h (tool content))
is_tool_of (Message.system content) h = refl
is_tool_of (Message.user content) h = refl
is_tool_of (Message.assistant content) h = refl

HasCall-any : (content : List Part) → HasCall content → any is_tool_call_part content ≡ true
HasCall-any content (here id name params provider_executed rest) = refl
HasCall-any content (there part rest has) = ground (arith, HasCall-any rest has)

any-HasCall : (content : List Part) → any is_tool_call_part content ≡ true → HasCall content
any-HasCall [] e = absurd (ground (arith, e))
any-HasCall (Part.tool_call id name params provider_executed ∷ rest) e =
    here id name params provider_executed rest
any-HasCall (part ∷ rest) e = there part rest (any-HasCall rest e)

of_contains : (message : Message) → contains_tool_call message ≡ false → ¬ CallsTool message
unfolding contains_tool_call
of_contains message e (calls content has) = absurd (ground (arith, e, HasCall-any content has))

contains_of : (message : Message) → ¬ CallsTool message → contains_tool_call message ≡ false
unfolding contains_tool_call
contains_of (Message.assistant content) h = elim (Bool-cases (any is_tool_call_part content)) [
  | inl calling ↦ absurd (h (calls content (any-HasCall content calling)))
  | inr quiet ↦ quiet
]
contains_of (Message.system content) h = refl
contains_of (Message.user content) h = refl
contains_of (Message.tool content) h = refl

tool_entry_lem :
    (found : Option ChatMessage)
    → tool_entry found ≡ false
    → IfAny (λ message. ¬ IsTool message) found
tool_entry_lem none e = tt
tool_entry_lem (some entry) e = of_is_tool entry.message e

calling_entry_lem :
    (found : Option ChatMessage)
    → calling_entry found ≡ false
    → IfAny (λ message. ¬ CallsTool message) found
calling_entry_lem none e = tt
calling_entry_lem (some entry) e = of_contains entry.message e

no_tool_entry :
    (found : Option ChatMessage)
    → IfAny (λ message. ¬ IsTool message) found
    → tool_entry found ≡ false
no_tool_entry none h = refl
no_tool_entry (some entry) h = is_tool_of entry.message h

no_calling_entry :
    (found : Option ChatMessage)
    → IfAny (λ message. ¬ CallsTool message) found
    → calling_entry found ≡ false
no_calling_entry none h = refl
no_calling_entry (some entry) h = contains_of entry.message h

-- The test of the loop, at the place before the message at an index.
abbrev pub splits_at : List ChatMessage → ℕ → Bool
splits_at messages zero = false
splits_at messages (suc n) = splits_exchange (get_elem? messages n) (get_elem? messages (suc n))

pub IsWhole-splits_at :
    (messages : List ChatMessage) (n : ℕ) → splits_at messages n ≡ false → IsWhole messages n
IsWhole-splits_at messages zero e = tt
IsWhole-splits_at messages (suc n) e = (
  tool_entry_lem (get_elem? messages (suc n)) (ground (arith, e)),
  tool_entry_lem (get_elem? messages n) (ground (arith, e)),
  calling_entry_lem (get_elem? messages n) (ground (arith, e)),
)

pub splits_at-IsWhole :
    (messages : List ChatMessage) (n : ℕ) → IsWhole messages n → splits_at messages n ≡ false
splits_at-IsWhole messages zero whole = refl
splits_at-IsWhole messages (suc n) whole =
    rw
      (
        no_tool_entry (get_elem? messages (suc n)) whole.0,
        no_tool_entry (get_elem? messages n) whole.1,
        no_calling_entry (get_elem? messages n) whole.2,
      )
      refl
