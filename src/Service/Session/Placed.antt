-- ===== src/Service/Session/Placed.antt =====
-- The place of a partial answer in a transcript: `persistPartial` of
-- packages/agent-runtime/src/agent-service-live.ts.
use chemistry.Prelude.{
  String, Bool, true, ◌&&◌, not, Option, none, some, List, [], ◌∷◌, ◌++◌, ◌≡◌, refl, arith, eq_iff,
  ◌==◌, string_eq, find, filter, any,
}
use chemistry.Transcript.{ChatMessage}
use chemistry.Service.Response.{is_assistant, replace_message}
use chemistry.Service.Session.{put_partial}

replace_message_has :
    (id : String) (partial : ChatMessage) (messages : List ChatMessage) (existing : ChatMessage)
    → (partial.id == id && is_assistant partial.message) ≡ true
    → find (λ message. message.id == id) messages ≡ some existing
    → any
        (λ message. message.id == id && is_assistant message.message)
        (replace_message id partial messages)
      ≡ true
replace_message_has id partial [] existing is found = absurd (ground (arith, found))
replace_message_has id partial (message ∷ rest) existing is found =
    ground (arith, is, found, replace_message_has id partial rest existing is)

any-append_last :
    (p : ChatMessage → Bool) (messages : List ChatMessage) (last : ChatMessage)
    → p last ≡ true
    → any p (messages ++ last ∷ []) ≡ true
any-append_last p [] last h = ground (arith, h)
any-append_last p (message ∷ rest) last h = ground (arith, any-append_last p rest last h)

pub put_partial_has :
    (partial : ChatMessage) (messages : List ChatMessage) (existing : Option ChatMessage)
    → is_assistant partial.message ≡ true
    → find (λ message. message.id == partial.id) messages ≡ existing
    → any
        (λ message. message.id == partial.id && is_assistant message.message)
        (put_partial existing partial messages)
      ≡ true
unfolding put_partial
put_partial_has partial messages none is found =
    any-append_last (λ message. message.id == partial.id && is_assistant message.message) messages
      partial (ground (arith, is, eq_iff partial.id partial.id))
put_partial_has partial messages (some existing) is found =
    replace_message_has partial.id partial messages existing
      (ground (arith, is, eq_iff partial.id partial.id)) found

others_replaced :
    (partial : ChatMessage) (messages : List ChatMessage)
    → filter
        (λ message. not (message.id == partial.id))
        (replace_message partial.id partial messages)
      ≡ filter (λ message. not (message.id == partial.id)) messages
others_replaced partial [] = refl
others_replaced partial (message ∷ rest) =
    ground (arith, others_replaced partial rest, eq_iff partial.id partial.id)

others_appended :
    (partial : ChatMessage) (messages : List ChatMessage)
    → filter (λ message. not (message.id == partial.id)) (messages ++ partial ∷ [])
      ≡ filter (λ message. not (message.id == partial.id)) messages
others_appended partial [] = ground (arith, eq_iff partial.id partial.id)
others_appended partial (message ∷ rest) = ground (arith, others_appended partial rest)

pub put_partial_others :
    (partial : ChatMessage) (messages : List ChatMessage) (existing : Option ChatMessage)
    → filter (λ message. not (message.id == partial.id)) (put_partial existing partial messages)
      ≡ filter (λ message. not (message.id == partial.id)) messages
unfolding put_partial
put_partial_others partial messages none = others_appended partial messages
put_partial_others partial messages (some existing) = others_replaced partial messages

find_replaced :
    (partial : ChatMessage) (messages : List ChatMessage) (existing : ChatMessage)
    → find (λ message. message.id == partial.id) messages ≡ some existing
    → find (λ message. message.id == partial.id) (replace_message partial.id partial messages)
      ≡ some partial
find_replaced partial [] existing found = absurd (ground (arith, found))
find_replaced partial (message ∷ rest) existing found =
    ground (arith, found, find_replaced partial rest existing, eq_iff partial.id partial.id)

find_appended :
    (partial : ChatMessage) (messages : List ChatMessage)
    → find (λ message. message.id == partial.id) messages ≡ none
    → find (λ message. message.id == partial.id) (messages ++ partial ∷ []) ≡ some partial
find_appended partial [] found = ground (arith, eq_iff partial.id partial.id)
find_appended partial (message ∷ rest) found = ground (arith, found, find_appended partial rest)

pub put_partial_found :
    (partial : ChatMessage) (messages : List ChatMessage) (existing : Option ChatMessage)
    → find (λ message. message.id == partial.id) messages ≡ existing
    → find (λ message. message.id == partial.id) (put_partial existing partial messages)
      ≡ some partial
unfolding put_partial
put_partial_found partial messages none found = find_appended partial messages found
put_partial_found partial messages (some existing) found =
    find_replaced partial messages existing found

replace_replaced :
    (partial : ChatMessage) (messages : List ChatMessage)
    → replace_message partial.id partial (replace_message partial.id partial messages)
      ≡ replace_message partial.id partial messages
replace_replaced partial [] = refl
replace_replaced partial (message ∷ rest) =
    ground (arith, replace_replaced partial rest, eq_iff partial.id partial.id)

replace_appended :
    (partial : ChatMessage) (messages : List ChatMessage)
    → find (λ message. message.id == partial.id) messages ≡ none
    → replace_message partial.id partial (messages ++ partial ∷ []) ≡ messages ++ partial ∷ []
replace_appended partial [] found = ground (arith, eq_iff partial.id partial.id)
replace_appended partial (message ∷ rest) found =
    ground (arith, found, replace_appended partial rest)

pub put_partial_again :
    (partial : ChatMessage) (messages : List ChatMessage) (existing : Option ChatMessage)
    → find (λ message. message.id == partial.id) messages ≡ existing
    → put_partial (some partial) partial (put_partial existing partial messages)
      ≡ put_partial existing partial messages
unfolding put_partial
put_partial_again partial messages none found = replace_appended partial messages found
put_partial_again partial messages (some existing) found = replace_replaced partial messages
