-- ===== src/Client/Replay.antt =====
-- The browser's reducer on the events of one stream.
use chemistry.Prelude.{
  ℕ, zero, suc, ◌+◌, ◌-◌, ◌≤◌, ℤ, pos, ◌+ℤ◌, pos_part, neg_part, eq_of_parts, leb_ℤ, String, Bool,
  true, some, List, [], ◌∷◌, ◌++◌, ◌≡◌, refl, sym, ap, ◌∙◌, arith, eq_iff, string_eq, length,
  length-append, drop, All, All-append, Bool-cases, inl, inr,
}
use chemistry.Protocol.{DurableStreamEvent}
use chemistry.Execution.Streams.{Chain, Chain-append}
use chemistry.Client.{
  RuntimeSocketSnapshot, max_recent_events, recent, high_water, eq_ℤ, accept_event,
  apply_stream_event, apply_runtime_server_frame, receive,
}

drop-nil {ℓ} : {A : Type ℓ} (n : ℕ) → drop {A = A} n [] ≡ []
drop-nil zero = refl
drop-nil (suc n) = refl

drop-drop {ℓ} : {A : Type ℓ} (m k : ℕ) (xs : List A) → drop m (drop k xs) ≡ drop (k + m) xs
drop-drop m zero xs = ap (λ n. drop n xs) (omega arith)
drop-drop m (suc k) [] = drop-nil m ∙ sym (drop-nil (suc k + m))
drop-drop m (suc k) (x ∷ xs) =
    drop-drop m k xs
    ∙ ap (λ n. drop n (x ∷ xs)) (let e : suc (k + m) ≡ suc k + m = omega arith in e)

drop-append {ℓ} :
    {A : Type ℓ} (k : ℕ) (xs ys : List A) → k ≤ length xs → drop k (xs ++ ys) ≡ drop k xs ++ ys
drop-append zero xs ys h = refl
drop-append (suc k) [] ys h = absurd (omega arith)
drop-append (suc k) (x ∷ xs) ys h = drop-append k xs ys (omega arith)

length-drop {ℓ} : {A : Type ℓ} (k : ℕ) (xs : List A) → length (drop k xs) ≡ length xs - k
length-drop zero xs = omega arith
length-drop (suc k) [] = omega arith
length-drop (suc k) (x ∷ xs) = omega (arith, length-drop k xs)

-- Cutting in between changes nothing of the last events.
pub recent-recent : (xs ys : List DurableStreamEvent) → recent (recent xs ++ ys) ≡ recent (xs ++ ys)
recent-recent xs ys =
    let k : ℕ = length xs - max_recent_events in
    ap recent (sym (drop-append k xs ys (omega arith)))
    ∙ drop-drop (length (drop k (xs ++ ys)) - max_recent_events) k (xs ++ ys)
    ∙ ap (λ n. drop n (xs ++ ys)) (omega (arith, length-drop k (xs ++ ys), length-append xs ys))

-- The events kept never exceed the bound.
length-recent : (xs : List DurableStreamEvent) → length (recent xs) ≤ max_recent_events
length-recent xs = omega (arith, length-drop (length xs - max_recent_events) xs)

-- The browser is following the stream `id`, and the events that it keeps are a gapless run of it
-- that ends at its cursor.
pub record Follows (id : String) (snapshot : RuntimeSocketSnapshot) : Type 0 where
  pub following : snapshot.stream_id ≡ some id
  pub start : ℤ
  pub run : Chain start snapshot.recent_events snapshot.last_sequence
  pub tagged : All (λ event. event.stream_id ≡ id) snapshot.recent_events
  pub within : length snapshot.recent_events ≤ max_recent_events

Chain-drop :
    (k : ℕ) (from to : ℤ) (events : List DurableStreamEvent)
    → Chain from events to
    → (start : ℤ) × Chain start (drop k events) to
Chain-drop zero from to events h = (from, h)
Chain-drop (suc k) from to [] h = (from, h)
Chain-drop (suc k) from to (x ∷ xs) h = Chain-drop k x.sequence to xs h.1

All-drop :
    (P : DurableStreamEvent → Type 0) (k : ℕ) (events : List DurableStreamEvent)
    → All P events
    → All P (drop k events)
All-drop P zero events h = h
All-drop P (suc k) [] h = h
All-drop P (suc k) (x ∷ xs) h = All-drop P k xs h.1

pub high_water-same :
    (current : RuntimeSocketSnapshot) (event : DurableStreamEvent) (id : String)
    → current.stream_id ≡ some id
    → event.stream_id ≡ id
    → high_water current event ≡ current.last_sequence
high_water-same current event id held same = rw held (ground (arith, eq_iff id event.stream_id))

eq_ℤ-eq : (a b : ℤ) → eq_ℤ a b ≡ true → a ≡ b
eq_ℤ-eq a b h = eq_of_parts a b (ground arith)

pub eq-eq_ℤ : (a b : ℤ) → a ≡ b → eq_ℤ a b ≡ true
eq-eq_ℤ a b h = ground (arith, ap pos_part h, ap neg_part h)

accept-Follows :
    (id : String) (current : RuntimeSocketSnapshot) (event : DurableStreamEvent) (replay : Bool)
    → Follows id current
    → event.stream_id ≡ id
    → event.sequence ≡ current.last_sequence +ℤ pos 1
    → Follows id (accept_event current event replay).snapshot
unfolding accept_event
accept-Follows id current event replay h same next =
    let events : List DurableStreamEvent = current.recent_events ++ event ∷ [] in
    let cut =
      Chain-drop (length events - max_recent_events) h.start event.sequence events
        (Chain-append h.start current.last_sequence current.recent_events event h.run next) in
    record {
      following = ap some same;
      start = cut.0;
      run = cut.1;
      tagged =
          All-drop _ (length events - max_recent_events) events
            (All-append _ current.recent_events (event ∷ []) h.tagged (same, tt));
      within = length-recent events;
    }

step-Follows :
    (id : String) (current : RuntimeSocketSnapshot) (event : DurableStreamEvent) (replay : Bool)
    → Follows id current
    → event.stream_id ≡ id
    → Follows id (apply_stream_event current event replay).snapshot
unfolding apply_stream_event
step-Follows id current event replay h same =
    rw (high_water-same current event id h.following same)
      (elim (Bool-cases (leb_ℤ event.sequence current.last_sequence)) [
        | inl old ↦ rw old h
        | inr new ↦
            rw new (elim (Bool-cases (eq_ℤ event.sequence (current.last_sequence +ℤ pos 1))) [
              | inl next ↦
                  rw next (accept-Follows id current event replay h same (eq_ℤ-eq _ _ next))
              | inr gap ↦ rw gap (record {
                following = h.following;
                start = h.start;
                run = h.run;
                tagged = h.tagged;
                within = h.within;
              })
            ])
      ])

-- Whatever events of the stream that it follows reach the browser, in whatever order, again or with gaps, it keeps
-- at most 2048 of them, all of that stream, a gapless run in order that ends at its cursor.
pub receive-Follows :
    (id : String) (current : RuntimeSocketSnapshot) (replay : Bool)
    (events : List DurableStreamEvent)
    → Follows id current
    → All (λ event. event.stream_id ≡ id) events
    → Follows id (receive replay current events)
unfolding receive apply_runtime_server_frame
receive-Follows id current replay [] h tagged = h
receive-Follows id current replay (event ∷ rest) h tagged =
    receive-Follows id (apply_stream_event current event replay).snapshot replay rest
      (step-Follows id current event replay h tagged.0) tagged.1
