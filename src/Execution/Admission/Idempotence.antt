-- ===== src/Execution/Admission/Idempotence.antt =====
-- `admit` of a submission again, and what `claim` requires.
use chemistry.Prelude.{
  sym, ◌∙◌, ℕ, ◌+◌, ◌≤◌, ◌<◌, String, Bool, true, Option, none, some, List, [], ◌∷◌, ◌++◌, ◌≡◌,
  refl, arith, inl, inr, ◌⊎◌, eq_iff, ◌==◌, string_eq, length, find, filter, not, head?, is_none,
  nullable_eq, nullable_beq_iff, ◌||◌,
}
use chemistry.Runtime.State.{RuntimeState, RuntimeOperationRecord, find_runtime_operation}
use chemistry.Runtime.Errors.{
  ok, err, ◌>>=◌, Ensures, Ensures-returns, returned, Ensures-or_fail, Ensures-guard,
  Ensures-return_if, Ensures-on_null,
}
use chemistry.Execution.Helpers.{Environment, TurnMode, fresh, queue_position, owns_unexpired_lease}
use chemistry.Execution.Turn.{holds_fence}
use chemistry.Execution.Lookup.{operation_id-find}
use chemistry.Execution.Settle.Convergence.{find-put_operation, find-put_other}
use chemistry.Execution.Admission.{
  AdmitRequest, RuntimeAdmission, ClaimResult, claimed, admit, enqueue, admitted_operation,
  admitted_stream, queue_error, new_admission, find_submission, claim, install_claim, fifo_head,
  claimed_operation,
}

find-append_none {ℓ} :
    {A : Type ℓ} (p : A → Bool) (xs : List A) (a : A)
    → find p xs ≡ none
    → p a ≡ true
    → find p (xs ++ a ∷ []) ≡ some a
find-append_none p [] a e h = rw h
find-append_none p (x ∷ xs) a e h = ground (arith, find-append_none p xs a)

-- The answer to a submission that the record holds.
abbrev pub duplicate_of : RuntimeState → RuntimeOperationRecord → RuntimeAdmission
duplicate_of state operation = record {
  operation = operation;
  queue_position = queue_position state operation.operation_id;
  duplicate = true;
}

-- After the transition the record answers for the submission.
abbrev Recorded : String → RuntimeState × RuntimeAdmission → Type 0
Recorded submission_id (state, admission) =
    find_submission state submission_id ≡ some admission.operation

admit-Recorded :
    (env : Environment) (s : RuntimeState) (request : AdmitRequest) (now : ℕ)
    → Ensures (Recorded request.submission_id) (admit env request now s)
unfolding admit enqueue admitted_operation find_submission
admit-Recorded env s request now =
    Ensures-on_null
      (λ new. Ensures-guard _ λ room. returned (
        find-append_none _ s.operations _ new
          ((eq_iff request.submission_id request.submission_id).1 refl)))
      (λ existing found. returned found)

-- After a submission was admitted, or answered as a duplicate, submitting it again, with whatever
-- prompt and identifiers and at whatever time, changes nothing and returns the same operation,
-- marked as a duplicate.
pub admit-admit :
    (env : Environment) (s t : RuntimeState) (request again : AdmitRequest) (now later : ℕ)
    (admission : RuntimeAdmission)
    → again.submission_id ≡ request.submission_id
    → admit env request now s ≡ ok (t, admission)
    → admit env again later t ≡ ok (t, duplicate_of t admission.operation)
unfolding admit ◌>>=◌
admit-admit env s t request again now later admission same admitted = rw (
  same,
  Ensures-returns {P = Recorded request.submission_id} (admit-Recorded env s request now) admitted,
)

-- A new submission is refused when the queue is full, and otherwise goes to the end of the queue
-- with an operation and a stream of its own.
admit_new_lem :
    (env : Environment) (s : RuntimeState) (request : AdmitRequest) (now : ℕ)
    → find_submission s request.submission_id ≡ none
    → (env.limits.max_queued_turns ≤ length s.queue
        → admit env request now s ≡ err (queue_error env))
      × (length s.queue < env.limits.max_queued_turns
          → (admit env request now s ≡ ok (enqueue s request now, new_admission s request now))
            × ((enqueue s request now).queue ≡ s.queue ++ request.operation_id ∷ [])
            × ((enqueue s request now).operations
                ≡ s.operations ++ admitted_operation request now ∷ [])
            × ((enqueue s request now).streams ≡ s.streams ++ admitted_stream request now ∷ []))
unfolding admit enqueue ◌>>=◌
admit_new_lem env s request now new =
    (λ full. rw new (ground arith), λ room. (rw new (ground arith), refl, refl, refl))

-- What a claim of `id` by this boot requires and does.
pub record Claims (env : Environment) (s : RuntimeState) (id : String) (mode : TurnMode) (now : ℕ)
    (t : RuntimeState) (winner : RuntimeOperationRecord) : Type 0 where
  pub unowned : (s.active_operation_id ≡ none) ⊎ (s.active_operation_id ≡ some id)
  pub head : mode ≡ fresh → s.active_operation_id ≡ none → head? s.queue ≡ some id
  pub active : t.active_operation_id ≡ some id
  pub dequeued : t.queue ≡ filter (λ queued. not (queued == id)) s.queue
  pub stored : find_runtime_operation t id ≡ some winner
  pub held :
      (later : ℕ)
      → later < now + env.limits.lease_duration_ms
      → holds_fence winner winner later ≡ true
  pub others :
      (other : String)
      → ¬ (other ≡ id)
      → find_runtime_operation t other ≡ find_runtime_operation s other
  pub generation : winner.generation ≡ s.generation + 1
  pub session_generation : t.generation ≡ s.generation + 1
  pub owner : winner.owner_boot_id ≡ some env.boot_id
  pub lease : winner.lease_expires_at ≡ some (now + env.limits.lease_duration_ms)
  pub streams : t.streams ≡ s.streams

abbrev ClaimsIf :
    Environment → RuntimeState → String → TurnMode → ℕ → RuntimeState × ClaimResult → Type 0
ClaimsIf env s id mode now (t, ClaimResult.claimed winner) = Claims env s id mode now t winner
ClaimsIf env s id mode now (t, ClaimResult.terminal operation) = t ≡ s

unowned_of :
    (active : Option String) (id : String)
    → is_none active || active == some id ≡ true
    → (active ≡ none) ⊎ (active ≡ some id)
unowned_of none id e = inl refl
unowned_of (some other) id e = inr (ground (arith, eq_iff other id))

head_of :
    (mode : TurnMode) (s : RuntimeState) (id : String)
    → fifo_head mode s id ≡ true
    → mode ≡ fresh
    → s.active_operation_id ≡ none
    → head? s.queue ≡ some id
head_of mode s id e same idle =
    (nullable_beq_iff (head? s.queue) (some id)).0 (ground (arith, e, same, idle))

claim-ClaimsIf :
    (env : Environment) (s : RuntimeState) (id : String) (mode : TurnMode) (now : ℕ)
    → Ensures (ClaimsIf env s id mode now) (claim env id mode now s)
unfolding claim install_claim claimed_operation holds_fence owns_unexpired_lease
claim-ClaimsIf env s id mode now = Ensures-or_fail _ λ operation found.
    Ensures-return_if _ (λ over. refl)
      λ live. Ensures-guard _ λ free. Ensures-guard _ λ at_head. returned (record {
        unowned = unowned_of s.active_operation_id id free;
        head = head_of mode s id at_head;
        active = refl;
        dequeued = refl;
        stored =
            find-put_operation s _ id operation _ refl (operation_id-find s id operation found)
              found;
        held = λ later in_time. ground (arith, in_time, eq_iff env.boot_id env.boot_id);
        others = λ other apart.
            find-put_other s _ other _ refl
              (λ same. apart (sym same ∙ operation_id-find s id operation found));
        generation = refl;
        session_generation = refl;
        owner = refl;
        lease = refl;
        streams = refl;
      })

-- A claim succeeds only while no other operation is active, a fresh one from an idle session only
-- for the head of the queue; it makes the operation active and takes it off the queue with the order of
-- the others kept. The operation is then stored as the one returned, which this boot owns under the
-- session's next generation, and which passes the fence of a write until its lease expires; all other
-- operations and all streams are as they were.
pub claim-Claims :
    (env : Environment) (s t : RuntimeState) (id : String) (mode : TurnMode) (now : ℕ)
    (winner : RuntimeOperationRecord)
    → claim env id mode now s ≡ ok (t, claimed winner)
    → Claims env s id mode now t winner
claim-Claims env s t id mode now winner e =
    Ensures-returns {P = ClaimsIf env s id mode now} (claim-ClaimsIf env s id mode now) e
