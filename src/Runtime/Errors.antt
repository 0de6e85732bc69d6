-- ===== src/Runtime/Errors.antt =====
-- runtime-store.ts: the errors of the runtime, and a mutation that either commits or changes nothing.
-- `DurableExecutionError` of durable-execution.ts joins them with the errors of the agent.
use chemistry.Prelude.{ℕ, ℤ, String, Bool, true, false, Option, none, some, ◌≡◌, refl, subst, arith}
use chemistry.Protocol.{AgentRpcError}
use chemistry.Runtime.State.{RuntimeState}

pub data DurableExecutionError : Type 0 where
  rpc : AgentRpcError → DurableExecutionError
  persistence : String → String → DurableExecutionError
  transition : String → String → DurableExecutionError
  capacity : String → ℕ → String → DurableExecutionError
  cursor : String → ℤ → ℤ → String → DurableExecutionError
  fence : String → ℕ → ℕ → String → DurableExecutionError

pub data Result {ℓ} (A : Type ℓ) : Type ℓ where
  ok : A → Result A
  err : DurableExecutionError → Result A

-- `if (!test) return yield* error`
pub guard : Bool → DurableExecutionError → Result (Unit {0})
guard true e = ok tt
guard false e = err e

-- `if (value === undefined) return yield* error`
pub or_fail {ℓ} : {A : Type ℓ} → Option A → DurableExecutionError → Result A
or_fail none e = err e
or_fail (some a) e = ok a

-- `if (test) return value`, and what follows it.
pub return_if {ℓ} : {A : Type ℓ} → Bool → A → Result A → Result A
return_if true a rest = ok a
return_if false a rest = rest

-- `if (test) return yield* first`, and what follows it.
pub branch {ℓ} : {A : Type ℓ} → Bool → Result A → Result A → Result A
branch true first rest = first
branch false first rest = rest

-- A nullable value: what is done without one, and with one.
pub on_null {ℓ κ} : {A : Type ℓ} {B : Type κ} → Option A → Result B → (A → Result B) → Result B
on_null none r f = r
on_null (some a) r f = f a

infixl 5 ◌>>=◌ ◌>>◌
-- Opening this opens the functions above too.
unfoldable pub ◌>>=◌ {ℓ κ} : {A : Type ℓ} {B : Type κ} → Result A → (A → Result B) → Result B
unfolding guard or_fail return_if branch on_null
ok value >>= next = next value
err e >>= next = err e

abbrev pub ◌>>◌ {ℓ} : {B : Type ℓ} → Result (Unit {0}) → Result B → Result B
first >> second = first >>= λ _. second

-- A transition inside `store.transact`: the replacement state and the value, or a failure.
abbrev pub Mutation : Type 0 → Type 0
Mutation A = RuntimeState → Result (RuntimeState × A)

-- `transact` on a storage that answers, so that only the mutation fails (its own failures are in
-- Runtime/Storage): the stored record is replaced on success alone.
abbrev pub commit :
    {A : Type 0} → RuntimeState → Result (RuntimeState × A) → Result A × RuntimeState
commit state (ok (next, value)) = (ok value, next)
commit state (err e) = (err e, state)

unfoldable pub transact : {A : Type 0} → Mutation A → RuntimeState → Result A × RuntimeState
transact mutation state = commit state (mutation state)

-- `P` holds of what is returned, if anything is.
pub data Ensures {ℓ κ} {A : Type ℓ} (P : A → Type κ) : Result A → Type (ℓ ⊔ κ) where
  returned : {a : A} → P a → Ensures P (ok a)
  raised : {e : DurableExecutionError} → Ensures P (err e)

module _ {ℓ κ ι} {A : Type ℓ} {B : Type κ} {P : B → Type ι} where
  pub Ensures-or_fail :
      {f : A → Result B} {o : Option A} (e : DurableExecutionError)
      → ((a : A) → o ≡ some a → Ensures P (f a))
      → Ensures P (or_fail o e >>= f)
  unfolding ◌>>=◌
  Ensures-or_fail {o = none} e k = raised
  Ensures-or_fail {o = some a} e k = k a refl

  pub Ensures-bind :
      {m : Result A} {f : A → Result B}
      → ((a : A) → m ≡ ok a → Ensures P (f a))
      → Ensures P (m >>= f)
  unfolding ◌>>=◌
  Ensures-bind {m = ok a} k = k a refl
  Ensures-bind {m = err e} k = raised

  pub Ensures-on_null :
      {o : Option A} {r : Result B} {f : A → Result B}
      → (o ≡ none → Ensures P r)
      → ((a : A) → o ≡ some a → Ensures P (f a))
      → Ensures P (on_null o r f)
  unfolding ◌>>=◌
  Ensures-on_null {o = none} k l = k refl
  Ensures-on_null {o = some a} k l = l a refl

module _ {κ ι} {B : Type κ} {P : B → Type ι} where
  pub Ensures-guard :
      {b : Bool} {r : Result B} (e : DurableExecutionError)
      → (b ≡ true → Ensures P r)
      → Ensures P (guard b e >> r)
  unfolding ◌>>=◌
  Ensures-guard {b = true} e k = k refl
  Ensures-guard {b = false} e k = raised

  pub Ensures-return_if :
      {b : Bool} {r : Result B} (a : B)
      → (b ≡ true → P a)
      → (b ≡ false → Ensures P r)
      → Ensures P (return_if b a r)
  unfolding ◌>>=◌
  Ensures-return_if {b = true} a k l = returned (k refl)
  Ensures-return_if {b = false} a k l = l refl

  pub Ensures-branch :
      {b : Bool} {r q : Result B}
      → (b ≡ true → Ensures P r)
      → (b ≡ false → Ensures P q)
      → Ensures P (branch b r q)
  unfolding ◌>>=◌
  Ensures-branch {b = true} k l = k refl
  Ensures-branch {b = false} k l = l refl

  pub Ensures-returns : {r : Result B} {b : B} → Ensures P r → r ≡ ok b → P b
  Ensures-returns {r = ok a} (returned p) e = subst P (ground (arith, e)) p
  Ensures-returns {r = err x} raised e = absurd (ground (arith, e))
