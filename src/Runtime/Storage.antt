-- ===== src/Runtime/Storage.antt =====
-- apps/backend/src/durable-object-runtime-store.ts: the runtime record in the object's storage.
pub mod Loading
use chemistry.Prelude.{ℕ, String, Option, none, some}
use chemistry.Prelude.Text.{◌&◌}
use chemistry.Runtime.State.{RuntimeState}
use chemistry.Runtime.Legacy.{LegacyRuntimeStateV1, migrate_runtime_state_v1}
use chemistry.Runtime.Errors.{DurableExecutionError, Result, ok, err, Mutation}

-- What is stored under the session's key, as the two schemas read it.
pub data StoredRuntime : Type 0 where
  current : RuntimeState → StoredRuntime
  legacy : LegacyRuntimeStateV1 → StoredRuntime
  undecodable : String → StoredRuntime

-- The messages of a storage that fails: on a read, a write, and a transaction, which then stores
-- nothing.
pub record StorageFaults : Type 0 where
  pub on_get : Option String
  pub on_put : Option String
  pub on_transaction : Option String

-- A write of a loaded record, which may fail.
unfoldable pub put_loaded :
    StorageFaults
    → (operation : String) → RuntimeState
    → Option StoredRuntime
    → Result RuntimeState × Option StoredRuntime
put_loaded faults operation loaded stored = elim faults.on_put [
  | some message ↦ (err (DurableExecutionError.persistence operation message), stored)
  | none ↦ (ok loaded, some (StoredRuntime.current loaded))
]

unfoldable pub load_stored :
    StorageFaults → RuntimeState → Option StoredRuntime → Result RuntimeState × Option StoredRuntime
load_stored faults initial none = put_loaded faults "migrate" initial none
load_stored faults initial (some (StoredRuntime.current state)) =
    (ok state, some (StoredRuntime.current state))
load_stored faults initial (some (StoredRuntime.legacy old)) =
    put_loaded faults "migrate-v1" (migrate_runtime_state_v1 old) (some (StoredRuntime.legacy old))
load_stored faults initial (some (StoredRuntime.undecodable message)) = (
  err (DurableExecutionError.persistence "decode" message),
  some (StoredRuntime.undecodable message),
)

unfoldable pub load_runtime :
    StorageFaults → RuntimeState → Option StoredRuntime → Result RuntimeState × Option StoredRuntime
load_runtime faults initial stored = elim faults.on_get [
  | some message ↦ (err (DurableExecutionError.persistence "load" message), stored)
  | none ↦ load_stored faults initial stored
]

-- The record that a transaction works on.
unfoldable pub current_of :
    (operation : String) → RuntimeState → Option StoredRuntime → Result RuntimeState
current_of operation initial none = ok initial
current_of operation initial (some (StoredRuntime.current state)) = ok state
current_of operation initial (some (StoredRuntime.legacy old)) = ok (migrate_runtime_state_v1 old)
current_of operation initial (some (StoredRuntime.undecodable message)) =
    err (DurableExecutionError.persistence (operation & ":decode") message)

abbrev pub changed :
    {A : Type 0}
    → Option StoredRuntime
    → Result (RuntimeState × A)
    → Result A × Option StoredRuntime
changed stored (ok (next, value)) = (ok value, some (StoredRuntime.current next))
changed stored (err error) = (err error, stored)

abbrev pub mutated :
    {A : Type 0}
    → Mutation A
    → Option StoredRuntime
    → Result RuntimeState
    → Result A × Option StoredRuntime
mutated mutation stored (ok state) = changed stored (mutation state)
mutated mutation stored (err error) = (err error, stored)

unfoldable pub transact_stored :
    {A : Type 0}
    → StorageFaults
    → (operation : String) → RuntimeState
    → Mutation A
    → Option StoredRuntime
    → Result A × Option StoredRuntime
transact_stored faults operation initial mutation stored = elim faults.on_transaction [
  | some message ↦ (err (DurableExecutionError.persistence operation message), stored)
  | none ↦ mutated mutation stored (current_of operation initial stored)
]
