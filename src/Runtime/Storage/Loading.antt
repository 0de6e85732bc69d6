-- ===== src/Runtime/Storage/Loading.antt =====
-- Reads and transactions of apps/backend/src/durable-object-runtime-store.ts.
use chemistry.Prelude.{String, Option, none, some, ◌≡◌, refl, ap, arith}
use chemistry.Runtime.State.{RuntimeState}
use chemistry.Runtime.Legacy.{migrate_runtime_state_v1}
use chemistry.Runtime.Errors.{Result, ok, err, Mutation, transact, commit}
use chemistry.Runtime.Storage.{
  StoredRuntime, StorageFaults, put_loaded, load_stored, load_runtime, current_of, changed,
  transact_stored,
}

-- The storage holds the loaded record, which a transaction before the read would have worked on.
abbrev Loads :
    (operation : String)
    → RuntimeState
    → Option StoredRuntime
    → RuntimeState
    → Option StoredRuntime
    → Type 0
Loads operation initial stored state after =
    (after ≡ some (StoredRuntime.current state)) × (current_of operation initial stored ≡ ok state)

put_loaded_lem :
    (faults : StorageFaults) (operation : String) (loaded state : RuntimeState)
    (stored after : Option StoredRuntime)
    → put_loaded faults operation loaded stored ≡ (ok state, after)
    → (loaded ≡ state) × (after ≡ some (StoredRuntime.current state))
unfolding put_loaded
put_loaded_lem faults operation loaded state stored after e = ground (arith, e)

load_stored-Loads :
    (faults : StorageFaults) (operation : String) (initial state : RuntimeState)
    (stored after : Option StoredRuntime)
    → load_stored faults initial stored ≡ (ok state, after)
    → Loads operation initial stored state after
unfolding load_stored current_of
load_stored-Loads faults operation initial state none after e =
    let put = put_loaded_lem faults "migrate" initial state none after e in (put.1, ap ok put.0)
load_stored-Loads faults operation initial state (some (StoredRuntime.current old)) after e =
    (ground (arith, e), ground (arith, e))
load_stored-Loads faults operation initial state (some (StoredRuntime.legacy old)) after e =
    let put =
      put_loaded_lem faults "migrate-v1" (migrate_runtime_state_v1 old) state
        (some (StoredRuntime.legacy old)) after e in
    (put.1, ap ok put.0)
load_stored-Loads faults operation initial state (some (StoredRuntime.undecodable message)) after
      e =
    absurd (ground (arith, e))

load_runtime-Loads :
    (faults : StorageFaults) (operation : String) (initial state : RuntimeState)
    (stored after : Option StoredRuntime)
    → load_runtime faults initial stored ≡ (ok state, after)
    → Loads operation initial stored state after
unfolding load_runtime
load_runtime-Loads faults operation initial state stored after e =
    load_stored-Loads faults operation initial state stored after (ground (arith, e))

changed-commit :
    {A : Type 0} (state : RuntimeState) (result : Result (RuntimeState × A))
    → changed (some (StoredRuntime.current state)) result
      ≡ ((commit state result).0, some (StoredRuntime.current (commit state result).1))
changed-commit state (ok (next, value)) = refl
changed-commit state (err error) = refl

-- A transaction before and after a read.
pub record Agrees {A : Type 0} (mutation : Mutation A) (state : RuntimeState)
    (first again : Result A × Option StoredRuntime) : Type 0 where
  pub same_value : first.0 ≡ (transact mutation state).0
  pub committed :
      again
      ≡ ((transact mutation state).0, some (StoredRuntime.current (transact mutation state).1))

-- When a read returns a record, be it stored, initial or migrated from version one, a transaction
-- that the storage does not fail returns what the mutation of this record returns, without the read
-- as well as after it; after it the storage holds what that mutation leaves, whatever initial record
-- is offered.
pub load_runtime-transact_stored :
    {A : Type 0} (faults : StorageFaults) (operation : String) (initial other state : RuntimeState)
    (stored after : Option StoredRuntime) (mutation : Mutation A)
    → faults.on_transaction ≡ none
    → load_runtime faults initial stored ≡ (ok state, after)
    → Agrees mutation state
        (transact_stored faults operation initial mutation stored)
        (transact_stored faults operation other mutation after)
unfolding transact_stored transact current_of
load_runtime-transact_stored faults operation initial other state stored after mutation calm e =
    let loads = load_runtime-Loads faults operation initial state stored after e in
    record {
      same_value = ground (arith, calm, loads.1);
      committed = rw (calm, loads.0) (changed-commit state (mutation state));
    }
