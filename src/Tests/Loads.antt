-- ===== src/Tests/Loads.antt =====
-- A runtime record of version one in the object's storage.
use chemistry.Prelude.{none, some, [], ◌∷◌, ◌≡◌, refl}
use chemistry.Protocol.{RuntimeOperationStatus, RuntimeCheckpoint}
use chemistry.Runtime.State.{RuntimeState}
use chemistry.Runtime.Legacy.{
  LegacyRuntimeOperationV1, LegacyRuntimeStateV1, migrate_runtime_state_v1,
}
use chemistry.Runtime.Errors.{ok}
use chemistry.Runtime.Storage.{
  StoredRuntime, StorageFaults, put_loaded, load_stored, load_runtime, transact_stored,
}
use chemistry.Runtime.Storage.Loading.{Agrees, load_runtime-transact_stored}
use chemistry.Execution.Wake.{wake}
use chemistry.Tests.Data.{second_boot, empty_state, running_state}

abbrev answering : StorageFaults
answering = record { on_get = none; on_put = none; on_transaction = none }

abbrev old_operation : LegacyRuntimeOperationV1
old_operation = record {
  operation_id = "op-1";
  submission_id = "submission-1";
  stream_id = "stream-1";
  prompt = "What is a mole?";
  user_message_id = "user:op-1";
  assistant_message_id = "assistant:op-1";
  status = RuntimeOperationStatus.queued;
  checkpoint = RuntimeCheckpoint.admitted;
  generation = 0;
  attempt = 0;
  progress = 0;
  recovery_work = 0;
  owner_boot_id = none;
  lease_expires_at = none;
  created_at = 1_000;
  updated_at = 1_000;
  terminal_reason = none;
}

abbrev old_record : LegacyRuntimeStateV1
old_record = record {
  version = 1;
  session_id = "session-1";
  boot_id = "boot-1";
  generation = 0;
  operations = old_operation ∷ [];
  queue = "op-1" ∷ [];
  active_operation_id = none;
  streams = [];
  recovery = none;
  alarm = none;
  last_terminal_reason = none;
  last_wake_at = 900;
}

abbrev migrated : RuntimeState
migrated = migrate_runtime_state_v1 old_record

load_old :
    load_runtime answering empty_state (some (StoredRuntime.legacy old_record))
    ≡ (ok migrated, some (StoredRuntime.current migrated))
unfolding load_runtime load_stored put_loaded
load_old = refl

load_runtime-transact_stored_example :
    Agrees
      (wake second_boot "incident-1" 2_000)
      migrated
      (transact_stored answering "wake" empty_state
        (wake second_boot "incident-1" 2_000)
        (some (StoredRuntime.legacy old_record)))
      (transact_stored answering "wake" running_state
        (wake second_boot "incident-1" 2_000)
        (some (StoredRuntime.current migrated)))
load_runtime-transact_stored_example =
    load_runtime-transact_stored answering "wake" empty_state running_state migrated
      (some (StoredRuntime.legacy old_record)) (some (StoredRuntime.current migrated))
      (wake second_boot "incident-1" 2_000) refl load_old
