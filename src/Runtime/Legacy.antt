-- ===== src/Runtime/Legacy.antt =====
-- The runtime record of version one in packages/agent-runtime/src/runtime-state.ts, and its migration.
use chemistry.Prelude.{ℕ, String, Option, List, [], ◌∷◌, map}
use chemistry.Prelude.Text.{◌&◌}
use chemistry.Protocol.{RuntimeOperationStatus, RuntimeCheckpoint}
use chemistry.Runtime.State.{
  RuntimePhase, PhaseStatus, RuntimeOperationRecord, RuntimeStreamRecord, RecoveryIncident,
  RuntimeAlarmIntent, RuntimeState,
}

pub record LegacyRuntimeOperationV1 : Type 0 where
  pub operation_id : String
  pub submission_id : String
  pub stream_id : String
  pub prompt : String
  pub user_message_id : String
  pub assistant_message_id : String
  pub status : RuntimeOperationStatus
  pub checkpoint : RuntimeCheckpoint
  pub generation : ℕ
  pub attempt : ℕ
  pub progress : ℕ
  pub recovery_work : ℕ
  pub owner_boot_id : Option String
  pub lease_expires_at : Option ℕ
  pub created_at : ℕ
  pub updated_at : ℕ
  pub terminal_reason : Option String

pub record LegacyRuntimeStateV1 : Type 0 where
  pub version : ℕ
  pub session_id : String
  pub boot_id : String
  pub generation : ℕ
  pub operations : List LegacyRuntimeOperationV1
  pub queue : List String
  pub active_operation_id : Option String
  pub streams : List RuntimeStreamRecord
  pub recovery : Option RecoveryIncident
  pub alarm : Option RuntimeAlarmIntent
  pub last_terminal_reason : Option String
  pub last_wake_at : ℕ

unfoldable pub migrate_operation : LegacyRuntimeOperationV1 → RuntimeOperationRecord
migrate_operation operation = record {
  operation_id = operation.operation_id;
  submission_id = operation.submission_id;
  stream_id = operation.stream_id;
  kind = "agent-turn";
  input = record { prompt = operation.prompt };
  request_snapshot = record {
    version = 1;
    provider = "cloudflare-workers-ai";
    model = "migration-pending-phase-snapshot";
    tool_step_limit = 5;
    context_strategy = "durable-session-at-phase-start";
    context = record {
      system_prompt = "Runtime migration will refresh context before execution.";
      memory = "";
    };
    history_message_ids = [];
    compaction_ids = [];
    submitted_at = operation.created_at;
  };
  effect_ledger =
      record {
        effect_key = operation.operation_id & ":admission:0";
        phase = RuntimePhase.admission;
        status = PhaseStatus.completed;
        generation = 0;
        attempt = 0;
        updated_at = operation.created_at;
      }
      ∷ record {
        effect_key = operation.operation_id & ":request-snapshot:0";
        phase = RuntimePhase.request_snapshot;
        status = PhaseStatus.pending;
        generation = 0;
        attempt = 0;
        updated_at = operation.created_at;
      }
      ∷ [];
  user_message_id = operation.user_message_id;
  assistant_message_id = operation.assistant_message_id;
  status = operation.status;
  checkpoint = operation.checkpoint;
  generation = operation.generation;
  attempt = operation.attempt;
  progress = operation.progress;
  recovery_work = operation.recovery_work;
  owner_boot_id = operation.owner_boot_id;
  lease_expires_at = operation.lease_expires_at;
  created_at = operation.created_at;
  updated_at = operation.updated_at;
  terminal_reason = operation.terminal_reason;
}

unfoldable pub migrate_runtime_state_v1 : LegacyRuntimeStateV1 → RuntimeState
migrate_runtime_state_v1 legacy = record {
  version = 2;
  session_id = legacy.session_id;
  boot_id = legacy.boot_id;
  generation = legacy.generation;
  operations = map migrate_operation legacy.operations;
  queue = legacy.queue;
  active_operation_id = legacy.active_operation_id;
  streams = legacy.streams;
  recovery = legacy.recovery;
  alarm = legacy.alarm;
  last_terminal_reason = legacy.last_terminal_reason;
  last_wake_at = legacy.last_wake_at;
}
