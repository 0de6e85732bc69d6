-- ===== src/Protocol.antt =====
-- packages/contracts/src/agent-protocol.ts: the data that the runtime, its store and the browser
-- share. Branded identifiers are texts. A `Schema.Json` payload is kept as its text, since no code
-- modelled here looks inside one. Time is milliseconds since the epoch, as `Clock` gives them.
pub mod Frames
use chemistry.Prelude.{ℕ, ℤ, String, Bool, true, false, Option, List}

pub data StreamMessagePart : Type 0 where
  text : String → StreamMessagePart
  tool_call : String → String → String → StreamMessagePart
  tool_result : String → String → String → Bool → StreamMessagePart

pub data MessageRole : Type 0 where
  system user assistant tool : MessageRole

pub record StreamMessage : Type 0 where
  pub id : String
  pub role : MessageRole
  pub parts : List StreamMessagePart
  pub created_at : ℕ

pub record AgentContext : Type 0 where
  pub system_prompt : String
  pub memory : String

pub record CompactionStats : Type 0 where
  pub raw_message_count : ℕ
  pub model_message_count : ℕ
  pub estimated_model_tokens : ℕ
  pub compaction_count : ℕ
  pub last_compacted_at : Option ℕ

pub data CompactionReason : Type 0 where
  manual threshold below_threshold insufficient_history : CompactionReason

pub record CompactionResult : Type 0 where
  pub compacted : Bool
  pub reason : CompactionReason
  pub stats : CompactionStats

pub data AgentStreamEvent : Type 0 where
  turn_started : StreamMessage → AgentStreamEvent
  text_delta : String → AgentStreamEvent
  tool_call : String → String → String → AgentStreamEvent
  tool_result : String → String → String → Bool → AgentStreamEvent
  compaction_completed : CompactionResult → AgentStreamEvent
  turn_completed : StreamMessage → CompactionStats → AgentStreamEvent

pub data RuntimeOperationStatus : Type 0 where
  queued running interrupted recovering parked completed failed : RuntimeOperationStatus

pub data RuntimeCheckpoint : Type 0 where
  admitted preparing streaming partial_persisted parked terminal : RuntimeCheckpoint

pub record RuntimeOperationSummary : Type 0 where
  pub operation_id : String
  pub submission_id : String
  pub stream_id : String
  pub status : RuntimeOperationStatus
  pub checkpoint : RuntimeCheckpoint
  pub generation : ℕ
  pub attempt : ℕ
  pub progress : ℕ
  pub recovery_work : ℕ
  pub terminal_reason : Option String
  pub updated_at : ℕ

pub record RuntimeSnapshot : Type 0 where
  pub boot_id : String
  pub active_operation : Option RuntimeOperationSummary
  pub queue_depth : ℕ
  pub retained_stream_count : ℕ
  pub recovery_attempt : ℕ
  pub last_terminal_reason : Option String

-- `sequence` is computed from the cursor of its stream, which starts at -1.
pub record DurableStreamEvent : Type 0 where
  pub stream_id : String
  pub operation_id : String
  pub sequence : ℤ
  pub event : AgentStreamEvent
  pub produced_at : ℕ

pub data RuntimeClientFrame : Type 0 where
  resume_ack : String → Option String → ℤ → RuntimeClientFrame
  submit_turn : String → String → RuntimeClientFrame
  stream_ack : String → ℤ → RuntimeClientFrame
  ping : String → RuntimeClientFrame
  keep_alive : RuntimeClientFrame

pub record ResumeProbe : Type 0 where
  pub probe_id : String
  pub connection_id : String
  pub session_id : String
  pub active_stream_id : Option String
  pub latest_sequence : ℤ
  pub runtime : RuntimeSnapshot

pub record TurnAccepted : Type 0 where
  pub submission_id : String
  pub operation_id : String
  pub stream_id : String
  pub queue_position : ℕ

pub data TerminalStatus : Type 0 where
  completed failed interrupted : TerminalStatus

pub record StreamTerminal : Type 0 where
  pub stream_id : String
  pub operation_id : String
  pub status : TerminalStatus
  pub sequence : ℤ
  pub generation : ℕ
  pub attempt : ℕ
  pub recovery_work : ℕ
  pub reason : Option String

pub data ProtocolErrorCode : Type 0 where
  invalid_frame frame_too_large stale_probe stale_stream queue_full runtime_unavailable :
      ProtocolErrorCode

pub data RuntimeServerFrame : Type 0 where
  resume_probe : ResumeProbe → RuntimeServerFrame
  turn_accepted : TurnAccepted → RuntimeServerFrame
  stream_event : DurableStreamEvent → Bool → RuntimeServerFrame
  resume_complete : Option String → ℤ → RuntimeServerFrame
  recovering : RuntimeOperationSummary → RuntimeServerFrame
  stream_terminal : StreamTerminal → RuntimeServerFrame
  protocol_error : ProtocolErrorCode → String → Bool → RuntimeServerFrame
  pong : String → String → RuntimeServerFrame
  keep_alive_ack : RuntimeServerFrame

pub data AgentRpcError : Type 0 where
  persistence : String → String → AgentRpcError
  inference : String → String → AgentRpcError
  compaction : String → AgentRpcError
  tool_loop_limit : ℕ → String → AgentRpcError

-- `status === "completed"` and its like.
abbrev pub is_completed : RuntimeOperationStatus → Bool
is_completed RuntimeOperationStatus.completed = true
is_completed _ = false

abbrev pub is_failed : RuntimeOperationStatus → Bool
is_failed RuntimeOperationStatus.failed = true
is_failed _ = false

abbrev pub is_parked : RuntimeOperationStatus → Bool
is_parked RuntimeOperationStatus.parked = true
is_parked _ = false

-- `checkpoint === "parked"` and its like.
abbrev pub at_parked : RuntimeCheckpoint → Bool
at_parked RuntimeCheckpoint.parked = true
at_parked _ = false

abbrev pub at_streaming : RuntimeCheckpoint → Bool
at_streaming RuntimeCheckpoint.streaming = true
at_streaming _ = false

abbrev pub at_partial_persisted : RuntimeCheckpoint → Bool
at_partial_persisted RuntimeCheckpoint.partial_persisted = true
at_partial_persisted _ = false
