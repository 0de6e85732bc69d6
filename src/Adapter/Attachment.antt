-- ===== src/Adapter/Attachment.antt =====
-- The state kept beside a hibernatable socket by runtime-websocket-adapter.ts, and `applyRuntimeStreamAck`.
pub mod Acknowledged
use chemistry.Prelude.{
  ℕ, ℤ, minus_one, ltb_ℤ, leb_ℤ, String, Bool, Option, none, some, not, ◌||◌, ◌==◌, nullable_eq,
  if◌then◌else◌,
}
use chemistry.Protocol.{DurableStreamEvent}

pub record RuntimeSocketAttachment : Type 0 where
  pub version : ℕ
  pub connection_id : String
  pub session_id : String
  pub probe_id : String
  pub probed_stream_id : Option String
  pub sent_stream_id : Option String
  pub sent_sequence : ℤ
  pub acknowledged_stream_id : Option String
  pub acknowledged_sequence : ℤ

-- `Math.max`
abbrev pub max_ℤ : ℤ → ℤ → ℤ
max_ℤ a b = if leb_ℤ a b then b else a

unfoldable pub apply_runtime_stream_ack :
    RuntimeSocketAttachment → String → ℤ → Option RuntimeSocketAttachment
apply_runtime_stream_ack attachment stream_id sequence =
    if not (attachment.sent_stream_id == some stream_id) || ltb_ℤ attachment.sent_sequence sequence
    then none
    else some (record attachment {
      acknowledged_stream_id = some stream_id;
      acknowledged_sequence = max_ℤ attachment.acknowledged_sequence sequence;
    })

-- The attachment after an event has been sent.
abbrev pub sent_attachment : RuntimeSocketAttachment → String → ℤ → RuntimeSocketAttachment
sent_attachment attachment stream_id sequence = record attachment {
  sent_stream_id = some stream_id;
  sent_sequence = sequence;
}

-- The attachment of a new connection.
abbrev pub new_attachment :
    (connection_id session_id probe_id : String) → Option String → RuntimeSocketAttachment
new_attachment connection_id session_id probe_id probed_stream_id = record {
  version = 1;
  connection_id = connection_id;
  session_id = session_id;
  probe_id = probe_id;
  probed_stream_id = probed_stream_id;
  sent_stream_id = none;
  sent_sequence = minus_one;
  acknowledged_stream_id = none;
  acknowledged_sequence = minus_one;
}
