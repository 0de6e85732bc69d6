-- ===== src/Adapter/Attachment/Acknowledged.antt =====
-- What an acknowledgement does in apps/backend/src/runtime-websocket-adapter.ts.
use chemistry.Prelude.{ℤ, ◌≤ℤ◌, ltb_ℤ, String, true, some, ◌≡◌, arith, eq_iff, nullable_beq_iff}
use chemistry.Adapter.Attachment.{
  RuntimeSocketAttachment, apply_runtime_stream_ack, sent_attachment,
}

-- An acknowledgement that was taken.
pub record Acknowledges (before : RuntimeSocketAttachment) (stream_id : String) (sequence : ℤ)
    (after : RuntimeSocketAttachment) : Type 0 where
  pub of_sent : before.sent_stream_id ≡ some stream_id
  pub was_sent : sequence ≤ℤ before.sent_sequence
  pub within : after.acknowledged_sequence ≤ℤ after.sent_sequence
  pub reaches : sequence ≤ℤ after.acknowledged_sequence
  pub forward : before.acknowledged_sequence ≤ℤ after.acknowledged_sequence
  pub names : after.acknowledged_stream_id ≡ some stream_id
  pub same_sent : after.sent_sequence ≡ before.sent_sequence

-- While the acknowledged cursor is within the sent one, an acknowledgement that is taken is of the
-- stream last sent and of a sequence that was sent; the cursor covers it, does not go back, and stays
-- within the sent one.
pub apply_runtime_stream_ack-Acknowledges :
    (before after : RuntimeSocketAttachment) (stream_id : String) (sequence : ℤ)
    → before.acknowledged_sequence ≤ℤ before.sent_sequence
    → apply_runtime_stream_ack before stream_id sequence ≡ some after
    → Acknowledges before stream_id sequence after
unfolding apply_runtime_stream_ack
apply_runtime_stream_ack-Acknowledges before after stream_id sequence within e = record {
  of_sent = ground (arith, e, nullable_beq_iff before.sent_stream_id (some stream_id));
  was_sent = ground (arith, e);
  within = ground (arith, e, within);
  reaches = ground (arith, e);
  forward = ground (arith, e);
  names = ground (arith, e);
  same_sent = ground (arith, e);
}

-- When an event of a stream is sent whose sequence is below the cursor that another stream left
-- acknowledged, the acknowledgement of this event is taken and records the old cursor as one of the
-- new stream, beyond what was sent of it.
pub apply_runtime_stream_ack_carries :
    (attachment : RuntimeSocketAttachment) (stream_id : String) (sequence : ℤ)
    → ltb_ℤ sequence attachment.acknowledged_sequence ≡ true
    → apply_runtime_stream_ack (sent_attachment attachment stream_id sequence) stream_id sequence
      ≡ some (record (sent_attachment attachment stream_id sequence) {
        acknowledged_stream_id = some stream_id;
      })
unfolding apply_runtime_stream_ack
apply_runtime_stream_ack_carries attachment stream_id sequence beyond =
    ground (arith, beyond, eq_iff stream_id stream_id)
