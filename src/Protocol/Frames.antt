-- ===== src/Protocol/Frames.antt =====
-- packages/contracts/src/runtime-protocol.ts: the texts that carry a frame over a socket. The schema of
-- a frame, JSON and the UTF-8 encoder are arguments.
pub mod Carried
use chemistry.Protocol.{RuntimeClientFrame, RuntimeServerFrame}
use chemistry.Prelude.{ℕ, String, Bool, true, false, Option, none, some, ltb, if◌then◌else◌}

pub record AgentProtocolError : Type 0 where
  pub code : String
  pub message : String

pub data Coded {ℓ} (A : Type ℓ) : Type ℓ where
  coded : A → Coded A
  refused : AgentProtocolError → Coded A

-- `Schema.encode` and `decode` of a frame, `JSON.stringify` and `parse`, and the size in UTF-8.
pub record FrameSchema (Frame Json : Type 0) : Type 0 where
  pub encode_value : Frame → Option Json
  pub decode_value : Json → Option Frame
  pub stringify : Json → String
  pub parse : String → Option Json
  pub byte_length : String → ℕ

abbrev pub max_runtime_frame_bytes : ℕ
max_runtime_frame_bytes = 65_536

abbrev pub agent_protocol_error : {A : Type 0} → String → String → Coded A
agent_protocol_error code message = refused (record { code = code; message = message })

module _ {Frame Json : Type 0} (schema : FrameSchema Frame Json) where
  abbrev decoded_frame : Option Frame → Coded Frame
  decoded_frame none =
      agent_protocol_error "invalid-frame" "Runtime frame does not match the shared schema"
  decoded_frame (some frame) = coded frame

  abbrev parsed_frame : Option Json → Coded Frame
  parsed_frame none = agent_protocol_error "invalid-json" "Runtime frame is not valid JSON"
  parsed_frame (some json) = decoded_frame (schema.decode_value json)

  -- What the two decoders share, each with its schema.
  unfoldable pub decode_runtime_frame : String → Coded Frame
  decode_runtime_frame encoded =
      if ltb max_runtime_frame_bytes (schema.byte_length encoded)
      then agent_protocol_error "frame-too-large" "Runtime frame exceeds 65536 bytes"
      else parsed_frame (schema.parse encoded)

  abbrev sized_frame : String → Coded String
  sized_frame encoded =
      if ltb max_runtime_frame_bytes (schema.byte_length encoded)
      then agent_protocol_error "frame-too-large" "Encoded runtime frame exceeds 65536 bytes"
      else coded encoded

  abbrev encoded_frame : Option Json → Coded String
  encoded_frame none = agent_protocol_error "encode-failed" "Runtime frame could not be encoded"
  encoded_frame (some json) = sized_frame (schema.stringify json)

  -- What the two encoders share.
  unfoldable pub encode_runtime_frame : Frame → Coded String
  encode_runtime_frame frame = encoded_frame (schema.encode_value frame)

abbrev pub decode_runtime_client_frame :
    {Json : Type 0} → FrameSchema RuntimeClientFrame Json → String → Coded RuntimeClientFrame
decode_runtime_client_frame schema = decode_runtime_frame schema

abbrev pub encode_runtime_client_frame :
    {Json : Type 0} → FrameSchema RuntimeClientFrame Json → RuntimeClientFrame → Coded String
encode_runtime_client_frame schema = encode_runtime_frame schema

abbrev pub encode_runtime_server_frame :
    {Json : Type 0} → FrameSchema RuntimeServerFrame Json → RuntimeServerFrame → Coded String
encode_runtime_server_frame schema = encode_runtime_frame schema

abbrev pub decode_runtime_server_frame :
    {Json : Type 0} → FrameSchema RuntimeServerFrame Json → String → Coded RuntimeServerFrame
decode_runtime_server_frame schema = decode_runtime_frame schema
