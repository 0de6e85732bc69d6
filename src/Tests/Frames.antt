-- ===== src/Tests/Frames.antt =====
-- A schema that knows one frame, whose JSON is its text.
use chemistry.Prelude.{
  String, Option, none, some, ◌≤◌, ◌≡◌, refl, arith, if◌then◌else◌, ◌==◌, string_eq, subst,
}
use chemistry.Protocol.{RuntimeClientFrame}
use chemistry.Protocol.Frames.{
  FrameSchema, coded, max_runtime_frame_bytes, encode_runtime_frame, decode_runtime_frame,
}
use chemistry.Protocol.Frames.Carried.{decode_runtime_frame-encode_runtime_frame}

abbrev keep_alive_value : RuntimeClientFrame → Option String
keep_alive_value RuntimeClientFrame.keep_alive = some "{\"_tag\":\"KeepAlive\"}"
keep_alive_value _ = none

abbrev keep_alive_frame : String → Option RuntimeClientFrame
keep_alive_frame text =
    if text == "{\"_tag\":\"KeepAlive\"}" then some RuntimeClientFrame.keep_alive else none

abbrev schema : FrameSchema RuntimeClientFrame String
schema = record {
  encode_value = keep_alive_value;
  decode_value = keep_alive_frame;
  stringify = λ text. text;
  parse = λ text. some text;
  byte_length = λ text. 20;
}

schema_decodes :
    (frame : RuntimeClientFrame) (text : String)
    → keep_alive_value frame ≡ some text
    → keep_alive_frame text ≡ some frame
schema_decodes RuntimeClientFrame.keep_alive text e =
    let same : "{\"_tag\":\"KeepAlive\"}" ≡ text = ground (arith, e) in
    subst (λ other. keep_alive_frame other ≡ some RuntimeClientFrame.keep_alive) same refl
schema_decodes (RuntimeClientFrame.resume_ack probe stream after) text e =
    absurd (ground (arith, e))
schema_decodes (RuntimeClientFrame.submit_turn submission prompt) text e =
    absurd (ground (arith, e))
schema_decodes (RuntimeClientFrame.stream_ack stream sequence) text e = absurd (ground (arith, e))
schema_decodes (RuntimeClientFrame.ping nonce) text e = absurd (ground (arith, e))

keep_alive_coded :
    encode_runtime_frame schema RuntimeClientFrame.keep_alive ≡ coded "{\"_tag\":\"KeepAlive\"}"
unfolding encode_runtime_frame
keep_alive_coded = refl

decode_runtime_frame-encode_runtime_frame_example :
    (schema.byte_length "{\"_tag\":\"KeepAlive\"}" ≤ max_runtime_frame_bytes)
    × (decode_runtime_frame schema "{\"_tag\":\"KeepAlive\"}" ≡ coded RuntimeClientFrame.keep_alive)
decode_runtime_frame-encode_runtime_frame_example =
    decode_runtime_frame-encode_runtime_frame schema schema_decodes (λ json. refl)
      RuntimeClientFrame.keep_alive "{\"_tag\":\"KeepAlive\"}" keep_alive_coded
