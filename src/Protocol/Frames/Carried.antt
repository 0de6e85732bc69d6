-- ===== src/Protocol/Frames/Carried.antt =====
-- Frames that are encoded by packages/contracts/src/runtime-protocol.ts and decoded again.
use chemistry.Prelude.{
  String, false, some, ltb, ◌≤◌, ◌≡◌, refl, arith, Option-cases, inl, inr, subst,
}
use chemistry.Protocol.Frames.{
  FrameSchema, coded, max_runtime_frame_bytes, encode_runtime_frame, decode_runtime_frame,
}

sized_frame-fits :
    {Frame Json : Type 0} (schema : FrameSchema Frame Json) (frame : Frame) (json : Json)
    (encoded : String)
    → schema.encode_value frame ≡ some json
    → encode_runtime_frame schema frame ≡ coded encoded
    → (ltb max_runtime_frame_bytes (schema.byte_length encoded) ≡ false)
      × (schema.stringify json ≡ encoded)
unfolding encode_runtime_frame
sized_frame-fits schema frame json encoded known e = ground (arith, e, known)

-- A frame that was encoded fits a message and is read back as it was, where the schema decodes what
-- it encodes and JSON parses what it printed.
pub decode_runtime_frame-encode_runtime_frame :
    {Frame Json : Type 0} (schema : FrameSchema Frame Json)
    → ((frame : Frame) (json : Json)
        → schema.encode_value frame ≡ some json
        → schema.decode_value json ≡ some frame)
    → ((json : Json) → schema.parse (schema.stringify json) ≡ some json)
    → (frame : Frame) (encoded : String) → encode_runtime_frame schema frame ≡ coded encoded
    → (schema.byte_length encoded ≤ max_runtime_frame_bytes)
      × (decode_runtime_frame schema encoded ≡ coded frame)
unfolding decode_runtime_frame encode_runtime_frame
decode_runtime_frame-encode_runtime_frame schema decodes parses frame encoded e =
    elim (Option-cases (schema.encode_value frame)) [
      | inl unknown ↦ absurd (ground (arith, e, unknown))
      | inr (json, known) ↦
          let fits = sized_frame-fits schema frame json encoded known e in
          let read : schema.parse encoded ≡ some json =
            subst (λ text. schema.parse text ≡ some json) fits.1 (parses json) in
          (ground (arith, fits.0), rw (fits.0, read, decodes frame json known) refl)
    ]
