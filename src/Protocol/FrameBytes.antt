-- ===== src/Protocol/FrameBytes.antt =====
-- internal/protocol/protocol.go: the bytes that DecodeFrame accepts, whole and cut short.
use utaki_tick_data_platform.Common.{
  ℕ, ◌+◌, ◌-◌, ◌<◌, ◌≤◌, ◌≡◌, sym, ap, ◌∙◌, ok, err, Bytes, IsByte, All, arith, ◌++◌, le_bytes,
  le_value, length, take, drop, slice, length-take, length-drop, length-slice, slice-append-slice,
  slice-take, append_cong, word_at, Bool-cases, ltb→le, take-append-drop, All-drop,
  le_bytes-le_value, require_fails, require_holds, ltb, inl, inr,
}
use utaki_tick_data_platform.Golib.Crc32
use utaki_tick_data_platform.Protocol.{Frame, ErrorCode}
use utaki_tick_data_platform.Protocol.Framing.{frame_body, encode_frame, decode_frame}
use utaki_tick_data_platform.Protocol.FramingLaws.{
  Accepted, Accepted-decode_frame, encode_frame-checked, checked,
}

module _ (raw : Bytes) (bytes : All IsByte raw) (frame : Frame) (a : Accepted raw frame) where
  length-payload : length frame.payload ≡ length raw - 20
  length-payload =
      ap length a.payload
      ∙ length-slice 16 (length raw - 4) raw (omega arith)
      ∙ omega (arith, a.at_least)

  own_length : le_value (slice 8 12 raw) ≡ 20 + length frame.payload
  own_length = a.own_length ∙ omega (arith, length-payload, a.at_least)

  word :
      (o n v : ℕ)
      → o + n ≤ length raw
      → le_value (slice o (o + n) raw) ≡ v
      → le_bytes n v ≡ slice o (o + n) raw
  word o n v h e = ap (le_bytes n) (sym e) ∙ word_at o n raw h bytes

  body-eq-take : frame_body frame.message_type frame.payload ≡ take (length raw - 4) raw
  unfolding frame_body
  body-eq-take =
      let n = length raw - 4 in
      append_cong (sym a.own_magic) (
        append_cong (word 4 2 1 (omega (arith, a.at_least)) a.own_version) (
          append_cong (word 6 2 frame.message_type (omega (arith, a.at_least)) a.own_type) (
            append_cong
              (word 8 4 (20 + length frame.payload) (omega (arith, a.at_least)) own_length)
              (append_cong (word 12 4 16 (omega (arith, a.at_least)) a.own_header) a.payload
                ∙ slice-append-slice 12 16 n raw (omega arith) (omega (arith, a.at_least)))
            ∙ slice-append-slice 8 12 n raw (omega arith) (omega (arith, a.at_least)))
          ∙ slice-append-slice 6 8 n raw (omega arith) (omega (arith, a.at_least)))
        ∙ slice-append-slice 4 6 n raw (omega arith) (omega (arith, a.at_least)))
      ∙ slice-append-slice 0 4 n raw (omega arith) (omega (arith, a.at_least))
      ∙ ap (λ (k : ℕ). take k raw) (omega arith)

  checksum-eq : le_bytes 4 (Crc32.checksum (take (length raw - 4) raw)) ≡ drop (length raw - 4) raw
  checksum-eq =
      ap (le_bytes 4) (sym a.own_crc)
      ∙ le_bytes-le_value 4 _ (omega (arith, length-drop (length raw - 4) raw, a.at_least))
          (All-drop IsByte (length raw - 4) raw bytes)

  checked-eq : checked frame.message_type frame.payload ≡ raw
  checked-eq =
      ap (λ (b : Bytes). b ++ le_bytes 4 (Crc32.checksum b)) body-eq-take
      ∙ ap (λ (b : Bytes). take (length raw - 4) raw ++ b) checksum-eq
      ∙ take-append-drop (length raw - 4) raw

-- Bytes that DecodeFrame accepts are the ones that EncodeFrame writes for the decoded type and
-- payload.
pub encode_frame-decode_frame :
    (raw : Bytes) (frame : Frame)
    → All IsByte raw
    → decode_frame raw ≡ ok frame
    → encode_frame frame.message_type frame.payload ≡ ok raw
encode_frame-decode_frame raw frame bytes h =
    let a = Accepted-decode_frame raw frame h in
    encode_frame-checked frame.message_type frame.payload a.first_type a.last_type
      (omega (arith, a.at_most, length-payload raw bytes frame a))
    ∙ ap ok (checked-eq raw bytes frame a)

-- Every proper prefix of an accepted frame is reported as truncated.
pub decode_frame-take :
    (raw : Bytes) (frame : Frame) (n : ℕ)
    → decode_frame raw ≡ ok frame
    → n < length raw
    → decode_frame (take n raw) ≡ err ErrorCode.truncated_frame
unfolding decode_frame
decode_frame-take raw frame n h cut =
    let a = Accepted-decode_frame raw frame h in
    let short : length (take n raw) ≡ n = omega (arith, length-take n raw) in
    elim (Bool-cases (ltb n 16)) [
      | inl below ↦ require_fails _ _ _ (ground (arith, short))
      | inr above ↦
          let own : le_value (slice 8 12 (take n raw)) ≡ length raw =
            ap le_value (slice-take 8 12 n raw (omega (arith, ltb→le n 16 above))) ∙ a.own_length in
          require_holds _ _ _ (ground (arith, short))
          ∙ require_holds _ _ _ (ground (arith, own, a.at_most))
          ∙ require_holds _ _ _ (ground (arith, own, a.at_least))
          ∙ require_fails _ _ _ (ground (arith, own, short))
    ]
