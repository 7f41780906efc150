-- ===== src/Protocol/FramingLaws.antt =====
-- internal/protocol/protocol.go: DecodeFrame on what EncodeFrame writes.
use utaki_tick_data_platform.Common.{
  ℕ, ◌+◌, ◌-◌, ◌<◌, ◌≤◌, ◌^◌, ◌≡◌, refl, sym, ap, ◌∙◌, true, not, ◌||◌, ok, require, ◌>>=◌, ◌++◌,
  Bytes, arith, le_bytes, le_value, le_value-le_bytes, length-le_bytes, length, length-append, take,
  drop, slice, ltb, ◌==◌, ==→eq, >>-eq-ok, drop-append, take-append_length, bytes_eq→eq,
  eq→bytes_eq,
}
use utaki_tick_data_platform.Golib.Crc32
use utaki_tick_data_platform.Protocol.{
  Frame, magic, message_hello, message_error, max_frame_bytes, min_frame_bytes,
}
use utaki_tick_data_platform.Protocol.Framing.{frame_body, encode_frame, decode_frame}

pub length-frame_body :
    (t : ℕ) (payload : Bytes) → length (frame_body t payload) ≡ 16 + length payload
unfolding frame_body le_bytes
length-frame_body t payload = omega arith

module _ (t : ℕ) (payload : Bytes) (known : t < 2 ^ 16) (fits : length payload < 2 ^ 32 - 20) where
  -- The fields of a frame, read at their offsets.
  pub frame_type : (tail : Bytes) → le_value (slice 6 8 (frame_body t payload ++ tail)) ≡ t
  unfolding frame_body le_bytes le_value
  frame_type tail = omega arith

  pub frame_length :
      (tail : Bytes) → le_value (slice 8 12 (frame_body t payload ++ tail)) ≡ 20 + length payload
  unfolding frame_body le_bytes le_value
  frame_length tail = omega arith

  pub frame_payload :
      (n : ℕ) (tail : Bytes)
      → n ≡ 16 + length payload
      → slice 16 n (frame_body t payload ++ tail) ≡ payload
  unfolding frame_body le_bytes
  frame_payload n tail e = take-append_length (n - 16) payload tail (omega arith)

-- What DecodeFrame has checked of the bytes that it accepts.
pub record Accepted (raw : Bytes) (frame : Frame) : Type 0 where
  pub at_least : min_frame_bytes ≤ length raw
  pub at_most : length raw ≤ max_frame_bytes
  pub own_length : le_value (slice 8 12 raw) ≡ length raw
  pub own_magic : take 4 raw ≡ magic
  pub own_header : le_value (slice 12 16 raw) ≡ 16
  pub own_version : le_value (slice 4 6 raw) ≡ 1
  pub own_type : le_value (slice 6 8 raw) ≡ frame.message_type
  pub first_type : 1 ≤ frame.message_type
  pub last_type : frame.message_type ≤ 5
  pub own_crc : le_value (drop (length raw - 4) raw) ≡ Crc32.checksum (take (length raw - 4) raw)
  pub version : frame.version ≡ 1
  pub payload : frame.payload ≡ slice 16 (length raw - 4) raw

-- One fact from each group of tests.
known_type : (n : ℕ) → not (ltb n message_hello || ltb message_error n) ≡ true → (1 ≤ n) × (n ≤ 5)
known_type n h = ground arith

in_bounds :
    (l n : ℕ)
    → not (ltb max_frame_bytes n) ≡ true
    → not (ltb n min_frame_bytes) ≡ true
    → (l == n) ≡ true
    → (min_frame_bytes ≤ l) × (l ≤ max_frame_bytes) × (n ≡ l)
in_bounds l n h k e = ground arith

pub Accepted-decode_frame :
    (raw : Bytes) (frame : Frame) → decode_frame raw ≡ ok frame → Accepted raw frame
unfolding decode_frame
Accepted-decode_frame raw frame h =
    let (c0, h0) = >>-eq-ok _ _ _ h in
    let (c1, h1) = >>-eq-ok _ _ _ h0 in
    let (c2, h2) = >>-eq-ok _ _ _ h1 in
    let (c3, h3) = >>-eq-ok _ _ _ h2 in
    let (c4, h4) = >>-eq-ok _ _ _ h3 in
    let (c5, h5) = >>-eq-ok _ _ _ h4 in
    let (c6, h6) = >>-eq-ok _ _ _ h5 in
    let (c7, h7) = >>-eq-ok _ _ _ h6 in
    let (c8, h8) = >>-eq-ok _ _ _ h7 in
    let (c9, h9) = >>-eq-ok _ _ _ h8 in
    let (lo, hi, len) = in_bounds (length raw) (le_value (slice 8 12 raw)) c1 c2 c4 in
    let (first, last) = known_type (le_value (slice 6 8 raw)) c8 in
    let e : frame ≡ record {
      version = le_value (slice 4 6 raw);
      message_type = le_value (slice 6 8 raw);
      payload = slice 16 (length raw - 4) raw;
    } =
      cc in
    rw e (record {
      at_least = lo;
      at_most = hi;
      own_length = len;
      own_magic = bytes_eq→eq _ _ c5;
      own_header = ==→eq _ _ c6;
      own_version = ==→eq _ _ c7;
      own_type = refl;
      first_type = first;
      last_type = last;
      own_crc = ==→eq _ _ c9;
      version = ==→eq _ _ c7;
      payload = refl;
    })

pub decode_frame-Accepted :
    (raw : Bytes) (frame : Frame) → Accepted raw frame → decode_frame raw ≡ ok frame
unfolding decode_frame ◌>>=◌ require
decode_frame-Accepted raw frame a = ground (arith, eq→bytes_eq (take 4 raw) magic)

module _ (t : ℕ) (payload : Bytes) where
  abbrev pub checked : Bytes
  checked = frame_body t payload ++ le_bytes 4 (Crc32.checksum (frame_body t payload))

  pub length-checked : length checked ≡ 20 + length payload
  length-checked = omega (
    arith,
    length-append (frame_body t payload) (le_bytes 4 (Crc32.checksum (frame_body t payload))),
    length-frame_body t payload,
    length-le_bytes 4 (Crc32.checksum (frame_body t payload)),
  )

  body_end : length checked - 4 ≡ 16 + length payload
  body_end = omega (arith, length-checked)

  body_of : take (length checked - 4) checked ≡ frame_body t payload
  body_of =
      take-append_length (length checked - 4) (frame_body t payload) _
        (omega (arith, body_end, length-frame_body t payload))

  crc_of : le_value (drop (length checked - 4) checked) ≡ Crc32.checksum (frame_body t payload)
  crc_of =
      ap le_value (
        drop-append (length checked - 4) (frame_body t payload) _
          (omega (arith, body_end, length-frame_body t payload)))
      ∙ le_value-le_bytes 4 _ (Crc32.checksum-lt (frame_body t payload))

  own_words :
      (tail : Bytes)
      → (take 4 (frame_body t payload ++ tail) ≡ magic)
        × (le_value (slice 12 16 (frame_body t payload ++ tail)) ≡ 16)
        × (le_value (slice 4 6 (frame_body t payload ++ tail)) ≡ 1)
  unfolding frame_body le_bytes le_value
  own_words tail = (refl, refl, refl)

  pub Accepted-checked :
      1 ≤ t
      → t ≤ 5
      → length payload ≤ max_frame_bytes - min_frame_bytes
      → Accepted checked (record { version = 1; message_type = t; payload = payload })
  Accepted-checked first last fits =
      let crc = le_bytes 4 (Crc32.checksum (frame_body t payload)) in
      let (m, hdr, v) = own_words crc in
      record {
        at_least = omega (arith, length-checked);
        at_most = omega (arith, length-checked);
        own_length =
            omega (arith, length-checked, frame_length t payload (omega arith) (omega arith) crc);
        own_magic = m;
        own_header = hdr;
        own_version = v;
        own_type = frame_type t payload (omega arith) (omega arith) crc;
        first_type = first;
        last_type = last;
        own_crc = crc_of ∙ ap Crc32.checksum (sym body_of);
        version = refl;
        payload = sym (frame_payload t payload (omega arith) (omega arith) _ crc body_end);
      }

-- A frame that EncodeFrame has written is the checked body.
pub encode_frame-checked :
    (t : ℕ) (payload : Bytes)
    → 1 ≤ t
    → t ≤ 5
    → length payload ≤ max_frame_bytes - min_frame_bytes
    → encode_frame t payload ≡ ok (checked t payload)
unfolding encode_frame
encode_frame-checked t payload first last fits = ground arith

pub encode_frame-bounds :
    (t : ℕ) (payload raw : Bytes)
    → encode_frame t payload ≡ ok raw
    → (1 ≤ t)
      × (t ≤ 5)
      × (length payload ≤ max_frame_bytes - min_frame_bytes)
      × (raw ≡ checked t payload)
unfolding encode_frame
encode_frame-bounds t payload raw h = ground arith

-- A frame that EncodeFrame returns is decoded to its message type and payload.
pub decode_frame-encode_frame :
    (t : ℕ) (payload raw : Bytes)
    → encode_frame t payload ≡ ok raw
    → decode_frame raw ≡ ok (record { version = 1; message_type = t; payload = payload })
decode_frame-encode_frame t payload raw h =
    let (first, last, fits, e) = encode_frame-bounds t payload raw h in
    rw e (decode_frame-Accepted _ _ (Accepted-checked t payload first last fits))
