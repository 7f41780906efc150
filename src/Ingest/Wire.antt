-- ===== src/Ingest/Wire.antt =====
-- readFrame, writeMessage and writeError of internal/ingest/gateway.go.
use utaki_tick_data_platform.Common.{
  ℕ, List, [], ◌∷◌, Bool, true, false, ◌||◌, not, Result, ok, err, require, ◌>>=◌, ◌>>◌, map_err,
  Bytes, le_value, bytes_eq, length, take, drop, slice, ltb, ◌==◌, if◌then◌else◌,
}
use utaki_tick_data_platform.Protocol.{
  Message, ErrorCode, magic, header_length, min_frame_bytes, max_frame_bytes, max_string_bytes,
  error_code_number,
}
use utaki_tick_data_platform.Protocol.Framing.{decode_frame}
use utaki_tick_data_platform.Protocol.Encode.{encode_message}
use utaki_tick_data_platform.Wal.{WalError}
use utaki_tick_data_platform.Ingest.Session.{GatewayError}

-- An error of readFrame, with whether the bytes of a frame come with it.
abbrev pub ReadError : Type 0
ReadError = Bool × ErrorCode

-- `input` is what the connection still delivers before an error or its end. The frame and what lies behind it are returned.
unfoldable pub read_frame : ℕ → Bytes → Result ReadError (Bytes × Bytes)
read_frame limit input =
    let frame_length = le_value (slice 8 12 input) in
    let raw = take frame_length input in
    do
      require (not (ltb (length input) 16)) (false, ErrorCode.truncated_frame)
      require (not (ltb frame_length min_frame_bytes)) (false, ErrorCode.invalid_frame)
      require (not (ltb limit frame_length || ltb max_frame_bytes frame_length))
          (false, ErrorCode.oversized_frame)
      require (bytes_eq (slice 0 4 input) magic) (false, ErrorCode.invalid_frame)
      require (le_value (slice 12 16 input) == header_length) (false, ErrorCode.invalid_frame)
      require (not (ltb (length input) frame_length)) (true, ErrorCode.truncated_frame)
      frame ← map_err (λ (e : ErrorCode). (true, e)) (decode_frame raw)
      ok (raw, drop frame_length input)

-- The messages that reach the other side whole. `sent` says whether every write succeeds.
unfoldable pub write_message : Bool → Message → Bool × List Message
write_message sent message = elim (encode_message message) [
  | err e ↦ (false, [])
  | ok frame ↦ if sent then (true, message ∷ []) else (false, [])
]

unfoldable pub error_code_of : GatewayError → ErrorCode
error_code_of (GatewayError.protocol code) = code
error_code_of (GatewayError.wal (WalError.protocol code)) = code
error_code_of _ = ErrorCode.internal_retryable

abbrev pub is_retryable : ErrorCode → Bool
is_retryable ErrorCode.internal_retryable = true
is_retryable ErrorCode.session_lease_conflict = true
is_retryable _ = false

-- `text` is the error's text.
unfoldable pub error_message : Bytes → ℕ → ℕ → GatewayError → Message
error_message text related_type batch_sequence e = Message.error (record {
  code = error_code_number (error_code_of e);
  retryable = if is_retryable (error_code_of e) then 1 else 0;
  related_message_type = related_type;
  related_batch_sequence = batch_sequence;
  message = if ltb max_string_bytes (length text) then take max_string_bytes text else text;
})

-- The result of the write is ignored.
unfoldable pub write_error : Bool → Bytes → ℕ → ℕ → GatewayError → List Message
write_error sent text related_type batch_sequence e =
    (write_message sent (error_message text related_type batch_sequence e)).1
