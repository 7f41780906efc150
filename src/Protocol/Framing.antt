-- ===== src/Protocol/Framing.antt =====
-- EncodeFrame and DecodeFrame of internal/protocol/protocol.go.
use utaki_tick_data_platform.Common.{
  ℕ, ◌+◌, ◌-◌, ◌++◌, ok, err, not, ◌||◌, Result, require, ◌>>◌, Bytes, le_bytes, le_value, bytes_eq,
  length, slice, drop, take, ltb, ◌==◌, if◌then◌else◌,
}
use utaki_tick_data_platform.Golib.Crc32
use utaki_tick_data_platform.Protocol.{
  Frame, ErrorCode, magic, protocol_version, header_length, min_frame_bytes, max_frame_bytes,
  message_hello, message_error,
}

-- The frame without its checksum: the fields in the order of their offsets.
unfoldable pub frame_body : ℕ → Bytes → Bytes
frame_body message_type payload =
    magic
    ++ (le_bytes 2 protocol_version
        ++ (le_bytes 2 message_type
            ++ (le_bytes 4 (20 + length payload) ++ (le_bytes 4 header_length ++ payload))))

unfoldable pub encode_frame : ℕ → Bytes → Result ErrorCode Bytes
encode_frame message_type payload =
    if ltb message_type message_hello || ltb message_error message_type
    then err ErrorCode.unknown_message
    else if ltb (max_frame_bytes - min_frame_bytes) (length payload)
    then err ErrorCode.oversized_frame
    else (let frame = frame_body message_type payload in
        ok (frame ++ le_bytes 4 (Crc32.checksum frame)))

unfoldable pub decode_frame : Bytes → Result ErrorCode Frame
decode_frame raw =
    let frame_length = le_value (slice 8 12 raw) in
    let version = le_value (slice 4 6 raw) in
    let message_type = le_value (slice 6 8 raw) in
    let want = le_value (drop (length raw - 4) raw) in
    let got = Crc32.checksum (take (length raw - 4) raw) in
    do
      require (not (ltb (length raw) 16)) ErrorCode.truncated_frame
      require (not (ltb max_frame_bytes frame_length)) ErrorCode.oversized_frame
      require (not (ltb frame_length min_frame_bytes)) ErrorCode.invalid_frame
      require (not (ltb (length raw) frame_length)) ErrorCode.truncated_frame
      require (length raw == frame_length) ErrorCode.invalid_frame
      require (bytes_eq (take 4 raw) magic) ErrorCode.invalid_frame
      require (le_value (slice 12 16 raw) == header_length) ErrorCode.invalid_frame
      require (version == protocol_version) ErrorCode.unsupported_version
      require (not (ltb message_type message_hello || ltb message_error message_type))
          ErrorCode.unknown_message
      require (want == got) ErrorCode.crc_mismatch
      ok (record {
        version = version;
        message_type = message_type;
        payload = slice 16 (length raw - 4) raw;
      })
