-- ===== src/Protocol/Encode.antt =====
-- encodePayload and EncodeMessage of internal/protocol/protocol.go. The loop over the twelve string
-- fields of HelloV1 is written out.
use utaki_tick_data_platform.Common.{
  ℕ, pos, ◌≤◌, List, [], ◌∷◌, ok, err, Bool, not, ◌&&◌, ◌||◌, Result, Bytes, ℤ, ltℤ, ◌==ℤ◌, length,
  leb, ltb, ◌==◌,
}
use utaki_tick_data_platform.Common
use utaki_tick_data_platform.Protocol.{
  HelloV1, ResumeV1, RawMqlTickV1, BatchFrameV1, AckV1, ErrorV1, Message, hello, resume, batch, ack,
  error, ErrorCode, message_type, max_records, protocol_version,
}
use utaki_tick_data_platform.Protocol.Buffer.{Buffer, guard, pure, ◌>>◌}
use utaki_tick_data_platform.Protocol.Writer
use utaki_tick_data_platform.Protocol.Framing.{encode_frame}

abbrev Writing : Type 0
Writing = Buffer (Unit {0})

unfoldable pub encode_hello : HelloV1 → Writing
encode_hello value = do
  Writer.string value.producer_instance_id
  Writer.string value.producer_session_id
  Writer.string value.producer_build_id
  Writer.string value.mql_compiler_build
  Writer.string value.terminal_build
  Writer.string value.os_contract
  Writer.string value.clock_api_id
  Writer.string value.provider_id
  Writer.string value.stable_feed_id
  Writer.string value.broker_server_fingerprint
  Writer.string value.exact_source_symbol
  Writer.string value.source_schema_id
  guard (value.acquisition_mode == 1 || value.acquisition_mode == 2) ErrorCode.invalid_field
  Writer.u8 value.acquisition_mode
  Writer.i64 value.initial_from_msc
  Writer.u32 value.capability_flags

unfoldable pub encode_resume : ResumeV1 → Writing
encode_resume value = do
  guard (value.accepted_protocol_version == protocol_version) ErrorCode.invalid_field
  Writer.u16 value.accepted_protocol_version
  Writer.string value.gateway_instance_id
  Writer.string value.session_lease_id
  Writer.i64 value.committed_cursor_msc
  Writer.hash value.committed_boundary_digest
  Writer.u64 value.last_durable_batch_sequence
  Writer.hash value.last_durable_batch_hash
  Writer.i64 value.next_from_msc
  Writer.u32 value.next_requested_count
  Writer.u32 value.maximum_frame_bytes
  Writer.u32 value.maximum_records
  Writer.u32 value.heartbeat_idle_timeout_ms

unfoldable pub encode_record : RawMqlTickV1 → Writing
encode_record record' = do
  Writer.i64 record'.time
  Writer.u64 record'.bid_bits
  Writer.u64 record'.ask_bits
  Writer.u64 record'.last_bits
  Writer.u64 record'.volume
  Writer.i64 record'.time_msc
  Writer.u32 record'.flags
  Writer.u64 record'.volume_real_bits
  Writer.u64 record'.capture_sequence

unfoldable pub encode_records : List RawMqlTickV1 → Writing
encode_records [] = pure tt
encode_records (r ∷ rs) = encode_record r >> encode_records rs

-- The count that a batch reports against the records that it carries; -1 and below report a
-- failed call of the source.
unfoldable pub counts_match : ℤ → ℕ → Bool
counts_match returned n = not (not (ltℤ returned (pos 0)) && not (returned ==ℤ pos n))

unfoldable pub failure_is_empty : ℤ → ℕ → Bool
failure_is_empty returned n = not (ltℤ returned (pos 0) && not (n == 0))

unfoldable pub encode_batch : BatchFrameV1 → Writing
encode_batch value = do
  guard (not (ltb max_records (length value.records))) ErrorCode.invalid_field
  guard (counts_match value.returned_count (length value.records)) ErrorCode.invalid_field
  guard (failure_is_empty value.returned_count (length value.records)) ErrorCode.invalid_field
  Writer.string value.session_lease_id
  Writer.string value.producer_session_id
  Writer.u64 value.batch_sequence
  Writer.i64 value.requested_from_msc
  Writer.u32 value.requested_count
  Writer.i64 value.fetch_wall_start_s
  Writer.i64 value.fetch_wall_end_s
  Writer.u64 value.fetch_monotonic_start_us
  Writer.u64 value.fetch_monotonic_end_us
  Writer.i32 value.returned_count
  Writer.i32 value.copy_ticks_error
  Writer.u32 value.source_status_flags
  Writer.string value.source_schema_id
  Writer.u32 (length value.records)
  encode_records value.records

unfoldable pub encode_ack : AckV1 → Writing
encode_ack value = do
  guard (not (ltb value.status 1 || ltb 9 value.status)) ErrorCode.invalid_field
  Writer.string value.producer_session_id
  Writer.u64 value.batch_sequence
  Writer.hash value.gateway_batch_sha256
  Writer.u64 value.gateway_ingest_sequence
  Writer.u8 value.status
  Writer.i64 value.committed_cursor_msc
  Writer.hash value.committed_boundary_digest
  Writer.i64 value.next_from_msc
  Writer.u32 value.next_requested_count
  Writer.u32 value.retry_after_ms

unfoldable pub encode_error : ErrorV1 → Writing
encode_error value = do
  guard (not (ltb value.code 1 || ltb 10 value.code)) ErrorCode.invalid_field
  guard (not (ltb 1 value.retryable)) ErrorCode.invalid_field
  Writer.u16 value.code
  Writer.u8 value.retryable
  Writer.u16 value.related_message_type
  Writer.u64 value.related_batch_sequence
  Writer.string value.message

unfoldable pub encode_payload : Message → Writing
encode_payload (hello value) = encode_hello value
encode_payload (resume value) = encode_resume value
encode_payload (batch value) = encode_batch value
encode_payload (ack value) = encode_ack value
encode_payload (error value) = encode_error value

unfoldable pub encode_message : Message → Result ErrorCode Bytes
encode_message message =
    Common.◌>>=◌ (encode_payload message [])
      λ written. encode_frame (message_type message) written.1
