-- ===== src/Protocol/Decode.antt =====
-- DecodeMessage of internal/protocol/protocol.go and the decoders of the five messages.
use utaki_tick_data_platform.Common.{
  ℕ, zero, suc, pos, List, [], ◌∷◌, ok, err, Bool, not, ◌&&◌, ◌||◌, Result, Bytes, bytes_eq, leb,
  ltb, ◌==◌, if◌then◌else◌,
}
use utaki_tick_data_platform.Common
use utaki_tick_data_platform.Protocol.{
  Frame, HelloV1, ResumeV1, RawMqlTickV1, BatchFrameV1, AckV1, ErrorV1, Message, hello, resume,
  batch, ack, error, ErrorCode, max_records, protocol_version, source_schema_mt5, message_hello,
  message_resume, message_batch, message_ack, message_error,
}
use utaki_tick_data_platform.Protocol.Buffer.{Buffer, guard, pure, ◌>>=◌, ◌>>◌}
use utaki_tick_data_platform.Protocol.Reader
use utaki_tick_data_platform.Protocol.Framing.{decode_frame}
use utaki_tick_data_platform.Protocol.Encode.{counts_match, failure_is_empty}

unfoldable pub decode_hello : Buffer HelloV1
decode_hello = do
  producer_instance_id ← Reader.string
  producer_session_id ← Reader.string
  producer_build_id ← Reader.string
  mql_compiler_build ← Reader.string
  terminal_build ← Reader.string
  os_contract ← Reader.string
  clock_api_id ← Reader.string
  provider_id ← Reader.string
  stable_feed_id ← Reader.string
  broker_server_fingerprint ← Reader.string
  exact_source_symbol ← Reader.string
  source_schema_id ← Reader.string
  acquisition_mode ← Reader.u8
  guard (acquisition_mode == 1 || acquisition_mode == 2) ErrorCode.invalid_field
  initial_from_msc ← Reader.i64
  capability_flags ← Reader.u32
  pure (record {
    producer_instance_id = producer_instance_id;
    producer_session_id = producer_session_id;
    producer_build_id = producer_build_id;
    mql_compiler_build = mql_compiler_build;
    terminal_build = terminal_build;
    os_contract = os_contract;
    clock_api_id = clock_api_id;
    provider_id = provider_id;
    stable_feed_id = stable_feed_id;
    broker_server_fingerprint = broker_server_fingerprint;
    exact_source_symbol = exact_source_symbol;
    source_schema_id = source_schema_id;
    acquisition_mode = acquisition_mode;
    initial_from_msc = initial_from_msc;
    capability_flags = capability_flags;
  })

unfoldable pub decode_resume : Buffer ResumeV1
decode_resume = do
  accepted_protocol_version ← Reader.u16
  guard (accepted_protocol_version == protocol_version) ErrorCode.invalid_field
  gateway_instance_id ← Reader.string
  session_lease_id ← Reader.string
  committed_cursor_msc ← Reader.i64
  committed_boundary_digest ← Reader.hash
  last_durable_batch_sequence ← Reader.u64
  last_durable_batch_hash ← Reader.hash
  next_from_msc ← Reader.i64
  next_requested_count ← Reader.u32
  maximum_frame_bytes ← Reader.u32
  maximum_records ← Reader.u32
  heartbeat_idle_timeout_ms ← Reader.u32
  pure (record {
    accepted_protocol_version = accepted_protocol_version;
    gateway_instance_id = gateway_instance_id;
    session_lease_id = session_lease_id;
    committed_cursor_msc = committed_cursor_msc;
    committed_boundary_digest = committed_boundary_digest;
    last_durable_batch_sequence = last_durable_batch_sequence;
    last_durable_batch_hash = last_durable_batch_hash;
    next_from_msc = next_from_msc;
    next_requested_count = next_requested_count;
    maximum_frame_bytes = maximum_frame_bytes;
    maximum_records = maximum_records;
    heartbeat_idle_timeout_ms = heartbeat_idle_timeout_ms;
  })

unfoldable pub decode_record : Buffer RawMqlTickV1
decode_record = do
  time ← Reader.i64
  bid_bits ← Reader.u64
  ask_bits ← Reader.u64
  last_bits ← Reader.u64
  volume ← Reader.u64
  time_msc ← Reader.i64
  flags ← Reader.u32
  volume_real_bits ← Reader.u64
  capture_sequence ← Reader.u64
  pure (record {
    time = time;
    bid_bits = bid_bits;
    ask_bits = ask_bits;
    last_bits = last_bits;
    volume = volume;
    time_msc = time_msc;
    flags = flags;
    volume_real_bits = volume_real_bits;
    capture_sequence = capture_sequence;
  })

unfoldable pub decode_records : ℕ → Buffer (List RawMqlTickV1)
decode_records zero = pure []
decode_records (suc n) = do r ← decode_record; rs ← decode_records n; pure (r ∷ rs)

unfoldable pub decode_batch : Buffer BatchFrameV1
decode_batch = do
  session_lease_id ← Reader.string
  producer_session_id ← Reader.string
  batch_sequence ← Reader.u64
  requested_from_msc ← Reader.i64
  requested_count ← Reader.u32
  fetch_wall_start_s ← Reader.i64
  fetch_wall_end_s ← Reader.i64
  fetch_monotonic_start_us ← Reader.u64
  fetch_monotonic_end_us ← Reader.u64
  returned_count ← Reader.i32
  copy_ticks_error ← Reader.i32
  source_status_flags ← Reader.u32
  source_schema_id ← Reader.string
  guard (bytes_eq source_schema_id source_schema_mt5) ErrorCode.invalid_field
  count ← Reader.u32
  guard (not (ltb max_records count)) ErrorCode.invalid_field
  records ← decode_records count
  guard (counts_match returned_count count) ErrorCode.invalid_field
  guard (failure_is_empty returned_count count) ErrorCode.invalid_field
  pure (record {
    session_lease_id = session_lease_id;
    producer_session_id = producer_session_id;
    batch_sequence = batch_sequence;
    requested_from_msc = requested_from_msc;
    requested_count = requested_count;
    fetch_wall_start_s = fetch_wall_start_s;
    fetch_wall_end_s = fetch_wall_end_s;
    fetch_monotonic_start_us = fetch_monotonic_start_us;
    fetch_monotonic_end_us = fetch_monotonic_end_us;
    returned_count = returned_count;
    copy_ticks_error = copy_ticks_error;
    source_status_flags = source_status_flags;
    source_schema_id = source_schema_id;
    records = records;
  })

unfoldable pub decode_ack : Buffer AckV1
decode_ack = do
  producer_session_id ← Reader.string
  batch_sequence ← Reader.u64
  gateway_batch_sha256 ← Reader.hash
  gateway_ingest_sequence ← Reader.u64
  status ← Reader.u8
  guard (not (ltb status 1 || ltb 9 status)) ErrorCode.invalid_field
  committed_cursor_msc ← Reader.i64
  committed_boundary_digest ← Reader.hash
  next_from_msc ← Reader.i64
  next_requested_count ← Reader.u32
  retry_after_ms ← Reader.u32
  pure (record {
    producer_session_id = producer_session_id;
    batch_sequence = batch_sequence;
    gateway_batch_sha256 = gateway_batch_sha256;
    gateway_ingest_sequence = gateway_ingest_sequence;
    status = status;
    committed_cursor_msc = committed_cursor_msc;
    committed_boundary_digest = committed_boundary_digest;
    next_from_msc = next_from_msc;
    next_requested_count = next_requested_count;
    retry_after_ms = retry_after_ms;
  })

unfoldable pub decode_error : Buffer ErrorV1
decode_error = do
  code ← Reader.u16
  guard (not (ltb code 1 || ltb 10 code)) ErrorCode.invalid_field
  retryable ← Reader.u8
  guard (not (ltb 1 retryable)) ErrorCode.invalid_field
  related_message_type ← Reader.u16
  guard (not (ltb message_error related_message_type)) ErrorCode.invalid_field
  related_batch_sequence ← Reader.u64
  message ← Reader.string
  pure (record {
    code = code;
    retryable = retryable;
    related_message_type = related_message_type;
    related_batch_sequence = related_batch_sequence;
    message = message;
  })

-- A message is read to the end of the payload.
unfoldable pub whole : {A : Type 0} → Buffer A → (A → Message) → Bytes → Result ErrorCode Message
whole decode as_message payload =
    Common.◌>>=◌ ((do value ← decode; Reader.done; pure (as_message value)) payload)
      λ read. ok read.0

unfoldable pub decode_message : Frame → Result ErrorCode Message
unfolding whole
decode_message frame =
    if frame.message_type == message_hello
    then whole decode_hello hello frame.payload
    else if frame.message_type == message_resume
    then whole decode_resume resume frame.payload
    else if frame.message_type == message_batch
    then whole decode_batch batch frame.payload
    else if frame.message_type == message_ack
    then whole decode_ack ack frame.payload
    else if frame.message_type == message_error
    then whole decode_error error frame.payload
    else err ErrorCode.unknown_message

-- DecodeFrame and then DecodeMessage, as every caller does.
unfoldable pub decode : Bytes → Result ErrorCode Message
decode raw = Common.◌>>=◌ (decode_frame raw) decode_message
