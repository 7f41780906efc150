-- ===== src/Protocol.antt =====
-- internal/protocol/protocol.go: the constants, the error codes and the messages.
pub mod Buffer
pub mod Writer
pub mod Reader
pub mod Framing
pub mod FramingLaws
pub mod FrameBytes
pub mod Encode
pub mod Decode
pub mod Hashes
pub mod Ranges
pub mod Transfer
pub mod RoundTrip
pub mod Recovery
pub mod Canonical
pub mod Canonicity
pub mod Laws
pub mod Tests
use utaki_tick_data_platform.Common.{ℕ, List, [], ◌∷◌, Bytes, ℤ, ascii}

abbrev pub magic : Bytes
magic = b'T' ∷ b'I' ∷ b'C' ∷ b'K' ∷ []

abbrev pub protocol_version : ℕ
protocol_version = 1

abbrev pub header_length : ℕ
header_length = 16

abbrev pub min_frame_bytes : ℕ
min_frame_bytes = 20

abbrev pub max_frame_bytes : ℕ
max_frame_bytes = 1_048_576

abbrev pub max_records : ℕ
max_records = 4096

abbrev pub max_string_bytes : ℕ
max_string_bytes = 255

unfoldable pub source_schema_mt5 : Bytes
unfolding ascii
source_schema_mt5 = ascii "mt5.mqltick.v1"

-- MessageType is a uint16.
abbrev pub message_hello : ℕ
message_hello = 1

abbrev pub message_resume : ℕ
message_resume = 2

abbrev pub message_batch : ℕ
message_batch = 3

abbrev pub message_ack : ℕ
message_ack = 4

abbrev pub message_error : ℕ
message_error = 5

-- The statuses of an AckV1 are a uint8.
abbrev pub ack_accepted_advanced : ℕ
ack_accepted_advanced = 1

abbrev pub ack_accepted_no_advance : ℕ
ack_accepted_no_advance = 2

abbrev pub ack_duplicate : ℕ
ack_duplicate = 3

abbrev pub ack_dense_boundary : ℕ
ack_dense_boundary = 4

abbrev pub ack_dense_unresolved : ℕ
ack_dense_unresolved = 5

abbrev pub ack_retryable_error : ℕ
ack_retryable_error = 6

abbrev pub ack_fatal_protocol_error : ℕ
ack_fatal_protocol_error = 7

abbrev pub ack_source_state_conflict : ℕ
ack_source_state_conflict = 8

abbrev pub ack_session_lease_conflict : ℕ
ack_session_lease_conflict = 9

-- The code of a ProtocolError; its detail is text for people.
pub data ErrorCode : Type 0 where
  invalid_frame unsupported_version unknown_message truncated_frame oversized_frame : ErrorCode
  crc_mismatch invalid_field source_state_conflict session_lease_conflict : ErrorCode
  internal_retryable : ErrorCode

pub record Frame : Type 0 where
  pub version : ℕ
  pub message_type : ℕ
  pub payload : Bytes

pub record HelloV1 : Type 0 where
  pub producer_instance_id : Bytes
  pub producer_session_id : Bytes
  pub producer_build_id : Bytes
  pub mql_compiler_build : Bytes
  pub terminal_build : Bytes
  pub os_contract : Bytes
  pub clock_api_id : Bytes
  pub provider_id : Bytes
  pub stable_feed_id : Bytes
  pub broker_server_fingerprint : Bytes
  pub exact_source_symbol : Bytes
  pub source_schema_id : Bytes
  pub acquisition_mode : ℕ
  pub initial_from_msc : ℤ
  pub capability_flags : ℕ

pub record ResumeV1 : Type 0 where
  pub accepted_protocol_version : ℕ
  pub gateway_instance_id : Bytes
  pub session_lease_id : Bytes
  pub committed_cursor_msc : ℤ
  pub committed_boundary_digest : Bytes
  pub last_durable_batch_sequence : ℕ
  pub last_durable_batch_hash : Bytes
  pub next_from_msc : ℤ
  pub next_requested_count : ℕ
  pub maximum_frame_bytes : ℕ
  pub maximum_records : ℕ
  pub heartbeat_idle_timeout_ms : ℕ

pub record RawMqlTickV1 : Type 0 where
  pub time : ℤ
  pub bid_bits : ℕ
  pub ask_bits : ℕ
  pub last_bits : ℕ
  pub volume : ℕ
  pub time_msc : ℤ
  pub flags : ℕ
  pub volume_real_bits : ℕ
  pub capture_sequence : ℕ

pub record BatchFrameV1 : Type 0 where
  pub session_lease_id : Bytes
  pub producer_session_id : Bytes
  pub batch_sequence : ℕ
  pub requested_from_msc : ℤ
  pub requested_count : ℕ
  pub fetch_wall_start_s : ℤ
  pub fetch_wall_end_s : ℤ
  pub fetch_monotonic_start_us : ℕ
  pub fetch_monotonic_end_us : ℕ
  pub returned_count : ℤ
  pub copy_ticks_error : ℤ
  pub source_status_flags : ℕ
  pub source_schema_id : Bytes
  pub records : List RawMqlTickV1

pub record AckV1 : Type 0 where
  pub producer_session_id : Bytes
  pub batch_sequence : ℕ
  pub gateway_batch_sha256 : Bytes
  pub gateway_ingest_sequence : ℕ
  pub status : ℕ
  pub committed_cursor_msc : ℤ
  pub committed_boundary_digest : Bytes
  pub next_from_msc : ℤ
  pub next_requested_count : ℕ
  pub retry_after_ms : ℕ

pub record ErrorV1 : Type 0 where
  pub code : ℕ
  pub retryable : ℕ
  pub related_message_type : ℕ
  pub related_batch_sequence : ℕ
  pub message : Bytes

pub data Message : Type 0 where
  hello : HelloV1 → Message
  resume : ResumeV1 → Message
  batch : BatchFrameV1 → Message
  ack : AckV1 → Message
  error : ErrorV1 → Message

unfoldable pub message_type : Message → ℕ
message_type (hello v) = message_hello
message_type (resume v) = message_resume
message_type (batch v) = message_batch
message_type (ack v) = message_ack
message_type (error v) = message_error

unfoldable pub error_code_number : ErrorCode → ℕ
error_code_number ErrorCode.invalid_frame = 1
error_code_number ErrorCode.unsupported_version = 2
error_code_number ErrorCode.unknown_message = 3
error_code_number ErrorCode.truncated_frame = 4
error_code_number ErrorCode.oversized_frame = 5
error_code_number ErrorCode.crc_mismatch = 6
error_code_number ErrorCode.invalid_field = 7
error_code_number ErrorCode.source_state_conflict = 8
error_code_number ErrorCode.session_lease_conflict = 9
error_code_number ErrorCode.internal_retryable = 10
