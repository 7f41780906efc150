-- ===== src/Protocol/Ranges.antt =====
-- The ranges that the Go types of the messages' fields have by themselves.
use utaki_tick_data_platform.Common.{◌<◌, ◌≤◌, ◌^◌, ◌≡◌, IsI64, IsI32, length, All}
use utaki_tick_data_platform.Protocol.{
  HelloV1, ResumeV1, RawMqlTickV1, BatchFrameV1, AckV1, ErrorV1, Message, hello, resume, batch, ack,
  error, source_schema_mt5, message_error,
}

pub record HelloInRange (v : HelloV1) : Type 0 where
  pub acquisition_mode : v.acquisition_mode < 2 ^ 8
  pub initial_from_msc : IsI64 v.initial_from_msc
  pub capability_flags : v.capability_flags < 2 ^ 32

pub record ResumeInRange (v : ResumeV1) : Type 0 where
  pub accepted_protocol_version : v.accepted_protocol_version < 2 ^ 16
  pub committed_cursor_msc : IsI64 v.committed_cursor_msc
  pub committed_boundary_digest : length v.committed_boundary_digest ≡ 32
  pub last_durable_batch_sequence : v.last_durable_batch_sequence < 2 ^ 64
  pub last_durable_batch_hash : length v.last_durable_batch_hash ≡ 32
  pub next_from_msc : IsI64 v.next_from_msc
  pub next_requested_count : v.next_requested_count < 2 ^ 32
  pub maximum_frame_bytes : v.maximum_frame_bytes < 2 ^ 32
  pub maximum_records : v.maximum_records < 2 ^ 32
  pub heartbeat_idle_timeout_ms : v.heartbeat_idle_timeout_ms < 2 ^ 32

pub record TickInRange (v : RawMqlTickV1) : Type 0 where
  pub time : IsI64 v.time
  pub bid_bits : v.bid_bits < 2 ^ 64
  pub ask_bits : v.ask_bits < 2 ^ 64
  pub last_bits : v.last_bits < 2 ^ 64
  pub volume : v.volume < 2 ^ 64
  pub time_msc : IsI64 v.time_msc
  pub flags : v.flags < 2 ^ 32
  pub volume_real_bits : v.volume_real_bits < 2 ^ 64
  pub capture_sequence : v.capture_sequence < 2 ^ 64

pub record BatchInRange (v : BatchFrameV1) : Type 0 where
  pub batch_sequence : v.batch_sequence < 2 ^ 64
  pub requested_from_msc : IsI64 v.requested_from_msc
  pub requested_count : v.requested_count < 2 ^ 32
  pub fetch_wall_start_s : IsI64 v.fetch_wall_start_s
  pub fetch_wall_end_s : IsI64 v.fetch_wall_end_s
  pub fetch_monotonic_start_us : v.fetch_monotonic_start_us < 2 ^ 64
  pub fetch_monotonic_end_us : v.fetch_monotonic_end_us < 2 ^ 64
  pub returned_count : IsI32 v.returned_count
  pub copy_ticks_error : IsI32 v.copy_ticks_error
  pub source_status_flags : v.source_status_flags < 2 ^ 32
  pub records : All TickInRange v.records

pub record AckInRange (v : AckV1) : Type 0 where
  pub batch_sequence : v.batch_sequence < 2 ^ 64
  pub gateway_batch_sha256 : length v.gateway_batch_sha256 ≡ 32
  pub gateway_ingest_sequence : v.gateway_ingest_sequence < 2 ^ 64
  pub status : v.status < 2 ^ 8
  pub committed_cursor_msc : IsI64 v.committed_cursor_msc
  pub committed_boundary_digest : length v.committed_boundary_digest ≡ 32
  pub next_from_msc : IsI64 v.next_from_msc
  pub next_requested_count : v.next_requested_count < 2 ^ 32
  pub retry_after_ms : v.retry_after_ms < 2 ^ 32

pub record ErrorInRange (v : ErrorV1) : Type 0 where
  pub code : v.code < 2 ^ 16
  pub retryable : v.retryable < 2 ^ 8
  pub related_message_type : v.related_message_type < 2 ^ 16
  pub related_batch_sequence : v.related_batch_sequence < 2 ^ 64

abbrev pub InRange : Message → Type 0
InRange (hello v) = HelloInRange v
InRange (resume v) = ResumeInRange v
InRange (batch v) = BatchInRange v
InRange (ack v) = AckInRange v
InRange (error v) = ErrorInRange v

-- What only the decoder asks for: the source schema of a batch, and a known type behind an error.
abbrev pub Acceptable : Message → Type 0
Acceptable (batch v) = v.source_schema_id ≡ source_schema_mt5
Acceptable (error v) = v.related_message_type ≤ message_error
Acceptable _ = Unit {0}
