-- ===== src/Ingest/Gateway.antt =====
-- The state of the gateway of internal/ingest/gateway.go, and the acknowledgements it answers with.
use utaki_tick_data_platform.Common.{ℕ, Bytes, pos}
use utaki_tick_data_platform.Protocol.{AckV1, BatchFrameV1}
use utaki_tick_data_platform.Wal.Store
use utaki_tick_data_platform.Journal.{Batch, zero_digest}
use utaki_tick_data_platform.Journal
use utaki_tick_data_platform.Ingest.Config.{Config}
use utaki_tick_data_platform.Ingest.Disk.{DiskStateMachine}
use utaki_tick_data_platform.Ingest.Session.{Session}

pub record Metrics : Type 0 where
  pub accepted_batches : ℕ
  pub accepted_records : ℕ
  pub duplicate_batches : ℕ
  pub rejected_batches : ℕ

-- The configuration is the one with its defaults, as NewGateway stores it.
pub record Gateway : Type 0 where
  pub config : Config
  pub wal : Store.Store
  pub journal : Journal.Store
  pub disk : DiskStateMachine
  pub session : Session
  pub metrics : Metrics

-- An acknowledgement of a batch that is in no table.
unfoldable pub refusal : Config → BatchFrameV1 → Bytes → ℕ → AckV1
refusal config batch incoming_hash status = record {
  producer_session_id = batch.producer_session_id;
  batch_sequence = batch.batch_sequence;
  gateway_batch_sha256 = incoming_hash;
  gateway_ingest_sequence = 0;
  status = status;
  committed_cursor_msc = pos 0;
  committed_boundary_digest = zero_digest;
  next_from_msc = pos 0;
  next_requested_count = config.initial_batch_count;
  retry_after_ms = 0;
}

unfoldable pub ack_from_batch : Batch → ℕ → AckV1
ack_from_batch row status = record {
  producer_session_id = row.producer_session_id;
  batch_sequence = row.batch_sequence;
  gateway_batch_sha256 = row.gateway_batch_sha256;
  gateway_ingest_sequence = row.gateway_ingest_sequence;
  status = status;
  committed_cursor_msc = row.committed_cursor_msc;
  committed_boundary_digest = row.committed_boundary_digest;
  next_from_msc = row.next_from_msc;
  next_requested_count = row.next_requested_count;
  retry_after_ms = 0;
}
