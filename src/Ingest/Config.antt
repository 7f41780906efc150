-- ===== src/Ingest/Config.antt =====
-- internal/ingest/config.go: the defaults of the runtime configuration and its validation.
-- Durations are int64 nanoseconds.
use utaki_tick_data_platform.Common.{
  ℕ, not, ◌&&◌, ◌||◌, Result, ok, require, ◌>>◌, map_err, Bytes, ℤ, pos, ltb, length, ◌==◌, ◌==ℤ◌,
  ltℤ, ascii, if◌then◌else◌,
}
use utaki_tick_data_platform.Protocol.{min_frame_bytes, max_frame_bytes, max_records}
use utaki_tick_data_platform.Ingest.Disk.{
  DiskWatermarks, DiskError, validate as validate_watermarks,
}

pub record Config : Type 0 where
  pub listen_address : Bytes
  pub gateway_instance_id : Bytes
  pub wal_root : Bytes
  pub raw_outbox_root : Bytes
  pub journal_path : Bytes
  pub max_frame_bytes : ℕ
  pub max_records : ℕ
  pub initial_from_msc : ℤ
  pub initial_batch_count : ℕ
  pub maximum_batch_count : ℕ
  pub dense_boundary_hard_cap : ℕ
  pub session_lease_timeout : ℤ
  pub heartbeat_idle_timeout : ℤ
  pub disk_high_free_bytes : ℕ
  pub disk_critical_free_bytes : ℕ
  pub disk_emergency_free_bytes : ℕ
  pub max_pending_segments : ℕ
  pub max_pending_bytes : ℕ
  pub producer_instance_id : Bytes
  pub producer_build_id : Bytes
  pub dataset_id : Bytes
  pub provider_id : Bytes
  pub stable_feed_id : Bytes
  pub broker_server_fingerprint : Bytes
  pub exact_source_symbol : Bytes
  pub gateway_build_identity : Bytes
  pub day_definition_id : Bytes
  pub settle_policy : Bytes
  pub publisher_id : Bytes
  pub publisher_epoch : ℕ

pub data ConfigError : Type 0 where
  missing_location gateway_id frame_bytes records : ConfigError
  initial_count maximum_count hard_cap timeout : ConfigError
  disk : DiskError → ConfigError

abbrev or_default : ℕ → ℕ → ℕ
or_default value default = if value == 0 then default else value

abbrev or_duration : ℤ → ℤ → ℤ
or_duration value default = if value ==ℤ pos 0 then default else value

abbrev or_text : Bytes → Bytes → Bytes
or_text value default = if length value == 0 then default else value

unfoldable pub with_defaults : Config → Config
with_defaults c =
    let records = or_default c.max_records max_records in
    let maximum = or_default c.maximum_batch_count records in
    record c {
      listen_address = or_text c.listen_address (ascii "127.0.0.1:17001");
      gateway_instance_id = or_text c.gateway_instance_id (ascii "gateway-local-01");
      max_frame_bytes = or_default c.max_frame_bytes max_frame_bytes;
      max_records = records;
      initial_batch_count = or_default c.initial_batch_count 128;
      maximum_batch_count = maximum;
      dense_boundary_hard_cap = or_default c.dense_boundary_hard_cap maximum;
      session_lease_timeout = or_duration c.session_lease_timeout (pos 30_000_000_000);
      heartbeat_idle_timeout = or_duration c.heartbeat_idle_timeout (pos 60_000_000_000);
      disk_high_free_bytes = or_default c.disk_high_free_bytes 536_870_912;
      disk_critical_free_bytes = or_default c.disk_critical_free_bytes 268_435_456;
      disk_emergency_free_bytes = or_default c.disk_emergency_free_bytes 67_108_864;
    }

-- The counts that the cursor relies on.
unfoldable pub counts_in_order : Config → Result ConfigError (Unit {0})
counts_in_order c = do
  require (not (c.max_records == 0 || ltb max_records c.max_records)) ConfigError.records
  require (not (c.initial_batch_count == 0 || ltb c.max_records c.initial_batch_count))
      ConfigError.initial_count
  require
      (not (
        ltb c.maximum_batch_count c.initial_batch_count || ltb c.max_records c.maximum_batch_count))
      ConfigError.maximum_count
  require
      (not (
        ltb c.dense_boundary_hard_cap c.initial_batch_count
        || ltb c.maximum_batch_count c.dense_boundary_hard_cap))
      ConfigError.hard_cap
  ok tt

abbrev watermarks : Config → DiskWatermarks
watermarks c = record {
  high_free_bytes = c.disk_high_free_bytes;
  critical_free_bytes = c.disk_critical_free_bytes;
  emergency_free_bytes = c.disk_emergency_free_bytes;
  max_pending_segments = c.max_pending_segments;
  max_pending_bytes = c.max_pending_bytes;
}

unfoldable pub validate_defaulted : Config → Result ConfigError (Unit {0})
validate_defaulted c = do
  require
      (not (length c.listen_address == 0 || (length c.wal_root == 0 || length c.journal_path == 0)))
      ConfigError.missing_location
  require (not (length c.gateway_instance_id == 0 || ltb 255 (length c.gateway_instance_id)))
      ConfigError.gateway_id
  require (not (ltb c.max_frame_bytes min_frame_bytes || ltb max_frame_bytes c.max_frame_bytes))
      ConfigError.frame_bytes
  counts_in_order c
  require (ltℤ (pos 0) c.session_lease_timeout && ltℤ (pos 0) c.heartbeat_idle_timeout)
      ConfigError.timeout
  map_err ConfigError.disk (validate_watermarks (watermarks c))

unfoldable pub validate : Config → Result ConfigError (Unit {0})
validate c = validate_defaulted (with_defaults c)
