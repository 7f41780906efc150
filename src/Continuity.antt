-- ===== src/Continuity.antt =====
-- internal/continuity: the occurrences of a replay, and the overlap of a batch with those before it.
pub mod Overlap
pub mod OverlapLaws
mod Tests
use utaki_tick_data_platform.Common.{ℕ, Bytes, ℤ}
use utaki_tick_data_platform.Protocol.{BatchFrameV1, RawMqlTickV1}

-- `tick` is the field `record`.
pub record FingerprintOccurrence : Type 0 where
  pub fingerprint : Bytes
  pub time_msc : ℤ
  pub gateway_sequence : ℕ
  pub record_ordinal : ℕ
  pub tick : RawMqlTickV1
  pub batch : BatchFrameV1
  pub raw_key : Bytes
  pub raw_hash : Bytes
  pub producer_instance_id : Bytes
