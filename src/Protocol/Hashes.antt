-- ===== src/Protocol/Hashes.antt =====
-- The hash domains of internal/protocol/protocol.go and DeriveSessionLeaseID. A string
-- that the writer refuses appends nothing: the source discards the error with `_ =`.
use utaki_tick_data_platform.Common.{
  ℕ, ℤ, List, [], ◌∷◌, ◌++◌, Bytes, le_bytes, u64_of_i64, ascii, length, take, ok, err, Result,
}
use utaki_tick_data_platform.Golib.Sha256
use utaki_tick_data_platform.Golib.Hex
use utaki_tick_data_platform.Protocol.{RawMqlTickV1, source_schema_mt5, ErrorCode}
use utaki_tick_data_platform.Protocol.Writer

abbrev nul : Bytes
nul = 0 ∷ []

-- `_ = w.string(value)`: what the writer holds if the string is refused is what it held before.
abbrev or_unchanged : Bytes → Result ErrorCode (Unit {0} × Bytes) → Bytes
or_unchanged buffer (ok (done, buffer')) = buffer'
or_unchanged buffer (err e) = buffer

unfoldable pub append_string : Bytes → Bytes → Bytes
append_string value buffer = or_unchanged buffer (Writer.string value buffer)

unfoldable pub derive_session_lease_id : Bytes → Bytes → Bytes → Bytes → Bytes → Bytes → Bytes
derive_session_lease_id producer_instance_id producer_session_id provider_id stable_feed_id
      broker_server_fingerprint exact_source_symbol =
    let data' =
      ascii "tick-data-platform/lease/v1"
      ++ (nul
          ++ (producer_instance_id
              ++ (nul
                  ++ (producer_session_id
                      ++ (nul
                          ++ (provider_id
                              ++ (nul
                                  ++ (stable_feed_id
                                      ++ (nul
                                          ++ (broker_server_fingerprint
                                              ++ (nul ++ exact_source_symbol))))))))))) in
    ascii "lease-" ++ Hex.encode_to_string (take 16 (Sha256.sum256 data'))

unfoldable pub source_payload_fingerprint : RawMqlTickV1 → Bytes
source_payload_fingerprint r =
    let prefix =
      append_string source_schema_mt5 (ascii "tick-data-platform/source-payload/v1" ++ nul) in
    Sha256.sum256 (
      prefix
      ++ (le_bytes 8 (u64_of_i64 r.time)
          ++ (le_bytes 8 r.bid_bits
              ++ (le_bytes 8 r.ask_bits
                  ++ (le_bytes 8 r.last_bits
                      ++ (le_bytes 8 r.volume
                          ++ (le_bytes 8 (u64_of_i64 r.time_msc)
                              ++ (le_bytes 4 r.flags ++ le_bytes 8 r.volume_real_bits))))))))

unfoldable pub observation_hash : Bytes → Bytes → ℕ → ℕ → ℕ → Bytes → Bytes
observation_hash producer_instance_id producer_session_id batch_sequence record_ordinal
      capture_sequence fingerprint =
    let prefix =
      append_string producer_session_id
        (append_string producer_instance_id (ascii "tick-data-platform/observation/v1" ++ nul)) in
    Sha256.sum256 (
      prefix
      ++ (le_bytes 8 batch_sequence
          ++ (le_bytes 4 record_ordinal ++ (le_bytes 8 capture_sequence ++ fingerprint))))

unfoldable pub gateway_batch_sha256 : Bytes → Bytes
gateway_batch_sha256 frame = Sha256.sum256 (ascii "tick-data-platform/batch/v1" ++ (nul ++ frame))

unfoldable pub wal_entry_hash : ℕ → Bytes → ℤ → ℕ → Bytes → Bytes → Bytes
wal_entry_hash sequence previous receive_wall_s receive_monotonic_us batch_hash frame =
    Sha256.sum256 (
      ascii "tick-data-platform/wal-entry/v1"
      ++ (nul
          ++ (le_bytes 8 sequence
              ++ (previous
                  ++ (le_bytes 8 (u64_of_i64 receive_wall_s)
                      ++ (le_bytes 8 receive_monotonic_us ++ (batch_hash ++ frame)))))))

fingerprints : List RawMqlTickV1 → Bytes
fingerprints [] = []
fingerprints (r ∷ rs) = source_payload_fingerprint r ++ fingerprints rs

unfoldable pub boundary_digest : ℤ → Bytes → List RawMqlTickV1 → Bytes
unfolding fingerprints
boundary_digest cursor_msc previous records = Sha256.sum256 (
    ascii "tick-data-platform/boundary/v1"
    ++ (nul
        ++ (le_bytes 8 (u64_of_i64 cursor_msc)
            ++ (previous ++ (le_bytes 4 (length records) ++ fingerprints records)))))
