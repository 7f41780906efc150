-- ===== src/Protocol/RoundTrip.antt =====
-- The encoders of the messages in internal/protocol/protocol.go against the decoders.
use utaki_tick_data_platform.Common.{
  ℕ, ◌<◌, ◌≤◌, ◌^◌, ◌≡◌, List, [], ◌∷◌, length, All, arith, true, not, ltb, le→ltb, ◌∙◌,
  bytes_eq_refl,
}
use utaki_tick_data_platform.Protocol.{
  HelloV1, ResumeV1, RawMqlTickV1, BatchFrameV1, AckV1, ErrorV1, source_schema_mt5, message_error,
  max_records,
}
use utaki_tick_data_platform.Protocol.Buffer.{guard_holds, pure_lem}
use utaki_tick_data_platform.Protocol.Ranges.{
  HelloInRange, ResumeInRange, TickInRange, BatchInRange, AckInRange, ErrorInRange,
}
use utaki_tick_data_platform.Protocol.Transfer.{
  Transfers, ◌$◌, field, finish, last, written_guard, read_guard, Transfers-pure, Transfers-u8,
  Transfers-u16, Transfers-u32, Transfers-u64, Transfers-i32, Transfers-i64, Transfers-hash,
  Transfers-string,
}
use utaki_tick_data_platform.Protocol.Encode.{
  encode_hello, encode_resume, encode_record, encode_records, encode_batch, encode_ack,
  encode_error,
}
use utaki_tick_data_platform.Protocol.Decode.{
  decode_hello, decode_resume, decode_record, decode_records, decode_batch, decode_ack,
  decode_error,
}

pub Transfers-hello : (v : HelloV1) → HelloInRange v → Transfers (encode_hello v) decode_hello v
unfolding encode_hello decode_hello
Transfers-hello v h =
    field _ (Transfers-string _)
    $ field _ (Transfers-string _)
    $ field _ (Transfers-string _)
    $ field _ (Transfers-string _)
    $ field _ (Transfers-string _)
    $ field _ (Transfers-string _)
    $ field _ (Transfers-string _)
    $ field _ (Transfers-string _)
    $ field _ (Transfers-string _)
    $ field _ (Transfers-string _)
    $ field _ (Transfers-string _)
    $ field _ (Transfers-string _)
    $ written_guard _ _ λ mode.
      field _ (Transfers-u8 _)
      $ read_guard _ mode
      $ field _ (Transfers-i64 _ h.initial_from_msc)
      $ last _ (Transfers-u32 _ h.capability_flags)

pub Transfers-resume :
    (v : ResumeV1) → ResumeInRange v → Transfers (encode_resume v) decode_resume v
unfolding encode_resume decode_resume
Transfers-resume v h = written_guard _ _ λ version.
    field _ (Transfers-u16 _ h.accepted_protocol_version)
    $ read_guard _ version
    $ field _ (Transfers-string _)
    $ field _ (Transfers-string _)
    $ field _ (Transfers-i64 _ h.committed_cursor_msc)
    $ field _ (Transfers-hash _ h.committed_boundary_digest)
    $ field _ (Transfers-u64 _ h.last_durable_batch_sequence)
    $ field _ (Transfers-hash _ h.last_durable_batch_hash)
    $ field _ (Transfers-i64 _ h.next_from_msc)
    $ field _ (Transfers-u32 _ h.next_requested_count)
    $ field _ (Transfers-u32 _ h.maximum_frame_bytes)
    $ field _ (Transfers-u32 _ h.maximum_records)
    $ last _ (Transfers-u32 _ h.heartbeat_idle_timeout_ms)

Transfers-record : (v : RawMqlTickV1) → TickInRange v → Transfers (encode_record v) decode_record v
unfolding encode_record decode_record
Transfers-record v h =
    field _ (Transfers-i64 _ h.time)
    $ field _ (Transfers-u64 _ h.bid_bits)
    $ field _ (Transfers-u64 _ h.ask_bits)
    $ field _ (Transfers-u64 _ h.last_bits)
    $ field _ (Transfers-u64 _ h.volume)
    $ field _ (Transfers-i64 _ h.time_msc)
    $ field _ (Transfers-u32 _ h.flags)
    $ field _ (Transfers-u64 _ h.volume_real_bits)
    $ last _ (Transfers-u64 _ h.capture_sequence)

Transfers-records :
    (vs : List RawMqlTickV1)
    → All TickInRange vs
    → Transfers (encode_records vs) (decode_records (length vs)) vs
unfolding encode_records decode_records
Transfers-records [] h = Transfers-pure []
Transfers-records (v ∷ vs) h = field _ (Transfers-record v h.0) $ last _ (Transfers-records vs h.1)

-- The count of the records is a uint32.
few_records : (n : ℕ) → not (ltb max_records n) ≡ true → n < 2 ^ 32
few_records n h = ground arith

pub Transfers-batch :
    (v : BatchFrameV1)
    → BatchInRange v
    → v.source_schema_id ≡ source_schema_mt5
    → Transfers (encode_batch v) decode_batch v
unfolding encode_batch decode_batch
Transfers-batch v h schema = written_guard _ _ λ few. written_guard _ _ λ counted.
    written_guard _ _ λ empty.
      field _ (Transfers-string _)
      $ field _ (Transfers-string _)
      $ field _ (Transfers-u64 _ h.batch_sequence)
      $ field _ (Transfers-i64 _ h.requested_from_msc)
      $ field _ (Transfers-u32 _ h.requested_count)
      $ field _ (Transfers-i64 _ h.fetch_wall_start_s)
      $ field _ (Transfers-i64 _ h.fetch_wall_end_s)
      $ field _ (Transfers-u64 _ h.fetch_monotonic_start_us)
      $ field _ (Transfers-u64 _ h.fetch_monotonic_end_us)
      $ field _ (Transfers-i32 _ h.returned_count)
      $ field _ (Transfers-i32 _ h.copy_ticks_error)
      $ field _ (Transfers-u32 _ h.source_status_flags)
      $ field _ (Transfers-string _)
      $ read_guard _ (rw schema (bytes_eq_refl source_schema_mt5))
      $ field _ (Transfers-u32 _ (few_records (length v.records) few))
      $ read_guard _ few
      $ finish _ (Transfers-records v.records h.records)
          λ rest. guard_holds _ _ _ rest counted ∙ guard_holds _ _ _ rest empty ∙ pure_lem v rest

pub Transfers-ack : (v : AckV1) → AckInRange v → Transfers (encode_ack v) decode_ack v
unfolding encode_ack decode_ack
Transfers-ack v h = written_guard _ _ λ status.
    field _ (Transfers-string _)
    $ field _ (Transfers-u64 _ h.batch_sequence)
    $ field _ (Transfers-hash _ h.gateway_batch_sha256)
    $ field _ (Transfers-u64 _ h.gateway_ingest_sequence)
    $ field _ (Transfers-u8 _)
    $ read_guard _ status
    $ field _ (Transfers-i64 _ h.committed_cursor_msc)
    $ field _ (Transfers-hash _ h.committed_boundary_digest)
    $ field _ (Transfers-i64 _ h.next_from_msc)
    $ field _ (Transfers-u32 _ h.next_requested_count)
    $ last _ (Transfers-u32 _ h.retry_after_ms)

pub Transfers-error :
    (v : ErrorV1)
    → ErrorInRange v
    → v.related_message_type ≤ message_error
    → Transfers (encode_error v) decode_error v
unfolding encode_error decode_error
Transfers-error v h known = written_guard _ _ λ code. written_guard _ _ λ retryable.
    field _ (Transfers-u16 _ h.code)
    $ read_guard _ code
    $ field _ (Transfers-u8 _)
    $ read_guard _ retryable
    $ field _ (Transfers-u16 _ h.related_message_type)
    $ read_guard _ (rw (le→ltb _ _ known))
    $ field _ (Transfers-u64 _ h.related_batch_sequence)
    $ last _ (Transfers-string _)
