-- ===== src/Protocol/Tests.antt =====
-- Concrete messages, and the theorems on the protocol at them.
use utaki_tick_data_platform.Common.{
  [], ◌∷◌, Bytes, pos, ascii, ◌≡◌, refl, arith, u64_of_i64, u32_of_i32, le_bytes, ◌>>=◌, require,
  take, drop, ltb, ltb→lt, ◌&&◌, &&_true, Bool, true, le_value, bytes_eq, ltℤ, ◌==ℤ◌, ok, err, All,
  IsByte,
}
use utaki_tick_data_platform.Protocol.{
  batch, BatchFrameV1, RawMqlTickV1, ErrorCode, Frame, source_schema_mt5, message_type,
}
use utaki_tick_data_platform.Golib.Crc32.{checksum}
use utaki_tick_data_platform.Golib.Utf8.{valid}
use utaki_tick_data_platform.Protocol.Buffer
use utaki_tick_data_platform.Protocol.Writer
use utaki_tick_data_platform.Protocol.Framing.{frame_body, encode_frame, decode_frame}
use utaki_tick_data_platform.Protocol.Encode.{
  encode_message, encode_payload, encode_batch, encode_records, encode_record, counts_match,
  failure_is_empty,
}
use utaki_tick_data_platform.Protocol.Decode.{decode}
use utaki_tick_data_platform.Protocol.Ranges.{InRange, Acceptable}
use utaki_tick_data_platform.Protocol.FrameBytes.{decode_frame-take}
use utaki_tick_data_platform.Protocol.Laws.{decode-encode_message}
use utaki_tick_data_platform.Protocol.Canonicity.{encode_message-decode}

abbrev pub sample_tick : RawMqlTickV1
sample_tick = record {
  time = pos 1_700_000_000;
  bid_bits = 4_607_182_418_800_017_408;
  ask_bits = 4_607_182_418_800_017_409;
  last_bits = 0;
  volume = 7;
  time_msc = pos 1_700_000_000_123;
  flags = 6;
  volume_real_bits = 0;
  capture_sequence = 41;
}

abbrev pub sample_batch : BatchFrameV1
sample_batch = record {
  session_lease_id = b'l' ∷ [];
  producer_session_id = b's' ∷ [];
  batch_sequence = 9;
  requested_from_msc = pos 1_700_000_000_000;
  requested_count = 128;
  fetch_wall_start_s = pos 1_700_000_001;
  fetch_wall_end_s = pos 1_700_000_001;
  fetch_monotonic_start_us = 10;
  fetch_monotonic_end_us = 20;
  returned_count = pos 1;
  copy_ticks_error = pos 0;
  source_status_flags = 0;
  source_schema_id = source_schema_mt5;
  records = sample_tick ∷ [];
}

-- The frame of the batch.
abbrev pub sample_wire : Bytes
sample_wire =
    84 ∷ 73 ∷ 67 ∷ 75 ∷ 1 ∷ 0 ∷ 3 ∷ 0 ∷ 178 ∷ 0 ∷ 0 ∷ 0 ∷ 16 ∷ 0 ∷ 0 ∷ 0 ∷ 1 ∷ 0 ∷ 108 ∷ 1 ∷ 0 ∷ 115
    ∷ 9 ∷ 0 ∷ 0 ∷ 0 ∷ 0 ∷ 0 ∷ 0 ∷ 0 ∷ 0 ∷ 104 ∷ 229 ∷ 207 ∷ 139 ∷ 1 ∷ 0 ∷ 0 ∷ 128 ∷ 0 ∷ 0 ∷ 0 ∷ 1
    ∷ 241 ∷ 83 ∷ 101 ∷ 0 ∷ 0 ∷ 0 ∷ 0 ∷ 1 ∷ 241 ∷ 83 ∷ 101 ∷ 0 ∷ 0 ∷ 0 ∷ 0 ∷ 10 ∷ 0 ∷ 0 ∷ 0 ∷ 0 ∷ 0
    ∷ 0 ∷ 0 ∷ 20 ∷ 0 ∷ 0 ∷ 0 ∷ 0 ∷ 0 ∷ 0 ∷ 0 ∷ 1 ∷ 0 ∷ 0 ∷ 0 ∷ 0 ∷ 0 ∷ 0 ∷ 0 ∷ 0 ∷ 0 ∷ 0 ∷ 0 ∷ 14
    ∷ 0 ∷ 109 ∷ 116 ∷ 53 ∷ 46 ∷ 109 ∷ 113 ∷ 108 ∷ 116 ∷ 105 ∷ 99 ∷ 107 ∷ 46 ∷ 118 ∷ 49 ∷ 1 ∷ 0 ∷ 0
    ∷ 0 ∷ 0 ∷ 241 ∷ 83 ∷ 101 ∷ 0 ∷ 0 ∷ 0 ∷ 0 ∷ 0 ∷ 0 ∷ 0 ∷ 0 ∷ 0 ∷ 0 ∷ 240 ∷ 63 ∷ 1 ∷ 0 ∷ 0 ∷ 0 ∷ 0
    ∷ 0 ∷ 240 ∷ 63 ∷ 0 ∷ 0 ∷ 0 ∷ 0 ∷ 0 ∷ 0 ∷ 0 ∷ 0 ∷ 7 ∷ 0 ∷ 0 ∷ 0 ∷ 0 ∷ 0 ∷ 0 ∷ 0 ∷ 123 ∷ 104 ∷ 229
    ∷ 207 ∷ 139 ∷ 1 ∷ 0 ∷ 0 ∷ 6 ∷ 0 ∷ 0 ∷ 0 ∷ 0 ∷ 0 ∷ 0 ∷ 0 ∷ 0 ∷ 0 ∷ 0 ∷ 0 ∷ 41 ∷ 0 ∷ 0 ∷ 0 ∷ 0 ∷ 0
    ∷ 0 ∷ 0 ∷ 86 ∷ 191 ∷ 85 ∷ 86 ∷ []

pub encode_message_sample : encode_message (batch sample_batch) ≡ ok sample_wire
unfolding encode_message encode_payload encode_batch encode_records encode_record counts_match
    failure_is_empty message_type Buffer.◌>>=◌ Buffer.pure Buffer.guard Writer.write Writer.u8
    Writer.u16 Writer.u32 Writer.u64 Writer.i32 Writer.i64 Writer.hash Writer.string frame_body
    encode_frame checksum valid le_bytes u64_of_i64 u32_of_i32 source_schema_mt5 ascii ◌>>=◌ require
    ltℤ ◌==ℤ◌
encode_message_sample = refl

pub sample_batch-InRange : InRange (batch sample_batch)
sample_batch-InRange = record {
  batch_sequence = omega arith;
  requested_from_msc = omega arith;
  requested_count = omega arith;
  fetch_wall_start_s = omega arith;
  fetch_wall_end_s = omega arith;
  fetch_monotonic_start_us = omega arith;
  fetch_monotonic_end_us = omega arith;
  returned_count = omega arith;
  copy_ticks_error = omega arith;
  source_status_flags = omega arith;
  records = (
    record {
      time = omega arith;
      bid_bits = omega arith;
      ask_bits = omega arith;
      last_bits = omega arith;
      volume = omega arith;
      time_msc = omega arith;
      flags = omega arith;
      volume_real_bits = omega arith;
      capture_sequence = omega arith;
    },
    tt,
  );
}

pub decode_sample : decode sample_wire ≡ ok (batch sample_batch)
decode_sample =
    decode-encode_message (batch sample_batch) sample_wire sample_batch-InRange refl
      encode_message_sample

decode-encode_message_example : decode sample_wire ≡ ok (batch sample_batch)
decode-encode_message_example =
    decode-encode_message (batch sample_batch) sample_wire sample_batch-InRange refl
      encode_message_sample

abbrev pub are_below : Bytes → Bool
are_below [] = true
are_below (b ∷ bs) = ltb b 256 && are_below bs

pub All-IsByte : (bs : Bytes) → are_below bs ≡ true → All IsByte bs
All-IsByte [] h = tt
All-IsByte (b ∷ bs) h =
    let (first, rest) = &&_true (ltb b 256) (are_below bs) h in
    (ltb→lt b 256 first, All-IsByte bs rest)

pub are_bytes : All IsByte sample_wire
are_bytes = All-IsByte sample_wire refl

encode_message-decode_example :
    InRange (batch sample_batch)
    × Acceptable (batch sample_batch)
    × (encode_message (batch sample_batch) ≡ ok sample_wire)
encode_message-decode_example =
    encode_message-decode sample_wire (batch sample_batch) are_bytes decode_sample

abbrev sample_frame : Frame
sample_frame = record { version = 1; message_type = 3; payload = take 158 (drop 16 sample_wire) }

decode_frame_sample : decode_frame sample_wire ≡ ok sample_frame
unfolding decode_frame checksum le_value bytes_eq ◌>>=◌ require
decode_frame_sample = refl

-- The first hundred bytes of the frame.
decode_frame-take_example : decode_frame (take 100 sample_wire) ≡ err ErrorCode.truncated_frame
decode_frame-take_example =
    decode_frame-take sample_wire sample_frame 100 decode_frame_sample (omega arith)
