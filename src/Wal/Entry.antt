-- ===== src/Wal/Entry.antt =====
-- The bytes of an entry, from Append of internal/wal/wal.go, and parseEntry.
use utaki_tick_data_platform.Common.{
  ℕ, ◌+◌, ◌-◌, ◌++◌, ok, err, not, ◌&&◌, ◌||◌, Result, require, ◌>>=◌, ◌>>◌, map_err, Bytes, ℤ,
  le_bytes, le_value, bytes_eq, length, slice, drop, take, ltb, ◌==◌, u64_of_i64, i64_of_u64,
}
use utaki_tick_data_platform.Golib.Crc32
use utaki_tick_data_platform.Protocol.{
  Message, batch, BatchFrameV1, min_frame_bytes, max_frame_bytes,
}
use utaki_tick_data_platform.Protocol.Decode.{decode}
use utaki_tick_data_platform.Protocol.Hashes.{gateway_batch_sha256, wal_entry_hash}
use utaki_tick_data_platform.Wal.{
  WalEntry, WalError, entry_fixed_bytes, entry_version, commit_marker,
}

-- The entry that Append makes for a frame, at an offset of the file.
unfoldable pub new_entry : ℕ → ℕ → Bytes → ℤ → ℕ → Bytes → WalEntry
new_entry offset sequence previous receive_wall_s receive_monotonic_us frame =
    let batch_hash = gateway_batch_sha256 frame in
    record {
      offset = offset;
      sequence = sequence;
      receive_wall_s = receive_wall_s;
      receive_monotonic_us = receive_monotonic_us;
      previous_entry_hash = previous;
      frame = frame;
      batch_hash = batch_hash;
      entry_hash =
          wal_entry_hash sequence previous receive_wall_s receive_monotonic_us batch_hash frame;
    }

-- The bytes of an entry without its checksum, in the order of their offsets.
unfoldable pub entry_body : WalEntry → Bytes
entry_body e =
    le_bytes 4 (entry_fixed_bytes + length e.frame)
    ++ (le_bytes 2 entry_version
        ++ (le_bytes 2 0
            ++ (le_bytes 8 e.sequence
                ++ (le_bytes 8 (u64_of_i64 e.receive_wall_s)
                    ++ (le_bytes 8 e.receive_monotonic_us
                        ++ (e.previous_entry_hash
                            ++ (le_bytes 4 (length e.frame)
                                ++ (e.frame
                                    ++ (e.batch_hash
                                        ++ (e.entry_hash ++ le_bytes 4 commit_marker))))))))))

unfoldable pub entry_bytes : WalEntry → Bytes
entry_bytes e = entry_body e ++ le_bytes 4 (Crc32.checksum (entry_body e))

-- The type assertion message.(BatchFrameV1).
unfoldable pub as_batch : Message → Result WalError BatchFrameV1
as_batch (batch v) = ok v
as_batch _ = err WalError.plain

-- DecodeFrame, DecodeMessage and the type assertion.
unfoldable pub decode_batch_frame : Bytes → Result WalError BatchFrameV1
decode_batch_frame frame = do message ← map_err WalError.protocol (decode frame); as_batch message

-- Every error of parseEntry is wrapped by its caller into one error.
unfoldable pub parse_entry : Bytes → Result WalError WalEntry
parse_entry raw =
    let frame_length = le_value (slice 64 68 raw) in
    let frame_end = 68 + frame_length in
    let frame = slice 68 frame_end raw in
    let previous = slice 32 64 raw in
    let batch_hash = slice frame_end (frame_end + 32) raw in
    let entry_hash = slice (frame_end + 32) (frame_end + 64) raw in
    let want_crc = le_value (drop (length raw - 4) raw) in
    let got_crc = Crc32.checksum (take (length raw - 4) raw) in
    let sequence = le_value (slice 8 16 raw) in
    let receive_wall_s = i64_of_u64 (le_value (slice 16 24 raw)) in
    let receive_monotonic_us = le_value (slice 24 32 raw) in
    do
      require (not (ltb (length raw) entry_fixed_bytes)) WalError.plain
      require (le_value (slice 0 4 raw) == length raw) WalError.plain
      require (le_value (slice 4 6 raw) == entry_version && le_value (slice 6 8 raw) == 0)
          WalError.plain
      require
          (not (
            ltb frame_length min_frame_bytes
            || (ltb max_frame_bytes frame_length
                || not (length raw == entry_fixed_bytes + frame_length))))
          WalError.plain
      _ ← decode_batch_frame frame
      require (le_value (slice (frame_end + 64) (frame_end + 68) raw) == commit_marker)
          WalError.plain
      require (want_crc == got_crc) WalError.plain
      require (bytes_eq batch_hash (gateway_batch_sha256 frame)) WalError.plain
      require
          (bytes_eq entry_hash
            (wal_entry_hash sequence previous receive_wall_s receive_monotonic_us batch_hash frame))
          WalError.plain
      ok (record {
        offset = 0;
        sequence = sequence;
        receive_wall_s = receive_wall_s;
        receive_monotonic_us = receive_monotonic_us;
        previous_entry_hash = previous;
        frame = frame;
        batch_hash = batch_hash;
        entry_hash = entry_hash;
      })
