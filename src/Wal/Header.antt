-- ===== src/Wal/Header.antt =====
-- The header of a segment: writeHeader of internal/wal/wal.go, parseHeader of segment.go and
-- matchesIncompleteHeader of store_segments.go.
use utaki_tick_data_platform.Common.{
  ℕ, ◌+◌, ◌++◌, [], ◌∷◌, ok, Bool, true, false, not, ◌&&◌, ◌||◌, Result, require, ◌>>◌, Bytes, ℤ,
  le_bytes, le_value, bytes_eq, length, slice, take, ltb, leb, ◌==◌, u64_of_i64,
}
use utaki_tick_data_platform.Golib.Utf8
use utaki_tick_data_platform.Wal.{WalHeader, WalError, file_magic, wal_schema_version}

unfoldable pub header_bytes : Bytes → ℕ → ℤ → Bytes
header_bytes gateway_id start created_wall_s =
    file_magic
    ++ (le_bytes 2 wal_schema_version
        ++ (le_bytes 2 (30 + length gateway_id)
            ++ (le_bytes 8 start
                ++ (le_bytes 8 (u64_of_i64 created_wall_s)
                    ++ (le_bytes 4 0 ++ (le_bytes 2 (length gateway_id) ++ gateway_id))))))

-- An empty expected id accepts every id.
unfoldable pub parse_header : Bytes → Bytes → Result WalError WalHeader
parse_header data' expected_gateway_id =
    let header_length = le_value (slice 6 8 data') in
    let id_length = le_value (slice 28 30 data') in
    let gateway_id = slice 30 header_length data' in
    let start_sequence = le_value (slice 8 16 data') in
    do
      require (not (ltb (length data') 30 || not (bytes_eq (take 4 data') file_magic)))
          WalError.integrity
      require (le_value (slice 4 6 data') == wal_schema_version) WalError.integrity
      require
          (header_length == 30 + id_length
            && not (ltb (length data') header_length)
            && not (id_length == 0)
            && leb id_length 255)
          WalError.integrity
      require (le_value (slice 24 28 data') == 0) WalError.integrity
      require (Utf8.valid gateway_id) WalError.integrity
      require (length expected_gateway_id == 0 || bytes_eq gateway_id expected_gateway_id)
          WalError.integrity
      require (not (start_sequence == 0)) WalError.integrity
      ok (record {
        length = header_length;
        start_sequence = start_sequence;
        gateway_id = gateway_id;
      })

-- Every byte of an incomplete header against the expected one, but for the time of creation.
unfoldable pub matches_from : ℕ → Bytes → Bytes → Bool
matches_from index [] expected = true
matches_from index (b ∷ bs) [] = false
matches_from index (b ∷ bs) (x ∷ xs) =
    (leb 16 index && ltb index 24 || b == x) && matches_from (index + 1) bs xs

unfoldable pub matches_incomplete_header : Bytes → Bytes → ℕ → Bool
unfolding matches_from
matches_incomplete_header data' gateway_id start_sequence = matches_from 0 data' (
    file_magic
    ++ (le_bytes 2 wal_schema_version
        ++ (le_bytes 2 (30 + length gateway_id)
            ++ (le_bytes 8 start_sequence
                ++ (le_bytes 8 0
                    ++ (le_bytes 4 0 ++ (le_bytes 2 (length gateway_id) ++ gateway_id)))))))
