-- ===== src/Wal/Segment.antt =====
-- internal/wal/segment.go: the loop over the entries of a segment, the trailer and the verification
-- of a sealed segment.
use utaki_tick_data_platform.Common.{
  ℕ, zero, suc, ◌+◌, ◌-◌, ◌%◌, ◌^◌, ◌++◌, List, [], ◌∷◌, ok, err, Bool, true, false, not, ◌&&◌,
  ◌||◌, Result, require, ◌>>=◌, ◌>>◌, Bytes, le_bytes, le_value, bytes_eq, length, slice, drop,
  take, last_or, ltb, leb, ◌==◌, if◌then◌else◌, Option, none, some,
}
use utaki_tick_data_platform.Golib.Crc32
use utaki_tick_data_platform.Golib.Sha256
use utaki_tick_data_platform.Protocol.{max_frame_bytes}
use utaki_tick_data_platform.Wal.{
  WalEntry, WalError, WalHeader, VerifiedSegment, entry_fixed_bytes, trailer_magic, trailer_version,
  trailer_bytes,
}
use utaki_tick_data_platform.Wal.Entry.{parse_entry}
use utaki_tick_data_platform.Wal.Header.{parse_header}

-- What one round of parseEntries makes of the bytes that remain.
pub data Round : Type 0 where
  partial_tail : Round
  parsed : WalEntry → ℕ → Round
  failed : WalError → Round

unfoldable pub is_partial_trailer : Bytes → Bool
is_partial_trailer remaining =
    if ltb (length remaining) 4
    then bytes_eq remaining (take (length remaining) trailer_magic)
    else bytes_eq (take 4 remaining) trailer_magic && ltb (length remaining) trailer_bytes

-- `previous` is none while no entry hash is known.
unfoldable pub follows : Option Bytes → WalEntry → Bool
follows none entry = true
follows (some previous) entry = bytes_eq entry.previous_entry_hash previous

unfoldable pub accept_entry : ℕ → ℕ → Option Bytes → ℕ → Result WalError WalEntry → Round
accept_entry offset expected_sequence previous entry_length (err e) = failed WalError.integrity
accept_entry offset expected_sequence previous entry_length (ok entry) =
    if not (entry.sequence == expected_sequence)
    then failed WalError.integrity
    else if not (follows previous entry)
    then failed WalError.integrity
    else parsed (record entry { offset = offset }) entry_length

unfoldable pub next_entry : Bool → Bytes → ℕ → ℕ → Option Bytes → Round
next_entry allow_partial remaining offset expected_sequence previous =
    let sealed = bytes_eq (take 4 remaining) trailer_magic in
    let entry_length = le_value (take 4 remaining) in
    let cut = if allow_partial then partial_tail else failed WalError.integrity in
    if allow_partial && (length remaining == trailer_bytes && sealed)
    then failed WalError.sealed_trailer_at_entry_boundary
    else if allow_partial && is_partial_trailer remaining
    then partial_tail
    else if leb 4 (length remaining) && sealed
    then failed WalError.integrity
    else if ltb (length remaining) 4
    then cut
    else if ltb entry_length entry_fixed_bytes
        || ltb (entry_fixed_bytes + max_frame_bytes) entry_length
    then failed WalError.integrity
    else if ltb (length remaining) entry_length
    then cut
    else accept_entry offset expected_sequence previous entry_length
        (parse_entry (take entry_length remaining))

abbrev pub Parsed : Type 0
Parsed = List WalEntry × ℕ × Bool

-- `data[offset:]` is what remains; the sequence number wraps as a uint64.
unfoldable pub parse_loop : ℕ → Bool → Bytes → ℕ → ℕ → Option Bytes → Result WalError Parsed
parse_loop fuel allow_partial [] offset expected previous = ok ([], offset, false)
parse_loop zero allow_partial (b ∷ bs) offset expected previous = err WalError.out_of_fuel
parse_loop (suc fuel) allow_partial (b ∷ bs) offset expected previous =
    elim (next_entry allow_partial (b ∷ bs) offset expected previous) [
      | failed e ↦ err e
      | partial_tail ↦ ok ([], offset, true)
      | parsed entry n ↦
          parse_loop fuel allow_partial (drop n (b ∷ bs)) (offset + n) ((expected + 1) % 2 ^ 64)
            (some entry.entry_hash)
          >>= λ rest. ok (entry ∷ rest.0, rest.1, rest.2)
    ]

-- A round takes the bytes of an entry, 140 at least, so that the length of the data is fuel enough.
unfoldable pub parse_entries : Bytes → WalHeader → Option Bytes → Bool → Result WalError Parsed
parse_entries data' header expected_previous allow_partial =
    parse_loop (length data') allow_partial (drop header.length data') header.length
      header.start_sequence expected_previous

unfoldable pub trailer_body : ℕ → ℕ → ℕ → Bytes → Bytes → Bytes
trailer_body first_sequence last_sequence entry_count chain_root file_hash =
    trailer_magic
    ++ (le_bytes 2 trailer_version
        ++ (le_bytes 2 trailer_bytes
            ++ (le_bytes 8 first_sequence
                ++ (le_bytes 8 last_sequence
                    ++ (le_bytes 4 entry_count ++ (chain_root ++ file_hash))))))

unfoldable pub encode_trailer : ℕ → ℕ → ℕ → Bytes → Bytes → Bytes
encode_trailer first_sequence last_sequence entry_count chain_root file_hash =
    let body = trailer_body first_sequence last_sequence entry_count chain_root file_hash in
    body ++ le_bytes 4 (Crc32.checksum body)

-- What the trailer of a sealed segment says against its header and its entries.
unfoldable pub check_trailer :
    Bytes → Bytes → Bytes → WalHeader → WalEntry → List WalEntry → Result WalError VerifiedSegment
check_trailer path data' trailer header first rest =
    let final = last_or first rest in
    let body = take (length data' - trailer_bytes) data' in
    let first_sequence = le_value (slice 8 16 trailer) in
    let last_sequence = le_value (slice 16 24 trailer) in
    let entry_count = le_value (slice 24 28 trailer) in
    let chain_root = slice 28 60 trailer in
    let trailer_file_hash = slice 60 92 trailer in
    do
      require (first_sequence == header.start_sequence && first_sequence == first.sequence)
          WalError.integrity
      require (not (ltb last_sequence first_sequence)) WalError.integrity
      require (last_sequence == final.sequence) WalError.integrity
      require
          ((last_sequence - first_sequence + 1) % 2 ^ 64 == entry_count
            && entry_count == length (first ∷ rest))
          WalError.integrity
      require (bytes_eq chain_root final.entry_hash) WalError.integrity
      require (bytes_eq trailer_file_hash (Sha256.sum256 body)) WalError.integrity
      ok (record {
        path = path;
        gateway_instance_id = header.gateway_id;
        start_sequence = first_sequence;
        last_sequence = last_sequence;
        entry_count = entry_count;
        chain_start = first.previous_entry_hash;
        chain_root = chain_root;
        trailer_file_sha256 = trailer_file_hash;
        object_sha256 = Sha256.sum256 data';
        file_bytes = length data';
        entries = first ∷ rest;
      })

unfoldable pub check_entries :
    Bytes → Bytes → Bytes → WalHeader → Parsed → Result WalError VerifiedSegment
check_entries path data' trailer header ([], entries_end, partial) = err WalError.integrity
check_entries path data' trailer header (first ∷ rest, entries_end, partial) = do
  require (not (partial || not (entries_end == length data' - trailer_bytes))) WalError.integrity
  check_trailer path data' trailer header first rest

unfoldable pub verify_sealed_bytes : Bytes → Bytes → Result WalError VerifiedSegment
verify_sealed_bytes path data' =
    let trailer_offset = length data' - trailer_bytes in
    let trailer = drop trailer_offset data' in
    let body = take trailer_offset data' in
    do
      require (not (ltb (length data') (30 + trailer_bytes))) WalError.integrity
      require (bytes_eq (take 4 trailer) trailer_magic) WalError.integrity
      require
          (le_value (slice 4 6 trailer) == trailer_version
            && le_value (slice 6 8 trailer) == trailer_bytes)
          WalError.integrity
      require (le_value (slice 92 96 trailer) == Crc32.checksum (take 92 trailer))
          WalError.integrity
      header ← parse_header body []
      entries ← parse_entries body header none false
      check_entries path data' trailer header entries
