-- ===== src/Wal/Tests.antt =====
-- Concrete entries and stores, and the theorems on the log at them.
use utaki_tick_data_platform.Common.{
  ◌+◌, ◌<◌, List, [], ◌∷◌, ◌++◌, Bytes, pos, ◌≡◌, ◌≢◌, refl, ap, arith, ok, err, true, false, not,
  ◌==◌, All, All-append, IsByte, All-le_bytes, le_bytes, u64_of_i64, length, take, none, some,
  map_err, >>=_of_ok,
}
use utaki_tick_data_platform.Golib.Crc32.{checksum}
use utaki_tick_data_platform.Golib.Sha256
use utaki_tick_data_platform.Protocol.Hashes.{gateway_batch_sha256, wal_entry_hash}
use utaki_tick_data_platform.Protocol.Tests.{
  sample_batch, sample_wire, are_bytes, All-IsByte, decode_sample,
}
use utaki_tick_data_platform.Wal.{WalEntry, WalError, WalHeader, entry_fixed_bytes, commit_marker}
use utaki_tick_data_platform.Wal.Entry.{
  new_entry, entry_body, entry_bytes, parse_entry, decode_batch_frame, as_batch,
}
use utaki_tick_data_platform.Wal.EntryBytes.{IsEntry}
use utaki_tick_data_platform.Wal.ParseEntry.{parse_entry-entry_bytes}
use utaki_tick_data_platform.Wal.CanonicalEntry.{entry_bytes-parse_entry}
use utaki_tick_data_platform.Wal.Chain.{
  entries_bytes, entry_size, IsChain, end_offset, end_sequence, end_hash,
}
use utaki_tick_data_platform.Wal.Growth.{IsLog, IsInput, IsEntry-new_entry}
use utaki_tick_data_platform.Wal.Header.{header_bytes}
use utaki_tick_data_platform.Wal.Recovered.{parse_entries-cut_log}
use utaki_tick_data_platform.Wal.Segment.{follows, parse_entries}
use utaki_tick_data_platform.Wal.Store.{Store, AppendIo, append}
use utaki_tick_data_platform.Wal.Termination.{parse_entries-ends}
use utaki_tick_data_platform.Wal.Durable.{append-cut, appended}

abbrev zero_hash : Bytes
zero_hash =
    0 ∷ 0 ∷ 0 ∷ 0 ∷ 0 ∷ 0 ∷ 0 ∷ 0 ∷ 0 ∷ 0 ∷ 0 ∷ 0 ∷ 0 ∷ 0 ∷ 0 ∷ 0 ∷ 0 ∷ 0 ∷ 0 ∷ 0 ∷ 0 ∷ 0 ∷ 0 ∷ 0
    ∷ 0 ∷ 0 ∷ 0 ∷ 0 ∷ 0 ∷ 0 ∷ 0 ∷ 0 ∷ []

abbrev gateway : Bytes
gateway = b'g' ∷ b'w' ∷ []

abbrev front : Bytes
front = header_bytes gateway 1 (pos 1_700_000_000)

abbrev header : WalHeader
header = record { length = 32; start_sequence = 1; gateway_id = gateway }

length-front : length front ≡ 32
unfolding header_bytes le_bytes
length-front = refl

decoded : decode_batch_frame sample_wire ≡ ok sample_batch
unfolding decode_batch_frame as_batch
decoded = >>=_of_ok as_batch (ap (map_err WalError.protocol) decode_sample)

input : IsInput sample_wire (pos 1_700_000_002) 55
input = record { is_batch = (sample_batch, decoded); wall = omega arith; monotonic = omega arith }

-- The first entry of a log, behind its header.
abbrev first_entry : WalEntry
first_entry = new_entry 32 1 zero_hash (pos 1_700_000_002) 55 sample_wire

first_entry-IsEntry : IsEntry first_entry
first_entry-IsEntry =
    IsEntry-new_entry 32 1 zero_hash sample_wire (pos 1_700_000_002) 55 input (omega arith) refl

abbrev one_entry : List WalEntry
one_entry = first_entry ∷ []

abbrev store : Store
store = record {
  gateway_id = gateway;
  file = some (front ++ entries_bytes one_entry);
  entries = one_entry;
  last = first_entry.entry_hash;
  next = 2;
  start = 1;
  active_at = 0;
  sealed_bytes = 0;
  file_bytes = length (front ++ entries_bytes one_entry);
  poisoned = false;
  pruned_through = 0;
}

one_entry-IsChain : IsChain 32 1 none one_entry
unfolding new_entry follows
one_entry-IsChain = (first_entry-IsEntry, refl, refl, refl, tt)

store-IsLog : IsLog front header one_entry store
unfolding new_entry end_sequence end_hash wal_entry_hash
store-IsLog = record {
  content = refl;
  header_length = length-front;
  chain = one_entry-IsChain;
  next = refl;
  in_range = omega arith;
  linked = refl;
  last = Sha256.length-sum256 _;
}

abbrev torn : AppendIo
torn = record { write = some 100; sync = true; stat = true }

abbrev working : AppendIo
working = record { write = none; sync = true; stat = true }

-- The write of the second entry stops after 100 bytes.
append-cut_example :
    let result = append torn sample_wire (pos 1_700_000_002) 55 store in
    (result.0 ≡ err WalError.unavailable)
    × (result.1.poisoned ≡ true)
    × ((content : Bytes) × (result.1.file ≡ some content)
        × (parse_entries content header none true
            ≡ ok (one_entry, end_offset 32 one_entry, not (100 == 0))))
append-cut_example =
    append-cut front header one_entry store sample_wire (pos 1_700_000_002) 55 store-IsLog input
      refl torn 100 refl (omega arith)

abbrev second_entry : WalEntry
second_entry =
    appended front header one_entry store sample_wire (pos 1_700_000_002) 55 store-IsLog input refl

within_entry : 3 < entry_size first_entry
within_entry = omega arith

All-hash : All IsByte first_entry.batch_hash × All IsByte first_entry.entry_hash
unfolding new_entry gateway_batch_sha256 wal_entry_hash
All-hash = (Sha256.All-sum256 _, Sha256.All-sum256 _)

-- The zero hash and the frame.
All-parts : All IsByte first_entry.previous_entry_hash × All IsByte first_entry.frame
unfolding new_entry
All-parts = (All-IsByte zero_hash refl, are_bytes)

also : (xs ys : Bytes) → All IsByte xs → All IsByte ys → All IsByte (xs ++ ys)
also xs ys hx hy = All-append IsByte xs ys hx hy

All-entry_bytes :
    (e : WalEntry)
    → All IsByte e.previous_entry_hash
    → All IsByte e.frame
    → All IsByte e.batch_hash
    → All IsByte e.entry_hash
    → All IsByte (entry_bytes e)
unfolding entry_bytes entry_body
All-entry_bytes e previous frame batch_hash entry_hash =
    also _ _
      (also _ _ (All-le_bytes 4 (entry_fixed_bytes + length e.frame)) (
        also _ _ (All-le_bytes 2 1) (
          also _ _ (All-le_bytes 2 0) (
            also _ _ (All-le_bytes 8 e.sequence) (
              also _ _ (All-le_bytes 8 (u64_of_i64 e.receive_wall_s)) (
                also _ _ (All-le_bytes 8 e.receive_monotonic_us) (
                  also _ _ previous (
                    also _ _ (All-le_bytes 4 (length e.frame)) (
                      also _ _ frame (
                        also _ _ batch_hash
                          (also _ _ entry_hash (All-le_bytes 4 commit_marker))))))))))))
      (All-le_bytes 4 (checksum (entry_body e)))

entry_are_bytes : All IsByte (entry_bytes first_entry)
entry_are_bytes = All-entry_bytes first_entry All-parts.0 All-parts.1 All-hash.0 All-hash.1

-- A second copy of the entry whose writing stopped within its length.
parse_entries-cut_log_example :
    parse_entries
      (front ++ (entries_bytes one_entry ++ take 3 (entry_bytes first_entry)))
      header
      none
      true
    ≡ ok (one_entry, end_offset 32 one_entry, not (3 == 0))
parse_entries-cut_log_example =
    parse_entries-cut_log first_entry first_entry-IsEntry front header none one_entry 3 length-front
      one_entry-IsChain within_entry

parse_entry-entry_bytes_example :
    parse_entry (entry_bytes first_entry) ≡ ok (record first_entry { offset = 0 })
parse_entry-entry_bytes_example = parse_entry-entry_bytes first_entry first_entry-IsEntry

abbrev read_entry : WalEntry
read_entry = record first_entry { offset = 0 }

entry_bytes-parse_entry_example :
    IsEntry read_entry × (entry_bytes read_entry ≡ entry_bytes first_entry)
entry_bytes-parse_entry_example =
    entry_bytes-parse_entry (entry_bytes first_entry) read_entry entry_are_bytes
      (parse_entry-entry_bytes first_entry first_entry-IsEntry)

-- Three bytes behind the header.
parse_entries-ends_example :
    parse_entries (front ++ (1 ∷ 2 ∷ 3 ∷ [])) header none true ≢ err WalError.out_of_fuel
parse_entries-ends_example = parse_entries-ends (front ++ (1 ∷ 2 ∷ 3 ∷ [])) header none true
