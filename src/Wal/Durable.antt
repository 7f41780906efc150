-- ===== src/Wal/Durable.antt =====
-- internal/wal/wal.go: what Append leaves in the file, and what is read back from it.
use utaki_tick_data_platform.Common.{
  ℕ, ◌+◌, ◌%◌, ◌^◌, ◌<◌, ◌≤◌, ◌≡◌, ap, ◌∙◌, ◌++◌, append_assoc, List, [], ◌∷◌, ok, err, true, false,
  not, Result, Bytes, ℤ, length, take, arith, ◌==◌, none, some, ltb, ◌||◌, if_false,
}
use utaki_tick_data_platform.Golib.Sha256
use utaki_tick_data_platform.Protocol.{min_frame_bytes, max_frame_bytes}
use utaki_tick_data_platform.Wal.{WalEntry, WalError, WalHeader, entry_fixed_bytes}
use utaki_tick_data_platform.Wal.Entry.{new_entry, entry_bytes}
use utaki_tick_data_platform.Wal.EntryBytes.{IsEntry, batch_frame_bounds}
use utaki_tick_data_platform.Wal.Chain.{entries_bytes, entry_size, end_offset}
use utaki_tick_data_platform.Wal.Recovered.{parse_entries-cut_log}
use utaki_tick_data_platform.Wal.Segment.{parse_entries}
use utaki_tick_data_platform.Wal.Store.{
  Store, AppendIo, append, append_batch, append_open, unavailable,
}
use utaki_tick_data_platform.Wal.Growth.{IsLog, IsInput, IsEntry-new_entry}

small :
    (n : ℕ)
    → min_frame_bytes ≤ n
    → n ≤ max_frame_bytes
    → (ltb n min_frame_bytes || ltb max_frame_bytes n) ≡ false
small n lo hi = ground arith

-- An open store that is not poisoned writes the frame of a batch.
append-eq-open :
    (io : AppendIo) (frame : Bytes) (wall : ℤ) (monotonic : ℕ) (bytes : Bytes) (s : Store)
    → IsInput frame wall monotonic
    → s.file ≡ some bytes
    → s.poisoned ≡ false
    → append io frame wall monotonic s ≡ append_open io frame wall monotonic bytes s
unfolding append append_batch append_open
append-eq-open io frame wall monotonic bytes s input content sound =
    let (least, most) = batch_frame_bounds frame input.is_batch.0 input.is_batch.1 in
    let checked : append io frame wall monotonic s ≡ append_batch io frame wall monotonic s =
      rw (input.is_batch.1, append) (if_false _ _ _ (small (length frame) least most)) in
    let opened : append_batch io frame wall monotonic s
        ≡ append_open io frame wall monotonic bytes s =
      rw (content, append_batch) (if_false _ _ _ sound) in
    checked ∙ opened

-- What append_open does when the write stops, and when every call succeeds.
append_open-cut :
    (io : AppendIo) (frame : Bytes) (wall : ℤ) (monotonic : ℕ) (bytes : Bytes) (s : Store) (k : ℕ)
    → io.write ≡ some k
    → append_open io frame wall monotonic bytes s
      ≡ unavailable s
          (bytes ++ take k (entry_bytes (new_entry 0 s.next s.last wall monotonic frame)))
unfolding append_open
append_open-cut io frame wall monotonic bytes s k cut = rw (cut, append_open)

-- The result of a whole append: the entry that is returned, and the entry that was written.
abbrev done : Bytes → WalEntry → Store → Result WalError WalEntry × Store
done written entry s = (
  ok entry,
  record s {
    file = some written;
    entries = s.entries ++ (entry ∷ []);
    last = entry.entry_hash;
    next = (s.next + 1) % 2 ^ 64;
    file_bytes = s.sealed_bytes + length written;
  },
)

module _ (front : Bytes) (header : WalHeader) (es : List WalEntry) (s : Store) (frame : Bytes)
    (wall : ℤ) (monotonic : ℕ) (log : IsLog front header es s)
    (input : IsInput frame wall monotonic) (sound : s.poisoned ≡ false) where
  abbrev made : WalEntry
  made = new_entry 0 s.next s.last wall monotonic frame

  made-IsEntry : IsEntry made
  made-IsEntry = IsEntry-new_entry 0 s.next s.last frame wall monotonic input log.in_range log.last

  made_short : (k : ℕ) → k < entry_fixed_bytes + length frame → k < entry_size made
  unfolding new_entry
  made_short k short = short

  abbrev bytes : Bytes
  bytes = front ++ entries_bytes es

  -- On an open store that holds a log and is not poisoned, and for the frame of a batch: when the
  -- write of its entry stops before the last byte, Append returns ErrUnavailable, the store is
  -- poisoned, and the entries read back from the file are those from before the call, with the same
  -- end; a tail is reported exactly when a byte was written.
  pub append-cut :
      (io : AppendIo) (k : ℕ)
      → io.write ≡ some k
      → k < entry_fixed_bytes + length frame
      → let result = append io frame wall monotonic s in
        (result.0 ≡ err WalError.unavailable)
        × (result.1.poisoned ≡ true)
        × ((content : Bytes) × (result.1.file ≡ some content)
            × (parse_entries content header none true
                ≡ ok (es, end_offset header.length es, not (k == 0))))
  append-cut io k cut short =
      let run =
        append-eq-open io frame wall monotonic bytes s input log.content sound
        ∙ append_open-cut io frame wall monotonic bytes s k cut in
      let content = bytes ++ take k (entry_bytes made) in
      (
        ap (λ (r : Result WalError WalEntry × Store). r.0) run,
        ap (λ (r : Result WalError WalEntry × Store). r.1.poisoned) run,
        (
          content,
          ap (λ (r : Result WalError WalEntry × Store). r.1.file) run,
          ap (λ (c : Bytes). parse_entries c header none true)
                (append_assoc front (entries_bytes es) (take k (entry_bytes made)))
              ∙ parse_entries-cut_log made made-IsEntry front header none es k log.header_length
                  log.chain (made_short k short),
        ),
      )

  -- The entry that Append returns, at its offset.
  abbrev pub appended : WalEntry
  appended = record made { offset = end_offset header.length es }

  abbrev pub longer : List WalEntry
  longer = es ++ (appended ∷ [])

  abbrev written : Bytes
  written = bytes ++ entry_bytes made
