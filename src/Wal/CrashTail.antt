-- ===== src/Wal/CrashTail.antt =====
-- internal/wal/segment.go: an entry after the last whole one of an active log, whose writing was cut.
use utaki_tick_data_platform.Common.{
  ℕ, ◌<◌, ◌≤◌, ◌≡◌, ap, ◌∙◌, Bytes, arith, Option, true, false, le_value, length, length-take, take,
  take-take, ltb, bytes_eq, Bool-cases, inl, inr, ltb→le, ltb→lt,
}
use utaki_tick_data_platform.Wal.{WalEntry, trailer_magic}
use utaki_tick_data_platform.Wal.Entry.{entry_bytes}
use utaki_tick_data_platform.Wal.EntryBytes.{IsEntry, fields_of, length-entry_bytes}
use utaki_tick_data_platform.Wal.Chain.{entry_size, not_trailer}
use utaki_tick_data_platform.Wal.Segment.{partial_tail, is_partial_trailer, next_entry}

module _ (e : WalEntry) (h : IsEntry e) (k : ℕ) (cut : k < entry_size e) where
  abbrev tail : Bytes
  tail = take k (entry_bytes e)

  length-tail : length tail ≡ k
  length-tail = omega (arith, length-take k (entry_bytes e), length-entry_bytes e h)

  tail_word : 4 ≤ k → le_value (take 4 tail) ≡ entry_size e
  tail_word long =
      ap le_value (take-take 4 k (entry_bytes e) long)
      ∙ (fields_of e h).own_length
      ∙ length-entry_bytes e h

  -- An entry that is cut behind its length field.
  long_tail :
      (offset n : ℕ) (previous : Option Bytes)
      → 4 ≤ k
      → next_entry true tail offset n previous ≡ partial_tail
  unfolding next_entry is_partial_trailer
  long_tail offset n previous long =
      let word = tail_word long in
      let plain : bytes_eq (take 4 tail) trailer_magic ≡ false =
        not_trailer _ (omega (arith, word, (fields_of e h).at_most)) in
      ground (arith, word, plain, length-tail, (fields_of e h).at_most)

  -- A cut within the length field.
  short_tail :
      (offset n : ℕ) (previous : Option Bytes)
      → k < 4
      → next_entry true tail offset n previous ≡ partial_tail
  unfolding next_entry is_partial_trailer
  short_tail offset n previous short = ground (arith, length-tail)

  pub next_entry-cut_entry :
      (offset n : ℕ) (previous : Option Bytes)
      → next_entry true tail offset n previous ≡ partial_tail
  next_entry-cut_entry offset n previous = elim (Bool-cases (ltb k 4)) [
    | inl short ↦ short_tail offset n previous (ltb→lt k 4 short)
    | inr long ↦ long_tail offset n previous (ltb→le k 4 long)
  ]
