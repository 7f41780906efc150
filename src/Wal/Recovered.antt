-- ===== src/Wal/Recovered.antt =====
-- What parseEntries reads back from an active log whose last write was cut.
use utaki_tick_data_platform.Common.{
  ℕ, zero, suc, ◌+◌, ◌-◌, ◌<◌, ◌≤◌, ◌≡◌, refl, ap, ◌∙◌, ok, Bytes, arith, ◌++◌, append-nil, List,
  [], ◌∷◌, Option, Bool, true, not, ◌==◌, ◌>>=◌, length, length-append, length-take, take,
  drop-append, Result,
}
use utaki_tick_data_platform.Wal.{WalEntry, WalError, WalHeader}
use utaki_tick_data_platform.Wal.Entry.{entry_bytes}
use utaki_tick_data_platform.Wal.EntryBytes.{IsEntry, length-entry_bytes}
use utaki_tick_data_platform.Wal.Chain.{
  entries_bytes, entry_size, IsChain, end_offset, end_sequence, end_hash, prepend,
  parse_loop-entries_bytes,
}
use utaki_tick_data_platform.Wal.CrashTail.{next_entry-cut_entry}
use utaki_tick_data_platform.Wal.Segment.{parse_loop, parse_entries, next_entry}

-- A chain has no more entries than bytes.
length-chain :
    (es : List WalEntry) (offset n : ℕ) (previous : Option Bytes)
    → IsChain offset n previous es
    → length es ≤ length (entries_bytes es)
unfolding entries_bytes
length-chain [] offset n previous h = omega arith
length-chain (e ∷ es) offset n previous (entry, at, in_turn, linked, rest) =
    let tail = length-chain es _ _ _ rest in
    omega (arith, length-append (entry_bytes e) (entries_bytes es), length-entry_bytes e entry)

written : (k : ℕ) → true ≡ not (suc k == 0)
written k = ground arith

module _ (e : WalEntry) (h : IsEntry e) where
  -- The loop stops at a cut entry, and at the end of the data.
  parse_loop-cut :
      (fuel k offset n : ℕ) (previous : Option Bytes) (tail : Bytes)
      → k < entry_size e
      → tail ≡ take k (entry_bytes e)
      → length tail ≡ k
      → k ≤ fuel
      → parse_loop fuel true tail offset n previous ≡ ok ([], offset, not (k == 0))
  unfolding parse_loop
  parse_loop-cut fuel zero offset n previous [] cut same size enough = refl
  parse_loop-cut fuel zero offset n previous (b ∷ bs) cut same size enough = absurd (omega arith)
  parse_loop-cut fuel (suc k) offset n previous [] cut same size enough = absurd (omega arith)
  parse_loop-cut zero (suc k) offset n previous (b ∷ bs) cut same size enough = absurd (omega arith)
  parse_loop-cut (suc fuel) (suc k) offset n previous (b ∷ bs) cut same size enough =
      rw
        (
          ap (λ (r : Bytes). next_entry true r offset n previous) same
              ∙ next_entry-cut_entry e h (suc k) cut offset n previous,
          parse_loop,
        )
        (ap (λ (partial : Bool). ok ([], offset, partial)) (written k))

  -- A log of a chain of entries whose last write stopped after `k` bytes of the entry `e` is read
  -- back to that chain, with the offset at which it ends; a tail is reported exactly when a byte of
  -- the cut entry was written.
  pub parse_entries-cut_log :
      (front : Bytes) (header : WalHeader) (previous : Option Bytes) (es : List WalEntry) (k : ℕ)
      → length front ≡ header.length
      → IsChain header.length header.start_sequence previous es
      → k < entry_size e
      → parse_entries (front ++ (entries_bytes es ++ take k (entry_bytes e))) header previous true
        ≡ ok (es, end_offset header.length es, not (k == 0))
  unfolding parse_entries prepend ◌>>=◌
  parse_entries-cut_log front header previous es k size chain cut =
      let tail = take k (entry_bytes e) in
      let data' = front ++ (entries_bytes es ++ tail) in
      let fuel = length data' - length es in
      let few = length-chain es header.length header.start_sequence previous chain in
      let tail_length : length tail ≡ k =
        omega (arith, length-take k (entry_bytes e), length-entry_bytes e h) in
      let total : length data' ≡ length front + (length (entries_bytes es) + length tail) =
        length-append front (entries_bytes es ++ tail)
        ∙ ap (λ (m : ℕ). length front + m) (length-append (entries_bytes es) tail) in
      let next = end_sequence header.start_sequence es in
      let last = end_hash previous es in
      ap
        (λ (r : Bytes).
          parse_loop (length data') true r header.length header.start_sequence previous)
        (drop-append header.length front (entries_bytes es ++ tail) size)
      ∙ ap
          (λ (m : ℕ).
            parse_loop m true (entries_bytes es ++ tail) header.length header.start_sequence
              previous)
          (omega (arith, few, total))
      ∙ parse_loop-entries_bytes true es fuel tail header.length header.start_sequence previous
          chain
      ∙ ap (λ (r : Result WalError (List WalEntry × ℕ × Bool)). r >>= λ rest. ok (prepend es rest))
          (parse_loop-cut fuel k (end_offset header.length es) next last tail cut refl tail_length
            (omega (arith, few, total, tail_length)))
      ∙ ap (λ (xs : List WalEntry). ok (xs, end_offset header.length es, not (k == 0)))
          (append-nil es)
