-- ===== src/Wal/Chain.antt =====
-- Chains of entries: what parseEntries makes of the bytes of a chain.
use utaki_tick_data_platform.Common.{
  ℕ, suc, ◌+◌, ◌%◌, ◌<◌, ◌≤◌, ◌^◌, ◌≡◌, refl, sym, ap, ◌∙◌, ok, err, Result, ◌>>=◌, Bytes, arith,
  ◌++◌, append_assoc, List, [], ◌∷◌, Option, none, some, Bool, true, false, ◌||◌, le_value, length,
  length-append, take, drop, take-append_length, take-append_le, drop-append, ltb, leb, ◌==◌,
  bytes_eq, bytes_eq→eq, Bool-cases, inl, inr, if_false, &&_false_right, le→ltb, if◌then◌else◌,
}
use utaki_tick_data_platform.Protocol.{max_frame_bytes}
use utaki_tick_data_platform.Wal.{
  WalEntry, WalError, entry_fixed_bytes, trailer_magic, trailer_bytes,
}
use utaki_tick_data_platform.Wal.Entry.{entry_bytes, parse_entry}
use utaki_tick_data_platform.Wal.EntryBytes.{IsEntry, fields_of, length-entry_bytes}
use utaki_tick_data_platform.Wal.ParseEntry.{parse_entry-entry_bytes}
use utaki_tick_data_platform.Wal.Segment.{
  Round, partial_tail, parsed, failed, Parsed, is_partial_trailer, follows, accept_entry,
  next_entry, parse_loop,
}

unfoldable pub entries_bytes : List WalEntry → Bytes
entries_bytes [] = []
entries_bytes (e ∷ es) = entry_bytes e ++ entries_bytes es

abbrev pub entry_size : WalEntry → ℕ
entry_size e = entry_fixed_bytes + length e.frame

abbrev pub sequence_after : ℕ → ℕ
sequence_after n = (n + 1) % 2 ^ 64

-- Entries in the order of the log: consecutive sequence numbers from n on, each linked by its hash
-- to the entry before it, each at its offset.
abbrev pub IsChain : ℕ → ℕ → Option Bytes → List WalEntry → Type 0
IsChain offset n previous [] = Unit {0}
IsChain offset n previous (e ∷ es) =
    IsEntry e
    × (e.offset ≡ offset)
    × (e.sequence ≡ n)
    × (follows previous e ≡ true)
    × IsChain (offset + entry_size e) (sequence_after n) (some e.entry_hash) es

-- Where a chain ends: its offset, the next sequence number and the hash to link to.
unfoldable pub end_offset : ℕ → List WalEntry → ℕ
end_offset offset [] = offset
end_offset offset (e ∷ es) = end_offset (offset + entry_size e) es

unfoldable pub end_sequence : ℕ → List WalEntry → ℕ
end_sequence n [] = n
end_sequence n (e ∷ es) = end_sequence (sequence_after n) es

unfoldable pub end_hash : Option Bytes → List WalEntry → Option Bytes
end_hash previous [] = previous
end_hash previous (e ∷ es) = end_hash (some e.entry_hash) es

unfoldable pub prepend : List WalEntry → Parsed → Parsed
prepend es p = (es ++ p.0, p.1, p.2)

-- No entry length reads as the magic of a trailer.
pub not_trailer :
    (bs : Bytes)
    → le_value bs ≤ entry_fixed_bytes + max_frame_bytes
    → bytes_eq bs trailer_magic ≡ false
unfolding le_value
not_trailer bs h = elim (Bool-cases (bytes_eq bs trailer_magic)) [
  | inl same ↦
      let e : le_value bs ≡ 0x52545754 = ap le_value (bytes_eq→eq bs trailer_magic same) in
      absurd (omega arith)
  | inr other ↦ other
]

within :
    (v : ℕ)
    → entry_fixed_bytes ≤ v
    → v ≤ entry_fixed_bytes + max_frame_bytes
    → (ltb v entry_fixed_bytes || ltb (entry_fixed_bytes + max_frame_bytes) v) ≡ false
within v lo hi = ground arith

module _ (e : WalEntry) (h : IsEntry e) (rest : Bytes) where
  first_word : le_value (take 4 (entry_bytes e ++ rest)) ≡ entry_size e
  first_word =
      ap le_value (take-append_le 4 (entry_bytes e) rest (omega (arith, length-entry_bytes e h)))
      ∙ (fields_of e h).own_length
      ∙ length-entry_bytes e h

  whole_entry : take (entry_size e) (entry_bytes e ++ rest) ≡ entry_bytes e
  whole_entry = take-append_length (entry_size e) (entry_bytes e) rest (length-entry_bytes e h)

  behind_entry : drop (entry_size e) (entry_bytes e ++ rest) ≡ rest
  behind_entry = drop-append (entry_size e) (entry_bytes e) rest (length-entry_bytes e h)

  length-behind : length (entry_bytes e ++ rest) ≡ entry_size e + length rest
  length-behind = omega (arith, length-append (entry_bytes e) rest, length-entry_bytes e h)

  entry_small : entry_size e ≤ entry_fixed_bytes + max_frame_bytes
  entry_small = omega (arith, (fields_of e h).at_most)

  abbrev remaining : Bytes
  remaining = entry_bytes e ++ rest

  plain : bytes_eq (take 4 remaining) trailer_magic ≡ false
  plain = not_trailer _ (omega (arith, first_word, entry_small))

  not_partial : is_partial_trailer remaining ≡ false
  unfolding is_partial_trailer
  not_partial =
      if_false (ltb (length remaining) 4) _ _ (le→ltb _ _ (omega (arith, length-behind))) ∙ rw plain

  fits :
      (ltb (le_value (take 4 remaining)) entry_fixed_bytes
        || ltb (entry_fixed_bytes + max_frame_bytes) (le_value (take 4 remaining)))
      ≡ false
  fits =
      within (le_value (take 4 remaining)) (omega (arith, first_word))
        (omega (arith, first_word, entry_small))

  read : parse_entry (take (le_value (take 4 remaining)) remaining) ≡ ok (record e { offset = 0 })
  read =
      ap (λ (k : ℕ). parse_entry (take k remaining)) first_word
      ∙ ap parse_entry whole_entry
      ∙ parse_entry-entry_bytes e h

  accepted :
      (previous : Option Bytes)
      → follows previous e ≡ true
      → accept_entry e.offset e.sequence previous
          (le_value (take 4 remaining))
          (ok (record e { offset = 0 }))
        ≡ parsed e (entry_size e)
  unfolding accept_entry follows
  accepted none linked = ground (arith, first_word)
  accepted (some p) linked = ground (arith, first_word)

  next_entry-entry_bytes :
      (allow_partial : Bool) (previous : Option Bytes)
      → follows previous e ≡ true
      → next_entry allow_partial (entry_bytes e ++ rest) e.offset e.sequence previous
        ≡ parsed e (entry_size e)
  unfolding next_entry
  next_entry-entry_bytes allow_partial previous linked =
      let long : ltb (length remaining) 4 ≡ false =
        le→ltb (length remaining) 4 (omega (arith, length-behind)) in
      let enough : ltb (length remaining) (le_value (take 4 remaining)) ≡ false =
        le→ltb (length remaining) _ (omega (arith, length-behind, first_word)) in
      let cut : Round = if allow_partial then partial_tail else failed WalError.integrity in
      if_false _ _ _ (
        &&_false_right allow_partial _ (&&_false_right (length remaining == trailer_bytes) _ plain))
      ∙ if_false _ _ _ (&&_false_right allow_partial _ not_partial)
      ∙ if_false _ (failed WalError.integrity) _ (&&_false_right (leb 4 (length remaining)) _ plain)
      ∙ if_false _ cut _ long
      ∙ if_false _ (failed WalError.integrity) _ fits
      ∙ if_false _ cut _ enough
      ∙ ap (accept_entry e.offset e.sequence previous (le_value (take 4 remaining))) read
      ∙ accepted previous linked

prepend_nil : (r : Result WalError Parsed) → (r >>= λ rest. ok (prepend [] rest)) ≡ r
unfolding prepend ◌>>=◌
prepend_nil (ok p) = refl
prepend_nil (err e) = refl

prepend_cons :
    (e : WalEntry) (es : List WalEntry) (r : Result WalError Parsed)
    → ((r >>= λ rest. ok (prepend es rest)) >>= λ rest. ok (prepend (e ∷ []) rest))
      ≡ (r >>= λ rest. ok (prepend (e ∷ es) rest))
unfolding prepend ◌>>=◌
prepend_cons e es (ok p) = refl
prepend_cons e es (err x) = refl

module _ (allow_partial : Bool) where
  -- A round that parses an entry.
  parse_loop_step :
      (fuel : ℕ) (remaining : Bytes) (offset n : ℕ) (previous : Option Bytes) (e : WalEntry)
      (size : ℕ)
      → 0 < length remaining
      → next_entry allow_partial remaining offset n previous ≡ parsed e size
      → parse_loop (suc fuel) allow_partial remaining offset n previous ≡ (
          parse_loop fuel allow_partial
            (drop size remaining)
            (offset + size)
            (sequence_after n)
            (some e.entry_hash)
          >>= λ rest. ok (prepend (e ∷ []) rest))
  unfolding parse_loop prepend
  parse_loop_step fuel [] offset n previous e size nonempty h = absurd (omega arith)
  parse_loop_step fuel (b ∷ bs) offset n previous e size nonempty h = rw (h, parse_loop)

  -- The bytes of a chain are parsed to the chain, whatever follows them.
  pub parse_loop-entries_bytes :
      (es : List WalEntry) (fuel : ℕ) (tail : Bytes) (offset n : ℕ) (previous : Option Bytes)
      → IsChain offset n previous es
      → parse_loop (length es + fuel) allow_partial (entries_bytes es ++ tail) offset n previous ≡ (
          parse_loop fuel allow_partial tail
            (end_offset offset es)
            (end_sequence n es)
            (end_hash previous es)
          >>= λ rest. ok (prepend es rest))
  unfolding end_offset end_sequence end_hash entries_bytes
  parse_loop-entries_bytes [] fuel tail offset n previous h =
      ap (λ (k : ℕ). parse_loop k allow_partial tail offset n previous) (omega arith)
      ∙ sym (prepend_nil (parse_loop fuel allow_partial tail offset n previous))
  parse_loop-entries_bytes (e ∷ es) fuel tail offset n previous (entry, at, in_turn, linked, rest) =
      let bytes = entries_bytes es ++ tail in
      ap
        (λ (k : ℕ).
          parse_loop k allow_partial ((entry_bytes e ++ entries_bytes es) ++ tail) offset n
            previous)
        (omega arith)
      ∙ ap (λ (r : Bytes). parse_loop (suc (length es + fuel)) allow_partial r offset n previous)
          (append_assoc (entry_bytes e) (entries_bytes es) tail)
      ∙ parse_loop_step (length es + fuel) (entry_bytes e ++ bytes) offset n previous e
          (entry_size e) (omega (arith, length-behind e entry bytes))
          (ap (λ (o : ℕ). next_entry allow_partial (entry_bytes e ++ bytes) o n previous) (sym at)
            ∙ ap (λ (k : ℕ). next_entry allow_partial (entry_bytes e ++ bytes) e.offset k previous)
                (sym in_turn)
            ∙ next_entry-entry_bytes e entry bytes allow_partial previous linked)
      ∙ ap
          (λ (r : Bytes).
            parse_loop (length es + fuel) allow_partial r (offset + entry_size e) (sequence_after n)
              (some e.entry_hash)
            >>= λ rest. ok (prepend (e ∷ []) rest))
          (behind_entry e entry bytes)
      ∙ ap (λ (r : Result WalError Parsed). r >>= λ rest. ok (prepend (e ∷ []) rest))
          (parse_loop-entries_bytes es fuel tail (offset + entry_size e) (sequence_after n)
            (some e.entry_hash) rest)
      ∙ prepend_cons e es _
