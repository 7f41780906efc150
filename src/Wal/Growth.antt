-- ===== src/Wal/Growth.antt =====
-- How a chain of entries grows when an entry is appended.
use utaki_tick_data_platform.Common.{
  ℕ, ◌+◌, ◌^◌, ◌<◌, ◌≡◌, refl, sym, ap, ◌∙◌, ◌++◌, append_assoc, append-nil, List, [], ◌∷◌, ok,
  true, Bytes, ℤ, IsI64, length, length-append, arith, Option, none, some, eq→bytes_eq,
}
use utaki_tick_data_platform.Protocol.{BatchFrameV1}
use utaki_tick_data_platform.Wal.{WalEntry, WalHeader}
use utaki_tick_data_platform.Wal.Entry.{new_entry, entry_bytes, decode_batch_frame}
use utaki_tick_data_platform.Wal.EntryBytes.{IsEntry, length-entry_bytes}
use utaki_tick_data_platform.Wal.Chain.{
  entries_bytes, sequence_after, IsChain, end_offset, end_sequence, end_hash,
}
use utaki_tick_data_platform.Wal.Segment.{follows}
use utaki_tick_data_platform.Wal.Store.{Store}

-- The next entry links to `last`.
abbrev pub Linked : Option Bytes → Bytes → Type 0
Linked none last = Unit {0}
Linked (some hash) last = hash ≡ last

-- The file is a header and the bytes of a chain of entries; the store is ready to add the next one.
pub record IsLog (front : Bytes) (header : WalHeader) (es : List WalEntry) (s : Store)
    : Type 0 where
  pub content : s.file ≡ some (front ++ entries_bytes es)
  pub header_length : length front ≡ header.length
  pub chain : IsChain header.length header.start_sequence none es
  pub next : s.next ≡ end_sequence header.start_sequence es
  pub in_range : s.next < 2 ^ 64
  pub linked : Linked (end_hash none es) s.last
  pub last : length s.last ≡ 32

pub end_offset_lem :
    (es : List WalEntry) (offset n : ℕ) (previous : Option Bytes)
    → IsChain offset n previous es
    → end_offset offset es ≡ offset + length (entries_bytes es)
unfolding end_offset entries_bytes
end_offset_lem [] offset n previous h = omega arith
end_offset_lem (e ∷ es) offset n previous (entry, at, in_turn, linked, rest) =
    end_offset_lem es _ _ _ rest
    ∙ omega (arith, length-append (entry_bytes e) (entries_bytes es), length-entry_bytes e entry)

pub entries_bytes-snoc :
    (es : List WalEntry) (e : WalEntry)
    → entries_bytes (es ++ (e ∷ [])) ≡ entries_bytes es ++ entry_bytes e
unfolding entries_bytes
entries_bytes-snoc [] e = append-nil (entry_bytes e)
entries_bytes-snoc (x ∷ es) e =
    ap (λ (r : Bytes). entry_bytes x ++ r) (entries_bytes-snoc es e)
    ∙ sym (append_assoc (entry_bytes x) (entries_bytes es) (entry_bytes e))

-- A chain grows at its end.
pub IsChain-snoc :
    (es : List WalEntry) (e : WalEntry) (offset n : ℕ) (previous : Option Bytes)
    → IsChain offset n previous es
    → IsEntry e
    → e.offset ≡ end_offset offset es
    → e.sequence ≡ end_sequence n es
    → follows (end_hash previous es) e ≡ true
    → IsChain offset n previous (es ++ (e ∷ []))
unfolding end_offset end_sequence end_hash
IsChain-snoc [] e offset n previous h entry at in_turn linked = (entry, at, in_turn, linked, tt)
IsChain-snoc (x ∷ es) e offset n previous (first, at_x, turn_x, linked_x, rest) entry at in_turn
      linked =
    (first, at_x, turn_x, linked_x, IsChain-snoc es e _ _ _ rest entry at in_turn linked)

pub end_sequence-snoc :
    (es : List WalEntry) (e : WalEntry) (n : ℕ)
    → end_sequence n (es ++ (e ∷ [])) ≡ sequence_after (end_sequence n es)
unfolding end_sequence
end_sequence-snoc [] e n = refl
end_sequence-snoc (x ∷ es) e n = end_sequence-snoc es e (sequence_after n)

pub end_hash-snoc :
    (es : List WalEntry) (e : WalEntry) (previous : Option Bytes)
    → end_hash previous (es ++ (e ∷ [])) ≡ some e.entry_hash
unfolding end_hash
end_hash-snoc [] e previous = refl
end_hash-snoc (x ∷ es) e previous = end_hash-snoc es e (some x.entry_hash)

pub follows-Linked :
    (previous : Option Bytes) (last : Bytes) (e : WalEntry)
    → Linked previous last
    → e.previous_entry_hash ≡ last
    → follows previous e ≡ true
unfolding follows
follows-Linked none last e linked same = refl
follows-Linked (some hash) last e linked same =
    eq→bytes_eq e.previous_entry_hash hash (same ∙ sym linked)

-- What Append adds: a batch at a time of an int64 and a uint64.
pub record IsInput (frame : Bytes) (receive_wall_s : ℤ) (receive_monotonic_us : ℕ) : Type 0 where
  pub is_batch : (b : BatchFrameV1) × (decode_batch_frame frame ≡ ok b)
  pub wall : IsI64 receive_wall_s
  pub monotonic : receive_monotonic_us < 2 ^ 64

pub IsEntry-new_entry :
    (offset sequence : ℕ) (previous frame : Bytes) (wall : ℤ) (monotonic : ℕ)
    → IsInput frame wall monotonic
    → sequence < 2 ^ 64
    → length previous ≡ 32
    → IsEntry (new_entry offset sequence previous wall monotonic frame)
unfolding new_entry
IsEntry-new_entry offset sequence previous frame wall monotonic input in_range size = record {
  sequence = in_range;
  receive_wall_s = input.wall;
  receive_monotonic_us = input.monotonic;
  previous = size;
  batch_hash = refl;
  entry_hash = refl;
  is_batch = input.is_batch;
}
