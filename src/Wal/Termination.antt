-- ===== src/Wal/Termination.antt =====
-- parseEntries of internal/wal/segment.go: the loop over the entries ends.
use utaki_tick_data_platform.Common.{
  ℕ, zero, suc, ◌+◌, ◌%◌, ◌^◌, ◌≤◌, ◌≢◌, [], ◌∷◌, Bool, true, not, ◌&&◌, ◌||◌, Result, ok, err,
  ◌>>=◌, Bytes, le_value, bytes_eq, length, length-drop, drop, take, ltb, leb, ◌==◌, if_elim,
  Option, some, arith,
}
use utaki_tick_data_platform.Protocol.{max_frame_bytes}
use utaki_tick_data_platform.Wal.{
  WalEntry, WalError, WalHeader, entry_fixed_bytes, trailer_magic, trailer_bytes,
}
use utaki_tick_data_platform.Wal.Entry.{parse_entry}
use utaki_tick_data_platform.Wal.Segment.{
  Round, partial_tail, parsed, failed, Parsed, is_partial_trailer, follows, accept_entry,
  next_entry, parse_loop, parse_entries,
}

-- A round stops, fails with an error of the source, or takes bytes.
abbrev Proper : Round → Type 0
Proper partial_tail = Unit {0}
Proper (parsed entry n) = 1 ≤ n
Proper (failed e) = e ≢ WalError.out_of_fuel

integrity_is_no_fuel : WalError.integrity ≢ WalError.out_of_fuel
integrity_is_no_fuel h = cc

accept_entry-Proper :
    (offset expected : ℕ) (previous : Option Bytes) (n : ℕ) (r : Result WalError WalEntry)
    → 1 ≤ n
    → Proper (accept_entry offset expected previous n r)
unfolding accept_entry
accept_entry-Proper offset expected previous n (err e) long = integrity_is_no_fuel
accept_entry-Proper offset expected previous n (ok entry) long =
    if_elim Proper (not (entry.sequence == expected)) (λ gap. integrity_is_no_fuel)
      (λ in_turn.
        if_elim Proper (not (follows previous entry)) (λ unlinked. integrity_is_no_fuel)
          (λ linked. long))

next_entry-Proper :
    (allow_partial : Bool) (remaining : Bytes) (offset expected : ℕ) (previous : Option Bytes)
    → Proper (next_entry allow_partial remaining offset expected previous)
unfolding next_entry
next_entry-Proper allow_partial remaining offset expected previous =
    let sealed = bytes_eq (take 4 remaining) trailer_magic in
    let n = le_value (take 4 remaining) in
    let cut = if_elim Proper allow_partial (λ allowed. tt) (λ refused. integrity_is_no_fuel) in
    if_elim Proper (allow_partial && (length remaining == trailer_bytes && sealed)) (λ at_end h. cc)
      (λ more.
        if_elim Proper (allow_partial && is_partial_trailer remaining) (λ tail. tt)
          (λ entries.
            if_elim Proper (leb 4 (length remaining) && sealed) (λ trailer. integrity_is_no_fuel)
              (λ entry.
                if_elim Proper (ltb (length remaining) 4) (λ short. cut)
                  (λ sized.
                    if_elim Proper
                      (ltb n entry_fixed_bytes || ltb (entry_fixed_bytes + max_frame_bytes) n)
                      (λ out. integrity_is_no_fuel)
                      (λ in_range.
                        if_elim Proper (ltb (length remaining) n) (λ short. cut)
                          (λ whole.
                            accept_entry-Proper offset expected previous n
                              (parse_entry (take n remaining)) (ground (arith, in_range))))))))

prepend-ends :
    (r : Result WalError Parsed) (f : Parsed → Parsed)
    → r ≢ err WalError.out_of_fuel
    → (r >>= λ rest. ok (f rest)) ≢ err WalError.out_of_fuel
unfolding ◌>>=◌
prepend-ends (ok rest) f h = λ k. cc
prepend-ends (err e) f h = h

parse_loop-ends :
    (fuel : ℕ) (allow_partial : Bool) (remaining : Bytes) (offset expected : ℕ)
    (previous : Option Bytes)
    → length remaining ≤ fuel
    → parse_loop fuel allow_partial remaining offset expected previous ≢ err WalError.out_of_fuel
unfolding parse_loop
parse_loop-ends fuel allow_partial [] offset expected previous h = λ k. cc
parse_loop-ends zero allow_partial (b ∷ bs) offset expected previous h = absurd (omega arith)
parse_loop-ends (suc fuel) allow_partial (b ∷ bs) offset expected previous h =
    round (next_entry allow_partial (b ∷ bs) offset expected previous)
      (next_entry-Proper allow_partial (b ∷ bs) offset expected previous)
      (λ n hash taken.
        parse_loop-ends fuel allow_partial (drop n (b ∷ bs)) (offset + n) ((expected + 1) % 2 ^ 64)
          (some hash) (omega (arith, length-drop n (b ∷ bs), taken, h)))
  where
    round :
        (r : Round)
        → Proper r
        → ((n : ℕ) (hash : Bytes)
            → 1 ≤ n
            → parse_loop fuel allow_partial
                (drop n (b ∷ bs))
                (offset + n)
                ((expected + 1) % 2 ^ 64)
                (some hash)
              ≢ err WalError.out_of_fuel)
        → ◌≢◌ {A = Result WalError Parsed}
            (elim r [
              | failed e ↦ err e
              | partial_tail ↦ ok ([], offset, true)
              | parsed entry n ↦
                  parse_loop fuel allow_partial
                    (drop n (b ∷ bs))
                    (offset + n)
                    ((expected + 1) % 2 ^ 64)
                    (some entry.entry_hash)
                  >>= λ rest. ok (entry ∷ rest.0, rest.1, rest.2)
            ])
            (err WalError.out_of_fuel)
    round (failed e) proper ends = λ k. proper cc
    round partial_tail proper ends = λ k. cc
    round (parsed entry n) proper ends =
        prepend-ends _ (λ rest. (entry ∷ rest.0, rest.1, rest.2)) (ends n entry.entry_hash proper)

-- The loop over the entries of a segment's bytes ends, with its entries or with an error of the source,
-- whatever the bytes, the header, the hash before them and the mode: each round that goes on takes
-- bytes, so that the fuel never runs out.
pub parse_entries-ends :
    (data' : Bytes) (header : WalHeader) (previous : Option Bytes) (allow_partial : Bool)
    → parse_entries data' header previous allow_partial ≢ err WalError.out_of_fuel
unfolding parse_entries
parse_entries-ends data' header previous allow_partial =
    parse_loop-ends (length data') allow_partial (drop header.length data') header.length
      header.start_sequence previous (omega (arith, length-drop header.length data'))
