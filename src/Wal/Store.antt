-- ===== src/Wal/Store.antt =====
-- internal/wal/wal.go: Append and loadActive on the state of a started store. The file is its
-- content, none once it is closed; what the operating system does to a write, a sync, a stat and a
-- truncation is an argument. The paths and the sealed segments, which these operations do
-- not read, are left out.
use utaki_tick_data_platform.Common.{
  ℕ, ◌+◌, ◌-◌, ◌%◌, ◌^◌, ◌++◌, List, [], ◌∷◌, ok, err, Bool, true, not, ◌&&◌, ◌||◌, Result, Bytes,
  ℤ, bytes_eq, length, take, last_or, ltb, ◌==◌, if◌then◌else◌, Option, none, some,
}
use utaki_tick_data_platform.Protocol.{min_frame_bytes, max_frame_bytes}
use utaki_tick_data_platform.Wal.{WalEntry, WalError, WalHeader, entry_fixed_bytes}
use utaki_tick_data_platform.Wal.Entry.{new_entry, entry_bytes, decode_batch_frame}
use utaki_tick_data_platform.Wal.Header.{parse_header}
use utaki_tick_data_platform.Wal.Segment.{Parsed, parse_entries}

pub record Store : Type 0 where
  pub gateway_id : Bytes
  pub file : Option Bytes
  pub entries : List WalEntry
  pub last : Bytes
  pub next : ℕ
  pub start : ℕ
  pub active_at : ℕ
  pub sealed_bytes : ℕ
  pub file_bytes : ℕ
  pub poisoned : Bool
  pub pruned_through : ℕ

-- `write` is none when every byte is written, and the number of bytes that reached the file before
-- an error otherwise; `sync` and `stat` say whether the call succeeds.
pub record AppendIo : Type 0 where
  pub write : Option ℕ
  pub sync : Bool
  pub stat : Bool

abbrev pub unavailable : Store → Bytes → Result WalError WalEntry × Store
unavailable s bytes = (err WalError.unavailable, record s { file = some bytes; poisoned = true })

unfoldable pub append_open :
    AppendIo → Bytes → ℤ → ℕ → Bytes → Store → Result WalError WalEntry × Store
append_open io frame receive_wall_s receive_monotonic_us bytes s =
    let made = new_entry 0 s.next s.last receive_wall_s receive_monotonic_us frame in
    let raw = entry_bytes made in
    let written = bytes ++ raw in
    let entry = record made { offset = length written - (entry_fixed_bytes + length frame) } in
    elim io.write [
      | some n ↦ unavailable s (bytes ++ take n raw)
      | none ↦
          if not io.sync
          then unavailable s written
          else if not io.stat
          then unavailable s written
          else (
            ok entry,
            record s {
              file = some written;
              entries = s.entries ++ (entry ∷ []);
              last = made.entry_hash;
              next = (s.next + 1) % 2 ^ 64;
              file_bytes = s.sealed_bytes + length written;
            },
          )
    ]

unfoldable pub append_batch : AppendIo → Bytes → ℤ → ℕ → Store → Result WalError WalEntry × Store
append_batch io frame receive_wall_s receive_monotonic_us s = elim s.file [
  | none ↦ (err WalError.unavailable, s)
  | some bytes ↦
      if s.poisoned
      then (err WalError.unavailable, s)
      else append_open io frame receive_wall_s receive_monotonic_us bytes s
]

unfoldable pub append : AppendIo → Bytes → ℤ → ℕ → Store → Result WalError WalEntry × Store
append io frame receive_wall_s receive_monotonic_us s = elim (decode_batch_frame frame) [
  | err e ↦ (err e, s)
  | ok message ↦
      if ltb (length frame) min_frame_bytes || ltb max_frame_bytes (length frame)
      then (err WalError.plain, s)
      else append_batch io frame receive_wall_s receive_monotonic_us s
]

unfoldable pub sync : Bool → Store → Result WalError (Unit {0}) × Store
sync synced s = elim s.file [
  | none ↦ (err WalError.unavailable, s)
  | some bytes ↦
      if s.poisoned
      then (err WalError.unavailable, s)
      else if synced
      then (ok tt, s)
      else (err WalError.unavailable, record s { poisoned = true })
]

abbrev links : Bytes → List WalEntry → Bool
links last [] = true
links last (entry ∷ entries) = bytes_eq entry.previous_entry_hash last

-- The last entry of those that were read becomes the store's last.
unfoldable pub take_over : ℕ → List WalEntry → Store → Result WalError (Unit {0}) × Store
take_over entries_end [] s = (ok tt, record s { file_bytes = s.sealed_bytes + entries_end })
take_over entries_end (first ∷ rest) s =
    let final = last_or first rest in
    let joined = record s { entries = s.entries ++ (first ∷ rest) } in
    if final.sequence == 2 ^ 64 - 1 then (err WalError.integrity, joined) else (
      ok tt,
      record joined {
        last = final.entry_hash;
        next = final.sequence + 1;
        file_bytes = s.sealed_bytes + entries_end;
      },
    )

-- `truncated` and `synced` say whether the calls succeed.
unfoldable pub load_entries :
    Bool → Bool → Bytes → WalHeader → Parsed → Store → Result WalError (Unit {0}) × Store
load_entries truncated synced data' header (entries, entries_end, partial) s =
    if not (header.start_sequence == s.next)
    then (err WalError.integrity, s)
    else if not (links s.last entries)
    then (err WalError.integrity, s)
    else if partial && not truncated
    then (err WalError.plain, s)
    else if partial && not synced
    then (err WalError.plain, record s { file = some (take entries_end data') })
    else take_over entries_end entries
        (if partial then record s { file = some (take entries_end data') } else s)

unfoldable pub load_active : Bool → Bool → Bytes → Store → Result WalError (Unit {0}) × Store
load_active truncated synced data' s = elim (parse_header data' s.gateway_id) [
  | err e ↦ (err e, s)
  | ok header ↦
      let begun = record s { start = header.start_sequence; active_at = length s.entries } in
      elim (parse_entries data' header none true) [
        | err e ↦ (err e, begun)
        | ok parsed ↦ load_entries truncated synced data' header parsed begun
      ]
]
