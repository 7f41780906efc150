-- ===== src/Wal/ParseEntry.antt =====
-- parseEntry against the fields of the bytes.
use utaki_tick_data_platform.Common.{
  ℕ, ◌+◌, ◌-◌, ◌≤◌, ◌≡◌, refl, sym, ap, ◌∙◌, ok, require_holds, >>=-eq-ok, >>-eq-ok, >>=_of_ok,
  Bytes, arith, le_value, length, take, slice, true, not, ◌||◌, ltb, ◌==◌, ==_refl, i64_of_u64,
  eq→bytes_eq, bytes_eq→eq, ==→eq, length-slice, &&_true,
}
use utaki_tick_data_platform.Golib.Crc32
use utaki_tick_data_platform.Protocol.{min_frame_bytes, max_frame_bytes}
use utaki_tick_data_platform.Wal.{WalEntry, entry_fixed_bytes, entry_version}
use utaki_tick_data_platform.Wal.Entry.{entry_bytes, parse_entry}
use utaki_tick_data_platform.Wal.EntryBytes.{IsEntry, EntryFields, fields_of}

long_enough : (l n : ℕ) → l ≡ entry_fixed_bytes + n → not (ltb l entry_fixed_bytes) ≡ true
long_enough l n h = ground arith

length_fits :
    (l n : ℕ)
    → l ≡ entry_fixed_bytes + n
    → min_frame_bytes ≤ n
    → n ≤ max_frame_bytes
    → not (ltb n min_frame_bytes || (ltb max_frame_bytes n || not (l == entry_fixed_bytes + n)))
      ≡ true
length_fits l n h lo hi = ground arith

lengths :
    (l n : ℕ)
    → not (ltb n min_frame_bytes || (ltb max_frame_bytes n || not (l == entry_fixed_bytes + n)))
      ≡ true
    → (l ≡ entry_fixed_bytes + n) × (min_frame_bytes ≤ n) × (n ≤ max_frame_bytes)
lengths l n h = ground arith

pub parse_entry-EntryFields :
    (raw : Bytes) (e : WalEntry)
    → EntryFields raw e
    → parse_entry raw ≡ ok (record e { offset = 0 })
unfolding parse_entry
parse_entry-EntryFields raw e f =
    simp
      (
        f.at_frame_length, f.at_frame, f.at_previous, f.at_batch_hash, f.at_entry_hash,
        f.at_sequence, f.at_wall, f.at_monotonic, f.own_crc, f.own_length, f.own_version,
        f.own_flags, f.at_marker, f.is_batch.1,
      )
      (require_holds _ _ _ (long_enough (length raw) (length e.frame) f.total)
        ∙ require_holds _ _ _ (==_refl (length raw))
        ∙ require_holds _ _ _ refl
        ∙ require_holds _ _ _
            (length_fits (length raw) (length e.frame) f.total f.at_least f.at_most)
        ∙ >>=_of_ok _ refl
        ∙ require_holds _ _ _ refl
        ∙ require_holds _ _ _ (==_refl (Crc32.checksum (take (length raw - 4) raw)))
        ∙ require_holds _ _ _ (eq→bytes_eq _ _ f.batch_hash)
        ∙ require_holds _ _ _ (eq→bytes_eq _ _ f.entry_hash))

pub EntryFields-parse_entry :
    (raw : Bytes) (e : WalEntry) → parse_entry raw ≡ ok e → EntryFields raw e × (e.offset ≡ 0)
unfolding parse_entry
EntryFields-parse_entry raw e h =
    let (c0, h0) = >>-eq-ok _ _ _ h in
    let (c1, h1) = >>-eq-ok _ _ _ h0 in
    let (c2, h2) = >>-eq-ok _ _ _ h1 in
    let (c3, h3) = >>-eq-ok _ _ _ h2 in
    let (b, decoded, h4) = >>=-eq-ok _ _ h3 in
    let (c5, h5) = >>-eq-ok _ _ _ h4 in
    let (c6, h6) = >>-eq-ok _ _ _ h5 in
    let (c7, h7) = >>-eq-ok _ _ _ h6 in
    let (c8, h8) = >>-eq-ok _ _ _ h7 in
    let n = le_value (slice 64 68 raw) in
    let (total, least, most) = lengths (length raw) n c3 in
    let (version, flags) =
      &&_true (le_value (slice 4 6 raw) == entry_version) (le_value (slice 6 8 raw) == 0) c2 in
    let value : e ≡ record {
      offset = 0;
      sequence = le_value (slice 8 16 raw);
      receive_wall_s = i64_of_u64 (le_value (slice 16 24 raw));
      receive_monotonic_us = le_value (slice 24 32 raw);
      previous_entry_hash = slice 32 64 raw;
      frame = slice 68 (68 + n) raw;
      batch_hash = slice (68 + n) (68 + n + 32) raw;
      entry_hash = slice (68 + n + 32) (68 + n + 64) raw;
    } =
      cc in
    let own : length (slice 68 (68 + n) raw) ≡ n =
      length-slice 68 (68 + n) raw (omega (arith, total)) ∙ omega arith in
    rw value (
      record {
        own_length = ==→eq _ _ c1;
        own_version = ==→eq _ _ version;
        own_flags = ==→eq _ _ flags;
        at_sequence = refl;
        at_wall = refl;
        at_monotonic = refl;
        at_previous = refl;
        at_frame_length = sym own;
        at_frame = ap (λ (k : ℕ). slice 68 (68 + k) raw) own;
        at_batch_hash = ap (λ (k : ℕ). slice (68 + k) (68 + k + 32) raw) own;
        at_entry_hash = ap (λ (k : ℕ). slice (68 + k + 32) (68 + k + 64) raw) own;
        at_marker =
            ap (λ (k : ℕ). le_value (slice (68 + k + 64) (68 + k + 68) raw)) own ∙ ==→eq _ _ c5;
        own_crc = ==→eq _ _ c6;
        total = total ∙ ap (λ (k : ℕ). entry_fixed_bytes + k) (sym own);
        at_least = omega (arith, own, least);
        at_most = omega (arith, own, most);
        batch_hash = bytes_eq→eq _ _ c7;
        entry_hash = bytes_eq→eq _ _ c8;
        is_batch = (b, decoded);
      },
      refl,
    )

-- parseEntry reads the bytes of an entry that the log may hold back as that entry, its offset left
-- to the caller.
pub parse_entry-entry_bytes :
    (e : WalEntry) → IsEntry e → parse_entry (entry_bytes e) ≡ ok (record e { offset = 0 })
parse_entry-entry_bytes e h = parse_entry-EntryFields (entry_bytes e) e (fields_of e h)
