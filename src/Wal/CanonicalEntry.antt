-- ===== src/Wal/CanonicalEntry.antt =====
-- internal/wal/wal.go: the bytes that parseEntry accepts, against the entry it returns.
use utaki_tick_data_platform.Common.{
  ℕ, ◌+◌, ◌-◌, ◌<◌, ◌≤◌, ◌^◌, ◌≡◌, refl, sym, ap, ◌∙◌, subst, ok, Bytes, IsByte, IsI64, All,
  All-take, All-drop, arith, ◌++◌, le_bytes, le_value, le_value-lt, le_bytes-le_value, length,
  length-drop, length-slice, take, drop, slice, take-append-drop, slice-append-slice, append_cong,
  u64_of_i64, u64_of_i64-i64_of_u64, IsI64-i64_of_u64,
}
use utaki_tick_data_platform.Golib.Crc32
use utaki_tick_data_platform.Wal.{WalEntry, commit_marker}
use utaki_tick_data_platform.Wal.Entry.{entry_body, entry_bytes, parse_entry}
use utaki_tick_data_platform.Wal.EntryBytes.{IsEntry, EntryFields}
use utaki_tick_data_platform.Wal.ParseEntry.{EntryFields-parse_entry}

module _ (raw : Bytes) (e : WalEntry) (bytes : All IsByte raw) (f : EntryFields raw e) where
  word :
      (o k c v : ℕ)
      → c ≡ o + k
      → c ≤ length raw
      → le_value (slice o c raw) ≡ v
      → le_bytes k v ≡ slice o c raw
  word o k c v hc h p =
      ap (le_bytes k) (sym p)
      ∙ le_bytes-le_value k (slice o c raw) (length-slice o c raw h ∙ omega arith)
          (All-take IsByte (c - o) (drop o raw) (All-drop IsByte o raw bytes))

  word_bound : (o c : ℕ) → c ≡ o + 8 → c ≤ length raw → le_value (slice o c raw) < 2 ^ 64
  word_bound o c hc h =
      le_value-lt 8 (slice o c raw) (length-slice o c raw h ∙ omega arith)
        (All-take IsByte (c - o) (drop o raw) (All-drop IsByte o raw bytes))

  wall_word : le_bytes 8 (u64_of_i64 e.receive_wall_s) ≡ slice 16 24 raw
  wall_word =
      ap (λ (v : ℕ). le_bytes 8 v)
        (ap u64_of_i64 (sym f.at_wall)
          ∙ u64_of_i64-i64_of_u64 _ (word_bound 16 24 refl (omega (arith, f.total))))
      ∙ word 16 8 24 _ refl (omega (arith, f.total)) refl

  n : ℕ
  n = length e.frame

  body-eq-take : entry_body e ≡ take (length raw - 4) raw
  unfolding entry_body n
  body-eq-take =
      let m = 68 + n + 68 in
      let long : length raw ≡ 140 + n = f.total in
      append_cong (word 0 4 4 (140 + n) refl (omega arith) (f.own_length ∙ f.total)) (
        append_cong (word 4 2 6 1 refl (omega arith) f.own_version) (
          append_cong (word 6 2 8 0 refl (omega arith) f.own_flags) (
            append_cong (word 8 8 16 e.sequence refl (omega arith) f.at_sequence) (
              append_cong wall_word (
                append_cong (word 24 8 32 e.receive_monotonic_us refl (omega arith) f.at_monotonic)
                  (append_cong (sym f.at_previous) (
                      append_cong (word 64 4 68 n refl (omega arith) f.at_frame_length) (
                        append_cong (sym f.at_frame) (
                          append_cong (sym f.at_batch_hash) (
                            append_cong (sym f.at_entry_hash) (
                              word (68 + n + 64) 4 m commit_marker (omega arith) (omega arith)
                                f.at_marker)
                            ∙ slice-append-slice (68 + n + 32) (68 + n + 64) m raw (omega arith)
                                (omega arith))
                          ∙ slice-append-slice (68 + n) (68 + n + 32) m raw (omega arith)
                              (omega arith))
                        ∙ slice-append-slice 68 (68 + n) m raw (omega arith) (omega arith))
                      ∙ slice-append-slice 64 68 m raw (omega arith) (omega arith))
                    ∙ slice-append-slice 32 64 m raw (omega arith) (omega arith))
                ∙ slice-append-slice 24 32 m raw (omega arith) (omega arith))
              ∙ slice-append-slice 16 24 m raw (omega arith) (omega arith))
            ∙ slice-append-slice 8 16 m raw (omega arith) (omega arith))
          ∙ slice-append-slice 6 8 m raw (omega arith) (omega arith))
        ∙ slice-append-slice 4 6 m raw (omega arith) (omega arith))
      ∙ slice-append-slice 0 4 m raw (omega arith) (omega arith)
      ∙ ap (λ (k : ℕ). take k raw) (omega arith)

  crc-eq-drop : le_bytes 4 (Crc32.checksum (take (length raw - 4) raw)) ≡ drop (length raw - 4) raw
  crc-eq-drop =
      ap (le_bytes 4) (sym f.own_crc)
      ∙ le_bytes-le_value 4 _ (omega (arith, length-drop (length raw - 4) raw, f.total))
          (All-drop IsByte (length raw - 4) raw bytes)

  entry_bytes-eq : entry_bytes e ≡ raw
  unfolding entry_bytes
  entry_bytes-eq =
      ap (λ (b : Bytes). b ++ le_bytes 4 (Crc32.checksum b)) body-eq-take
      ∙ append_cong {as' = take (length raw - 4) raw} refl crc-eq-drop
      ∙ take-append-drop (length raw - 4) raw

  IsEntry-of : IsEntry e
  IsEntry-of = record {
    sequence = rw (← f.at_sequence) (word_bound 8 16 refl (omega (arith, f.total)));
    receive_wall_s =
        subst IsI64 f.at_wall (IsI64-i64_of_u64 _ (word_bound 16 24 refl (omega (arith, f.total))));
    receive_monotonic_us = rw (← f.at_monotonic) (word_bound 24 32 refl (omega (arith, f.total)));
    previous = ap length (sym f.at_previous) ∙ length-slice 32 64 raw (omega (arith, f.total));
    batch_hash = f.batch_hash;
    entry_hash = f.entry_hash;
    is_batch = f.is_batch;
  }

-- Bytes that parseEntry accepts are the bytes that Append writes for the returned entry, and the
-- log may hold that entry: its hashes are those of its fields and its frame is a batch.
pub entry_bytes-parse_entry :
    (raw : Bytes) (e : WalEntry)
    → All IsByte raw
    → parse_entry raw ≡ ok e
    → IsEntry e × (entry_bytes e ≡ raw)
entry_bytes-parse_entry raw e bytes h =
    let (f, zero_offset) = EntryFields-parse_entry raw e h in
    (IsEntry-of raw e bytes f, entry_bytes-eq raw e bytes f)
