-- ===== src/Wal/EntryBytes.antt =====
-- internal/wal/wal.go: the entries that the log may hold, and the places of their fields.
use utaki_tick_data_platform.Common.{
  ℕ, ◌+◌, ◌-◌, ◌<◌, ◌≤◌, ◌^◌, ◌≡◌, refl, sym, ap, ◌∙◌, ok, >>=-eq-ok, map_err-eq-ok, Bytes, IsI64,
  arith, ◌++◌, append_assoc, le_bytes, le_value, le_value-le_bytes, length-le_bytes, length,
  length-append, take, drop, slice, take-append_length, drop-append, u64_of_i64, i64_of_u64,
  i64_of_u64-u64_of_i64, u64_of_i64-lt,
}
use utaki_tick_data_platform.Golib.Crc32
use utaki_tick_data_platform.Golib.Sha256
use utaki_tick_data_platform.Protocol.{BatchFrameV1, min_frame_bytes, max_frame_bytes}
use utaki_tick_data_platform.Protocol.FramingLaws.{Accepted-decode_frame}
use utaki_tick_data_platform.Protocol.Decode.{decode}
use utaki_tick_data_platform.Protocol.Hashes.{gateway_batch_sha256, wal_entry_hash}
use utaki_tick_data_platform.Wal.{WalEntry, entry_fixed_bytes, entry_version, commit_marker}
use utaki_tick_data_platform.Wal.Entry.{entry_body, entry_bytes, decode_batch_frame}

-- An entry that the log may hold.
pub record IsEntry (e : WalEntry) : Type 0 where
  pub sequence : e.sequence < 2 ^ 64
  pub receive_wall_s : IsI64 e.receive_wall_s
  pub receive_monotonic_us : e.receive_monotonic_us < 2 ^ 64
  pub previous : length e.previous_entry_hash ≡ 32
  pub batch_hash : e.batch_hash ≡ gateway_batch_sha256 e.frame
  pub entry_hash :
      e.entry_hash
      ≡ wal_entry_hash e.sequence e.previous_entry_hash e.receive_wall_s e.receive_monotonic_us
          e.batch_hash e.frame
  pub is_batch : (b : BatchFrameV1) × (decode_batch_frame e.frame ≡ ok b)

-- The frame of a batch has the length of a frame.
pub batch_frame_bounds :
    (frame : Bytes) (b : BatchFrameV1)
    → decode_batch_frame frame ≡ ok b
    → (min_frame_bytes ≤ length frame) × (length frame ≤ max_frame_bytes)
unfolding decode_batch_frame decode
batch_frame_bounds frame b h =
    let (m, decoded, made) = >>=-eq-ok _ _ h in
    let (f, framed, read) = >>=-eq-ok _ _ (map_err-eq-ok _ _ _ decoded) in
    let a = Accepted-decode_frame frame f framed in (a.at_least, a.at_most)

-- What parseEntry reads and checks of the bytes of an entry.
pub record EntryFields (raw : Bytes) (e : WalEntry) : Type 0 where
  pub own_length : le_value (slice 0 4 raw) ≡ length raw
  pub own_version : le_value (slice 4 6 raw) ≡ entry_version
  pub own_flags : le_value (slice 6 8 raw) ≡ 0
  pub at_sequence : le_value (slice 8 16 raw) ≡ e.sequence
  pub at_wall : i64_of_u64 (le_value (slice 16 24 raw)) ≡ e.receive_wall_s
  pub at_monotonic : le_value (slice 24 32 raw) ≡ e.receive_monotonic_us
  pub at_previous : slice 32 64 raw ≡ e.previous_entry_hash
  pub at_frame_length : le_value (slice 64 68 raw) ≡ length e.frame
  pub at_frame : slice 68 (68 + length e.frame) raw ≡ e.frame
  pub at_batch_hash : slice (68 + length e.frame) (68 + length e.frame + 32) raw ≡ e.batch_hash
  pub at_entry_hash : slice (68 + length e.frame + 32) (68 + length e.frame + 64) raw ≡ e.entry_hash
  pub at_marker :
      le_value (slice (68 + length e.frame + 64) (68 + length e.frame + 68) raw) ≡ commit_marker
  pub own_crc : le_value (drop (length raw - 4) raw) ≡ Crc32.checksum (take (length raw - 4) raw)
  pub total : length raw ≡ entry_fixed_bytes + length e.frame
  pub at_least : min_frame_bytes ≤ length e.frame
  pub at_most : length e.frame ≤ max_frame_bytes
  pub batch_hash : e.batch_hash ≡ gateway_batch_sha256 e.frame
  pub entry_hash :
      e.entry_hash
      ≡ wal_entry_hash e.sequence e.previous_entry_hash e.receive_wall_s e.receive_monotonic_us
          e.batch_hash e.frame
  pub is_batch : (b : BatchFrameV1) × (decode_batch_frame e.frame ≡ ok b)

-- The digests have the length of a digest.
length-hashes : (e : WalEntry) → IsEntry e → (length e.batch_hash ≡ 32) × (length e.entry_hash ≡ 32)
unfolding gateway_batch_sha256 wal_entry_hash
length-hashes e h = (
  ap length h.batch_hash ∙ Sha256.length-sum256 _,
  ap length h.entry_hash ∙ Sha256.length-sum256 _,
)

module _ (e : WalEntry) where
  -- The first 32 bytes.
  entry_head : Bytes
  entry_head =
      le_bytes 4 (entry_fixed_bytes + length e.frame)
      ++ (le_bytes 2 entry_version
          ++ (le_bytes 2 0
              ++ (le_bytes 8 e.sequence
                  ++ (le_bytes 8 (u64_of_i64 e.receive_wall_s)
                      ++ le_bytes 8 e.receive_monotonic_us))))

  entry_end : Bytes
  entry_end = le_bytes 4 commit_marker ++ le_bytes 4 (Crc32.checksum (entry_body e))

  entry_layout :
      entry_bytes e
      ≡ entry_head
        ++ (e.previous_entry_hash
            ++ (le_bytes 4 (length e.frame)
                ++ (e.frame ++ (e.batch_hash ++ (e.entry_hash ++ entry_end)))))
  unfolding entry_bytes entry_body entry_head entry_end
  entry_layout = simp append_assoc

  length-entry_head : length entry_head ≡ 32
  unfolding entry_head le_bytes
  length-entry_head = refl

  length-entry_end : length entry_end ≡ 8
  unfolding entry_end le_bytes
  length-entry_end = refl

  pub length-entry_bytes : IsEntry e → length (entry_bytes e) ≡ entry_fixed_bytes + length e.frame
  length-entry_bytes h =
      let (b, c) = length-hashes e h in
      ap length entry_layout
      ∙ omega (
        arith,
        length-append {0},
        length-entry_head,
        length-entry_end,
        length-le_bytes 4 (length e.frame),
        h.previous,
        b,
        c,
      )

  module _ (h : IsEntry e) where
    n : ℕ
    n = length e.frame

    abbrev raw : Bytes
    raw = entry_bytes e

    hashes : (length e.batch_hash ≡ 32) × (length e.entry_hash ≡ 32)
    hashes = length-hashes e h

    -- A field between what stands before it and what stands behind.
    field_at :
        (before field after : Bytes) (a b : ℕ)
        → entry_bytes e ≡ before ++ (field ++ after)
        → a ≡ length before
        → b ≡ a + length field
        → slice a b raw ≡ field
    field_at before field after a b layout ha hb =
        ap (slice a b) layout
        ∙ ap (λ (k : ℕ). take k (drop a (before ++ (field ++ after)))) (omega arith)
        ∙ ap (take (length field)) (drop-append a before _ (sym ha))
        ∙ take-append_length (length field) field after refl

    at_previous : slice 32 64 raw ≡ e.previous_entry_hash
    at_previous =
        field_at entry_head e.previous_entry_hash _ 32 64 entry_layout (sym length-entry_head)
          (omega (arith, h.previous))

    at_frame_length : slice 64 68 raw ≡ le_bytes 4 n
    unfolding n
    at_frame_length =
        field_at (entry_head ++ e.previous_entry_hash) (le_bytes 4 (length e.frame))
          (e.frame ++ (e.batch_hash ++ (e.entry_hash ++ entry_end))) 64 68
          (entry_layout ∙ simp append_assoc)
          (omega (arith, length-append {0}, length-entry_head, h.previous))
          (omega (arith, length-le_bytes 4 (length e.frame)))

    at_frame : slice 68 (68 + n) raw ≡ e.frame
    unfolding n
    at_frame =
        field_at (entry_head ++ (e.previous_entry_hash ++ le_bytes 4 (length e.frame))) e.frame
          (e.batch_hash ++ (e.entry_hash ++ entry_end)) 68 _ (entry_layout ∙ simp append_assoc)
          (omega (
            arith,
            length-append {0},
            length-entry_head,
            h.previous,
            length-le_bytes 4 (length e.frame),
          ))
          refl

    before_hashes : Bytes
    before_hashes =
        entry_head ++ (e.previous_entry_hash ++ (le_bytes 4 (length e.frame) ++ e.frame))

    length-before_hashes : length before_hashes ≡ 68 + n
    unfolding before_hashes n
    length-before_hashes = omega (
      arith,
      length-append {0},
      length-entry_head,
      h.previous,
      length-le_bytes 4 (length e.frame),
    )

    at_batch_hash : slice (68 + n) (68 + n + 32) raw ≡ e.batch_hash
    unfolding before_hashes
    at_batch_hash =
        field_at before_hashes e.batch_hash (e.entry_hash ++ entry_end) _ _
          (entry_layout ∙ simp append_assoc) (sym length-before_hashes) (omega (arith, hashes.0))

    at_entry_hash : slice (68 + n + 32) (68 + n + 64) raw ≡ e.entry_hash
    unfolding before_hashes
    at_entry_hash =
        field_at (before_hashes ++ e.batch_hash) e.entry_hash entry_end _ _
          (entry_layout ∙ simp append_assoc)
          (omega (arith, length-append {0}, length-before_hashes, hashes.0))
          (omega (arith, hashes.1))

    at_marker : slice (68 + n + 64) (68 + n + 68) raw ≡ le_bytes 4 commit_marker
    unfolding before_hashes entry_end
    at_marker =
        field_at (before_hashes ++ (e.batch_hash ++ e.entry_hash)) (le_bytes 4 commit_marker)
          (le_bytes 4 (Crc32.checksum (entry_body e))) _ _ (entry_layout ∙ simp append_assoc)
          (omega (arith, length-append {0}, length-before_hashes, hashes.0, hashes.1))
          (omega (arith, length-le_bytes 4 commit_marker))

    body_end : length raw - 4 ≡ length (entry_body e)
    unfolding entry_bytes
    body_end = omega (arith, length-append {0}, length-le_bytes 4 (Crc32.checksum (entry_body e)))

    at_body : take (length raw - 4) raw ≡ entry_body e
    unfolding entry_bytes
    at_body = take-append_length _ (entry_body e) _ (sym body_end)

    at_crc : le_value (drop (length raw - 4) raw) ≡ Crc32.checksum (entry_body e)
    unfolding entry_bytes
    at_crc =
        ap le_value (drop-append _ (entry_body e) _ (sym body_end))
        ∙ le_value-le_bytes 4 _ (Crc32.checksum-lt (entry_body e))

    small : length e.frame ≤ max_frame_bytes
    small = (batch_frame_bounds e.frame h.is_batch.0 h.is_batch.1).1

    at_head :
        (tail : Bytes)
        → (le_value (slice 0 4 (entry_head ++ tail)) ≡ 140 + n)
          × (le_value (slice 4 6 (entry_head ++ tail)) ≡ 1)
          × (le_value (slice 6 8 (entry_head ++ tail)) ≡ 0)
          × (slice 8 16 (entry_head ++ tail) ≡ le_bytes 8 e.sequence)
          × (slice 16 24 (entry_head ++ tail) ≡ le_bytes 8 (u64_of_i64 e.receive_wall_s))
          × (slice 24 32 (entry_head ++ tail) ≡ le_bytes 8 e.receive_monotonic_us)
    unfolding entry_head le_bytes le_value n
    at_head tail = (omega (arith, small), refl, refl, refl, refl, refl)

    at_fields :
        (le_value (slice 0 4 raw) ≡ 140 + n)
        × (le_value (slice 4 6 raw) ≡ 1)
        × (le_value (slice 6 8 raw) ≡ 0)
        × (slice 8 16 raw ≡ le_bytes 8 e.sequence)
        × (slice 16 24 raw ≡ le_bytes 8 (u64_of_i64 e.receive_wall_s))
        × (slice 24 32 raw ≡ le_bytes 8 e.receive_monotonic_us)
    at_fields = rw entry_layout (at_head _)

    pub fields_of : EntryFields raw e
    unfolding n
    fields_of =
        let (w0, w4, w6, w8, w16, w24) = at_fields in
        let (lo, hi) = batch_frame_bounds e.frame h.is_batch.0 h.is_batch.1 in
        let total : length raw ≡ 140 + length e.frame = length-entry_bytes h in
        record {
          own_length = w0 ∙ sym total;
          own_version = w4;
          own_flags = w6;
          at_sequence = ap le_value w8 ∙ le_value-le_bytes 8 e.sequence h.sequence;
          at_wall =
              ap (λ (b : Bytes). i64_of_u64 (le_value b)) w16
              ∙ ap i64_of_u64
                  (le_value-le_bytes 8 _ (u64_of_i64-lt e.receive_wall_s h.receive_wall_s))
              ∙ i64_of_u64-u64_of_i64 e.receive_wall_s h.receive_wall_s;
          at_monotonic =
              ap le_value w24 ∙ le_value-le_bytes 8 e.receive_monotonic_us h.receive_monotonic_us;
          at_previous = at_previous;
          at_frame_length =
              ap le_value at_frame_length ∙ le_value-le_bytes 4 (length e.frame) (omega arith);
          at_frame = at_frame;
          at_batch_hash = at_batch_hash;
          at_entry_hash = at_entry_hash;
          at_marker = ap le_value at_marker ∙ le_value-le_bytes 4 commit_marker (omega arith);
          own_crc = at_crc ∙ ap Crc32.checksum (sym at_body);
          total = total;
          at_least = lo;
          at_most = hi;
          batch_hash = h.batch_hash;
          entry_hash = h.entry_hash;
          is_batch = h.is_batch;
        }
