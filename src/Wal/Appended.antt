-- ===== src/Wal/Appended.antt =====
-- internal/wal/wal.go: what a call of Append does to the store, on each of its branches.
use utaki_tick_data_platform.Common.{
  ℕ, ◌+◌, ◌-◌, ◌%◌, ◌^◌, ◌≡◌, ◌++◌, [], ◌∷◌, ok, err, true, false, not, ◌||◌, Result, Bytes, ℤ,
  length, ltb, if_elim, option_elim, result_elim, Option, arith, some,
}
use utaki_tick_data_platform.Protocol.{min_frame_bytes, max_frame_bytes}
use utaki_tick_data_platform.Wal.{WalEntry, WalError, entry_fixed_bytes}
use utaki_tick_data_platform.Wal.Entry.{new_entry, entry_bytes, entry_body, decode_batch_frame}
use utaki_tick_data_platform.Wal.Store.{Store, AppendIo, append_open, append_batch, append}

-- The result and the store after a whole append, for the entry that is returned.
abbrev pub written : Bytes → WalEntry → Store → Result WalError WalEntry × Store
written before entry s = (
  ok entry,
  record s {
    file = some (before ++ entry_bytes entry);
    entries = s.entries ++ (entry ∷ []);
    last = entry.entry_hash;
    next = (s.next + 1) % 2 ^ 64;
    file_bytes = s.sealed_bytes + length (before ++ entry_bytes entry);
  },
)

-- The entry that is returned for a frame.
abbrev pub appended_entry : Bytes → Bytes → ℤ → ℕ → Store → WalEntry
appended_entry before frame wall monotonic s =
    let made = new_entry 0 s.next s.last wall monotonic frame in
    record made {
      offset = length (before ++ entry_bytes made) - (entry_fixed_bytes + length frame);
    }

-- What holds of every failure and of a whole append holds of the call.
module _ (io : AppendIo) (frame : Bytes) (wall : ℤ) (monotonic : ℕ) (s : Store)
    (P : Result WalError WalEntry × Store → Type 0) (refused : (e : WalError) → P (err e, s))
    (stopped : (e : WalError) (content : Option Bytes)
      → P (err e, record s { file = content; poisoned = true }))
    (whole : (before : Bytes)
      → s.file ≡ some before
      → s.poisoned ≡ false
      → io.sync ≡ true
      → P (written before (appended_entry before frame wall monotonic s) s)) where
  at_write :
      (before : Bytes)
      → s.file ≡ some before
      → s.poisoned ≡ false
      → P (append_open io frame wall monotonic before s)
  unfolding append_open entry_bytes entry_body
  at_write before content sound =
      option_elim P io.write
        (λ all.
          if_elim P (not io.sync) (λ lost. stopped _ _)
            (λ synced.
              if_elim P (not io.stat) (λ lost. stopped _ _)
                (λ known. whole before content sound (ground arith))))
        (λ n cut. stopped _ _)

  at_file : P (append_batch io frame wall monotonic s)
  unfolding append_batch
  at_file =
      option_elim P s.file (λ closed. refused _)
        (λ before content.
          if_elim P s.poisoned (λ poisoned. refused _) (λ sound. at_write before content sound))

  pub append-either : P (append io frame wall monotonic s)
  unfolding append
  append-either =
      result_elim P (decode_batch_frame frame) (λ e bad. refused e)
        (λ message good.
          if_elim P (ltb (length frame) min_frame_bytes || ltb max_frame_bytes (length frame))
            (λ out. refused _) (λ fits. at_file))
