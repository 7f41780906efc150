-- ===== src/Journal/Tests.antt =====
-- A concrete journal, and the theorem on its rows at it.
use utaki_tick_data_platform.Common.{
  [], ◌∷◌, pos, ◌≡◌, refl, ok, true, false, some, bytes_eq, require, ◌>>=◌,
}
use utaki_tick_data_platform.Protocol.Tests.{sample_batch}
use utaki_tick_data_platform.Wal.{WalEntry}
use utaki_tick_data_platform.Journal.{
  Store, Outcome, Batch, zero_digest, initial_state, sqlite_int, new_row, find_row, is_row,
  conflicts, next_state, apply,
}
use utaki_tick_data_platform.Journal.Laws.{IsIndexed, apply-find_row}

abbrev entry : WalEntry
entry = record {
  offset = 32;
  sequence = 4;
  receive_wall_s = pos 1_700_000_002;
  receive_monotonic_us = 55;
  previous_entry_hash = zero_digest;
  frame = 1 ∷ 2 ∷ [];
  batch_hash = zero_digest;
  entry_hash = zero_digest;
}

abbrev outcome : Outcome
outcome = record {
  status = 1;
  committed_cursor_msc = pos 1_700_000_000_123;
  committed_boundary_digest = zero_digest;
  next_from_msc = pos 1_700_000_000_123;
  next_requested_count = 128;
}

-- The row of batch 8 of the same session.
abbrev old_row : Batch
old_row = record {
  producer_session_id = b's' ∷ [];
  batch_sequence = 8;
  gateway_batch_sha256 = zero_digest;
  gateway_ingest_sequence = 3;
  status = 2;
  committed_cursor_msc = pos 0;
  committed_boundary_digest = zero_digest;
  next_from_msc = pos 0;
  next_requested_count = 128;
  frame = 1 ∷ [];
}

abbrev before : Store
before = record {
  gateway_id = b'g' ∷ [];
  initial_from_msc = pos 0;
  initial_count = 128;
  state = initial_state (b'g' ∷ []) (pos 0) 128 (pos 1_700_000_000);
  batches = old_row ∷ [];
}

abbrev row : Batch
row = new_row entry sample_batch outcome

abbrev after : Store
after = record before {
  state = next_state entry outcome (pos 1_700_000_003) before.state;
  batches = row ∷ old_row ∷ [];
}

applied : apply true (pos 1_700_000_003) entry sample_batch outcome before ≡ ok (row, after)
unfolding apply sqlite_int conflicts bytes_eq require ◌>>=◌
applied = refl

before-IsIndexed : IsIndexed before.batches
unfolding find_row bytes_eq
before-IsIndexed = (refl, tt)

other_key : is_row (b's' ∷ []) 8 row ≡ false
unfolding new_row bytes_eq
other_key = refl

apply-find_row_example :
    IsIndexed after.batches
    × (find_row (b's' ∷ []) 9 after.batches ≡ some row)
    × (find_row (b's' ∷ []) 8 after.batches ≡ find_row (b's' ∷ []) 8 before.batches)
apply-find_row_example =
    apply-find_row true (pos 1_700_000_003) entry sample_batch outcome before after row (b's' ∷ [])
      8 applied before-IsIndexed other_key
