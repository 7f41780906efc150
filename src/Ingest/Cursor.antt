-- ===== src/Ingest/Cursor.antt =====
-- internal/ingest/cursor.go: what an accepted batch does to the cursor.
use utaki_tick_data_platform.Common.{
  ℕ, ◌*◌, ◌^◌, ◌%◌, List, [], ◌∷◌, not, ◌&&◌, ◌||◌, ℤ, pos, ltb, leb, ◌==◌, ◌==ℤ◌, ltℤ, i32_of_u32,
  if◌then◌else◌,
}
use utaki_tick_data_platform.Protocol.{
  BatchFrameV1, RawMqlTickV1, ack_accepted_advanced, ack_accepted_no_advance, ack_dense_boundary,
  ack_dense_unresolved,
}
use utaki_tick_data_platform.Protocol.Hashes.{boundary_digest}
use utaki_tick_data_platform.Journal.{State, Outcome, zero_digest}
use utaki_tick_data_platform.Ingest.Config.{Config, with_defaults}

unfoldable pub boundary_records : List RawMqlTickV1 → ℤ → List RawMqlTickV1
boundary_records [] cursor_msc = []
boundary_records (r ∷ rs) cursor_msc =
    let rest = boundary_records rs cursor_msc in
    if r.time_msc ==ℤ cursor_msc then r ∷ rest else rest

unfoldable pub max_msc : ℤ → List RawMqlTickV1 → ℤ
max_msc max [] = max
max_msc max (r ∷ rs) = max_msc (if ltℤ max r.time_msc then r.time_msc else max) rs

-- The outcome of a batch that shows nothing.
unfoldable pub unchanged : State → Config → Outcome
unchanged state config = record {
  status = ack_accepted_no_advance;
  committed_cursor_msc = state.committed_cursor_msc;
  committed_boundary_digest = state.committed_boundary_digest;
  next_from_msc =
      if state.next_from_msc ==ℤ pos 0 && not (state.committed_cursor_msc ==ℤ pos 0)
      then state.committed_cursor_msc
      else state.next_from_msc;
  next_requested_count =
      if state.next_requested_count == 0
      then config.initial_batch_count
      else state.next_requested_count;
}

unfoldable pub advanced : ℤ → List RawMqlTickV1 → Config → Outcome
advanced max records config = record {
  status = ack_accepted_advanced;
  committed_cursor_msc = max;
  committed_boundary_digest = boundary_digest max zero_digest (boundary_records records max);
  next_from_msc = max;
  next_requested_count = config.initial_batch_count;
}

-- Doubling in uint32.
unfoldable pub doubled : ℕ → Config → ℕ
doubled current config =
    let next = (current * 2) % 2 ^ 32 in
    if ltb next current || ltb config.dense_boundary_hard_cap next
    then config.dense_boundary_hard_cap
    else next

-- A full batch whose last millisecond is the cursor.
unfoldable pub dense : ℕ → Outcome → State → Config → Outcome
dense requested outcome state config =
    let current =
      if ltb outcome.next_requested_count requested
      then requested
      else outcome.next_requested_count in
    if leb config.dense_boundary_hard_cap current
    then record outcome {
      status = ack_dense_unresolved;
      next_requested_count = config.dense_boundary_hard_cap;
      next_from_msc = state.committed_cursor_msc;
    }
    else record outcome {
      status = ack_dense_boundary;
      next_requested_count = doubled current config;
      next_from_msc = state.committed_cursor_msc;
    }

unfoldable pub at_boundary : List RawMqlTickV1 → Outcome → State → Config → Outcome
at_boundary records outcome state config = record outcome {
  committed_boundary_digest =
      boundary_digest state.committed_cursor_msc state.committed_boundary_digest
        (boundary_records records state.committed_cursor_msc);
  next_requested_count = config.initial_batch_count;
  next_from_msc = state.committed_cursor_msc;
}

-- Behind the call of withDefaults; the records are those of a batch without an error.
unfoldable pub outcome_at : ℤ → State → BatchFrameV1 → Config → Outcome
outcome_at max state batch config =
    let outcome = unchanged state config in
    if ltℤ state.committed_cursor_msc max
    then advanced max batch.records config
    else if ltℤ max state.committed_cursor_msc
    then outcome
    else if ltb 0 batch.requested_count && batch.returned_count ==ℤ i32_of_u32 batch.requested_count
    then dense batch.requested_count outcome state config
    else at_boundary batch.records outcome state config

unfoldable pub outcome_of : List RawMqlTickV1 → State → BatchFrameV1 → Config → Outcome
outcome_of [] state batch config = unchanged state config
outcome_of (r ∷ rs) state batch config =
    if not (batch.copy_ticks_error ==ℤ pos 0) || ltℤ batch.returned_count (pos 0)
    then unchanged state config
    else outcome_at (max_msc r.time_msc rs) state batch config

unfoldable pub outcome_for_batch : State → BatchFrameV1 → Config → Outcome
outcome_for_batch state batch config = outcome_of batch.records state batch (with_defaults config)
