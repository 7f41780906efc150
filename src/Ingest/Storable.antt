-- ===== src/Ingest/Storable.antt =====
-- outcomeForBatch of internal/ingest/cursor.go against the columns of the journal's rows.
use utaki_tick_data_platform.Common.{
  ℕ, ◌^◌, ◌<◌, ◌≡◌, List, [], ◌∷◌, not, ◌&&◌, ◌||◌, ok, >>-eq-ok, Bytes, ℤ, pos, length, ltb, leb,
  ltℤ, ◌==ℤ◌, if_elim, if◌then◌else◌, arith, i32_of_u32,
}
use utaki_tick_data_platform.Golib.Sha256
use utaki_tick_data_platform.Protocol.{BatchFrameV1, RawMqlTickV1}
use utaki_tick_data_platform.Protocol.Hashes.{boundary_digest}
use utaki_tick_data_platform.Journal.{State, Outcome, Store, read_state}
use utaki_tick_data_platform.Ingest.Config.{Config, with_defaults, validate}
use utaki_tick_data_platform.Ingest.Cursor.{
  max_msc, unchanged, advanced, doubled, dense, at_boundary, outcome_at, outcome_of,
  outcome_for_batch,
}
use utaki_tick_data_platform.Ingest.CursorLaws.{InOrder, validate-InOrder}

-- The values that the columns of a row are read back as.
pub record IsStorable (outcome : Outcome) : Type 0 where
  pub digest : length outcome.committed_boundary_digest ≡ 32
  pub status : outcome.status < 256
  pub count : outcome.next_requested_count < 2 ^ 32

length-boundary_digest :
    (cursor : ℤ) (previous : Bytes) (rs : List RawMqlTickV1)
    → length (boundary_digest cursor previous rs) ≡ 32
unfolding boundary_digest
length-boundary_digest cursor previous rs = Sha256.length-sum256 _

module _ (c : Config) (order : InOrder c) (state : State)
    (digest : length state.committed_boundary_digest ≡ 32)
    (count : state.next_requested_count < 2 ^ 32) where
  unchanged-IsStorable : IsStorable (unchanged state c)
  unfolding unchanged
  unchanged-IsStorable = record {
    digest = digest;
    status = omega arith;
    count = ground (arith, order.0, order.1, order.2, count);
  }

  doubled-lt : (current : ℕ) → doubled current c < 2 ^ 32
  unfolding doubled
  doubled-lt current = ground (arith, order.0, order.1, order.2)

  dense-IsStorable : (requested : ℕ) → IsStorable (dense requested (unchanged state c) state c)
  unfolding dense unchanged
  dense-IsStorable requested =
      let asked : ℕ =
        if ltb (unchanged state c).next_requested_count requested
        then requested
        else (unchanged state c).next_requested_count in
      if_elim IsStorable (leb c.dense_boundary_hard_cap asked)
        (λ capped. record {
          digest = digest;
          status = omega arith;
          count = omega (arith, order.0, order.1, order.2);
        })
        (λ small. record { digest = digest; status = omega arith; count = doubled-lt asked })

  outcome_at-IsStorable :
      (max : ℤ) (batch : BatchFrameV1) → IsStorable (outcome_at max state batch c)
  unfolding outcome_at advanced at_boundary unchanged
  outcome_at-IsStorable max batch =
      if_elim IsStorable (ltℤ state.committed_cursor_msc max)
        (λ later. record {
          digest = length-boundary_digest _ _ _;
          status = omega arith;
          count = omega (arith, order.0, order.1, order.2);
        })
        (λ same.
          if_elim IsStorable (ltℤ max state.committed_cursor_msc) (λ before. unchanged-IsStorable)
            (λ equal.
              if_elim IsStorable
                (ltb 0 batch.requested_count
                  && batch.returned_count ==ℤ i32_of_u32 batch.requested_count)
                (λ full. dense-IsStorable batch.requested_count)
                (λ few. record {
                  digest = length-boundary_digest _ _ _;
                  status = omega arith;
                  count = omega (arith, order.0, order.1, order.2);
                })))

  outcome_of-IsStorable :
      (rs : List RawMqlTickV1) (batch : BatchFrameV1) → IsStorable (outcome_of rs state batch c)
  unfolding outcome_of
  outcome_of-IsStorable [] batch = unchanged-IsStorable
  outcome_of-IsStorable (r ∷ rs) batch =
      if_elim IsStorable
        (not (batch.copy_ticks_error ==ℤ pos 0) || ltℤ batch.returned_count (pos 0))
        (λ failed. unchanged-IsStorable)
        (λ fine. outcome_at-IsStorable (max_msc r.time_msc rs) batch)

-- The outcome of a batch fits the columns where the state was read from them.
pub outcome_for_batch-IsStorable :
    (store : Store) (batch : BatchFrameV1) (config : Config)
    → read_state store ≡ ok store.state
    → validate config ≡ ok tt
    → IsStorable (outcome_for_batch store.state batch config)
unfolding outcome_for_batch read_state
outcome_for_batch-IsStorable store batch config readable valid =
    let (fits, same) = >>-eq-ok _ _ _ readable in
    outcome_of-IsStorable (with_defaults config) (validate-InOrder config valid) store.state
      (ground (arith, fits)) (ground (arith, fits)) batch.records batch
