-- ===== src/Ingest/CursorLaws.antt =====
-- internal/ingest/cursor.go: the cursor and the next requested count that outcomeForBatch leaves.
use utaki_tick_data_platform.Common.{
  ℕ, ◌≤◌, ◌≡◌, sym, ap, ◌∙◌, List, [], ◌∷◌, Bool, false, not, ◌||◌, arith, ℤ, pos, ltℤ, ◌≤ℤ◌,
  ≤ℤ_refl, <→≤ℤ, ≤ℤ_trans, subst, ◌==ℤ◌, ◌==◌, ok, >>-eq-ok, >>=-eq-ok, All, Bool-cases, inl, inr,
  if_true, if_false,
}
use utaki_tick_data_platform.Protocol.{
  BatchFrameV1, RawMqlTickV1, ack_accepted_advanced, max_records,
}
use utaki_tick_data_platform.Journal.{State, Outcome}
use utaki_tick_data_platform.Ingest.Config.{
  Config, with_defaults, validate, validate_defaulted, counts_in_order,
}
use utaki_tick_data_platform.Ingest.Cursor.{
  max_msc, unchanged, advanced, doubled, dense, at_boundary, outcome_at, outcome_of,
  outcome_for_batch,
}

-- The maximum is at least the first time and the time of every record.
max-first : (max : ℤ) (rs : List RawMqlTickV1) → max ≤ℤ max_msc max rs
unfolding max_msc
max-first max [] = ≤ℤ_refl max
max-first max (r ∷ rs) = elim (Bool-cases (ltℤ max r.time_msc)) [
  | inl later ↦
      subst (λ (m : ℤ). max ≤ℤ max_msc m rs)
        (sym (if_true (ltℤ max r.time_msc) r.time_msc max later))
        (≤ℤ_trans max r.time_msc _ (<→≤ℤ max r.time_msc later) (max-first r.time_msc rs))
  | inr other ↦
      subst (λ (m : ℤ). max ≤ℤ max_msc m rs)
        (sym (if_false (ltℤ max r.time_msc) r.time_msc max other)) (max-first max rs)
]

abbrev pub UpTo : ℤ → RawMqlTickV1 → Type 0
UpTo bound r = r.time_msc ≤ℤ bound

max-All : (max : ℤ) (rs : List RawMqlTickV1) → All (UpTo (max_msc max rs)) rs
unfolding max_msc
max-All max [] = tt
max-All max (r ∷ rs) = elim (Bool-cases (ltℤ max r.time_msc)) [
  | inl later ↦
      subst (λ (m : ℤ). UpTo (max_msc m rs) r × All (UpTo (max_msc m rs)) rs)
        (sym (if_true (ltℤ max r.time_msc) r.time_msc max later))
        (max-first r.time_msc rs, max-All r.time_msc rs)
  | inr other ↦
      subst (λ (m : ℤ). UpTo (max_msc m rs) r × All (UpTo (max_msc m rs)) rs)
        (sym (if_false (ltℤ max r.time_msc) r.time_msc max other))
        (≤ℤ_trans r.time_msc max _ other (max-first max rs), max-All max rs)
]

All-weaken : (a b : ℤ) → a ≤ℤ b → (rs : List RawMqlTickV1) → All (UpTo a) rs → All (UpTo b) rs
All-weaken a b h [] all = tt
All-weaken a b h (r ∷ rs) (first, all) = (≤ℤ_trans r.time_msc a b first h, All-weaken a b h rs all)

-- The cursor of an outcome is not before that of the state, and its status says whether it is after.
abbrev pub Forward : State → Outcome → Type 0
Forward state outcome =
    (state.committed_cursor_msc ≤ℤ outcome.committed_cursor_msc)
    × ((outcome.status == ack_accepted_advanced)
        ≡ ltℤ state.committed_cursor_msc outcome.committed_cursor_msc)

-- What each branch leaves of the cursor: it advances to the maximum, or stays and covers it.
module _ (state : State) (batch : BatchFrameV1) (config : Config) (max : ℤ) where
  abbrev result : Outcome
  result = outcome_at max state batch config

  outcome_at_lem :
      (state.committed_cursor_msc ≤ℤ result.committed_cursor_msc)
      × (max ≤ℤ result.committed_cursor_msc)
      × ((result.status == ack_accepted_advanced)
          ≡ ltℤ state.committed_cursor_msc result.committed_cursor_msc)
  unfolding outcome_at advanced unchanged dense at_boundary
  outcome_at_lem =
      ground (
        arith,
        ≤ℤ_refl state.committed_cursor_msc,
        ≤ℤ_refl max,
        <→≤ℤ state.committed_cursor_msc max,
      )

-- A batch that the source marks as failed, and one with no records, leaves the cursor.
unchanged_lem : (state : State) (config : Config) → Forward state (unchanged state config)
unfolding unchanged
unchanged_lem state config = ground (arith, ≤ℤ_refl state.committed_cursor_msc)

abbrev failed : BatchFrameV1 → Bool
failed batch = not (batch.copy_ticks_error ==ℤ pos 0) || ltℤ batch.returned_count (pos 0)

of_records :
    (rs : List RawMqlTickV1) (state : State) (batch : BatchFrameV1) (config : Config)
    → Forward state (outcome_of rs state batch config)
unfolding outcome_of
of_records [] state batch config = unchanged_lem state config
of_records (r ∷ rs) state batch config =
    let (forward, covered, status) = outcome_at_lem state batch config (max_msc r.time_msc rs) in
    let still = unchanged_lem state config in
    elim (Bool-cases (failed batch)) [
      | inl bad ↦
          subst (Forward state)
            (sym (
              if_true (failed batch) (unchanged state config)
                (outcome_at (max_msc r.time_msc rs) state batch config) bad))
            still
      | inr fine ↦
          subst (Forward state)
            (sym (
              if_false (failed batch) (unchanged state config)
                (outcome_at (max_msc r.time_msc rs) state batch config) fine))
            (forward, status)
    ]

covers_records :
    (rs : List RawMqlTickV1) (state : State) (batch : BatchFrameV1) (config : Config)
    → failed batch ≡ false
    → All (UpTo (outcome_of rs state batch config).committed_cursor_msc) rs
unfolding outcome_of
covers_records [] state batch config fine = tt
covers_records (r ∷ rs) state batch config fine =
    let (forward, covered, status) = outcome_at_lem state batch config (max_msc r.time_msc rs) in
    let outcome =
      if_false (failed batch) (unchanged state config)
        (outcome_at (max_msc r.time_msc rs) state batch config) fine in
    subst (λ (o : Outcome). All (UpTo o.committed_cursor_msc) (r ∷ rs)) (sym outcome)
      (
        ≤ℤ_trans _ _ _ (max-first r.time_msc rs) covered,
        All-weaken _ _ covered rs (max-All r.time_msc rs),
      )

no_failure :
    (code count : ℤ)
    → code ≡ pos 0
    → pos 0 ≤ℤ count
    → (not (code ==ℤ pos 0) || ltℤ count (pos 0)) ≡ false
unfolding ◌==ℤ◌
no_failure code count no_error returned =
    ap (λ (c : ℤ). not (c ==ℤ pos 0) || ltℤ count (pos 0)) no_error ∙ returned

-- Accepting a batch never moves the committed cursor back, and the status says that the cursor was
-- advanced exactly when the new cursor is after the old one.
pub outcome_for_batch-Forward :
    (state : State) (batch : BatchFrameV1) (config : Config)
    → Forward state (outcome_for_batch state batch config)
unfolding outcome_for_batch
outcome_for_batch-Forward state batch config =
    of_records batch.records state batch (with_defaults config)

-- Of a batch that CopyTicks returned without an error, no record is later than the committed cursor
-- that the batch leaves.
pub outcome_for_batch-covers :
    (state : State) (batch : BatchFrameV1) (config : Config)
    → batch.copy_ticks_error ≡ pos 0
    → pos 0 ≤ℤ batch.returned_count
    → All (UpTo (outcome_for_batch state batch config).committed_cursor_msc) batch.records
unfolding outcome_for_batch
outcome_for_batch-covers state batch config no_error returned =
    covers_records batch.records state batch (with_defaults config)
      (no_failure batch.copy_ticks_error batch.returned_count no_error returned)

abbrev pub InOrder : Config → Type 0
InOrder c =
    (1 ≤ c.initial_batch_count)
    × (c.initial_batch_count ≤ c.dense_boundary_hard_cap)
    × (c.dense_boundary_hard_cap ≤ max_records)

counts_in_order-InOrder : (c : Config) → counts_in_order c ≡ ok tt → InOrder c
unfolding counts_in_order
counts_in_order-InOrder c h =
    let (records, h1) = >>-eq-ok _ _ _ h in
    let (initial, h2) = >>-eq-ok _ _ _ h1 in
    let (maximum, h3) = >>-eq-ok _ _ _ h2 in
    let (cap, h4) = >>-eq-ok _ _ _ h3 in
    (ground (arith, initial), ground (arith, cap), ground (arith, cap, maximum, records))

pub validate-InOrder : (c : Config) → validate c ≡ ok tt → InOrder (with_defaults c)
unfolding validate validate_defaulted
validate-InOrder c h =
    let (location, h1) = >>-eq-ok _ _ _ h in
    let (id, h2) = >>-eq-ok _ _ _ h1 in
    let (frame, h3) = >>-eq-ok _ _ _ h2 in
    let (done, counts, h4) = >>=-eq-ok (counts_in_order (with_defaults c)) _ h3 in
    counts_in_order-InOrder (with_defaults c) counts

abbrev pub InCap : Config → Outcome → Type 0
InCap c outcome =
    (1 ≤ outcome.next_requested_count) × (outcome.next_requested_count ≤ c.dense_boundary_hard_cap)

module _ (c : Config) (order : InOrder c) (state : State)
    (small : state.next_requested_count ≤ c.dense_boundary_hard_cap) where
  unchanged-InCap : InCap c (unchanged state c)
  unfolding unchanged
  unchanged-InCap = ground (arith, order.0, order.1, order.2, small)

  dense-InCap : (requested : ℕ) → InCap c (dense requested (unchanged state c) state c)
  unfolding dense doubled
  dense-InCap requested =
      let (least, most) = unchanged-InCap in ground (arith, order.0, order.1, order.2, least, most)

  outcome_at-InCap : (max : ℤ) (batch : BatchFrameV1) → InCap c (outcome_at max state batch c)
  unfolding outcome_at advanced at_boundary
  outcome_at-InCap max batch =
      let (least, most) = unchanged-InCap in
      let (dense_least, dense_most) = dense-InCap batch.requested_count in
      ground (arith, order.0, order.1, least, most, dense_least, dense_most)

  outcome_of-InCap :
      (rs : List RawMqlTickV1) (batch : BatchFrameV1) → InCap c (outcome_of rs state batch c)
  unfolding outcome_of
  outcome_of-InCap [] batch = unchanged-InCap
  outcome_of-InCap (r ∷ rs) batch =
      let (least, most) = unchanged-InCap in
      let (at_least, at_most) = outcome_at-InCap (max_msc r.time_msc rs) batch in
      ground (arith, least, most, at_least, at_most)

-- Under a configuration that validates, and from a state within the cap, a batch leaves at least one
-- record to ask for next and at most the dense boundary's hard cap, whatever count the batch asked
-- for: the doubling does not overflow.
pub outcome_for_batch-InCap :
    (state : State) (batch : BatchFrameV1) (config : Config)
    → validate config ≡ ok tt
    → state.next_requested_count ≤ (with_defaults config).dense_boundary_hard_cap
    → InCap (with_defaults config) (outcome_for_batch state batch config)
unfolding outcome_for_batch
outcome_for_batch-InCap state batch config valid small =
    outcome_of-InCap (with_defaults config) (validate-InOrder config valid) state small
      batch.records batch
