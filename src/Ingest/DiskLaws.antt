-- ===== src/Ingest/DiskLaws.antt =====
-- internal/ingest/disk.go: when the gateway may acknowledge.
use utaki_tick_data_platform.Common.{
  ℕ, ◌<◌, ◌≤◌, ◌≡◌, ◌↔◌, ◌⊎◌, Option-cases, if_true, if_false, refl, sym, ap, ◌∙◌, List, [], ◌∷◌,
  Option, none, some, Bool, true, false, not, ◌&&◌, ◌||◌, arith, ok, >>-eq-ok, ltb, leb, ◌==◌,
  Bool-cases, inl, inr,
}
use utaki_tick_data_platform.Ingest.Disk.{
  DiskUsage, DiskState, DiskWatermarks, DiskStateMachine, validate, usable, classify_disk,
  pending_over_limit, observed, refresh, ready_for_ack, is_ready, unavailable_state,
  set_pending_publication, mark_poisoned,
}

-- What a reading has to say for an acknowledgement.
abbrev pub Enough : Option DiskUsage → DiskStateMachine → Type 0
Enough none s = ⊥
Enough (some usage) s =
    (0 < usage.total_bytes)
    × (usage.free_bytes ≤ usage.total_bytes)
    × (s.policy.critical_free_bytes ≤ usage.free_bytes)
    × ((s.policy.max_pending_segments ≡ 0)
        ⊎ ((s.state.pending_segments < s.policy.max_pending_segments)
            × (s.state.pending_bytes < s.policy.max_pending_bytes)))
    × (s.poisoned ≡ false)

pending_iff :
    (w : DiskWatermarks) (segments bytes : ℕ)
    → (pending_over_limit w segments bytes ≡ false) ↔ (
        (w.max_pending_segments ≡ 0)
        ⊎ ((segments < w.max_pending_segments) × (bytes < w.max_pending_bytes)))
unfolding pending_over_limit
pending_iff w segments bytes = (
  λ below. elim (Bool-cases (w.max_pending_segments == 0)) [
    | inl unlimited ↦ inl (ground (arith, unlimited))
    | inr limited ↦ inr (ground (arith, below, limited), ground (arith, below, limited))
  ],
  λ h. elim h [
    | inl unlimited ↦ ground (arith, unlimited)
    | inr (segments_below, bytes_below) ↦ ground (arith, segments_below, bytes_below)
  ],
)

ready_class :
    (free : ℕ) (w : DiskWatermarks)
    → w.critical_free_bytes < w.high_free_bytes
    → is_ready (classify_disk free w) ≡ leb w.critical_free_bytes free
unfolding classify_disk
ready_class free w descending = ground arith

descending : (w : DiskWatermarks) → validate w ≡ ok tt → w.critical_free_bytes < w.high_free_bytes
unfolding validate
descending w valid =
    let (nonzero, h1) = >>-eq-ok _ _ _ valid in
    let (order, h2) = >>-eq-ok _ _ _ h1 in ground (arith, order)

observed_lem :
    (usage : DiskUsage) (s : DiskStateMachine)
    → validate s.policy ≡ ok tt
    → (observed usage s).ack_allowed ≡ (
        leb s.policy.critical_free_bytes usage.free_bytes
        && (not (pending_over_limit s.policy s.state.pending_segments s.state.pending_bytes)
            && not s.poisoned))
unfolding observed
observed_lem usage s valid = rw (ready_class usage.free_bytes s.policy (descending s.policy valid))

refresh_of_none :
    (reading : Option DiskUsage) (s : DiskStateMachine)
    → usable reading ≡ none
    → ((refresh reading s).state ≡ unavailable_state s)
      × ((refresh reading s).poisoned ≡ s.poisoned)
unfolding refresh unavailable_state
refresh_of_none reading s h = (rw (h, refresh), rw (h, refresh))

refresh_of_some :
    (reading : Option DiskUsage) (s : DiskStateMachine) (usage : DiskUsage)
    → usable reading ≡ some usage
    → ((refresh reading s).state ≡ observed usage s) × ((refresh reading s).poisoned ≡ s.poisoned)
unfolding refresh observed
refresh_of_some reading s usage h = (rw (h, refresh), rw (h, refresh))

abbrev senseless : DiskUsage → Bool
senseless usage = usage.total_bytes == 0 || ltb usage.total_bytes usage.free_bytes

ready_reading :
    (usage : DiskUsage) (s : DiskStateMachine)
    → validate s.policy ≡ ok tt
    → (ready_for_ack (some usage) s).0 ≡ (
        not (senseless usage)
        && (leb s.policy.critical_free_bytes usage.free_bytes
            && (not (pending_over_limit s.policy s.state.pending_segments s.state.pending_bytes)
                && not s.poisoned)))
unfolding ready_for_ack usable unavailable_state
ready_reading usage s valid = elim (Bool-cases (senseless usage)) [
  | inl bad ↦
      ap (λ (d : DiskState). d.ack_allowed)
        (refresh_of_none (some usage) s (if_true (senseless usage) none (some usage) bad)).0
      ∙ ground (arith, bad)
  | inr fine ↦
      ap (λ (d : DiskState). d.ack_allowed)
        (refresh_of_some (some usage) s usage (if_false (senseless usage) none (some usage) fine)).0
      ∙ observed_lem usage s valid
      ∙ ground (arith, fine)
]

-- With watermarks that validate, the gateway may acknowledge exactly when the disk usage is known
-- and makes sense, the free space reaches the critical watermark, the log is not poisoned, and the
-- backlog of publications has fewer segments than its limit and fewer bytes than its limit, or no
-- limit on the segments is configured.
pub ready_for_ack_iff :
    (reading : Option DiskUsage) (s : DiskStateMachine)
    → validate s.policy ≡ ok tt
    → ((ready_for_ack reading s).0 ≡ true) ↔ Enough reading s
unfolding ready_for_ack refresh usable unavailable_state
ready_for_ack_iff none s valid = (λ h. cc, λ h. absurd h)
ready_for_ack_iff (some usage) s valid =
    let read = ready_reading usage s valid in
    let backlog = pending_iff s.policy s.state.pending_segments s.state.pending_bytes in
    (
      λ h.
          let k = sym read ∙ h in
          (
            ground (arith, k),
            ground (arith, k),
            ground (arith, k),
            backlog.0 (ground (arith, k)),
            ground (arith, k),
          ),
      λ h.
          let (present, sensible, free, below, sound) = h in
          read ∙ ground (arith, present, sensible, free, backlog.1 below, sound),
    )

-- What happens to the state machine from outside, each with its reading of the disk.
pub data DiskEvent : Type 0 where
  refreshed : Option DiskUsage → DiskEvent
  pending_set : ℕ → ℕ → Option DiskUsage → DiskEvent
  poisoned_marked : Option DiskUsage → DiskEvent

abbrev pub step : DiskEvent → DiskStateMachine → DiskStateMachine
step (refreshed reading) s = refresh reading s
step (pending_set segments bytes reading) s = set_pending_publication segments bytes reading s
step (poisoned_marked reading) s = mark_poisoned reading s

abbrev pub steps : List DiskEvent → DiskStateMachine → DiskStateMachine
steps [] s = s
steps (event ∷ events) s = steps events (step event s)

abbrev pub IsStopped : DiskStateMachine → Type 0
IsStopped s = (s.poisoned ≡ true) × (s.state.ack_allowed ≡ false)

pub refresh-IsStopped :
    (reading : Option DiskUsage) (s : DiskStateMachine)
    → s.poisoned ≡ true
    → IsStopped (refresh reading s)
unfolding unavailable_state observed
refresh-IsStopped reading s h = elim (Option-cases (usable reading)) [
  | inl unknown ↦
      let (state, still) = refresh_of_none reading s unknown in
      (still ∙ h, ap (λ (d : DiskState). d.ack_allowed) state)
  | inr (usage, known) ↦
      let (state, still) = refresh_of_some reading s usage known in
      (still ∙ h, ap (λ (d : DiskState). d.ack_allowed) state ∙ ground (arith, h))
]

step-IsStopped :
    (event : DiskEvent) (s : DiskStateMachine) → s.poisoned ≡ true → IsStopped (step event s)
unfolding set_pending_publication mark_poisoned
step-IsStopped (refreshed reading) s h = refresh-IsStopped reading s h
step-IsStopped (pending_set segments bytes reading) s h = refresh-IsStopped reading _ h
step-IsStopped (poisoned_marked reading) s h = refresh-IsStopped reading _ refl

steps-IsStopped :
    (events : List DiskEvent) (s : DiskStateMachine) → IsStopped s → IsStopped (steps events s)
steps-IsStopped [] s h = h
steps-IsStopped (event ∷ events) s (poisoned, stopped) =
    steps-IsStopped events _ (step-IsStopped event s poisoned)

-- Once the log is marked as poisoned no reading of the disk, no backlog measurement and no sequence
-- of them allows an acknowledgement, until the poisoning is cleared explicitly.
pub mark_poisoned-IsStopped :
    (s : DiskStateMachine) (reading : Option DiskUsage) (events : List DiskEvent)
    → (steps events (mark_poisoned reading s)).state.ack_allowed ≡ false
unfolding mark_poisoned
mark_poisoned-IsStopped s reading events =
    (steps-IsStopped events _ (refresh-IsStopped reading (record s { poisoned = true }) refl)).1
