-- ===== src/Ingest/Rebuilt.antt =====
-- reconcileJournal of internal/ingest/gateway.go: the journal after it has been rebuilt from the log.
use utaki_tick_data_platform.Common.{
  ◌≡◌, refl, sym, ap, ◌∙◌, subst, List, [], ◌∷◌, Bool, true, false, not, Result, ok, err, >>=-eq-ok,
  >>-eq-ok, >>=_of_ok, map_err, map_err-eq-ok, ℤ, pos, ltb, length, ◌==◌, if_true, if_false,
  failed_call, result_elim, Bool-cases, inl, inr, ◌⊎◌, arith,
}
use utaki_tick_data_platform.Protocol.{BatchFrameV1}
use utaki_tick_data_platform.Wal.{WalEntry}
use utaki_tick_data_platform.Wal.Store
use utaki_tick_data_platform.Journal.{
  State, Outcome, Batch, JournalError, zero_digest, read_state, lookup, count, apply, reset,
  next_state, initial_state,
}
use utaki_tick_data_platform.Journal
use utaki_tick_data_platform.Journal.Laws.{apply-eq-ok}
use utaki_tick_data_platform.Ingest.Config.{Config}
use utaki_tick_data_platform.Ingest.Cursor.{outcome_for_batch}
use utaki_tick_data_platform.Ingest.Session.{GatewayError}
use utaki_tick_data_platform.Ingest.Reconcile.{
  ReconcileIo, decode_wal_entry, expected_at_start, expected_after, journal_matches_wal,
  rebuild_entry, rebuild_entries, rebuild, unless_matches, reconcile_journal,
}
use utaki_tick_data_platform.Ingest.Replay.{
  timeless, replay, outcome_for_batch-timeless, timeless-next_state, Replays, read_state-eq-ok,
  journal_matches_wal-Replays,
}

-- A round of the rebuilding applies the outcome of the entry's batch.
rebuild_entry-eq-ok :
    (io : ReconcileIo) (config : Config) (e : WalEntry) (store next : Journal.Store)
    → rebuild_entry io config e store ≡ ok next
    → (batch : BatchFrameV1) × (decode_wal_entry e ≡ ok batch)
      × (timeless next.state
          ≡ expected_after e
              (outcome_for_batch (timeless store.state) batch config)
              (timeless store.state))
unfolding rebuild_entry
rebuild_entry-eq-ok io config e store next h =
    let (batch, decoded, h1) = >>=-eq-ok (decode_wal_entry e) _ h in
    let (state, read, h2) = >>=-eq-ok (map_err GatewayError.journal (read_state store)) _ h1 in
    let (applied, wrote, h3) =
      >>=-eq-ok
        (map_err GatewayError.journal
          (apply (io.committed e) (io.now e) e batch (outcome_for_batch state batch config) store))
        _ h2 in
    let outcome = outcome_for_batch state batch config in
    let current = read_state-eq-ok store state (map_err-eq-ok GatewayError.journal _ _ read) in
    let (free, row, tables) =
      apply-eq-ok (io.committed e) (io.now e) e batch outcome store applied.1 applied.0
        (map_err-eq-ok GatewayError.journal _ _ wrote) in
    let same : next ≡ applied.1 = cc in
    (
      batch,
      decoded,
      ap (λ (j : Journal.Store). timeless j.state) (same ∙ tables)
          ∙ timeless-next_state e outcome (io.now e) store.state
          ∙ ap (λ (o : Outcome). expected_after e o (timeless store.state))
              (ap (λ (u : State). outcome_for_batch u batch config) current
                ∙ sym (outcome_for_batch-timeless store.state batch config)),
    )

-- A rebuilt journal goes on from the state it had.
rebuild_entries-replay :
    (io : ReconcileIo) (config : Config) (es : List WalEntry) (store store' : Journal.Store)
    → rebuild_entries io config es store ≡ (ok tt, store')
    → replay config es (timeless store.state) ≡ ok (timeless store'.state)
unfolding rebuild_entries replay
rebuild_entries-replay io config [] store store' h =
    let same : store ≡ store' =
      ap (λ (p : Result GatewayError (Unit {0}) × Journal.Store). p.1) h in
    ap (λ (j : Journal.Store). ok (timeless j.state)) same
rebuild_entries-replay io config (e ∷ es) store store' h =
    result_elim
      (λ (r : Result GatewayError (Unit {0}) × Journal.Store).
        r ≡ (ok tt, store')
        → replay config (e ∷ es) (timeless store.state) ≡ ok (timeless store'.state))
      (rebuild_entry io config e store) (λ x failed k. failed_call k)
      (λ next round rest.
        let (batch, decoded, step) = rebuild_entry-eq-ok io config e store next round in
        >>=_of_ok _ decoded
        ∙ ap (replay config es) (sym step)
        ∙ rebuild_entries-replay io config es next store' rest)
      h

reset-eq-ok :
    (committed : Bool) (now : ℤ) (store empty : Journal.Store)
    → reset committed now store ≡ ok empty
    → empty.state ≡ initial_state store.gateway_id store.initial_from_msc store.initial_count now
unfolding reset
reset-eq-ok committed now store empty h =
    let (done, same) = >>-eq-ok committed _ _ h in
    let written : record store {
      state = initial_state store.gateway_id store.initial_from_msc store.initial_count now;
      batches = [];
    }
        ≡ empty =
      cc in
    sym (ap (λ (j : Journal.Store). j.state) written)

-- The journal belongs to the gateway that is configured.
abbrev pub BelongsTo : Config → Journal.Store → Type 0
BelongsTo config store =
    (store.gateway_id ≡ config.gateway_instance_id)
    × (store.initial_from_msc ≡ config.initial_from_msc)
    × (store.initial_count ≡ config.initial_batch_count)

timeless-initial_state :
    (config : Config) (store : Journal.Store) (now : ℤ)
    → BelongsTo config store
    → timeless (initial_state store.gateway_id store.initial_from_msc store.initial_count now)
      ≡ expected_at_start config
unfolding initial_state expected_at_start
timeless-initial_state config store now (gateway, from, requested) = λ i. record {
  gateway_instance_id = gateway i;
  committed_cursor_msc = from i;
  committed_boundary_digest = zero_digest;
  next_from_msc = from i;
  next_requested_count = requested i;
  last_ingest_sequence = 0;
  last_entry_hash = zero_digest;
  updated_wall_s = pos 0;
}

rebuild-Replays :
    (io : ReconcileIo) (config : Config) (es : List WalEntry) (store store' : Journal.Store)
    → rebuild io config es store ≡ (ok tt, store')
    → BelongsTo config store
    → Replays config es store'
unfolding rebuild
rebuild-Replays io config es store store' h own =
    result_elim
      (λ (r : Result GatewayError (Unit {0}) × Journal.Store).
        r ≡ (ok tt, store') → Replays config es store')
      (reset io.reset_committed io.reset_now store) (λ x failed k. failed_call k)
      (λ empty cleared rest.
        let begun =
          ap timeless (reset-eq-ok io.reset_committed io.reset_now store empty cleared)
          ∙ timeless-initial_state config store io.reset_now own in
        ap (replay config es) (sym begun) ∙ rebuild_entries-replay io config es empty store' rest)
      h

unless_matches-cases :
    (matches : Result GatewayError Bool) (rebuilt : Result GatewayError (Unit {0}) × Journal.Store)
    (store store' : Journal.Store)
    → unless_matches matches rebuilt store ≡ (ok tt, store')
    → ((matches ≡ ok true) × (store ≡ store')) ⊎ (rebuilt ≡ (ok tt, store'))
unfolding unless_matches
unless_matches-cases (err e) rebuilt store store' h = cc
unless_matches-cases (ok true) rebuilt store store' h =
    inl (refl, ap (λ (p : Result GatewayError (Unit {0}) × Journal.Store). p.1) h)
unless_matches-cases (ok false) rebuilt store store' h = inr h

-- A log whose start is retained.
reconciled :
    (io : ReconcileIo) (config : Config) (wal : Store.Store) (store store' : Journal.Store)
    → reconcile_journal io config wal store ≡ (ok tt, store')
    → wal.pruned_through ≡ 0
    → (unless_matches
          (journal_matches_wal config store wal.entries)
          (rebuild io config wal.entries store)
          store
        ≡ (ok tt, store'))
      ⊎ (rebuild io config wal.entries store ≡ (ok tt, store'))
unfolding reconcile_journal
reconciled io config wal store store' h whole =
    let rebuilt = rebuild io config wal.entries store in
    let unpruned : not (wal.pruned_through == 0) ≡ false = ground (arith, whole) in
    let h1 = sym (if_false _ _ _ unpruned) ∙ h in
    elim (Bool-cases (ltb (length wal.entries) (count store))) [
      | inl more ↦ failed_call (sym (if_true _ _ _ more) ∙ h1)
      | inr fewer ↦
          let h2 = sym (if_false _ _ _ fewer) ∙ h1 in
          elim (Bool-cases (count store == length wal.entries)) [
            | inl equal ↦ inl (sym (if_true _ _ _ equal) ∙ h2)
            | inr different ↦ inr (sym (if_false _ _ _ different) ∙ h2)
          ]
    ]

pub reconcile_journal-Replays :
    (io : ReconcileIo) (config : Config) (wal : Store.Store) (store store' : Journal.Store)
    → reconcile_journal io config wal store ≡ (ok tt, store')
    → wal.pruned_through ≡ 0
    → BelongsTo config store
    → Replays config wal.entries store'
reconcile_journal-Replays io config wal store store' h whole own =
    elim (reconciled io config wal store store' h whole) [
      | inl unless ↦ elim (unless_matches-cases _ _ store store' unless) [
        | inl (matches, same) ↦
            subst (Replays config wal.entries) same
              (journal_matches_wal-Replays config store wal.entries matches)
        | inr rebuilt ↦ rebuild-Replays io config wal.entries store store' rebuilt own
      ]
      | inr rebuilt ↦ rebuild-Replays io config wal.entries store store' rebuilt own
    ]
