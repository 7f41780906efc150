-- ===== src/Ingest/Ownership.antt =====
-- reconcileJournal of internal/ingest/gateway.go: the identity of the journal that is rebuilt.
use utaki_tick_data_platform.Common.{
  ◌≡◌, sym, ◌∙◌, subst, List, [], ◌∷◌, Bool, true, false, not, Result, ok, err, >>=-eq-ok, >>-eq-ok,
  map_err, map_err-eq-ok, ℤ, ltb, length, ◌==◌, result_elim, if_elim,
}
use utaki_tick_data_platform.Wal.{WalEntry}
use utaki_tick_data_platform.Wal.Store
use utaki_tick_data_platform.Journal.{
  State, Outcome, Batch, JournalError, zero_digest, read_state, lookup, count, apply, reset,
  next_state, initial_state,
}
use utaki_tick_data_platform.Journal
use utaki_tick_data_platform.Journal.Laws.{apply-eq-ok}
use utaki_tick_data_platform.Ingest.Config.{Config}
use utaki_tick_data_platform.Ingest.Cursor.{outcome_for_batch}
use utaki_tick_data_platform.Ingest.Session.{GatewayError}
use utaki_tick_data_platform.Ingest.Reconcile.{
  ReconcileIo, decode_wal_entry, journal_matches_wal, rebuild_entry, rebuild_entries, rebuild,
  unless_matches, reconcile_journal,
}
use utaki_tick_data_platform.Ingest.Rebuilt.{BelongsTo}

-- The journal of a gateway is rebuilt for the same gateway.
rebuild_entry-BelongsTo :
    (io : ReconcileIo) (config : Config) (e : WalEntry) (store next : Journal.Store)
    → rebuild_entry io config e store ≡ ok next
    → BelongsTo config store
    → BelongsTo config next
unfolding rebuild_entry
rebuild_entry-BelongsTo io config e store next h own =
    let (batch, decoded, h1) = >>=-eq-ok (decode_wal_entry e) _ h in
    let (state, read, h2) = >>=-eq-ok (map_err GatewayError.journal (read_state store)) _ h1 in
    let (applied, wrote, h3) =
      >>=-eq-ok
        (map_err GatewayError.journal
          (apply (io.committed e) (io.now e) e batch (outcome_for_batch state batch config) store))
        _ h2 in
    let (free, row, tables) =
      apply-eq-ok (io.committed e) (io.now e) e batch (outcome_for_batch state batch config) store
        applied.1 applied.0 (map_err-eq-ok GatewayError.journal _ _ wrote) in
    let same : next ≡ applied.1 = cc in subst (BelongsTo config) (sym (same ∙ tables)) own

rebuild_entries-BelongsTo :
    (io : ReconcileIo) (config : Config) (es : List WalEntry) (store : Journal.Store)
    → BelongsTo config store
    → BelongsTo config (rebuild_entries io config es store).1
unfolding rebuild_entries
rebuild_entries-BelongsTo io config [] store own = own
rebuild_entries-BelongsTo io config (e ∷ es) store own =
    result_elim (λ (r : Result GatewayError (Unit {0}) × Journal.Store). BelongsTo config r.1)
      (rebuild_entry io config e store) (λ x failed. own)
      (λ next round.
        rebuild_entries-BelongsTo io config es next
          (rebuild_entry-BelongsTo io config e store next round own))

reset-BelongsTo :
    (config : Config) (committed : Bool) (now : ℤ) (store empty : Journal.Store)
    → reset committed now store ≡ ok empty
    → BelongsTo config store
    → BelongsTo config empty
unfolding reset
reset-BelongsTo config committed now store empty h own =
    let (done, same) = >>-eq-ok committed _ _ h in
    let written : record store {
      state = initial_state store.gateway_id store.initial_from_msc store.initial_count now;
      batches = [];
    }
        ≡ empty =
      cc in
    subst (BelongsTo config) written own

pub reconcile_journal-BelongsTo :
    (io : ReconcileIo) (config : Config) (wal : Store.Store) (store : Journal.Store)
    → BelongsTo config store
    → BelongsTo config (reconcile_journal io config wal store).1
unfolding reconcile_journal rebuild unless_matches
reconcile_journal-BelongsTo io config wal store own =
    let P : Result GatewayError (Unit {0}) × Journal.Store → Type 0 = λ r. BelongsTo config r.1 in
    let rebuilt =
      result_elim P (reset io.reset_committed io.reset_now store) (λ x failed. own)
        (λ empty cleared.
          rebuild_entries-BelongsTo io config wal.entries empty
            (reset-BelongsTo config io.reset_committed io.reset_now store empty cleared own)) in
    if_elim P (not (wal.pruned_through == 0)) (λ pruned. own)
      (λ whole.
        if_elim P (ltb (length wal.entries) (count store)) (λ more. own)
          (λ fewer.
            if_elim P (count store == length wal.entries)
              (λ equal. either (journal_matches_wal config store wal.entries) _ rebuilt)
              (λ different. rebuilt)))
  where
    either :
        (m : Result GatewayError Bool) (r : Result GatewayError (Unit {0}) × Journal.Store)
        → BelongsTo config r.1
        → BelongsTo config (unless_matches m r store).1
    either (err e) r rebuilt = own
    either (ok true) r rebuilt = own
    either (ok false) r rebuilt = rebuilt
