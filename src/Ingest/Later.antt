-- ===== src/Ingest/Later.antt =====
-- acceptBatch of internal/ingest/gateway.go: the rows of the journal while other calls are served.
use utaki_tick_data_platform.Common.{
  ℕ, ◌≡◌, refl, sym, ap, ◌∙◌, subst, List, [], ◌∷◌, Bool, true, false, not, Result, ok, err, Bytes,
  ℤ, none, some, bytes_eq, bytes_eq→eq, ==→eq, &&_true, ◌&&◌, ◌==◌, Bool-cases, inl, inr, >>=-eq-ok,
  >>=_of_ok, if_false, if_elim, result_elim, arith, Option,
}
use utaki_tick_data_platform.Protocol.{BatchFrameV1, ack_source_state_conflict}
use utaki_tick_data_platform.Wal.{WalEntry}
use utaki_tick_data_platform.Wal.Store.{append}
use utaki_tick_data_platform.Journal.{
  Batch, JournalError, Outcome, State, sqlite_int, is_row, find_row, check_row, lookup, conflicts,
  new_row, read_state, apply,
}
use utaki_tick_data_platform.Journal
use utaki_tick_data_platform.Journal.Laws.{apply-eq-ok, find_row_behind}
use utaki_tick_data_platform.Ingest.Config.{Config}
use utaki_tick_data_platform.Ingest.Cursor.{outcome_for_batch}
use utaki_tick_data_platform.Ingest.Disk.{DiskStateMachine, ready_for_ack}
use utaki_tick_data_platform.Ingest.Session.{GatewayError, Session, session_active}
use utaki_tick_data_platform.Ingest.SessionLaws.{happen, happen_all}
use utaki_tick_data_platform.Ingest.Gateway.{Gateway, refusal}
use utaki_tick_data_platform.Ingest.Accept.{
  find_wal_identity, answer_stored, count_rejected, accept_unknown, accept_reconciled,
  accept_in_session, AcceptIo, Answer, acknowledge, recorded, record_entry, append_batch_frame,
  accept_new, accept_batch,
}
use utaki_tick_data_platform.Ingest.Reconcile.{reconcile_journal}
use utaki_tick_data_platform.Ingest.Answered.{oversized, foreign, accept_batch-either}
use utaki_tick_data_platform.Protocol.Hashes.{gateway_batch_sha256}
use utaki_tick_data_platform.Ingest.Poisoning.{Call}
use utaki_tick_data_platform.Ingest.Events.{
  GatewayEvent, called, in_session, on_disk, pass, pass_all, session_events, unindexed, misses,
  misses_row, Leaves, LeavesAll,
}

-- A key that is free finds no row.
find_row_free :
    (session : Bytes) (sequence ingest : ℕ) (rows : List Batch)
    → conflicts session sequence ingest rows ≡ false
    → find_row session sequence rows ≡ none
unfolding conflicts find_row
find_row_free session sequence ingest [] h = refl
find_row_free session sequence ingest (row ∷ rows) h =
    let other : is_row session sequence row ≡ false = ground (arith, h) in
    let rest : conflicts session sequence ingest rows ≡ false = ground (arith, h) in
    if_false (is_row session sequence row) (some row) _ other
    ∙ find_row_free session sequence ingest rows rest

-- An Apply that succeeds writes no row under a key that finds one.
new_row_other :
    (entry : WalEntry) (batch : BatchFrameV1) (outcome : Outcome) (session : Bytes) (sequence : ℕ)
    (rows : List Batch) (row : Batch)
    → conflicts batch.producer_session_id batch.batch_sequence entry.sequence rows ≡ false
    → check_row (find_row session sequence rows) ≡ ok (some row)
    → is_row session sequence (new_row entry batch outcome) ≡ false
unfolding new_row check_row
new_row_other entry batch outcome session sequence rows row free found =
    elim (Bool-cases
      (bytes_eq batch.producer_session_id session && batch.batch_sequence == sequence)) [
        | inl same ↦
            let (name, number) = &&_true _ _ same in
            let is_session = bytes_eq→eq batch.producer_session_id session name in
            let is_sequence = ==→eq batch.batch_sequence sequence number in
            let missing : find_row session sequence rows ≡ none =
              ap (λ (s : Bytes). find_row s sequence rows) (sym is_session)
              ∙ ap (λ (n : ℕ). find_row batch.producer_session_id n rows) (sym is_sequence)
              ∙ find_row_free batch.producer_session_id batch.batch_sequence entry.sequence rows
                  free in
            let k : ok none ≡ ok (some row) = sym (ap check_row missing) ∙ found in cc
        | inr other ↦ other
      ]

module _ (key : Bytes) (sequence : ℕ) (row : Batch) where
  abbrev Finds : Journal.Store → Type 0
  Finds j = lookup key sequence j ≡ ok (some row)

  -- A row that is found is found after an Apply that succeeds.
  apply-Finds :
      (committed : Bool) (now : ℤ) (entry : WalEntry) (batch : BatchFrameV1) (outcome : Outcome)
      (s s' : Journal.Store) (written : Batch)
      → apply committed now entry batch outcome s ≡ ok (written, s')
      → Finds s
      → Finds s'
  unfolding lookup
  apply-Finds committed now entry batch outcome s s' written h found =
      let (free, is_new, tables) = apply-eq-ok committed now entry batch outcome s s' written h in
      let (n, fits, stored) = >>=-eq-ok (sqlite_int sequence) _ found in
      let rows = ap (λ (t : Journal.Store). t.batches) tables in
      let behind =
        find_row_behind (new_row entry batch outcome) key n s.batches
          (new_row_other entry batch outcome key n s.batches row free stored) in
      >>=_of_ok _ fits ∙ ap check_row (ap (find_row key n) rows ∙ behind) ∙ stored

  -- The row is found, with the configuration and the session.
  abbrev pub StillFinds : Config → Session → Gateway → Type 0
  StillFinds config session g = Finds g.journal × (g.config ≡ config) × (g.session ≡ session)

  module _ (io : AcceptIo) (config : Config) (session : Session) where
    abbrev Ends : Answer → Type 0
    Ends a = StillFinds config session a.1

    acknowledge-Ends :
        (batch : BatchFrameV1) (entry : WalEntry) (stored : Batch) (ready : Bool × DiskStateMachine)
        (g : Gateway)
        → StillFinds config session g
        → Ends (acknowledge batch entry stored ready g)
    unfolding acknowledge
    acknowledge-Ends batch entry stored (true, disk) g h = h
    acknowledge-Ends batch entry stored (false, disk) g h = h

    recorded-Ends :
        (batch : BatchFrameV1) (entry : WalEntry) (g : Gateway)
        (r : Result JournalError (Batch × Journal.Store))
        → ((stored : Batch) (j : Journal.Store) → r ≡ ok (stored, j) → Finds j)
        → StillFinds config session g
        → Ends (recorded io batch entry g r)
    recorded-Ends batch entry g (err e) applied h = h
    recorded-Ends batch entry g (ok (stored, j)) applied h =
        if_elim Ends (not io.after_journal_commit) (λ failed. (applied stored j refl, h.1, h.2))
          (λ passed.
            acknowledge-Ends batch entry stored (ready_for_ack io.reading_after g.disk)
              (record g { journal = j }) (applied stored j refl, h.1, h.2))

    record_entry-Ends :
        (batch : BatchFrameV1) (outcome : Outcome) (entry : WalEntry) (g : Gateway)
        → StillFinds config session g
        → Ends (record_entry io batch outcome entry g)
    unfolding record_entry
    record_entry-Ends batch outcome entry g h =
        if_elim Ends (not io.after_wal_sync) (λ failed. h)
          (λ passed.
            recorded-Ends batch entry g _
              (λ stored j written.
                apply-Finds io.committed io.journal_now entry batch outcome g.journal j stored
                  written h.0)
              h)

    accept_new-Ends :
        (raw : Bytes) (batch : BatchFrameV1) (hash : Bytes) (g : Gateway)
        → StillFinds config session g
        → Ends (accept_new io raw batch hash g)
    unfolding accept_new append_batch_frame
    accept_new-Ends raw batch hash g h =
        if_elim Ends (not (ready_for_ack io.reading_before g.disk).0) (λ unready. h)
          (λ ready.
            result_elim Ends (read_state g.journal) (λ e bad. h)
              (λ state readable.
                result_elim Ends
                  (append io.append raw io.receive_wall_s io.receive_monotonic_us g.wal).0
                  (λ e failed. h)
                  (λ entry appended.
                    record_entry-Ends batch (outcome_for_batch state batch g.config) entry _ h)))

  module _ (config : Config) (session : Session) (c : Call) (g : Gateway)
      (h : StillFinds config session g) where
    abbrev hash : Bytes
    hash = gateway_batch_sha256 c.raw

    answer_stored-Ends :
        (row' : Batch) → Ends c.io config session (answer_stored c.batch hash row' g)
    unfolding answer_stored
    answer_stored-Ends row' =
        if_elim (Ends c.io config session) (not (bytes_eq row'.gateway_batch_sha256 hash))
          (λ other. h) (λ same. h)

    accept_unknown-Ends :
        unindexed (
            find_wal_identity c.batch.producer_session_id c.batch.batch_sequence hash g.wal.entries)
          ≡ false
        → Ends c.io config session (accept_unknown c.io c.raw c.batch hash g)
    unfolding accept_unknown
    accept_unknown-Ends indexed =
        known
          (find_wal_identity c.batch.producer_session_id c.batch.batch_sequence hash g.wal.entries)
          indexed
      where
        known :
            (r : Result GatewayError (Option Bool))
            → unindexed r ≡ false
            → Ends c.io config session (elim r [
              | err e ↦ (err e, g)
              | ok none ↦ accept_new c.io c.raw c.batch hash g
              | ok (some false) ↦ (
                ok (refusal g.config c.batch hash ack_source_state_conflict, true),
                record g { metrics = count_rejected g.metrics },
              )
              | ok (some true) ↦
                  accept_reconciled c.io c.raw c.batch hash
                    (reconcile_journal c.io.reconcile g.config g.wal g.journal)
                    g
            ])
        known (err e) k = h
        known (ok none) k = accept_new-Ends c.io config session c.raw c.batch hash g h
        known (ok (some false)) k = h
        known (ok (some true)) k = cc

    accept_in_session-Ends :
        misses_row c g ≡ false
        → Ends c.io config session (accept_in_session c.io c.raw c.batch hash g)
    unfolding accept_in_session
    accept_in_session-Ends =
        found (lookup c.batch.producer_session_id c.batch.batch_sequence g.journal)
      where
        found :
            (r : Result JournalError (Option Batch))
            → misses r (
                unindexed (
                  find_wal_identity c.batch.producer_session_id c.batch.batch_sequence hash
                    g.wal.entries))
              ≡ false
            → Ends c.io config session (elim r [
              | err e ↦ (err (GatewayError.journal e), g)
              | ok none ↦ accept_unknown c.io c.raw c.batch hash g
              | ok (some stored) ↦ answer_stored c.batch hash stored g
            ])
        found (err e) k = h
        found (ok none) k = accept_unknown-Ends k
        found (ok (some stored)) k = answer_stored-Ends stored

    unmissed-StillFinds : misses_row c g ≡ false → StillFinds config session (pass (called c) g)
    unfolding accept_batch
    unmissed-StillFinds indexed =
        if_elim (Ends c.io config session)
          (not (session_active c.io.now c.lease c.generation g.session)) (λ inactive. h)
          (λ active.
            if_elim (Ends c.io config session) (oversized g c.batch) (λ large. h)
              (λ sized.
                if_elim (Ends c.io config session) (foreign c.batch c.hello c.lease) (λ other. h)
                  (λ own. accept_in_session-Ends indexed)))

    reconciled :
        (j : Journal.Store) (r : Result GatewayError (Unit {0}))
        → (reconcile_journal c.io.reconcile g.config g.wal g.journal).1 ≡ g.journal
        → reconcile_journal c.io.reconcile g.config g.wal g.journal ≡ (r, j)
        → Finds j
    reconciled j r left again =
        subst Finds
          (sym left ∙ ap (λ (p : Result GatewayError (Unit {0}) × Journal.Store). p.1) again) h.0

    call-StillFinds : Leaves (called c) g → StillFinds config session (pass (called c) g)
    call-StillFinds (inl indexed) = unmissed-StillFinds indexed
    call-StillFinds (inr left) =
        accept_batch-either c.io c.raw c.batch g (Ends c.io config session) Finds h.0
          (λ j again. reconciled j _ left again)
          (λ e j failed. (reconciled j _ left failed, h.1, h.2))
          (λ e j reached. (reached, h.1, h.2))
          (λ ack terminal j metrics reached other. (reached, h.1, h.2))
          (λ j reached.
            accept_new-Ends c.io config session c.raw c.batch _ (record g { journal = j })
              (reached, h.1, h.2))
          c.hello c.lease c.generation

  -- A row that a key finds is found while the gateway goes on and no call replaces the journal; the session
  -- is the one that the events of the connections leave.
  pub pass_all-StillFinds :
      (config : Config) (session : Session) (events : List GatewayEvent) (g : Gateway)
      → StillFinds config session g
      → LeavesAll events g
      → StillFinds config (happen_all config (session_events events) session) (pass_all events g)
  pass_all-StillFinds config session [] g h left = h
  pass_all-StillFinds config session (called c ∷ events) g h (first, rest) =
      pass_all-StillFinds config session events (pass (called c) g)
        (call-StillFinds config session c g h first) rest
  pass_all-StillFinds config session (in_session event ∷ events) g (found, same, own)
        (first, rest) =
      pass_all-StillFinds config (happen config event session) events (pass (in_session event) g)
        (found, same, λ i. happen (same i) event (own i)) rest
  pass_all-StillFinds config session (on_disk event ∷ events) g h (first, rest) =
      pass_all-StillFinds config session events (pass (on_disk event) g) h rest
