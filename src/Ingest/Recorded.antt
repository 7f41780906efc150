-- ===== src/Ingest/Recorded.antt =====
-- acceptBatch of internal/ingest/gateway.go: what an answer says of the log and of the journal.
use utaki_tick_data_platform.Common.{
  ◌≡◌, refl, sym, ap, ◌∙◌, [], ◌∷◌, ◌++◌, Bool, true, false, not, Result, ok, err, Bytes, ℤ, ◌⊎◌,
  inl, inr, Option, some, >>-eq-ok, >>=-eq-ok, if_elim, result_elim,
}
use utaki_tick_data_platform.Protocol.{AckV1, BatchFrameV1, ack_retryable_error}
use utaki_tick_data_platform.Protocol.Hashes.{gateway_batch_sha256}
use utaki_tick_data_platform.Wal.{WalEntry, WalError}
use utaki_tick_data_platform.Wal.Entry.{new_entry, entry_bytes}
use utaki_tick_data_platform.Wal.Store.{append}
use utaki_tick_data_platform.Wal.Store
use utaki_tick_data_platform.Wal.Appended.{written, appended_entry, append-either}
use utaki_tick_data_platform.Journal.{
  Batch, JournalError, Outcome, State, read_state, sqlite_int, apply, new_row, next_state,
  conflicts,
}
use utaki_tick_data_platform.Journal
use utaki_tick_data_platform.Journal.Laws.{apply-eq-ok, sqlite_int-eq-ok}
use utaki_tick_data_platform.Ingest.Cursor.{outcome_for_batch}
use utaki_tick_data_platform.Ingest.DiskLaws.{refresh-IsStopped}
use utaki_tick_data_platform.Ingest.Disk.{DiskUsage, DiskStateMachine, ready_for_ack, mark_poisoned}
use utaki_tick_data_platform.Ingest.Session.{GatewayError}
use utaki_tick_data_platform.Ingest.Gateway.{Gateway, Metrics, refusal, ack_from_batch}
use utaki_tick_data_platform.Ingest.Replay.{read_state-eq-ok}
use utaki_tick_data_platform.Ingest.Accept.{
  AcceptIo, Answer, acknowledge, recorded, record_entry, append_batch_frame, accept_new,
}

-- The entry of a frame is in the log's file, behind what was there, and the row of its batch is in the journal.
pub record Recorded (io : AcceptIo) (raw : Bytes) (batch : BatchFrameV1) (g g' : Gateway)
    (entry : WalEntry) (row : Batch) : Type 0 where
  pub before : Bytes
  pub content : g.wal.file ≡ some before
  pub synced : io.append.sync ≡ true
  pub file : g'.wal.file ≡ some (before ++ entry_bytes entry)
  pub entries : g'.wal.entries ≡ g.wal.entries ++ (entry ∷ [])
  pub frame : entry.frame ≡ raw
  pub hash : entry.batch_hash ≡ gateway_batch_sha256 raw
  pub sequence : entry.sequence ≡ g.wal.next
  pub committed : io.committed ≡ true
  pub fits : sqlite_int batch.batch_sequence ≡ ok batch.batch_sequence
  pub is_row : row ≡ new_row entry batch (outcome_for_batch g.journal.state batch g.config)
  pub journal : g'.journal ≡ record g.journal {
    state =
        next_state entry
          (outcome_for_batch g.journal.state batch g.config)
          io.journal_now
          g.journal.state;
    batches =
        new_row entry batch (outcome_for_batch g.journal.state batch g.config) ∷ g.journal.batches;
  }
  pub readable : read_state g.journal ≡ ok g.journal.state
  pub config : g'.config ≡ g.config
  pub session : g'.session ≡ g.session
  pub pruned_through : g'.wal.pruned_through ≡ g.wal.pruned_through

-- The log, the journal and the session are as they were.
pub record Untouched (g g' : Gateway) : Type 0 where
  pub wal : g'.wal ≡ g.wal
  pub journal : g'.journal ≡ g.journal
  pub config : g'.config ≡ g.config
  pub session : g'.session ≡ g.session

-- The acknowledgement of a batch that is recorded: the one of its row, or a request to send it again.
abbrev pub Acknowledges : AckV1 → Bool → WalEntry → Batch → Type 0
Acknowledges ack terminal entry row =
    (ack ≡ ack_from_batch row row.status)
    ⊎ ((ack.status ≡ ack_retryable_error)
        × (ack.gateway_ingest_sequence ≡ entry.sequence)
        × (terminal ≡ false))

-- With an error the log is as it was, or it is marked as poisoned, or the row was refused by the journal,
-- or the batch is recorded.
abbrev pub Explained : AcceptIo → Bytes → BatchFrameV1 → Gateway → Answer → Type 0
Explained io raw batch g (err e, g') =
    Untouched g g'
    ⊎ ((g'.disk.poisoned ≡ true)
        ⊎ (((x : JournalError) × (e ≡ GatewayError.journal x) × (g'.journal ≡ g.journal))
            ⊎ ((entry : WalEntry) × (row : Batch) × Recorded io raw batch g g' entry row)))
Explained io raw batch g (ok (ack, terminal), g') =
    (Untouched g g' × (ack.status ≡ ack_retryable_error))
    ⊎ ((entry : WalEntry) × (row : Batch) × Recorded io raw batch g g' entry row
        × Acknowledges ack terminal entry row)

pub mark_poisoned-poisoned :
    (reading : Option DiskUsage) (s : DiskStateMachine) → (mark_poisoned reading s).poisoned ≡ true
unfolding mark_poisoned
mark_poisoned-poisoned reading s = (refresh-IsStopped reading (record s { poisoned = true }) refl).0

-- The tests that an Apply passes.
apply_passed :
    (committed : Bool) (now : ℤ) (entry : WalEntry) (batch : BatchFrameV1) (outcome : Outcome)
    (s : Journal.Store) (applied : Batch × Journal.Store)
    → apply committed now entry batch outcome s ≡ ok applied
    → (committed ≡ true) × (sqlite_int batch.batch_sequence ≡ ok batch.batch_sequence)
unfolding apply
apply_passed committed now entry batch outcome s applied h =
    let (sequence, fits, h1) = >>=-eq-ok (sqlite_int batch.batch_sequence) _ h in
    let (ingest, fits_ingest, h2) = >>=-eq-ok (sqlite_int entry.sequence) _ h1 in
    let (free, h3) =
      >>-eq-ok (not (conflicts batch.producer_session_id sequence ingest s.batches)) _ _ h2 in
    (
      (>>-eq-ok committed _ _ h3).0,
      fits ∙ ap ok (sym (sqlite_int-eq-ok batch.batch_sequence sequence fits)),
    )

module _ (io : AcceptIo) (raw : Bytes) (batch : BatchFrameV1) (g : Gateway) where
  acknowledge-Explained :
      (g' : Gateway) (entry : WalEntry) (row : Batch) (ready : Bool × DiskStateMachine)
      → ((disk : DiskStateMachine) (metrics : Metrics)
          → Recorded io raw batch g (record g' { disk = disk; metrics = metrics }) entry row)
      → Explained io raw batch g (acknowledge batch entry row ready g')
  unfolding acknowledge refusal
  acknowledge-Explained g' entry row (true, disk) made = inr (entry, row, made disk _, inl refl)
  acknowledge-Explained g' entry row (false, disk) made =
      inr (entry, row, made disk _, inr (refl, refl, refl))

  -- The row of an entry that is in the log.
  module _ (state : State) (readable : read_state g.journal ≡ ok state) (before : Bytes)
      (content : g.wal.file ≡ some before) (synced : io.append.sync ≡ true)
      (disk : DiskStateMachine) where
    abbrev entry : WalEntry
    entry = appended_entry before raw io.receive_wall_s io.receive_monotonic_us g.wal

    abbrev outcome : Outcome
    outcome = outcome_for_batch state batch g.config

    abbrev logged : Gateway
    logged = record g { disk = disk; wal = (written before entry g.wal).1 }

    row-Recorded :
        (row : Batch) (journal : Journal.Store)
        → apply io.committed io.journal_now entry batch outcome g.journal ≡ ok (row, journal)
        → (disk' : DiskStateMachine) (metrics : Metrics)
        → Recorded io raw batch g
            (record logged { disk = disk'; metrics = metrics; journal = journal })
            entry
            row
    unfolding new_entry
    row-Recorded row journal applied disk' metrics =
        let (free, is_new, tables) =
          apply-eq-ok io.committed io.journal_now entry batch outcome g.journal journal row
            applied in
        let current = read_state-eq-ok g.journal state readable in
        record {
          before = before;
          content = content;
          synced = synced;
          file = refl;
          entries = refl;
          frame = refl;
          hash = refl;
          sequence = refl;
          committed = (apply_passed _ _ _ _ _ _ _ applied).0;
          fits = (apply_passed _ _ _ _ _ _ _ applied).1;
          is_row =
              is_new
              ∙ ap (λ (s : State). new_row entry batch (outcome_for_batch s batch g.config))
                  current;
          journal =
              tables
              ∙ ap
                  (λ (s : State). record g.journal {
                    state =
                        next_state entry (outcome_for_batch s batch g.config) io.journal_now
                          g.journal.state;
                    batches =
                        new_row entry batch (outcome_for_batch s batch g.config)
                        ∷ g.journal.batches;
                  })
                  current;
          readable = readable ∙ ap ok current;
          config = refl;
          session = refl;
          pruned_through = refl;
        }

    recorded-Explained :
        (applied : Result JournalError (Batch × Journal.Store))
        → apply io.committed io.journal_now entry batch outcome g.journal ≡ applied
        → Explained io raw batch g (recorded io batch entry logged applied)
    recorded-Explained (err e) h = inr (inr (inl (e, refl, refl)))
    recorded-Explained (ok (row, journal)) h =
        if_elim (Explained io raw batch g) (not io.after_journal_commit)
          (λ stopped. inr (inr (inr (entry, row, row-Recorded row journal h _ _))))
          (λ goes.
            acknowledge-Explained (record logged { journal = journal }) entry row _
              (row-Recorded row journal h))

    record_entry-Explained : Explained io raw batch g (record_entry io batch outcome entry logged)
    unfolding record_entry
    record_entry-Explained =
        if_elim (Explained io raw batch g) (not io.after_wal_sync)
          (λ stopped. inr (inl (mark_poisoned-poisoned _ _))) (λ goes. recorded-Explained _ refl)

  append_batch_frame-Explained :
      (state : State) (disk : DiskStateMachine)
      → read_state g.journal ≡ ok state
      → Explained io raw batch g (append_batch_frame io raw batch state (record g { disk = disk }))
  unfolding append_batch_frame
  append_batch_frame-Explained state disk readable =
      append-either io.append raw io.receive_wall_s io.receive_monotonic_us g.wal
        (λ (r : Result WalError WalEntry × Store.Store). Explained io raw batch g (elim r.0 [
          | err e ↦ (
            err (GatewayError.wal e),
            record g { disk = mark_poisoned io.reading_failed disk; wal = r.1 },
          )
          | ok entry ↦
              record_entry io batch (outcome_for_batch state batch g.config) entry
                (record g { disk = disk; wal = r.1 })
        ]))
        (λ e. inr (inl (mark_poisoned-poisoned _ _)))
        (λ e content. inr (inl (mark_poisoned-poisoned _ _)))
        (λ before content sound synced.
          record_entry-Explained state readable before content synced disk)

  pub accept_new-Explained :
      (hash : Bytes) → Explained io raw batch g (accept_new io raw batch hash g)
  unfolding accept_new refusal
  accept_new-Explained hash =
      if_elim (Explained io raw batch g) (not (ready_for_ack io.reading_before g.disk).0)
        (λ unready.
          inl (record { wal = refl; journal = refl; config = refl; session = refl }, refl))
        (λ ready.
          result_elim (Explained io raw batch g) (read_state g.journal)
            (λ e bad. inl (record { wal = refl; journal = refl; config = refl; session = refl }))
            (λ state readable. append_batch_frame-Explained state _ readable))
