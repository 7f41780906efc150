-- ===== src/Ingest/LogGrowth.antt =====
-- acceptBatch of internal/ingest/gateway.go: the log only grows.
use utaki_tick_data_platform.Common.{
  ℕ, ◌≡◌, refl, sym, ap, ◌∙◌, List, [], ◌∷◌, ◌++◌, append-nil, append_assoc, Bool, true, false, not,
  Result, ok, err, Bytes, if_elim, result_elim,
}
use utaki_tick_data_platform.Protocol.{BatchFrameV1, HelloV1}
use utaki_tick_data_platform.Wal.{WalEntry, WalError}
use utaki_tick_data_platform.Wal.Store
use utaki_tick_data_platform.Wal.Appended.{written, append-either}
use utaki_tick_data_platform.Journal.{Batch, JournalError, Outcome, read_state, apply}
use utaki_tick_data_platform.Journal
use utaki_tick_data_platform.Ingest.Cursor.{outcome_for_batch}
use utaki_tick_data_platform.Ingest.Disk.{DiskStateMachine, ready_for_ack, mark_poisoned}
use utaki_tick_data_platform.Ingest.Session.{GatewayError}
use utaki_tick_data_platform.Ingest.Gateway.{Gateway}
use utaki_tick_data_platform.Ingest.Accept.{
  AcceptIo, Answer, acknowledge, recorded, record_entry, append_batch_frame, accept_new,
  accept_batch,
}
use utaki_tick_data_platform.Ingest.Answered.{accept_batch-either}

-- A log with the same entries in front.
abbrev pub Grown : List WalEntry → List WalEntry → Type 0
Grown es es' = (more : List WalEntry) × (es' ≡ es ++ more)

pub Grown-refl : (es : List WalEntry) → Grown es es
Grown-refl es = ([], sym (append-nil es))

pub Grown-trans : (a b c : List WalEntry) → Grown a b → Grown b c → Grown a c
Grown-trans a b c (m, p) (n, q) =
    (m ++ n, q ∙ ap (λ (r : List WalEntry). r ++ n) p ∙ append_assoc a m n)

acknowledge_wal :
    (batch : BatchFrameV1) (entry : WalEntry) (row : Batch) (ready : Bool × DiskStateMachine)
    (g : Gateway)
    → (acknowledge batch entry row ready g).1.wal ≡ g.wal
unfolding acknowledge
acknowledge_wal batch entry row (true, disk) g = refl
acknowledge_wal batch entry row (false, disk) g = refl

recorded_wal :
    (io : AcceptIo) (batch : BatchFrameV1) (entry : WalEntry) (g : Gateway)
    (r : Result JournalError (Batch × Journal.Store))
    → (recorded io batch entry g r).1.wal ≡ g.wal
recorded_wal io batch entry g (err e) = refl
recorded_wal io batch entry g (ok (row, journal)) =
    if_elim (λ (a : Answer). a.1.wal ≡ g.wal) (not io.after_journal_commit) (λ stopped. refl)
      (λ goes. acknowledge_wal batch entry row _ (record g { journal = journal }))

record_entry_wal :
    (io : AcceptIo) (batch : BatchFrameV1) (outcome : Outcome) (entry : WalEntry) (g : Gateway)
    → (record_entry io batch outcome entry g).1.wal ≡ g.wal
unfolding record_entry
record_entry_wal io batch outcome entry g =
    if_elim (λ (a : Answer). a.1.wal ≡ g.wal) (not io.after_wal_sync) (λ stopped. refl)
      (λ goes. recorded_wal io batch entry g _)

accept_new-Grown :
    (io : AcceptIo) (raw : Bytes) (batch : BatchFrameV1) (hash : Bytes) (g : Gateway)
    → Grown g.wal.entries (accept_new io raw batch hash g).1.wal.entries
unfolding accept_new append_batch_frame
accept_new-Grown io raw batch hash g =
    let P : Answer → Type 0 = λ a. Grown g.wal.entries a.1.wal.entries in
    let disk = (ready_for_ack io.reading_before g.disk).1 in
    if_elim P (not (ready_for_ack io.reading_before g.disk).0) (λ unready. Grown-refl _)
      (λ ready.
        result_elim P (read_state g.journal) (λ e bad. Grown-refl _)
          (λ state readable.
            append-either io.append raw io.receive_wall_s io.receive_monotonic_us g.wal
              (λ (r : Result WalError WalEntry × Store.Store). P (elim r.0 [
                | err e ↦ (
                  err (GatewayError.wal e),
                  record g { disk = mark_poisoned io.reading_failed disk; wal = r.1 },
                )
                | ok entry ↦
                    record_entry io batch (outcome_for_batch state batch g.config) entry
                      (record g { disk = disk; wal = r.1 })
              ]))
              (λ e. Grown-refl _) (λ e content. Grown-refl _)
              (λ before content sound synced. (
                _ ∷ [],
                ap (λ (w : Store.Store). w.entries)
                    (record_entry_wal io batch _ _
                      (record g { disk = disk; wal = (written before _ g.wal).1 })),
              ))))

-- Whatever acceptBatch answers, the entries of the log stay, in their order, and new ones stand behind them.
pub accept_batch-Grown :
    (io : AcceptIo) (raw : Bytes) (batch : BatchFrameV1) (hello : HelloV1) (lease : Bytes)
    (generation : ℕ) (g : Gateway)
    → Grown g.wal.entries (accept_batch io raw batch hello lease generation g).1.wal.entries
accept_batch-Grown io raw batch hello lease generation g =
    accept_batch-either io raw batch g (λ a. Grown g.wal.entries a.1.wal.entries) (λ j. Unit {0}) tt
      (λ j again. tt) (λ e j failed. Grown-refl _) (λ e j reached. Grown-refl _)
      (λ ack terminal j metrics reached other. Grown-refl _)
      (λ j reached. accept_new-Grown io raw batch _ (record g { journal = j })) hello lease
      generation
