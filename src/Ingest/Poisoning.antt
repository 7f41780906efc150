-- ===== src/Ingest/Poisoning.antt =====
-- acceptBatch of internal/ingest/gateway.go: the answers with an error, and a log that is marked as poisoned.
use utaki_tick_data_platform.Common.{
  ℕ, ◌≡◌, refl, sym, ap, ◌∙◌, subst, List, [], ◌∷◌, ◌++◌, All, Bool, true, false, not, Result, ok,
  err, Bytes, ◌⊎◌, inl, inr, some, if_elim,
}
use utaki_tick_data_platform.Protocol.{AckV1, BatchFrameV1, HelloV1}
use utaki_tick_data_platform.Wal.{WalEntry}
use utaki_tick_data_platform.Wal.Store
use utaki_tick_data_platform.Journal.{Batch, JournalError, find_row, new_row}
use utaki_tick_data_platform.Journal
use utaki_tick_data_platform.Journal.Laws.{find_row_head}
use utaki_tick_data_platform.Ingest.Cursor.{outcome_for_batch}
use utaki_tick_data_platform.Ingest.Disk.{ready_for_ack}
use utaki_tick_data_platform.Ingest.DiskLaws.{refresh-IsStopped}
use utaki_tick_data_platform.Ingest.Session.{GatewayError}
use utaki_tick_data_platform.Ingest.Gateway.{Gateway, refusal}
use utaki_tick_data_platform.Ingest.Accept.{AcceptIo, Answer, accept_new, accept_batch}
use utaki_tick_data_platform.Ingest.Recorded.{Recorded, Explained, accept_new-Explained}
use utaki_tick_data_platform.Ingest.Answered.{is_accepted, accept_batch-either}

-- The frame is the last entry of the log, and the row of its batch is in the journal.
abbrev pub Kept : Bytes → BatchFrameV1 → Store.Store → Gateway → Type 0
Kept raw batch wal g' =
    (entry : WalEntry) × (row : Batch) × (g'.wal.entries ≡ wal.entries ++ (entry ∷ []))
    × (entry.frame ≡ raw)
    × (find_row batch.producer_session_id batch.batch_sequence g'.journal.batches ≡ some row)
    × (row.frame ≡ raw)

-- What an error may leave.
abbrev pub Accounted : Bytes → BatchFrameV1 → Store.Store → GatewayError → Gateway → Type 0
Accounted raw batch wal e g' =
    (g'.wal ≡ wal)
    ⊎ ((g'.disk.poisoned ≡ true)
        ⊎ (((x : JournalError) × (e ≡ GatewayError.journal x)) ⊎ Kept raw batch wal g'))

abbrev AccountedIf : Bytes → BatchFrameV1 → Store.Store → Answer → Type 0
AccountedIf raw batch wal (err e, g') = Accounted raw batch wal e g'
AccountedIf raw batch wal (ok answer, g') = Unit {0}

Recorded-Kept :
    (io : AcceptIo) (raw : Bytes) (batch : BatchFrameV1) (g g' : Gateway) (entry : WalEntry)
    (row : Batch)
    → Recorded io raw batch g g' entry row
    → Kept raw batch g.wal g'
unfolding new_row
Recorded-Kept io raw batch g g' entry row r =
    let new = new_row entry batch (outcome_for_batch g.journal.state batch g.config) in
    (
      entry,
      new,
      r.entries,
      r.frame,
      ap (λ (j : Journal.Store). find_row batch.producer_session_id batch.batch_sequence j.batches)
            r.journal
          ∙ find_row_head new g.journal.batches,
      r.frame,
    )

Explained-Accounted :
    (io : AcceptIo) (raw : Bytes) (batch : BatchFrameV1) (g : Gateway) (a : Answer)
    → Explained io raw batch g a
    → AccountedIf raw batch g.wal a
Explained-Accounted io raw batch g (ok answer, g') h = tt
Explained-Accounted io raw batch g (err e, g') (inl same) = inl same.wal
Explained-Accounted io raw batch g (err e, g') (inr (inl poisoned)) = inr (inl poisoned)
Explained-Accounted io raw batch g (err e, g') (inr (inr (inl (x, refused, same)))) =
    inr (inr (inl (x, refused)))
Explained-Accounted io raw batch g (err e, g') (inr (inr (inr (entry, row, r)))) =
    inr (inr (inr (Recorded-Kept io raw batch g g' entry row r)))

-- A call that ends with an error left the log as it was, or marked it as poisoned, or ends with an error
-- of the journal, or the frame is the last entry of the log and the batch's row is in the
-- journal.
pub accept_batch-Accounted :
    (io : AcceptIo) (raw : Bytes) (batch : BatchFrameV1) (hello : HelloV1) (lease : Bytes)
    (generation : ℕ) (g g' : Gateway) (e : GatewayError)
    → accept_batch io raw batch hello lease generation g ≡ (err e, g')
    → Accounted raw batch g.wal e g'
accept_batch-Accounted io raw batch hello lease generation g g' e h =
    subst (AccountedIf raw batch g.wal) h (
      accept_batch-either io raw batch g (AccountedIf raw batch g.wal) (λ j. Unit {0}) tt
        (λ j again. tt) (λ e' j failed. inl refl) (λ e' j reached. inl refl)
        (λ ack terminal j metrics reached other. tt)
        (λ j reached.
          Explained-Accounted io raw batch (record g { journal = j }) _
            (accept_new-Explained io raw batch (record g { journal = j }) _))
        hello lease generation)

-- No acknowledgement of acceptance.
abbrev pub Unaccepted : Result GatewayError (AckV1 × Bool) → Type 0
Unaccepted (err e) = Unit {0}
Unaccepted (ok (ack, terminal)) = is_accepted ack.status ≡ false

abbrev Halted : Gateway → Answer → Type 0
Halted g a = (a.1.wal ≡ g.wal) × (a.1.disk.poisoned ≡ true) × Unaccepted a.0

accept_new-Halted :
    (io : AcceptIo) (raw : Bytes) (batch : BatchFrameV1) (hash : Bytes) (g : Gateway)
    → g.disk.poisoned ≡ true
    → Halted g (accept_new io raw batch hash g)
unfolding accept_new ready_for_ack refusal is_accepted
accept_new-Halted io raw batch hash g poisoned =
    let (still, refused) = refresh-IsStopped io.reading_before g.disk poisoned in
    if_elim (Halted g) (not (ready_for_ack io.reading_before g.disk).0)
      (λ unready. (refl, still, refl)) (λ ready. let k = sym (ap not refused) ∙ ready in cc)

accept_batch-Halted :
    (io : AcceptIo) (raw : Bytes) (batch : BatchFrameV1) (hello : HelloV1) (lease : Bytes)
    (generation : ℕ) (g : Gateway)
    → g.disk.poisoned ≡ true
    → Halted g (accept_batch io raw batch hello lease generation g)
accept_batch-Halted io raw batch hello lease generation g poisoned =
    accept_batch-either io raw batch g (Halted g) (λ j. Unit {0}) tt (λ j again. tt)
      (λ e j failed. (refl, poisoned, tt)) (λ e j reached. (refl, poisoned, tt))
      (λ ack terminal j metrics reached other. (refl, poisoned, other))
      (λ j reached. accept_new-Halted io raw batch _ (record g { journal = j }) poisoned) hello
      lease generation

-- A call of acceptBatch.
pub record Call : Type 0 where
  pub io : AcceptIo
  pub raw : Bytes
  pub batch : BatchFrameV1
  pub hello : HelloV1
  pub lease : Bytes
  pub generation : ℕ

abbrev pub serve : List Call → Gateway → List (Result GatewayError (AckV1 × Bool)) × Gateway
serve [] g = ([], g)
serve (c ∷ calls) g =
    let a = accept_batch c.io c.raw c.batch c.hello c.lease c.generation g in
    let rest = serve calls a.1 in (a.0 ∷ rest.0, rest.1)

-- A gateway whose log is marked as poisoned appends nothing and acknowledges no batch as accepted,
-- whatever batches are sent, in whatever sessions, until the mark is cleared.
pub serve_poisoned :
    (calls : List Call) (g : Gateway)
    → g.disk.poisoned ≡ true
    → ((serve calls g).1.wal ≡ g.wal) × All Unaccepted (serve calls g).0
serve_poisoned [] g poisoned = (refl, tt)
serve_poisoned (c ∷ calls) g poisoned =
    let (same, still, unaccepted) =
      accept_batch-Halted c.io c.raw c.batch c.hello c.lease c.generation g poisoned in
    let (rest, none_accepted) =
      serve_poisoned calls (accept_batch c.io c.raw c.batch c.hello c.lease c.generation g).1
        still in
    (rest ∙ same, (unaccepted, none_accepted))
