-- ===== src/Ingest/Durability.antt =====
-- acceptBatch of internal/ingest/gateway.go: the batches that are acknowledged as accepted.
use utaki_tick_data_platform.Common.{
  ℕ, ◌≡◌, sym, ap, ◌∙◌, subst, [], ◌∷◌, ◌++◌, Bool, true, false, ok, err, Bytes, inl, inr, some,
}
use utaki_tick_data_platform.Protocol.{AckV1, BatchFrameV1, HelloV1, ack_retryable_error}
use utaki_tick_data_platform.Protocol.Hashes.{gateway_batch_sha256}
use utaki_tick_data_platform.Wal.{WalEntry}
use utaki_tick_data_platform.Wal.Store
use utaki_tick_data_platform.Wal.Entry.{entry_bytes}
use utaki_tick_data_platform.Journal.{Batch, find_row, new_row}
use utaki_tick_data_platform.Journal
use utaki_tick_data_platform.Journal.Laws.{find_row_head}
use utaki_tick_data_platform.Ingest.Cursor.{outcome_for_batch}
use utaki_tick_data_platform.Ingest.Gateway.{Gateway, ack_from_batch}
use utaki_tick_data_platform.Ingest.Accept.{AcceptIo, Answer, accept_batch}
use utaki_tick_data_platform.Ingest.Recorded.{Recorded, Explained, accept_new-Explained}
use utaki_tick_data_platform.Ingest.Answered.{is_accepted, accept_batch-either}

-- The frame is in the log's file and in the journal, and the answer is the one of its row.
pub record Durable (io : AcceptIo) (raw : Bytes) (batch : BatchFrameV1) (wal : Store.Store)
    (g' : Gateway) (ack : AckV1) : Type 0 where
  pub entry : WalEntry
  pub row : Batch
  pub before : Bytes
  pub content : wal.file ≡ some before
  pub file : g'.wal.file ≡ some (before ++ entry_bytes entry)
  pub synced : io.append.sync ≡ true
  pub entries : g'.wal.entries ≡ wal.entries ++ (entry ∷ [])
  pub sequence : entry.sequence ≡ wal.next
  pub frame : entry.frame ≡ raw
  pub hash : entry.batch_hash ≡ gateway_batch_sha256 raw
  pub committed : io.committed ≡ true
  pub found : find_row batch.producer_session_id batch.batch_sequence g'.journal.batches ≡ some row
  pub row_frame : row.frame ≡ raw
  pub row_hash : row.gateway_batch_sha256 ≡ gateway_batch_sha256 raw
  pub row_sequence : row.gateway_ingest_sequence ≡ entry.sequence
  pub answer : ack ≡ ack_from_batch row row.status

Recorded-Durable :
    (io : AcceptIo) (raw : Bytes) (batch : BatchFrameV1) (g g' : Gateway) (entry : WalEntry)
    (row : Batch) (ack : AckV1)
    → Recorded io raw batch g g' entry row
    → ack ≡ ack_from_batch row row.status
    → Durable io raw batch g.wal g' ack
unfolding new_row
Recorded-Durable io raw batch g g' entry row ack r answer =
    let new = new_row entry batch (outcome_for_batch g.journal.state batch g.config) in
    record {
      entry = entry;
      row = row;
      before = r.before;
      content = r.content;
      file = r.file;
      synced = r.synced;
      entries = r.entries;
      sequence = r.sequence;
      frame = r.frame;
      hash = r.hash;
      committed = r.committed;
      found =
          ap
            (λ (j : Journal.Store).
              find_row batch.producer_session_id batch.batch_sequence j.batches)
            r.journal
          ∙ find_row_head new g.journal.batches
          ∙ ap some (sym r.is_row);
      row_frame = ap (λ (b : Batch). b.frame) r.is_row ∙ r.frame;
      row_hash = ap (λ (b : Batch). b.gateway_batch_sha256) r.is_row ∙ r.hash;
      row_sequence = ap (λ (b : Batch). b.gateway_ingest_sequence) r.is_row;
      answer = answer;
    }

pub retryable_is_unaccepted :
    (ack : AckV1) → ack.status ≡ ack_retryable_error → is_accepted ack.status ≡ false
unfolding is_accepted
retryable_is_unaccepted ack h = ap is_accepted h

abbrev DurableIf : AcceptIo → Bytes → BatchFrameV1 → Gateway → Answer → Type 0
DurableIf io raw batch g (err e, g') = Unit {0}
DurableIf io raw batch g (ok (ack, terminal), g') =
    is_accepted ack.status ≡ true → Durable io raw batch g.wal g' ack

Explained-Durable :
    (io : AcceptIo) (raw : Bytes) (batch : BatchFrameV1) (g : Gateway) (j : Journal.Store)
    (a : Answer)
    → Explained io raw batch (record g { journal = j }) a
    → DurableIf io raw batch g a
Explained-Durable io raw batch g j (err e, g') h = tt
Explained-Durable io raw batch g j (ok (ack, terminal), g') (inl (same, retry)) =
    λ accepted. let other = retryable_is_unaccepted ack retry in cc
Explained-Durable io raw batch g j (ok (ack, terminal), g') (inr (entry, row, r, inl answer)) =
    λ accepted. Recorded-Durable io raw batch (record g { journal = j }) g' entry row ack r answer
Explained-Durable io raw batch g j (ok (ack, terminal), g')
      (inr (entry, row, r, inr (retry, sequence, goes_on))) =
    λ accepted. let other = retryable_is_unaccepted ack retry in cc

-- An answer that says that a batch is accepted: the frame has been written and synced behind what the
-- log's file held, as one entry with the next sequence number, and the transaction of the journal has
-- been carried out, which stores the frame, its hash and that number in the row that the batch's session
-- and number find; the answer is made of that row.
pub accept_batch-Durable :
    (io : AcceptIo) (raw : Bytes) (batch : BatchFrameV1) (hello : HelloV1) (lease : Bytes)
    (generation : ℕ) (g g' : Gateway) (ack : AckV1) (terminal : Bool)
    → accept_batch io raw batch hello lease generation g ≡ (ok (ack, terminal), g')
    → is_accepted ack.status ≡ true
    → Durable io raw batch g.wal g' ack
accept_batch-Durable io raw batch hello lease generation g g' ack terminal h accepted =
    subst (DurableIf io raw batch g) h
      (accept_batch-either io raw batch g (DurableIf io raw batch g) (λ j. Unit {0}) tt
        (λ j again. tt) (λ e j failed. tt) (λ e j reached. tt)
        (λ ack' terminal' j metrics reached other accepted'. let k = sym other ∙ accepted' in cc)
        (λ j reached.
          Explained-Durable io raw batch g j _
            (accept_new-Explained io raw batch (record g { journal = j }) _))
        hello lease generation)
      accepted
