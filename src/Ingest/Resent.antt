-- ===== src/Ingest/Resent.antt =====
-- acceptBatch of internal/ingest/gateway.go: a batch that is sent again after it was accepted.
use utaki_tick_data_platform.Common.{
  ℕ, List, ◌≡◌, refl, sym, ap, ◌∙◌, subst, Bool, true, false, not, ◌||◌, ok, err, require_holds,
  Bytes, length, inl, inr, ltb, bytes_eq, eq→bytes_eq, some, arith, if_elim, if_false, >>=_of_ok,
}
use utaki_tick_data_platform.Golib.Sha256
use utaki_tick_data_platform.Protocol.{AckV1, BatchFrameV1, HelloV1, ack_duplicate}
use utaki_tick_data_platform.Protocol.Hashes.{gateway_batch_sha256}
use utaki_tick_data_platform.Wal.{WalEntry}
use utaki_tick_data_platform.Journal.{
  Batch, JournalError, Outcome, find_row, check_row, lookup, new_row,
}
use utaki_tick_data_platform.Journal
use utaki_tick_data_platform.Journal.Laws.{find_row_head}
use utaki_tick_data_platform.Ingest.Config.{validate}
use utaki_tick_data_platform.Ingest.Cursor.{outcome_for_batch}
use utaki_tick_data_platform.Ingest.Storable.{IsStorable, outcome_for_batch-IsStorable}
use utaki_tick_data_platform.Ingest.Session.{Session, session_active}
use utaki_tick_data_platform.Ingest.SessionLaws.{happen_all}
use utaki_tick_data_platform.Ingest.Gateway.{Gateway, refusal, ack_from_batch}
use utaki_tick_data_platform.Ingest.Accept.{
  AcceptIo, Answer, count_duplicate, answer_stored, accept_in_session, accept_batch,
}
use utaki_tick_data_platform.Ingest.Recorded.{Recorded, Explained, accept_new-Explained}
use utaki_tick_data_platform.Ingest.Later.{StillFinds, pass_all-StillFinds}
use utaki_tick_data_platform.Ingest.Events.{GatewayEvent, pass_all, session_events, LeavesAll}
use utaki_tick_data_platform.Ingest.Answered.{is_accepted, oversized, foreign, accept_batch-either}
use utaki_tick_data_platform.Ingest.Durability.{retryable_is_unaccepted}

length-gateway_batch_sha256 : (raw : Bytes) → length (gateway_batch_sha256 raw) ≡ 32
unfolding gateway_batch_sha256
length-gateway_batch_sha256 raw = Sha256.length-sum256 _

new_row-storable :
    (entry : WalEntry) (batch : BatchFrameV1) (outcome : Outcome)
    → length entry.batch_hash ≡ 32
    → IsStorable outcome
    → check_row (some (new_row entry batch outcome)) ≡ ok (some (new_row entry batch outcome))
unfolding check_row new_row
new_row-storable entry batch outcome hash storable =
    require_holds _ JournalError.invalid_bytes (ok (some (new_row entry batch outcome)))
      (ground (arith, hash, storable.digest, storable.status, storable.count))

-- The row of the batch, and what else a second acceptance reads.
record Found (raw : Bytes) (batch : BatchFrameV1) (g g' : Gateway) (ack : AckV1) : Type 0 where
  row : Batch
  found : lookup batch.producer_session_id batch.batch_sequence g'.journal ≡ ok (some row)
  hash : row.gateway_batch_sha256 ≡ gateway_batch_sha256 raw
  answer : ack ≡ ack_from_batch row row.status
  config : g'.config ≡ g.config
  session : g'.session ≡ g.session

Recorded-Found :
    (io : AcceptIo) (raw : Bytes) (batch : BatchFrameV1) (g g' : Gateway) (entry : WalEntry)
    (row : Batch) (ack : AckV1)
    → Recorded io raw batch g g' entry row
    → ack ≡ ack_from_batch row row.status
    → validate g.config ≡ ok tt
    → Found raw batch g g' ack
unfolding lookup new_row
Recorded-Found io raw batch g g' entry row ack r answer valid =
    let outcome = outcome_for_batch g.journal.state batch g.config in
    let new = new_row entry batch outcome in
    let storable = outcome_for_batch-IsStorable g.journal batch g.config r.readable valid in
    let rows : find_row batch.producer_session_id batch.batch_sequence g'.journal.batches
        ≡ some new =
      ap (λ (j : Journal.Store). find_row batch.producer_session_id batch.batch_sequence j.batches)
        r.journal
      ∙ find_row_head new g.journal.batches in
    record {
      row = row;
      found =
          >>=_of_ok _ r.fits
          ∙ ap check_row rows
          ∙ new_row-storable entry batch outcome
              (ap length r.hash ∙ length-gateway_batch_sha256 raw) storable
          ∙ ap (λ (b : Batch). ok (some b)) (sym r.is_row);
      hash = ap (λ (b : Batch). b.gateway_batch_sha256) r.is_row ∙ r.hash;
      answer = answer;
      config = r.config;
      session = r.session;
    }

abbrev FoundIf : Bytes → BatchFrameV1 → Gateway → Answer → Type 0
FoundIf raw batch g (err e, g') = Unit {0}
FoundIf raw batch g (ok (ack, terminal), g') =
    is_accepted ack.status ≡ true → Found raw batch g g' ack

Explained-Found :
    (io : AcceptIo) (raw : Bytes) (batch : BatchFrameV1) (g : Gateway) (j : Journal.Store)
    (a : Answer)
    → validate g.config ≡ ok tt
    → Explained io raw batch (record g { journal = j }) a
    → FoundIf raw batch g a
Explained-Found io raw batch g j (err e, g') valid h = tt
Explained-Found io raw batch g j (ok (ack, terminal), g') valid (inl (same, retry)) =
    λ accepted. let other = retryable_is_unaccepted ack retry in cc
Explained-Found io raw batch g j (ok (ack, terminal), g') valid (inr (entry, row, r, inl answer)) =
    λ accepted.
      let f =
        Recorded-Found io raw batch (record g { journal = j }) g' entry row ack r answer valid in
      record {
        row = f.row;
        found = f.found;
        hash = f.hash;
        answer = f.answer;
        config = f.config;
        session = f.session;
      }
Explained-Found io raw batch g j (ok (ack, terminal), g') valid
      (inr (entry, row, r, inr (retry, sequence, goes_on))) =
    λ accepted. let other = retryable_is_unaccepted ack retry in cc

-- An error has no status.
abbrev status_of : Answer → ℕ
status_of (err e, g) = 0
status_of (ok (ack, terminal), g) = ack.status

module _ (io : AcceptIo) (raw : Bytes) (batch : BatchFrameV1) (hello : HelloV1) (lease : Bytes)
    (generation : ℕ) (g g' : Gateway) (ack : AckV1) (terminal : Bool) where
  accept_batch-Found :
      accept_batch io raw batch hello lease generation g ≡ (ok (ack, terminal), g')
      → is_accepted ack.status ≡ true
      → validate g.config ≡ ok tt
      → Found raw batch g g' ack
  accept_batch-Found h accepted valid =
      subst (FoundIf raw batch g) h
        (accept_batch-either io raw batch g (FoundIf raw batch g) (λ j. Unit {0}) tt (λ j again. tt)
          (λ e j failed. tt) (λ e j reached. tt)
          (λ ack' terminal' j metrics reached other accepted'. let k = sym other ∙ accepted' in cc)
          (λ j reached.
            Explained-Found io raw batch g j _ valid
              (accept_new-Explained io raw batch (record g { journal = j }) _))
          hello lease generation)
        accepted

  -- An accepted batch passed the guards.
  guards_passed :
      accept_batch io raw batch hello lease generation g ≡ (ok (ack, terminal), g')
      → is_accepted ack.status ≡ true
      → (oversized g batch ≡ false) × (foreign batch hello lease ≡ false)
  unfolding accept_batch refusal is_accepted
  guards_passed h accepted =
      let P : Answer → Type 0 = λ a.
        is_accepted (status_of a) ≡ true
        → (oversized g batch ≡ false) × (foreign batch hello lease ≡ false) in
      subst P h
        (if_elim P (not (session_active io.now lease generation g.session)) (λ inactive k. cc)
          (λ active.
            if_elim P (oversized g batch) (λ large k. cc)
              (λ sized.
                if_elim P (foreign batch hello lease) (λ other k. cc) (λ own k. (sized, own)))))
        accepted

  -- The gateway later on, when it still finds the row.
  module _ (io' : AcceptIo) (generation' : ℕ) (g'' : Gateway) (found : Found raw batch g g' ack)
      (session : Session)
      (still : StillFinds batch.producer_session_id batch.batch_sequence found.row g.config session
        g'') where
    answer_again : accept_in_session io' raw batch (gateway_batch_sha256 raw) g'' ≡ (
      ok (record ack { status = ack_duplicate }, false),
      record g'' { metrics = count_duplicate g''.metrics },
    )
    unfolding accept_in_session answer_stored ack_from_batch
    answer_again =
        let same : not (bytes_eq found.row.gateway_batch_sha256 (gateway_batch_sha256 raw))
            ≡ false =
          ap not (eq→bytes_eq _ _ found.hash) in
        let looked : accept_in_session io' raw batch (gateway_batch_sha256 raw) g''
            ≡ answer_stored batch (gateway_batch_sha256 raw) found.row g'' =
          rw (still.0, accept_in_session) refl in
        looked
        ∙ if_false _ _ _ same
        ∙ ap
            (λ (a : AckV1). (
              ok (record a { status = ack_duplicate }, false),
              record g'' { metrics = count_duplicate g''.metrics },
            ))
            (sym found.answer)

    accept_again :
        session_active io'.now lease generation' session ≡ true
        → oversized g batch ≡ false
        → foreign batch hello lease ≡ false
        → accept_batch io' raw batch hello lease generation' g''
          ≡ accept_in_session io' raw batch (gateway_batch_sha256 raw) g''
    unfolding accept_batch
    accept_again active sized own =
        if_false _ _ _ (ap not (ap (session_active io'.now lease generation') still.2 ∙ active))
        ∙ if_false _ _ _ (
            ap
              (λ c.
                ltb c.max_records (length batch.records)
                || ltb c.maximum_batch_count batch.requested_count)
              still.1
            ∙ sized)
        ∙ if_false _ _ _ own

  -- A batch that was accepted and that is sent again at any time after: other batches may have been sent in
  -- between, of this session and of others, sessions may have started, been touched or ended, the disk may
  -- have been measured. The lease is active when the batch is sent again, under the same generation or
  -- another one. The answer is the first one with the status of a duplicate, and nothing but the count of
  -- duplicates has changed. The configuration is one that validates, and in between the journal is not
  -- replaced: no call finds its batch in the log and no row of it in the journal, or where one does the
  -- comparison of the journal with the log leaves the journal as it is.
  pub accept_batch_resent :
      (io' : AcceptIo) (generation' : ℕ) (events : List GatewayEvent)
      → accept_batch io raw batch hello lease generation g ≡ (ok (ack, terminal), g')
      → is_accepted ack.status ≡ true
      → validate g.config ≡ ok tt
      → LeavesAll events g'
      → session_active io'.now lease generation'
          (happen_all g.config (session_events events) g'.session)
        ≡ true
      → let g'' = pass_all events g' in
        accept_batch io' raw batch hello lease generation' g'' ≡ (
          ok (record ack { status = ack_duplicate }, false),
          record g'' { metrics = count_duplicate g''.metrics },
        )
  accept_batch_resent io' generation' events h accepted valid left active =
      let found = accept_batch-Found h accepted valid in
      let (sized, own) = guards_passed h accepted in
      let g'' = pass_all events g' in
      let still =
        pass_all-StillFinds batch.producer_session_id batch.batch_sequence found.row g.config
          g'.session events g' (found.found, found.config, refl) left in
      let session = happen_all g.config (session_events events) g'.session in
      accept_again io' generation' g'' found session still active sized own
      ∙ answer_again io' generation' g'' found session still
