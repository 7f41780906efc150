-- ===== src/Ingest/InStep.antt =====
-- acceptBatch of internal/ingest/gateway.go: the journal keeps step with the log.
use utaki_tick_data_platform.Common.{
  ℕ, ◌≡◌, sym, ap, ◌∙◌, subst, List, Bool, Result, ok, err, Bytes, inl, inr, map_err,
}
use utaki_tick_data_platform.Protocol.{AckV1, BatchFrameV1, HelloV1}
use utaki_tick_data_platform.Wal.{WalEntry}
use utaki_tick_data_platform.Wal.Store
use utaki_tick_data_platform.Wal.Entry.{decode_batch_frame}
use utaki_tick_data_platform.Journal.{State}
use utaki_tick_data_platform.Journal
use utaki_tick_data_platform.Ingest.Config.{Config}
use utaki_tick_data_platform.Ingest.Cursor.{outcome_for_batch}
use utaki_tick_data_platform.Ingest.Session.{GatewayError}
use utaki_tick_data_platform.Ingest.Gateway.{Gateway}
use utaki_tick_data_platform.Ingest.Reconcile.{decode_wal_entry, expected_after}
use utaki_tick_data_platform.Ingest.Replay.{
  timeless, Replays, replay-snoc, outcome_for_batch-timeless, timeless-next_state,
}
use utaki_tick_data_platform.Ingest.Ownership.{reconcile_journal-BelongsTo}
use utaki_tick_data_platform.Ingest.Rebuilt.{BelongsTo, reconcile_journal-Replays}
use utaki_tick_data_platform.Ingest.Accept.{AcceptIo, Answer, accept_batch}
use utaki_tick_data_platform.Ingest.Recorded.{Recorded, Untouched, Explained, accept_new-Explained}
use utaki_tick_data_platform.Ingest.Answered.{accept_batch-either}

-- The log is retained from its start, and the batches of its entries lead, in their order and from the
-- configured cursor and count, to the journal's state.
abbrev pub InStep : Gateway → Type 0
InStep g =
    (g.wal.pruned_through ≡ 0)
    × BelongsTo g.config g.journal
    × Replays g.config g.wal.entries g.journal

module _ (io : AcceptIo) (raw : Bytes) (batch : BatchFrameV1)
    (frame : decode_batch_frame raw ≡ ok batch) where
  Recorded-InStep :
      (g g' : Gateway) (entry : WalEntry) (row : Journal.Batch)
      → Recorded io raw batch g g' entry row
      → InStep g
      → InStep g'
  unfolding decode_wal_entry
  Recorded-InStep g g' entry row r (whole, own, replayed) =
      let outcome = outcome_for_batch g.journal.state batch g.config in
      let decoded : decode_wal_entry entry ≡ ok batch =
        ap (λ (b : Bytes). map_err GatewayError.wal (decode_batch_frame b)) r.frame
        ∙ ap (map_err GatewayError.wal) frame in
      let next = replay-snoc g.config g.wal.entries entry batch _ _ replayed decoded in
      let state : expected_after entry (outcome_for_batch (timeless g.journal.state) batch g.config)
            (timeless g.journal.state)
          ≡ timeless g'.journal.state =
        ap (λ o. expected_after entry o (timeless g.journal.state))
          (outcome_for_batch-timeless g.journal.state batch g.config)
        ∙ sym (timeless-next_state entry outcome io.journal_now g.journal.state)
        ∙ sym (ap (λ (j : Journal.Store). timeless j.state) r.journal) in
      (
        r.pruned_through ∙ whole,
        subst (λ (c : Config). BelongsTo c g'.journal) (sym r.config)
            (subst (BelongsTo g.config) (sym r.journal) own),
        subst (λ (c : Config). Replays c g'.wal.entries g'.journal) (sym r.config)
            (subst (λ (es : List WalEntry). Replays g.config es g'.journal) (sym r.entries)
              (next ∙ ap ok state)),
      )

abbrev InStepIf : Answer → Type 0
InStepIf (err e, g') = Unit {0}
InStepIf (ok answer, g') = InStep g'

Untouched-InStep : (g g' : Gateway) → Untouched g g' → InStep g → InStep g'
Untouched-InStep g g' u (whole, own, replayed) = (
  ap (λ (w : Store.Store). w.pruned_through) u.wal ∙ whole,
  subst (λ (c : Config). BelongsTo c g'.journal) (sym u.config)
      (subst (BelongsTo g.config) (sym u.journal) own),
  subst (λ (c : Config). Replays c g'.wal.entries g'.journal) (sym u.config)
      (subst (λ (w : Store.Store). Replays g.config w.entries g'.journal) (sym u.wal)
        (subst (Replays g.config g.wal.entries) (sym u.journal) replayed)),
)

Explained-InStep :
    (io : AcceptIo) (raw : Bytes) (batch : BatchFrameV1) (g : Gateway) (a : Answer)
    → decode_batch_frame raw ≡ ok batch
    → InStep g
    → Explained io raw batch g a
    → InStepIf a
Explained-InStep io raw batch g (err e, g') frame step h = tt
Explained-InStep io raw batch g (ok (ack, terminal), g') frame step (inl (same, retry)) =
    Untouched-InStep g g' same step
Explained-InStep io raw batch g (ok (ack, terminal), g') frame step (inr (entry, row, r, answer)) =
    Recorded-InStep io raw batch frame g g' entry row r step

-- From a gateway whose log is retained from its start, whose journal was made for its configuration and
-- whose journal's state is the one that the batches of the log lead to, the times of update aside, every
-- answer to a batch that its frame decodes to leaves such a gateway.
pub accept_batch-InStep :
    (io : AcceptIo) (raw : Bytes) (batch : BatchFrameV1) (hello : HelloV1) (lease : Bytes)
    (generation : ℕ) (g g' : Gateway) (ack : AckV1) (terminal : Bool)
    → accept_batch io raw batch hello lease generation g ≡ (ok (ack, terminal), g')
    → decode_batch_frame raw ≡ ok batch
    → InStep g
    → InStep g'
accept_batch-InStep io raw batch hello lease generation g g' ack terminal h frame
      (whole, own, replayed) =
    subst InStepIf h (
      accept_batch-either io raw batch g InStepIf
        (λ j. BelongsTo g.config j × Replays g.config g.wal.entries j) (own, replayed)
        (λ j again. (
          subst (BelongsTo g.config)
              (ap (λ (r : Result GatewayError (Unit {0}) × Journal.Store). r.1) again)
              (reconcile_journal-BelongsTo io.reconcile g.config g.wal g.journal own),
          reconcile_journal-Replays io.reconcile g.config g.wal g.journal j again whole own,
        ))
        (λ e j failed. tt) (λ e j reached. tt)
        (λ ack' terminal' j metrics reached other. (whole, reached.0, reached.1))
        (λ j reached.
          Explained-InStep io raw batch (record g { journal = j }) _ frame
            (whole, reached.0, reached.1)
            (accept_new-Explained io raw batch (record g { journal = j }) _))
        hello lease generation)
