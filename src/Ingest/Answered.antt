-- ===== src/Ingest/Answered.antt =====
-- acceptBatch of internal/ingest/gateway.go: the ways to an answer.
use utaki_tick_data_platform.Common.{
  ℕ, ◌≡◌, refl, Bool, true, false, not, ◌&&◌, ◌||◌, Result, ok, err, Bytes, bytes_eq, ltb, length,
  ◌==◌, Option, none, some, if_elim,
}
use utaki_tick_data_platform.Protocol.{
  AckV1, BatchFrameV1, HelloV1, ack_accepted_advanced, ack_accepted_no_advance, ack_dense_boundary,
  ack_dense_unresolved, ack_source_state_conflict,
}
use utaki_tick_data_platform.Protocol.Hashes.{gateway_batch_sha256}
use utaki_tick_data_platform.Journal.{Batch, JournalError, lookup}
use utaki_tick_data_platform.Journal
use utaki_tick_data_platform.Ingest.Session.{GatewayError, session_active}
use utaki_tick_data_platform.Ingest.Gateway.{Gateway, Metrics, refusal, ack_from_batch}
use utaki_tick_data_platform.Ingest.Reconcile.{reconcile_journal}
use utaki_tick_data_platform.Ingest.Accept.{
  AcceptIo, Answer, find_wal_identity, count_rejected, answer_stored, accept_new, accept_reconciled,
  accept_unknown, accept_in_session, accept_batch,
}

-- The statuses that say that a batch is recorded.
unfoldable pub is_accepted : ℕ → Bool
is_accepted status =
    status == ack_accepted_advanced
    || (status == ack_accepted_no_advance
        || (status == ack_dense_boundary || status == ack_dense_unresolved))

-- The guards of a batch in a session.
abbrev pub oversized : Gateway → BatchFrameV1 → Bool
oversized g batch =
    ltb g.config.max_records (length batch.records)
    || ltb g.config.maximum_batch_count batch.requested_count

abbrev pub foreign : BatchFrameV1 → HelloV1 → Bytes → Bool
foreign batch hello lease = not (
    bytes_eq batch.producer_session_id hello.producer_session_id
    && bytes_eq batch.session_lease_id lease)

-- What holds of every answer that records nothing, and of every batch that is new, holds of every answer.
module _ (io : AcceptIo) (raw : Bytes) (batch : BatchFrameV1) (g : Gateway) (P : Answer → Type 0)
    (Reached : Journal.Store → Type 0) (start : Reached g.journal)
    (again : (j : Journal.Store)
      → reconcile_journal io.reconcile g.config g.wal g.journal ≡ (ok tt, j)
      → Reached j)
    (unreconciled : (e : GatewayError) (j : Journal.Store)
      → reconcile_journal io.reconcile g.config g.wal g.journal ≡ (err e, j)
      → P (err e, record g { journal = j }))
    (stopped : (e : GatewayError) (j : Journal.Store)
      → Reached j
      → P (err e, record g { journal = j }))
    (answered : (ack : AckV1) (terminal : Bool) (j : Journal.Store) (metrics : Metrics)
      → Reached j
      → is_accepted ack.status ≡ false
      → P (ok (ack, terminal), record g { journal = j; metrics = metrics }))
    (new : (j : Journal.Store)
      → Reached j
      → P (accept_new io raw batch (gateway_batch_sha256 raw) (record g { journal = j }))) where
  abbrev hash : Bytes
  hash = gateway_batch_sha256 raw

  answer_stored-either :
      (j : Journal.Store)
      → Reached j
      → (row : Batch) → P (answer_stored batch hash row (record g { journal = j }))
  unfolding answer_stored ack_from_batch is_accepted
  answer_stored-either j reached row =
      if_elim P (not (bytes_eq row.gateway_batch_sha256 hash))
        (λ other. answered _ _ j _ reached refl) (λ same. answered _ _ j _ reached refl)

  accept_reconciled-either :
      (r : Result GatewayError (Unit {0}) × Journal.Store)
      → reconcile_journal io.reconcile g.config g.wal g.journal ≡ r
      → P (accept_reconciled io raw batch hash r g)
  unfolding accept_reconciled
  accept_reconciled-either (err e, j) h = unreconciled e j h
  accept_reconciled-either (ok done, j) h =
      found (lookup batch.producer_session_id batch.batch_sequence j)
    where
      found :
          (r : Result JournalError (Option Batch))
          → P (elim r [
            | err e ↦ (err (GatewayError.journal e), record g { journal = j })
            | ok none ↦ accept_new io raw batch hash (record g { journal = j })
            | ok (some stored) ↦ answer_stored batch hash stored (record g { journal = j })
          ])
      found (err e) = stopped _ j (again j h)
      found (ok none) = new j (again j h)
      found (ok (some row)) = answer_stored-either j (again j h) row

  accept_unknown-either : P (accept_unknown io raw batch hash g)
  unfolding accept_unknown refusal is_accepted
  accept_unknown-either =
      known (find_wal_identity batch.producer_session_id batch.batch_sequence hash g.wal.entries)
    where
      known :
          (r : Result GatewayError (Option Bool))
          → P (elim r [
            | err e ↦ (err e, g)
            | ok none ↦ accept_new io raw batch hash g
            | ok (some false) ↦ (
              ok (refusal g.config batch hash ack_source_state_conflict, true),
              record g { metrics = count_rejected g.metrics },
            )
            | ok (some true) ↦
                accept_reconciled io raw batch hash
                  (reconcile_journal io.reconcile g.config g.wal g.journal)
                  g
          ])
      known (err e) = stopped e g.journal start
      known (ok none) = new g.journal start
      known (ok (some false)) = answered _ _ g.journal _ start refl
      known (ok (some true)) = accept_reconciled-either _ refl

  pub accept_in_session-either : P (accept_in_session io raw batch hash g)
  unfolding accept_in_session
  accept_in_session-either = found (lookup batch.producer_session_id batch.batch_sequence g.journal)
    where
      found :
          (r : Result JournalError (Option Batch))
          → P (elim r [
            | err e ↦ (err (GatewayError.journal e), g)
            | ok none ↦ accept_unknown io raw batch hash g
            | ok (some stored) ↦ answer_stored batch hash stored g
          ])
      found (err e) = stopped _ g.journal start
      found (ok none) = accept_unknown-either
      found (ok (some row)) = answer_stored-either g.journal start row

  -- The guards in front of the lookups.
  pub accept_batch-either :
      (hello : HelloV1) (lease : Bytes) (generation : ℕ)
      → P (accept_batch io raw batch hello lease generation g)
  unfolding accept_batch refusal is_accepted
  accept_batch-either hello lease generation =
      if_elim P (not (session_active io.now lease generation g.session))
        (λ inactive. answered _ _ g.journal _ start refl)
        (λ active.
          if_elim P (oversized g batch) (λ large. stopped _ g.journal start)
            (λ sized.
              if_elim P (foreign batch hello lease) (λ other. answered _ _ g.journal _ start refl)
                (λ own. accept_in_session-either)))
