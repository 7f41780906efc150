-- ===== src/Ingest/Accept.antt =====
-- acceptBatch of internal/ingest/gateway.go: a batch of a session is answered, and is in the log and in
-- the journal before it is acknowledged as accepted.
use utaki_tick_data_platform.Common.{
  ℕ, ◌+◌, ◌%◌, ◌^◌, List, [], ◌∷◌, Bool, true, false, not, ◌&&◌, ◌||◌, Result, ok, err, ◌>>=◌,
  map_err, Option, none, some, Bytes, ℤ, bytes_eq, length, ltb, ◌==◌, if◌then◌else◌,
}
use utaki_tick_data_platform.Protocol.{
  AckV1, BatchFrameV1, HelloV1, Message, ErrorCode, ack_duplicate, ack_retryable_error,
  ack_source_state_conflict, ack_session_lease_conflict,
}
use utaki_tick_data_platform.Protocol.Decode.{decode}
use utaki_tick_data_platform.Protocol.Hashes.{gateway_batch_sha256}
use utaki_tick_data_platform.Wal.{WalEntry}
use utaki_tick_data_platform.Wal.Store.{AppendIo, append}
use utaki_tick_data_platform.Journal.{
  Batch, JournalError, Outcome, State, read_state, lookup, apply,
}
use utaki_tick_data_platform.Journal
use utaki_tick_data_platform.Ingest.Cursor.{outcome_for_batch}
use utaki_tick_data_platform.Ingest.Disk.{DiskUsage, DiskStateMachine, ready_for_ack, mark_poisoned}
use utaki_tick_data_platform.Ingest.Session.{GatewayError, session_active}
use utaki_tick_data_platform.Ingest.Gateway.{Gateway, Metrics, refusal, ack_from_batch}
use utaki_tick_data_platform.Ingest.Reconcile.{ReconcileIo, reconcile_journal}

-- What the outside does during a call: the clocks, the readings of the disk before the append, at a
-- failure and before the answer, the operating system, SQLite and the hooks.
pub record AcceptIo : Type 0 where
  pub now : ℕ
  pub reconcile : ReconcileIo
  pub reading_before : Option DiskUsage
  pub receive_wall_s : ℤ
  pub receive_monotonic_us : ℕ
  pub append : AppendIo
  pub reading_failed : Option DiskUsage
  pub after_wal_sync : Bool
  pub committed : Bool
  pub journal_now : ℤ
  pub after_journal_commit : Bool
  pub reading_after : Option DiskUsage

-- An answer with its terminal mark, and the gateway afterwards.
abbrev pub Answer : Type 0
Answer = Result GatewayError (AckV1 × Bool) × Gateway

abbrev pub identity_of : Message → Bytes → ℕ → Bool
identity_of (Message.batch b) session sequence =
    bytes_eq b.producer_session_id session && b.batch_sequence == sequence
identity_of _ session sequence = false

-- Whether the entry of that batch has the hash, none where the log has no such entry.
unfoldable pub find_wal_identity :
    Bytes → ℕ → Bytes → List WalEntry → Result GatewayError (Option Bool)
find_wal_identity session sequence hash [] = ok none
find_wal_identity session sequence hash (entry ∷ entries) = do
  message ← map_err GatewayError.protocol (decode entry.frame)
  let rest = find_wal_identity session sequence hash entries
  if identity_of message session sequence then ok (some (bytes_eq entry.batch_hash hash)) else rest

abbrev pub count_rejected : Metrics → Metrics
count_rejected m = record m { rejected_batches = (m.rejected_batches + 1) % 2 ^ 64 }

abbrev pub count_duplicate : Metrics → Metrics
count_duplicate m = record m { duplicate_batches = (m.duplicate_batches + 1) % 2 ^ 64 }

abbrev pub count_accepted : ℕ → Metrics → Metrics
count_accepted records m = record m {
  accepted_batches = (m.accepted_batches + 1) % 2 ^ 64;
  accepted_records = (m.accepted_records + records) % 2 ^ 64;
}

-- The row of another frame under the same identity, answered with the cursor of that row.
abbrev pub conflicting : BatchFrameV1 → Bytes → Batch → AckV1
conflicting batch incoming_hash stored = record (ack_from_batch stored ack_source_state_conflict) {
  producer_session_id = batch.producer_session_id;
  batch_sequence = batch.batch_sequence;
  gateway_batch_sha256 = incoming_hash;
}

unfoldable pub answer_stored : BatchFrameV1 → Bytes → Batch → Gateway → Answer
answer_stored batch incoming_hash stored g =
    if not (bytes_eq stored.gateway_batch_sha256 incoming_hash)
    then (
      ok (conflicting batch incoming_hash stored, true),
      record g { metrics = count_rejected g.metrics },
    )
    else (
      ok (ack_from_batch stored ack_duplicate, false),
      record g { metrics = count_duplicate g.metrics },
    )

-- The answer to an entry that is in the log and whose row is in the journal.
unfoldable pub acknowledge :
    BatchFrameV1 → WalEntry → Batch → Bool × DiskStateMachine → Gateway → Answer
acknowledge batch entry stored (true, disk) g = (
  ok (
    ack_from_batch stored stored.status,
    stored.status == ack_source_state_conflict || stored.status == ack_session_lease_conflict,
  ),
  record g { disk = disk; metrics = count_accepted (length batch.records) g.metrics },
)
acknowledge batch entry stored (false, disk) g = (
  ok (
    record (refusal g.config batch entry.batch_hash ack_retryable_error) {
      gateway_ingest_sequence = entry.sequence;
    },
    false,
  ),
  record g { disk = disk },
)

abbrev pub recorded :
    AcceptIo
    → BatchFrameV1
    → WalEntry
    → Gateway
    → Result JournalError (Batch × Journal.Store)
    → Answer
recorded io batch entry g (err e) = (err (GatewayError.journal e), g)
recorded io batch entry g (ok (stored, journal)) =
    let after = record g { journal = journal } in
    if not io.after_journal_commit
    then (err GatewayError.hook_failed, after)
    else acknowledge batch entry stored (ready_for_ack io.reading_after g.disk) after

-- The entry is in the log.
unfoldable pub record_entry : AcceptIo → BatchFrameV1 → Outcome → WalEntry → Gateway → Answer
record_entry io batch outcome entry g =
    if not io.after_wal_sync
    then (err GatewayError.hook_failed, record g { disk = mark_poisoned io.reading_failed g.disk })
    else recorded io batch entry g (apply io.committed io.journal_now entry batch outcome g.journal)

unfoldable pub append_batch_frame : AcceptIo → Bytes → BatchFrameV1 → State → Gateway → Answer
append_batch_frame io raw batch state g =
    let appended = append io.append raw io.receive_wall_s io.receive_monotonic_us g.wal in
    let after = record g { wal = appended.1 } in
    elim appended.0 [
      | err e ↦
          (err (GatewayError.wal e), record after { disk = mark_poisoned io.reading_failed g.disk })
      | ok entry ↦ record_entry io batch (outcome_for_batch state batch g.config) entry after
    ]

-- A batch that is neither in the journal nor in the log.
unfoldable pub accept_new : AcceptIo → Bytes → BatchFrameV1 → Bytes → Gateway → Answer
accept_new io raw batch incoming_hash g =
    let ready = ready_for_ack io.reading_before g.disk in
    let after = record g { disk = ready.1 } in
    if not ready.0
    then (ok (refusal g.config batch incoming_hash ack_retryable_error, false), after)
    else elim (read_state g.journal) [
      | err e ↦ (err (GatewayError.journal e), after)
      | ok state ↦ append_batch_frame io raw batch state after
    ]

-- The second lookup, once the journal is rebuilt.
unfoldable pub accept_reconciled :
    AcceptIo
    → Bytes
    → BatchFrameV1
    → Bytes
    → Result GatewayError (Unit {0}) × Journal.Store
    → Gateway
    → Answer
accept_reconciled io raw batch incoming_hash (err e, journal) g =
    (err e, record g { journal = journal })
accept_reconciled io raw batch incoming_hash (ok done, journal) g =
    let after = record g { journal = journal } in
    elim (lookup batch.producer_session_id batch.batch_sequence journal) [
      | err e ↦ (err (GatewayError.journal e), after)
      | ok none ↦ accept_new io raw batch incoming_hash after
      | ok (some stored) ↦ answer_stored batch incoming_hash stored after
    ]

-- A batch that the journal does not have.
unfoldable pub accept_unknown : AcceptIo → Bytes → BatchFrameV1 → Bytes → Gateway → Answer
accept_unknown io raw batch incoming_hash g =
    elim (find_wal_identity batch.producer_session_id batch.batch_sequence incoming_hash
      g.wal.entries) [
        | err e ↦ (err e, g)
        | ok none ↦ accept_new io raw batch incoming_hash g
        | ok (some false) ↦ (
          ok (refusal g.config batch incoming_hash ack_source_state_conflict, true),
          record g { metrics = count_rejected g.metrics },
        )
        | ok (some true) ↦
            accept_reconciled io raw batch incoming_hash
              (reconcile_journal io.reconcile g.config g.wal g.journal) g
      ]

unfoldable pub accept_in_session : AcceptIo → Bytes → BatchFrameV1 → Bytes → Gateway → Answer
accept_in_session io raw batch incoming_hash g =
    elim (lookup batch.producer_session_id batch.batch_sequence g.journal) [
      | err e ↦ (err (GatewayError.journal e), g)
      | ok none ↦ accept_unknown io raw batch incoming_hash g
      | ok (some stored) ↦ answer_stored batch incoming_hash stored g
    ]

unfoldable pub accept_batch :
    AcceptIo → Bytes → BatchFrameV1 → HelloV1 → Bytes → ℕ → Gateway → Answer
accept_batch io raw batch hello lease generation g =
    let incoming_hash = gateway_batch_sha256 raw in
    if not (session_active io.now lease generation g.session)
    then (ok (refusal g.config batch incoming_hash ack_session_lease_conflict, true), g)
    else if ltb g.config.max_records (length batch.records)
        || ltb g.config.maximum_batch_count batch.requested_count
    then (err (GatewayError.protocol ErrorCode.oversized_frame), g)
    else if not (
        bytes_eq batch.producer_session_id hello.producer_session_id
        && bytes_eq batch.session_lease_id lease)
    then (ok (refusal g.config batch incoming_hash ack_session_lease_conflict, true), g)
    else accept_in_session io raw batch incoming_hash g
