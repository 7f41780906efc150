-- ===== src/Ingest/Reconcile.antt =====
-- reconcileJournal of internal/ingest/gateway.go: the journal is compared with the log, and rebuilt
-- from it where they differ.
use utaki_tick_data_platform.Common.{
  List, [], ◌∷◌, Bool, true, false, not, ◌&&◌, Result, ok, err, require, ◌>>=◌, ◌>>◌, map_err,
  Option, none, some, ℤ, pos, bytes_eq, length, ltb, last_or, ◌==◌, ◌==ℤ◌, if◌then◌else◌,
}
use utaki_tick_data_platform.Protocol.{BatchFrameV1}
use utaki_tick_data_platform.Wal.{WalEntry}
use utaki_tick_data_platform.Wal.Entry.{decode_batch_frame}
use utaki_tick_data_platform.Wal.Store
use utaki_tick_data_platform.Journal.{
  State, Outcome, Batch, JournalError, zero_digest, read_state, lookup, count, apply, reset,
}
use utaki_tick_data_platform.Journal
use utaki_tick_data_platform.Ingest.Config.{Config}
use utaki_tick_data_platform.Ingest.Cursor.{outcome_for_batch}
use utaki_tick_data_platform.Ingest.Session.{GatewayError}

-- Whether the transactions are carried out, and the clock at each.
pub record ReconcileIo : Type 0 where
  pub reset_committed : Bool
  pub reset_now : ℤ
  pub committed : WalEntry → Bool
  pub now : WalEntry → ℤ

unfoldable pub decode_wal_entry : WalEntry → Result GatewayError BatchFrameV1
decode_wal_entry entry = map_err GatewayError.wal (decode_batch_frame entry.frame)

unfoldable pub journal_batch_matches : Batch → WalEntry → BatchFrameV1 → Outcome → Bool
journal_batch_matches stored entry batch outcome =
    bytes_eq stored.producer_session_id batch.producer_session_id
    && (stored.batch_sequence == batch.batch_sequence
        && (bytes_eq stored.gateway_batch_sha256 entry.batch_hash
            && (stored.gateway_ingest_sequence == entry.sequence
                && (stored.status == outcome.status
                    && (stored.committed_cursor_msc ==ℤ outcome.committed_cursor_msc
                        && (bytes_eq stored.committed_boundary_digest
                              outcome.committed_boundary_digest
                            && (stored.next_from_msc ==ℤ outcome.next_from_msc
                                && (stored.next_requested_count == outcome.next_requested_count
                                    && bytes_eq stored.frame entry.frame))))))))

unfoldable pub journal_state_matches : State → State → Bool
journal_state_matches actual expected =
    bytes_eq actual.gateway_instance_id expected.gateway_instance_id
    && (actual.committed_cursor_msc ==ℤ expected.committed_cursor_msc
        && (bytes_eq actual.committed_boundary_digest expected.committed_boundary_digest
            && (actual.next_from_msc ==ℤ expected.next_from_msc
                && (actual.next_requested_count == expected.next_requested_count
                    && (actual.last_ingest_sequence == expected.last_ingest_sequence
                        && bytes_eq actual.last_entry_hash expected.last_entry_hash)))))

-- The state of an empty log.
unfoldable pub expected_at_start : Config → State
expected_at_start config = record {
  gateway_instance_id = config.gateway_instance_id;
  committed_cursor_msc = config.initial_from_msc;
  committed_boundary_digest = zero_digest;
  next_from_msc = config.initial_from_msc;
  next_requested_count = config.initial_batch_count;
  last_ingest_sequence = 0;
  last_entry_hash = zero_digest;
  updated_wall_s = pos 0;
}

unfoldable pub expected_after : WalEntry → Outcome → State → State
expected_after entry outcome expected = record expected {
  committed_cursor_msc = outcome.committed_cursor_msc;
  committed_boundary_digest = outcome.committed_boundary_digest;
  next_from_msc = outcome.next_from_msc;
  next_requested_count = outcome.next_requested_count;
  last_ingest_sequence = entry.sequence;
  last_entry_hash = entry.entry_hash;
}

-- A lookup that fails is a mismatch.
unfoldable pub row_matches :
    Result JournalError (Option Batch) → WalEntry → BatchFrameV1 → Outcome → Bool
row_matches (ok (some stored)) entry batch outcome =
    journal_batch_matches stored entry batch outcome
row_matches (ok none) entry batch outcome = false
row_matches (err e) entry batch outcome = false

-- The state that the entries lead to, none where a row does not match.
unfoldable pub match_entries :
    Config → Journal.Store → List WalEntry → State → Result GatewayError (Option State)
match_entries config store [] expected = ok (some expected)
match_entries config store (entry ∷ entries) expected = do
  batch ← decode_wal_entry entry
  let outcome = outcome_for_batch expected batch config
  let rest = match_entries config store entries (expected_after entry outcome expected)
  if row_matches (lookup batch.producer_session_id batch.batch_sequence store) entry batch outcome
      then rest
      else ok none

abbrev pub state_agrees : Result JournalError State → Option State → Bool
state_agrees (ok actual) (some expected) = journal_state_matches actual expected
state_agrees (ok actual) none = false
state_agrees (err e) expected = false

unfoldable pub journal_matches_wal :
    Config → Journal.Store → List WalEntry → Result GatewayError Bool
journal_matches_wal config store entries = do
  expected ← match_entries config store entries (expected_at_start config)
  ok (state_agrees (read_state store) expected)

abbrev pub retained_row : Option Batch → WalEntry → Bool
retained_row none entry = false
retained_row (some stored) entry =
    stored.gateway_ingest_sequence == entry.sequence
    && (bytes_eq stored.gateway_batch_sha256 entry.batch_hash && bytes_eq stored.frame entry.frame)

unfoldable pub match_retained : Journal.Store → List WalEntry → Result GatewayError Bool
match_retained store [] = ok true
match_retained store (entry ∷ entries) = do
  batch ← decode_wal_entry entry
  stored ←
      map_err GatewayError.journal (lookup batch.producer_session_id batch.batch_sequence store)
  let rest = match_retained store entries
  if retained_row stored entry then rest else ok false

abbrev pub ends_at : Store.Store → State → List WalEntry → Bool
ends_at wal actual [] =
    actual.last_ingest_sequence == wal.pruned_through && bytes_eq actual.last_entry_hash wal.last
ends_at wal actual (first ∷ rest) =
    let last = last_or first rest in
    actual.last_ingest_sequence == last.sequence && bytes_eq actual.last_entry_hash last.entry_hash

unfoldable pub journal_matches_retained_wal :
    Config → Journal.Store → Store.Store → Result GatewayError Bool
journal_matches_retained_wal config store wal = do
  actual ← map_err GatewayError.journal (read_state store)
  let rows = match_retained store wal.entries >>= λ all. ok (all && ends_at wal actual wal.entries)
  if not (bytes_eq actual.gateway_instance_id config.gateway_instance_id) then ok false else rows

-- One round of the rebuilding loop.
unfoldable pub rebuild_entry :
    ReconcileIo → Config → WalEntry → Journal.Store → Result GatewayError Journal.Store
rebuild_entry io config entry store = do
  batch ← decode_wal_entry entry
  state ← map_err GatewayError.journal (read_state store)
  applied ← map_err GatewayError.journal (
      apply (io.committed entry) (io.now entry) entry batch (outcome_for_batch state batch config)
        store)
  ok applied.1

-- With an error the journal keeps the entries before it.
unfoldable pub rebuild_entries :
    ReconcileIo
    → Config
    → List WalEntry
    → Journal.Store
    → Result GatewayError (Unit {0}) × Journal.Store
rebuild_entries io config [] store = (ok tt, store)
rebuild_entries io config (entry ∷ entries) store = elim (rebuild_entry io config entry store) [
  | err e ↦ (err e, store)
  | ok next ↦ rebuild_entries io config entries next
]

unfoldable pub rebuild :
    ReconcileIo
    → Config
    → List WalEntry
    → Journal.Store
    → Result GatewayError (Unit {0}) × Journal.Store
rebuild io config entries store = elim (reset io.reset_committed io.reset_now store) [
  | err e ↦ (err (GatewayError.journal e), store)
  | ok empty ↦ rebuild_entries io config entries empty
]

abbrev pub check_retained : Bool → Result GatewayError Bool → Result GatewayError (Unit {0})
check_retained few matches = do
  require (not few) GatewayError.integrity
  all ← matches
  require all GatewayError.integrity
  ok tt

-- Where the counts are equal the journal is left alone if it matches.
unfoldable pub unless_matches :
    Result GatewayError Bool
    → Result GatewayError (Unit {0}) × Journal.Store
    → Journal.Store
    → Result GatewayError (Unit {0}) × Journal.Store
unless_matches (err e) rebuilt store = (err e, store)
unless_matches (ok true) rebuilt store = (ok tt, store)
unless_matches (ok false) rebuilt store = rebuilt

unfoldable pub reconcile_journal :
    ReconcileIo
    → Config
    → Store.Store
    → Journal.Store
    → Result GatewayError (Unit {0}) × Journal.Store
reconcile_journal io config wal store =
    let rebuilt = rebuild io config wal.entries store in
    if not (wal.pruned_through == 0)
    then (
      check_retained (ltb (count store) (length wal.entries))
          (journal_matches_retained_wal config store wal),
      store,
    )
    else if ltb (length wal.entries) (count store)
    then (err GatewayError.integrity, store)
    else if count store == length wal.entries
    then unless_matches (journal_matches_wal config store wal.entries) rebuilt store
    else rebuilt
