-- ===== src/Journal.antt =====
-- internal/journal/journal.go: the index that is rebuilt from the log. The two tables are the row
-- of `gateway_state` and a list of the rows of `batches`, the newest first; their keys are those of
-- the CREATE TABLE statements. A transaction that SQLite does not carry out is an argument,
-- `committed`, and changes nothing.
pub mod Laws
mod Tests
use utaki_tick_data_platform.Common.{
  ℕ, ◌-◌, ◌^◌, List, [], ◌∷◌, Bool, true, false, not, ◌&&◌, ◌||◌, Result, ok, err, require, ◌>>=◌,
  ◌>>◌, Option, none, some, Bytes, ℤ, bytes_eq, length, ltb, ◌==◌, if◌then◌else◌,
}
use utaki_tick_data_platform.Protocol.{BatchFrameV1}
use utaki_tick_data_platform.Wal.{WalEntry}

pub record State : Type 0 where
  pub gateway_instance_id : Bytes
  pub committed_cursor_msc : ℤ
  pub committed_boundary_digest : Bytes
  pub next_from_msc : ℤ
  pub next_requested_count : ℕ
  pub last_ingest_sequence : ℕ
  pub last_entry_hash : Bytes
  pub updated_wall_s : ℤ

pub record Outcome : Type 0 where
  pub status : ℕ
  pub committed_cursor_msc : ℤ
  pub committed_boundary_digest : Bytes
  pub next_from_msc : ℤ
  pub next_requested_count : ℕ

pub record Batch : Type 0 where
  pub producer_session_id : Bytes
  pub batch_sequence : ℕ
  pub gateway_batch_sha256 : Bytes
  pub gateway_ingest_sequence : ℕ
  pub status : ℕ
  pub committed_cursor_msc : ℤ
  pub committed_boundary_digest : Bytes
  pub next_from_msc : ℤ
  pub next_requested_count : ℕ
  pub frame : Bytes

pub record Store : Type 0 where
  pub gateway_id : Bytes
  pub initial_from_msc : ℤ
  pub initial_count : ℕ
  pub state : State
  pub batches : List Batch

pub data JournalError : Type 0 where
  -- sqliteInt
  out_of_range : JournalError
  -- a PRIMARY KEY or UNIQUE constraint, or a transaction that was not carried out
  insert_refused transaction_failed : JournalError
  invalid_bytes : JournalError

abbrev pub zero_digest : Bytes
zero_digest =
    0 ∷ 0 ∷ 0 ∷ 0 ∷ 0 ∷ 0 ∷ 0 ∷ 0 ∷ 0 ∷ 0 ∷ 0 ∷ 0 ∷ 0 ∷ 0 ∷ 0 ∷ 0 ∷ 0 ∷ 0 ∷ 0 ∷ 0 ∷ 0 ∷ 0 ∷ 0 ∷ 0
    ∷ 0 ∷ 0 ∷ 0 ∷ 0 ∷ 0 ∷ 0 ∷ 0 ∷ 0 ∷ []

unfoldable pub sqlite_int : ℕ → Result JournalError ℕ
sqlite_int value = if ltb (2 ^ 63 - 1) value then err JournalError.out_of_range else ok value

-- The row that `initialize` and `Reset` insert.
unfoldable pub initial_state : Bytes → ℤ → ℕ → ℤ → State
initial_state gateway_id initial_from_msc initial_count now = record {
  gateway_instance_id = gateway_id;
  committed_cursor_msc = initial_from_msc;
  committed_boundary_digest = zero_digest;
  next_from_msc = initial_from_msc;
  next_requested_count = initial_count;
  last_ingest_sequence = 0;
  last_entry_hash = zero_digest;
  updated_wall_s = now;
}

-- The columns hold what was stored, which `State()` checks when it copies them into arrays.
unfoldable pub read_state : Store → Result JournalError State
read_state s = do
  require
      (length s.state.committed_boundary_digest == 32
        && (length s.state.last_entry_hash == 32
            && not (ltb (2 ^ 32 - 1) s.state.next_requested_count)))
      JournalError.invalid_bytes
  ok s.state

abbrev pub is_row : Bytes → ℕ → Batch → Bool
is_row session sequence row =
    bytes_eq row.producer_session_id session && row.batch_sequence == sequence

unfoldable pub find_row : Bytes → ℕ → List Batch → Option Batch
find_row session sequence [] = none
find_row session sequence (row ∷ rows) =
    if is_row session sequence row then some row else find_row session sequence rows

unfoldable pub check_row : Option Batch → Result JournalError (Option Batch)
check_row none = ok none
check_row (some row) = do
  require
      (length row.gateway_batch_sha256 == 32
        && (length row.committed_boundary_digest == 32
            && (not (ltb 255 row.status) && not (ltb (2 ^ 32 - 1) row.next_requested_count))))
      JournalError.invalid_bytes
  ok (some row)

unfoldable pub lookup : Bytes → ℕ → Store → Result JournalError (Option Batch)
lookup session batch_sequence s = do
  sequence ← sqlite_int batch_sequence
  check_row (find_row session sequence s.batches)

-- ORDER BY batch_sequence DESC LIMIT 1
unfoldable pub last_sequence : Bytes → List Batch → Option ℕ
last_sequence session [] = none
last_sequence session (row ∷ rows) =
    let rest = last_sequence session rows in
    if not (bytes_eq row.producer_session_id session) then rest else elim rest [
      | none ↦ some row.batch_sequence
      | some n ↦ if ltb n row.batch_sequence then some row.batch_sequence else some n
    ]

unfoldable pub last_for_session : Bytes → Store → Result JournalError (Option Batch)
last_for_session session s = elim (last_sequence session s.batches) [
  | none ↦ ok none
  | some n ↦ lookup session n s
]

unfoldable pub count : Store → ℕ
count s = length s.batches

-- The primary key (producer_session_id, batch_sequence) and the unique ingest sequence.
unfoldable pub conflicts : Bytes → ℕ → ℕ → List Batch → Bool
conflicts session sequence ingest [] = false
conflicts session sequence ingest (row ∷ rows) =
    is_row session sequence row
    || row.gateway_ingest_sequence == ingest
    || conflicts session sequence ingest rows

unfoldable pub new_row : WalEntry → BatchFrameV1 → Outcome → Batch
new_row entry batch outcome = record {
  producer_session_id = batch.producer_session_id;
  batch_sequence = batch.batch_sequence;
  gateway_batch_sha256 = entry.batch_hash;
  gateway_ingest_sequence = entry.sequence;
  status = outcome.status;
  committed_cursor_msc = outcome.committed_cursor_msc;
  committed_boundary_digest = outcome.committed_boundary_digest;
  next_from_msc = outcome.next_from_msc;
  next_requested_count = outcome.next_requested_count;
  frame = entry.frame;
}

unfoldable pub next_state : WalEntry → Outcome → ℤ → State → State
next_state entry outcome now state = record {
  gateway_instance_id = state.gateway_instance_id;
  committed_cursor_msc = outcome.committed_cursor_msc;
  committed_boundary_digest = outcome.committed_boundary_digest;
  next_from_msc = outcome.next_from_msc;
  next_requested_count = outcome.next_requested_count;
  last_ingest_sequence = entry.sequence;
  last_entry_hash = entry.entry_hash;
  updated_wall_s = now;
}

-- The row that is returned and the tables afterwards; with an error the tables are as before.
unfoldable pub apply :
    Bool → ℤ → WalEntry → BatchFrameV1 → Outcome → Store → Result JournalError (Batch × Store)
apply committed now entry batch outcome s = do
  sequence ← sqlite_int batch.batch_sequence
  ingest_sequence ← sqlite_int entry.sequence
  require (not (conflicts batch.producer_session_id sequence ingest_sequence s.batches))
      JournalError.insert_refused
  require committed JournalError.transaction_failed
  ok (
    new_row entry batch outcome,
    record s {
      state = next_state entry outcome now s.state;
      batches = new_row entry batch outcome ∷ s.batches;
    },
  )

unfoldable pub reset : Bool → ℤ → Store → Result JournalError Store
reset committed now s = do
  require committed JournalError.transaction_failed
  ok (record s {
    state = initial_state s.gateway_id s.initial_from_msc s.initial_count now;
    batches = [];
  })
