-- ===== src/Wal.antt =====
-- internal/wal: the constants, the entries and the errors of the write-ahead log.
pub mod Entry
pub mod EntryBytes
pub mod ParseEntry
pub mod CanonicalEntry
pub mod Chain
pub mod CrashTail
pub mod Recovered
pub mod Store
pub mod Appended
pub mod Termination
pub mod Growth
pub mod Durable
mod Tests
pub mod Header
pub mod Segment
use utaki_tick_data_platform.Common.{ℕ, List, [], ◌∷◌, Bytes, ℤ}
use utaki_tick_data_platform.Protocol.{ErrorCode}

abbrev pub wal_schema_version : ℕ
wal_schema_version = 1

abbrev pub entry_version : ℕ
entry_version = 1

abbrev pub entry_fixed_bytes : ℕ
entry_fixed_bytes = 140

abbrev pub commit_marker : ℕ
commit_marker = 0x434f4d4d

abbrev pub file_magic : Bytes
file_magic = b'T' ∷ b'W' ∷ b'A' ∷ b'L' ∷ []

abbrev pub trailer_magic : Bytes
trailer_magic = b'T' ∷ b'W' ∷ b'T' ∷ b'R' ∷ []

abbrev pub trailer_version : ℕ
trailer_version = 1

abbrev pub trailer_bytes : ℕ
trailer_bytes = 96

pub data WalError : Type 0 where
  integrity unavailable empty_segment sealed_trailer_at_entry_boundary : WalError
  -- an error that no caller tells from another: of `parseEntry`, or of `Append` on a frame that is
  -- no batch
  plain : WalError
  protocol : ErrorCode → WalError
  -- no Go value: a loop of the model ran out of fuel
  out_of_fuel : WalError

pub record WalEntry : Type 0 where
  pub offset : ℕ
  pub sequence : ℕ
  pub receive_wall_s : ℤ
  pub receive_monotonic_us : ℕ
  pub previous_entry_hash : Bytes
  pub frame : Bytes
  pub batch_hash : Bytes
  pub entry_hash : Bytes

pub record WalHeader : Type 0 where
  pub length : ℕ
  pub start_sequence : ℕ
  pub gateway_id : Bytes

pub record VerifiedSegment : Type 0 where
  pub path : Bytes
  pub gateway_instance_id : Bytes
  pub start_sequence : ℕ
  pub last_sequence : ℕ
  pub entry_count : ℕ
  pub chain_start : Bytes
  pub chain_root : Bytes
  pub trailer_file_sha256 : Bytes
  pub object_sha256 : Bytes
  pub file_bytes : ℕ
  pub entries : List WalEntry
