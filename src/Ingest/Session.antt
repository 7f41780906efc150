-- ===== src/Ingest/Session.antt =====
-- The session lease of internal/ingest/gateway.go: the one producer session that may send batches.
-- Instants are nanoseconds of the monotonic clock, and the reading of the clock is an argument.
use utaki_tick_data_platform.Common.{
  ℕ, suc, ◌+◌, ◌-◌, ◌/◌, ◌%◌, ◌^◌, [], Bool, not, ◌&&◌, ◌||◌, Result, ok, err, require, ◌>>=◌, ◌>>◌,
  map_err, Option, none, some, Bytes, ℤ, pos, negsuc, bytes_eq, length, ltb, ◌==◌, if◌then◌else◌,
}
use utaki_tick_data_platform.Protocol.{
  HelloV1, ResumeV1, ErrorCode, protocol_version, source_schema_mt5,
}
use utaki_tick_data_platform.Protocol.Hashes.{derive_session_lease_id}
use utaki_tick_data_platform.Wal.{WalError}
use utaki_tick_data_platform.Journal.{
  State, Batch, JournalError, zero_digest, read_state, last_for_session,
}
use utaki_tick_data_platform.Journal
use utaki_tick_data_platform.Ingest.Config.{Config}

pub data GatewayError : Type 0 where
  protocol : ErrorCode → GatewayError
  journal : JournalError → GatewayError
  wal : WalError → GatewayError
  -- net.ErrClosed, wal.ErrIntegrity and an error of a hook
  closed integrity hook_failed : GatewayError

pub record Session : Type 0 where
  pub closed : Bool
  pub active_lease : Bytes
  pub active_until : ℕ
  pub active_generation : ℕ
  pub next_generation : ℕ

-- now.Add(duration)
abbrev pub after : ℕ → ℤ → ℕ
after now (pos d) = now + d
after now (negsuc d) = now - suc d

unfoldable pub session_active : ℕ → Bytes → ℕ → Session → Bool
session_active now lease generation s =
    not s.closed
    && (bytes_eq s.active_lease lease
        && (s.active_generation == generation && ltb now s.active_until))

unfoldable pub release_session : Bytes → ℕ → Session → Session
release_session lease generation s =
    if bytes_eq s.active_lease lease && s.active_generation == generation
    then record s { active_lease = []; active_until = 0; active_generation = 0 }
    else s

unfoldable pub touch_session : ℤ → ℕ → Bytes → ℕ → Session → Session
touch_session timeout now lease generation s =
    if not s.closed && (bytes_eq s.active_lease lease && s.active_generation == generation)
    then record s { active_until = after now timeout }
    else s

-- A uint64 counter that skips zero.
abbrev pub following_generation : ℕ → ℕ
following_generation n = let next = (n + 1) % 2 ^ 64 in if next == 0 then 1 else next

-- The part of startSession under the gateway's mutex: the lease is taken, or refused.
unfoldable pub acquire_session : ℤ → ℕ → Bytes → Session → Result GatewayError Session
acquire_session timeout now lease s = do
  require (not s.closed) GatewayError.closed
  require (length s.active_lease == 0 || not (ltb now s.active_until))
      (GatewayError.protocol ErrorCode.session_lease_conflict)
  ok (record s {
    next_generation = following_generation s.next_generation;
    active_lease = lease;
    active_until = after now timeout;
    active_generation = following_generation s.next_generation;
  })

-- An empty configured value accepts every value.
abbrev pub agrees : Bytes → Bytes → Bool
agrees got want = length want == 0 || bytes_eq got want

unfoldable pub validate_hello : Config → HelloV1 → Result GatewayError (Unit {0})
validate_hello config hello =
    let invalid = GatewayError.protocol ErrorCode.invalid_field in
    do
      require
          (not (
            length hello.producer_instance_id == 0
            || (length hello.producer_session_id == 0 || length hello.exact_source_symbol == 0)))
          invalid
      require (bytes_eq hello.source_schema_id source_schema_mt5) invalid
      require (agrees hello.producer_instance_id config.producer_instance_id) invalid
      require (agrees hello.producer_build_id config.producer_build_id) invalid
      require (agrees hello.provider_id config.provider_id) invalid
      require (agrees hello.stable_feed_id config.stable_feed_id) invalid
      require (agrees hello.broker_server_fingerprint config.broker_server_fingerprint) invalid
      require (agrees hello.exact_source_symbol config.exact_source_symbol) invalid
      ok tt

unfoldable pub lease_of : HelloV1 → Bytes
lease_of hello =
    derive_session_lease_id hello.producer_instance_id hello.producer_session_id hello.provider_id
      hello.stable_feed_id hello.broker_server_fingerprint hello.exact_source_symbol

-- uint32(d / time.Millisecond)
unfoldable pub milliseconds : ℤ → ℕ
milliseconds (pos d) = (d / 1_000_000) % 2 ^ 32
milliseconds (negsuc d) = (2 ^ 32 - (suc d / 1_000_000) % 2 ^ 32) % 2 ^ 32

unfoldable pub resume_of : Config → Bytes → State → Option Batch → ResumeV1
resume_of config lease state last = record {
  accepted_protocol_version = protocol_version;
  gateway_instance_id = config.gateway_instance_id;
  session_lease_id = lease;
  committed_cursor_msc = state.committed_cursor_msc;
  committed_boundary_digest = state.committed_boundary_digest;
  last_durable_batch_sequence = elim last [ none ↦ 0 | some b ↦ b.batch_sequence ];
  last_durable_batch_hash = elim last [ none ↦ zero_digest | some b ↦ b.gateway_batch_sha256 ];
  next_from_msc = state.next_from_msc;
  next_requested_count = state.next_requested_count;
  maximum_frame_bytes = config.max_frame_bytes;
  maximum_records = config.max_records;
  heartbeat_idle_timeout_ms = milliseconds config.heartbeat_idle_timeout;
}

-- What startSession reads of the journal once it holds the lease.
unfoldable pub read_resume : Config → Journal.Store → HelloV1 → Result GatewayError ResumeV1
read_resume config store hello = do
  state ← map_err GatewayError.journal (read_state store)
  last ← map_err GatewayError.journal (last_for_session hello.producer_session_id store)
  ok (resume_of config (lease_of hello) state last)

-- With an error of the journal the lease is released.
abbrev pub answer :
    Bytes
    → Session
    → Result GatewayError ResumeV1
    → Result GatewayError (ResumeV1 × Bytes × ℕ) × Session
answer lease s (ok resume) = (ok (resume, lease, s.active_generation), s)
answer lease s (err e) = (err e, release_session lease s.active_generation s)

abbrev pub take_lease :
    Config
    → Journal.Store
    → HelloV1
    → Session
    → Result GatewayError Session
    → Result GatewayError (ResumeV1 × Bytes × ℕ) × Session
take_lease config store hello s (ok taken) =
    answer (lease_of hello) taken (read_resume config store hello)
take_lease config store hello s (err e) = (err e, s)

unfoldable pub start_session :
    Config
    → Journal.Store
    → HelloV1
    → ℕ
    → Session
    → Result GatewayError (ResumeV1 × Bytes × ℕ) × Session
start_session config store hello now s = elim (validate_hello config hello) [
  | err e ↦ (err e, s)
  | ok valid ↦
      take_lease config store hello s
        (acquire_session config.session_lease_timeout now (lease_of hello) s)
]
