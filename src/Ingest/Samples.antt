-- ===== src/Ingest/Samples.antt =====
-- A concrete gateway, and its answer to a batch.
use utaki_tick_data_platform.Common.{
  ◌≡◌, refl, ap, ◌∙◌, [], ◌∷◌, true, false, ◌||◌, Result, ok, err, map_err, require, ◌>>=◌, Option,
  none, some, Bytes, pos, bytes_eq, ◌==◌, >>=_of_ok, ltℤ, ◌==ℤ◌,
}
use utaki_tick_data_platform.Protocol.{AckV1, HelloV1, source_schema_mt5}
use utaki_tick_data_platform.Protocol.Tests.{sample_batch, sample_wire, decode_sample}
use utaki_tick_data_platform.Wal.{WalEntry, WalError}
use utaki_tick_data_platform.Wal.Entry.{
  as_batch, decode_batch_frame, new_entry, entry_bytes, entry_body,
}
use utaki_tick_data_platform.Wal.Store.{append, append_batch, append_open}
use utaki_tick_data_platform.Wal.Store
use utaki_tick_data_platform.Wal.Appended.{written, appended_entry}
use utaki_tick_data_platform.Journal.{
  Batch, zero_digest, initial_state, sqlite_int, find_row, check_row, lookup, read_state, conflicts,
  new_row, next_state, apply,
}
use utaki_tick_data_platform.Ingest.Config.{Config}
use utaki_tick_data_platform.Ingest.Cursor.{
  max_msc, advanced, outcome_at, outcome_of, outcome_for_batch,
}
use utaki_tick_data_platform.Ingest.Disk.{
  DiskUsage, DiskStateMachine, DiskClass, BlockedReason, ready_for_ack, mark_poisoned, refresh,
  usable, observed, classify_disk, pending_over_limit,
}
use utaki_tick_data_platform.Ingest.Session.{GatewayError, session_active}
use utaki_tick_data_platform.Ingest.Gateway.{Gateway, ack_from_batch}
use utaki_tick_data_platform.Ingest.Accept.{
  AcceptIo, Answer, find_wal_identity, count_accepted, acknowledge, record_entry,
  append_batch_frame, accept_new, accept_unknown, accept_in_session, accept_batch,
}
use utaki_tick_data_platform.Ingest.Answered.{is_accepted}
use utaki_tick_data_platform.Common.{ascii, inr, arith}
use utaki_tick_data_platform.Protocol.{ResumeV1}
use utaki_tick_data_platform.Journal.{last_for_session, last_sequence}
use utaki_tick_data_platform.Ingest.Session.{validate_hello, lease_of, resume_of, read_resume}
use utaki_tick_data_platform.Ingest.SessionStart.{HasGeneration}

abbrev pub config : Config
config = record {
  listen_address = b'l' ∷ [];
  gateway_instance_id = b'g' ∷ [];
  wal_root = b'w' ∷ [];
  raw_outbox_root = [];
  journal_path = b'j' ∷ [];
  max_frame_bytes = 1_048_576;
  max_records = 4096;
  initial_from_msc = pos 0;
  initial_batch_count = 128;
  maximum_batch_count = 1024;
  dense_boundary_hard_cap = 1024;
  session_lease_timeout = pos 30;
  heartbeat_idle_timeout = pos 60;
  disk_high_free_bytes = 300;
  disk_critical_free_bytes = 200;
  disk_emergency_free_bytes = 100;
  max_pending_segments = 0;
  max_pending_bytes = 0;
  producer_instance_id = [];
  producer_build_id = [];
  dataset_id = [];
  provider_id = [];
  stable_feed_id = [];
  broker_server_fingerprint = [];
  exact_source_symbol = [];
  gateway_build_identity = [];
  day_definition_id = [];
  settle_policy = [];
  publisher_id = [];
  publisher_epoch = 0;
}

abbrev pub hello : HelloV1
hello = record {
  producer_instance_id = b'i' ∷ [];
  producer_session_id = b's' ∷ [];
  producer_build_id = b'b' ∷ [];
  provider_id = b'p' ∷ [];
  stable_feed_id = b'f' ∷ [];
  broker_server_fingerprint = b'x' ∷ [];
  exact_source_symbol = b'E' ∷ [];
  mql_compiler_build = [];
  terminal_build = [];
  os_contract = b'o' ∷ [];
  clock_api_id = b'c' ∷ [];
  acquisition_mode = 1;
  source_schema_id = source_schema_mt5;
  initial_from_msc = pos 0;
  capability_flags = 0;
}

abbrev pub lease : Bytes
lease = b'l' ∷ []

abbrev pub machine : DiskStateMachine
machine = record {
  policy = record {
    high_free_bytes = 300;
    critical_free_bytes = 200;
    emergency_free_bytes = 100;
    max_pending_segments = 0;
    max_pending_bytes = 0;
  };
  state = record {
    class = DiskClass.normal;
    free_bytes = 500;
    total_bytes = 1000;
    ready = true;
    ack_allowed = true;
    poisoned = false;
    blocked_reason = BlockedReason.none_blocked;
    pending_segments = 0;
    pending_bytes = 0;
    worker_priority = false;
  };
  poisoned = false;
  wakeups = 0;
}

abbrev pub gateway : Gateway
gateway = record {
  config = config;
  wal = record {
    gateway_id = b'g' ∷ [];
    file = some [];
    entries = [];
    last = zero_digest;
    next = 1;
    start = 1;
    active_at = 0;
    sealed_bytes = 0;
    file_bytes = 0;
    poisoned = false;
    pruned_through = 0;
  };
  journal = record {
    gateway_id = b'g' ∷ [];
    initial_from_msc = pos 0;
    initial_count = 128;
    state = initial_state (b'g' ∷ []) (pos 0) 128 (pos 1_700_000_000);
    batches = [];
  };
  disk = machine;
  session = record {
    closed = false;
    active_lease = lease;
    active_until = 100;
    active_generation = 1;
    next_generation = 1;
  };
  metrics = record {
    accepted_batches = 0;
    accepted_records = 0;
    duplicate_batches = 0;
    rejected_batches = 0;
  };
}

abbrev pub reading : Option DiskUsage
reading = some (record { free_bytes = 400; total_bytes = 1000 })

abbrev pub io : AcceptIo
io = record {
  now = 7;
  reconcile = record {
    reset_committed = true;
    reset_now = pos 1;
    committed = λ e. true;
    now = λ e. pos 1;
  };
  reading_before = reading;
  receive_wall_s = pos 1_700_000_002;
  receive_monotonic_us = 55;
  append = record { write = none; sync = true; stat = true };
  reading_failed = reading;
  after_wal_sync = true;
  committed = true;
  journal_now = pos 1_700_000_002;
  after_journal_commit = true;
  reading_after = reading;
}

pub decoded : decode_batch_frame sample_wire ≡ ok sample_batch
unfolding decode_batch_frame as_batch
decoded = >>=_of_ok as_batch (ap (map_err WalError.protocol) decode_sample)

abbrev pub entry : WalEntry
entry = appended_entry [] sample_wire (pos 1_700_000_002) 55 gateway.wal

abbrev pub row : Batch
row = new_row entry sample_batch (outcome_for_batch gateway.journal.state sample_batch config)

abbrev pub ready : DiskStateMachine
ready = (ready_for_ack reading machine).1

abbrev pub logged : Gateway
logged = record gateway { disk = ready; wal = (written [] entry gateway.wal).1 }

pub appends :
    append io.append sample_wire (pos 1_700_000_002) 55 gateway.wal ≡ written [] entry gateway.wal
unfolding append append_batch append_open entry_bytes entry_body
appends = rw (decoded, append) refl

pub to_append :
    accept_batch io sample_wire sample_batch hello lease 1 gateway
    ≡ append_batch_frame io sample_wire sample_batch gateway.journal.state
        (record gateway { disk = ready })
unfolding accept_batch session_active bytes_eq accept_in_session lookup sqlite_int find_row
    check_row ◌>>=◌ accept_unknown find_wal_identity accept_new ready_for_ack refresh usable
    observed classify_disk pending_over_limit read_state initial_state require
to_append = refl

pub to_entry :
    append_batch_frame io sample_wire sample_batch gateway.journal.state
      (record gateway { disk = ready })
    ≡ record_entry io sample_batch
        (outcome_for_batch gateway.journal.state sample_batch config)
        entry
        logged
unfolding append_batch_frame
to_entry =
    ap
      (λ (r : Result WalError WalEntry × Store.Store). elim r.0 as (λ x. Answer) [
        | err e ↦ (
          err (GatewayError.wal e),
          record gateway { disk = mark_poisoned reading ready; wal = r.1 },
        )
        | ok e ↦
            record_entry io sample_batch
              (outcome_for_batch gateway.journal.state sample_batch config) e
              (record gateway { disk = ready; wal = r.1 })
      ])
      appends

abbrev pub ack : AckV1
ack = ack_from_batch row row.status

abbrev pub recorded_gateway : Gateway
recorded_gateway = record logged {
  disk = (ready_for_ack reading ready).1;
  journal = record gateway.journal {
    state =
        next_state entry (outcome_for_batch gateway.journal.state sample_batch config)
          (pos 1_700_000_002) gateway.journal.state;
    batches = row ∷ [];
  };
  metrics = count_accepted 1 gateway.metrics;
}

pub to_answer :
    record_entry io sample_batch
      (outcome_for_batch gateway.journal.state sample_batch config)
      entry
      logged
    ≡ (ok (ack, row.status == 8 || row.status == 9), recorded_gateway)
unfolding record_entry apply sqlite_int require ◌>>=◌ conflicts new_entry acknowledge ready_for_ack
    refresh usable observed classify_disk pending_over_limit
to_answer = refl

pub accepts :
    accept_batch io sample_wire sample_batch hello lease 1 gateway
    ≡ (ok (ack, row.status == 8 || row.status == 9), recorded_gateway)
accepts = to_append ∙ to_entry ∙ to_answer

pub ack_accepted : is_accepted ack.status ≡ true
unfolding ack_from_batch new_row outcome_for_batch outcome_of outcome_at advanced max_msc ltℤ ◌==ℤ◌
    is_accepted initial_state
ack_accepted = refl

pub session-HasGeneration : HasGeneration gateway.session
session-HasGeneration = (omega arith, inr refl)

pub hello-valid : validate_hello config hello ≡ ok tt
unfolding validate_hello source_schema_mt5 ascii bytes_eq require ◌>>=◌
hello-valid = refl

abbrev pub resume : ResumeV1
resume = resume_of config (lease_of hello) gateway.journal.state none

pub resumed : read_resume config gateway.journal hello ≡ ok resume
unfolding read_resume read_state initial_state last_for_session last_sequence require ◌>>=◌
resumed = refl
