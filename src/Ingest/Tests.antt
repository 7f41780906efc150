-- ===== src/Ingest/Tests.antt =====
-- A concrete configuration, cursor and disk, and the theorems on the gateway at them.
use utaki_tick_data_platform.Common.{
  ◌≤◌, [], ◌∷◌, pos, ltℤ, ◌==ℤ◌, ◌≤ℤ◌, ◌≡◌, ◌↔◌, refl, arith, ok, Option, true, false, some, none,
  All, ascii, require, ◌>>=◌,
}
use utaki_tick_data_platform.Protocol.Tests.{sample_batch}
use utaki_tick_data_platform.Journal.{State, initial_state}
use utaki_tick_data_platform.Ingest.Config.{
  Config, with_defaults, validate, validate_defaulted, counts_in_order,
}
use utaki_tick_data_platform.Ingest.Cursor.{outcome_for_batch}
use utaki_tick_data_platform.Ingest.CursorLaws.{
  Forward, UpTo, InCap, outcome_for_batch-Forward, outcome_for_batch-covers,
  outcome_for_batch-InCap,
}
use utaki_tick_data_platform.Ingest.Disk.{
  DiskUsage, DiskStateMachine, DiskClass, BlockedReason, mark_poisoned, ready_for_ack,
  validate as validate_watermarks,
}
use utaki_tick_data_platform.Ingest.DiskLaws.{
  Enough, refreshed, pending_set, steps, ready_for_ack_iff, mark_poisoned-IsStopped,
}

-- A configuration that names its locations and leaves the rest to the defaults.
abbrev config : Config
config = record {
  listen_address = [];
  gateway_instance_id = b'g' ∷ [];
  wal_root = b'w' ∷ [];
  raw_outbox_root = [];
  journal_path = b'j' ∷ [];
  max_frame_bytes = 0;
  max_records = 0;
  initial_from_msc = pos 0;
  initial_batch_count = 100;
  maximum_batch_count = 0;
  dense_boundary_hard_cap = 300;
  session_lease_timeout = pos 0;
  heartbeat_idle_timeout = pos 0;
  disk_high_free_bytes = 0;
  disk_critical_free_bytes = 0;
  disk_emergency_free_bytes = 0;
  max_pending_segments = 0;
  max_pending_bytes = 0;
  producer_instance_id = [];
  producer_build_id = [];
  dataset_id = [];
  provider_id = [];
  stable_feed_id = [];
  broker_server_fingerprint = [];
  exact_source_symbol = [];
  gateway_build_identity = [];
  day_definition_id = [];
  settle_policy = [];
  publisher_id = [];
  publisher_epoch = 0;
}

abbrev state : State
state = initial_state (b'g' ∷ []) (pos 1_700_000_000_000) 128 (pos 1_700_000_000)

config-valid : validate config ≡ ok tt
unfolding validate validate_defaulted with_defaults counts_in_order validate_watermarks ascii ltℤ
    ◌==ℤ◌ require ◌>>=◌
config-valid = refl

within_cap : state.next_requested_count ≤ (with_defaults config).dense_boundary_hard_cap
unfolding with_defaults initial_state
within_cap = omega arith

outcome_for_batch-InCap_example :
    InCap (with_defaults config) (outcome_for_batch state sample_batch config)
outcome_for_batch-InCap_example =
    outcome_for_batch-InCap state sample_batch config config-valid within_cap

returned : pos 0 ≤ℤ sample_batch.returned_count
unfolding ltℤ
returned = refl

outcome_for_batch-covers_example :
    All
      (UpTo (outcome_for_batch state sample_batch config).committed_cursor_msc)
      sample_batch.records
outcome_for_batch-covers_example = outcome_for_batch-covers state sample_batch config refl returned

outcome_for_batch-Forward_example : Forward state (outcome_for_batch state sample_batch config)
outcome_for_batch-Forward_example = outcome_for_batch-Forward state sample_batch config

abbrev machine : DiskStateMachine
machine = record {
  policy = record {
    high_free_bytes = 300;
    critical_free_bytes = 200;
    emergency_free_bytes = 100;
    max_pending_segments = 4;
    max_pending_bytes = 1000;
  };
  state = record {
    class = DiskClass.normal;
    free_bytes = 500;
    total_bytes = 1000;
    ready = true;
    ack_allowed = true;
    poisoned = false;
    blocked_reason = BlockedReason.none_blocked;
    pending_segments = 1;
    pending_bytes = 10;
    worker_priority = false;
  };
  poisoned = false;
  wakeups = 0;
}

abbrev reading : Option DiskUsage
reading = some (record { free_bytes = 250; total_bytes = 1000 })

policy-valid : validate_watermarks machine.policy ≡ ok tt
unfolding validate_watermarks require ◌>>=◌
policy-valid = refl

ready_for_ack_iff_example : ((ready_for_ack reading machine).0 ≡ true) ↔ Enough reading machine
ready_for_ack_iff_example = ready_for_ack_iff reading machine policy-valid

-- Free space comes back and the backlog is emptied.
mark_poisoned-IsStopped_example :
    (steps
      (refreshed reading ∷ pending_set 0 0 reading ∷ [])
      (mark_poisoned none machine)).state.ack_allowed
    ≡ false
mark_poisoned-IsStopped_example =
    mark_poisoned-IsStopped machine none (refreshed reading ∷ pending_set 0 0 reading ∷ [])
