-- ===== src/Ingest/Disk.antt =====
-- internal/ingest/disk.go: the state machine of free space and publication backlog. A reading of the
-- disk usage is an argument: none for an error of the provider. The wake-ups that are sent to the
-- publication workers are counted.
use utaki_tick_data_platform.Common.{
  ℕ, ◌+◌, Bool, true, false, not, ◌&&◌, ◌||◌, Result, ok, require, ◌>>◌, Option, none, some, leb,
  ltb, Bytes, length, ◌==◌, if◌then◌else◌,
}

pub data DiskClass : Type 0 where
  normal high critical emergency : DiskClass

pub record DiskUsage : Type 0 where
  pub free_bytes : ℕ
  pub total_bytes : ℕ

pub record DiskWatermarks : Type 0 where
  pub high_free_bytes : ℕ
  pub critical_free_bytes : ℕ
  pub emergency_free_bytes : ℕ
  pub max_pending_segments : ℕ
  pub max_pending_bytes : ℕ

pub data DiskError : Type 0 where
  incomplete zero_watermark not_descending half_configured_limits : DiskError

-- The texts of BlockedReason.
pub data BlockedReason : Type 0 where
  none_blocked disk_usage_unobserved disk_usage_unavailable : BlockedReason
  disk_high_watermark disk_critical_watermark disk_emergency_watermark : BlockedReason
  publication_backlog_limit wal_poisoned_reopen_required : BlockedReason

pub record DiskState : Type 0 where
  pub class : DiskClass
  pub free_bytes : ℕ
  pub total_bytes : ℕ
  pub ready : Bool
  pub ack_allowed : Bool
  pub poisoned : Bool
  pub blocked_reason : BlockedReason
  pub pending_segments : ℕ
  pub pending_bytes : ℕ
  pub worker_priority : Bool

pub record DiskStateMachine : Type 0 where
  pub policy : DiskWatermarks
  pub state : DiskState
  pub poisoned : Bool
  pub wakeups : ℕ

unfoldable pub validate : DiskWatermarks → Result DiskError (Unit {0})
validate w = do
  require
      (not (w.high_free_bytes == 0 || (w.critical_free_bytes == 0 || w.emergency_free_bytes == 0)))
      DiskError.zero_watermark
  require
      (not (
        leb w.high_free_bytes w.critical_free_bytes
        || leb w.critical_free_bytes w.emergency_free_bytes))
      DiskError.not_descending
  require
      (if w.max_pending_segments == 0
        then w.max_pending_bytes == 0
        else not (w.max_pending_bytes == 0))
      DiskError.half_configured_limits
  ok tt

-- The root is only what the readings are of; `has_provider` is false for a nil provider.
unfoldable pub new_disk_state_machine :
    Bytes → Bool → DiskWatermarks → Result DiskError DiskStateMachine
new_disk_state_machine root has_provider policy = do
  require (not (length root == 0 || not has_provider)) DiskError.incomplete
  validate policy
  ok (record {
    policy = policy;
    state = record {
      class = DiskClass.emergency;
      free_bytes = 0;
      total_bytes = 0;
      ready = false;
      ack_allowed = false;
      poisoned = false;
      blocked_reason = BlockedReason.disk_usage_unobserved;
      pending_segments = 0;
      pending_bytes = 0;
      worker_priority = false;
    };
    poisoned = false;
    wakeups = 0;
  })

unfoldable pub classify_disk : ℕ → DiskWatermarks → DiskClass
classify_disk free policy =
    if leb policy.high_free_bytes free
    then DiskClass.normal
    else if leb policy.critical_free_bytes free
    then DiskClass.high
    else if leb policy.emergency_free_bytes free
    then DiskClass.critical
    else DiskClass.emergency

unfoldable pub pending_over_limit : DiskWatermarks → ℕ → ℕ → Bool
pending_over_limit policy segments bytes =
    not (policy.max_pending_segments == 0)
    && (leb policy.max_pending_segments segments || leb policy.max_pending_bytes bytes)

abbrev pub is_ready : DiskClass → Bool
is_ready DiskClass.normal = true
is_ready DiskClass.high = true
is_ready DiskClass.critical = false
is_ready DiskClass.emergency = false

abbrev pub same_class : DiskClass → DiskClass → Bool
same_class DiskClass.normal DiskClass.normal = true
same_class DiskClass.high DiskClass.high = true
same_class DiskClass.critical DiskClass.critical = true
same_class DiskClass.emergency DiskClass.emergency = true
same_class _ _ = false

abbrev pub same_bool : Bool → Bool → Bool
same_bool true b = b
same_bool false b = not b

abbrev pub watermark_reason : DiskClass → BlockedReason
watermark_reason DiskClass.normal = BlockedReason.none_blocked
watermark_reason DiskClass.high = BlockedReason.disk_high_watermark
watermark_reason DiskClass.critical = BlockedReason.disk_critical_watermark
watermark_reason DiskClass.emergency = BlockedReason.disk_emergency_watermark

-- An error of the provider, and a reading that makes no sense.
unfoldable pub usable : Option DiskUsage → Option DiskUsage
usable none = none
usable (some usage) =
    if usage.total_bytes == 0 || ltb usage.total_bytes usage.free_bytes then none else some usage

unfoldable pub observed : DiskUsage → DiskStateMachine → DiskState
observed usage s =
    let class = classify_disk usage.free_bytes s.policy in
    let over = pending_over_limit s.policy s.state.pending_segments s.state.pending_bytes in
    let ready = is_ready class && (not over && not s.poisoned) in
    record {
      class = class;
      free_bytes = usage.free_bytes;
      total_bytes = usage.total_bytes;
      ready = ready;
      ack_allowed = ready;
      poisoned = s.poisoned;
      blocked_reason =
          if s.poisoned
          then BlockedReason.wal_poisoned_reopen_required
          else if over
          then BlockedReason.publication_backlog_limit
          else watermark_reason class;
      pending_segments = s.state.pending_segments;
      pending_bytes = s.state.pending_bytes;
      worker_priority = over || not (same_class class DiskClass.normal);
    }

unfoldable pub unavailable_state : DiskStateMachine → DiskState
unavailable_state s = record {
  class = DiskClass.emergency;
  free_bytes = 0;
  total_bytes = 0;
  ready = false;
  ack_allowed = false;
  poisoned = s.poisoned;
  blocked_reason = BlockedReason.disk_usage_unavailable;
  pending_segments = s.state.pending_segments;
  pending_bytes = s.state.pending_bytes;
  worker_priority = true;
}

abbrev pub signal_if : Bool → ℕ → ℕ
signal_if wake n = if wake then n + 1 else n

unfoldable pub refresh : Option DiskUsage → DiskStateMachine → DiskStateMachine
refresh reading s = elim (usable reading) [
  | none ↦ record s {
    state = unavailable_state s;
    wakeups = signal_if (not s.state.worker_priority) s.wakeups;
  }
  | some usage ↦
      let new = observed usage s in
      record s {
        state = new;
        wakeups =
            signal_if
              (new.worker_priority
                && (not s.state.worker_priority
                    || (not (same_class s.state.class new.class)
                        || not (same_bool s.state.ack_allowed new.ready))))
              s.wakeups;
      }
]

unfoldable pub set_pending_publication :
    ℕ → ℕ → Option DiskUsage → DiskStateMachine → DiskStateMachine
set_pending_publication segments bytes reading s =
    let stored = record s {
      state = record s.state { pending_segments = segments; pending_bytes = bytes };
    } in
    let next = refresh reading stored in
    record next {
      wakeups =
          signal_if
            (next.state.worker_priority
              && (not (s.state.pending_segments == segments)
                  || (not (s.state.pending_bytes == bytes) || not s.state.worker_priority)))
            next.wakeups;
    }

unfoldable pub mark_poisoned : Option DiskUsage → DiskStateMachine → DiskStateMachine
mark_poisoned reading s = refresh reading (record s { poisoned = true })

unfoldable pub clear_poisoned_after_verification :
    Option DiskUsage → DiskStateMachine → DiskStateMachine
clear_poisoned_after_verification reading s = refresh reading (record s { poisoned = false })

unfoldable pub ready_for_ack : Option DiskUsage → DiskStateMachine → Bool × DiskStateMachine
ready_for_ack reading s = let next = refresh reading s in (next.state.ack_allowed, next)
