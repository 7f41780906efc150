-- ===== src/Ingest/Events.antt =====
-- What reaches a gateway of internal/ingest/gateway.go: calls of acceptBatch, starts, touches and
-- releases of sessions, and readings of the disk.
use utaki_tick_data_platform.Common.{
  ◌≡◌, List, [], ◌∷◌, Bool, false, Result, ok, err, none, some, ◌⊎◌, Option,
}
use utaki_tick_data_platform.Journal.{Batch, JournalError, lookup}
use utaki_tick_data_platform.Ingest.DiskLaws.{DiskEvent, step}
use utaki_tick_data_platform.Ingest.Session.{GatewayError}
use utaki_tick_data_platform.Ingest.SessionLaws.{SessionEvent, happen}
use utaki_tick_data_platform.Ingest.Gateway.{Gateway}
use utaki_tick_data_platform.Ingest.Accept.{find_wal_identity, accept_batch}
use utaki_tick_data_platform.Ingest.Reconcile.{reconcile_journal}
use utaki_tick_data_platform.Protocol.Hashes.{gateway_batch_sha256}
use utaki_tick_data_platform.Ingest.Poisoning.{Call}

-- What the connections, the operator and the disk do to a gateway.
pub data GatewayEvent : Type 0 where
  called : Call → GatewayEvent
  in_session : SessionEvent → GatewayEvent
  on_disk : DiskEvent → GatewayEvent

abbrev pub pass : GatewayEvent → Gateway → Gateway
pass (called c) g = (accept_batch c.io c.raw c.batch c.hello c.lease c.generation g).1
pass (in_session event) g = record g { session = happen g.config event g.session }
pass (on_disk event) g = record g { disk = step event g.disk }

abbrev pub pass_all : List GatewayEvent → Gateway → Gateway
pass_all [] g = g
pass_all (event ∷ events) g = pass_all events (pass event g)

-- What reaches the session.
abbrev pub session_events : List GatewayEvent → List SessionEvent
session_events [] = []
session_events (called c ∷ events) = session_events events
session_events (in_session event ∷ events) = event ∷ session_events events
session_events (on_disk event ∷ events) = session_events events

-- The log has the batch of a call and the journal has no row of it, so that the call compares the journal
-- with the log.
abbrev pub unindexed : Result GatewayError (Option Bool) → Bool
unindexed (err e) = false
unindexed (ok none) = false
unindexed (ok (some same)) = same

abbrev pub misses : Result JournalError (Option Batch) → Bool → Bool
misses (err e) logged = false
misses (ok none) logged = logged
misses (ok (some row)) logged = false

abbrev pub misses_row : Call → Gateway → Bool
misses_row c g = misses (lookup c.batch.producer_session_id c.batch.batch_sequence g.journal) (
    unindexed (
      find_wal_identity c.batch.producer_session_id c.batch.batch_sequence
        (gateway_batch_sha256 c.raw) g.wal.entries))

-- No call replaces the journal: it does not compare it with the log, or the comparison leaves it as it is.
abbrev pub Leaves : GatewayEvent → Gateway → Type 0
Leaves (called c) g =
    (misses_row c g ≡ false)
    ⊎ ((reconcile_journal c.io.reconcile g.config g.wal g.journal).1 ≡ g.journal)
Leaves (in_session event) g = Unit {0}
Leaves (on_disk event) g = Unit {0}

abbrev pub LeavesAll : List GatewayEvent → Gateway → Type 0
LeavesAll [] g = Unit {0}
LeavesAll (event ∷ events) g = Leaves event g × LeavesAll events (pass event g)
