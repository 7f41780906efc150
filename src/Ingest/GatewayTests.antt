-- ===== src/Ingest/GatewayTests.antt =====
-- The theorems on the gateway at a concrete one.
use utaki_tick_data_platform.Common.{
  Bytes, ℕ, ◌<◌, inl, ◌≡◌, inr, refl, ap, ◌∙◌, List, [], ◌∷◌, All, true, false, ◌||◌, Result, ok,
  err, require, ◌>>=◌, some, pos, arith, bytes_eq, take, ◌==◌,
}
use utaki_tick_data_platform.Protocol.{ResumeV1}
use utaki_tick_data_platform.Journal.{
  JournalError, Batch, zero_digest, initial_state, last_for_session, last_sequence, sqlite_int,
  find_row, check_row, lookup, read_state, new_row, next_state,
}
use utaki_tick_data_platform.Ingest.Session.{
  Session, start_session, GatewayError, session_active, lease_of, touch_session, release_session,
}
use utaki_tick_data_platform.Protocol.Tests.{sample_batch, sample_wire}
use utaki_tick_data_platform.Wal.{WalEntry, WalError}
use utaki_tick_data_platform.Wal.Entry.{new_entry, entry_bytes}
use utaki_tick_data_platform.Wal.Store.{append, append_batch, append_open}
use utaki_tick_data_platform.Wal.Store
use utaki_tick_data_platform.Journal
use utaki_tick_data_platform.Ingest.Cursor.{outcome_for_batch}
use utaki_tick_data_platform.Ingest.Disk.{
  ready_for_ack, mark_poisoned, refresh, usable, observed, classify_disk, pending_over_limit,
}
use utaki_tick_data_platform.Ingest.Gateway.{Gateway}
use utaki_tick_data_platform.Ingest.Accept.{
  AcceptIo, Answer, find_wal_identity, record_entry, append_batch_frame, accept_new, accept_unknown,
  accept_in_session, accept_batch,
}
use utaki_tick_data_platform.Ingest.Reconcile.{expected_at_start}
use utaki_tick_data_platform.Ingest.Replay.{replay}
use utaki_tick_data_platform.Ingest.Recorded.{mark_poisoned-poisoned}
use utaki_tick_data_platform.Ingest.Durability.{Durable, accept_batch-Durable}
use utaki_tick_data_platform.Ingest.InStep.{InStep, accept_batch-InStep}
use utaki_tick_data_platform.Ingest.Poisoning.{
  Accounted, Unaccepted, Call, serve, accept_batch-Accounted, serve_poisoned,
}
use utaki_tick_data_platform.Ingest.SessionLaws.{
  SessionEvent, started, touched, released, happen_all, happen_all-FromOthers,
}
use utaki_tick_data_platform.Ingest.SessionStart.{begun, start_session_free}
use utaki_tick_data_platform.Ingest.Generations.{start_session_again}
use utaki_tick_data_platform.Ingest.Samples.{
  config, hello, lease, gateway, reading, io, decoded, entry, row, ready, ack, recorded_gateway,
  accepts, ack_accepted, session-HasGeneration, hello-valid, resume, resumed,
}

accept_batch-Durable_example : Durable io sample_wire sample_batch gateway.wal recorded_gateway ack
accept_batch-Durable_example =
    accept_batch-Durable io sample_wire sample_batch hello lease 1 gateway recorded_gateway ack
      (row.status == 8 || row.status == 9) accepts ack_accepted

gateway-InStep : InStep gateway
unfolding replay expected_at_start initial_state
gateway-InStep = (refl, (refl, refl, refl), refl)

accept_batch-InStep_example : InStep recorded_gateway
accept_batch-InStep_example =
    accept_batch-InStep io sample_wire sample_batch hello lease 1 gateway recorded_gateway ack
      (row.status == 8 || row.status == 9) accepts decoded gateway-InStep

abbrev later : AcceptIo
later = record io { now = 8 }

-- A write that stops after 100 bytes.
abbrev torn : AcceptIo
torn = record io { append = record { write = some 100; sync = true; stat = true } }

abbrev torn_wal : Store.Store
torn_wal = record gateway.wal {
  file =
      some (take 100 (entry_bytes (new_entry 0 1 zero_digest (pos 1_700_000_002) 55 sample_wire)));
  poisoned = true;
}

tears :
    append torn.append sample_wire (pos 1_700_000_002) 55 gateway.wal
    ≡ (err WalError.unavailable, torn_wal)
unfolding append append_batch append_open
tears = rw (decoded, append) refl

torn_to_append :
    accept_batch torn sample_wire sample_batch hello lease 1 gateway
    ≡ append_batch_frame torn sample_wire sample_batch gateway.journal.state
        (record gateway { disk = ready })
unfolding accept_batch session_active bytes_eq accept_in_session lookup sqlite_int find_row
    check_row ◌>>=◌ accept_unknown find_wal_identity accept_new ready_for_ack refresh usable
    observed classify_disk pending_over_limit read_state initial_state require
torn_to_append = refl

abbrev torn_gateway : Gateway
torn_gateway = record gateway { disk = mark_poisoned reading ready; wal = torn_wal }

torn_to_error :
    append_batch_frame torn sample_wire sample_batch gateway.journal.state
      (record gateway { disk = ready })
    ≡ (err (GatewayError.wal WalError.unavailable), torn_gateway)
unfolding append_batch_frame
torn_to_error =
    ap
      (λ (r : Result WalError WalEntry × Store.Store). elim r.0 as (λ x. Answer) [
        | err e ↦ (
          err (GatewayError.wal e),
          record gateway { disk = mark_poisoned reading ready; wal = r.1 },
        )
        | ok e ↦
            record_entry torn sample_batch
              (outcome_for_batch gateway.journal.state sample_batch config) e
              (record gateway { disk = ready; wal = r.1 })
      ])
      tears

accept_batch-Accounted_example :
    Accounted sample_wire sample_batch gateway.wal
      (GatewayError.wal WalError.unavailable)
      torn_gateway
accept_batch-Accounted_example =
    accept_batch-Accounted torn sample_wire sample_batch hello lease 1 gateway torn_gateway
      (GatewayError.wal WalError.unavailable) (torn_to_append ∙ torn_to_error)

abbrev calls : List Call
calls =
    record {
      io = io;
      raw = sample_wire;
      batch = sample_batch;
      hello = hello;
      lease = lease;
      generation = 1;
    }
    ∷ record {
      io = later;
      raw = sample_wire;
      batch = sample_batch;
      hello = hello;
      lease = lease;
      generation = 1;
    }
    ∷ []

serve_poisoned_example :
    ((serve calls torn_gateway).1.wal ≡ torn_wal) × All Unaccepted (serve calls torn_gateway).0
serve_poisoned_example = serve_poisoned calls torn_gateway (mark_poisoned-poisoned reading ready)

abbrev others : List SessionEvent
others = started hello gateway.journal 50 ∷ touched lease 2 60 ∷ released lease 3 70 ∷ []

happen_all-FromOthers_example : happen_all config others gateway.session ≡ gateway.session
happen_all-FromOthers_example =
    happen_all-FromOthers config others gateway.session refl (omega arith)
      (omega arith, ((λ h. omega arith), ((λ h. omega arith), tt)))

-- The session ends, and another one starts.
abbrev first_start : Session
first_start = begun (pos 30) 100 (lease_of hello) gateway.session

abbrev freed : Session
freed = record first_start { active_lease = []; active_until = 0; active_generation = 0 }

starts :
    start_session config gateway.journal hello 100 gateway.session
    ≡ (ok (resume, lease_of hello, 2), begun (pos 30) 100 (lease_of hello) gateway.session)
starts =
    (start_session_free config gateway.journal hello 100 120 resume gateway.session lease 1 refl
      (inr (omega arith)) session-HasGeneration hello-valid resumed (omega arith) (inr refl)).0

frees : release_session (lease_of hello) 2 first_start ≡ freed
frees =
    (start_session_free config gateway.journal hello 100 120 resume gateway.session lease 1 refl
      (inr (omega arith)) session-HasGeneration hello-valid resumed (omega arith) (inr refl)).4

abbrev second_start : Session
second_start = begun (pos 30) 120 (lease_of hello) freed

abbrev between : List SessionEvent
between = released (lease_of hello) 2 110 ∷ started hello gateway.journal 120 ∷ []

between-session : happen_all config between first_start ≡ second_start
between-session =
    ap (λ (s : Session). (start_session config gateway.journal hello 120 s).1) frees
    ∙ ap (λ (r : Result GatewayError (ResumeV1 × Bytes × ℕ) × Session). r.1)
        (start_session_free config gateway.journal hello 120 120 resume freed lease 0 refl
          (inl refl) (omega arith, inl refl) hello-valid resumed (omega arith) (inr refl)).0

third_starts :
    start_session config gateway.journal hello 200 (happen_all config between first_start)
    ≡ (ok (resume, lease_of hello, 4), begun (pos 30) 200 (lease_of hello) second_start)
third_starts =
    ap (start_session config gateway.journal hello 200) between-session
    ∙ (start_session_free config gateway.journal hello 200 200 resume second_start lease 3 refl
        (inr (omega arith)) (omega arith, inr refl) hello-valid resumed (omega arith) (inr refl)).0

start_session_again_example :
    let s2 = begun (pos 30) 200 (lease_of hello) second_start in
    (2 < 4)
    × (session_active 205 (lease_of hello) 2 s2 ≡ false)
    × (touch_session (pos 30) 205 (lease_of hello) 2 s2 ≡ s2)
    × (release_session (lease_of hello) 2 s2 ≡ s2)
start_session_again_example =
    start_session_again config gateway.journal gateway.journal hello hello 100 200 205 between
      gateway.session first_start (begun (pos 30) 200 (lease_of hello) second_start) resume resume
      (lease_of hello) (lease_of hello) (lease_of hello) 2 4 starts (omega arith) third_starts

start_session_free_example :
    let s' = begun (pos 30) 100 (lease_of hello) gateway.session in
    (start_session config gateway.journal hello 100 gateway.session
      ≡ (ok (resume, lease_of hello, 2), s'))
    × (session_active 120 (lease_of hello) 2 s' ≡ true)
    × (touch_session (pos 30) 120 lease 1 s' ≡ s')
    × (release_session lease 1 s' ≡ s')
    × (release_session (lease_of hello) 2 s'
        ≡ record s' { active_lease = []; active_until = 0; active_generation = 0 })
start_session_free_example =
    start_session_free config gateway.journal hello 100 120 resume gateway.session lease 1 refl
      (inr (omega arith)) session-HasGeneration hello-valid resumed (omega arith) (inr refl)

-- The log has an entry that the journal does not have.
abbrev behind : Gateway
behind = record recorded_gateway { journal = gateway.journal }

abbrev again : Journal.Store
again = record gateway.journal { state = initial_state (b'g' ∷ []) (pos 0) 128 (pos 1) }

abbrev rebuilt : Journal.Store
rebuilt = record again {
  state = next_state entry (outcome_for_batch again.state sample_batch config) (pos 1) again.state;
  batches = new_row entry sample_batch (outcome_for_batch again.state sample_batch config) ∷ [];
}
