-- ===== src/Ingest/ResentTests.antt =====
-- A batch that is sent again, at a concrete gateway.
use utaki_tick_data_platform.Common.{
  Bytes, ◌≡◌, refl, ap, List, [], ◌∷◌, true, false, ◌||◌, ok, require, ◌>>=◌, bytes_eq, ◌==◌,
  >>=_of_ok, ltℤ, ◌==ℤ◌, map_err, none, inl,
}
use utaki_tick_data_platform.Protocol.{BatchFrameV1}
use utaki_tick_data_platform.Protocol.Hashes.{gateway_batch_sha256}
use utaki_tick_data_platform.Journal.{sqlite_int, find_row, lookup, new_row, check_row}
use utaki_tick_data_platform.Protocol.Tests.{sample_batch, sample_wire, decode_sample}
use utaki_tick_data_platform.Wal.Entry.{new_entry}
use utaki_tick_data_platform.Ingest.Config.{
  with_defaults, validate, validate_defaulted, counts_in_order,
}
use utaki_tick_data_platform.Ingest.Disk.{validate as validate_watermarks}
use utaki_tick_data_platform.Ingest.Session.{GatewayError, session_active, touch_session}
use utaki_tick_data_platform.Ingest.SessionLaws.{touched, happen_all}
use utaki_tick_data_platform.Ingest.Accept.{
  AcceptIo, count_duplicate, accept_batch, find_wal_identity,
}
use utaki_tick_data_platform.Ingest.Resent.{accept_batch_resent}
use utaki_tick_data_platform.Ingest.Events.{
  GatewayEvent, called, in_session, on_disk, pass_all, session_events, unindexed, LeavesAll,
}
use utaki_tick_data_platform.Ingest.DiskLaws.{refreshed}
use utaki_tick_data_platform.Ingest.Samples.{
  config, hello, lease, gateway, io, row, ack, recorded_gateway, accepts, ack_accepted,
}

config-valid : validate config ≡ ok tt
unfolding validate validate_defaulted with_defaults counts_in_order validate_watermarks ltℤ ◌==ℤ◌
    require ◌>>=◌
config-valid = refl

abbrev second_batch : BatchFrameV1
second_batch = record sample_batch { batch_sequence = 10 }

abbrev second_wire : Bytes
second_wire =
    84 ∷ 73 ∷ 67 ∷ 75 ∷ 1 ∷ 0 ∷ 3 ∷ 0 ∷ 178 ∷ 0 ∷ 0 ∷ 0 ∷ 16 ∷ 0 ∷ 0 ∷ 0 ∷ 1 ∷ 0 ∷ 108 ∷ 1 ∷ 0 ∷ 115
    ∷ 10 ∷ 0 ∷ 0 ∷ 0 ∷ 0 ∷ 0 ∷ 0 ∷ 0 ∷ 0 ∷ 104 ∷ 229 ∷ 207 ∷ 139 ∷ 1 ∷ 0 ∷ 0 ∷ 128 ∷ 0 ∷ 0 ∷ 0 ∷ 1
    ∷ 241 ∷ 83 ∷ 101 ∷ 0 ∷ 0 ∷ 0 ∷ 0 ∷ 1 ∷ 241 ∷ 83 ∷ 101 ∷ 0 ∷ 0 ∷ 0 ∷ 0 ∷ 10 ∷ 0 ∷ 0 ∷ 0 ∷ 0 ∷ 0
    ∷ 0 ∷ 0 ∷ 20 ∷ 0 ∷ 0 ∷ 0 ∷ 0 ∷ 0 ∷ 0 ∷ 0 ∷ 1 ∷ 0 ∷ 0 ∷ 0 ∷ 0 ∷ 0 ∷ 0 ∷ 0 ∷ 0 ∷ 0 ∷ 0 ∷ 0 ∷ 14
    ∷ 0 ∷ 109 ∷ 116 ∷ 53 ∷ 46 ∷ 109 ∷ 113 ∷ 108 ∷ 116 ∷ 105 ∷ 99 ∷ 107 ∷ 46 ∷ 118 ∷ 49 ∷ 1 ∷ 0 ∷ 0
    ∷ 0 ∷ 0 ∷ 241 ∷ 83 ∷ 101 ∷ 0 ∷ 0 ∷ 0 ∷ 0 ∷ 0 ∷ 0 ∷ 0 ∷ 0 ∷ 0 ∷ 0 ∷ 240 ∷ 63 ∷ 1 ∷ 0 ∷ 0 ∷ 0 ∷ 0
    ∷ 0 ∷ 240 ∷ 63 ∷ 0 ∷ 0 ∷ 0 ∷ 0 ∷ 0 ∷ 0 ∷ 0 ∷ 0 ∷ 7 ∷ 0 ∷ 0 ∷ 0 ∷ 0 ∷ 0 ∷ 0 ∷ 0 ∷ 123 ∷ 104 ∷ 229
    ∷ 207 ∷ 139 ∷ 1 ∷ 0 ∷ 0 ∷ 6 ∷ 0 ∷ 0 ∷ 0 ∷ 0 ∷ 0 ∷ 0 ∷ 0 ∷ 0 ∷ 0 ∷ 0 ∷ 0 ∷ 41 ∷ 0 ∷ 0 ∷ 0 ∷ 0 ∷ 0
    ∷ 0 ∷ 0 ∷ 78 ∷ 126 ∷ 38 ∷ 219 ∷ []

abbrev later : AcceptIo
later = record io { now = 60 }

abbrev second_io : AcceptIo
second_io = record io { now = 8 }

-- The next batch of the session, then a touch of its connection and a reading of the disk that fails.
abbrev meanwhile : List GatewayEvent
meanwhile =
    called (record {
      io = second_io;
      raw = second_wire;
      batch = second_batch;
      hello = hello;
      lease = lease;
      generation = 1;
    })
    ∷ in_session (touched lease 1 40)
    ∷ on_disk (refreshed none)
    ∷ []

second_not_logged :
    find_wal_identity second_batch.producer_session_id 10
      (gateway_batch_sha256 second_wire)
      recorded_gateway.wal.entries
    ≡ ok none
unfolding find_wal_identity new_entry bytes_eq
second_not_logged = >>=_of_ok _ (ap (map_err GatewayError.protocol) decode_sample)

meanwhile_leaves : LeavesAll meanwhile recorded_gateway
unfolding lookup sqlite_int find_row check_row new_row bytes_eq ◌>>=◌
meanwhile_leaves = (inl (ap unindexed second_not_logged), (tt, (tt, tt)))

still_active :
    session_active 60 lease 1
      (happen_all config (session_events meanwhile) recorded_gateway.session)
    ≡ true
unfolding session_active touch_session bytes_eq
still_active = refl

accept_batch_resent_example :
    let g'' = pass_all meanwhile recorded_gateway in
    accept_batch later sample_wire sample_batch hello lease 1 g''
    ≡ (ok (record ack { status = 3 }, false), record g'' { metrics = count_duplicate g''.metrics })
accept_batch_resent_example =
    accept_batch_resent io sample_wire sample_batch hello lease 1 gateway recorded_gateway ack
      (row.status == 8 || row.status == 9) later 1 meanwhile accepts ack_accepted config-valid
      meanwhile_leaves still_active
