-- ===== src/Ingest/ConnectionTests.antt =====
-- The theorems on connections at concrete bytes.
use utaki_tick_data_platform.Common.{
  ◌≤◌, ◌≡◌, refl, ap, ◌∙◌, List, [], ◌∷◌, ◌++◌, Bool, true, false, not, Result, ok, err, map_err,
  >>=-eq-ok, >>=_of_ok, ◌>>=◌, Bytes, arith, inr, length, pos, if◌then◌else◌, if_false, ◌||◌, ◌==◌,
  le_bytes, u64_of_i64, ascii, require, ltℤ, ◌==ℤ◌,
}
use utaki_tick_data_platform.Protocol.{Frame, Message, ErrorCode}
use utaki_tick_data_platform.Protocol.Framing.{frame_body, encode_frame, decode_frame}
use utaki_tick_data_platform.Protocol.Decode.{decode, decode_message}
use utaki_tick_data_platform.Protocol.Encode.{
  encode_hello, encode_ack, encode_payload, encode_message,
}
use utaki_tick_data_platform.Protocol.Tests.{sample_wire, sample_batch, decode_sample}
use utaki_tick_data_platform.Golib.Sha256.{sum256}
use utaki_tick_data_platform.Golib.Utf8.{valid}
use utaki_tick_data_platform.Protocol.{message_type, source_schema_mt5}
use utaki_tick_data_platform.Protocol.Buffer
use utaki_tick_data_platform.Protocol.Writer
use utaki_tick_data_platform.Protocol.Hashes.{gateway_batch_sha256, boundary_digest}
use utaki_tick_data_platform.Wal.Entry.{new_entry}
use utaki_tick_data_platform.Journal.{new_row, initial_state}
use utaki_tick_data_platform.Ingest.Cursor.{
  max_msc, advanced, outcome_at, outcome_of, outcome_for_batch,
}
use utaki_tick_data_platform.Ingest.Gateway.{Gateway, ack_from_batch}
use utaki_tick_data_platform.Ingest.Session.{GatewayError, session_active, lease_of}
use utaki_tick_data_platform.Ingest.Wire.{ReadError, read_frame, write_message}
use utaki_tick_data_platform.Ingest.Accept.{accept_batch}
use utaki_tick_data_platform.Ingest.LogGrowth.{Grown}
use utaki_tick_data_platform.Ingest.Acknowledged.{InLog, serve_batches-InLog}
use utaki_tick_data_platform.Ingest.WireLaws.{read_frame-append, read_frame_exact}
use utaki_tick_data_platform.Ingest.Connection.{
  RoundIo, ConnectionIo, Conversation, touch_after_ack, refuse, message_of, receive, answered,
  acknowledged, serve_batches, handle_conn,
}
use utaki_tick_data_platform.Ingest.ConnectionLaws.{is_conversation, handle_conn-is_conversation}
use utaki_tick_data_platform.Ingest.Samples.{
  config, hello, lease, gateway, io, row, ack, recorded_gateway, accepts, ack_accepted,
  session-HasGeneration, hello-valid, resume, resumed,
}
use utaki_tick_data_platform.Ingest.SessionStart.{begun, start_session_free}
use utaki_tick_data_platform.Ingest.ConnectionEnd.{handle_conn_released}
use utaki_tick_data_platform.Golib.Crc32.{checksum}
use utaki_tick_data_platform.Protocol.Ranges.{InRange}
use utaki_tick_data_platform.Protocol.Laws.{decode-encode_message}

sample_frame :
    (frame : Frame) × (decode_frame sample_wire ≡ ok frame)
    × (decode_message frame ≡ ok (Message.batch sample_batch))
unfolding decode
sample_frame = >>=-eq-ok (decode_frame sample_wire) decode_message decode_sample

-- Two frames in a stream.
read_frame-append_example :
    read_frame 4096 (sample_wire ++ sample_wire) ≡ ok (sample_wire, sample_wire)
read_frame-append_example =
    read_frame-append 4096 sample_wire sample_wire sample_frame.0 sample_frame.1 (omega arith)

read_frame_exact_example :
    (frame : Frame) × (decode_frame sample_wire ≡ ok frame)
    × (sample_wire ++ sample_wire ≡ sample_wire ++ sample_wire)
    × (length sample_wire ≤ 4096)
read_frame_exact_example =
    read_frame_exact 4096 (sample_wire ++ sample_wire) sample_wire sample_wire
      (read_frame-append 4096 sample_wire sample_wire sample_frame.0 sample_frame.1 (omega arith))

abbrev round : RoundIo
round = record {
  cancelled = false;
  accept = io;
  before_ack = true;
  sent = true;
  touched_at = 9;
  text = λ e. b'e' ∷ [];
}

abbrev connection : ConnectionIo
connection = record { started_at = 200; sent = true; text = λ e. b'e' ∷ []; rounds = round ∷ [] }

-- A batch in place of the greeting.
handle_conn-is_conversation_example :
    is_conversation (handle_conn connection sample_wire gateway).0 ≡ true
handle_conn-is_conversation_example = handle_conn-is_conversation connection sample_wire gateway

reads : read_frame config.max_frame_bytes sample_wire ≡ ok (sample_wire, [])
reads =
    read_frame-append config.max_frame_bytes sample_wire [] sample_frame.0 sample_frame.1
      (omega arith)

message_is_batch :
    message_of sample_wire ≡ ok (sample_frame.0.message_type, Message.batch sample_batch)
unfolding message_of
message_is_batch =
    >>=_of_ok _ (ap (map_err (λ (e : ErrorCode). (0, e))) sample_frame.1)
    ∙ >>=_of_ok _
        (ap (map_err (λ (e : ErrorCode). (sample_frame.0.message_type, e))) sample_frame.2)

ack_encoded : (frame : Bytes) × (encode_message (Message.ack ack) ≡ ok frame)
unfolding encode_message encode_payload encode_ack message_type Buffer.◌>>=◌ Buffer.pure
    Buffer.guard Writer.write Writer.u8 Writer.u16 Writer.u32 Writer.u64 Writer.i64 Writer.hash
    Writer.string frame_body encode_frame valid le_bytes u64_of_i64 ascii ◌>>=◌ require
    ack_from_batch new_row new_entry outcome_for_batch outcome_of outcome_at advanced max_msc ltℤ
    ◌==ℤ◌ initial_state sum256 gateway_batch_sha256 boundary_digest
ack_encoded = (_, refl)

ack_written : write_message true (Message.ack ack) ≡ (true, Message.ack ack ∷ [])
unfolding write_message
ack_written =
    ap
      (λ (r : Result ErrorCode Bytes). elim r as (λ x. Bool × List Message) [
        | err e ↦ (false, [])
        | ok frame ↦ (true, Message.ack ack ∷ [])
      ])
      ack_encoded.1

goes_on : (row.status == 8 || row.status == 9) ≡ false
unfolding new_row outcome_for_batch outcome_of outcome_at advanced max_msc ltℤ ◌==ℤ◌ initial_state
goes_on = refl

abbrev next : Gateway → Conversation
next after = serve_batches [] hello lease 1 [] after

abbrev served : Gateway
served = touch_after_ack round lease 1 recorded_gateway

to_receive :
    serve_batches (round ∷ []) hello lease 1 sample_wire gateway
    ≡ receive round hello lease 1 sample_wire next gateway (message_of sample_wire)
unfolding serve_batches
to_receive =
    ap
      (λ (r : Result ReadError (Bytes × Bytes)). elim r as (λ x. Conversation) [
        | err (true, code) ↦ refuse true round.text 0 0 (GatewayError.protocol code) gateway
        | err (false, code) ↦ ([], gateway)
        | ok (raw, rest) ↦
            receive round hello lease 1 raw (λ after. serve_batches [] hello lease 1 rest after)
              gateway (message_of raw)
      ])
      reads

to_answered :
    receive round hello lease 1 sample_wire next gateway (message_of sample_wire)
    ≡ answered round lease 1 9 next (accept_batch io sample_wire sample_batch hello lease 1 gateway)
unfolding receive
to_answered = ap (receive round hello lease 1 sample_wire next gateway) message_is_batch

to_acknowledged :
    answered round lease 1 9 next (accept_batch io sample_wire sample_batch hello lease 1 gateway)
    ≡ acknowledged round lease 1 ack (row.status == 8 || row.status == 9) next recorded_gateway
unfolding answered
to_acknowledged = ap (answered round lease 1 9 next) accepts

to_end :
    acknowledged round lease 1 ack (row.status == 8 || row.status == 9) next recorded_gateway
    ≡ (Message.ack ack ∷ [], served)
unfolding acknowledged serve_batches
to_end =
    ap
      (λ (w : Bool × List Message).
        if not w.0
        then (w.1, recorded_gateway)
        else if row.status == 8 || row.status == 9
        then (w.1, served)
        else (w.1 ++ [], served))
      ack_written
    ∙ if_false _ _ _ goes_on

serve_batches-InLog_example :
    Grown gateway.wal.entries served.wal.entries × InLog ack served.wal.entries
serve_batches-InLog_example =
    serve_batches-InLog (round ∷ []) hello lease 1 sample_wire gateway served (Message.ack ack ∷ [])
      [] [] ack (to_receive ∙ to_answered ∙ to_acknowledged ∙ to_end) refl ack_accepted

abbrev hello_wire : Bytes
hello_wire =
    84 ∷ 73 ∷ 67 ∷ 75 ∷ 1 ∷ 0 ∷ 1 ∷ 0 ∷ 80 ∷ 0 ∷ 0 ∷ 0 ∷ 16 ∷ 0 ∷ 0 ∷ 0 ∷ 1 ∷ 0 ∷ 105 ∷ 1 ∷ 0 ∷ 115
    ∷ 1 ∷ 0 ∷ 98 ∷ 0 ∷ 0 ∷ 0 ∷ 0 ∷ 1 ∷ 0 ∷ 111 ∷ 1 ∷ 0 ∷ 99 ∷ 1 ∷ 0 ∷ 112 ∷ 1 ∷ 0 ∷ 102 ∷ 1 ∷ 0
    ∷ 120 ∷ 1 ∷ 0 ∷ 69 ∷ 14 ∷ 0 ∷ 109 ∷ 116 ∷ 53 ∷ 46 ∷ 109 ∷ 113 ∷ 108 ∷ 116 ∷ 105 ∷ 99 ∷ 107 ∷ 46
    ∷ 118 ∷ 49 ∷ 1 ∷ 0 ∷ 0 ∷ 0 ∷ 0 ∷ 0 ∷ 0 ∷ 0 ∷ 0 ∷ 0 ∷ 0 ∷ 0 ∷ 0 ∷ 189 ∷ 251 ∷ 89 ∷ 70 ∷ []

hello_encoded : encode_message (Message.hello hello) ≡ ok hello_wire
unfolding encode_message encode_payload encode_hello message_type Buffer.◌>>=◌ Buffer.pure
    Buffer.guard Writer.write Writer.u8 Writer.u16 Writer.u32 Writer.u64 Writer.i64 Writer.hash
    Writer.string frame_body encode_frame valid le_bytes u64_of_i64 ascii ◌>>=◌ require checksum
    source_schema_mt5
hello_encoded = refl

hello-InRange : InRange (Message.hello hello)
hello-InRange = record {
  acquisition_mode = omega arith;
  initial_from_msc = omega arith;
  capability_flags = omega arith;
}

hello_decoded : decode hello_wire ≡ ok (Message.hello hello)
hello_decoded =
    decode-encode_message (Message.hello hello) hello_wire hello-InRange tt hello_encoded

hello_frame :
    (frame : Frame) × (decode_frame hello_wire ≡ ok frame)
    × (decode_message frame ≡ ok (Message.hello hello))
unfolding decode
hello_frame = >>=-eq-ok (decode_frame hello_wire) decode_message hello_decoded

message_is_hello : message_of hello_wire ≡ ok (hello_frame.0.message_type, Message.hello hello)
unfolding message_of
message_is_hello =
    >>=_of_ok _ (ap (map_err (λ (e : ErrorCode). (0, e))) hello_frame.1)
    ∙ >>=_of_ok _ (ap (map_err (λ (e : ErrorCode). (hello_frame.0.message_type, e))) hello_frame.2)

-- A greeting and a batch of another session.
handle_conn_released_example :
    session_active 210
      (lease_of hello)
      2
      (handle_conn connection (hello_wire ++ sample_wire) gateway).1.session
    ≡ false
handle_conn_released_example =
    handle_conn_released connection (hello_wire ++ sample_wire) hello_wire sample_wire
      hello_frame.0.message_type hello resume (lease_of hello) 2 210
      (begun (pos 30) 200 (lease_of hello) gateway.session) gateway
      (read_frame-append config.max_frame_bytes hello_wire sample_wire hello_frame.0 hello_frame.1
        (omega arith))
      message_is_hello
      (start_session_free config gateway.journal hello 200 210 resume gateway.session lease 1 refl
        (inr (omega arith)) session-HasGeneration hello-valid resumed (omega arith) (inr refl)).0
