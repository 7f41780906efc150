-- ===== src/Protocol/Laws.antt =====
-- The codec as a whole: DecodeFrame with DecodeMessage against EncodeMessage.
use utaki_tick_data_platform.Common.{
  ◌≡◌, refl, sym, ap, ◌∙◌, ok, >>=-eq-ok, >>=_of_ok, Bytes, [], append-nil,
}
use utaki_tick_data_platform.Protocol.{Message, hello, resume, batch, ack, error, message_type}
use utaki_tick_data_platform.Protocol.Buffer.{Buffer, guard, >>=_ok, pure_lem}
use utaki_tick_data_platform.Protocol.Reader
use utaki_tick_data_platform.Protocol.Ranges.{InRange, Acceptable}
use utaki_tick_data_platform.Protocol.FramingLaws.{decode_frame-encode_frame}
use utaki_tick_data_platform.Protocol.Encode.{encode_payload, encode_message}
use utaki_tick_data_platform.Protocol.Decode.{decode_message, decode, whole}
use utaki_tick_data_platform.Protocol.Transfer.{Transfers}
use utaki_tick_data_platform.Protocol.RoundTrip.{
  Transfers-hello, Transfers-resume, Transfers-batch, Transfers-ack, Transfers-error,
}

-- The decoder of one message on what its encoder wrote into an empty buffer.
whole_of :
    {A : Type 0} (w : Buffer (Unit {0})) (r : Buffer A) (as_message : A → Message) (v : A)
    (out : Bytes)
    → Transfers w r v
    → w [] ≡ ok (tt, out)
    → whole r as_message out ≡ ok (as_message v)
unfolding whole Reader.done guard
whole_of w r as_message v out t wrote =
    let (bs, e, reads) = t.run [] out wrote in
    let read : r out ≡ ok (v, []) = ap r (e ∙ sym (append-nil bs)) ∙ reads [] in
    >>=_of_ok _
      (>>=_ok r _ out [] v read ∙ >>=_ok Reader.done _ [] [] tt refl ∙ pure_lem (as_message v) [])

decode_payload :
    (m : Message) (out : Bytes)
    → InRange m
    → Acceptable m
    → encode_payload m [] ≡ ok (tt, out)
    → decode_message (record { version = 1; message_type = message_type m; payload = out }) ≡ ok m
unfolding decode_message encode_payload message_type
decode_payload (hello v) out h a wrote = whole_of _ _ hello v out (Transfers-hello v h) wrote
decode_payload (resume v) out h a wrote = whole_of _ _ resume v out (Transfers-resume v h) wrote
decode_payload (batch v) out h a wrote = whole_of _ _ batch v out (Transfers-batch v h a) wrote
decode_payload (ack v) out h a wrote = whole_of _ _ ack v out (Transfers-ack v h) wrote
decode_payload (error v) out h a wrote = whole_of _ _ error v out (Transfers-error v h a) wrote

-- What EncodeMessage writes for a message whose fields are in the ranges of their Go types, and
-- which has the source schema of a batch and the known type of an error that the decoder asks
-- for, DecodeFrame and DecodeMessage read back as that message.
pub decode-encode_message :
    (m : Message) (raw : Bytes)
    → InRange m
    → Acceptable m
    → encode_message m ≡ ok raw
    → decode raw ≡ ok m
unfolding encode_message decode
decode-encode_message m raw h a wrote =
    let ((done, out), payload, framed) = >>=-eq-ok (encode_payload m []) _ wrote in
    >>=_of_ok decode_message (decode_frame-encode_frame (message_type m) out raw framed)
    ∙ decode_payload m out h a payload
