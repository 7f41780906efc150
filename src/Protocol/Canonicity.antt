-- ===== src/Protocol/Canonicity.antt =====
-- internal/protocol/protocol.go: the bytes that DecodeFrame and DecodeMessage accept, against
-- EncodeMessage.
use utaki_tick_data_platform.Common.{
  ℕ, ◌-◌, ◌≡◌, refl, sym, ap, ◌∙◌, ok, >>=-eq-ok, >>=_of_ok, Bytes, IsByte, All, All-take, All-drop,
  [], ◌∷◌, append-nil, length, drop, arith, ◌⊎◌, inl, inr,
}
use utaki_tick_data_platform.Protocol.{
  Message, hello, resume, batch, ack, error, Frame, message_type,
}
use utaki_tick_data_platform.Protocol.Buffer.{Buffer, guard}
use utaki_tick_data_platform.Protocol.Buffer
use utaki_tick_data_platform.Protocol.Reader
use utaki_tick_data_platform.Protocol.Ranges.{InRange, Acceptable}
use utaki_tick_data_platform.Protocol.Framing.{encode_frame, decode_frame}
use utaki_tick_data_platform.Protocol.FramingLaws.{Accepted-decode_frame}
use utaki_tick_data_platform.Protocol.FrameBytes.{encode_frame-decode_frame}
use utaki_tick_data_platform.Protocol.Encode.{encode_payload, encode_message}
use utaki_tick_data_platform.Protocol.Decode.{
  decode_message, decode, whole, decode_hello, decode_resume, decode_batch, decode_ack,
  decode_error,
}
use utaki_tick_data_platform.Protocol.Recovery.{Recovers, pure-eq-ok}
use utaki_tick_data_platform.Protocol.Canonical.{
  Recovers-hello, Recovers-resume, Recovers-batch, Recovers-ack, Recovers-error,
}

nothing_left :
    (rest rest' : Bytes) (nothing : Unit {0}) → Reader.done rest ≡ ok (nothing, rest') → rest ≡ []
unfolding Reader.done guard
nothing_left [] rest' nothing h = refl
nothing_left (x ∷ rest) rest' nothing h = ground arith

-- From a reader that read the whole payload, the writer writes the payload.
rewritten :
    {A : Type 0} {r : Buffer A} {w : A → Buffer (Unit {0})} {Q : A → Type 0} (t : Recovers r w Q)
    (payload : Bytes) (v : A)
    → All IsByte payload
    → r payload ≡ ok (v, [])
    → Q v × (w v [] ≡ ok (tt, payload))
rewritten t payload v bytes read =
    let (q, (out, e, writes)) = t.run payload v [] bytes read in
    (q, writes [] ∙ ap (λ (x : Bytes). ok (tt, x)) (sym (e ∙ append-nil out)))

All-payload :
    (raw : Bytes) (f : Frame) → All IsByte raw → decode_frame raw ≡ ok f → All IsByte f.payload
All-payload raw f bytes h =
    let a = Accepted-decode_frame raw f h in
    rw (a.payload)
      (All-take IsByte (length raw - 4 - 16) (drop 16 raw) (All-drop IsByte 16 raw bytes))

whole_cases :
    {A : Type 0} (r : Buffer A) (as_message : A → Message) (payload : Bytes) (m : Message)
    → whole r as_message payload ≡ ok m
    → (v : A) × (r payload ≡ ok (v, [])) × (m ≡ as_message v)
unfolding whole Reader.done
whole_cases r as_message payload m h =
    let ((m', left), ran, same) = >>=-eq-ok _ _ h in
    let (v, rest, read, more) = Buffer.>>=-eq-ok r _ payload left m' ran in
    let (nothing, rest', checked, made) = Buffer.>>=-eq-ok Reader.done _ rest left m' more in
    let (value, end) = pure-eq-ok (as_message v) rest' m' left made in
    let empty : rest ≡ [] = nothing_left rest rest' nothing checked in
    (v, read ∙ ap (λ (x : Bytes). ok (v, x)) empty, cc (same, value))

-- What a decoded message says of its payload.
Payload : Message → ℕ → Bytes → Type 0
Payload m n payload =
    (message_type m ≡ n) × InRange m × Acceptable m × (encode_payload m [] ≡ ok (tt, payload))

Payload-hello :
    (payload : Bytes) (m : Message)
    → All IsByte payload
    → whole decode_hello hello payload ≡ ok m
    → Payload m 1 payload
unfolding Payload message_type encode_payload
Payload-hello payload m bytes h =
    let (v, read, e) = whole_cases decode_hello hello payload m h in
    let (q, wrote) = rewritten Recovers-hello payload v bytes read in rw e (refl, q.0, tt, wrote)

Payload-resume :
    (payload : Bytes) (m : Message)
    → All IsByte payload
    → whole decode_resume resume payload ≡ ok m
    → Payload m 2 payload
unfolding Payload message_type encode_payload
Payload-resume payload m bytes h =
    let (v, read, e) = whole_cases decode_resume resume payload m h in
    let (q, wrote) = rewritten Recovers-resume payload v bytes read in rw e (refl, q.0, tt, wrote)

Payload-batch :
    (payload : Bytes) (m : Message)
    → All IsByte payload
    → whole decode_batch batch payload ≡ ok m
    → Payload m 3 payload
unfolding Payload message_type encode_payload
Payload-batch payload m bytes h =
    let (v, read, e) = whole_cases decode_batch batch payload m h in
    let (q, wrote) = rewritten Recovers-batch payload v bytes read in rw e (refl, q.0, q.1, wrote)

Payload-ack :
    (payload : Bytes) (m : Message)
    → All IsByte payload
    → whole decode_ack ack payload ≡ ok m
    → Payload m 4 payload
unfolding Payload message_type encode_payload
Payload-ack payload m bytes h =
    let (v, read, e) = whole_cases decode_ack ack payload m h in
    let (q, wrote) = rewritten Recovers-ack payload v bytes read in rw e (refl, q.0, tt, wrote)

Payload-error :
    (payload : Bytes) (m : Message)
    → All IsByte payload
    → whole decode_error error payload ≡ ok m
    → Payload m 5 payload
unfolding Payload message_type encode_payload
Payload-error payload m bytes h =
    let (v, read, e) = whole_cases decode_error error payload m h in
    let (q, wrote) = rewritten Recovers-error payload v bytes read in rw e (refl, q.0, q.1, wrote)

message_cases :
    (f : Frame) (m : Message)
    → decode_message f ≡ ok m
    → ((f.message_type ≡ 1) × (whole decode_hello hello f.payload ≡ ok m))
      ⊎ ((f.message_type ≡ 2) × (whole decode_resume resume f.payload ≡ ok m))
      ⊎ ((f.message_type ≡ 3) × (whole decode_batch batch f.payload ≡ ok m))
      ⊎ ((f.message_type ≡ 4) × (whole decode_ack ack f.payload ≡ ok m))
      ⊎ ((f.message_type ≡ 5) × (whole decode_error error f.payload ≡ ok m))
unfolding decode_message
message_cases f m h = ground arith

Payload-of :
    (f : Frame) (m : Message)
    → All IsByte f.payload
    → decode_message f ≡ ok m
    → Payload m f.message_type f.payload
Payload-of f m bytes h = elim (message_cases f m h) [
  | inl (n, e) ↦ rw n (Payload-hello f.payload m bytes e)
  | inr (inl (n, e)) ↦ rw n (Payload-resume f.payload m bytes e)
  | inr (inr (inl (n, e))) ↦ rw n (Payload-batch f.payload m bytes e)
  | inr (inr (inr (inl (n, e)))) ↦ rw n (Payload-ack f.payload m bytes e)
  | inr (inr (inr (inr (n, e)))) ↦ rw n (Payload-error f.payload m bytes e)
]

-- A message that is decoded from bytes has its fields in range and is what the decoder asks for,
-- and EncodeMessage writes exactly those bytes for it: the encoding is canonical.
pub encode_message-decode :
    (raw : Bytes) (m : Message)
    → All IsByte raw
    → decode raw ≡ ok m
    → InRange m × Acceptable m × (encode_message m ≡ ok raw)
unfolding encode_message decode Payload
encode_message-decode raw m bytes h =
    let (f, framed, decoded) = >>=-eq-ok (decode_frame raw) decode_message h in
    let (t, range, fine, wrote) = Payload-of f m (All-payload raw f bytes framed) decoded in
    (
      range,
      fine,
      >>=_of_ok _ wrote
          ∙ ap (λ (n : ℕ). encode_frame n f.payload) t
          ∙ encode_frame-decode_frame raw f bytes framed,
    )
