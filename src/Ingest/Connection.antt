-- ===== src/Ingest/Connection.antt =====
-- HandleConn of internal/ingest/gateway.go: the conversation with a producer.
use utaki_tick_data_platform.Common.{
  ℕ, List, [], ◌∷◌, ◌++◌, Bool, true, false, not, Result, ok, err, ◌>>=◌, map_err, Bytes,
  if◌then◌else◌,
}
use utaki_tick_data_platform.Protocol.{
  AckV1, HelloV1, ResumeV1, Message, ErrorCode, message_hello, message_batch,
}
use utaki_tick_data_platform.Protocol.Framing.{decode_frame}
use utaki_tick_data_platform.Protocol.Decode.{decode_message}
use utaki_tick_data_platform.Ingest.Session.{
  GatewayError, Session, start_session, touch_session, release_session,
}
use utaki_tick_data_platform.Ingest.Gateway.{Gateway}
use utaki_tick_data_platform.Ingest.Accept.{AcceptIo, Answer, accept_batch}
use utaki_tick_data_platform.Ingest.Wire.{read_frame, write_message, write_error}

-- What the outside does in a round of the loop: whether the context is cancelled, the call of
-- acceptBatch, the hook, the writes, the clock, and the texts of errors.
pub record RoundIo : Type 0 where
  pub cancelled : Bool
  pub accept : AcceptIo
  pub before_ack : Bool
  pub sent : Bool
  pub touched_at : ℕ
  pub text : GatewayError → Bytes

pub record ConnectionIo : Type 0 where
  pub started_at : ℕ
  pub sent : Bool
  pub text : GatewayError → Bytes
  pub rounds : List RoundIo

-- DecodeFrame and DecodeMessage of a frame, with the message type that an error answer names.
unfoldable pub message_of : Bytes → Result (ℕ × ErrorCode) (ℕ × Message)
message_of raw = do
  frame ← map_err (λ (e : ErrorCode). (0, e)) (decode_frame raw)
  message ← map_err (λ (e : ErrorCode). (frame.message_type, e)) (decode_message frame)
  ok (frame.message_type, message)

-- The messages that were sent, and the gateway.
abbrev pub Conversation : Type 0
Conversation = List Message × Gateway

abbrev pub refuse : Bool → (GatewayError → Bytes) → ℕ → ℕ → GatewayError → Gateway → Conversation
refuse sent text related_type batch_sequence e g =
    (write_error sent (text e) related_type batch_sequence e, g)

abbrev pub touch_after_ack : RoundIo → Bytes → ℕ → Gateway → Gateway
touch_after_ack io lease generation g = record g {
  session = touch_session g.config.session_lease_timeout io.touched_at lease generation g.session;
}

-- The acknowledgement is written; `next` is the rest of the conversation after it.
unfoldable pub acknowledged :
    RoundIo → Bytes → ℕ → AckV1 → Bool → (Gateway → Conversation) → Gateway → Conversation
acknowledged io lease generation ack terminal next g =
    let written = write_message io.sent (Message.ack ack) in
    let after = touch_after_ack io lease generation g in
    let rest = next after in
    if not io.before_ack
    then ([], g)
    else if not written.0
    then (written.1, g)
    else if terminal
    then (written.1, after)
    else (written.1 ++ rest.0, rest.1)

unfoldable pub answered : RoundIo → Bytes → ℕ → ℕ → (Gateway → Conversation) → Answer → Conversation
answered io lease generation batch_sequence next (err e, g) =
    refuse io.sent io.text message_batch batch_sequence e g
answered io lease generation batch_sequence next (ok (ack, terminal), g) =
    acknowledged io lease generation ack terminal next g

unfoldable pub receive :
    RoundIo
    → HelloV1
    → Bytes
    → ℕ
    → Bytes
    → (Gateway → Conversation)
    → Gateway
    → Result (ℕ × ErrorCode) (ℕ × Message)
    → Conversation
receive io hello lease generation raw next g (err (related_type, code)) =
    refuse io.sent io.text related_type 0 (GatewayError.protocol code) g
receive io hello lease generation raw next g (ok (related_type, Message.batch b)) =
    answered io lease generation b.batch_sequence next
      (accept_batch io.accept raw b hello lease generation g)
receive io hello lease generation raw next g (ok (related_type, _)) =
    refuse io.sent io.text related_type 0 (GatewayError.protocol ErrorCode.invalid_field) g

-- The loop. Behind the last round the context is cancelled.
unfoldable pub serve_batches : List RoundIo → HelloV1 → Bytes → ℕ → Bytes → Gateway → Conversation
serve_batches [] hello lease generation input g = ([], g)
serve_batches (io ∷ rounds) hello lease generation input g =
    if io.cancelled then ([], g) else elim (read_frame g.config.max_frame_bytes input) [
      | err (true, code) ↦ refuse io.sent io.text 0 0 (GatewayError.protocol code) g
      | err (false, code) ↦ ([], g)
      | ok (raw, rest) ↦
          receive io hello lease generation raw
            (λ after. serve_batches rounds hello lease generation rest after) g (message_of raw)
    ]

-- The deferred call of releaseSession.
abbrev pub release_at_end : Bytes → ℕ → Conversation → Conversation
release_at_end lease generation c =
    (c.0, record c.1 { session = release_session lease generation c.1.session })

unfoldable pub begin_session :
    ConnectionIo
    → HelloV1
    → Bytes
    → Gateway
    → Result GatewayError (ResumeV1 × Bytes × ℕ) × Session
    → Conversation
begin_session io hello input g (err e, session) =
    refuse io.sent io.text message_hello 0 e (record g { session = session })
begin_session io hello input g (ok (resume, lease, generation), session) =
    let written = write_message io.sent (Message.resume resume) in
    let after = record g { session = session } in
    let rest = serve_batches io.rounds hello lease generation input after in
    if not written.0
    then release_at_end lease generation (written.1, after)
    else release_at_end lease generation (written.1 ++ rest.0, rest.1)

unfoldable pub greet :
    ConnectionIo → Bytes → Gateway → Result (ℕ × ErrorCode) (ℕ × Message) → Conversation
greet io input g (err (related_type, code)) =
    refuse io.sent io.text related_type 0 (GatewayError.protocol code) g
greet io input g (ok (related_type, Message.hello h)) =
    begin_session io h input g (start_session g.config g.journal h io.started_at g.session)
greet io input g (ok (related_type, _)) =
    refuse io.sent io.text related_type 0 (GatewayError.protocol ErrorCode.invalid_field) g

unfoldable pub handle_conn : ConnectionIo → Bytes → Gateway → Conversation
handle_conn io input g = elim (read_frame g.config.max_frame_bytes input) [
  | err (true, code) ↦ refuse io.sent io.text 0 0 (GatewayError.protocol code) g
  | err (false, code) ↦ ([], g)
  | ok (raw, rest) ↦ greet io rest g (message_of raw)
]
