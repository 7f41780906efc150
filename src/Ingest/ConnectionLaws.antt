-- ===== src/Ingest/ConnectionLaws.antt =====
-- HandleConn of internal/ingest/gateway.go: the order of the messages, and the end of the session.
use utaki_tick_data_platform.Common.{
  ℕ, ◌≡◌, refl, List, [], ◌∷◌, ◌++◌, Bool, true, false, not, Result, ok, err, Bytes, if_elim,
  result_elim,
}
use utaki_tick_data_platform.Protocol.{AckV1, HelloV1, ResumeV1, Message, ErrorCode}
use utaki_tick_data_platform.Protocol.Encode.{encode_message}
use utaki_tick_data_platform.Ingest.Session.{GatewayError, Session}
use utaki_tick_data_platform.Ingest.Gateway.{Gateway}
use utaki_tick_data_platform.Ingest.Accept.{Answer}
use utaki_tick_data_platform.Ingest.Wire.{
  ReadError, read_frame, write_message, error_message, write_error,
}
use utaki_tick_data_platform.Ingest.Connection.{
  RoundIo, ConnectionIo, Conversation, touch_after_ack, message_of, refuse, acknowledged, answered,
  receive, serve_batches, begin_session, greet, handle_conn,
}

-- Acknowledgements, and at most one error, which is the last message.
abbrev pub are_replies : List Message → Bool
are_replies [] = true
are_replies (Message.ack a ∷ ms) = are_replies ms
are_replies (Message.error e ∷ []) = true
are_replies _ = false

-- Nothing, an error alone, or a resume and replies.
abbrev pub is_conversation : List Message → Bool
is_conversation [] = true
is_conversation (Message.resume r ∷ ms) = are_replies ms
is_conversation (Message.error e ∷ []) = true
is_conversation _ = false

-- A message is written whole, or it is not sent.
write_message-either :
    (P : Bool × List Message → Type 0) (sent : Bool) (m : Message)
    → P (true, m ∷ [])
    → P (false, [])
    → P (write_message sent m)
unfolding write_message
write_message-either P sent m whole cut =
    result_elim P (encode_message m) (λ e bad. cut)
      (λ frame good. if_elim P sent (λ s. whole) (λ s. cut))

refuse-replies :
    (sent : Bool) (text : GatewayError → Bytes) (related_type batch_sequence : ℕ) (e : GatewayError)
    (g : Gateway)
    → are_replies (refuse sent text related_type batch_sequence e g).0 ≡ true
unfolding write_error error_message
refuse-replies sent text related_type batch_sequence e g =
    write_message-either (λ r. are_replies r.1 ≡ true) sent _ refl refl

refuse-conversation :
    (sent : Bool) (text : GatewayError → Bytes) (related_type batch_sequence : ℕ) (e : GatewayError)
    (g : Gateway)
    → is_conversation (refuse sent text related_type batch_sequence e g).0 ≡ true
unfolding write_error error_message
refuse-conversation sent text related_type batch_sequence e g =
    write_message-either (λ r. is_conversation r.1 ≡ true) sent _ refl refl

abbrev Replies : Conversation → Type 0
Replies c = are_replies c.0 ≡ true

acknowledged-Replies :
    (io : RoundIo) (lease : Bytes) (generation : ℕ) (ack : AckV1) (terminal : Bool)
    (next : Gateway → Conversation) (g : Gateway)
    → ((after : Gateway) → Replies (next after))
    → Replies (acknowledged io lease generation ack terminal next g)
unfolding acknowledged
acknowledged-Replies io lease generation ack terminal next g later =
    let alone =
      write_message-either (λ r. are_replies r.1 ≡ true) io.sent (Message.ack ack) refl refl in
    let rest = later (touch_after_ack io lease generation g) in
    if_elim Replies (not io.before_ack) (λ stopped. refl)
      (λ goes.
        if_elim Replies (not (write_message io.sent (Message.ack ack)).0) (λ cut. alone)
          (λ whole.
            if_elim Replies terminal (λ done. alone)
              (λ on.
                write_message-either
                  (λ r.
                    are_replies (r.1 ++ (next (touch_after_ack io lease generation g)).0) ≡ true)
                  io.sent (Message.ack ack) rest rest)))

answered-Replies :
    (io : RoundIo) (lease : Bytes) (generation batch_sequence : ℕ) (next : Gateway → Conversation)
    (a : Answer)
    → ((after : Gateway) → Replies (next after))
    → Replies (answered io lease generation batch_sequence next a)
unfolding answered
answered-Replies io lease generation batch_sequence next (err e, g) later =
    refuse-replies io.sent io.text _ _ e g
answered-Replies io lease generation batch_sequence next (ok (ack, terminal), g) later =
    acknowledged-Replies io lease generation ack terminal next g later

receive-Replies :
    (io : RoundIo) (hello : HelloV1) (lease : Bytes) (generation : ℕ) (raw : Bytes)
    (next : Gateway → Conversation) (g : Gateway) (r : Result (ℕ × ErrorCode) (ℕ × Message))
    → ((after : Gateway) → Replies (next after))
    → Replies (receive io hello lease generation raw next g r)
unfolding receive
receive-Replies io hello lease generation raw next g (err (related_type, code)) later =
    refuse-replies io.sent io.text _ _ _ g
receive-Replies io hello lease generation raw next g (ok (related_type, Message.batch b)) later =
    answered-Replies io lease generation b.batch_sequence next _ later
receive-Replies io hello lease generation raw next g (ok (related_type, Message.hello m)) later =
    refuse-replies io.sent io.text _ _ _ g
receive-Replies io hello lease generation raw next g (ok (related_type, Message.resume m)) later =
    refuse-replies io.sent io.text _ _ _ g
receive-Replies io hello lease generation raw next g (ok (related_type, Message.ack m)) later =
    refuse-replies io.sent io.text _ _ _ g
receive-Replies io hello lease generation raw next g (ok (related_type, Message.error m)) later =
    refuse-replies io.sent io.text _ _ _ g

serve_batches-Replies :
    (rounds : List RoundIo) (hello : HelloV1) (lease : Bytes) (generation : ℕ) (input : Bytes)
    (g : Gateway)
    → Replies (serve_batches rounds hello lease generation input g)
unfolding serve_batches
serve_batches-Replies [] hello lease generation input g = refl
serve_batches-Replies (io ∷ rounds) hello lease generation input g =
    if_elim Replies io.cancelled (λ cancelled. refl)
      (λ running.
        read (read_frame g.config.max_frame_bytes input)
          (λ rest after. serve_batches-Replies rounds hello lease generation rest after))
  where
    read :
        (r : Result ReadError (Bytes × Bytes))
        → ((rest : Bytes) (after : Gateway)
            → Replies (serve_batches rounds hello lease generation rest after))
        → Replies (elim r [
          | err (true, code) ↦ refuse io.sent io.text 0 0 (GatewayError.protocol code) g
          | err (false, code) ↦ ([], g)
          | ok (raw, rest) ↦
              receive io hello lease generation raw
                (λ after. serve_batches rounds hello lease generation rest after)
                g
                (message_of raw)
        ])
    read (err (true, code)) later = refuse-replies io.sent io.text _ _ _ g
    read (err (false, code)) later = refl
    read (ok (raw, rest)) later =
        receive-Replies io hello lease generation raw _ g (message_of raw) (later rest)

abbrev Converses : Conversation → Type 0
Converses c = is_conversation c.0 ≡ true

begin_session-Converses :
    (io : ConnectionIo) (hello : HelloV1) (input : Bytes) (g : Gateway)
    (r : Result GatewayError (ResumeV1 × Bytes × ℕ) × Session)
    → Converses (begin_session io hello input g r)
unfolding begin_session
begin_session-Converses io hello input g (err e, session) =
    refuse-conversation io.sent io.text _ _ e (record g { session = session })
begin_session-Converses io hello input g (ok (resume, lease, generation), session) =
    let after = record g { session = session } in
    let rest = serve_batches-Replies io.rounds hello lease generation input after in
    if_elim Converses (not (write_message io.sent (Message.resume resume)).0)
      (λ cut.
        write_message-either (λ r. is_conversation r.1 ≡ true) io.sent (Message.resume resume) refl
          refl)
      (λ whole.
        write_message-either
          (λ r.
            not r.0 ≡ false
            → is_conversation
                (r.1 ++ (serve_batches io.rounds hello lease generation input after).0)
              ≡ true)
          io.sent (Message.resume resume) (λ done. rest) (λ failed. cc) whole)

greet-Converses :
    (io : ConnectionIo) (input : Bytes) (g : Gateway) (r : Result (ℕ × ErrorCode) (ℕ × Message))
    → Converses (greet io input g r)
unfolding greet
greet-Converses io input g (err (related_type, code)) = refuse-conversation io.sent io.text _ _ _ g
greet-Converses io input g (ok (related_type, Message.hello m)) =
    begin_session-Converses io m input g _
greet-Converses io input g (ok (related_type, Message.resume m)) =
    refuse-conversation io.sent io.text _ _ _ g
greet-Converses io input g (ok (related_type, Message.batch m)) =
    refuse-conversation io.sent io.text _ _ _ g
greet-Converses io input g (ok (related_type, Message.ack m)) =
    refuse-conversation io.sent io.text _ _ _ g
greet-Converses io input g (ok (related_type, Message.error m)) =
    refuse-conversation io.sent io.text _ _ _ g

-- What a connection sends, whatever bytes arrive and wherever reads, writes, hooks and calls fail: nothing,
-- or a single error, or a resume and then acknowledgements, behind which at most one error stands as the
-- last message.
pub handle_conn-is_conversation :
    (io : ConnectionIo) (input : Bytes) (g : Gateway)
    → is_conversation (handle_conn io input g).0 ≡ true
unfolding handle_conn
handle_conn-is_conversation io input g = read (read_frame g.config.max_frame_bytes input)
  where
    read :
        (r : Result ReadError (Bytes × Bytes))
        → Converses (elim r [
          | err (true, code) ↦ refuse io.sent io.text 0 0 (GatewayError.protocol code) g
          | err (false, code) ↦ ([], g)
          | ok (raw, rest) ↦ greet io rest g (message_of raw)
        ])
    read (err (true, code)) = refuse-conversation io.sent io.text _ _ _ g
    read (err (false, code)) = refl
    read (ok (raw, rest)) = greet-Converses io rest g (message_of raw)
