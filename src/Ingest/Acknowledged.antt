-- ===== src/Ingest/Acknowledged.antt =====
-- HandleConn of internal/ingest/gateway.go: the acknowledgements that a producer receives, against the log.
use utaki_tick_data_platform.Common.{
  ℕ, ◌≡◌, refl, sym, ap, ◌∙◌, subst, List, [], ◌∷◌, ◌++◌, append_assoc, All, All-append,
  All-append_right, All-mono, Bool, true, false, not, Result, ok, err, Bytes, if_elim, result_elim,
}
use utaki_tick_data_platform.Protocol.{AckV1, BatchFrameV1, HelloV1, ResumeV1, Message, ErrorCode}
use utaki_tick_data_platform.Protocol.Encode.{encode_message}
use utaki_tick_data_platform.Wal.{WalEntry}
use utaki_tick_data_platform.Ingest.Session.{GatewayError, Session}
use utaki_tick_data_platform.Ingest.Gateway.{Gateway, ack_from_batch}
use utaki_tick_data_platform.Ingest.Accept.{AcceptIo, Answer, accept_batch}
use utaki_tick_data_platform.Ingest.Answered.{is_accepted}
use utaki_tick_data_platform.Ingest.Durability.{Durable, accept_batch-Durable}
use utaki_tick_data_platform.Ingest.LogGrowth.{Grown, Grown-refl, Grown-trans, accept_batch-Grown}
use utaki_tick_data_platform.Ingest.Wire.{
  ReadError, read_frame, write_message, error_message, write_error,
}
use utaki_tick_data_platform.Ingest.Connection.{
  RoundIo, ConnectionIo, Conversation, touch_after_ack, message_of, refuse, acknowledged, answered,
  receive, serve_batches, begin_session, greet, handle_conn,
}

-- The entry that an acknowledgement names.
abbrev pub InLog : AckV1 → List WalEntry → Type 0
InLog ack es =
    (front : List WalEntry) × (entry : WalEntry) × (back : List WalEntry) × (es
      ≡ front ++ (entry ∷ back))
    × (entry.sequence ≡ ack.gateway_ingest_sequence)
    × (entry.batch_hash ≡ ack.gateway_batch_sha256)

InLog-Grown : (ack : AckV1) (es es' : List WalEntry) → InLog ack es → Grown es es' → InLog ack es'
InLog-Grown ack es es' (front, entry, back, at, sequence, hash) (more, grown) = (
  front,
  entry,
  back ++ more,
  grown ∙ ap (λ (r : List WalEntry). r ++ more) at ∙ append_assoc front (entry ∷ back) more,
  sequence,
  hash,
)

Durable-InLog :
    (io : AcceptIo) (raw : Bytes) (batch : BatchFrameV1) (g g' : Gateway) (ack : AckV1)
    → Durable io raw batch g.wal g' ack
    → InLog ack g'.wal.entries
unfolding ack_from_batch
Durable-InLog io raw batch g g' ack d = (
  g.wal.entries,
  d.entry,
  [],
  d.entries,
  sym d.row_sequence ∙ sym (ap (λ (a : AckV1). a.gateway_ingest_sequence) d.answer),
  d.hash ∙ sym d.row_hash ∙ sym (ap (λ (a : AckV1). a.gateway_batch_sha256) d.answer),
)

abbrev Backed : List WalEntry → Message → Type 0
Backed es (Message.ack a) = is_accepted a.status ≡ true → InLog a es
Backed es _ = Unit {0}

Backed-Grown : (es es' : List WalEntry) → Grown es es' → (m : Message) → Backed es m → Backed es' m
Backed-Grown es es' grown (Message.ack a) h = λ accepted. InLog-Grown a es es' (h accepted) grown
Backed-Grown es es' grown (Message.hello m) h = tt
Backed-Grown es es' grown (Message.resume m) h = tt
Backed-Grown es es' grown (Message.batch m) h = tt
Backed-Grown es es' grown (Message.error m) h = tt

abbrev AllBacked : Gateway → Conversation → Type 0
AllBacked g c = Grown g.wal.entries c.1.wal.entries × All (Backed c.1.wal.entries) c.0

-- What is sent is the message or nothing.
pub write_message-All :
    (P : Message → Type 0) (sent : Bool) (m : Message) → P m → All P (write_message sent m).1
unfolding write_message
write_message-All P sent m h =
    result_elim (λ (r : Bool × List Message). All P r.1) (encode_message m) (λ e bad. tt)
      (λ frame good.
        if_elim (λ (r : Bool × List Message). All P r.1) sent (λ whole. (h, tt)) (λ cut. tt))

refuse-AllBacked :
    (sent : Bool) (text : GatewayError → Bytes) (related_type batch_sequence : ℕ) (e : GatewayError)
    (g g' : Gateway)
    → Grown g.wal.entries g'.wal.entries
    → AllBacked g (refuse sent text related_type batch_sequence e g')
unfolding write_error error_message
refuse-AllBacked sent text related_type batch_sequence e g g' grown =
    (grown, write_message-All (Backed g'.wal.entries) sent _ tt)

acknowledged-AllBacked :
    (io : RoundIo) (lease : Bytes) (generation : ℕ) (ack : AckV1) (terminal : Bool)
    (next : Gateway → Conversation) (g g' : Gateway)
    → Grown g.wal.entries g'.wal.entries
    → (is_accepted ack.status ≡ true → InLog ack g'.wal.entries)
    → ((after : Gateway) → AllBacked after (next after))
    → AllBacked g (acknowledged io lease generation ack terminal next g')
unfolding acknowledged
acknowledged-AllBacked io lease generation ack terminal next g g' grown backed later =
    let first = write_message-All (Backed g'.wal.entries) io.sent (Message.ack ack) backed in
    let (more, rest) = later (touch_after_ack io lease generation g') in
    if_elim (AllBacked g) (not io.before_ack) (λ stopped. (grown, tt))
      (λ goes.
        if_elim (AllBacked g) (not (write_message io.sent (Message.ack ack)).0)
          (λ cut. (grown, first))
          (λ whole.
            if_elim (AllBacked g) terminal (λ done. (grown, first))
              (λ on. (
                Grown-trans g.wal.entries g'.wal.entries _ grown more,
                All-append _ _ _ (All-mono _ _ (Backed-Grown g'.wal.entries _ more) _ first) rest,
              ))))

answered-AllBacked :
    (io : RoundIo) (raw : Bytes) (batch : BatchFrameV1) (hello : HelloV1) (lease : Bytes)
    (generation : ℕ) (next : Gateway → Conversation) (g : Gateway) (a : Answer)
    → accept_batch io.accept raw batch hello lease generation g ≡ a
    → Grown g.wal.entries a.1.wal.entries
    → ((after : Gateway) → AllBacked after (next after))
    → AllBacked g (answered io lease generation batch.batch_sequence next a)
unfolding answered
answered-AllBacked io raw batch hello lease generation next g (err e, g') h grown later =
    refuse-AllBacked io.sent io.text _ batch.batch_sequence e g g' grown
answered-AllBacked io raw batch hello lease generation next g (ok (ack, terminal), g') h grown
      later =
    acknowledged-AllBacked io lease generation ack terminal next g g' grown
      (λ accepted. Durable-InLog io.accept raw batch g g' ack (
        accept_batch-Durable io.accept raw batch hello lease generation g g' ack terminal h
          accepted))
      later

receive-AllBacked :
    (io : RoundIo) (hello : HelloV1) (lease : Bytes) (generation : ℕ) (raw : Bytes)
    (next : Gateway → Conversation) (g : Gateway) (r : Result (ℕ × ErrorCode) (ℕ × Message))
    → ((after : Gateway) → AllBacked after (next after))
    → AllBacked g (receive io hello lease generation raw next g r)
unfolding receive
receive-AllBacked io hello lease generation raw next g (err (related_type, code)) later =
    refuse-AllBacked io.sent io.text _ _ _ g g (Grown-refl _)
receive-AllBacked io hello lease generation raw next g (ok (related_type, Message.batch b)) later =
    answered-AllBacked io raw b hello lease generation next g _ refl
      (accept_batch-Grown io.accept raw b hello lease generation g) later
receive-AllBacked io hello lease generation raw next g (ok (related_type, Message.hello m)) later =
    refuse-AllBacked io.sent io.text _ _ _ g g (Grown-refl _)
receive-AllBacked io hello lease generation raw next g (ok (related_type, Message.resume m)) later =
    refuse-AllBacked io.sent io.text _ _ _ g g (Grown-refl _)
receive-AllBacked io hello lease generation raw next g (ok (related_type, Message.ack m)) later =
    refuse-AllBacked io.sent io.text _ _ _ g g (Grown-refl _)
receive-AllBacked io hello lease generation raw next g (ok (related_type, Message.error m)) later =
    refuse-AllBacked io.sent io.text _ _ _ g g (Grown-refl _)

serve_batches-AllBacked :
    (rounds : List RoundIo) (hello : HelloV1) (lease : Bytes) (generation : ℕ) (input : Bytes)
    (g : Gateway)
    → AllBacked g (serve_batches rounds hello lease generation input g)
unfolding serve_batches
serve_batches-AllBacked [] hello lease generation input g = (Grown-refl _, tt)
serve_batches-AllBacked (io ∷ rounds) hello lease generation input g =
    let P = AllBacked g in
    if_elim P io.cancelled (λ cancelled. (Grown-refl _, tt))
      (λ running.
        read (read_frame g.config.max_frame_bytes input)
          (λ rest after. serve_batches-AllBacked rounds hello lease generation rest after))
  where
    read :
        (r : Result ReadError (Bytes × Bytes))
        → ((rest : Bytes) (after : Gateway)
            → AllBacked after (serve_batches rounds hello lease generation rest after))
        → AllBacked g (elim r [
          | err (true, code) ↦ refuse io.sent io.text 0 0 (GatewayError.protocol code) g
          | err (false, code) ↦ ([], g)
          | ok (raw, rest) ↦
              receive io hello lease generation raw
                (λ after. serve_batches rounds hello lease generation rest after)
                g
                (message_of raw)
        ])
    read (err (true, code)) later = refuse-AllBacked io.sent io.text _ _ _ g g (Grown-refl _)
    read (err (false, code)) later = (Grown-refl _, tt)
    read (ok (raw, rest)) later =
        receive-AllBacked io hello lease generation raw _ g (message_of raw) (later rest)

begin_session-AllBacked :
    (io : ConnectionIo) (hello : HelloV1) (input : Bytes) (g : Gateway)
    (r : Result GatewayError (ResumeV1 × Bytes × ℕ) × Session)
    → AllBacked g (begin_session io hello input g r)
unfolding begin_session
begin_session-AllBacked io hello input g (err e, session) =
    refuse-AllBacked io.sent io.text _ _ e g (record g { session = session }) (Grown-refl _)
begin_session-AllBacked io hello input g (ok (resume, lease, generation), session) =
    let after = record g { session = session } in
    let (more, rest) = serve_batches-AllBacked io.rounds hello lease generation input after in
    if_elim (AllBacked g) (not (write_message io.sent (Message.resume resume)).0)
      (λ cut.
        (Grown-refl _, write_message-All (Backed g.wal.entries) io.sent (Message.resume resume) tt))
      (λ whole.
        (more, All-append _ _ _ (write_message-All _ io.sent (Message.resume resume) tt) rest))

greet-AllBacked :
    (io : ConnectionIo) (input : Bytes) (g : Gateway) (r : Result (ℕ × ErrorCode) (ℕ × Message))
    → AllBacked g (greet io input g r)
unfolding greet
greet-AllBacked io input g (err (related_type, code)) =
    refuse-AllBacked io.sent io.text _ _ _ g g (Grown-refl _)
greet-AllBacked io input g (ok (related_type, Message.hello m)) =
    begin_session-AllBacked io m input g _
greet-AllBacked io input g (ok (related_type, Message.resume m)) =
    refuse-AllBacked io.sent io.text _ _ _ g g (Grown-refl _)
greet-AllBacked io input g (ok (related_type, Message.batch m)) =
    refuse-AllBacked io.sent io.text _ _ _ g g (Grown-refl _)
greet-AllBacked io input g (ok (related_type, Message.ack m)) =
    refuse-AllBacked io.sent io.text _ _ _ g g (Grown-refl _)
greet-AllBacked io input g (ok (related_type, Message.error m)) =
    refuse-AllBacked io.sent io.text _ _ _ g g (Grown-refl _)

handle_conn-AllBacked :
    (io : ConnectionIo) (input : Bytes) (g : Gateway) → AllBacked g (handle_conn io input g)
unfolding handle_conn
handle_conn-AllBacked io input g = read (read_frame g.config.max_frame_bytes input)
  where
    read :
        (r : Result ReadError (Bytes × Bytes))
        → AllBacked g (elim r [
          | err (true, code) ↦ refuse io.sent io.text 0 0 (GatewayError.protocol code) g
          | err (false, code) ↦ ([], g)
          | ok (raw, rest) ↦ greet io rest g (message_of raw)
        ])
    read (err (true, code)) = refuse-AllBacked io.sent io.text _ _ _ g g (Grown-refl _)
    read (err (false, code)) = (Grown-refl _, tt)
    read (ok (raw, rest)) = greet-AllBacked io rest g (message_of raw)

-- Of a whole connection, whatever bytes arrive and wherever reads, writes, hooks and calls fail: an
-- acknowledgement of acceptance that was sent names the sequence number and the batch hash of an entry
-- that the log has at the end, and the entries from before the connection are still in front.
pub handle_conn-InLog :
    (io : ConnectionIo) (input : Bytes) (g g' : Gateway) (sent before after : List Message)
    (ack : AckV1)
    → handle_conn io input g ≡ (sent, g')
    → sent ≡ before ++ (Message.ack ack ∷ after)
    → is_accepted ack.status ≡ true
    → Grown g.wal.entries g'.wal.entries × InLog ack g'.wal.entries
handle_conn-InLog io input g g' sent before after ack h at accepted =
    let (grown, backed) = subst (AllBacked g) h (handle_conn-AllBacked io input g) in
    let here =
      All-append_right (Backed g'.wal.entries) before (Message.ack ack ∷ after)
        (subst (All (Backed g'.wal.entries)) at backed) in
    (grown, here.0 accepted)

-- Of the batches of a session, whatever bytes arrive and wherever reads, writes, hooks and calls fail: an
-- acknowledgement of acceptance that was sent names the sequence number and the batch hash of an entry
-- that the log has at the end, and the entries from before are still in front.
pub serve_batches-InLog :
    (rounds : List RoundIo) (hello : HelloV1) (lease : Bytes) (generation : ℕ) (input : Bytes)
    (g g' : Gateway) (sent before after : List Message) (ack : AckV1)
    → serve_batches rounds hello lease generation input g ≡ (sent, g')
    → sent ≡ before ++ (Message.ack ack ∷ after)
    → is_accepted ack.status ≡ true
    → Grown g.wal.entries g'.wal.entries × InLog ack g'.wal.entries
serve_batches-InLog rounds hello lease generation input g g' sent before after ack h at accepted =
    let (grown, backed) =
      subst (AllBacked g) h (serve_batches-AllBacked rounds hello lease generation input g) in
    let here =
      All-append_right (Backed g'.wal.entries) before (Message.ack ack ∷ after)
        (subst (All (Backed g'.wal.entries)) at backed) in
    (grown, here.0 accepted)
