-- ===== src/Ingest/ConnectionEnd.antt =====
-- HandleConn of internal/ingest/gateway.go: the session of a connection that has ended.
use utaki_tick_data_platform.Common.{
  ℕ, ◌≡◌, ◌≢◌, refl, sym, subst, false, not, ◌&&◌, Result, ok, err, Bytes, bytes_eq, ◌==◌, arith,
  if_elim, result_elim, >>-eq-ok, ℤ,
}
use utaki_tick_data_platform.Protocol.{HelloV1, ResumeV1, Message}
use utaki_tick_data_platform.Journal
use utaki_tick_data_platform.Ingest.Config.{Config}
use utaki_tick_data_platform.Ingest.Session.{
  GatewayError, Session, after, session_active, release_session, following_generation,
  acquire_session, validate_hello, lease_of, read_resume, answer, take_lease, start_session,
}
use utaki_tick_data_platform.Ingest.Gateway.{Gateway}
use utaki_tick_data_platform.Ingest.Wire.{read_frame, write_message}
use utaki_tick_data_platform.Ingest.Connection.{
  ConnectionIo, Conversation, message_of, begin_session, greet, handle_conn,
}

release_session_inactive :
    (t : ℕ) (lease : Bytes) (generation : ℕ) (s : Session)
    → generation ≢ 0
    → session_active t lease generation (release_session lease generation s) ≡ false
unfolding session_active release_session
release_session_inactive t lease generation s nonzero =
    if_elim (λ (s' : Session). session_active t lease generation s' ≡ false)
      (bytes_eq s.active_lease lease && s.active_generation == generation)
      (λ own. ground (arith, nonzero)) (λ other. ground (arith, other))

abbrev Started : Result GatewayError (ResumeV1 × Bytes × ℕ) × Session → Type 0
Started (err e, s) = Unit {0}
Started (ok (resume, lease, generation), s) = generation ≢ 0

acquire_session_nonzero :
    (timeout : ℤ) (now : ℕ) (lease : Bytes) (s s' : Session)
    → acquire_session timeout now lease s ≡ ok s'
    → s'.active_generation ≢ 0
unfolding acquire_session
acquire_session_nonzero timeout now lease s s' h =
    let (open', h1) = >>-eq-ok _ _ _ h in
    let (free, h2) = >>-eq-ok _ _ _ h1 in
    let taken : record s {
      next_generation = following_generation s.next_generation;
      active_lease = lease;
      active_until = after now timeout;
      active_generation = following_generation s.next_generation;
    }
        ≡ s' =
      cc in
    let nonzero : following_generation s.next_generation ≢ 0 = ground arith in
    subst (λ (x : Session). x.active_generation ≢ 0) taken nonzero

answer-Started :
    (lease : Bytes) (s : Session) (r : Result GatewayError ResumeV1)
    → s.active_generation ≢ 0
    → Started (answer lease s r)
answer-Started lease s (ok resume) nonzero = nonzero
answer-Started lease s (err e) nonzero = tt

take_lease-Started :
    (config : Config) (store : Journal.Store) (hello : HelloV1) (s : Session)
    (r : Result GatewayError Session)
    → ((s' : Session) → r ≡ ok s' → s'.active_generation ≢ 0)
    → Started (take_lease config store hello s r)
take_lease-Started config store hello s (ok taken) nonzero =
    answer-Started (lease_of hello) taken (read_resume config store hello) (nonzero taken refl)
take_lease-Started config store hello s (err e) nonzero = tt

start_session-Started :
    (config : Config) (store : Journal.Store) (hello : HelloV1) (now : ℕ) (s : Session)
    → Started (start_session config store hello now s)
unfolding start_session
start_session-Started config store hello now s =
    result_elim Started (validate_hello config hello) (λ e bad. tt)
      (λ valid checked.
        take_lease-Started config store hello s _
          (acquire_session_nonzero config.session_lease_timeout now (lease_of hello) s))

begun_released :
    (io : ConnectionIo) (hello : HelloV1) (input : Bytes) (g : Gateway) (resume : ResumeV1)
    (lease : Bytes) (generation t : ℕ) (s : Session)
    → generation ≢ 0
    → session_active t lease generation
        (begin_session io hello input g (ok (resume, lease, generation), s)).1.session
      ≡ false
unfolding begin_session
begun_released io hello input g resume lease generation t s nonzero =
    if_elim (λ (c : Conversation). session_active t lease generation c.1.session ≡ false)
      (not (write_message io.sent (Message.resume resume)).0)
      (λ cut. release_session_inactive t lease generation _ nonzero)
      (λ whole. release_session_inactive t lease generation _ nonzero)

-- A connection whose greeting starts a session: once the connection has ended, after whatever was received
-- and answered in it, the session that it started is not active at any instant.
pub handle_conn_released :
    (io : ConnectionIo) (input raw rest : Bytes) (related_type : ℕ) (hello : HelloV1)
    (resume : ResumeV1) (lease : Bytes) (generation t : ℕ) (s : Session) (g : Gateway)
    → read_frame g.config.max_frame_bytes input ≡ ok (raw, rest)
    → message_of raw ≡ ok (related_type, Message.hello hello)
    → start_session g.config g.journal hello io.started_at g.session
      ≡ (ok (resume, lease, generation), s)
    → session_active t lease generation (handle_conn io input g).1.session ≡ false
unfolding handle_conn greet
handle_conn_released io input raw rest related_type hello resume lease generation t s g read greeted
      started =
    let nonzero =
      subst Started started
        (start_session-Started g.config g.journal hello io.started_at g.session) in
    rw (read, handle_conn)
      (rw (greeted, greet)
        (subst
          (λ r.
            session_active t lease generation (begin_session io hello rest g r).1.session ≡ false)
          (sym started) (begun_released io hello rest g resume lease generation t s nonzero)))
