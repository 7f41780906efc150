-- ===== src/Ingest/SessionStart.antt =====
-- startSession, touchSession and releaseSession of internal/ingest/gateway.go: a start that takes the lease.
use utaki_tick_data_platform.Common.{
  ℕ, ◌^◌, ◌<◌, ◌≤◌, ◌≡◌, ◌≢◌, ◌⊎◌, inl, inr, ap, ◌∙◌, sym, [], true, false, not, ◌&&◌, ◌||◌, ok,
  require_holds, Bytes, ℤ, bytes_eq, bytes_eq_refl, length, ltb, ◌==◌, if_false, if_true,
  bytes_eq→eq, Bool-cases, arith,
}
use utaki_tick_data_platform.Protocol.{HelloV1, ResumeV1}
use utaki_tick_data_platform.Journal
use utaki_tick_data_platform.Ingest.Config.{Config}
use utaki_tick_data_platform.Ingest.Session.{
  GatewayError, Session, after, session_active, release_session, touch_session,
  following_generation, acquire_session, validate_hello, lease_of, read_resume, answer, take_lease,
  start_session,
}

-- The session after a start.
abbrev pub begun : ℤ → ℕ → Bytes → Session → Session
begun timeout now lease s = record s {
  next_generation = following_generation s.next_generation;
  active_lease = lease;
  active_until = after now timeout;
  active_generation = following_generation s.next_generation;
}

acquire_session_free :
    (timeout : ℤ) (now : ℕ) (lease : Bytes) (s : Session)
    → s.closed ≡ false
    → (length s.active_lease ≡ 0) ⊎ (s.active_until ≤ now)
    → acquire_session timeout now lease s ≡ ok (begun timeout now lease s)
unfolding acquire_session
acquire_session_free timeout now lease s open' free =
    require_holds (not s.closed) GatewayError.closed _ (ap not open')
    ∙ require_holds _ _ _ (free_test free)
  where
    free_test :
        (length s.active_lease ≡ 0) ⊎ (s.active_until ≤ now)
        → (length s.active_lease == 0 || not (ltb now s.active_until)) ≡ true
    free_test (inl unnamed) = ground (arith, unnamed)
    free_test (inr over) = ground (arith, over)

-- The generation of a session is the last one that was given out, and 0 stands for no session.
abbrev pub HasLast : ℕ → ℕ → Type 0
HasLast next active = (next < 2 ^ 64) × ((active ≡ 0) ⊎ (active ≡ next))

abbrev pub HasGeneration : Session → Type 0
HasGeneration s = HasLast s.next_generation s.active_generation

following_generation_differs :
    (s : Session) → HasGeneration s → s.active_generation ≢ following_generation s.next_generation
following_generation_differs s (small, inl unused) = ground (arith, small, unused)
following_generation_differs s (small, inr last) = ground (arith, small, last)

-- A touch or a release that is not by the active lease with the active generation.
stale_guard :
    (active other : Bytes) (n generation : ℕ)
    → (other ≢ active) ⊎ (n ≢ generation)
    → (bytes_eq active other && n == generation) ≡ false
stale_guard active other n generation (inl differs) = elim (Bool-cases (bytes_eq active other)) [
  | inl same ↦ absurd (differs (sym (bytes_eq→eq active other same)))
  | inr unequal ↦ ground (arith, unequal)
]
stale_guard active other n generation (inr differs) = ground (arith, differs)

module _ (timeout : ℤ) (now : ℕ) (other : Bytes) (generation : ℕ) (s : Session)
    (stale : (other ≢ s.active_lease) ⊎ (s.active_generation ≢ generation)) where
  pub touch_session_stale : touch_session timeout now other generation s ≡ s
  unfolding touch_session
  touch_session_stale =
      let guard = stale_guard s.active_lease other s.active_generation generation stale in
      if_false
        (not s.closed && (bytes_eq s.active_lease other && s.active_generation == generation)) _ s
        (ground (arith, guard))

  pub release_session_stale : release_session other generation s ≡ s
  unfolding release_session
  release_session_stale =
      if_false (bytes_eq s.active_lease other && s.active_generation == generation) _ s
        (stale_guard s.active_lease other s.active_generation generation stale)

-- On an open gateway, once no lease is held or the instant of the held one is reached, a greeting that
-- validates is answered with the resume of the journal, and its session is active from then until its
-- timeout. A touch and a release with another lease, or with the generation of the session before it,
-- change nothing, whatever the other of the two is; its own release gives the lease back. The generation of
-- the session before it is the last one that was given out, or 0.
pub start_session_free :
    (config : Config) (store : Journal.Store) (hello : HelloV1) (now t : ℕ) (resume : ResumeV1)
    (s : Session) (other : Bytes) (generation : ℕ)
    → s.closed ≡ false
    → (length s.active_lease ≡ 0) ⊎ (s.active_until ≤ now)
    → HasGeneration s
    → validate_hello config hello ≡ ok tt
    → read_resume config store hello ≡ ok resume
    → t < after now config.session_lease_timeout
    → (other ≢ lease_of hello) ⊎ (generation ≡ s.active_generation)
    → let s' = begun config.session_lease_timeout now (lease_of hello) s in
      (start_session config store hello now s
        ≡ (ok (resume, lease_of hello, s'.active_generation), s'))
      × (session_active t (lease_of hello) s'.active_generation s' ≡ true)
      × (touch_session config.session_lease_timeout t other generation s' ≡ s')
      × (release_session other generation s' ≡ s')
      × (release_session (lease_of hello) s'.active_generation s'
          ≡ record s' { active_lease = []; active_until = 0; active_generation = 0 })
unfolding start_session session_active release_session
start_session_free config store hello now t resume s other generation open' free last valid readable
      early elsewhere =
    let timeout = config.session_lease_timeout in
    let lease = lease_of hello in
    let s' = begun timeout now lease s in
    let stale : (other ≢ lease) ⊎ (s'.active_generation ≢ generation) = elim elsewhere [
      | inl differs ↦ inl differs
      | inr old ↦ inr (λ same. absurd (following_generation_differs s last (sym old ∙ sym same)))
    ] in
    (
      rw (valid, start_session)
          (ap (take_lease config store hello s)
              (acquire_session_free timeout now lease s open' free)
            ∙ ap (answer lease s') readable),
      ground (arith, open', bytes_eq_refl lease, early),
      touch_session_stale timeout t other generation s' stale,
      release_session_stale timeout t other generation s' stale,
      if_true (bytes_eq lease lease && s'.active_generation == s'.active_generation) _ s'
          (ground (arith, bytes_eq_refl lease)),
    )
