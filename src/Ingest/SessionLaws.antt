-- ===== src/Ingest/SessionLaws.antt =====
-- startSession, touchSession and releaseSession of internal/ingest/gateway.go: who holds the lease.
use utaki_tick_data_platform.Common.{
  ℕ, ◌<◌, ◌≡◌, ◌≢◌, inl, inr, refl, ap, ◌∙◌, List, [], ◌∷◌, All, false, not, ◌&&◌, Result, err,
  require_holds, require_fails, Bytes, ℤ, bytes_eq, length, ◌==◌, if_false, arith, Result-cases,
}
use utaki_tick_data_platform.Protocol.{HelloV1, ErrorCode}
use utaki_tick_data_platform.Journal
use utaki_tick_data_platform.Ingest.Config.{Config}
use utaki_tick_data_platform.Ingest.Session.{
  GatewayError, Session, release_session, touch_session, acquire_session, validate_hello, lease_of,
  take_lease, start_session,
}

-- The lease is held at an instant.
abbrev pub IsHeld : ℕ → Session → Type 0
IsHeld now s = (s.closed ≡ false) × (0 < length s.active_lease) × (now < s.active_until)

acquire_session_held :
    (timeout : ℤ) (now : ℕ) (lease : Bytes) (s : Session)
    → IsHeld now s
    → acquire_session timeout now lease s
      ≡ err (GatewayError.protocol ErrorCode.session_lease_conflict)
unfolding acquire_session
acquire_session_held timeout now lease s (open', named, before) =
    require_holds (not s.closed) GatewayError.closed _ (ap not open')
    ∙ require_fails _ _ _ (ground (arith, named, before))

-- A start that is refused leaves the session.
start_session_held :
    (config : Config) (store : Journal.Store) (hello : HelloV1) (now : ℕ) (s : Session)
    → IsHeld now s
    → (start_session config store hello now s).1 ≡ s
unfolding start_session
start_session_held config store hello now s held =
    elim (Result-cases (validate_hello config hello)) [
      | inl (valid, checked) ↦
          rw (checked, start_session)
            (ap (λ (r : Result GatewayError Session). (take_lease config store hello s r).1)
              (acquire_session_held config.session_lease_timeout now (lease_of hello) s held))
      | inr (e, bad) ↦ rw (bad, start_session) refl
    ]

-- What reaches the session from connections.
pub data SessionEvent : Type 0 where
  started : HelloV1 → Journal.Store → ℕ → SessionEvent
  touched released : Bytes → ℕ → ℕ → SessionEvent

abbrev pub happen : Config → SessionEvent → Session → Session
happen config (started hello store now) s = (start_session config store hello now s).1
happen config (touched lease generation now) s =
    touch_session config.session_lease_timeout now lease generation s
happen config (released lease generation now) s = release_session lease generation s

abbrev pub happen_all : Config → List SessionEvent → Session → Session
happen_all config [] s = s
happen_all config (event ∷ events) s = happen_all config events (happen config event s)

-- An attempt to start before an instant, or an event of a connection with another generation.
abbrev pub FromOthers : ℕ → ℕ → SessionEvent → Type 0
FromOthers generation until (started hello store now) = now < until
FromOthers generation until (touched lease other now) = other ≢ generation
FromOthers generation until (released lease other now) = other ≢ generation

happen-FromOthers :
    (config : Config) (event : SessionEvent) (s : Session)
    → s.closed ≡ false
    → 0 < length s.active_lease
    → FromOthers s.active_generation s.active_until event
    → happen config event s ≡ s
unfolding touch_session release_session
happen-FromOthers config (started hello store now) s open' named before =
    start_session_held config store hello now s (open', named, before)
happen-FromOthers config (touched lease other now) s open' named differs =
    if_false (not s.closed && (bytes_eq s.active_lease lease && s.active_generation == other)) _ s
      (ground (arith, differs))
happen-FromOthers config (released lease other now) s open' named differs =
    if_false (bytes_eq s.active_lease lease && s.active_generation == other) _ s
      (ground (arith, differs))

-- A session that holds the lease keeps it up to its instant, whatever other connections do before that:
-- starting with any greeting, touching and releasing with another generation change nothing.
pub happen_all-FromOthers :
    (config : Config) (events : List SessionEvent) (s : Session)
    → s.closed ≡ false
    → 0 < length s.active_lease
    → All (FromOthers s.active_generation s.active_until) events
    → happen_all config events s ≡ s
happen_all-FromOthers config [] s open' named others = refl
happen_all-FromOthers config (event ∷ events) s open' named (first, rest) =
    ap (happen_all config events) (happen-FromOthers config event s open' named first)
    ∙ happen_all-FromOthers config events s open' named rest
