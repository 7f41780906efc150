-- ===== src/Ingest/Generations.antt =====
-- startSession of internal/ingest/gateway.go: the generations that the sessions are given.
use utaki_tick_data_platform.Common.{
  ℕ, ◌^◌, ◌<◌, ◌≤◌, ◌≡◌, ◌≢◌, inl, inr, refl, ap, ◌∙◌, sym, subst, List, [], ◌∷◌, false, not, ◌&&◌,
  Result, ok, err, >>-eq-ok, Bytes, ℤ, bytes_eq, length, ◌==◌, failed_call, ◌+◌, arith, result_elim,
  if_elim,
}
use utaki_tick_data_platform.Protocol.{HelloV1, ResumeV1}
use utaki_tick_data_platform.Journal
use utaki_tick_data_platform.Ingest.Config.{Config}
use utaki_tick_data_platform.Ingest.Session.{
  GatewayError, Session, session_active, release_session, touch_session, following_generation,
  acquire_session, validate_hello, lease_of, read_resume, answer, take_lease, start_session,
}
use utaki_tick_data_platform.Ingest.SessionLaws.{
  SessionEvent, started, touched, released, happen, happen_all,
}
use utaki_tick_data_platform.Ingest.SessionStart.{
  begun, HasLast, HasGeneration, touch_session_stale, release_session_stale,
}

-- A property of the last generation given out and of the active one that releases keep, and that a new
-- generation turns into another property, holds after every event.
module _ (P Q : ℕ → ℕ → Type 0) (weaker : (n a : ℕ) → P n a → Q n a)
    (free : (n a : ℕ) → Q n a → Q n 0)
    (given : (n a : ℕ) → P n a → Q (following_generation n) (following_generation n)) where
  abbrev Before : Session → Type 0
  Before s = P s.next_generation s.active_generation

  abbrev After : Session → Type 0
  After s = Q s.next_generation s.active_generation

  acquire_session-After :
      (timeout : ℤ) (now : ℕ) (lease : Bytes) (s s' : Session)
      → acquire_session timeout now lease s ≡ ok s'
      → Before s
      → After s'
  unfolding acquire_session
  acquire_session-After timeout now lease s s' h before =
      let (open', h1) = >>-eq-ok _ _ _ h in
      let (unheld, h2) = >>-eq-ok _ _ _ h1 in
      let same : begun timeout now lease s ≡ s' = cc in
      subst After same (given s.next_generation s.active_generation before)

  release_session-After :
      (lease : Bytes) (generation : ℕ) (s : Session)
      → After s
      → After (release_session lease generation s)
  unfolding release_session
  release_session-After lease generation s h =
      if_elim After (bytes_eq s.active_lease lease && s.active_generation == generation)
        (λ own. free s.next_generation s.active_generation h) (λ other. h)

  touch_session-After :
      (timeout : ℤ) (now : ℕ) (lease : Bytes) (generation : ℕ) (s : Session)
      → After s
      → After (touch_session timeout now lease generation s)
  unfolding touch_session
  touch_session-After timeout now lease generation s h =
      if_elim After
        (not s.closed && (bytes_eq s.active_lease lease && s.active_generation == generation))
        (λ own. h) (λ other. h)

  answer-After :
      (lease : Bytes) (s : Session) (r : Result GatewayError ResumeV1)
      → After s
      → After (answer lease s r).1
  answer-After lease s (ok resume) h = h
  answer-After lease s (err e) h = release_session-After lease s.active_generation s h

  take_lease-After :
      (config : Config) (store : Journal.Store) (hello : HelloV1) (s : Session)
      (r : Result GatewayError Session)
      → After s
      → ((s' : Session) → r ≡ ok s' → After s')
      → After (take_lease config store hello s r).1
  take_lease-After config store hello s (ok taken) h acquired =
      answer-After (lease_of hello) taken (read_resume config store hello) (acquired taken refl)
  take_lease-After config store hello s (err e) h acquired = h

  start_session-After :
      (config : Config) (store : Journal.Store) (hello : HelloV1) (now : ℕ) (s : Session)
      → Before s
      → After (start_session config store hello now s).1
  unfolding start_session
  start_session-After config store hello now s h =
      let same = weaker s.next_generation s.active_generation h in
      let R : Result GatewayError (ResumeV1 × Bytes × ℕ) × Session → Type 0 = λ a. After a.1 in
      result_elim R (validate_hello config hello) (λ e bad. same)
        (λ valid checked. take_lease-After config store hello s _ same (λ s' acquired.
          acquire_session-After config.session_lease_timeout now (lease_of hello) s s' acquired h))

  happen-After :
      (config : Config) (event : SessionEvent) (s : Session)
      → Before s
      → After (happen config event s)
  happen-After config (started hello store now) s h = start_session-After config store hello now s h
  happen-After config (touched lease generation now) s h =
      touch_session-After config.session_lease_timeout now lease generation s
        (weaker s.next_generation s.active_generation h)
  happen-After config (released lease generation now) s h =
      release_session-After lease generation s (weaker s.next_generation s.active_generation h)

-- Every sequence of events keeps it, also where the generations wrap around.
happen_all-HasGeneration :
    (config : Config) (events : List SessionEvent) (s : Session)
    → HasGeneration s
    → HasGeneration (happen_all config events s)
happen_all-HasGeneration config [] s h = h
happen_all-HasGeneration config (event ∷ events) s h =
    happen_all-HasGeneration config events (happen config event s) (
      happen-After HasLast HasLast (λ n a k. k) (λ n a k. (k.0, inl refl))
        (λ n a k. (ground arith, inr refl)) config event s h)

-- Each event gives out at most one generation.
happen_all_bounds :
    (config : Config) (events : List SessionEvent) (s : Session) (low high : ℕ)
    → low ≤ s.next_generation
    → s.next_generation ≤ high
    → high + length events < 2 ^ 64
    → (low ≤ (happen_all config events s).next_generation)
      × ((happen_all config events s).next_generation ≤ high + length events)
happen_all_bounds config [] s low high least most room = (least, omega (arith, most))
happen_all_bounds config (event ∷ events) s low high least most room =
    let (least', most') =
      happen-After (λ n a. (low ≤ n) × (n ≤ high)) (λ n a. (low ≤ n) × (n ≤ high + 1))
        (λ n a k. (k.0, omega (arith, k.1))) (λ n a k. k)
        (λ n a k. (ground (arith, k.0, k.1, room), ground (arith, k.0, k.1, room))) config event s
        (least, most) in
    let (low_end, high_end) =
      happen_all_bounds config events (happen config event s) low (high + 1) least' most'
        (omega (arith, room)) in
    (low_end, omega (arith, high_end))

-- The generation that a start gives out, and the session it leaves.
abbrev GivenOut : Session → ℕ → Session → Type 0
GivenOut s generation s' =
    (generation ≡ following_generation s.next_generation)
    × (s'.next_generation ≡ generation)
    × (s'.active_generation ≡ generation)

module _ (config : Config) (store : Journal.Store) (hello : HelloV1) (now : ℕ) (s s' : Session)
    (resume : ResumeV1) (lease : Bytes) (generation : ℕ) where
  answer-GivenOut :
      (taken : Session) (r : Result GatewayError ResumeV1)
      → begun config.session_lease_timeout now (lease_of hello) s ≡ taken
      → answer (lease_of hello) taken r ≡ (ok (resume, lease, generation), s')
      → GivenOut s generation s'
  answer-GivenOut taken (err e) begins h = failed_call h
  answer-GivenOut taken (ok found) begins h =
      let left : taken ≡ s' =
        ap (λ (p : Result GatewayError (ResumeV1 × Bytes × ℕ) × Session). p.1) h in
      let result : ◌≡◌ {A = Result GatewayError (ResumeV1 × Bytes × ℕ)}
          (ok (found, lease_of hello, taken.active_generation)) (ok (resume, lease, generation)) =
        ap (λ (p : Result GatewayError (ResumeV1 × Bytes × ℕ) × Session). p.0) h in
      let given : taken.active_generation ≡ generation = cc in
      let active = ap (λ (x : Session). x.active_generation) begins in
      let next = ap (λ (x : Session). x.next_generation) begins in
      (
        sym (active ∙ given),
        ap (λ (x : Session). x.next_generation) (sym left) ∙ sym next ∙ active ∙ given,
        ap (λ (x : Session). x.active_generation) (sym left) ∙ given,
      )

  take_lease-GivenOut :
      (r : Result GatewayError Session)
      → acquire_session config.session_lease_timeout now (lease_of hello) s ≡ r
      → take_lease config store hello s r ≡ (ok (resume, lease, generation), s')
      → GivenOut s generation s'
  unfolding acquire_session
  take_lease-GivenOut (err e) acquired h = failed_call h
  take_lease-GivenOut (ok taken) acquired h =
      let (open', h1) = >>-eq-ok _ _ _ acquired in
      let (unheld, h2) = >>-eq-ok _ _ _ h1 in
      let begins : begun config.session_lease_timeout now (lease_of hello) s ≡ taken = cc in
      answer-GivenOut taken (read_resume config store hello) begins h

  start_session-GivenOut :
      start_session config store hello now s ≡ (ok (resume, lease, generation), s')
      → GivenOut s generation s'
  unfolding start_session
  start_session-GivenOut h =
      result_elim
        (λ (a : Result GatewayError (ResumeV1 × Bytes × ℕ) × Session).
          a ≡ (ok (resume, lease, generation), s') → GivenOut s generation s')
        (validate_hello config hello) (λ e bad k. failed_call k)
        (λ valid checked k. take_lease-GivenOut _ refl k) h

-- Of two sessions that the gateway starts, with any starts, touches and releases in between, the later one has
-- the greater generation; with the generation of the earlier one no lease is active, and a touch or
-- a release changes nothing. The generations do not reach the end of a uint64 on the way.
pub start_session_again :
    (config : Config) (store store' : Journal.Store) (hello hello' : HelloV1) (now now' t : ℕ)
    (events : List SessionEvent) (s s1 s2 : Session) (resume resume' : ResumeV1)
    (lease lease' other : Bytes) (earlier later : ℕ)
    → start_session config store hello now s ≡ (ok (resume, lease, earlier), s1)
    → earlier + length events + 1 < 2 ^ 64
    → start_session config store' hello' now' (happen_all config events s1)
      ≡ (ok (resume', lease', later), s2)
    → (earlier < later)
      × (session_active t other earlier s2 ≡ false)
      × (touch_session config.session_lease_timeout t other earlier s2 ≡ s2)
      × (release_session other earlier s2 ≡ s2)
unfolding session_active
start_session_again config store store' hello hello' now now' t events s s1 s2 resume resume' lease
      lease' other earlier later first room second =
    let (from, next, active) =
      start_session-GivenOut config store hello now s s1 resume lease earlier first in
    let (from', next', active') =
      start_session-GivenOut config store' hello' now' (happen_all config events s1) s2 resume'
        lease' later second in
    let (least, most) =
      happen_all_bounds config events s1 earlier earlier (omega (arith, next)) (omega (arith, next))
        (omega (arith, room)) in
    let greater : earlier < later = ground (arith, least, most, room, from') in
    let differs : s2.active_generation ≢ earlier =
      λ same. absurd (omega (arith, same, active', greater)) in
    let unequal : (s2.active_generation == earlier) ≡ false = ground (arith, differs) in
    (
      greater,
      ground (arith, unequal),
      touch_session_stale config.session_lease_timeout t other earlier s2 (inr differs),
      release_session_stale config.session_lease_timeout t other earlier s2 (inr differs),
    )
