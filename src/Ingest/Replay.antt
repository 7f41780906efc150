-- ===== src/Ingest/Replay.antt =====
-- internal/ingest/gateway.go: the journal's state against the log, read from its start.
use utaki_tick_data_platform.Common.{
  ℕ, ◌≡◌, refl, sym, ap, ◌∙◌, subst, List, [], ◌∷◌, ◌++◌, true, Result, ok, err, ◌>>=◌, >>=-eq-ok,
  >>-eq-ok, >>=_of_ok, Option, none, some, ℤ, pos, negsuc, bytes_eq, bytes_eq→eq, ==→eq, ◌==ℤ◌,
  if_true, if_false, Bool-cases, inl, inr, arith,
}
use utaki_tick_data_platform.Protocol.{BatchFrameV1, RawMqlTickV1}
use utaki_tick_data_platform.Wal.{WalEntry}
use utaki_tick_data_platform.Journal.{
  State, Outcome, Batch, JournalError, zero_digest, read_state, lookup, count, apply, reset,
  next_state, initial_state,
}
use utaki_tick_data_platform.Journal
use utaki_tick_data_platform.Ingest.Config.{Config, with_defaults}
use utaki_tick_data_platform.Ingest.Cursor.{
  unchanged, advanced, dense, at_boundary, outcome_at, outcome_of, outcome_for_batch,
}
use utaki_tick_data_platform.Ingest.Session.{GatewayError}
use utaki_tick_data_platform.Ingest.Reconcile.{
  decode_wal_entry, journal_state_matches, expected_at_start, expected_after, row_matches,
  match_entries, state_agrees, journal_matches_wal,
}

-- A state of the journal without the time of its last update.
abbrev pub timeless : State → State
timeless s = record s { updated_wall_s = pos 0 }

-- The state that a log leads to: the outcome of each batch, in the order of the log.
unfoldable pub replay : Config → List WalEntry → State → Result GatewayError State
replay config [] state = ok state
replay config (entry ∷ entries) state = do
  batch ← decode_wal_entry entry
  replay config entries (expected_after entry (outcome_for_batch state batch config) state)

pub replay-snoc :
    (config : Config) (es : List WalEntry) (e : WalEntry) (batch : BatchFrameV1) (s t : State)
    → replay config es s ≡ ok t
    → decode_wal_entry e ≡ ok batch
    → replay config (es ++ (e ∷ [])) s ≡ ok (expected_after e (outcome_for_batch t batch config) t)
unfolding replay
replay-snoc config [] e batch s t h decoded =
    >>=_of_ok _ decoded
    ∙ ap (λ (u : State). ok (expected_after e (outcome_for_batch u batch config) u)) (cc)
replay-snoc config (x ∷ es) e batch s t h decoded =
    let (b, first, rest) = >>=-eq-ok (decode_wal_entry x) _ h in
    >>=_of_ok _ first ∙ replay-snoc config es e batch _ t rest decoded

-- The outcome of a batch does not depend on the time of the last update.
outcome_of-timeless :
    (rs : List RawMqlTickV1) (s : State) (batch : BatchFrameV1) (config : Config)
    → outcome_of rs (timeless s) batch config ≡ outcome_of rs s batch config
unfolding outcome_of outcome_at unchanged advanced dense at_boundary
outcome_of-timeless [] s batch config = refl
outcome_of-timeless (r ∷ rs) s batch config = refl

pub outcome_for_batch-timeless :
    (s : State) (batch : BatchFrameV1) (config : Config)
    → outcome_for_batch (timeless s) batch config ≡ outcome_for_batch s batch config
unfolding outcome_for_batch
outcome_for_batch-timeless s batch config =
    outcome_of-timeless batch.records s batch (with_defaults config)

pub timeless-next_state :
    (entry : WalEntry) (outcome : Outcome) (now : ℤ) (s : State)
    → timeless (next_state entry outcome now s) ≡ expected_after entry outcome (timeless s)
unfolding next_state expected_after
timeless-next_state entry outcome now s = refl

==ℤ→eq : (a b : ℤ) → (a ==ℤ b) ≡ true → a ≡ b
unfolding ◌==ℤ◌
==ℤ→eq (pos a) (pos b) h = ap (λ (n : ℕ). pos n) (==→eq a b h)
==ℤ→eq (pos a) (negsuc b) h = cc
==ℤ→eq (negsuc a) (pos b) h = cc
==ℤ→eq (negsuc a) (negsuc b) h = ap (λ (n : ℕ). negsuc n) (==→eq a b h)

journal_state_matches-eq :
    (actual expected : State)
    → journal_state_matches actual expected ≡ true
    → timeless actual ≡ timeless expected
unfolding journal_state_matches
journal_state_matches-eq actual expected h =
    let gateway : bytes_eq actual.gateway_instance_id expected.gateway_instance_id ≡ true =
      ground (arith, h) in
    let cursor : (actual.committed_cursor_msc ==ℤ expected.committed_cursor_msc) ≡ true =
      ground (arith, h) in
    let digest : bytes_eq actual.committed_boundary_digest expected.committed_boundary_digest
        ≡ true =
      ground (arith, h) in
    let next : (actual.next_from_msc ==ℤ expected.next_from_msc) ≡ true = ground (arith, h) in
    let requested : actual.next_requested_count ≡ expected.next_requested_count =
      ground (arith, h) in
    let sequence : actual.last_ingest_sequence ≡ expected.last_ingest_sequence =
      ground (arith, h) in
    let hash : bytes_eq actual.last_entry_hash expected.last_entry_hash ≡ true =
      ground (arith, h) in
    λ i. record {
      gateway_instance_id = bytes_eq→eq _ _ gateway i;
      committed_cursor_msc = ==ℤ→eq _ _ cursor i;
      committed_boundary_digest = bytes_eq→eq _ _ digest i;
      next_from_msc = ==ℤ→eq _ _ next i;
      next_requested_count = requested i;
      last_ingest_sequence = sequence i;
      last_entry_hash = bytes_eq→eq _ _ hash i;
      updated_wall_s = pos 0;
    }

-- Matching rows lead to the replayed state.
match_entries-replay :
    (config : Config) (store : Journal.Store) (es : List WalEntry) (s t : State)
    → match_entries config store es s ≡ ok (some t)
    → replay config es s ≡ ok t
unfolding match_entries replay
match_entries-replay config store [] s t h = cc
match_entries-replay config store (e ∷ es) s t h =
    let (batch, decoded, rest) = >>=-eq-ok (decode_wal_entry e) _ h in
    let outcome = outcome_for_batch s batch config in
    let test =
      row_matches (lookup batch.producer_session_id batch.batch_sequence store) e batch outcome in
    >>=_of_ok _ decoded
    ∙ match_entries-replay config store es (expected_after e outcome s) t (elim (Bool-cases test) [
      | inl matching ↦ sym (if_true test _ (ok none) matching) ∙ rest
      | inr other ↦
          let k =
            sym (
              if_false test (match_entries config store es (expected_after e outcome s)) (ok none)
                other)
            ∙ rest in
          cc
    ])

timeless-expected :
    (config : Config) → timeless (expected_at_start config) ≡ expected_at_start config
unfolding expected_at_start
timeless-expected config = refl

-- The replayed state bears no time where the first one does not.
replay-timeless :
    (config : Config) (es : List WalEntry) (s t : State)
    → replay config es s ≡ ok t
    → timeless s ≡ s
    → timeless t ≡ t
unfolding replay expected_after
replay-timeless config [] s t h timed =
    let same : s ≡ t = cc in subst (λ (u : State). timeless u ≡ u) same timed
replay-timeless config (e ∷ es) s t h timed =
    let (batch, decoded, rest) = >>=-eq-ok (decode_wal_entry e) _ h in
    let next = expected_after e (outcome_for_batch s batch config) s in
    replay-timeless config es next t rest
      (ap (λ (u : State). expected_after e (outcome_for_batch s batch config) u) timed)

-- The journal's state is the one that the entries lead to.
abbrev pub Replays : Config → List WalEntry → Journal.Store → Type 0
Replays config es store = replay config es (expected_at_start config) ≡ ok (timeless store.state)

pub read_state-eq-ok :
    (store : Journal.Store) (s : State) → read_state store ≡ ok s → s ≡ store.state
unfolding read_state
read_state-eq-ok store s h = let (fine, same) = >>-eq-ok _ _ _ h in cc

state_agrees-cases :
    (r : Result JournalError State) (o : Option State)
    → state_agrees r o ≡ true
    → (actual : State) × (expected : State) × (r ≡ ok actual)
      × (o ≡ some expected)
      × (journal_state_matches actual expected ≡ true)
state_agrees-cases (ok actual) (some expected) h = (actual, expected, refl, refl, h)
state_agrees-cases (ok actual) none h = cc
state_agrees-cases (err e) o h = cc

pub journal_matches_wal-Replays :
    (config : Config) (store : Journal.Store) (es : List WalEntry)
    → journal_matches_wal config store es ≡ ok true
    → Replays config es store
unfolding journal_matches_wal
journal_matches_wal-Replays config store es h =
    let (found, matched, agreed) =
      >>=-eq-ok (match_entries config store es (expected_at_start config)) _ h in
    let (actual, expected, read, is_some, same) =
      state_agrees-cases (read_state store) found (cc) in
    let replayed =
      match_entries-replay config store es (expected_at_start config) expected
        (matched ∙ ap ok is_some) in
    replayed
    ∙ ap ok (
        sym (replay-timeless config es _ expected replayed (timeless-expected config))
        ∙ sym (journal_state_matches-eq actual expected same)
        ∙ ap timeless (read_state-eq-ok store actual read))
