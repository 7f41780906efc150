-- ===== src/Journal/Laws.antt =====
-- internal/journal/journal.go: the rows that Apply writes and Lookup finds.
use utaki_tick_data_platform.Common.{
  ℕ, ◌≡◌, subst, sym, ap, ◌∙◌, List, [], ◌∷◌, Bool, true, false, not, Result, ok, >>-eq-ok,
  >>=-eq-ok, some, Bytes, ℤ, bytes_eq_refl, bytes_eq→eq, ==→eq, &&_true, All, arith, Bool-cases,
  inl, inr, if_true, if_false,
}
use utaki_tick_data_platform.Protocol.{BatchFrameV1}
use utaki_tick_data_platform.Wal.{WalEntry}
use utaki_tick_data_platform.Journal.{
  Outcome, Batch, Store, JournalError, sqlite_int, is_row, find_row, conflicts, new_row, next_state,
  apply,
}

pub sqlite_int-eq-ok : (v n : ℕ) → sqlite_int v ≡ ok n → v ≡ n
unfolding sqlite_int
sqlite_int-eq-ok v n h = ground (arith, h)

ok_injective : {A : Type 0} {a b : A} → ◌≡◌ {A = Result JournalError A} (ok a) (ok b) → a ≡ b
ok_injective h = cc

is_row_refl : (row : Batch) → is_row row.producer_session_id row.batch_sequence row ≡ true
is_row_refl row = ground (arith, bytes_eq_refl row.producer_session_id)

-- A row that the key of another row finds has that key.
is_row_sym :
    (a b : Batch)
    → is_row a.producer_session_id a.batch_sequence b ≡ true
    → is_row b.producer_session_id b.batch_sequence a ≡ true
is_row_sym a b h =
    let (session, sequence) = &&_true _ _ h in
    let same = bytes_eq→eq b.producer_session_id a.producer_session_id session in
    let number = ==→eq b.batch_sequence a.batch_sequence sequence in
    subst (λ (s : Bytes). is_row s b.batch_sequence a ≡ true) (sym same)
      (subst (λ (n : ℕ). is_row a.producer_session_id n a ≡ true) (sym number) (is_row_refl a))

is_row_other :
    (a b : Batch)
    → is_row a.producer_session_id a.batch_sequence b ≡ false
    → is_row b.producer_session_id b.batch_sequence a ≡ false
is_row_other a b h = elim (Bool-cases (is_row b.producer_session_id b.batch_sequence a)) [
  | inl same ↦ let back = is_row_sym b a same in cc
  | inr other ↦ other
]

-- Every row is the one that its key finds.
abbrev pub IsIndexed : List Batch → Type 0
IsIndexed rows =
    All (λ (row : Batch). find_row row.producer_session_id row.batch_sequence rows ≡ some row) rows

-- A new row hides no row whose key differs.
pub find_row_behind :
    (new : Batch) (session : Bytes) (sequence : ℕ) (rows : List Batch)
    → is_row session sequence new ≡ false
    → find_row session sequence (new ∷ rows) ≡ find_row session sequence rows
unfolding find_row
find_row_behind new session sequence rows h = if_false (is_row session sequence new) (some new) _ h

pub find_row_head :
    (new : Batch) (rows : List Batch)
    → find_row new.producer_session_id new.batch_sequence (new ∷ rows) ≡ some new
unfolding find_row
find_row_head new rows = if_true _ (some new) _ (is_row_refl new)

kept :
    (new : Batch) (ingest : ℕ) (all rows : List Batch)
    → conflicts new.producer_session_id new.batch_sequence ingest rows ≡ false
    → All (λ (row : Batch). find_row row.producer_session_id row.batch_sequence all ≡ some row) rows
    → All
        (λ (row : Batch).
          find_row row.producer_session_id row.batch_sequence (new ∷ all) ≡ some row)
        rows
unfolding conflicts
kept new ingest all [] free indexed = tt
kept new ingest all (row ∷ rows) free (first, indexed) =
    let mine : is_row new.producer_session_id new.batch_sequence row ≡ false =
      ground (arith, free) in
    let rest : conflicts new.producer_session_id new.batch_sequence ingest rows ≡ false =
      ground (arith, free) in
    (
      find_row_behind new row.producer_session_id row.batch_sequence all (is_row_other new row mine)
          ∙ first,
      kept new ingest all rows rest indexed,
    )

-- An Apply that succeeds writes its row in front of the others and the row of the gateway's state,
-- and the key was free.
pub apply-eq-ok :
    (committed : Bool) (now : ℤ) (entry : WalEntry) (batch : BatchFrameV1) (outcome : Outcome)
    (s s' : Store) (row : Batch)
    → apply committed now entry batch outcome s ≡ ok (row, s')
    → (conflicts batch.producer_session_id batch.batch_sequence entry.sequence s.batches ≡ false)
      × (row ≡ new_row entry batch outcome)
      × (s' ≡ record s {
        state = next_state entry outcome now s.state;
        batches = new_row entry batch outcome ∷ s.batches;
      })
unfolding apply
apply-eq-ok committed now entry batch outcome s s' row h =
    let (sequence, fits, h1) = >>=-eq-ok (sqlite_int batch.batch_sequence) _ h in
    let (ingest, fits_ingest, h2) = >>=-eq-ok (sqlite_int entry.sequence) _ h1 in
    let (free, h3) =
      >>-eq-ok (not (conflicts batch.producer_session_id sequence ingest s.batches)) _ _ h2 in
    let (done, h4) = >>-eq-ok committed _ _ h3 in
    let no_conflict : conflicts batch.producer_session_id sequence ingest s.batches ≡ false =
      ground (arith, free) in
    let number = sqlite_int-eq-ok batch.batch_sequence sequence fits in
    let ingest_number = sqlite_int-eq-ok entry.sequence ingest fits_ingest in
    let written : (
      new_row entry batch outcome,
      record s {
        state = next_state entry outcome now s.state;
        batches = new_row entry batch outcome ∷ s.batches;
      },
    )
        ≡ (row, s') =
      ok_injective h4 in
    (
      ap (λ (n : ℕ). conflicts batch.producer_session_id n entry.sequence s.batches) number
          ∙ ap (λ (n : ℕ). conflicts batch.producer_session_id sequence n s.batches) ingest_number
          ∙ no_conflict,
      sym (ap (λ (p : Batch × Store). p.0) written),
      sym (ap (λ (p : Batch × Store). p.1) written),
    )

-- On a journal each of whose rows is found by its own key: after an Apply that succeeds every row still
-- is, the stored row is found under the session and number of the batch, and any other key finds
-- what it found before.
pub apply-find_row :
    (committed : Bool) (now : ℤ) (entry : WalEntry) (batch : BatchFrameV1) (outcome : Outcome)
    (s s' : Store) (row : Batch) (session : Bytes) (sequence : ℕ)
    → apply committed now entry batch outcome s ≡ ok (row, s')
    → IsIndexed s.batches
    → is_row session sequence row ≡ false
    → IsIndexed s'.batches
      × (find_row batch.producer_session_id batch.batch_sequence s'.batches ≡ some row)
      × (find_row session sequence s'.batches ≡ find_row session sequence s.batches)
unfolding new_row
apply-find_row committed now entry batch outcome s s' row session sequence h indexed other =
    let (free, is_new, tables) = apply-eq-ok committed now entry batch outcome s s' row h in
    let new = new_row entry batch outcome in
    let rows : s'.batches ≡ new ∷ s.batches = ap (λ (t : Store). t.batches) tables in
    (
      subst IsIndexed (sym rows)
          (find_row_head new s.batches, kept new entry.sequence s.batches s.batches free indexed),
      ap (find_row batch.producer_session_id batch.batch_sequence) rows
          ∙ find_row_head new s.batches
          ∙ ap (λ (r : Batch). some r) (sym is_new),
      ap (find_row session sequence) rows
          ∙ find_row_behind new session sequence s.batches
              (ap (is_row session sequence) (sym is_new) ∙ other),
    )
