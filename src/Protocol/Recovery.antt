-- ===== src/Protocol/Recovery.antt =====
-- From readers of the codec to writers of the same bytes, with one rule for each way to build a
-- reader. `Q` collects what the reader has checked of the value.
use utaki_tick_data_platform.Common.{
  ℕ, ◌+◌, ◌-◌, ◌<◌, ◌≤◌, ◌^◌, ◌≡◌, refl, sym, ap, ◌∙◌, subst, Bool, true, ok, err, [], ◌∷◌, ◌++◌,
  append_assoc, append-nil, Bytes, IsByte, All, All-append_right, All-take, arith, ℤ, IsI64, IsI32,
  le_bytes, le_value, le_bytes-le_value, le_value-lt, length, length-take, leb, leb→le,
  take-append-drop, u64_of_i64, i64_of_u64, u32_of_i32, i32_of_u32, u64_of_i64-i64_of_u64,
  u32_of_i32-i32_of_u32, IsI64-i64_of_u64, IsI32-i32_of_u32,
}
use utaki_tick_data_platform.Common
use utaki_tick_data_platform.Golib.Utf8
use utaki_tick_data_platform.Protocol.{ErrorCode, max_string_bytes}
use utaki_tick_data_platform.Protocol.Buffer.{
  Buffer, guard, pure, ◌>>=◌, ◌>>◌, >>=_ok, >>=-eq-ok, guard-eq-ok, guard_holds,
}
use utaki_tick_data_platform.Protocol.Writer
use utaki_tick_data_platform.Protocol.Reader

abbrev Writing : Type 0
Writing = Buffer (Unit {0})

-- `w` appends exactly `out`.
abbrev pub Writes : Writing → Bytes → Type 0
Writes w out = (buffer : Bytes) → w buffer ≡ ok (tt, buffer ++ out)

pub record Recovers {A : Type 0} (r : Buffer A) (w : A → Writing) (Q : A → Type 0) : Type 0 where
  pub run :
      (bs : Bytes) (v : A) (rest : Bytes)
      → All IsByte bs
      → r bs ≡ ok (v, rest)
      → Q v × ((out : Bytes) × (bs ≡ out ++ rest) × Writes (w v) out)

module _ {A B : Type 0} where
  -- One field, whose value the record shows as `g`.
  pub field :
      {r : Buffer A} {w : A → Writing} {P : A → Type 0} (f : A → Buffer B) (w' : B → Writing)
      (Q : B → Type 0) (g : B → A)
      → Recovers r w P
      → ((a : A) → P a → Recovers (f a) w' (λ v. (g v ≡ a) × Q v))
      → Recovers (r >>= f) (λ v. w (g v) >> w' v) Q
  field {r} {w} {P} f w' Q g first rest = record {
    run = λ bs v left bytes h.
        let (a, mid, read, read') = >>=-eq-ok r f bs left v h in
        let (p, (out, e, writes)) = first.run bs a mid bytes read in
        let (q, (out', e', writes')) =
          (rest a p).run mid v left (All-append_right IsByte out mid (subst (All IsByte) e bytes))
            read' in
        (
          q.1,
          (
            out ++ out',
            e ∙ ap (λ (x : Bytes). out ++ x) e' ∙ sym (append_assoc out out' left),
            λ buffer.
                >>=_ok (w (g v)) (λ _. w' v) buffer (buffer ++ out) tt
                  (ap (λ (x : A). w x buffer) q.0 ∙ writes buffer)
                ∙ writes' (buffer ++ out)
                ∙ ap (λ (x : Bytes). ok (tt, x)) (append_assoc buffer out out'),
          ),
        );
  }

  -- The last field, and what the reader does behind it without reading.
  pub finish :
      {r : Buffer A} {w : A → Writing} {P : A → Type 0} (f : A → Buffer B) (Q : B → Type 0)
      (g : B → A)
      → Recovers r w P
      → ((a : A) (s : Bytes) (v : B) (t : Bytes)
          → P a
          → f a s ≡ ok (v, t)
          → (g v ≡ a) × Q v × (s ≡ t))
      → Recovers (r >>= f) (λ v. w (g v)) Q
  finish {r} {w} {P} f Q g first ends = record {
    run = λ bs v left bytes h.
        let (a, mid, read, read') = >>=-eq-ok r f bs left v h in
        let (p, (out, e, writes)) = first.run bs a mid bytes read in
        let (shown, q, same) = ends a mid v left p read' in
        (
          q,
          (
            out,
            e ∙ ap (λ (x : Bytes). out ++ x) same,
            λ buffer. ap (λ (x : A). w x buffer) shown ∙ writes buffer,
          ),
        );
  }

module _ {B : Type 0} where
  pub read_guard :
      (c : Bool) (e : ErrorCode) {r : Buffer B} {w : B → Writing} {Q : B → Type 0}
      → (c ≡ true → Recovers r w Q)
      → Recovers (guard c e >> r) w Q
  read_guard c e {r} t = record {
    run = λ bs v rest bytes h.
        let (holds, read) = guard-eq-ok c e r bs rest v h in (t holds).run bs v rest bytes read;
  }

  pub written_guard :
      (c : B → Bool) (e : ErrorCode) {r : Buffer B} {w : B → Writing} {Q : B → Type 0}
      → ((v : B) → Q v → c v ≡ true)
      → Recovers r w Q
      → Recovers r (λ v. guard (c v) e >> w v) Q
  written_guard c e {w = w} holds t = record {
    run = λ bs v rest bytes h.
        let (q, (out, s, writes)) = t.run bs v rest bytes h in
        (q, (out, s, λ buffer. guard_holds (c v) e (w v) buffer (holds v q) ∙ writes buffer));
  }

pub pure-eq-ok :
    {A : Type 0} (a : A) (s : Bytes) (v : A) (t : Bytes) → pure a s ≡ ok (v, t) → (v ≡ a) × (s ≡ t)
unfolding pure
pure-eq-ok a s v t h = (cc h, cc h)

one_byte :
    (b : Bytes) (v : ℕ)
    → length b ≡ 1
    → All IsByte b
    → v ≡ Reader.first b
    → (v < 2 ^ 8) × (v ∷ [] ≡ b)
one_byte [] v len all e = absurd (omega arith)
one_byte (x ∷ []) v len all e = (omega arith, cc e)
one_byte (x ∷ y ∷ b) v len all e = absurd (omega arith)

take-eq-ok :
    (n : ℕ) (bs v rest : Bytes)
    → Reader.take n bs ≡ ok (v, rest)
    → (length v ≡ n) × (v ≡ Common.take n bs) × (bs ≡ v ++ rest)
unfolding Reader.take
take-eq-ok n bs v rest h = ground (arith, length-take n bs, take-append-drop n bs)

write_lem : (bs : Bytes) → Writes (Writer.write bs) bs
unfolding Writer.write
write_lem bs buffer = refl

-- A field of n bytes, as it stands.
Recovers-take : (n : ℕ) → Recovers (Reader.take n) Writer.write (λ v. (length v ≡ n) × All IsByte v)
Recovers-take n = record {
  run = λ bs v rest bytes h.
      let (len, e, s) = take-eq-ok n bs v rest h in
      ((len, rw e (All-take IsByte n bs bytes)), (v, s, write_lem v));
}

-- A little-endian word of n bytes.
Recovers-word :
    (n : ℕ)
    → Recovers
        (Reader.take n >>= λ b. pure (le_value b))
        (λ v. Writer.write (le_bytes n v))
        (λ v. v < 256 ^ n)
Recovers-word n = record {
  run = λ bs v rest bytes h.
      let (b, mid, read, made) = >>=-eq-ok (Reader.take n) (λ b. pure (le_value b)) bs rest v h in
      let ((len, all), (out, s, writes)) = (Recovers-take n).run bs b mid bytes read in
      let (value, left) = pure-eq-ok (le_value b) mid v rest made in
      let back : le_bytes n v ≡ b = ap (le_bytes n) value ∙ le_bytes-le_value n b len all in
      (
        rw value (le_value-lt n b len all),
        (
          out,
          s ∙ ap (λ (x : Bytes). out ++ x) left,
          λ buffer. ap (λ (x : Bytes). Writer.write x buffer) back ∙ writes buffer,
        ),
      );
}

pub Recovers-u16 : Recovers Reader.u16 Writer.u16 (λ v. v < 2 ^ 16)
unfolding Reader.u16 Writer.u16
Recovers-u16 = Recovers-word 2

pub Recovers-u32 : Recovers Reader.u32 Writer.u32 (λ v. v < 2 ^ 32)
unfolding Reader.u32 Writer.u32
Recovers-u32 = Recovers-word 4

pub Recovers-u64 : Recovers Reader.u64 Writer.u64 (λ v. v < 2 ^ 64)
unfolding Reader.u64 Writer.u64
Recovers-u64 = Recovers-word 8

pub Recovers-hash : Recovers Reader.hash Writer.hash (λ v. (length v ≡ 32) × All IsByte v)
unfolding Reader.hash Writer.hash
Recovers-hash = Recovers-take 32

pub Recovers-u8 : Recovers Reader.u8 Writer.u8 (λ v. v < 2 ^ 8)
unfolding Reader.u8 Writer.u8
Recovers-u8 = record {
  run = λ bs v rest bytes h.
      let (b, mid, read, made) = >>=-eq-ok (Reader.take 1) _ bs rest v h in
      let ((len, all), (out, s, writes)) = (Recovers-take 1).run bs b mid bytes read in
      let (value, left) = pure-eq-ok _ mid v rest made in
      let (small, back) = one_byte b v len all value in
      (
        small,
        (
          out,
          s ∙ ap (λ (x : Bytes). out ++ x) left,
          λ buffer. ap (λ (x : Bytes). Writer.write x buffer) back ∙ writes buffer,
        ),
      );
}

pub Recovers-i64 : Recovers Reader.i64 Writer.i64 IsI64
unfolding Reader.i64 Writer.i64
Recovers-i64 = finish _ IsI64 u64_of_i64 Recovers-u64 λ a s v t fits made.
    let (value, left) = pure-eq-ok (i64_of_u64 a) s v t made in
    (
      ap u64_of_i64 value ∙ u64_of_i64-i64_of_u64 a fits,
      subst IsI64 (sym value) (IsI64-i64_of_u64 a fits),
      left,
    )

pub Recovers-i32 : Recovers Reader.i32 Writer.i32 IsI32
unfolding Reader.i32 Writer.i32
Recovers-i32 = finish _ IsI32 u32_of_i32 Recovers-u32 λ a s v t fits made.
    let (value, left) = pure-eq-ok (i32_of_u32 a) s v t made in
    (
      ap u32_of_i32 value ∙ u32_of_i32-i32_of_u32 a fits,
      subst IsI32 (sym value) (IsI32-i32_of_u32 a fits),
      left,
    )

-- What the reader of a string has checked.
abbrev pub IsText : Bytes → Type 0
IsText v = (Utf8.valid v ≡ true) × (leb (length v) max_string_bytes ≡ true) × All IsByte v

pub Recovers-string : Recovers Reader.string Writer.string IsText
unfolding Reader.string Writer.string
Recovers-string =
    written_guard Utf8.valid _ (λ v q. q.0)
      (written_guard (λ v. leb (length v) max_string_bytes) _ (λ v q. q.1)
        (field _ _ _ length Recovers-u16 λ size small. read_guard _ _ λ fits.
          finish _ _ (λ v. v) (Recovers-take size)
            λ b s v t p checked.
              let (utf8, made) = guard-eq-ok (Utf8.valid b) _ (pure b) s t v checked in
              let (value, left) = pure-eq-ok b s v t made in
              (value, rw value (p.0, (utf8, rw (p.0) fits, p.1)), left)))
