-- ===== src/Protocol/Transfer.antt =====
-- From writers of the codec to the readers at the same place of the decoder, with one rule for each
-- way to build a reader.
use utaki_tick_data_platform.Common.{
  ℕ, ◌+◌, ◌-◌, ◌<◌, ◌≤◌, ◌^◌, ◌≡◌, refl, sym, ap, ◌∙◌, subst, true, Bool, ok, err, [], ◌∷◌, ◌++◌,
  append_assoc, Bytes, arith, ℤ, IsI64, IsI32, le_bytes, le_value, le_value-le_bytes,
  length-le_bytes, length, leb, leb→le, length-append, take-append_length, drop-append,
  i64_of_u64-u64_of_i64, u64_of_i64-lt, i32_of_u32-u32_of_i32, u32_of_i32-lt, u64_of_i64,
  u32_of_i32,
}
use utaki_tick_data_platform.Common
use utaki_tick_data_platform.Protocol.{ErrorCode, max_string_bytes}
use utaki_tick_data_platform.Protocol.Buffer.{
  Buffer, guard, pure, ◌>>=◌, ◌>>◌, >>=_ok, >>=-eq-ok, guard-eq-ok, guard_holds, pure_lem,
}
use utaki_tick_data_platform.Protocol.Writer
use utaki_tick_data_platform.Protocol.Reader
use utaki_tick_data_platform.Golib.Utf8

-- If `w` writes, then `r` reads from what was written the value v and leaves whatever follows.
pub record Transfers {A : Type 0} (w : Buffer (Unit {0})) (r : Buffer A) (v : A) : Type 0 where
  pub run :
      (buffer out : Bytes)
      → w buffer ≡ ok (tt, out)
      → (bs : Bytes) × (out ≡ buffer ++ bs) × ((rest : Bytes) → r (bs ++ rest) ≡ ok (v, rest))

-- A chain of rules without parentheses.
infixr 3 ◌$◌
abbrev pub ◌$◌ : {P Q : Type 0} → (P → Q) → P → Q
f $ x = f x

module _ {A B : Type 0} where
  pub field :
      {w w' : Buffer (Unit {0})} {r : Buffer A} (f : A → Buffer B) {a : A} {b : B}
      → Transfers w r a
      → Transfers w' (f a) b
      → Transfers (w >> w') (r >>= f) b
  field {w} {w'} {r} f {a} {b} t u = record {
    run = λ buffer out h.
        let (done, mid, wrote, wrote') = >>=-eq-ok w (λ _. w') buffer out tt h in
        let (bs, e, reads) = t.run buffer mid wrote in
        let (cs, e', reads') = u.run mid out wrote' in
        (
          bs ++ cs,
          e' ∙ ap (λ (p : Bytes). p ++ cs) e ∙ append_assoc buffer bs cs,
          λ rest.
              ap (r >>= f) (append_assoc bs cs rest)
              ∙ >>=_ok r f (bs ++ (cs ++ rest)) (cs ++ rest) a (reads (cs ++ rest))
              ∙ reads' rest,
        );
  }

  -- The last field, and what the reader does behind it without reading.
  pub finish :
      {w : Buffer (Unit {0})} {r : Buffer A} (f : A → Buffer B) {a : A} {b : B}
      → Transfers w r a
      → ((rest : Bytes) → f a rest ≡ ok (b, rest))
      → Transfers w (r >>= f) b
  finish {w} {r} f {a} {b} t ends = record {
    run = λ buffer out h.
        let (bs, e, reads) = t.run buffer out h in
        (bs, e, λ rest. >>=_ok r f (bs ++ rest) rest a (reads rest) ∙ ends rest);
  }

  pub last :
      {w : Buffer (Unit {0})} {r : Buffer A} (g : A → B) {a : A}
      → Transfers w r a
      → Transfers w (r >>= λ x. pure (g x)) (g a)
  last g {a} t = finish (λ x. pure (g x)) t (pure_lem (g a))

module _ {B : Type 0} where
  -- What the writer tests, the rest of the proof may use.
  pub written_guard :
      (c : Bool) (e : ErrorCode) {w : Buffer (Unit {0})} {r : Buffer B} {b : B}
      → (c ≡ true → Transfers w r b)
      → Transfers (guard c e >> w) r b
  written_guard c e {w} t = record {
    run = λ buffer out h.
        let (holds, wrote) = guard-eq-ok c e w buffer out tt h in (t holds).run buffer out wrote;
  }

  pub read_guard :
      {c : Bool} (e : ErrorCode) {w : Buffer (Unit {0})} {r : Buffer B} {b : B}
      → c ≡ true
      → Transfers w r b
      → Transfers w (guard c e >> r) b
  read_guard {c} e {w} {r} {b} holds t = record {
    run = λ buffer out h.
        let (bs, s, reads) = t.run buffer out h in
        (bs, s, λ rest. guard_holds c e r (bs ++ rest) holds ∙ reads rest);
  }

  pub Transfers-pure : (b : B) → Transfers (pure tt) (pure b) b
  unfolding pure
  Transfers-pure b = record {
    run = λ buffer out h. ([], cc (Common.append-nil buffer, h), λ rest. refl);
  }

Transfers-write :
    {A : Type 0} (bs : Bytes) (r : Buffer A) (v : A)
    → ((rest : Bytes) → r (bs ++ rest) ≡ ok (v, rest))
    → Transfers (Writer.write bs) r v
unfolding Writer.write
Transfers-write bs r v reads = record { run = λ buffer out h. (bs, cc h, reads) }

take-append : (n : ℕ) (bs rest : Bytes) → length bs ≡ n → Reader.take n (bs ++ rest) ≡ ok (bs, rest)
unfolding Reader.take
take-append n bs rest h =
    ground (arith, length-append bs rest, take-append_length n bs rest h, drop-append n bs rest h)

-- A little-endian word of n bytes.
word :
    (n v : ℕ) (rest : Bytes)
    → v < 256 ^ n
    → (Reader.take n >>= λ b. pure (le_value b)) (le_bytes n v ++ rest) ≡ ok (v, rest)
unfolding pure
word n v rest h =
    >>=_ok (Reader.take n) (λ b. pure (le_value b)) (le_bytes n v ++ rest) rest (le_bytes n v)
      (take-append n (le_bytes n v) rest (length-le_bytes n v))
    ∙ ap (λ (x : ℕ). ok (x, rest)) (le_value-le_bytes n v h)

pub Transfers-u8 : (v : ℕ) → Transfers (Writer.u8 v) Reader.u8 v
unfolding Writer.u8 Reader.u8 Reader.take ◌>>=◌ pure
Transfers-u8 v = Transfers-write (v ∷ []) Reader.u8 v λ rest. ground arith

pub Transfers-u16 : (v : ℕ) → v < 2 ^ 16 → Transfers (Writer.u16 v) Reader.u16 v
unfolding Writer.u16 Reader.u16
Transfers-u16 v h = Transfers-write (le_bytes 2 v) Reader.u16 v λ rest. word 2 v rest h

pub Transfers-u32 : (v : ℕ) → v < 2 ^ 32 → Transfers (Writer.u32 v) Reader.u32 v
unfolding Writer.u32 Reader.u32
Transfers-u32 v h = Transfers-write (le_bytes 4 v) Reader.u32 v λ rest. word 4 v rest h

pub Transfers-u64 : (v : ℕ) → v < 2 ^ 64 → Transfers (Writer.u64 v) Reader.u64 v
unfolding Writer.u64 Reader.u64
Transfers-u64 v h = Transfers-write (le_bytes 8 v) Reader.u64 v λ rest. word 8 v rest h

pub Transfers-i32 : (v : ℤ) → IsI32 v → Transfers (Writer.i32 v) Reader.i32 v
unfolding Writer.i32 Reader.i32
Transfers-i32 v h =
    subst (Transfers (Writer.u32 (u32_of_i32 v)) Reader.i32) (i32_of_u32-u32_of_i32 v h)
      (last _ (Transfers-u32 (u32_of_i32 v) (u32_of_i32-lt v h)))

pub Transfers-i64 : (v : ℤ) → IsI64 v → Transfers (Writer.i64 v) Reader.i64 v
unfolding Writer.i64 Reader.i64
Transfers-i64 v h =
    subst (Transfers (Writer.u64 (u64_of_i64 v)) Reader.i64) (i64_of_u64-u64_of_i64 v h)
      (last _ (Transfers-u64 (u64_of_i64 v) (u64_of_i64-lt v h)))

pub Transfers-hash : (v : Bytes) → length v ≡ 32 → Transfers (Writer.hash v) Reader.hash v
unfolding Writer.hash Reader.hash
Transfers-hash v h = Transfers-write v Reader.hash v λ rest. take-append 32 v rest h

Transfers-text : (v : Bytes) → Transfers (Writer.write v) (Reader.take (length v)) v
Transfers-text v =
    Transfers-write v (Reader.take (length v)) v λ rest. take-append (length v) v rest refl

pub Transfers-string : (v : Bytes) → Transfers (Writer.string v) Reader.string v
unfolding Writer.string Reader.string
Transfers-string v = written_guard (Utf8.valid v) _ λ is_utf8.
    written_guard (leb (length v) max_string_bytes) _ λ fits.
      field _ (Transfers-u16 (length v) (omega (arith, leb→le (length v) 255 fits)))
      $ read_guard _ fits
      $ finish _ (Transfers-text v)
          λ rest. guard_holds (Utf8.valid v) _ (pure v) rest is_utf8 ∙ pure_lem v rest
