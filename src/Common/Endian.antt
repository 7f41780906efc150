-- ===== src/Common/Endian.antt =====
-- Bytes as numbers below 256, and the little-endian words of encoding/binary.
use Prim.Native.Char.{code}
use Prim.Native.Nat.{ℕ, zero, suc, ◌+◌, ◌-◌, ◌*◌, ◌/◌, ◌%◌, ◌^◌, ◌≤◌, ◌<◌}
use Prim.Native.String.{String}
use mathlib.Core.Path.{◌≡◌, refl, ap, ◌∙◌}
use mathlib.Core.Bool.{Bool, true, false, ◌&&◌}
use mathlib.Core.List.{List, [], ◌∷◌}
use native.Mathlib.Nat.{pow-suc}
use native.Mathlib.Omega.{arith}
use utaki_tick_data_platform.Common.Tests.{◌==◌}
use utaki_tick_data_platform.Common.Lists.{
  length, All, slice, drop, length-slice, All-take, All-drop,
}

abbrev pub Bytes : Type 0
Bytes = List ℕ

abbrev pub IsByte : ℕ → Type 0
IsByte b = b < 256

-- The bytes of an ASCII literal.
unfoldable pub ascii : String → Bytes
ascii String.[] = []
ascii (String.◌∷◌ c s) = code c ∷ ascii s

-- PutUint16, PutUint32, PutUint64: the n low bytes of v, lowest first.
unfoldable pub le_bytes : ℕ → ℕ → Bytes
le_bytes zero v = []
le_bytes (suc n) v = (v % 256) ∷ le_bytes n (v / 256)

-- Uint16, Uint32, Uint64
unfoldable pub le_value : Bytes → ℕ
le_value [] = 0
le_value (b ∷ bs) = b + 256 * le_value bs

-- bytes.Equal, and == on arrays and strings
unfoldable pub bytes_eq : Bytes → Bytes → Bool
bytes_eq [] [] = true
bytes_eq [] (b ∷ bs) = false
bytes_eq (a ∷ as') [] = false
bytes_eq (a ∷ as') (b ∷ bs) = a == b && bytes_eq as' bs

pub bytes_eq_refl : (a : Bytes) → bytes_eq a a ≡ true
unfolding bytes_eq
bytes_eq_refl [] = refl
bytes_eq_refl (x ∷ xs) = ground (arith, bytes_eq_refl xs)

pub bytes_eq→eq : (a b : Bytes) → bytes_eq a b ≡ true → a ≡ b
unfolding bytes_eq
bytes_eq→eq [] [] h = refl
bytes_eq→eq [] (y ∷ ys) h = cc
bytes_eq→eq (x ∷ xs) [] h = cc
bytes_eq→eq (x ∷ xs) (y ∷ ys) h = ground (arith, bytes_eq→eq xs ys)

pub length-le_bytes : (n v : ℕ) → length (le_bytes n v) ≡ n
unfolding le_bytes
length-le_bytes zero v = refl
length-le_bytes (suc n) v = ap suc (length-le_bytes n (v / 256))

pub All-le_bytes : (n v : ℕ) → All IsByte (le_bytes n v)
unfolding le_bytes
All-le_bytes zero v = tt
All-le_bytes (suc n) v = (omega arith, All-le_bytes n (v / 256))

pub le_value-le_bytes : (n v : ℕ) → v < 256 ^ n → le_value (le_bytes n v) ≡ v
unfolding le_value le_bytes
le_value-le_bytes zero v h = omega arith
le_value-le_bytes (suc n) v h =
    omega (arith, le_value-le_bytes n (v / 256) (omega (arith, pow-suc 256 n)))

pub le_bytes-le_value :
    (n : ℕ) (bs : Bytes) → length bs ≡ n → All IsByte bs → le_bytes n (le_value bs) ≡ bs
unfolding le_value le_bytes
le_bytes-le_value zero [] h hb = refl
le_bytes-le_value zero (b ∷ bs) h hb = absurd (omega arith)
le_bytes-le_value (suc n) [] h hb = absurd (omega arith)
le_bytes-le_value (suc n) (b ∷ bs) h hb = ground (arith, le_bytes-le_value n bs (omega arith) hb.1)

pub le_value-lt : (n : ℕ) (bs : Bytes) → length bs ≡ n → All IsByte bs → le_value bs < 256 ^ n
unfolding le_value
le_value-lt zero [] h hb = omega arith
le_value-lt zero (b ∷ bs) h hb = absurd (omega arith)
le_value-lt (suc n) [] h hb = absurd (omega arith)
le_value-lt (suc n) (b ∷ bs) h hb =
    omega (arith, le_value-lt n bs (omega arith) hb.1, pow-suc 256 n)

pub eq→bytes_eq : (a b : Bytes) → a ≡ b → bytes_eq a b ≡ true
eq→bytes_eq a b h = rw h (bytes_eq_refl b)

-- A word that has been read from the bytes is written back as those bytes.
pub word_at :
    (a n : ℕ) (bs : Bytes)
    → a + n ≤ length bs
    → All IsByte bs
    → le_bytes n (le_value (slice a (a + n) bs)) ≡ slice a (a + n) bs
word_at a n bs h hb =
    le_bytes-le_value n (slice a (a + n) bs) (length-slice a (a + n) bs h ∙ omega arith)
      (All-take IsByte (a + n - a) (drop a bs) (All-drop IsByte a bs hb))
