-- ===== src/Common/Signed.antt =====
-- Go's int64 and int32 as integers, and the conversions from and to their unsigned patterns.
use Prim.Native.Nat.{ℕ, ◌-◌, ◌<◌, ◌^◌}
use mathlib.Core.Path.{◌≡◌, refl}
use mathlib.Core.Bool.{Bool, true, false}
use native.Mathlib.Omega.{arith}
use utaki_tick_data_platform.Common.Tests.{ltb, ◌==◌, if◌then◌else◌}

-- `negsuc n` is -(n + 1).
pub data ℤ : Type 0 where
  pos : ℕ → ℤ
  negsuc : ℕ → ℤ

-- The conversion uint64(v) of an int64.
unfoldable pub u64_of_i64 : ℤ → ℕ
u64_of_i64 (pos n) = n
u64_of_i64 (negsuc n) = 2 ^ 64 - 1 - n

-- The conversion int64(v) of a uint64.
unfoldable pub i64_of_u64 : ℕ → ℤ
i64_of_u64 v = if ltb v (2 ^ 63) then pos v else negsuc (2 ^ 64 - 1 - v)

unfoldable pub u32_of_i32 : ℤ → ℕ
u32_of_i32 (pos n) = n
u32_of_i32 (negsuc n) = 2 ^ 32 - 1 - n

unfoldable pub i32_of_u32 : ℕ → ℤ
i32_of_u32 v = if ltb v (2 ^ 31) then pos v else negsuc (2 ^ 32 - 1 - v)

abbrev pub IsI64 : ℤ → Type 0
IsI64 (pos n) = n < 2 ^ 63
IsI64 (negsuc n) = n < 2 ^ 63

abbrev pub IsI32 : ℤ → Type 0
IsI32 (pos n) = n < 2 ^ 31
IsI32 (negsuc n) = n < 2 ^ 31

infix 50 ◌==ℤ◌
unfoldable pub ◌==ℤ◌ : ℤ → ℤ → Bool
pos a ==ℤ pos b = a == b
pos a ==ℤ negsuc b = false
negsuc a ==ℤ pos b = false
negsuc a ==ℤ negsuc b = a == b

unfoldable pub ltℤ : ℤ → ℤ → Bool
ltℤ (pos a) (pos b) = ltb a b
ltℤ (pos a) (negsuc b) = false
ltℤ (negsuc a) (pos b) = true
ltℤ (negsuc a) (negsuc b) = ltb b a

infix 50 ◌≤ℤ◌
abbrev pub ◌≤ℤ◌ : ℤ → ℤ → Type 0
◌≤ℤ◌ a b = ltℤ b a ≡ false

pub i64_of_u64-u64_of_i64 : (v : ℤ) → IsI64 v → i64_of_u64 (u64_of_i64 v) ≡ v
unfolding u64_of_i64 i64_of_u64
i64_of_u64-u64_of_i64 (pos n) h = ground arith
i64_of_u64-u64_of_i64 (negsuc n) h = ground arith

pub u64_of_i64-i64_of_u64 : (v : ℕ) → v < 2 ^ 64 → u64_of_i64 (i64_of_u64 v) ≡ v
unfolding u64_of_i64 i64_of_u64
u64_of_i64-i64_of_u64 v h = ground arith

pub u64_of_i64-lt : (v : ℤ) → IsI64 v → u64_of_i64 v < 2 ^ 64
unfolding u64_of_i64
u64_of_i64-lt (pos n) h = omega arith
u64_of_i64-lt (negsuc n) h = omega arith

pub i32_of_u32-u32_of_i32 : (v : ℤ) → IsI32 v → i32_of_u32 (u32_of_i32 v) ≡ v
unfolding u32_of_i32 i32_of_u32
i32_of_u32-u32_of_i32 (pos n) h = ground arith
i32_of_u32-u32_of_i32 (negsuc n) h = ground arith

pub u32_of_i32-i32_of_u32 : (v : ℕ) → v < 2 ^ 32 → u32_of_i32 (i32_of_u32 v) ≡ v
unfolding u32_of_i32 i32_of_u32
u32_of_i32-i32_of_u32 v h = ground arith

pub u32_of_i32-lt : (v : ℤ) → IsI32 v → u32_of_i32 v < 2 ^ 32
unfolding u32_of_i32
u32_of_i32-lt (pos n) h = omega arith
u32_of_i32-lt (negsuc n) h = omega arith

pub IsI64-i64_of_u64 : (v : ℕ) → v < 2 ^ 64 → IsI64 (i64_of_u64 v)
unfolding i64_of_u64
IsI64-i64_of_u64 v h = ground arith

pub IsI32-i32_of_u32 : (v : ℕ) → v < 2 ^ 32 → IsI32 (i32_of_u32 v)
unfolding i32_of_u32
IsI32-i32_of_u32 v h = ground arith

pub ≤ℤ_refl : (a : ℤ) → a ≤ℤ a
unfolding ltℤ
≤ℤ_refl (pos n) = ground arith
≤ℤ_refl (negsuc n) = ground arith

pub <→≤ℤ : (a b : ℤ) → ltℤ a b ≡ true → a ≤ℤ b
unfolding ltℤ
<→≤ℤ (pos a) (pos b) h = ground arith
<→≤ℤ (pos a) (negsuc b) h = cc
<→≤ℤ (negsuc a) (pos b) h = refl
<→≤ℤ (negsuc a) (negsuc b) h = ground arith

pub ≤ℤ_trans : (a b c : ℤ) → a ≤ℤ b → b ≤ℤ c → a ≤ℤ c
unfolding ltℤ
≤ℤ_trans (pos a) (pos b) (pos c) h k = ground arith
≤ℤ_trans (pos a) (pos b) (negsuc c) h k = cc
≤ℤ_trans (pos a) (negsuc b) (pos c) h k = cc
≤ℤ_trans (pos a) (negsuc b) (negsuc c) h k = cc
≤ℤ_trans (negsuc a) (pos b) (pos c) h k = refl
≤ℤ_trans (negsuc a) (pos b) (negsuc c) h k = cc
≤ℤ_trans (negsuc a) (negsuc b) (pos c) h k = refl
≤ℤ_trans (negsuc a) (negsuc b) (negsuc c) h k = ground arith
