-- ===== src/Golib/Utf8.antt =====
-- unicode/utf8: Valid and ValidString.
use utaki_tick_data_platform.Common.{
  ℕ, zero, suc, ◌≡◌, refl, Bool, true, false, ◌&&◌, Option, none, some, [], ◌∷◌, Bytes, leb, ltb,
  if◌then◌else◌, ◌==◌,
}

-- What may follow a first byte: how many bytes, and the range of the first of them.
lead : ℕ → Option (ℕ × ℕ × ℕ)
lead b =
    if ltb b 0x80
    then some (0, 0, 0)
    else if leb 0xc2 b && leb b 0xdf
    then some (1, 0x80, 0xbf)
    else if b == 0xe0
    then some (2, 0xa0, 0xbf)
    else if b == 0xed
    then some (2, 0x80, 0x9f)
    else if leb 0xe1 b && leb b 0xef
    then some (2, 0x80, 0xbf)
    else if b == 0xf0
    then some (3, 0x90, 0xbf)
    else if leb 0xf1 b && leb b 0xf3
    then some (3, 0x80, 0xbf)
    else if b == 0xf4
    then some (3, 0x80, 0x8f)
    else none

-- `pending` bytes are still due, the next of them from lo to hi.
scan : ℕ → ℕ → ℕ → Bytes → Bool
scan zero lo hi [] = true
scan (suc pending) lo hi [] = false
scan zero lo hi (b ∷ bs) = elim (lead b) [
  | none ↦ false
  | some (pending, lo', hi') ↦ scan pending lo' hi' bs
]
scan (suc pending) lo hi (b ∷ bs) = leb lo b && leb b hi && scan pending 0x80 0xbf bs

unfoldable pub valid : Bytes → Bool
unfolding scan lead
valid bs = scan 0 0 0 bs

valid_euro : valid (0xe2 ∷ 0x82 ∷ 0xac ∷ b'x' ∷ []) ≡ true
unfolding valid
valid_euro = refl

invalid_surrogate : valid (0xed ∷ 0xa0 ∷ 0x80 ∷ []) ≡ false
unfolding valid
invalid_surrogate = refl
