-- ===== src/Golib/Hex.antt =====
-- encoding/hex: EncodeToString.
use utaki_tick_data_platform.Common.{
  ℕ, ◌+◌, ◌-◌, ◌/◌, ◌%◌, ◌≡◌, refl, [], ◌∷◌, Bytes, ascii, ltb, if◌then◌else◌,
}

abbrev digit : ℕ → ℕ
digit d = if ltb d 10 then b'0' + d else b'a' + (d - 10)

unfoldable pub encode_to_string : Bytes → Bytes
encode_to_string [] = []
encode_to_string (b ∷ bs) = digit (b / 16) ∷ digit (b % 16) ∷ encode_to_string bs

encode_cafe : encode_to_string (0xca ∷ 0xfe ∷ 0x09 ∷ []) ≡ ascii "cafe09"
unfolding encode_to_string ascii
encode_cafe = refl
