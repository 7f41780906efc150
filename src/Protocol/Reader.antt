-- ===== src/Protocol/Reader.antt =====
-- The methods of `reader` in internal/protocol/protocol.go.
use utaki_tick_data_platform.Common.{
  ℕ, ℤ, [], ◌∷◌, ok, err, Bytes, le_value, i64_of_u64, i32_of_u32, length, leb, ◌==◌, if◌then◌else◌,
}
use utaki_tick_data_platform.Common
use utaki_tick_data_platform.Golib.Utf8
use utaki_tick_data_platform.Protocol.{ErrorCode, max_string_bytes}
use utaki_tick_data_platform.Protocol.Buffer.{Buffer, guard, pure, ◌>>=◌, ◌>>◌}

-- The size is a constant or a uint16, so it is not negative.
unfoldable pub take : ℕ → Buffer Bytes
take size rest =
    if leb size (length rest)
    then ok (Common.take size rest, Common.drop size rest)
    else err ErrorCode.invalid_field

abbrev pub first : Bytes → ℕ
first [] = 0
first (b ∷ bs) = b

unfoldable pub u8 : Buffer ℕ
u8 = do b ← take 1; pure (first b)

unfoldable pub u16 : Buffer ℕ
u16 = do b ← take 2; pure (le_value b)

unfoldable pub u32 : Buffer ℕ
u32 = do b ← take 4; pure (le_value b)

unfoldable pub u64 : Buffer ℕ
u64 = do b ← take 8; pure (le_value b)

unfoldable pub i32 : Buffer ℤ
i32 = do value ← u32; pure (i32_of_u32 value)

unfoldable pub i64 : Buffer ℤ
i64 = do value ← u64; pure (i64_of_u64 value)

unfoldable pub hash : Buffer Bytes
hash = take 32

unfoldable pub string : Buffer Bytes
string = do
  size ← u16
  guard (leb size max_string_bytes) ErrorCode.invalid_field
  b ← take size
  guard (Utf8.valid b) ErrorCode.invalid_field
  pure b

unfoldable pub done : Buffer (Unit {0})
done rest = guard (length rest == 0) ErrorCode.invalid_field rest
