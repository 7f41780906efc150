-- ===== src/Protocol/Writer.antt =====
-- The methods of `writer` in internal/protocol/protocol.go.
use utaki_tick_data_platform.Common.{
  ℕ, ℤ, ◌∷◌, [], ◌++◌, ok, Bytes, le_bytes, u64_of_i64, u32_of_i32, length, leb,
}
use utaki_tick_data_platform.Golib.Utf8
use utaki_tick_data_platform.Protocol.{ErrorCode, max_string_bytes}
use utaki_tick_data_platform.Protocol.Buffer.{Buffer, guard, ◌>>◌}

abbrev Writing : Type 0
Writing = Buffer (Unit {0})

unfoldable pub write : Bytes → Writing
write bs buffer = ok (tt, buffer ++ bs)

unfoldable pub u8 : ℕ → Writing
u8 value = write (value ∷ [])

unfoldable pub u16 : ℕ → Writing
u16 value = write (le_bytes 2 value)

unfoldable pub u32 : ℕ → Writing
u32 value = write (le_bytes 4 value)

unfoldable pub u64 : ℕ → Writing
u64 value = write (le_bytes 8 value)

unfoldable pub i32 : ℤ → Writing
i32 value = u32 (u32_of_i32 value)

unfoldable pub i64 : ℤ → Writing
i64 value = u64 (u64_of_i64 value)

unfoldable pub hash : Bytes → Writing
hash value = write value

unfoldable pub string : Bytes → Writing
string value = do
  guard (Utf8.valid value) ErrorCode.invalid_field
  guard (leb (length value) max_string_bytes) ErrorCode.invalid_field
  u16 (length value)
  write value
