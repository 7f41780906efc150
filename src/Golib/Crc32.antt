-- ===== src/Golib/Crc32.antt =====
-- hash/crc32: Checksum with the Castagnoli table, bit by bit.
use Prim.Native.Nat.{bit_xor}
use utaki_tick_data_platform.Common.{
  ℕ, zero, suc, ◌-◌, ◌/◌, ◌%◌, ◌^◌, ◌<◌, ◌≡◌, refl, [], ◌∷◌, Bytes, ascii, ◌==◌, if◌then◌else◌,
  arith,
}

shift_bits : ℕ → ℕ → ℕ
shift_bits zero crc = crc
shift_bits (suc n) crc =
    shift_bits n (if crc % 2 == 1 then bit_xor (crc / 2) 0x82f63b78 else crc / 2)

update : ℕ → Bytes → ℕ
update crc [] = crc
update crc (b ∷ bs) = update (shift_bits 8 (bit_xor crc b)) bs

-- The complement of a uint32 is its distance from the greatest one.
unfoldable pub checksum : Bytes → ℕ
unfolding update shift_bits
checksum bs = 0xffff_ffff - update 0xffff_ffff bs

pub checksum-lt : (bs : Bytes) → checksum bs < 2 ^ 32
unfolding checksum
checksum-lt bs = omega arith

checksum_digits : checksum (ascii "123456789") ≡ 0xe3069283
unfolding checksum ascii
checksum_digits = refl
