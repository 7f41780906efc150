-- ===== src/Golib.antt =====
-- What the gateway uses of Go's standard library: unicode/utf8, hash/crc32, crypto/sha256 and
-- encoding/hex, as executable functions on bytes.
pub mod Utf8
pub mod Crc32
pub mod Sha256
pub mod Hex
