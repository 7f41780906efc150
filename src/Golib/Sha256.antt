-- ===== src/Golib/Sha256.antt =====
-- crypto/sha256: Sum256.
use Prim.Native.Nat.{bit_and, bit_xor}
use utaki_tick_data_platform.Common.{
  ℕ, zero, suc, ◌+◌, ◌-◌, ◌*◌, ◌/◌, ◌%◌, ◌^◌, ◌≡◌, refl, List, [], ◌∷◌, ◌++◌, Bytes, IsByte, All,
  ascii, length, take, drop, arith,
}

record Registers : Type 0 where
  a : ℕ
  b : ℕ
  c : ℕ
  d : ℕ
  e : ℕ
  f : ℕ
  g : ℕ
  h : ℕ

-- The additions and rotations of 32-bit words.
add : ℕ → ℕ → ℕ
add x y = (x + y) % 2 ^ 32

rotate : ℕ → ℕ → ℕ
rotate n x = x / 2 ^ n + x % 2 ^ n * 2 ^ (32 - n)

xor3 : ℕ → ℕ → ℕ → ℕ
xor3 x y z = bit_xor x (bit_xor y z)

abbrev round_constants : List ℕ
round_constants =
    0x428a2f98 ∷ 0x71374491 ∷ 0xb5c0fbcf ∷ 0xe9b5dba5 ∷ 0x3956c25b ∷ 0x59f111f1 ∷ 0x923f82a4
    ∷ 0xab1c5ed5 ∷ 0xd807aa98 ∷ 0x12835b01 ∷ 0x243185be ∷ 0x550c7dc3 ∷ 0x72be5d74 ∷ 0x80deb1fe
    ∷ 0x9bdc06a7 ∷ 0xc19bf174 ∷ 0xe49b69c1 ∷ 0xefbe4786 ∷ 0x0fc19dc6 ∷ 0x240ca1cc ∷ 0x2de92c6f
    ∷ 0x4a7484aa ∷ 0x5cb0a9dc ∷ 0x76f988da ∷ 0x983e5152 ∷ 0xa831c66d ∷ 0xb00327c8 ∷ 0xbf597fc7
    ∷ 0xc6e00bf3 ∷ 0xd5a79147 ∷ 0x06ca6351 ∷ 0x14292967 ∷ 0x27b70a85 ∷ 0x2e1b2138 ∷ 0x4d2c6dfc
    ∷ 0x53380d13 ∷ 0x650a7354 ∷ 0x766a0abb ∷ 0x81c2c92e ∷ 0x92722c85 ∷ 0xa2bfe8a1 ∷ 0xa81a664b
    ∷ 0xc24b8b70 ∷ 0xc76c51a3 ∷ 0xd192e819 ∷ 0xd6990624 ∷ 0xf40e3585 ∷ 0x106aa070 ∷ 0x19a4c116
    ∷ 0x1e376c08 ∷ 0x2748774c ∷ 0x34b0bcb5 ∷ 0x391c0cb3 ∷ 0x4ed8aa4a ∷ 0x5b9cca4f ∷ 0x682e6ff3
    ∷ 0x748f82ee ∷ 0x78a5636f ∷ 0x84c87814 ∷ 0x8cc70208 ∷ 0x90befffa ∷ 0xa4506ceb ∷ 0xbef9a3f7
    ∷ 0xc67178f2 ∷ []

word_at : ℕ → List ℕ → ℕ
word_at n [] = 0
word_at zero (w ∷ ws) = w
word_at (suc n) (w ∷ ws) = word_at n ws

-- The next word of the message schedule, from the sixteen before it.
next_word : List ℕ → ℕ
unfolding add rotate xor3 word_at
next_word ws =
    let x = word_at 1 ws in
    let y = word_at 14 ws in
    let s0 = xor3 (rotate 7 x) (rotate 18 x) (x / 2 ^ 3) in
    let s1 = xor3 (rotate 17 y) (rotate 19 y) (y / 2 ^ 10) in
    add (add (word_at 0 ws) s0) (add (word_at 9 ws) s1)

round : Registers → ℕ → ℕ → Registers
unfolding add rotate xor3
round r k w =
    let s1 = xor3 (rotate 6 r.e) (rotate 11 r.e) (rotate 25 r.e) in
    let ch = bit_xor (bit_and r.e r.f) (bit_and (2 ^ 32 - 1 - r.e) r.g) in
    let t1 = add (add r.h s1) (add ch (add k w)) in
    let s0 = xor3 (rotate 2 r.a) (rotate 13 r.a) (rotate 22 r.a) in
    let maj = xor3 (bit_and r.a r.b) (bit_and r.a r.c) (bit_and r.b r.c) in
    record {
      a = add t1 (add s0 maj);
      b = r.a;
      c = r.b;
      d = r.c;
      e = add r.d t1;
      f = r.e;
      g = r.f;
      h = r.g;
    }

-- The window holds the sixteen words of the schedule from this round on.
rounds : List ℕ → List ℕ → Registers → Registers
unfolding next_word round
rounds [] window r = r
rounds (k ∷ ks) window r =
    rounds ks (drop 1 window ++ (next_word window ∷ [])) (round r k (word_at 0 window))

be_words : ℕ → Bytes → List ℕ
be_words zero bs = []
be_words (suc n) bs =
    (word_at 0 bs * 2 ^ 24 + word_at 1 bs * 2 ^ 16 + word_at 2 bs * 2 ^ 8 + word_at 3 bs)
    ∷ be_words n (drop 4 bs)

compress : Registers → Bytes → Registers
unfolding rounds be_words word_at add
compress r block =
    let o = rounds round_constants (be_words 16 block) r in
    record {
      a = add r.a o.a;
      b = add r.b o.b;
      c = add r.c o.c;
      d = add r.d o.d;
      e = add r.e o.e;
      f = add r.f o.f;
      g = add r.g o.g;
      h = add r.h o.h;
    }

blocks : ℕ → Registers → Bytes → Registers
unfolding compress
blocks zero r bs = r
blocks (suc n) r bs = blocks n (compress r (take 64 bs)) (drop 64 bs)

abbrev initial : Registers
initial = record {
  a = 0x6a09e667;
  b = 0xbb67ae85;
  c = 0x3c6ef372;
  d = 0xa54ff53a;
  e = 0x510e527f;
  f = 0x9b05688c;
  g = 0x1f83d9ab;
  h = 0x5be0cd19;
}

be_bytes : ℕ → ℕ → Bytes
be_bytes zero v = []
be_bytes (suc n) v = be_bytes n (v / 256) ++ (v % 256 ∷ [])

zeros : ℕ → Bytes
zeros zero = []
zeros (suc n) = 0 ∷ zeros n

pad : Bytes → Bytes
unfolding zeros be_bytes
pad bs = bs ++ (0x80 ∷ (zeros ((119 - length bs % 64) % 64) ++ be_bytes 8 (8 * length bs)))

abbrev digest_words : Registers → List ℕ
digest_words r = r.a ∷ r.b ∷ r.c ∷ r.d ∷ r.e ∷ r.f ∷ r.g ∷ r.h ∷ []

be_digest : List ℕ → Bytes
unfolding be_bytes
be_digest [] = []
be_digest (w ∷ ws) = be_bytes 4 w ++ be_digest ws

unfoldable pub sum256 : Bytes → Bytes
unfolding be_digest blocks pad
sum256 bs = be_digest (digest_words (blocks ((length bs + 72) / 64) initial (pad bs)))

All-be_digest : (ws : List ℕ) → All IsByte (be_digest ws)
unfolding be_digest
All-be_digest [] = tt
All-be_digest (w ∷ ws) =
    (omega arith, (omega arith, (omega arith, (omega arith, All-be_digest ws))))

-- A digest has 32 bytes.
pub length-sum256 : (bs : Bytes) → length (sum256 bs) ≡ 32
unfolding sum256
length-sum256 bs = refl

pub All-sum256 : (bs : Bytes) → All IsByte (sum256 bs)
unfolding sum256
All-sum256 bs = All-be_digest (digest_words (blocks ((length bs + 72) / 64) initial (pad bs)))

sum256_abc :
    sum256 (ascii "abc")
    ≡ 0xba ∷ 0x78 ∷ 0x16 ∷ 0xbf ∷ 0x8f ∷ 0x01 ∷ 0xcf ∷ 0xea ∷ 0x41 ∷ 0x41 ∷ 0x40 ∷ 0xde ∷ 0x5d
      ∷ 0xae ∷ 0x22 ∷ 0x23 ∷ 0xb0 ∷ 0x03 ∷ 0x61 ∷ 0xa3 ∷ 0x96 ∷ 0x17 ∷ 0x7a ∷ 0x9c ∷ 0xb4 ∷ 0x10
      ∷ 0xff ∷ 0x61 ∷ 0xf2 ∷ 0x00 ∷ 0x15 ∷ 0xad ∷ []
unfolding sum256 ascii
sum256_abc = refl
