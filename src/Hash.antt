-- ===== src/Hash.antt =====
-- src/hash.rs: SHA-256. A `u32` and a `u8` are numbers below 2^32 and 2^8; the arrays are lists.
pub mod Padding
pub mod Streaming
pub mod Digest
mod Vectors
use Prim.Native.Nat.{bit_and, bit_or, bit_xor}
use perdure.Prelude.{
  ℕ, zero, suc, ◌+◌, ◌-◌, ◌*◌, ◌/◌, ◌%◌, ◌^◌, min, Text, List, [], ◌∷◌, ◌++◌, ltb, ◌==◌,
  if◌then◌else◌, length, take, drop, replicate,
}

-- The eight words of the running state.
pub record Words : Type 0 where
  pub h0 : ℕ
  pub h1 : ℕ
  pub h2 : ℕ
  pub h3 : ℕ
  pub h4 : ℕ
  pub h5 : ℕ
  pub h6 : ℕ
  pub h7 : ℕ

abbrev pub initial : Words
initial = record {
  h0 = 0x6a09e667;
  h1 = 0xbb67ae85;
  h2 = 0x3c6ef372;
  h3 = 0xa54ff53a;
  h4 = 0x510e527f;
  h5 = 0x9b05688c;
  h6 = 0x1f83d9ab;
  h7 = 0x5be0cd19;
}

-- The round constants `K`.
abbrev pub round_constants : List ℕ
round_constants =
    0x428a2f98 ∷ 0x71374491 ∷ 0xb5c0fbcf ∷ 0xe9b5dba5 ∷ 0x3956c25b ∷ 0x59f111f1 ∷ 0x923f82a4
    ∷ 0xab1c5ed5 ∷ 0xd807aa98 ∷ 0x12835b01 ∷ 0x243185be ∷ 0x550c7dc3 ∷ 0x72be5d74 ∷ 0x80deb1fe
    ∷ 0x9bdc06a7 ∷ 0xc19bf174 ∷ 0xe49b69c1 ∷ 0xefbe4786 ∷ 0x0fc19dc6 ∷ 0x240ca1cc ∷ 0x2de92c6f
    ∷ 0x4a7484aa ∷ 0x5cb0a9dc ∷ 0x76f988da ∷ 0x983e5152 ∷ 0xa831c66d ∷ 0xb00327c8 ∷ 0xbf597fc7
    ∷ 0xc6e00bf3 ∷ 0xd5a79147 ∷ 0x06ca6351 ∷ 0x14292967 ∷ 0x27b70a85 ∷ 0x2e1b2138 ∷ 0x4d2c6dfc
    ∷ 0x53380d13 ∷ 0x650a7354 ∷ 0x766a0abb ∷ 0x81c2c92e ∷ 0x92722c85 ∷ 0xa2bfe8a1 ∷ 0xa81a664b
    ∷ 0xc24b8b70 ∷ 0xc76c51a3 ∷ 0xd192e819 ∷ 0xd6990624 ∷ 0xf40e3585 ∷ 0x106aa070 ∷ 0x19a4c116
    ∷ 0x1e376c08 ∷ 0x2748774c ∷ 0x34b0bcb5 ∷ 0x391c0cb3 ∷ 0x4ed8aa4a ∷ 0x5b9cca4f ∷ 0x682e6ff3
    ∷ 0x748f82ee ∷ 0x78a5636f ∷ 0x84c87814 ∷ 0x8cc70208 ∷ 0x90befffa ∷ 0xa4506ceb ∷ 0xbef9a3f7
    ∷ 0xc67178f2 ∷ []

-- `wrapping_add`, `rotate_right`, `>>` and `!` on `u32`.
add32 : ℕ → ℕ → ℕ
add32 a b = (a + b) % 2 ^ 32

rotate_right : ℕ → ℕ → ℕ
rotate_right x n = bit_or (x / 2 ^ n) (x * 2 ^ (32 - n) % 2 ^ 32)

shift_right : ℕ → ℕ → ℕ
shift_right x n = x / 2 ^ n

not32 : ℕ → ℕ
not32 x = bit_xor x 0xffffffff

-- The element at an index that is in range.
at : List ℕ → ℕ → ℕ
at [] i = 0
at (x ∷ xs) zero = x
at (x ∷ xs) (suc i) = at xs i

-- `u32::from_be_bytes` over each four bytes of the block.
block_words : List ℕ → List ℕ
block_words (a ∷ b ∷ c ∷ d ∷ rest) = (((a * 256 + b) * 256 + c) * 256 + d) ∷ block_words rest
block_words _ = []

-- `for i in 16..64`, with `n` rounds left and `w` the words that are filled.
schedule : ℕ → List ℕ → List ℕ
unfolding rotate_right shift_right add32 at
schedule zero w = w
schedule (suc n) w =
    let i = length w in
    let x = at w (i - 15) in
    let y = at w (i - 2) in
    let s0 = bit_xor (bit_xor (rotate_right x 7) (rotate_right x 18)) (shift_right x 3) in
    let s1 = bit_xor (bit_xor (rotate_right y 17) (rotate_right y 19)) (shift_right y 10) in
    schedule n (w ++ add32 (add32 (add32 (at w (i - 16)) s0) (at w (i - 7))) s1 ∷ [])

-- One of the 64 rounds: `a` to `hh` are the fields in order.
round : ℕ → ℕ → Words → Words
unfolding rotate_right not32 add32
round k w s =
    let s1 =
      bit_xor (bit_xor (rotate_right s.h4 6) (rotate_right s.h4 11)) (rotate_right s.h4 25) in
    let ch = bit_xor (bit_and s.h4 s.h5) (bit_and (not32 s.h4) s.h6) in
    let t1 = add32 (add32 (add32 (add32 s.h7 s1) ch) k) w in
    let s0 =
      bit_xor (bit_xor (rotate_right s.h0 2) (rotate_right s.h0 13)) (rotate_right s.h0 22) in
    let maj = bit_xor (bit_xor (bit_and s.h0 s.h1) (bit_and s.h0 s.h2)) (bit_and s.h1 s.h2) in
    let t2 = add32 s0 maj in
    record {
      h0 = add32 t1 t2;
      h1 = s.h0;
      h2 = s.h1;
      h3 = s.h2;
      h4 = add32 s.h3 t1;
      h5 = s.h4;
      h6 = s.h5;
      h7 = s.h6;
    }

rounds : List ℕ → List ℕ → Words → Words
unfolding round
rounds (k ∷ ks) (w ∷ ws) s = rounds ks ws (round k w s)
rounds _ _ s = s

-- Process one 64-byte block into the running state.
pub compress : List ℕ → Words → Words
unfolding block_words schedule rounds add32
compress block h =
    let s = rounds round_constants (schedule 48 (block_words block)) h in
    record {
      h0 = add32 h.h0 s.h0;
      h1 = add32 h.h1 s.h1;
      h2 = add32 h.h2 s.h2;
      h3 = add32 h.h3 s.h3;
      h4 = add32 h.h4 s.h4;
      h5 = add32 h.h5 s.h5;
      h6 = add32 h.h6 s.h6;
      h7 = add32 h.h7 s.h7;
    }

-- The locals `h`, `block` and `filled` of `sha256`.
pub record Stream : Type 0 where
  pub words : Words
  pub block : List ℕ
  pub filled : ℕ

-- `block[filled..filled + data.len()].copy_from_slice(data)`.
abbrev overwrite : List ℕ → ℕ → List ℕ → List ℕ
overwrite block filled bytes = take filled block ++ (bytes ++ drop (filled + length bytes) block)

-- The body of `while !data.is_empty()`: the bytes that are copied, and a full block compressed.
absorb_step : List ℕ → Stream → Stream
absorb_step input s =
    let n = min (64 - s.filled) (length input) in
    let block = overwrite s.block s.filled (take n input) in
    if s.filled + n == 64
    then record { words = compress block s.words; block = block; filled = 0 }
    else record { words = s.words; block = block; filled = s.filled + n }

-- The loop on one part. Each round takes a byte at least, so the length is fuel enough.
absorb : ℕ → List ℕ → Stream → Stream
unfolding absorb_step
absorb zero input s = s
absorb (suc fuel) [] s = s
absorb (suc fuel) (b ∷ input) s =
    let n = min (64 - s.filled) (length (b ∷ input)) in
    absorb fuel (drop n (b ∷ input)) (absorb_step (b ∷ input) s)

absorb_parts : List (List ℕ) → Stream → Stream
unfolding absorb
absorb_parts [] s = s
absorb_parts (p ∷ ps) s = absorb_parts ps (absorb (length p) p s)

-- `to_be_bytes` of `n` bytes.
pub be_bytes : ℕ → ℕ → List ℕ
be_bytes zero x = []
be_bytes (suc n) x = (x / 256 ^ n % 256) ∷ be_bytes n x

-- The sum of the lengths, wrapping at 2^64, times eight.
total_bytes : ℕ → List (List ℕ) → ℕ
total_bytes acc [] = acc
total_bytes acc (p ∷ ps) = total_bytes ((acc + length p % 2 ^ 64) % 2 ^ 64) ps

pub bit_length : List (List ℕ) → ℕ
unfolding total_bytes
bit_length parts = total_bytes 0 parts * 8 % 2 ^ 64

-- Padding: 0x80, zeros to the end of the block, one more block if the length does not fit.
finish : ℕ → Stream → Words
unfolding be_bytes
finish bits s =
    let marked = take s.filled s.block ++ (0x80 ∷ replicate (64 - (s.filled + 1)) 0) in
    if ltb 56 (s.filled + 1)
    then compress (replicate 56 0 ++ be_bytes 8 bits) (compress marked s.words)
    else compress (take 56 marked ++ be_bytes 8 bits) s.words

abbrev start : Stream
start = record { words = initial; block = replicate 64 0; filled = 0 }

-- The state after all parts and the padding.
pub digest : List (List ℕ) → Words
unfolding absorb_parts finish bit_length
digest parts = finish (bit_length parts) (absorb_parts parts start)

words_bytes : Words → List ℕ
unfolding be_bytes
words_bytes h =
    be_bytes 4 h.h0
    ++ be_bytes 4 h.h1
    ++ be_bytes 4 h.h2
    ++ be_bytes 4 h.h3
    ++ be_bytes 4 h.h4
    ++ be_bytes 4 h.h5
    ++ be_bytes 4 h.h6
    ++ be_bytes 4 h.h7

unfoldable pub sha256 : List (List ℕ) → List ℕ
unfolding digest words_bytes compress
sha256 parts = words_bytes (digest parts)

-- One hexadecimal digit, lower case.
unfoldable pub hex_digit : ℕ → ℕ
hex_digit n = if ltb n 10 then b'0' + n else b'a' + (n - 10)

unfoldable pub hex_bytes : List ℕ → Text
unfolding hex_digit
hex_bytes [] = []
hex_bytes (b ∷ bs) = hex_digit (b / 16) ∷ hex_digit (b % 16) ∷ hex_bytes bs

unfoldable pub sha256_hex : List (List ℕ) → Text
unfolding sha256 hex_bytes
sha256_hex parts = hex_bytes (sha256 parts)
