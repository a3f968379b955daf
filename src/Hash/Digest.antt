-- ===== src/Hash/Digest.antt =====
-- The shape of the digest and of its hexadecimal form.
use perdure.Prelude.{
  ℕ, ◌*◌, ◌/◌, ◌%◌, ◌<◌, ◌≡◌, refl, List, [], ◌∷◌, All, Bool, true, ◌||◌, ◌&&◌, leb, arith, length,
}
use perdure.Hash.{be_bytes, words_bytes, sha256, hex_digit, hex_bytes, sha256_hex}

abbrev pub IsByte : ℕ → Type 0
IsByte b = b < 256

-- A lower-case hexadecimal digit.
abbrev pub is_hex : ℕ → Bool
is_hex c = (leb b'0' c && leb c b'9') || (leb b'a' c && leb c b'f')

sha256-IsByte : (parts : List (List ℕ)) → All IsByte (sha256 parts)
unfolding sha256 words_bytes be_bytes
sha256-IsByte parts = omega arith

length-sha256 : (parts : List (List ℕ)) → length (sha256 parts) ≡ 32
unfolding sha256 words_bytes be_bytes
length-sha256 parts = refl

hex_digit-is_hex : (n : ℕ) → n < 16 → is_hex (hex_digit n) ≡ true
unfolding hex_digit
hex_digit-is_hex n h = ground arith

hex_bytes-is_hex : (bs : List ℕ) → All IsByte bs → All (λ c. is_hex c ≡ true) (hex_bytes bs)
unfolding hex_bytes
hex_bytes-is_hex [] h = tt
hex_bytes-is_hex (b ∷ bs) h = (
  hex_digit-is_hex (b / 16) (omega arith),
  (hex_digit-is_hex (b % 16) (omega arith), hex_bytes-is_hex bs h.1),
)

length-hex_bytes : (bs : List ℕ) → length (hex_bytes bs) ≡ 2 * length bs
unfolding hex_bytes
length-hex_bytes [] = refl
length-hex_bytes (b ∷ bs) = omega (arith, length-hex_bytes bs)

-- Every digest is 64 characters, each a lower-case hexadecimal digit.
pub sha256_hex_shape :
    (parts : List (List ℕ))
    → (length (sha256_hex parts) ≡ 64) × All (λ c. is_hex c ≡ true) (sha256_hex parts)
unfolding sha256_hex
sha256_hex_shape parts = (
  omega (arith, length-hex_bytes (sha256 parts), length-sha256 parts),
  hex_bytes-is_hex (sha256 parts) (sha256-IsByte parts),
)
