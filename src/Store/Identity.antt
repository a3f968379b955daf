-- ===== src/Store/Identity.antt =====
-- `fnv1a_hex` of src/store.rs, and the ids and hashes that are made of it and of `sha256_hex`.
use Prim.Native.Nat.{bit_xor}
use perdure.Prelude.{
  ℕ, zero, suc, ◌*◌, ◌/◌, ◌%◌, ◌^◌, ◌≡◌, refl, ap, sym, ◌∙◌, Text, List, [], ◌∷◌, ◌++◌, as_bytes,
  codes, arith, length, take, length-take,
}
use perdure.Hash.{hex_digit, sha256_hex}
use perdure.Json.{Value, json}
use perdure.Prelude.TextOrder.{Reorder}
use perdure.Store.Canonical.{canonical_bytes, canonical_bytes-Reorder}

abbrev pub fnv_offset : ℕ
fnv_offset = 0xcbf29ce484222325

abbrev pub fnv_prime : ℕ
fnv_prime = 0x100000001b3

-- `h ^= b; h = h.wrapping_mul(FNV_PRIME);`
fnv_step : ℕ → ℕ → ℕ
fnv_step h b = bit_xor h b * fnv_prime % 2 ^ 64

pub fnv_bytes : ℕ → List ℕ → ℕ
unfolding fnv_step
fnv_bytes h [] = h
fnv_bytes h (b ∷ bs) = fnv_bytes (fnv_step h b) bs

-- The loop over the parts: each is followed by a 0.
fnv_parts : ℕ → List (List ℕ) → ℕ
unfolding fnv_bytes fnv_step
fnv_parts h [] = h
fnv_parts h (p ∷ ps) = fnv_parts (fnv_step (fnv_bytes h p) 0) ps

-- `format!("{:016x}", h)`, with `n` digits left.
pub hex_word : ℕ → ℕ → Text
unfolding hex_digit
hex_word zero x = []
hex_word (suc n) x = hex_digit (x / 16 ^ n % 16) ∷ hex_word n x

unfoldable pub fnv1a_hex : List (List ℕ) → Text
unfolding fnv_parts hex_word
fnv1a_hex parts = hex_word 16 (fnv_parts fnv_offset parts)

unfoldable pub idempotency_key : Text → Text → Text → Value → Text
idempotency_key run_id action_id tool input =
    codes "idem_"
    ++ fnv1a_hex (as_bytes run_id ∷ as_bytes action_id ∷ as_bytes tool ∷ canonical_bytes input ∷ [])

unfoldable pub approval_id : Text → Text → Text
approval_id run_id action_id =
    codes "apr_" ++ take 12 (fnv1a_hex (as_bytes run_id ∷ as_bytes action_id ∷ []))

unfoldable pub receipt_id : Text → Text
receipt_id key = codes "rcpt_" ++ take 12 (fnv1a_hex (as_bytes key ∷ []))

unfoldable pub input_hash : Value → Text
input_hash v = codes "ih_" ++ sha256_hex (canonical_bytes v ∷ [])

unfoldable pub receipt_content_hash : Value → Value → Text
receipt_content_hash input output =
    codes "rh_"
    ++ sha256_hex
        (canonical_bytes (json ((codes "input", input) ∷ (codes "output", output) ∷ [])) ∷ [])

unfoldable pub short_digest : Value → Text
short_digest v = take 12 (fnv1a_hex (canonical_bytes v ∷ []))

-- Each part with a zero byte behind it, as one message.
abbrev pub terminated : List (List ℕ) → List ℕ
terminated [] = []
terminated (p ∷ ps) = p ++ 0 ∷ terminated ps

fnv_bytes-append : (h : ℕ) (a b : List ℕ) → fnv_bytes h (a ++ b) ≡ fnv_bytes (fnv_bytes h a) b
unfolding fnv_bytes
fnv_bytes-append h [] b = refl
fnv_bytes-append h (x ∷ a) b = fnv_bytes-append (fnv_step h x) a b

fnv_parts-eq : (h : ℕ) (ps : List (List ℕ)) → fnv_parts h ps ≡ fnv_bytes h (terminated ps)
unfolding fnv_parts
fnv_parts-eq h [] = unfold fnv_bytes in refl
fnv_parts-eq h (p ∷ ps) =
    fnv_parts-eq (fnv_step (fnv_bytes h p) 0) ps
    ∙ sym (fnv_bytes-append h p (0 ∷ terminated ps) ∙ (unfold fnv_bytes in refl))

-- Hashing a list of parts is FNV-1a over one message, in which each part ends with a zero byte.
pub fnv1a_hex-eq :
    (parts : List (List ℕ))
    → fnv1a_hex parts ≡ hex_word 16 (fnv_bytes fnv_offset (terminated parts))
unfolding fnv1a_hex
fnv1a_hex-eq parts = ap (hex_word 16) (fnv_parts-eq fnv_offset parts)

length-hex_word : (n x : ℕ) → length (hex_word n x) ≡ n
unfolding hex_word
length-hex_word zero x = refl
length-hex_word (suc n) x = ap suc (length-hex_word n x)

length-fnv1a_hex : (parts : List (List ℕ)) → length (fnv1a_hex parts) ≡ 16
unfolding fnv1a_hex
length-fnv1a_hex parts = length-hex_word 16 (fnv_parts fnv_offset parts)

length-slice : (parts : List (List ℕ)) → length (take 12 (fnv1a_hex parts)) ≡ 12
length-slice parts = omega (arith, length-take 12 (fnv1a_hex parts), length-fnv1a_hex parts)

-- A hash has 16 digits, so the slices `[..12]` are in range and ids have a fixed length: 21
-- characters for an idempotency key, 16 for an approval, 17 for a receipt, 12 for a short digest.
pub id_lengths :
    (run_id action_id tool : Text) (input : Value)
    → (length (idempotency_key run_id action_id tool input) ≡ 21)
      × (length (approval_id run_id action_id) ≡ 16)
      × (length (receipt_id (idempotency_key run_id action_id tool input)) ≡ 17)
      × (length (short_digest input) ≡ 12)
unfolding idempotency_key approval_id receipt_id short_digest
id_lengths run_id action_id tool input =
    let a = as_bytes run_id in
    let b = as_bytes action_id in
    let k = fnv1a_hex (a ∷ b ∷ as_bytes tool ∷ canonical_bytes input ∷ []) in
    (
      omega (arith, length-fnv1a_hex (a ∷ b ∷ as_bytes tool ∷ canonical_bytes input ∷ [])),
      omega (arith, length-slice (a ∷ b ∷ [])),
      omega (arith, length-slice (as_bytes (codes "idem_" ++ k) ∷ [])),
      length-slice (canonical_bytes input ∷ []),
    )

-- A resumed run finds the receipt of an action whose input was written in another field order: the
-- idempotency key and the input hash do not change.
pub idempotency_key-Reorder :
    (run_id action_id tool : Text) {xs ys : List (Text × Value)}
    → Reorder xs ys
    → (idempotency_key run_id action_id tool (json xs)
        ≡ idempotency_key run_id action_id tool (json ys))
      × (input_hash (json xs) ≡ input_hash (json ys))
unfolding idempotency_key input_hash
idempotency_key-Reorder run_id action_id tool r =
    let same = canonical_bytes-Reorder r in
    (
      ap
          (λ b.
            codes "idem_"
            ++ fnv1a_hex (as_bytes run_id ∷ as_bytes action_id ∷ as_bytes tool ∷ b ∷ []))
          same,
      ap (λ b. codes "ih_" ++ sha256_hex (b ∷ [])) same,
    )
