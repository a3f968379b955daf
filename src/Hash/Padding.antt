-- ===== src/Hash/Padding.antt =====
-- SHA-256 as FIPS 180-4 states it: the padded message, cut into blocks of 64 bytes.
use perdure.Prelude.{
  ℕ, zero, suc, ◌-◌, ◌*◌, ◌/◌, ◌%◌, ◌^◌, ◌≡◌, refl, sym, ap, ap₂, ◌∙◌, List, [], ◌∷◌, ◌++◌,
  append-nil, arith, length, take, drop, replicate, length-append, length-replicate,
  take-append_exact, drop-append_exact,
}
use perdure.Hash.{Words, initial, compress, be_bytes}

-- Compress the first `n` blocks of the message in order.
abbrev pub fold_blocks : ℕ → List ℕ → Words → Words
fold_blocks zero msg h = h
fold_blocks (suc n) msg h = fold_blocks n (drop 64 msg) (compress (take 64 msg) h)

unfoldable pub process : List ℕ → Words → Words
process msg h = fold_blocks (length msg / 64) msg h

-- The padding of a message of `n` bytes: 0x80, the least number of zeros that leaves room for
-- eight bytes in the last block, and the length in bits.
abbrev pub padding : ℕ → List ℕ
padding n = (0x80 ∷ replicate ((119 - n % 64) % 64) 0) ++ be_bytes 8 (n * 8 % 2 ^ 64)

unfoldable pub reference : List ℕ → Words
unfolding process
reference msg = process (msg ++ padding (length msg)) initial

pub process_block :
    (block rest : List ℕ) (h : Words)
    → length block ≡ 64
    → process (block ++ rest) h ≡ process rest (compress block h)
unfolding process
process_block block rest h e =
    let count : length (block ++ rest) / 64 ≡ suc (length rest / 64) =
      omega (arith, length-append block rest) in
    ap (λ k. fold_blocks k (block ++ rest) h) count
    ∙ ap₂ (λ later first. fold_blocks (length rest / 64) later (compress first h))
        (drop-append_exact 64 block rest e) (take-append_exact 64 block rest e)

pub length-be_bytes : (n x : ℕ) → length (be_bytes n x) ≡ n
unfolding be_bytes
length-be_bytes zero x = refl
length-be_bytes (suc n) x = ap suc (length-be_bytes n x)

-- The padded message is a whole number of blocks.
pub padded_whole : (msg : List ℕ) → length (msg ++ padding (length msg)) % 64 ≡ 0
padded_whole msg =
    let n = length msg in
    let zeros = (119 - n % 64) % 64 in
    omega (
      arith,
      length-append msg (padding n),
      length-append (0x80 ∷ replicate zeros 0) (be_bytes 8 (n * 8 % 2 ^ 64)),
      length-replicate {A = ℕ} zeros 0,
      length-be_bytes 8 (n * 8 % 2 ^ 64),
    )

process_empty : (h : Words) → process [] h ≡ h
unfolding process
process_empty h = refl

pub process_last :
    (block : List ℕ) (h : Words) → length block ≡ 64 → process block h ≡ compress block h
process_last block h e =
    ap (λ l. process l h) (sym (append-nil block))
    ∙ process_block block [] h e
    ∙ process_empty (compress block h)
