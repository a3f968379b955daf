-- ===== src/Hash/Streaming.antt =====
-- The streamed computation, over any split into parts, is the reference computation.
use Prim.Native.Nat.{min}
use perdure.Prelude.{
  ℕ, zero, suc, ◌+◌, ◌-◌, ◌*◌, ◌/◌, ◌%◌, ◌^◌, ◌≤◌, ◌<◌, ◌≡◌, ◌≢◌, refl, sym, ap, ap₂, ◌∙◌, List, [],
  ◌∷◌, ◌++◌, append_assoc, append-nil, arith, length, take, drop, replicate, concat, length-append,
  length-replicate, length-take, length-drop, take-append_exact, take-append-drop, drop_all,
  replicate-add, Bool-cases, inl, inr, ◌==◌, ltb,
}
use perdure.Hash.{
  Words, Stream, compress, overwrite, absorb_step, absorb, absorb_parts, be_bytes, total_bytes,
  bit_length, finish, start, digest,
}
use perdure.Hash.Padding.{process, padding, reference, process_block, process_last, length-be_bytes}

record IsValid (s : Stream) : Type 0 where
  whole : length s.block ≡ 64
  room : s.filled < 64

-- What is still to be compressed, with `tail` to come.
abbrev pending : Stream → List ℕ → Words
pending s tail = process (take s.filled s.block ++ tail) s.words

copied : List ℕ → Stream → ℕ
copied input s = min (64 - s.filled) (length input)

length-overwrite :
    (block : List ℕ) (filled : ℕ) (bytes : List ℕ)
    → length block ≡ 64
    → filled + length bytes ≤ 64
    → length (overwrite block filled bytes) ≡ 64
length-overwrite block filled bytes e le = omega (
  arith,
  length-append (take filled block) (bytes ++ drop (filled + length bytes) block),
  length-append bytes (drop (filled + length bytes) block),
  length-take filled block,
  length-drop (filled + length bytes) block,
)

module _ (input : List ℕ) (s : Stream) (v : IsValid s) where
  abbrev n : ℕ
  n = min (64 - s.filled) (length input)

  length-copied : length (take n input) ≡ n
  length-copied = omega (arith, length-take n input)

  absorb_step-IsValid : IsValid (absorb_step input s)
  unfolding absorb_step
  absorb_step-IsValid =
      let whole' =
        length-overwrite s.block s.filled (take n input) v.whole
          (omega (arith, length-copied, v.room)) in
      elim (Bool-cases (s.filled + n == 64)) [
        | inl e ↦ rw e (record { whole = whole'; room = omega arith })
        | inr e ↦ rw e (record { whole = whole'; room = ground (arith, v.room) })
      ]

  abbrev joined : List ℕ
  joined = overwrite s.block s.filled (take n input)

  resplit : (tail : List ℕ) → input ++ tail ≡ take n input ++ (drop n input ++ tail)
  resplit tail =
      ap (λ l. l ++ tail) (sym (take-append-drop n input))
      ∙ append_assoc (take n input) (drop n input) tail

  absorb_full :
      s.filled + n ≡ 64
      → absorb_step input s ≡ record { words = compress joined s.words; block = joined; filled = 0 }
  unfolding absorb_step
  absorb_full e = ground arith

  absorb_part :
      s.filled + n ≢ 64
      → absorb_step input s ≡ record { words = s.words; block = joined; filled = s.filled + n }
  unfolding absorb_step
  absorb_part e = ground arith

  pending_full :
      (tail : List ℕ)
      → s.filled + n ≡ 64
      → pending s (input ++ tail) ≡ process (drop n input ++ tail) (compress joined s.words)
  pending_full tail e =
      ap (λ l. process l s.words) regroup
      ∙ process_block joined (drop n input ++ tail) s.words
          (length-overwrite s.block s.filled (take n input) v.whole (omega (arith, length-copied)))
    where
      nothing_left : drop (s.filled + length (take n input)) s.block ≡ []
      nothing_left = drop_all _ s.block (omega (arith, length-copied, v.whole))

      regroup : take s.filled s.block ++ (input ++ tail) ≡ joined ++ (drop n input ++ tail)
      regroup =
          rw nothing_left
            (simp (append-nil, append_assoc) (ap (λ l. take s.filled s.block ++ l) (resplit tail)))

  pending_part :
      (tail : List ℕ)
      → s.filled + n ≢ 64
      → pending s (input ++ tail)
        ≡ process (take (s.filled + n) joined ++ (drop n input ++ tail)) s.words
  pending_part tail e = ap (λ l. process l s.words) regroup
    where
      kept : take (s.filled + n) joined ≡ take s.filled s.block ++ take n input
      kept =
          ap (take (s.filled + n))
            (sym (append_assoc (take s.filled s.block) (take n input) (drop _ s.block)))
          ∙ take-append_exact (s.filled + n) (take s.filled s.block ++ take n input)
              (drop _ s.block)
              (omega (
                arith,
                length-append (take s.filled s.block) (take n input),
                length-take s.filled s.block,
                length-copied,
                v.whole,
                v.room,
              ))

      regroup :
          take s.filled s.block ++ (input ++ tail)
          ≡ take (s.filled + n) joined ++ (drop n input ++ tail)
      regroup =
          ap (λ l. take s.filled s.block ++ l) (resplit tail)
          ∙ sym (append_assoc (take s.filled s.block) (take n input) (drop n input ++ tail))
          ∙ ap (λ l. l ++ (drop n input ++ tail)) (sym kept)

  absorb_step-pending :
      (tail : List ℕ)
      → pending s (input ++ tail) ≡ pending (absorb_step input s) (drop n input ++ tail)
  absorb_step-pending tail = elim (Bool-cases (s.filled + n == 64)) [
    | inl e ↦ rw (absorb_full (ground arith)) (pending_full tail (ground arith))
    | inr e ↦ rw (absorb_part (ground arith)) (pending_part tail (ground arith))
  ]

  filled-absorb_step : (absorb_step input s).filled + 64 * ((s.filled + n) / 64) ≡ s.filled + n
  filled-absorb_step = elim (Bool-cases (s.filled + n == 64)) [
    | inl e ↦ rw (absorb_full (ground arith)) (ground arith)
    | inr e ↦ rw (absorb_part (ground arith)) (ground (arith, v.room))
  ]

-- What the loop does to the state, as a whole.
record Absorbs (s s' : Stream) (input : List ℕ) : Type 0 where
  valid : IsValid s'
  same : (tail : List ℕ) → pending s (input ++ tail) ≡ pending s' tail
  count : s'.filled ≡ (s.filled + length input) % 64

Absorbs-absorb :
    (fuel : ℕ) (input : List ℕ) (s : Stream)
    → IsValid s
    → length input ≤ fuel
    → Absorbs s (absorb fuel input s) input
unfolding absorb
Absorbs-absorb zero [] s v h = record {
  valid = v;
  same = λ tail. refl;
  count = omega (arith, v.room);
}
Absorbs-absorb zero (b ∷ input) s v h = absurd (omega arith)
Absorbs-absorb (suc fuel) [] s v h = record {
  valid = v;
  same = λ tail. refl;
  count = omega (arith, v.room);
}
Absorbs-absorb (suc fuel) (b ∷ input) s v h =
    let k = n (b ∷ input) s v in
    let s' = absorb_step (b ∷ input) s in
    let rest =
      Absorbs-absorb fuel (drop k (b ∷ input)) s' (absorb_step-IsValid (b ∷ input) s v)
        (omega (arith, length-drop k (b ∷ input), v.room)) in
    record {
      valid = rest.valid;
      same = λ tail. absorb_step-pending (b ∷ input) s v tail ∙ rest.same tail;
      count = omega (
        arith,
        rest.count,
        filled-absorb_step (b ∷ input) s v,
        length-drop k (b ∷ input),
        v.room,
      );
    }

Absorbs-absorb_parts :
    (parts : List (List ℕ)) (s : Stream)
    → IsValid s
    → Absorbs s (absorb_parts parts s) (concat parts)
unfolding absorb_parts
Absorbs-absorb_parts [] s v = record {
  valid = v;
  same = λ tail. refl;
  count = omega (arith, v.room);
}
Absorbs-absorb_parts (p ∷ ps) s v =
    let first = Absorbs-absorb (length p) p s v (omega arith) in
    let rest = Absorbs-absorb_parts ps (absorb (length p) p s) first.valid in
    record {
      valid = rest.valid;
      same = λ tail.
          ap (pending s) (append_assoc p (concat ps) tail)
          ∙ first.same (concat ps ++ tail)
          ∙ rest.same tail;
      count = omega (arith, first.count, rest.count, length-append p (concat ps));
    }

total_bytes-eq :
    (acc : ℕ) (parts : List (List ℕ))
    → acc < 2 ^ 64
    → total_bytes acc parts ≡ (acc + length (concat parts)) % 2 ^ 64
unfolding total_bytes
total_bytes-eq acc [] h = omega arith
total_bytes-eq acc (p ∷ ps) h = omega (
  arith,
  total_bytes-eq ((acc + length p % 2 ^ 64) % 2 ^ 64) ps (omega arith),
  length-append p (concat ps),
)

bit_length-eq : (parts : List (List ℕ)) → bit_length parts ≡ length (concat parts) * 8 % 2 ^ 64
unfolding bit_length
bit_length-eq parts = omega (arith, total_bytes-eq 0 parts (omega arith))

-- The padding that `finish` writes behind `filled` bytes.
abbrev padding_behind : ℕ → ℕ → List ℕ
padding_behind filled bits = (0x80 ∷ replicate ((119 - filled) % 64) 0) ++ be_bytes 8 bits

module _ (bits : ℕ) (s : Stream) (v : IsValid s) where
  abbrev marked : List ℕ
  marked = take s.filled s.block ++ (0x80 ∷ replicate (64 - (s.filled + 1)) 0)

  length-marked : length marked ≡ 64
  length-marked = omega (
    arith,
    length-append (take s.filled s.block) (0x80 ∷ replicate (64 - (s.filled + 1)) 0),
    length-take s.filled s.block,
    length-replicate {A = ℕ} (64 - (s.filled + 1)) 0,
    v.whole,
    v.room,
  )

  abbrev prefix : List ℕ
  prefix = take s.filled s.block

  long_padding :
      56 ≤ s.filled
      → prefix ++ padding_behind s.filled bits ≡ marked ++ (replicate 56 0 ++ be_bytes 8 bits)
  long_padding h =
      let zeros : replicate ((119 - s.filled) % 64) 0
          ≡ replicate (64 - (s.filled + 1)) 0 ++ replicate 56 0 =
        ap (λ k. replicate k 0) (omega (arith, v.room))
        ∙ replicate-add (64 - (s.filled + 1)) 56 0 in
      ap (λ l. prefix ++ (0x80 ∷ l))
        (ap (λ l. l ++ be_bytes 8 bits) zeros
          ∙ append_assoc (replicate (64 - (s.filled + 1)) 0) (replicate 56 0) (be_bytes 8 bits))
      ∙ sym (
          append_assoc prefix (0x80 ∷ replicate (64 - (s.filled + 1)) 0)
            (replicate 56 0 ++ be_bytes 8 bits))

  short_padding :
      s.filled < 56 → prefix ++ padding_behind s.filled bits ≡ take 56 marked ++ be_bytes 8 bits
  short_padding h =
      sym (append_assoc prefix (0x80 ∷ replicate ((119 - s.filled) % 64) 0) (be_bytes 8 bits))
      ∙ ap (λ l. l ++ be_bytes 8 bits) (sym kept)
    where
      behind : List ℕ
      behind = 0x80 ∷ replicate ((119 - s.filled) % 64) 0

      zeros :
          ◌≡◌ {A = List ℕ}
            (replicate (64 - (s.filled + 1)) 0)
            (replicate ((119 - s.filled) % 64) 0 ++ replicate 8 0)
      zeros =
          ap (λ k. replicate k 0) (omega (arith, v.room))
          ∙ replicate-add ((119 - s.filled) % 64) 8 0

      kept : take 56 marked ≡ prefix ++ behind
      kept =
          ap (λ l. take 56 (prefix ++ (0x80 ∷ l))) zeros
          ∙ ap (take 56) (sym (append_assoc prefix behind (replicate 8 0)))
          ∙ take-append_exact 56 (prefix ++ behind) (replicate 8 0) (
              omega (
                arith,
                length-append prefix behind,
                length-take s.filled s.block,
                length-replicate {A = ℕ} ((119 - s.filled) % 64) 0,
                v.whole,
                v.room,
              ))

  finish_long :
      56 ≤ s.filled
      → finish bits s ≡ compress (replicate 56 0 ++ be_bytes 8 bits) (compress marked s.words)
  unfolding finish
  finish_long h = ground arith

  finish_short :
      s.filled < 56 → finish bits s ≡ compress (take 56 marked ++ be_bytes 8 bits) s.words
  unfolding finish
  finish_short h = ground arith

  finish-pending : finish bits s ≡ pending s (padding_behind s.filled bits)
  finish-pending = elim (Bool-cases (ltb s.filled 56)) [
    | inl e ↦
        finish_short (ground arith)
        ∙ sym (
            ap (λ l. process l s.words) (short_padding (ground arith))
            ∙ process_last (take 56 marked ++ be_bytes 8 bits) s.words (
                omega (
                  arith,
                  length-append (take 56 marked) (be_bytes 8 bits),
                  length-take 56 marked,
                  length-marked,
                  length-be_bytes 8 bits,
                )))
    | inr e ↦
        finish_long (ground arith)
        ∙ sym (
            ap (λ l. process l s.words) (long_padding (ground arith))
            ∙ process_block marked (replicate 56 0 ++ be_bytes 8 bits) s.words length-marked
            ∙ process_last (replicate 56 0 ++ be_bytes 8 bits) (compress marked s.words) (
                omega (
                  arith,
                  length-append (replicate 56 0) (be_bytes 8 bits),
                  length-replicate {A = ℕ} 56 0,
                  length-be_bytes 8 bits,
                )))
  ]

-- Streaming the parts through one 64-byte buffer computes SHA-256 of their concatenation as the
-- standard states it, for every split into parts, empty parts included, and every length.
pub digest-eq-reference : (parts : List (List ℕ)) → digest parts ≡ reference (concat parts)
unfolding digest reference
digest-eq-reference parts =
    let v : IsValid start = record { whole = refl; room = omega arith } in
    let s = absorb_parts parts start in
    let a = Absorbs-absorb_parts parts start v in
    finish-pending (bit_length parts) s a.valid
    ∙ ap (pending s) (ap₂ padding_behind (omega (arith, a.count)) (bit_length-eq parts))
    ∙ sym (a.same (padding (length (concat parts))))
