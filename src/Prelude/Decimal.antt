-- ===== src/Prelude/Decimal.antt =====
-- Decimal numbers: `Display` of an unsigned integer, and `str::parse` without its range check.
use mathlib.Core.Path.{◌≡◌, refl, sym, ap, ◌∙◌}
use mathlib.Core.Bool.{Bool, true}
use mathlib.Core.Logic.{inl, inr}
use mathlib.Core.List.{[], ◌∷◌, ◌++◌, append_assoc, append-nil}
use mathlib.Core.Option.{Option, none, some}
use native.Mathlib.Omega.{arith}
use Prim.Native.Nat.{ℕ, zero, suc, ◌+◌, ◌-◌, ◌*◌, ◌/◌, ◌%◌, ◌<◌}
use perdure.Prelude.Tests.{ltb, if◌then◌else◌, Bool-cases}
use perdure.Prelude.Lists.{all}
use perdure.Prelude.Texts.{Text, is_digit}

-- The digits from the last to the first, on fuel.
print_digits : ℕ → ℕ → Text
print_digits zero n = []
print_digits (suc f) n =
    let earlier = print_digits f (n / 10) in
    if ltb n 10 then (48 + n) ∷ [] else earlier ++ (48 + n % 10) ∷ []

unfoldable pub print_nat : ℕ → Text
unfolding print_digits
print_nat n = print_digits (suc n) n

unfoldable pub digits_value : ℕ → Text → Option ℕ
unfolding is_digit
digits_value acc [] = some acc
digits_value acc (c ∷ s) = if is_digit c then digits_value (acc * 10 + (c - 48)) s else none

-- No digit at all is an error.
unfoldable pub parse_nat : Text → Option ℕ
unfolding digits_value
parse_nat [] = none
parse_nat (c ∷ s) = digits_value 0 (c ∷ s)

digits_value-step :
    (acc d : ℕ) (s : Text)
    → d < 10
    → digits_value acc ((48 + d) ∷ s) ≡ digits_value (acc * 10 + d) s
unfolding digits_value
digits_value-step acc d s h = let e : 48 + d - 48 ≡ d = omega arith in ground arith

digits_value-print :
    (f n : ℕ) (rest : Text)
    → n < f
    → digits_value 0 (print_digits f n ++ rest) ≡ digits_value n rest
unfolding print_digits
digits_value-print zero n rest h = absurd (omega arith)
digits_value-print (suc f) n rest h = elim (Bool-cases (ltb n 10)) [
  | inl e ↦
      rw e (digits_value-step 0 n rest (ground arith) ∙ ap (λ k. digits_value k rest) (omega arith))
  | inr e ↦ rw e (
      ap (digits_value 0) (append_assoc (print_digits f (n / 10)) ((48 + n % 10) ∷ []) rest)
      ∙ digits_value-print f (n / 10) ((48 + n % 10) ∷ rest) (ground arith)
      ∙ digits_value-step (n / 10) (n % 10) rest (omega arith)
      ∙ ap (λ k. digits_value k rest) (omega arith))
]

print_cons : (f n : ℕ) → n < f → (c : ℕ) × (s : Text) × (print_digits f n ≡ c ∷ s)
unfolding print_digits
print_cons zero n h = absurd (omega arith)
print_cons (suc f) n h = elim (Bool-cases (ltb n 10)) [
  | inl e ↦ (48 + n, [], rw e)
  | inr e ↦
      let (c, s, p) = print_cons f (n / 10) (ground arith) in
      (c, s ++ (48 + n % 10) ∷ [], rw (e, p))
]

-- What is printed is read back.
pub parse-print : (n : ℕ) → parse_nat (print_nat n) ≡ some n
unfolding parse_nat print_nat
parse-print n =
    let (c, s, p) = print_cons (suc n) n (omega arith) in
    let read : digits_value 0 (print_digits (suc n) n) ≡ some n =
      ap (digits_value 0) (sym (append-nil (print_digits (suc n) n)))
      ∙ digits_value-print (suc n) n [] (omega arith) in
    ap parse_nat p ∙ rw p at read

all-append : (p : ℕ → Bool) (s t : Text) → all p s ≡ true → all p t ≡ true → all p (s ++ t) ≡ true
all-append p [] t hs ht = ht
all-append p (c ∷ s) t hs ht = ground (arith, all-append p s t)

digits-print : (f n : ℕ) → all is_digit (print_digits f n) ≡ true
unfolding print_digits is_digit
digits-print zero n = refl
digits-print (suc f) n = elim (Bool-cases (ltb n 10)) [
  | inl e ↦ rw e (ground arith)
  | inr e ↦ rw e (
      all-append is_digit (print_digits f (n / 10)) ((48 + n % 10) ∷ []) (digits-print f (n / 10))
        (ground arith))
]

pub print-IsDigits : (n : ℕ) → all is_digit (print_nat n) ≡ true
unfolding print_nat
print-IsDigits n = digits-print (suc n) n

pub print-cons : (n : ℕ) → (c : ℕ) × (s : Text) × (print_nat n ≡ c ∷ s)
unfolding print_nat
print-cons n = print_cons (suc n) n (omega arith)
