-- ===== src/Goal/Budget.antt =====
-- The wall-clock budget: what a written duration comes to.
use mathlib.Core.List.{reverse, reverse-append, reverse-reverse}
use perdure.Prelude.{
  ℕ, ◌*◌, ◌^◌, ◌≡◌, refl, ap, ◌∙◌, sym, Text, [], ◌∷◌, ◌++◌, some, none, ltb, if◌then◌else◌, arith,
  ◌&&◌, true, false, ◌==◌, strip_last, trim, trim_start, is_whitespace, all, is_digit,
}
use perdure.Prelude.Decimal.{print_nat, parse_nat, parse-print, print-IsDigits, print-cons}
use perdure.Goal.{
  GoalSpec, time_budget_ms, duration_ms, duration_of, time_of, unit_of, fits_u64, parse_u64,
  checked_mul,
}

pub data Scale : Type 0 where
  hours minutes seconds : Scale

abbrev pub letter : Scale → ℕ
letter hours = b'h'
letter minutes = b'm'
letter seconds = b's'

abbrev pub scale_ms : Scale → ℕ
scale_ms hours = 3_600_000
scale_ms minutes = 60_000
scale_ms seconds = 1_000

strip_last-append :
    (c x : ℕ) (s : Text) → strip_last c (s ++ x ∷ []) ≡ (if x == c then some s else none)
unfolding strip_last
strip_last-append c x [] = refl
strip_last-append c x (y ∷ []) = ground arith
strip_last-append c x (y ∷ z ∷ s) = rw (strip_last-append c x (z ∷ s)) (ground arith)

trim_start-cons : (c : ℕ) (s : Text) → is_whitespace c ≡ false → trim_start (c ∷ s) ≡ c ∷ s
unfolding trim_start
trim_start-cons c s h = rw h

digit-not-space : (c : ℕ) → is_digit c ≡ true → is_whitespace c ≡ false
unfolding is_digit is_whitespace
digit-not-space c h = ground arith

digit-not-plus : (c : ℕ) → is_digit c ≡ true → (c == b'+') ≡ false
unfolding is_digit
digit-not-plus c h = ground arith

-- A text that neither begins nor ends with white space.
trim-id :
    (c x : ℕ) (s t : Text)
    → c ∷ s ≡ t ++ x ∷ []
    → is_whitespace c ≡ false
    → is_whitespace x ≡ false
    → trim (c ∷ s) ≡ c ∷ s
unfolding trim
trim-id c x s t split hc hx =
    ap (λ z. reverse (trim_start (reverse z))) (trim_start-cons c s hc)
    ∙ ap (λ z. reverse (trim_start (reverse z))) split
    ∙ ap (λ z. reverse (trim_start z)) (reverse-append t (x ∷ []))
    ∙ ap reverse (trim_start-cons x (reverse t) hx)
    ∙ ap reverse (sym (reverse-append t (x ∷ [])))
    ∙ reverse-reverse (t ++ x ∷ [])
    ∙ sym split

snoc :
    (c : ℕ) (s : Text)
    → all is_digit (c ∷ s) ≡ true
    → (t : Text) × (x : ℕ) × (c ∷ s ≡ t ++ x ∷ []) × (is_digit x ≡ true)
snoc c [] h = ([], c, refl, ground arith)
snoc c (d ∷ s) h =
    let (t, x, split, digit) = snoc d s (ground arith) in (c ∷ t, x, ap (λ z. c ∷ z) split, digit)

trim-print : (n : ℕ) → trim (print_nat n) ≡ print_nat n
trim-print n =
    let (c, s, e) = print-cons n in
    let digits : all is_digit (c ∷ s) ≡ true = rw e at (print-IsDigits n) in
    let (t, x, split, digit) = snoc c s digits in
    rw e (trim-id c x s t split (digit-not-space c (ground arith)) (digit-not-space x digit))

trim-written :
    (n x : ℕ) → is_whitespace x ≡ false → trim (print_nat n ++ x ∷ []) ≡ print_nat n ++ x ∷ []
trim-written n x hx =
    let (c, s, e) = print-cons n in
    let digits : all is_digit (c ∷ s) ≡ true = rw e at (print-IsDigits n) in
    rw e (trim-id c x (s ++ x ∷ []) (c ∷ s) refl (digit-not-space c (ground arith)) hx)

letter-not-space : (u : Scale) → is_whitespace (letter u) ≡ false
unfolding is_whitespace
letter-not-space hours = refl
letter-not-space minutes = refl
letter-not-space seconds = refl

unit_of-written : (s : Text) (u : Scale) → unit_of (s ++ letter u ∷ []) ≡ some (s, scale_ms u)
unfolding unit_of
unit_of-written s hours = rw (strip_last-append b'h' b'h' s, unit_of)
unit_of-written s minutes =
    rw (strip_last-append b'h' b'm' s, strip_last-append b'm' b'm' s, unit_of)
unit_of-written s seconds = rw (
  strip_last-append b'h' b's' s,
  strip_last-append b'm' b's' s,
  strip_last-append b's' b's' s,
  unit_of,
)

parse_u64-print : (n : ℕ) → parse_u64 (print_nat n) ≡ fits_u64 (some n)
unfolding parse_u64
parse_u64-print n =
    let (c, s, e) = print-cons n in
    let digits : all is_digit (c ∷ s) ≡ true = rw e at (print-IsDigits n) in
    let plain : (c == b'+') ≡ false = digit-not-plus c (ground arith) in
    let read : parse_nat (c ∷ s) ≡ some n = rw e at (parse-print n) in rw (e, plain, read)

checked_mul-fits :
    (n unit : ℕ)
    → checked_mul (fits_u64 (some n)) unit
      ≡ (if ltb n (2 ^ 64) && ltb (n * unit) (2 ^ 64) then some (n * unit) else none)
unfolding checked_mul fits_u64
checked_mul-fits n unit = ground arith

duration_ms-written :
    (n : ℕ) (u : Scale)
    → duration_ms (print_nat n ++ letter u ∷ [])
      ≡ (if ltb n (2 ^ 64) && ltb (n * scale_ms u) (2 ^ 64) then some (n * scale_ms u) else none)
unfolding duration_ms duration_of
duration_ms-written n u =
    rw
      (
        trim-written n (letter u) (letter-not-space u),
        unit_of-written (print_nat n) u,
        trim-print n,
        parse_u64-print n,
      )
      (checked_mul-fits n (scale_ms u))

-- A budget that is written as a number and `h`, `m` or `s` comes to that many milliseconds where
-- both the number and the product fit in 64 bits; where one does not, there is no time budget.
pub time_budget_written :
    (spec : GoalSpec) (n : ℕ) (u : Scale)
    → spec.budget.time ≡ some (print_nat n ++ letter u ∷ [])
    → time_budget_ms spec
      ≡ (if ltb n (2 ^ 64) && ltb (n * scale_ms u) (2 ^ 64) then some (n * scale_ms u) else none)
time_budget_written spec n u h = unfold time_budget_ms in ap time_of h ∙ duration_ms-written n u
