-- ===== src/Prelude/Results.antt =====
-- Rust's `Result`, with `?` as `>>=`, and `Option`'s.
use mathlib.Core.Path.{◌≡◌, refl}
use mathlib.Core.Option.{Option, none, some}
use native.Mathlib.Omega.{arith}

pub data Result {ℓ κ} (A : Type ℓ) (E : Type κ) : Type (ℓ ⊔ κ) where
  err : E → Result A E
  ok : A → Result A E

-- `Option::ok_or_else`.
abbrev pub ok_or {ℓ κ} : {A : Type ℓ} {E : Type κ} → Option A → E → Result A E
ok_or (some a) e = ok a
ok_or none e = err e

infixl 5 ◌>>=◌
abbrev pub ◌>>=◌ {ℓ κ ν} :
    {A : Type ℓ} {B : Type κ} {E : Type ν} → Result A E → (A → Result B E) → Result B E
err e >>= next = err e
ok a >>= next = next a

pub >>=-eq-ok {ℓ κ ν} :
    {A : Type ℓ} {B : Type κ} {E : Type ν} (m : Result A E) (f : A → Result B E) {b : B}
    → (m >>= f) ≡ ok b
    → (a : A) × (m ≡ ok a) × (f a ≡ ok b)
>>=-eq-ok (err e) f h = ground arith
>>=-eq-ok (ok a) f h = (a, refl, h)

-- A step whose result is only whether it succeeds.
infixl 5 ◌>>◌
abbrev pub ◌>>◌ {κ ν} : {B : Type κ} {E : Type ν} → Result (Unit {0}) E → Result B E → Result B E
step >> rest = step >>= (λ _. rest)
