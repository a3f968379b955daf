-- ===== src/Prelude/Map.antt =====
-- `BTreeMap<String, V>`: the entries in the order of their keys, which iteration follows.
use mathlib.Core.Path.{◌≡◌, refl, subst}
use mathlib.Core.Bool.{Bool, true, false}
use mathlib.Core.List.{List, [], ◌∷◌}
use mathlib.Core.Option.{Option, none, some}
use native.Mathlib.Omega.{arith}
use mathlib.Core.Logic.{inl, inr}
use perdure.Prelude.Tests.{if◌then◌else◌, Bool-cases}
use perdure.Prelude.TextOrder.{text_ltb_irrefl, text_ltb_trans, text_ltb-total}
use perdure.Prelude.Texts.{Text, text_eq, text_eq_iff, text_eq_sound, text_ltb}

abbrev pub Map {ℓ} : Type ℓ → Type ℓ
Map V = List (Text × V)

module _ {ℓ} {V : Type ℓ} where
  unfoldable pub lookup : Text → Map V → Option V
  lookup k [] = none
  lookup k ((j, v) ∷ m) = if text_eq j k then some v else lookup k m

  unfoldable pub insert : Text → V → Map V → Map V
  insert k v [] = (k, v) ∷ []
  insert k v ((j, w) ∷ m) =
      let rest = insert k v m in
      if text_eq j k
      then (k, v) ∷ m
      else if text_ltb k j
      then (k, v) ∷ (j, w) ∷ m
      else (j, w) ∷ rest

  unfoldable pub keys : Map V → List Text
  keys [] = []
  keys ((k, v) ∷ m) = k ∷ keys m

  unfoldable pub contains_key : Text → Map V → Bool
  contains_key k [] = false
  contains_key k ((j, v) ∷ m) = if text_eq j k then true else contains_key k m

  pub lookup-insert :
      (k j : Text) (v : V) (m : Map V)
      → lookup j (insert k v m) ≡ (if text_eq k j then some v else lookup j m)
  unfolding lookup insert
  lookup-insert k j v [] = refl
  lookup-insert k j v ((i, w) ∷ m) =
      ground (arith, text_eq_iff k j, text_eq_iff i k, text_eq_iff i j, lookup-insert k j v m)

  pub contains_key-eq : (k : Text) (m : Map V) → lookup k m ≡ none → contains_key k m ≡ false
  unfolding lookup contains_key
  contains_key-eq k [] h = refl
  contains_key-eq k ((j, v) ∷ m) h = ground (arith, contains_key-eq k m)

  pub contains_key-some :
      (k : Text) (m : Map V) (v : V) → lookup k m ≡ some v → contains_key k m ≡ true
  unfolding lookup contains_key
  contains_key-some k [] v h = ground arith
  contains_key-some k ((j, w) ∷ m) v h = ground (arith, contains_key-some k m v)

  -- Every key of the map stands above `k`.
  unfoldable pub Above : Text → Map V → Type 0
  Above k [] = Unit
  Above k ((j, v) ∷ m) = (text_ltb k j ≡ true) × Above k m

  -- The keys are strictly increasing, which makes them distinct.
  unfoldable pub IsSorted : Map V → Type 0
  unfolding Above
  IsSorted [] = Unit
  IsSorted ((k, v) ∷ m) = Above k m × IsSorted m

  pub lookup-Above : (k : Text) (m : Map V) → Above k m → lookup k m ≡ none
  unfolding Above lookup
  lookup-Above k [] h = refl
  lookup-Above k ((j, v) ∷ m) h =
      ground (arith, text_eq_iff j k, text_ltb_irrefl k, lookup-Above k m h.1)

  Above-insert :
      (k j : Text) (v : V) (m : Map V) → text_ltb k j ≡ true → Above k m → Above k (insert j v m)
  unfolding Above insert
  Above-insert k j v [] h a = (h, tt)
  Above-insert k j v ((i, w) ∷ m) h a = elim (Bool-cases (text_eq i j)) [
    | inl e ↦ rw e (h, a.1)
    | inr e ↦ elim (Bool-cases (text_ltb j i)) [
      | inl l ↦ rw (e, l) (h, a)
      | inr l ↦ rw (e, l) (a.0, Above-insert k j v m h a.1)
    ]
  ]

  Above-trans : (k j : Text) (m : Map V) → text_ltb k j ≡ true → Above j m → Above k m
  unfolding Above
  Above-trans k j [] h a = tt
  Above-trans k j ((i, w) ∷ m) h a = (text_ltb_trans k j i h a.0, Above-trans k j m h a.1)

  pub insert-IsSorted : (k : Text) (v : V) (m : Map V) → IsSorted m → IsSorted (insert k v m)
  unfolding IsSorted insert Above
  insert-IsSorted k v [] h = (tt, tt)
  insert-IsSorted k v ((j, w) ∷ m) h = elim (Bool-cases (text_eq j k)) [
    | inl e ↦ rw e (subst (λ i. Above i m) (text_eq_sound j k e) h.0, h.1)
    | inr e ↦ elim (Bool-cases (text_ltb k j)) [
      | inl l ↦ rw (e, l) ((l, Above-trans k j m l h.0), h)
      | inr l ↦
          let up : text_ltb j k ≡ true = ground (arith, text_ltb-total k j, text_eq_iff j k) in
          rw (e, l) (Above-insert j k v m up h.0, insert-IsSorted k v m h.1)
    ]
  ]

  pub contains_key_lem :
      (k : Text) (m : Map V)
      → contains_key k m ≡ (elim (lookup k m) [ none ↦ false | some _ ↦ true ])
  unfolding lookup contains_key
  contains_key_lem k [] = refl
  contains_key_lem k ((j, v) ∷ m) = elim (Bool-cases (text_eq j k)) [
    | inl e ↦ rw e refl
    | inr e ↦ rw e (contains_key_lem k m)
  ]
