-- ===== src/Prelude/TextOrder.antt =====
-- The order of texts is total, and an insertion sort by key.
use mathlib.Core.Path.{◌≡◌, refl, ap, ◌∙◌}
use mathlib.Core.Bool.{true, false, ◌||◌}
use mathlib.Core.Logic.{◌≢◌}
use mathlib.Core.List.{List, [], ◌∷◌, ◌++◌}
use native.Mathlib.Omega.{arith}
use perdure.Prelude.Tests.{if◌then◌else◌}
use perdure.Prelude.Texts.{Text, text_ltb, text_eq, text_eq_iff, contains}

pub text_ltb_irrefl : (a : Text) → text_ltb a a ≡ false
unfolding text_ltb
text_ltb_irrefl [] = refl
text_ltb_irrefl (x ∷ xs) = ground (arith, text_ltb_irrefl xs)

pub text_ltb-asym : (a b : Text) → text_ltb a b ≡ true → text_ltb b a ≡ false
unfolding text_ltb
text_ltb-asym [] [] h = ground arith
text_ltb-asym [] (_ ∷ _) h = refl
text_ltb-asym (_ ∷ _) [] h = ground arith
text_ltb-asym (x ∷ xs) (y ∷ ys) h = ground (arith, text_ltb-asym xs ys)

pub text_ltb_trans :
    (a b c : Text) → text_ltb a b ≡ true → text_ltb b c ≡ true → text_ltb a c ≡ true
unfolding text_ltb
text_ltb_trans [] [] c h k = ground arith
text_ltb_trans [] (_ ∷ _) [] h k = ground arith
text_ltb_trans [] (_ ∷ _) (_ ∷ _) h k = refl
text_ltb_trans (_ ∷ _) [] c h k = ground arith
text_ltb_trans (_ ∷ _) (_ ∷ _) [] h k = ground arith
text_ltb_trans (x ∷ xs) (y ∷ ys) (z ∷ zs) h k = ground (arith, text_ltb_trans xs ys zs)

pub text_ltb-total : (a b : Text) → text_ltb a b ≡ false → text_ltb b a ≡ false → a ≡ b
unfolding text_ltb
text_ltb-total [] [] h k = refl
text_ltb-total [] (_ ∷ _) h k = ground arith
text_ltb-total (_ ∷ _) [] h k = ground arith
text_ltb-total (x ∷ xs) (y ∷ ys) h k = ground (arith, text_ltb-total xs ys)

module _ {ℓ} {V : Type ℓ} where
  -- `keys.sort()`, with what stands at each key.
  unfoldable pub insert_entry : Text × V → List (Text × V) → List (Text × V)
  insert_entry e [] = e ∷ []
  insert_entry e (x ∷ xs) =
      let later = insert_entry e xs in if text_ltb x.0 e.0 then x ∷ later else e ∷ x ∷ xs

  unfoldable pub sort_entries : List (Text × V) → List (Text × V)
  unfolding insert_entry
  sort_entries [] = []
  sort_entries (e ∷ es) = insert_entry e (sort_entries es)

  pub insert_entry_comm :
      (a b : Text × V) (l : List (Text × V))
      → a.0 ≢ b.0
      → insert_entry a (insert_entry b l) ≡ insert_entry b (insert_entry a l)
  unfolding insert_entry
  insert_entry_comm a b [] ne =
      ground (arith, text_ltb-asym a.0 b.0, text_ltb-asym b.0 a.0, text_ltb-total a.0 b.0)
  insert_entry_comm a b (x ∷ l) ne = ground (
    arith,
    insert_entry_comm a b l ne,
    text_ltb-asym a.0 b.0,
    text_ltb-total a.0 b.0,
    text_ltb_trans x.0 a.0 b.0,
    text_ltb_trans x.0 b.0 a.0,
  )

  -- The same entries in another order, each key once: neighbours with different keys change places.
  pub data Reorder : List (Text × V) → List (Text × V) → Type ℓ where
    done : Reorder [] []
    keep : (e : Text × V) {xs ys : List (Text × V)} → Reorder xs ys → Reorder (e ∷ xs) (e ∷ ys)
    swap : (a b : Text × V) (xs : List (Text × V)) → a.0 ≢ b.0 → Reorder (a ∷ b ∷ xs) (b ∷ a ∷ xs)
    chain : {xs ys zs : List (Text × V)} → Reorder xs ys → Reorder ys zs → Reorder xs zs

  pub sort_entries-Reorder :
      {xs ys : List (Text × V)} → Reorder xs ys → sort_entries xs ≡ sort_entries ys
  unfolding sort_entries
  sort_entries-Reorder done = refl
  sort_entries-Reorder (keep e r) = ap (insert_entry e) (sort_entries-Reorder r)
  sort_entries-Reorder (swap a b xs ne) = insert_entry_comm a b (sort_entries xs) ne
  sort_entries-Reorder (chain r s) = sort_entries-Reorder r ∙ sort_entries-Reorder s

-- `sort` and `dedup` of a vector of texts.
unfoldable pub insert_text : Text → List Text → List Text
insert_text a [] = a ∷ []
insert_text a (x ∷ xs) =
    let later = insert_text a xs in if text_ltb x a then x ∷ later else a ∷ x ∷ xs

unfoldable pub sort_texts : List Text → List Text
unfolding insert_text
sort_texts [] = []
sort_texts (a ∷ rest) = insert_text a (sort_texts rest)

unfoldable pub dedup : List Text → List Text
dedup [] = []
dedup (a ∷ []) = a ∷ []
dedup (a ∷ b ∷ rest) = let later = dedup (b ∷ rest) in if text_eq a b then later else a ∷ later

pub contains-append :
    (xs ys : List Text) (p : Text) → contains (xs ++ ys) p ≡ (contains xs p || contains ys p)
unfolding contains
contains-append [] ys p = refl
contains-append (x ∷ xs) ys p = ground (arith, contains-append xs ys p)

contains-insert_text :
    (a : Text) (xs : List Text) (p : Text)
    → contains (insert_text a xs) p ≡ (text_eq a p || contains xs p)
unfolding insert_text contains
contains-insert_text a [] p = refl
contains-insert_text a (x ∷ xs) p = ground (arith, contains-insert_text a xs p)

pub contains-sort_texts : (xs : List Text) (p : Text) → contains (sort_texts xs) p ≡ contains xs p
unfolding sort_texts contains
contains-sort_texts [] p = refl
contains-sort_texts (x ∷ xs) p =
    contains-insert_text x (sort_texts xs) p ∙ ap (λ b. text_eq x p || b) (contains-sort_texts xs p)

pub contains-dedup : (xs : List Text) (p : Text) → contains (dedup xs) p ≡ contains xs p
unfolding dedup contains
contains-dedup [] p = refl
contains-dedup (a ∷ []) p = refl
contains-dedup (a ∷ b ∷ rest) p =
    ground (arith, contains-dedup (b ∷ rest) p, text_eq_iff a b, text_eq_iff a p, text_eq_iff b p)
