-- ===== src/Patch/Impact.antt =====
-- src/patch.rs: the functions that a test can reach in the call graph, and the tests that a change can
-- affect. A set of names is a list of them.
pub mod Closure
use perdure.Prelude.{
  ℕ, zero, suc, ◌+◌, ◌≤◌, ◌≡◌, ◌↔◌, refl, sym, ap, ◌∙◌, subst, arith, Text, Bool, true, false, not,
  ◌&&◌, ◌||◌, Option, none, some, List, [], ◌∷◌, ◌++◌, text_eq, text_eq_sound, text_eq_refl,
  contains, length, any, if◌then◌else◌, Bool-cases, inl, inr, ◌⊎◌, ||-true,
}
use perdure.Prelude.Map
use perdure.Prelude.Map.{Map}

abbrev pub Graph : Type 0
Graph = Map (List Text)

unfoldable pub callees : Option (List Text) → List Text
callees none = []
callees (some cs) = cs

-- The callees that were not seen, on the stack, whose top is its head.
unfoldable pub push_new : List Text → List Text → List Text → List Text
push_new seen [] stack = stack
push_new seen (c ∷ cs) stack = push_new seen cs (if contains seen c then stack else c ∷ stack)

abbrev Loop : Type 0
Loop = List Text → List Text → List Text

-- `seen.insert(n)`: `true` where `n` was there.
unfoldable pub expand : Bool → Loop → Graph → Text → Loop
unfolding push_new callees
expand true go g n seen stack = go seen stack
expand false go g n seen stack =
    go (n ∷ seen) (push_new (n ∷ seen) (callees (Map.lookup n g)) stack)

-- The loop, on fuel.
unfoldable pub visit : ℕ → Graph → Loop
unfolding expand
visit zero g seen stack = seen
visit (suc fuel) g seen [] = seen
visit (suc fuel) g seen (n ∷ stack) = expand (contains seen n) (visit fuel g) g n seen stack

unfoldable pub edges : Graph → ℕ
edges [] = 0
edges ((n, cs) ∷ g) = length cs + edges g

unfoldable pub rev : List Text → List Text → List Text
rev [] out = out
rev (x ∷ xs) out = rev xs (x ∷ out)

unfoldable pub reachable : Graph → List Text → List Text
unfolding visit edges rev
reachable g seeds = visit (length seeds + edges g) g [] (rev seeds [])

-- The tests, each with the functions that it calls, of which some lead to a changed one.
unfoldable pub impacted_tests : Graph → List (Text × List Text) → List Text → List Text
unfolding reachable
impacted_tests g [] changed = []
impacted_tests g ((t, seeds) ∷ tests) changed =
    let later = impacted_tests g tests changed in
    if any (contains changed) (reachable g seeds) then t ∷ later else later

-- The calls that lead from a seed to a function.
pub data Reaches (g : Graph) (seeds : List Text) : Text → Type 0 where
  seed : {x : Text} → contains seeds x ≡ true → Reaches g seeds x
  call :
      {x : Text} (y : Text)
      → Reaches g seeds x
      → contains (callees (Map.lookup x g)) y ≡ true
      → Reaches g seeds y

contains_same : (l : List Text) (a b : Text) → text_eq a b ≡ true → contains l a ≡ contains l b
contains_same l a b e = ap (contains l) (text_eq_sound a b e)

pub contains-push :
    (seen cs stack : List Text) (y : Text)
    → contains (push_new seen cs stack) y
      ≡ (contains stack y || (contains cs y && not (contains seen y)))
unfolding push_new contains
contains-push seen [] stack y = ground arith
contains-push seen (c ∷ cs) stack y = elim (Bool-cases (contains seen c)) [
  | inl e ↦ rw e (ground (arith, contains-push seen cs stack y, contains_same seen c y))
  | inr e ↦ rw e (ground (arith, contains-push seen cs (c ∷ stack) y, contains_same seen c y))
]

pub length-push :
    (seen cs stack : List Text) → length (push_new seen cs stack) ≤ length stack + length cs
unfolding push_new
length-push seen [] stack = omega arith
length-push seen (c ∷ cs) stack = elim (Bool-cases (contains seen c)) [
  | inl e ↦ rw e (omega (arith, length-push seen cs stack))
  | inr e ↦ rw e (omega (arith, length-push seen cs (c ∷ stack)))
]

pub contains-rev :
    (xs out : List Text) (y : Text) → contains (rev xs out) y ≡ (contains xs y || contains out y)
unfolding rev contains
contains-rev [] out y = refl
contains-rev (x ∷ xs) out y = ground (arith, contains-rev xs (x ∷ out) y)

pub length-rev : (xs out : List Text) → length (rev xs out) ≡ length xs + length out
unfolding rev
length-rev [] out = omega arith
length-rev (x ∷ xs) out = omega (arith, length-rev xs (x ∷ out))

-- The calls of the functions that were not seen.
unfoldable pub pending : List Text → Graph → ℕ
pending seen [] = 0
pending seen ((n, cs) ∷ g) = (if contains seen n then 0 else length cs) + pending seen g

pub pending_nil : (g : Graph) → pending [] g ≡ edges g
unfolding pending edges contains
pending_nil [] = refl
pending_nil ((n, cs) ∷ g) = omega (arith, pending_nil g)

pending-le : (n : Text) (seen : List Text) (g : Graph) → pending (n ∷ seen) g ≤ pending seen g
unfolding pending contains
pending-le n seen [] = omega arith
pending-le n seen ((m, cs) ∷ g) = ground (arith, pending-le n seen g)

pub pending-drop :
    (n : Text) (seen : List Text) (g : Graph)
    → contains seen n ≡ false
    → pending (n ∷ seen) g + length (callees (Map.lookup n g)) ≤ pending seen g
unfolding pending contains callees Map.lookup
pending-drop n seen [] h = omega arith
pending-drop n seen ((m, cs) ∷ g) h = elim (Bool-cases (text_eq m n)) [
  | inl e ↦
      let same = text_eq_sound m n e in
      let unseen : contains seen m ≡ false = ap (contains seen) same ∙ h in
      let now : text_eq n m ≡ true = subst (λ k. text_eq k m ≡ true) same (text_eq_refl m) in
      rw (e, unseen, now) (omega (arith, pending-le n seen g))
  | inr e ↦ rw e (ground (arith, pending-drop n seen g h))
]
