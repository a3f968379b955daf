-- ===== src/Glob/Meaning.antt =====
-- What a glob means, as a relation, and that `glob_match` decides it.
use perdure.Prelude.{
  ℕ, Text, ◌≡◌, ◌≢◌, ◌↔◌, inl, inr, refl, ap, Bool, true, [], ◌∷◌, ◌++◌, All, arith, ◌==◌,
  Bool-cases,
}
use perdure.Glob.{star, slash, any_suffix, star_loop, literal_step, m, glob_match}

abbrev pub StartsStar : Text → Type 0
StartsStar [] = ⊥
StartsStar (c ∷ _) = c ≡ star

-- `Matches p t`: the whole of `t` is an instance of the pattern `p`.
pub data Matches : Text → Text → Type 0 where
  done : Matches [] []
  literal : {c : ℕ} {p t : Text} → c ≢ star → Matches p t → Matches (c ∷ p) (c ∷ t)
  shallow :
      {c : ℕ} {p t : Text} (run rest : Text)
      → c ≡ star
      → ¬ StartsStar p
      → All (λ x. x ≢ slash) run
      → Matches p rest
      → t ≡ run ++ rest
      → Matches (c ∷ p) t
  deep :
      {c d : ℕ} {p t : Text} (run rest : Text)
      → c ≡ star
      → d ≡ star
      → Matches p rest
      → t ≡ run ++ rest
      → Matches (c ∷ d ∷ p) t

any_suffix_sound :
    (f : Text → Bool) (t : Text)
    → any_suffix f t ≡ true
    → (run : Text) × (rest : Text) × (t ≡ run ++ rest) × (f rest ≡ true)
unfolding any_suffix
any_suffix_sound f [] h = ([], [], refl, h)
any_suffix_sound f (c ∷ t) h = elim (Bool-cases (f (c ∷ t))) [
  | inl e ↦ ([], c ∷ t, refl, e)
  | inr e ↦
      let (run, rest, split, found) = any_suffix_sound f t (ground arith) in
      (c ∷ run, rest, ap (λ l. c ∷ l) split, found)
]

any_suffix_complete :
    (f : Text → Bool) (run rest : Text) → f rest ≡ true → any_suffix f (run ++ rest) ≡ true
unfolding any_suffix
any_suffix_complete f [] [] h = h
any_suffix_complete f [] (c ∷ t) h = ground arith
any_suffix_complete f (c ∷ run) rest h = ground (arith, any_suffix_complete f run rest)

star_loop_sound :
    (f : Text → Bool) (t : Text)
    → star_loop f t ≡ true
    → (run : Text) × (rest : Text) × (t ≡ run ++ rest) × All (λ x. x ≢ slash) run × (f rest ≡ true)
unfolding star_loop
star_loop_sound f [] h = ([], [], refl, tt, h)
star_loop_sound f (c ∷ t) h = elim (Bool-cases (f (c ∷ t))) [
  | inl e ↦ ([], c ∷ t, refl, tt, e)
  | inr e ↦
      let (run, rest, split, plain, found) = star_loop_sound f t (ground arith) in
      (c ∷ run, rest, ap (λ l. c ∷ l) split, (ground arith, plain), found)
]

star_loop_complete :
    (f : Text → Bool) (run rest : Text)
    → All (λ x. x ≢ slash) run
    → f rest ≡ true
    → star_loop f (run ++ rest) ≡ true
unfolding star_loop
star_loop_complete f [] [] a h = h
star_loop_complete f [] (c ∷ t) a h = ground arith
star_loop_complete f (c ∷ run) rest a h = ground (arith, star_loop_complete f run rest a.1)

module _ (c : ℕ) (p : Text) (ih : (r : Text) → m p r ≡ true → Matches p r) where
  star_sound : (t : Text) → c ≡ star → ¬ StartsStar p → star_loop (m p) t ≡ true → Matches (c ∷ p) t
  star_sound t e plain h =
      let (run, rest, split, no_slash, found) = star_loop_sound (m p) t h in
      shallow run rest e plain no_slash (ih rest found) split

  literal_sound : (t : Text) → c ≢ star → literal_step c (m p) t ≡ true → Matches (c ∷ p) t
  unfolding literal_step
  literal_sound [] ne h = absurd (ground arith)
  literal_sound (d ∷ t) ne h =
      let e : d ≡ c = ground arith in rw e (literal ne (ih t (ground arith)))

m_sound : (p t : Text) → m p t ≡ true → Matches p t
unfolding m
m_sound [] [] h = done
m_sound [] (_ ∷ _) h = absurd (ground arith)
m_sound (c ∷ []) t h = elim (Bool-cases (c == star)) [
  | inl e ↦ star_sound c [] (m_sound []) t (ground arith) (λ z. z) (ground arith)
  | inr e ↦ literal_sound c [] (m_sound []) t (ground arith) (ground arith)
]
m_sound (c ∷ d ∷ rest) t h = elim (Bool-cases (c == star)) [
  | inl e ↦ elim (Bool-cases (d == star)) [
    | inl e' ↦
        let (run, tail, split, found) = any_suffix_sound (m rest) t (ground arith) in
        deep run tail (ground arith) (ground arith) (m_sound rest tail found) split
    | inr e' ↦
        star_sound c (d ∷ rest) (m_sound (d ∷ rest)) t (ground arith) (ground arith) (ground arith)
  ]
  | inr e ↦ literal_sound c (d ∷ rest) (m_sound (d ∷ rest)) t (ground arith) (ground arith)
]

m_literal : (c : ℕ) (p t : Text) → c ≢ star → m p t ≡ true → m (c ∷ p) (c ∷ t) ≡ true
unfolding m literal_step
m_literal c [] t ne h = ground arith
m_literal c (d ∷ p) t ne h = ground arith

m_shallow :
    (c : ℕ) (p t : Text) → c ≡ star → ¬ StartsStar p → star_loop (m p) t ≡ true → m (c ∷ p) t ≡ true
unfolding m
m_shallow c [] t e plain h = ground arith
m_shallow c (d ∷ p) t e plain h = ground arith

m_complete : {p t : Text} → Matches p t → m p t ≡ true
unfolding m
m_complete done = refl
m_complete (literal {c} {p} {t} ne h) = m_literal c p t ne (m_complete h)
m_complete (shallow {c} {p} run rest e plain no_slash h split) = rw split (
    m_shallow c p (run ++ rest) e plain (star_loop_complete (m p) run rest no_slash (m_complete h)))
m_complete (deep {c} {d} {p} run rest e e' h split) =
    rw split (ground (arith, any_suffix_complete (m p) run rest (m_complete h)))

-- `glob_match` terminates on every pattern and path, and answers `true` exactly when the pattern
-- matches the whole path: `**` as any run, `*` as any run without `/`, other characters as
-- themselves.
pub glob_match_iff : (p t : Text) → (glob_match p t ≡ true) ↔ Matches p t
unfolding glob_match
glob_match_iff p t = (m_sound p t, m_complete)
