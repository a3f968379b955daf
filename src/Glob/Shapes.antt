-- ===== src/Glob/Shapes.antt =====
-- What globs of the common shapes match: a literal prefix, a literal path, `dir/**`.
use perdure.Prelude.{
  ℕ, Text, ◌≡◌, ◌≢◌, ◌↔◌, refl, sym, ap, ◌∙◌, append-nil, Bool, true, [], ◌∷◌, ◌++◌, All, arith,
  codes,
}
use perdure.Glob.{star, slash, literal_step, m, glob_match}
use perdure.Glob.Meaning.{done, deep, glob_match_iff}

-- No character of the text is `*`.
abbrev pub IsLiteral : Text → Type 0
IsLiteral = All (λ c. c ≢ star)

literal_step_sound :
    (c : ℕ) (f : Text → Bool) (t : Text)
    → literal_step c f t ≡ true
    → (rest : Text) × (t ≡ c ∷ rest) × (f rest ≡ true)
unfolding literal_step
literal_step_sound c f [] h = absurd (ground arith)
literal_step_sound c f (d ∷ t) h = (t, ground arith, ground arith)

m-literal : (c : ℕ) (p t : Text) → c ≢ star → m (c ∷ p) t ≡ literal_step c (m p) t
unfolding m
m-literal c [] t ne = ground arith
m-literal c (d ∷ p) t ne = ground arith

glob_prefix_sound :
    (d q t : Text)
    → IsLiteral d
    → glob_match (d ++ q) t ≡ true
    → (rest : Text) × (t ≡ d ++ rest) × (glob_match q rest ≡ true)
unfolding glob_match
glob_prefix_sound [] q t l h = (t, refl, h)
glob_prefix_sound (c ∷ d) q t l h =
    let (rest, split, found) =
      literal_step_sound c (m (d ++ q)) t (rw (m-literal c (d ++ q) t l.0) at h) in
    let (rest', split', found') = glob_prefix_sound d q rest l.1 found in
    (rest', split ∙ ap (λ l. c ∷ l) split', found')

glob_prefix_complete :
    (d q rest : Text)
    → IsLiteral d
    → glob_match q rest ≡ true
    → glob_match (d ++ q) (d ++ rest) ≡ true
unfolding glob_match literal_step
glob_prefix_complete [] q rest l h = h
glob_prefix_complete (c ∷ d) q rest l h =
    rw (m-literal c (d ++ q) (c ∷ (d ++ rest)) l.0)
      (ground (arith, glob_prefix_complete d q rest l.1 h))

-- A pattern that begins with a literal text matches exactly the paths that begin with that text
-- and whose remainder the rest of the pattern matches.
pub glob_prefix_iff :
    (d q t : Text)
    → IsLiteral d
    → (glob_match (d ++ q) t ≡ true)
      ↔ ((rest : Text) × (t ≡ d ++ rest) × (glob_match q rest ≡ true))
glob_prefix_iff d q t l =
    (glob_prefix_sound d q t l, λ (rest, split, h). rw split (glob_prefix_complete d q rest l h))

empty_glob : (t : Text) → glob_match [] t ≡ true → t ≡ []
unfolding glob_match m
empty_glob [] h = refl
empty_glob (c ∷ t) h = absurd (ground arith)

-- A pattern without `*` matches itself and nothing else.
pub glob_literal_iff : (p t : Text) → IsLiteral p → (glob_match p t ≡ true) ↔ (t ≡ p)
glob_literal_iff p t l = (literal_sound, literal_complete)
  where
    literal_sound : glob_match p t ≡ true → t ≡ p
    literal_sound h =
        let (rest, split, e) = glob_prefix_sound p [] t l (rw (append-nil p) h) in
        split ∙ ap (λ z. p ++ z) (empty_glob rest e) ∙ append-nil p

    literal_complete : t ≡ p → glob_match p t ≡ true
    literal_complete e =
        let h : glob_match (p ++ []) (p ++ []) ≡ true =
          glob_prefix_complete p [] [] l ((glob_match_iff [] []).1 done) in
        rw (e, ← append-nil p) h

pub deep_glob : (t : Text) → glob_match (star ∷ star ∷ []) t ≡ true
deep_glob t =
    (glob_match_iff (star ∷ star ∷ []) t).1 (deep t [] refl refl done (sym (append-nil t)))

-- The scope `dir/**`, for a literal `dir`, is the paths that begin with `dir/`, and no other: a
-- sibling `dir2/x`, the directory `dir` itself and a path elsewhere are outside.
pub dir_scope_iff :
    (dir t : Text)
    → IsLiteral dir
    → (glob_match (dir ++ codes "/**") t ≡ true) ↔ ((rest : Text) × (t ≡ dir ++ slash ∷ rest))
dir_scope_iff dir t l = (inside, outside)
  where
    inside : glob_match (dir ++ codes "/**") t ≡ true → (rest : Text) × (t ≡ dir ++ slash ∷ rest)
    inside h =
        let (tail, split, e) = glob_prefix_sound dir (codes "/**") t l h in
        let (rest, split', _) =
          glob_prefix_sound (slash ∷ []) (star ∷ star ∷ []) tail (omega arith, tt) e in
        (rest, split ∙ ap (λ z. dir ++ z) split')

    outside : (rest : Text) × (t ≡ dir ++ slash ∷ rest) → glob_match (dir ++ codes "/**") t ≡ true
    outside (rest, split) = rw split (
        glob_prefix_complete dir (codes "/**") (slash ∷ rest) l (
          glob_prefix_complete (slash ∷ []) (star ∷ star ∷ []) rest (omega arith, tt)
            (deep_glob rest)))
