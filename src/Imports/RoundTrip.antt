-- ===== src/Imports/RoundTrip.antt =====
-- src/program.rs: the canonical spelling of an import resolves to the file that it was made for.
use perdure.Prelude.{
  ℕ, zero, suc, ◌-◌, ◌≡◌, refl, sym, ap, ap₂, ◌∙◌, subst, arith, ◌==◌, Text, true, false, ◌||◌,
  List, [], ◌∷◌, ◌++◌, append_assoc, append-nil, codes, ok, text_eq, text_eq_sound, has_char, join,
  replicate, drop, take, take-append-drop, length, length-drop, All, Bool-cases, inl, inr,
}
use perdure.Imports.{
  slash, forward, onto_first, split, init, last, dir_of, is_absolute, rev_onto, pop, on_segment,
  is_here, is_up, walk, refuse_absolute, normalize_import, common, parts_of, spelled,
  relative_import_path,
}

-- A segment that names something: it is neither empty nor `.` nor `..`, and has no
-- backslash.
unfoldable pub Plain : Text → Type 0
Plain seg = (is_here seg ≡ false) × (is_up seg ≡ false) × (has_char 92 seg ≡ false)

NoSlash : Text → Type 0
NoSlash seg = has_char slash seg ≡ false

onto_first-NoSlash :
    (c : ℕ) (segs : List Text)
    → (c == slash) ≡ false
    → All NoSlash segs
    → All NoSlash (onto_first c segs)
unfolding onto_first NoSlash has_char
onto_first-NoSlash c [] n h = (rw n refl, tt)
onto_first-NoSlash c (seg ∷ segs) n h = (rw n h.0, h.1)

split-NoSlash : (s : Text) → All NoSlash (split s)
unfolding split
split-NoSlash [] = unfold NoSlash has_char in (refl, tt)
split-NoSlash (c ∷ s) = elim (Bool-cases (c == slash)) [
  | inl e ↦ rw e (split_empty, split-NoSlash s)
  | inr e ↦ rw e (onto_first-NoSlash c (split s) e (split-NoSlash s))
]
  where
    split_empty : NoSlash []
    split_empty = unfold NoSlash has_char in refl

join-onto_first :
    (c : ℕ) (segs : List Text) → join (slash ∷ []) (onto_first c segs) ≡ c ∷ join (slash ∷ []) segs
unfolding onto_first join
join-onto_first c [] = refl
join-onto_first c (x ∷ []) = refl
join-onto_first c (x ∷ y ∷ segs) = refl

split_cons : (s : Text) → (x : Text) × (xs : List Text) × (split s ≡ x ∷ xs)
unfolding split onto_first
split_cons [] = ([], [], refl)
split_cons (c ∷ s) = elim (Bool-cases (c == slash)) [
  | inl e ↦ ([], split s, rw e refl)
  | inr e ↦ let (x, xs, same) = split_cons s in (c ∷ x, xs, rw (e, same) refl)
]

join-split : (s : Text) → join (slash ∷ []) (split s) ≡ s
unfolding split
join-split [] = unfold join in refl
join-split (c ∷ s) = elim (Bool-cases (c == slash)) [
  | inl e ↦
      let same : c ≡ slash = ground arith in
      let (x, xs, cons) = split_cons s in
      rw e (join_empty (split s) x xs cons ∙ ap₂ (λ a b. a ∷ b) (sym same) (join-split s))
  | inr e ↦ rw e (join-onto_first c (split s) ∙ ap (λ t. c ∷ t) (join-split s))
]
  where
    join_empty :
        (segs : List Text) (x : Text) (xs : List Text)
        → segs ≡ x ∷ xs
        → join (slash ∷ []) ([] ∷ segs) ≡ slash ∷ join (slash ∷ []) segs
    join_empty segs x xs e = rw e (unfold join in refl)

split-append : (x rest : Text) → NoSlash x → split (x ++ slash ∷ rest) ≡ x ∷ split rest
unfolding split NoSlash has_char onto_first
split-append [] rest n = refl
split-append (c ∷ x) rest n =
    let here : (c == slash) ≡ false = ground arith in
    rw (here, split-append x rest (ground arith)) refl

split_one : (x : Text) → NoSlash x → split x ≡ x ∷ []
unfolding split NoSlash has_char onto_first
split_one [] n = refl
split_one (c ∷ x) n =
    let here : (c == slash) ≡ false = ground arith in rw (here, split_one x (ground arith)) refl

split-join :
    (x : Text) (xs : List Text) → All NoSlash (x ∷ xs) → split (join (slash ∷ []) (x ∷ xs)) ≡ x ∷ xs
unfolding join
split-join x [] h = split_one x h.0
split-join x (y ∷ xs) h =
    split-append x (join (slash ∷ []) (y ∷ xs)) h.0 ∙ ap (λ l. x ∷ l) (split-join y xs h.1)

init-last : (x : Text) (xs : List Text) → init (x ∷ xs) ++ last (x ∷ xs) ∷ [] ≡ x ∷ xs
unfolding init last
init-last x [] = refl
init-last x (y ∷ xs) = ap (λ l. x ∷ l) (init-last y xs)

-- The stack.
rev_onto-append : (xs ys s : List Text) → rev_onto (xs ++ ys) s ≡ rev_onto ys (rev_onto xs s)
unfolding rev_onto
rev_onto-append [] ys s = refl
rev_onto-append (x ∷ xs) ys s = rev_onto-append xs ys (x ∷ s)

rev_onto_twice :
    (xs acc out : List Text) → rev_onto (rev_onto xs acc) out ≡ rev_onto acc (xs ++ out)
unfolding rev_onto
rev_onto_twice [] acc out = refl
rev_onto_twice (x ∷ xs) acc out = rev_onto_twice xs (x ∷ acc) out

walk-Plain :
    (segs stack : List Text)
    → All Plain segs
    → walk segs stack ≡ ok (join (slash ∷ []) (rev_onto (rev_onto segs stack) []))
unfolding walk Plain on_segment rev_onto
walk-Plain [] stack h = refl
walk-Plain (seg ∷ segs) stack h =
    let (a, b, c) = h.0 in rw (a, b) (walk-Plain segs (seg ∷ stack) h.1)

replicate-shift :
    (n : ℕ) (a : Text) (rest : List Text) → replicate (suc n) a ++ rest ≡ replicate n a ++ a ∷ rest
replicate-shift zero a rest = refl
replicate-shift (suc n) a rest = ap (λ l. a ∷ l) (replicate-shift n a rest)

-- As many `..` as were pushed.
walk-ups :
    (fs rest stack : List Text)
    → walk (replicate (length fs) (codes "..") ++ rest) (rev_onto fs stack) ≡ walk rest stack
unfolding rev_onto
walk-ups [] rest stack = refl
walk-ups (f ∷ fs) rest stack =
    ap (λ l. walk l (rev_onto fs (f ∷ stack))) (replicate-shift (length fs) (codes "..") rest)
    ∙ walk-ups fs (codes ".." ∷ rest) (f ∷ stack)
    ∙ (unfold walk is_here is_up text_eq on_segment pop in refl)

take-common : (fs ts : List Text) → take (common fs ts) fs ≡ take (common fs ts) ts
unfolding common
take-common [] ts = refl
take-common (f ∷ fs) [] = refl
take-common (f ∷ fs) (t ∷ ts) = elim (Bool-cases (text_eq f t)) [
  | inl e ↦ rw e (ap₂ (λ a b. a ∷ b) (text_eq_sound f t e) (take-common fs ts))
  | inr e ↦ rw e refl
]

All-drop :
    (P : Text → Type 0) (n : ℕ) (ts : List Text) (x : Text)
    → All P (ts ++ x ∷ [])
    → All P (drop n ts ++ x ∷ [])
All-drop P zero ts x h = h
All-drop P (suc n) [] x h = h
All-drop P (suc n) (t ∷ ts) x h = All-drop P n ts x h.1

-- From the importer's directory the parts lead to the target.
walk-parts :
    (fdir tdir : List Text) (tfile : Text)
    → All Plain (tdir ++ tfile ∷ [])
    → walk (parts_of fdir tdir tfile) (rev_onto fdir [])
      ≡ ok (join (slash ∷ []) (tdir ++ tfile ∷ []))
unfolding parts_of rev_onto
walk-parts fdir tdir tfile h =
    let n = common fdir tdir in
    let rest = drop n tdir ++ tfile ∷ [] in
    let left = drop n fdir in
    let stack = rev_onto (take n tdir) [] in
    let ups : length fdir - n ≡ length left = sym (length-drop n fdir) in
    let pushed : rev_onto fdir [] ≡ rev_onto left stack =
      ap (λ l. rev_onto l []) (sym (take-append-drop n fdir))
      ∙ rev_onto-append (take n fdir) left []
      ∙ ap (λ l. rev_onto left (rev_onto l [])) (take-common fdir tdir) in
    let whole : rev_onto (rev_onto rest stack) [] ≡ tdir ++ tfile ∷ [] =
      rev_onto_twice rest stack []
      ∙ rev_onto_twice (take n tdir) [] (rest ++ [])
      ∙ ap (λ l. take n tdir ++ l) (append-nil rest)
      ∙ sym (append_assoc (take n tdir) (drop n tdir) (tfile ∷ []))
      ∙ ap (λ l. l ++ tfile ∷ []) (take-append-drop n tdir) in
    ap₂ (λ k s. walk (replicate k (codes "..") ++ rest) s) ups pushed
    ∙ walk-ups left rest stack
    ∙ walk-Plain rest stack (All-drop Plain n tdir tfile h)
    ∙ ap (λ l. ok (join (slash ∷ []) l)) whole

-- A part of a spelling.
Part : Text → Type 0
unfolding NoSlash
Part seg = NoSlash seg × (has_char 92 seg ≡ false)

All-append : (xs ys : List Text) → All Part xs → All Part ys → All Part (xs ++ ys)
All-append [] ys h k = k
All-append (x ∷ xs) ys h k = (h.0, All-append xs ys h.1 k)

All-ups : (n : ℕ) → All Part (replicate n (codes ".."))
All-ups zero = tt
All-ups (suc n) = (unfold Part NoSlash has_char in (refl, refl), All-ups n)

All-Part : (xs : List Text) → All NoSlash xs → All Plain xs → All Part xs
unfolding Plain Part
All-Part [] h k = tt
All-Part (x ∷ xs) h k = ((h.0, k.0.2), All-Part xs h.1 k.1)

All-NoSlash : (xs : List Text) → All Part xs → All NoSlash xs
unfolding Part
All-NoSlash [] h = tt
All-NoSlash (x ∷ xs) h = (h.0.0, All-NoSlash xs h.1)

forward_id : (t : Text) → has_char 92 t ≡ false → forward t ≡ t
unfolding forward has_char
forward_id [] h = refl
forward_id (c ∷ t) h =
    let plain : (c == 92) ≡ false = ground arith in
    rw plain (ap (λ l. c ∷ l) (forward_id t (ground arith)))

has_char-append : (c : ℕ) (a b : Text) → has_char c (a ++ b) ≡ (has_char c a || has_char c b)
unfolding has_char
has_char-append c [] b = refl
has_char-append c (x ∷ a) b = ground (arith, has_char-append c a b)

join-plain : (xs : List Text) → All Part xs → has_char 92 (join (slash ∷ []) xs) ≡ false
unfolding join Part has_char
join-plain [] h = refl
join-plain (x ∷ []) h = h.0.1
join-plain (x ∷ y ∷ xs) h =
    has_char-append 92 x (slash ∷ join (slash ∷ []) (y ∷ xs)) ∙ rw h.0.1 (join-plain (y ∷ xs) h.1)

snoc_cons : (xs : List Text) (a : Text) → (y : Text) × (ys : List Text) × (xs ++ a ∷ [] ≡ y ∷ ys)
snoc_cons [] a = (a, [], refl)
snoc_cons (x ∷ xs) a = (x, xs ++ a ∷ [], refl)

split-parts :
    (y : Text) (ys : List Text) → All Part (y ∷ ys) → split (join (slash ∷ []) (y ∷ ys)) ≡ y ∷ ys
split-parts y ys h = split-join y ys (All-NoSlash (y ∷ ys) h)

-- The spelling without a `..`: the leading `.` stays where it is.
dotted-walk :
    (y : Text) (ys stack : List Text)
    → All Part (y ∷ ys)
    → let raw = forward (spelled true (y ∷ ys)) in
      refuse_absolute (is_absolute raw) (walk (split raw) stack) ≡ walk (y ∷ ys) stack
dotted-walk y ys stack h =
    let kept = forward_id (join (slash ∷ []) (y ∷ ys)) (join-plain (y ∷ ys) h) in
    let back : split (forward (join (slash ∷ []) (y ∷ ys))) ≡ y ∷ ys =
      ap split kept ∙ split-parts y ys h in
    let same : walk (split (forward (join (slash ∷ []) (y ∷ ys)))) stack ≡ walk (y ∷ ys) stack =
      ap (λ l. walk l stack) back in
    unfold spelled forward is_absolute refuse_absolute split onto_first walk is_here is_up text_eq
      on_segment in
    same

-- The spelling that a `..` leads.
upward-walk :
    (y : Text) (ys stack : List Text)
    → All Part (codes ".." ∷ y ∷ ys)
    → let raw = forward (spelled false (codes ".." ∷ y ∷ ys)) in
      refuse_absolute (is_absolute raw) (walk (split raw) stack) ≡ walk (codes ".." ∷ y ∷ ys) stack
unfolding spelled
upward-walk y ys stack h =
    let parts = codes ".." ∷ y ∷ ys in
    let kept = forward_id (join (slash ∷ []) parts) (join-plain parts h) in
    let relative : is_absolute (join (slash ∷ []) parts) ≡ false =
      unfold join is_absolute in refl in
    rw (kept, relative, split-parts (codes "..") (y ∷ ys) h) (unfold refuse_absolute in refl)

spelled-walk :
    (n : ℕ) (ps : List Text) (tfile : Text) (stack : List Text)
    → let parts = replicate n (codes "..") ++ (ps ++ tfile ∷ []) in
      All Part parts
      → let raw = forward (spelled (n == 0) parts) in
        refuse_absolute (is_absolute raw) (walk (split raw) stack) ≡ walk parts stack
spelled-walk zero ps tfile stack h =
    let (y, ys, e) = snoc_cons ps tfile in
    subst
      (λ parts.
        refuse_absolute (is_absolute (forward (spelled true parts)))
          (walk (split (forward (spelled true parts))) stack)
        ≡ walk parts stack)
      (sym e) (dotted-walk y ys stack (subst (All Part) e h))
spelled-walk (suc n) ps tfile stack h =
    let positive : (suc n == 0) ≡ false = ground arith in
    let (y, ys, e) = more n ps tfile in
    rw positive (
      subst
        (λ parts.
          refuse_absolute (is_absolute (forward (spelled false (codes ".." ∷ parts))))
            (walk (split (forward (spelled false (codes ".." ∷ parts)))) stack)
          ≡ walk (codes ".." ∷ parts) stack)
        (sym e) (upward-walk y ys stack (subst (λ l. All Part (codes ".." ∷ l)) e h)))
  where
    more :
        (m : ℕ) (xs : List Text) (a : Text)
        → (y : Text) × (ys : List Text) × (replicate m (codes "..") ++ (xs ++ a ∷ []) ≡ y ∷ ys)
    more zero xs a = snoc_cons xs a
    more (suc m) xs a = (codes "..", replicate m (codes "..") ++ (xs ++ a ∷ []), refl)

-- The spelling that `relative_import_path` gives for a target resolves to the target, from whatever
-- file imports it, where each segment of the target names something and has no backslash.
pub normalize-relative :
    (from to : Text)
    → All Plain (split to)
    → normalize_import from (relative_import_path from to) ≡ ok to
unfolding normalize_import relative_import_path dir_of parts_of
normalize-relative from to h =
    let (x, xs, e) = split_cons to in
    let tdir = init (split to) in
    let tfile = last (split to) in
    let fdir = init (split from) in
    let whole : tdir ++ tfile ∷ [] ≡ split to =
      subst (λ l. init l ++ last l ∷ [] ≡ l) (sym e) (init-last x xs) in
    let plain : All Plain (tdir ++ tfile ∷ []) = subst (All Plain) (sym whole) h in
    let parts : All Part (tdir ++ tfile ∷ []) =
      subst (All Part) (sym whole) (All-Part (split to) (split-NoSlash to) h) in
    let n = length fdir - common fdir tdir in
    let all : All Part (replicate n (codes "..") ++ (drop (common fdir tdir) tdir ++ tfile ∷ [])) =
      All-append (replicate n (codes "..")) (drop (common fdir tdir) tdir ++ tfile ∷ []) (All-ups n)
        (All-drop Part (common fdir tdir) tdir tfile parts) in
    spelled-walk n (drop (common fdir tdir) tdir) tfile (rev_onto fdir []) all
    ∙ walk-parts fdir tdir tfile plain
    ∙ ap (λ l. ok (join (slash ∷ []) l)) whole
    ∙ ap ok (join-split to)
