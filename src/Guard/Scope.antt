-- ===== src/Guard/Scope.antt =====
-- src/guard.rs: which paths `scope_diff` takes for in scope and which for out of scope.
use perdure.Prelude.{
  Text, text_eq, text_eq_sound, contains, retain, ◌≡◌, refl, sym, ap, ◌∙◌, Bool, true, false, not,
  ◌&&◌, ◌||◌, Option, none, some, List, [], ◌∷◌, ◌++◌, if◌then◌else◌, Bool-cases, inl, inr, arith,
}
use perdure.Prelude.Map.{lookup, IsSorted, lookup-Above}
use perdure.Prelude.TextOrder as Sort
use perdure.Prelude.TextOrder.{contains-append, contains-sort_texts, contains-dedup}
use perdure.Goal.{GoalSpec}
use perdure.Snapshot.{Manifest, ManifestEntry, changed, diff, snapshot}
use perdure.Snapshot.Diffing.{differs, diff_exact, snapshot-IsSorted}
use perdure.Guard.{Session, is_link, in_writable, add_links, is_in_scope, classify, scope_diff}

pub contains-retain :
    (q : Text → Bool) (l : List Text) (p : Text) → contains (retain q l) p ≡ (contains l p && q p)
unfolding contains
contains-retain q [] p = refl
contains-retain q (x ∷ l) p = elim (Bool-cases (text_eq x p)) [
  | inl e ↦
      let same : q x ≡ q p = ap q (text_eq_sound x p e) in ground (arith, contains-retain q l p)
  | inr e ↦ ground (arith, contains-retain q l p)
]

contains-push :
    (c : Bool) (out : List Text) (j p : Text)
    → contains (if c then out ++ j ∷ [] else out) p ≡ (contains out p || (c && text_eq j p))
contains-push true out j p = contains-append out (j ∷ []) p ∙ (unfold contains in ground arith)
contains-push false out j p = ground arith

is_link-none : (o : Option ManifestEntry) → o ≡ none → is_link o ≡ false
is_link-none o h = rw h (unfold is_link in refl)

push_same :
    (l wj wp cj cp t k : Bool)
    → wj ≡ wp
    → cj ≡ cp
    → t ≡ true
    → k ≡ false
    → ((cp || ((l && wj && not cj) && t)) || (k && wp)) ≡ (cp || (l && wp))
push_same l wj wp cj cp t k w c h g = ground arith

push_other :
    (l wj wp cj cp t k : Bool)
    → t ≡ false
    → ((cp || ((l && wj && not cj) && t)) || (k && wp)) ≡ (cp || (k && wp))
push_other l wj wp cj cp t k h = ground arith

contains-add_links :
    (w : Text → Bool) (head : Manifest) (out : List Text) (p : Text)
    → IsSorted head
    → contains (add_links w head out) p ≡ (contains out p || (is_link (lookup p head) && w p))
unfolding add_links lookup IsSorted
contains-add_links w [] out p h = unfold is_link in ground arith
contains-add_links w ((j, e) ∷ head) out p h =
    let new = is_link (some e) && w j && not (contains out j) in
    let step =
      contains-add_links w head (if new then out ++ j ∷ [] else out) p h.1
      ∙ ap (λ b. b || (is_link (lookup p head) && w p)) (contains-push new out j p) in
    elim (Bool-cases (text_eq j p)) [
      | inl q ↦
          let same : j ≡ p = text_eq_sound j p q in
          let gone : is_link (lookup p head) ≡ false =
            is_link-none (lookup p head)
              (ap (λ x. lookup x head) (sym same) ∙ lookup-Above j head h.0) in
          rw q (
            step
            ∙ push_same (is_link (some e)) (w j) (w p) (contains out j) (contains out p)
                (text_eq j p) (is_link (lookup p head)) (ap w same) (ap (contains out) same) q gone)
      | inr q ↦ rw q (
          step
          ∙ push_other (is_link (some e)) (w j) (w p) (contains out j) (contains out p)
              (text_eq j p) (is_link (lookup p head)) q)
    ]

-- The path is in scope exactly if its entry changed, it is writable and it is no link now, and out
-- of scope exactly if its entry changed and it is not in scope, or if it is a writable link, changed
-- or not, in base and head manifests with sorted keys.
pub classify_exact :
    (spec : GoalSpec) (baseline head : Manifest) (p : Text)
    → IsSorted baseline
    → IsSorted head
    → (contains (classify spec baseline head).in_scope p ≡ (
        differs (lookup p baseline) (lookup p head)
        && (in_writable spec p && not (is_link (lookup p head)))))
      × (contains (classify spec baseline head).out_of_scope p ≡ (
          (differs (lookup p baseline) (lookup p head)
            && not (in_writable spec p && not (is_link (lookup p head))))
          || (is_link (lookup p head) && in_writable spec p)))
unfolding classify is_in_scope
classify_exact spec baseline head p hb hh =
    let cs = changed (diff baseline head) in
    let (a, m, d, c) = diff_exact baseline head p hb hh in
    let out = retain (λ x. not (is_in_scope spec head x)) cs in
    (
      contains-retain (is_in_scope spec head) cs p
          ∙ ap (λ b. b && (in_writable spec p && not (is_link (lookup p head)))) c,
      contains-dedup (Sort.sort_texts (add_links (in_writable spec) head out)) p
          ∙ contains-sort_texts (add_links (in_writable spec) head out) p
          ∙ contains-add_links (in_writable spec) head out p hh
          ∙ ap (λ b. b || (is_link (lookup p head) && in_writable spec p))
              (contains-retain (λ x. not (is_in_scope spec head x)) cs p
                ∙ ap (λ b. b && not (in_writable spec p && not (is_link (lookup p head)))) c),
    )

out_or_in :
    (d w l : Bool)
    → (d ≡ true)
    → (((d && (w && not l)) || ((d && not (w && not l)) || (l && w))) ≡ true)
      × (((d && (w && not l)) && ((d && not (w && not l)) || (l && w))) ≡ false)
out_or_in d w l h = (ground arith, ground arith)

-- No change escapes: a path whose entry differs from the baseline's is either in scope or out of
-- scope, never both, in a session whose baseline has sorted keys.
pub scope_diff_covers :
    (s : Session) (p : Text)
    → IsSorted s.baseline
    → differs (lookup p s.baseline) (lookup p (snapshot s.tree s.ignore)) ≡ true
    → ((contains (scope_diff s).in_scope p || contains (scope_diff s).out_of_scope p) ≡ true)
      × ((contains (scope_diff s).in_scope p && contains (scope_diff s).out_of_scope p) ≡ false)
unfolding scope_diff
scope_diff_covers s p hb h =
    let head = snapshot s.tree s.ignore in
    let (i, o) = classify_exact s.spec s.baseline head p hb (snapshot-IsSorted s.tree s.ignore) in
    rw (i, o)
      (out_or_in (differs (lookup p s.baseline) (lookup p head)) (in_writable s.spec p)
        (is_link (lookup p head)) h)
