-- ===== src/Snapshot/Diffing.antt =====
-- src/snapshot.rs: `diff` and `snapshot` against the entries that stand at each path.
use perdure.Prelude.{
  Text, text_eq, text_eq_sound, contains, ◌≡◌, refl, sym, ap, ◌∙◌, Bool, true, false, not, ◌&&◌,
  ◌||◌, Option, none, some, List, [], ◌∷◌, ◌++◌, Bool-cases, Option-cases, inl, inr, arith,
}
use perdure.Prelude.Map
use perdure.Prelude.Map.{
  Map, lookup, IsSorted, Above, lookup-Above, insert-IsSorted, contains_key_lem,
}
use perdure.Prelude.TextOrder as Sort
use perdure.Prelude.TextOrder.{contains-append, contains-sort_texts, contains-dedup}
use perdure.Snapshot.{
  Manifest, ManifestEntry, Ignore, Node, file, link, dir, other, Entries, nil, entry, matches,
  is_hard_excluded_dir, file_entry, link_entry, rel_path, walk, walk_node, entry_eq, changed, diff,
  added_in, modified_in, note_added, note_modified, deleted_in, snapshot,
}

-- How the entry at one path changes from the base (first) to the head (second).
unfoldable pub is_added : Option ManifestEntry → Option ManifestEntry → Bool
is_added none (some _) = true
is_added _ _ = false

unfoldable pub is_modified : Option ManifestEntry → Option ManifestEntry → Bool
is_modified (some b) (some h) = not (entry_eq b h)
is_modified _ _ = false

unfoldable pub is_deleted : Option ManifestEntry → Option ManifestEntry → Bool
is_deleted (some _) none = true
is_deleted _ _ = false

unfoldable pub differs : Option ManifestEntry → Option ManifestEntry → Bool
differs none none = false
differs (some b) (some h) = not (entry_eq b h)
differs _ _ = true

is_added-none : (o : Option ManifestEntry) → is_added o none ≡ false
unfolding is_added
is_added-none none = refl
is_added-none (some b) = refl

is_added-some : (b : ManifestEntry) (o : Option ManifestEntry) → is_added (some b) o ≡ false
unfolding is_added
is_added-some b none = refl
is_added-some b (some h) = refl

is_modified-none : (o : Option ManifestEntry) → is_modified o none ≡ false
unfolding is_modified
is_modified-none none = refl
is_modified-none (some b) = refl

is_deleted-none : (o : Option ManifestEntry) → is_deleted none o ≡ false
unfolding is_deleted
is_deleted-none none = refl
is_deleted-none (some b) = refl

differs_parts :
    (b h : Option ManifestEntry)
    → (is_added b h || (is_modified b h || is_deleted b h)) ≡ differs b h
unfolding is_added is_modified is_deleted differs
differs_parts none none = refl
differs_parts none (some _) = refl
differs_parts (some _) none = refl
differs_parts (some b) (some h) = ground arith

||-false : (b : Bool) → ((b && true) || false) ≡ b
||-false b = ground arith

&&-false : (b : Bool) → (b && false) ≡ false
&&-false b = ground arith

contains-note_added :
    (o : Option ManifestEntry) (e : ManifestEntry) (j : Text) (l : List Text) (p : Text)
    → contains (note_added o j l) p ≡ ((is_added o (some e) && text_eq j p) || contains l p)
unfolding note_added contains is_added
contains-note_added none e j l p = refl
contains-note_added (some b) e j l p = refl

contains-note_modified :
    (o : Option ManifestEntry) (e : ManifestEntry) (j : Text) (l : List Text) (p : Text)
    → contains (note_modified o e j l) p ≡ ((is_modified o (some e) && text_eq j p) || contains l p)
unfolding note_modified is_modified contains
contains-note_modified none e j l p = refl
contains-note_modified (some b) e j l p = ground arith

added_in-contains :
    (base head : Manifest) (p : Text)
    → IsSorted head
    → contains (added_in base head) p ≡ is_added (lookup p base) (lookup p head)
unfolding added_in lookup IsSorted contains
added_in-contains base [] p h = sym (is_added-none (lookup p base))
added_in-contains base ((j, e) ∷ head) p h =
    contains-note_added (lookup j base) e j (added_in base head) p
    ∙ (elim (Bool-cases (text_eq j p)) [
      | inl q ↦
          let same : j ≡ p = text_eq_sound j p q in
          let gone : lookup p head ≡ none =
            ap (λ x. lookup x head) (sym same) ∙ lookup-Above j head h.0 in
          let later : contains (added_in base head) p ≡ false =
            added_in-contains base head p h.1 ∙ rw gone (is_added-none (lookup p base)) in
          let there : lookup j base ≡ lookup p base = ap (λ x. lookup x base) same in
          rw (q, later, there) (||-false (is_added (lookup p base) (some e)))
      | inr q ↦ rw q (
          ap (λ b. b || contains (added_in base head) p)
            (&&-false (is_added (lookup j base) (some e)))
          ∙ added_in-contains base head p h.1)
    ])

modified_in-contains :
    (base head : Manifest) (p : Text)
    → IsSorted head
    → contains (modified_in base head) p ≡ is_modified (lookup p base) (lookup p head)
unfolding modified_in lookup IsSorted contains
modified_in-contains base [] p h = sym (is_modified-none (lookup p base))
modified_in-contains base ((j, e) ∷ head) p h =
    contains-note_modified (lookup j base) e j (modified_in base head) p
    ∙ (elim (Bool-cases (text_eq j p)) [
      | inl q ↦
          let same : j ≡ p = text_eq_sound j p q in
          let gone : lookup p head ≡ none =
            ap (λ x. lookup x head) (sym same) ∙ lookup-Above j head h.0 in
          let later : contains (modified_in base head) p ≡ false =
            modified_in-contains base head p h.1 ∙ rw gone (is_modified-none (lookup p base)) in
          let there : lookup j base ≡ lookup p base = ap (λ x. lookup x base) same in
          rw (q, later, there) (||-false (is_modified (lookup p base) (some e)))
      | inr q ↦ rw q (
          ap (λ b. b || contains (modified_in base head) p)
            (&&-false (is_modified (lookup j base) (some e)))
          ∙ modified_in-contains base head p h.1)
    ])

deleted_in-contains :
    (base head : Manifest) (p : Text)
    → IsSorted base
    → contains (deleted_in base head) p ≡ is_deleted (lookup p base) (lookup p head)
unfolding deleted_in lookup IsSorted contains
deleted_in-contains [] head p h = sym (is_deleted-none (lookup p head))
deleted_in-contains ((j, e) ∷ base) head p h = elim (Bool-cases (text_eq j p)) [
  | inl q ↦
      let same : j ≡ p = text_eq_sound j p q in
      let gone : lookup p base ≡ none =
        ap (λ x. lookup x base) (sym same) ∙ lookup-Above j base h.0 in
      let later : contains (deleted_in base head) p ≡ false =
        deleted_in-contains base head p h.1 ∙ rw gone (is_deleted-none (lookup p head)) in
      let there : Map.contains_key j head ≡ Map.contains_key p head =
        ap (λ x. Map.contains_key x head) same in
      elim (Option-cases (lookup p head)) [
        | inl n ↦
            let c : Map.contains_key j head ≡ false = there ∙ contains_key_lem p head ∙ rw n refl in
            rw (c, q, n) (unfold is_deleted in refl)
        | inr (b, n) ↦
            let c : Map.contains_key j head ≡ true = there ∙ contains_key_lem p head ∙ rw n refl in
            rw (c, q, n) (later ∙ unfold is_deleted in refl)
      ]
  | inr q ↦ elim (Bool-cases (Map.contains_key j head)) [
    | inl c ↦ rw (c, q) (deleted_in-contains base head p h.1)
    | inr c ↦ rw (c, q) (deleted_in-contains base head p h.1)
  ]
]

-- A diff lists a path as added, modified or deleted exactly as its two entries say, and `changed`
-- lists it exactly if they differ, in base and head manifests with sorted keys.
pub diff_exact :
    (base head : Manifest) (p : Text)
    → IsSorted base
    → IsSorted head
    → (contains (diff base head).added p ≡ is_added (lookup p base) (lookup p head))
      × (contains (diff base head).modified p ≡ is_modified (lookup p base) (lookup p head))
      × (contains (diff base head).deleted p ≡ is_deleted (lookup p base) (lookup p head))
      × (contains (changed (diff base head)) p ≡ differs (lookup p base) (lookup p head))
unfolding diff changed
diff_exact base head p hb hh =
    let a : contains (diff base head).added p ≡ is_added (lookup p base) (lookup p head) =
      contains-sort_texts (added_in base head) p ∙ added_in-contains base head p hh in
    let m : contains (diff base head).modified p ≡ is_modified (lookup p base) (lookup p head) =
      contains-sort_texts (modified_in base head) p ∙ modified_in-contains base head p hh in
    let d : contains (diff base head).deleted p ≡ is_deleted (lookup p base) (lookup p head) =
      contains-sort_texts (deleted_in base head) p ∙ deleted_in-contains base head p hb in
    let xs = (diff base head).added in
    let ys = (diff base head).modified in
    let zs = (diff base head).deleted in
    let all : contains (changed (diff base head)) p
        ≡ (contains xs p || (contains ys p || contains zs p)) =
      contains-dedup (Sort.sort_texts (xs ++ (ys ++ zs))) p
      ∙ contains-sort_texts (xs ++ (ys ++ zs)) p
      ∙ contains-append xs (ys ++ zs) p
      ∙ ap (λ b. contains xs p || b) (contains-append ys zs p) in
    (a, m, d, all ∙ rw (a, m, d) (differs_parts (lookup p base) (lookup p head)))

mutual
  unfolding walk_node walk

  walk_node-IsSorted :
      (ig : Ignore) (rel name : Text) (n : Node) (m : Manifest)
      → IsSorted m
      → IsSorted (walk_node ig rel name n m)
  walk_node-IsSorted ig rel name (file bytes x) m h = elim (Bool-cases (matches ig rel)) [
    | inl e ↦ rw e h
    | inr e ↦ rw e (insert-IsSorted rel (file_entry bytes x) m h)
  ]
  walk_node-IsSorted ig rel name (link t) m h = elim (Bool-cases (matches ig rel)) [
    | inl e ↦ rw e h
    | inr e ↦ rw e (insert-IsSorted rel (link_entry t) m h)
  ]
  walk_node-IsSorted ig rel name (dir es) m h =
      elim (Bool-cases (is_hard_excluded_dir name || matches ig rel)) [
        | inl e ↦ rw e h
        | inr e ↦ rw e (walk-IsSorted ig rel es m h)
      ]
  walk_node-IsSorted ig rel name other m h = h

  walk-IsSorted :
      (ig : Ignore) (prefix : Text) (es : Entries) (m : Manifest)
      → IsSorted m
      → IsSorted (walk ig prefix es m)
  walk-IsSorted ig prefix nil m h = h
  walk-IsSorted ig prefix (entry name n es) m h =
      walk-IsSorted ig prefix es (walk_node ig (rel_path prefix name) name n m)
        (walk_node-IsSorted ig (rel_path prefix name) name n m h)

pub snapshot-IsSorted : (tree : Entries) (ig : Ignore) → IsSorted (snapshot tree ig)
unfolding snapshot IsSorted
snapshot-IsSorted tree ig = walk-IsSorted ig [] tree [] tt

-- The changed paths between two snapshots of any trees are exactly those at which the recorded
-- entries differ, also where the ignore sets of the two are different.
pub snapshot-diff_exact :
    (before after : Entries) (ig ig' : Ignore) (p : Text)
    → contains (changed (diff (snapshot before ig) (snapshot after ig'))) p
      ≡ differs (lookup p (snapshot before ig)) (lookup p (snapshot after ig'))
snapshot-diff_exact before after ig ig' p =
    let (a, m, d, c) =
      diff_exact (snapshot before ig) (snapshot after ig') p (snapshot-IsSorted before ig)
        (snapshot-IsSorted after ig') in
    c
