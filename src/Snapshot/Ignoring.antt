-- ===== src/Snapshot/Ignoring.antt =====
-- src/snapshot.rs: what a snapshot leaves out.
use perdure.Prelude.{
  Text, codes, text_eq, text_eq_sound, has_char, ◌≡◌, refl, ap, ◌∙◌, true, false, ◌||◌, none, [],
  ◌∷◌, ◌++◌, ◌==◌, Bool-cases, inl, inr, arith,
}
use perdure.Prelude.Map
use perdure.Prelude.Map.{Map, lookup, lookup-insert}
use perdure.Glob.{slash}
use perdure.Snapshot.{
  Manifest, ManifestEntry, Ignore, Node, file, link, dir, other, Entries, nil, entry, walk,
  walk_node, matches, base_name, rel_path, is_hard_excluded_dir, file_entry, link_entry, snapshot,
}

insert-Ignored :
    (ig : Ignore) (p rel : Text) (e : ManifestEntry) (m : Manifest)
    → matches ig p ≡ true
    → matches ig rel ≡ false
    → lookup p (Map.insert rel e m) ≡ lookup p m
insert-Ignored ig p rel e m h n = elim (Bool-cases (text_eq rel p)) [
  | inl q ↦ absurd (cc (ap (matches ig) (text_eq_sound rel p q), h, n))
  | inr q ↦ lookup-insert rel p e m ∙ rw q refl
]

mutual
  unfolding walk_node walk

  walk_node-Ignored :
      (ig : Ignore) (p rel name : Text) (n : Node) (m : Manifest)
      → matches ig p ≡ true
      → lookup p (walk_node ig rel name n m) ≡ lookup p m
  walk_node-Ignored ig p rel name (file bytes x) m h = elim (Bool-cases (matches ig rel)) [
    | inl e ↦ rw e refl
    | inr e ↦ rw e (insert-Ignored ig p rel (file_entry bytes x) m h e)
  ]
  walk_node-Ignored ig p rel name (link t) m h = elim (Bool-cases (matches ig rel)) [
    | inl e ↦ rw e refl
    | inr e ↦ rw e (insert-Ignored ig p rel (link_entry t) m h e)
  ]
  walk_node-Ignored ig p rel name (dir es) m h =
      elim (Bool-cases (is_hard_excluded_dir name || matches ig rel)) [
        | inl e ↦ rw e refl
        | inr e ↦ rw e (walk-Ignored ig p rel es m h)
      ]
  walk_node-Ignored ig p rel name other m h = refl

  walk-Ignored :
      (ig : Ignore) (p prefix : Text) (es : Entries) (m : Manifest)
      → matches ig p ≡ true
      → lookup p (walk ig prefix es m) ≡ lookup p m
  walk-Ignored ig p prefix nil m h = refl
  walk-Ignored ig p prefix (entry name n es) m h =
      walk-Ignored ig p prefix es (walk_node ig (rel_path prefix name) name n m) h
      ∙ walk_node-Ignored ig p (rel_path prefix name) name n m h

-- An ignored path has no entry in a snapshot, at whatever place of the tree it stands.
pub snapshot_ignores :
    (tree : Entries) (ig : Ignore) (p : Text)
    → matches ig p ≡ true
    → lookup p (snapshot tree ig) ≡ none
unfolding snapshot
snapshot_ignores tree ig p h = walk-Ignored ig p [] tree [] h ∙ (unfold lookup in refl)

has_slash : (p name : Text) → has_char slash (p ++ slash ∷ name) ≡ true
unfolding has_char
has_slash [] name = refl
has_slash (c ∷ p) name = ground (arith, has_slash p name)

base_name-below : (p name : Text) → base_name (p ++ slash ∷ name) ≡ base_name name
unfolding base_name
base_name-below [] name = refl
base_name-below (c ∷ p) name = elim (Bool-cases (c == slash)) [
  | inl e ↦ rw e (base_name-below p name)
  | inr e ↦ rw (e, has_slash p name) (base_name-below p name)
]

base_name-rel_path :
    (prefix name : Text) → base_name (rel_path prefix name) ≡ base_name (rel_path [] name)
unfolding rel_path
base_name-rel_path [] name = refl
base_name-rel_path (c ∷ prefix) name = base_name-below (c ∷ prefix) _

-- The two files that configure the gate are never ignored, whatever the ignore set holds and in
-- whatever directory they stand: an edit of them always shows in the manifest.
pub gate_files_seen :
    (ig : Ignore) (prefix : Text)
    → (matches ig (rel_path prefix (codes ".perdureignore")) ≡ false)
      × (matches ig (rel_path prefix (codes ".gitignore")) ≡ false)
unfolding matches
gate_files_seen ig prefix =
    let a : base_name (rel_path prefix (codes ".perdureignore")) ≡ codes ".perdureignore" =
      base_name-rel_path prefix (codes ".perdureignore")
      ∙ (unfold rel_path base_name has_char in refl) in
    let b : base_name (rel_path prefix (codes ".gitignore")) ≡ codes ".gitignore" =
      base_name-rel_path prefix (codes ".gitignore")
      ∙ (unfold rel_path base_name has_char in refl) in
    (rw a (unfold text_eq in refl), rw b (unfold text_eq in refl))
