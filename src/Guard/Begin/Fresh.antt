-- ===== src/Guard/Begin/Fresh.antt =====
-- src/guard.rs: what a session that `begin` opened has.
use perdure.Prelude.{
  ◌≡◌, refl, sym, subst, ◌∙◌, arith, Text, Bool, true, false, not, ◌&&◌, ◌||◌, Option, none, some,
  List, [], ◌∷◌, Result, ok, err, text_eq, text_eq_refl, In, here, there, Bool-cases, inl, inr,
  contains,
}
use perdure.Prelude.Map.{lookup}
use perdure.Goal.{GoalSpec, required_commands}
use perdure.Snapshot.{
  Entries, ManifestEntry, EntryKind, regular, symlink, kind_eq, option_text_eq, bool_eq, entry_eq,
  snapshot, load,
}
use perdure.Snapshot.Diffing.{differs, snapshot-IsSorted}
use perdure.Run.{initial_state}
use perdure.Guard.{Session, scope_diff, is_link, in_writable}
use perdure.Guard.Scope.{classify_exact}
use perdure.Guard.Begin.{
  Refusal, Perdurefile, missing, erroneous, declares, is_nil, has_placeholder, find_goal, sole_goal,
  choose_goal, admit, admit_goal, resolve, open_session, opened, begin,
}

kind_eq_refl : (k : EntryKind) → kind_eq k k ≡ true
unfolding kind_eq
kind_eq_refl regular = refl
kind_eq_refl symlink = refl

option_text_eq_refl : (o : Option Text) → option_text_eq o o ≡ true
unfolding option_text_eq
option_text_eq_refl none = refl
option_text_eq_refl (some t) = text_eq_refl t

bool_eq_refl : (b : Bool) → bool_eq b b ≡ true
unfolding bool_eq
bool_eq_refl true = refl
bool_eq_refl false = refl

differs_irrefl : (o : Option ManifestEntry) → differs o o ≡ false
unfolding differs
differs_irrefl none = refl
differs_irrefl (some e) =
    unfold entry_eq in
    ground (
      arith,
      kind_eq_refl e.kind,
      option_text_eq_refl e.content_hash,
      bool_eq_refl e.executable,
      option_text_eq_refl e.symlink_target_hash,
    )

-- The goal is complete: it asks for a command, it grants a scope, and no command is the placeholder.
Complete : GoalSpec → Type 0
Complete spec =
    (is_nil (required_commands spec) ≡ false)
    × (is_nil spec.allow.fs_write ≡ false)
    × (has_placeholder spec ≡ false)

admit-Complete :
    (a b c : Bool) (spec g : GoalSpec)
    → admit a b c spec ≡ ok g
    → (a ≡ false) × (b ≡ false) × (c ≡ false) × (spec ≡ g)
unfolding admit
admit-Complete true b c spec g h = absurd (cc h)
admit-Complete false true c spec g h = absurd (cc h)
admit-Complete false false true spec g h = absurd (cc h)
admit-Complete false false false spec g h = (refl, refl, refl, cc h)

find_goal-In :
    (name : Text) (goals : List GoalSpec) (g : GoalSpec) → find_goal name goals ≡ ok g → In g goals
unfolding find_goal
find_goal-In name [] g h = absurd (cc h)
find_goal-In name (x ∷ goals) g h = elim (Bool-cases (text_eq x.name name)) [
  | inl e ↦ let h' : ok x ≡ ok g = rw e at h in let same : x ≡ g = cc h' in here (sym same)
  | inr e ↦ there (find_goal-In name goals g (rw e at h))
]

choose_goal-In :
    (name : Option Text) (goals : List GoalSpec) (g : GoalSpec)
    → choose_goal name goals ≡ ok g
    → In g goals
unfolding choose_goal sole_goal
choose_goal-In (some name) goals g h = find_goal-In name goals g h
choose_goal-In none [] g h = absurd (cc h)
choose_goal-In none (x ∷ []) g h = let same : x ≡ g = cc h in here (sym same)
choose_goal-In none (x ∷ y ∷ goals) g h = absurd (cc h)

admitted :
    (r : Result GoalSpec Refusal) (goals : List GoalSpec) (g : GoalSpec)
    → ((x : GoalSpec) → r ≡ ok x → In x goals)
    → admit_goal r ≡ ok g
    → In g goals × Complete g
unfolding admit_goal Complete
admitted (err e) goals g inside h = absurd (cc h)
admitted (ok spec) goals g inside h =
    let (a, b, c, same) = admit-Complete _ _ _ spec g h in
    subst (λ x. In x goals × Complete x) same (unfold Complete in (inside spec refl, (a, b, c)))

-- The spec of the session, and what it stands on.
unfoldable pub Opened : Perdurefile → GoalSpec → Type 0
Opened missing g = ⊥
Opened erroneous g = ⊥
Opened (declares goals) g = In g goals

resolve-Opened :
    (file : Perdurefile) (name : Option Text) (g : GoalSpec)
    → resolve file name ≡ ok g
    → Opened file g × Complete g
unfolding resolve Opened
resolve-Opened missing name g h = absurd (cc h)
resolve-Opened erroneous name g h = absurd (cc h)
resolve-Opened (declares goals) name g h =
    admitted (choose_goal name goals) goals g (choose_goal-In name goals) h

-- A fresh session: nothing has changed, so only the links of the writable scope are out of scope.
Fresh : Session → Type 0
Fresh s =
    (s.state.verified ≡ false)
    × ((p : Text)
        → (contains (scope_diff s).in_scope p ≡ false)
          × (contains (scope_diff s).out_of_scope p
              ≡ (is_link (lookup p s.baseline) && in_writable s.spec p)))

unchanged :
    (d w l : Bool)
    → d ≡ false
    → ((d && (w && not l)) ≡ false) × (((d && not (w && not l)) || (l && w)) ≡ (l && w))
unchanged d w l h = (ground arith, ground arith)

open_session-Fresh :
    (run_id : Text) (ignore_file : Option Text) (tree : Entries) (spec : GoalSpec)
    → Fresh (open_session run_id ignore_file tree spec)
unfolding Fresh open_session scope_diff initial_state
open_session-Fresh run_id ignore_file tree spec =
    let base = snapshot tree (load ignore_file) in
    let sorted = snapshot-IsSorted tree (load ignore_file) in
    (
      refl,
      λ p.
          let (i, o) = classify_exact spec base base p sorted sorted in
          let (x, y) =
            unchanged (differs (lookup p base) (lookup p base)) (in_writable spec p)
              (is_link (lookup p base)) (differs_irrefl (lookup p base)) in
          (i ∙ x, o ∙ y),
    )

begun :
    (run_id : Text) (ignore_file : Option Text) (tree : Entries) (file : Perdurefile)
    (r : Result GoalSpec Refusal) (s : Session)
    → ((g : GoalSpec) → r ≡ ok g → Opened file g × Complete g)
    → opened run_id ignore_file tree r ≡ ok s
    → Opened file s.spec × Complete s.spec × Fresh s
unfolding opened
begun run_id ignore_file tree file (err e) s h e' = absurd (cc e')
begun run_id ignore_file tree file (ok g) s h e' =
    let same : open_session run_id ignore_file tree g ≡ s = cc e' in
    let (o, c) = h g refl in
    subst (λ (x : Session). Opened file x.spec × Complete x.spec × Fresh x) same
      (unfold open_session in (o, c, open_session-Fresh run_id ignore_file tree g))

-- A session that `begin` opens is for a goal of the Perdurefile that requires a command, grants a
-- write scope and has no placeholder command. It is not verified, no path is in scope, and out of
-- scope are exactly the links that stand in the writable scope already.
pub begin_sound :
    (run_id : Text) (ignore_file : Option Text) (tree : Entries) (file : Perdurefile)
    (name : Option Text) (s : Session)
    → begin run_id ignore_file tree file name ≡ ok s
    → Opened file s.spec
      × ((is_nil (required_commands s.spec) ≡ false)
          × (is_nil s.spec.allow.fs_write ≡ false)
          × (has_placeholder s.spec ≡ false))
      × (s.state.verified ≡ false)
      × ((p : Text)
          → (contains (scope_diff s).in_scope p ≡ false)
            × (contains (scope_diff s).out_of_scope p
                ≡ (is_link (lookup p s.baseline) && in_writable s.spec p)))
unfolding begin Complete Fresh
begin_sound run_id ignore_file tree file name s h =
    let (o, c, f) =
      begun run_id ignore_file tree file (resolve file name) s (resolve-Opened file name) h in
    (o, c, f.0, f.1)
