-- ===== src/Examples/Tree.antt =====
-- Manifests, ignore sets and globs.
use perdure.Prelude.{◌≡◌, ◌↔◌, refl, Text, codes, true, false, [], ◌∷◌, contains, arith}
use perdure.Prelude.Map.{lookup}
use perdure.Glob.{glob_match}
use perdure.Glob.Meaning.{Matches, glob_match_iff}
use perdure.Glob.Shapes.{IsLiteral}
use perdure.Snapshot.{
  Entries, nil, entry, file, dir, Manifest, matches, snapshot, diff, changed, default_ignore,
  base_name, expand,
}
use perdure.Snapshot.Diffing.{
  differs, is_added, is_modified, is_deleted, diff_exact, snapshot-IsSorted,
}
use perdure.Prelude.{text_eq, has_char}

abbrev before : Entries
before = entry (codes "a") (file (1 ∷ []) false) nil

abbrev now : Entries
now =
    entry (codes "a") (file (2 ∷ []) false)
      (entry (codes "target") (dir (entry (codes "o") (file [] true) nil)) nil)

abbrev p : Text
p = codes "a"

abbrev before_m : Manifest
before_m = snapshot before default_ignore

abbrev now_m : Manifest
now_m = snapshot now default_ignore

diff_exact_example :
    (contains (diff before_m now_m).added p ≡ is_added (lookup p before_m) (lookup p now_m))
    × (contains (diff before_m now_m).modified p ≡ is_modified (lookup p before_m) (lookup p now_m))
    × (contains (diff before_m now_m).deleted p ≡ is_deleted (lookup p before_m) (lookup p now_m))
    × (contains (changed (diff before_m now_m)) p ≡ differs (lookup p before_m) (lookup p now_m))
diff_exact_example =
    diff_exact before_m now_m p (snapshot-IsSorted before default_ignore)
      (snapshot-IsSorted now default_ignore)

target_matches : matches default_ignore (codes "target") ≡ true
unfolding matches default_ignore base_name expand text_eq glob_match has_char
target_matches = refl

glob_match_iff_example :
    (glob_match (codes "src/*.rs") (codes "src/a.rs") ≡ true)
    ↔ Matches (codes "src/*.rs") (codes "src/a.rs")
glob_match_iff_example = glob_match_iff (codes "src/*.rs") (codes "src/a.rs")

src_IsLiteral : IsLiteral (codes "src")
src_IsLiteral = (omega arith, (omega arith, (omega arith, tt)))
