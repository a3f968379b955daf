-- ===== src/Snapshot.antt =====
-- src/snapshot.rs: manifests of the working tree, the ignore set, and the diff.
pub mod Ignoring
pub mod Diffing
use perdure.Prelude.{
  ℕ, Text, Bool, true, false, not, ◌&&◌, ◌||◌, List, [], ◌∷◌, ◌++◌, Option, none, some, codes, ◌==◌,
  if◌then◌else◌, text_eq, has_char, trim, contains, any, map, as_bytes,
}
use perdure.Prelude.Map
use perdure.Prelude.Map.{Map}
use perdure.Prelude.TextOrder.{sort_texts, dedup}
use perdure.Glob.{glob_match, slash}
use perdure.Hash.{sha256_hex}

pub data EntryKind : Type 0 where
  regular symlink : EntryKind

pub record ManifestEntry : Type 0 where
  pub kind : EntryKind
  pub content_hash : Option Text
  pub executable : Bool
  pub symlink_target_hash : Option Text

abbrev pub Manifest : Type 0
Manifest = Map ManifestEntry

-- `PartialEq` on entries.
unfoldable pub kind_eq : EntryKind → EntryKind → Bool
kind_eq regular regular = true
kind_eq symlink symlink = true
kind_eq _ _ = false

unfoldable pub option_text_eq : Option Text → Option Text → Bool
option_text_eq none none = true
option_text_eq (some a) (some b) = text_eq a b
option_text_eq _ _ = false

unfoldable pub bool_eq : Bool → Bool → Bool
bool_eq true b = b
bool_eq false b = not b

unfoldable pub entry_eq : ManifestEntry → ManifestEntry → Bool
unfolding kind_eq option_text_eq bool_eq
entry_eq a b =
    kind_eq a.kind b.kind
    && option_text_eq a.content_hash b.content_hash
    && bool_eq a.executable b.executable
    && option_text_eq a.symlink_target_hash b.symlink_target_hash

abbrev text_or_dash : Option Text → Text
text_or_dash none = codes "-"
text_or_dash (some t) = t

-- `ManifestEntry::signature`.
unfoldable pub signature : ManifestEntry → Text
signature e =
    (elim e.kind [ regular ↦ codes "f" | symlink ↦ codes "l" ])
    ++ (codes "|"
        ++ (text_or_dash e.content_hash
            ++ (codes "|"
                ++ ((if e.executable then codes "x" else codes "-")
                    ++ (codes "|" ++ text_or_dash e.symlink_target_hash)))))

pub record Ignore : Type 0 where
  pub globs : List Text

abbrev pub default_soft_ignores : List Text
default_soft_ignores =
    codes "target"
    ∷ codes "node_modules"
    ∷ codes "dist"
    ∷ codes "build"
    ∷ codes ".venv"
    ∷ codes "__pycache__"
    ∷ []

-- Each pattern stands for the entry itself and for all beneath it.
unfoldable pub expand : List Text → List Text
expand [] = []
expand (name ∷ names) = name ∷ (name ++ codes "/**") ∷ expand names

unfoldable pub default_ignore : Ignore
unfolding expand
default_ignore = record { globs = expand default_soft_ignores }

-- `str::lines`: a `\n` ends a line, and a `\r` before it is dropped.
drop_cr : Text → Text
drop_cr [] = []
drop_cr (c ∷ []) = if c == 13 then [] else c ∷ []
drop_cr (c ∷ d ∷ s) = c ∷ drop_cr (d ∷ s)

lines_from : Text → Text → List Text
unfolding drop_cr
lines_from [] [] = []
lines_from (c ∷ cur) [] = (c ∷ cur) ∷ []
lines_from cur (c ∷ s) =
    let ended = lines_from [] s in
    let longer = lines_from (cur ++ c ∷ []) s in if c == 10 then drop_cr cur ∷ ended else longer

unfoldable pub lines : Text → List Text
unfolding lines_from
lines s = lines_from [] s

-- `trim_end_matches('/')`.
trim_end_slash : Text → Text
trim_end_slash [] = []
trim_end_slash (c ∷ s) = elim (trim_end_slash s) [
  | [] ↦ (if c == slash then [] else c ∷ [])
  | d ∷ r ↦ c ∷ d ∷ r
]

-- The patterns of `.perdureignore`, without blank lines and comments.
pattern_of : Text → List Text → List Text
unfolding trim_end_slash
pattern_of [] later = later
pattern_of (c ∷ s) later = if c == b'#' then later else trim_end_slash (c ∷ s) ∷ later

patterns : List Text → List Text
unfolding pattern_of
patterns [] = []
patterns (line ∷ rest) = pattern_of (trim line) (patterns rest)

-- `Ignore::load`, given the text of `.perdureignore`, if it can be read.
unfoldable pub load : Option Text → Ignore
unfolding patterns lines expand default_ignore
load none = default_ignore
load (some text) = record { globs = expand default_soft_ignores ++ expand (patterns (lines text)) }

-- `rel.rsplit('/').next()`.
unfoldable pub base_name : Text → Text
base_name [] = []
base_name (c ∷ s) =
    let later = base_name s in
    if c == slash then later else if has_char slash s then later else c ∷ s

-- `Ignore::matches`: the two files that configure the gate are never ignored.
unfoldable pub matches : Ignore → Text → Bool
matches ig rel =
    let base = base_name rel in
    if text_eq base (codes ".perdureignore") || text_eq base (codes ".gitignore")
    then false
    else any (λ g. glob_match g rel) ig.globs

unfoldable pub from_globs : List Text → Ignore
from_globs globs = record { globs = globs }

is_hard_excluded_dir : Text → Bool
is_hard_excluded_dir name = text_eq name (codes ".git") || text_eq name (codes ".perdure")

unfoldable pub content_hash : List ℕ → Text
content_hash bytes = sha256_hex (bytes ∷ [])

-- A directory tree, as the walk reads it: the entries of a directory stand in the order of their
-- paths. `other` is neither a file, a directory nor a link.
mutual
  pub data Node : Type 0 where
    file : List ℕ → Bool → Node
    link : Text → Node
    dir : Entries → Node
    other : Node

  pub data Entries : Type 0 where
    nil : Entries
    entry : Text → Node → Entries → Entries

-- `.replace('\\', "/")`.
abbrev slashes : Text → Text
slashes = map (λ c. if c == 92 then slash else c)

-- The path of an entry below the repository: `prefix` is that of its directory.
unfoldable pub rel_path : Text → Text → Text
rel_path [] name = slashes name
rel_path (c ∷ prefix) name = (c ∷ prefix) ++ slash ∷ slashes name

file_entry : List ℕ → Bool → ManifestEntry
unfolding content_hash
file_entry bytes executable = record {
  kind = regular;
  content_hash = some (content_hash bytes);
  executable = executable;
  symlink_target_hash = none;
}

link_entry : Text → ManifestEntry
unfolding content_hash
link_entry target = record {
  kind = symlink;
  content_hash = none;
  executable = false;
  symlink_target_hash = some (content_hash (as_bytes (slashes target)));
}

mutual
  -- One entry of the loop in `walk`: links are recorded and not followed.
  walk_node : Ignore → Text → Text → Node → Manifest → Manifest
  walk_node ig rel name (link target) m =
      if matches ig rel then m else Map.insert rel (link_entry target) m
  walk_node ig rel name (dir es) m =
      let below = walk ig rel es m in
      if is_hard_excluded_dir name || matches ig rel then m else below
  walk_node ig rel name (file bytes executable) m =
      if matches ig rel then m else Map.insert rel (file_entry bytes executable) m
  walk_node ig rel name other m = m

  walk : Ignore → Text → Entries → Manifest → Manifest
  walk ig prefix nil m = m
  walk ig prefix (entry name node es) m =
      walk ig prefix es (walk_node ig (rel_path prefix name) name node m)

unfoldable pub snapshot : Entries → Ignore → Manifest
unfolding walk walk_node rel_path is_hard_excluded_dir matches base_name file_entry link_entry
snapshot tree ig = walk ig [] tree []

pub record Diff : Type 0 where
  pub added : List Text
  pub modified : List Text
  pub deleted : List Text

-- `Diff::changed`.
unfoldable pub changed : Diff → List Text
changed d = dedup (sort_texts (d.added ++ (d.modified ++ d.deleted)))

unfoldable pub is_unchanged : Diff → Bool
is_unchanged d = elim (d.added ++ (d.modified ++ d.deleted)) [ [] ↦ true | _ ∷ _ ↦ false ]

-- The loop over `head`, for the two lists that it fills.
note_added : Option ManifestEntry → Text → List Text → List Text
note_added none path later = path ∷ later
note_added (some b) path later = later

note_modified : Option ManifestEntry → ManifestEntry → Text → List Text → List Text
note_modified none e path later = later
note_modified (some b) e path later = if entry_eq b e then later else path ∷ later

added_in : Manifest → Manifest → List Text
unfolding note_added
added_in base [] = []
added_in base ((path, e) ∷ head) = note_added (Map.lookup path base) path (added_in base head)

modified_in : Manifest → Manifest → List Text
unfolding note_modified
modified_in base [] = []
modified_in base ((path, e) ∷ head) =
    note_modified (Map.lookup path base) e path (modified_in base head)

-- The loop over the keys of `base`.
deleted_in : Manifest → Manifest → List Text
deleted_in [] head = []
deleted_in ((path, e) ∷ base) head =
    let later = deleted_in base head in if Map.contains_key path head then later else path ∷ later

unfoldable pub diff : Manifest → Manifest → Diff
unfolding added_in modified_in deleted_in
diff base head = record {
  added = sort_texts (added_in base head);
  modified = sort_texts (modified_in base head);
  deleted = sort_texts (deleted_in base head);
}
