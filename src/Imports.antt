-- ===== src/Imports.antt =====
-- src/program.rs: how a file import is spelled and resolved, against the path of the importing file.
pub mod RoundTrip
use perdure.Prelude.{
  ℕ, zero, suc, ◌+◌, ◌-◌, ◌==◌, Text, Bool, true, false, ◌||◌, Option, none, some, List, [], ◌∷◌,
  ◌++◌, codes, Result, ok, err, text_eq, has_char, join, replicate, drop, length, if◌then◌else◌,
}

abbrev pub slash : ℕ
slash = b'/'

-- `str::replace('\\', "/")`.
unfoldable pub forward : Text → Text
forward [] = []
forward (c ∷ s) = (if c == 92 then slash else c) ∷ forward s

-- `str::split('/')`.
unfoldable pub onto_first : ℕ → List Text → List Text
onto_first c [] = (c ∷ []) ∷ []
onto_first c (seg ∷ segs) = (c ∷ seg) ∷ segs

unfoldable pub split : Text → List Text
unfolding onto_first
split [] = [] ∷ []
split (c ∷ s) = let rest = split s in if c == slash then [] ∷ rest else onto_first c rest

-- All but the last, and the last.
unfoldable pub init : List Text → List Text
init [] = []
init (x ∷ []) = []
init (x ∷ y ∷ xs) = x ∷ init (y ∷ xs)

unfoldable pub last : List Text → Text
last [] = []
last (x ∷ []) = x
last (x ∷ y ∷ xs) = last (y ∷ xs)

-- The directory of a path, split: `rsplit_once('/')` and the split of what stands before.
unfoldable pub dir_of : Text → List Text
unfolding split init
dir_of path = init (split path)

unfoldable pub is_absolute : Text → Bool
is_absolute [] = false
is_absolute (c ∷ []) = c == slash
is_absolute (c ∷ d ∷ s) = c == slash || d == b':'

-- The stack of segments, its top first, and the segments that are pushed on it.
unfoldable pub rev_onto : List Text → List Text → List Text
rev_onto [] stack = stack
rev_onto (x ∷ xs) stack = rev_onto xs (x ∷ stack)

unfoldable pub pop : List Text → (List Text → Result Text Text) → Result Text Text
pop [] next = err (codes "climbs out of the workspace root")
pop (x ∷ stack) next = next stack

-- One segment: `go` takes the stack to the rest of the loop.
unfoldable pub on_segment :
    Bool → Bool → Text → List Text → (List Text → Result Text Text) → Result Text Text
unfolding pop
on_segment true up seg stack go = go stack
on_segment false true seg stack go = pop stack go
on_segment false false seg stack go = go (seg ∷ stack)

unfoldable pub is_here : Text → Bool
is_here seg = text_eq seg [] || text_eq seg (codes ".")

unfoldable pub is_up : Text → Bool
is_up seg = text_eq seg (codes "..")

unfoldable pub walk : List Text → List Text → Result Text Text
unfolding rev_onto
walk [] stack = ok (join (slash ∷ []) (rev_onto stack []))
walk (seg ∷ segs) stack = on_segment (is_here seg) (is_up seg) seg stack (walk segs)

unfoldable pub refuse_absolute : Bool → Result Text Text → Result Text Text
refuse_absolute true r = err (codes "is absolute — file imports are workspace-relative")
refuse_absolute false r = r

unfoldable pub normalize_import : Text → Text → Result Text Text
unfolding forward walk refuse_absolute
normalize_import importer raw =
    let raw_n = forward raw in
    refuse_absolute (is_absolute raw_n) (walk (split raw_n) (rev_onto (dir_of importer) []))

-- How many segments two directories share: `zip`, `take_while` and `count`.
unfoldable pub common : List Text → List Text → ℕ
common [] ts = 0
common (f ∷ fs) [] = 0
common (f ∷ fs) (t ∷ ts) = let rest = common fs ts in if text_eq f t then suc rest else 0

unfoldable pub parts_of : List Text → List Text → Text → List Text
unfolding common
parts_of fdir tdir tfile =
    let shared = common fdir tdir in
    replicate (length fdir - shared) (codes "..") ++ (drop shared tdir ++ tfile ∷ [])

unfoldable pub spelled : Bool → List Text → Text
spelled true parts = codes "./" ++ join (slash ∷ []) parts
spelled false parts = join (slash ∷ []) parts

unfoldable pub relative_import_path : Text → Text → Text
unfolding parts_of
relative_import_path from to =
    let fdir = dir_of from in
    let tdir = dir_of to in
    spelled ((length fdir - common fdir tdir) == 0) (parts_of fdir tdir (last (split to)))
