-- ===== src/Patch.antt =====
-- src/patch.rs: typed patches: their edits, and the pipeline that accepts or rejects them. The texts of
-- the files are bytes, and an edit's offsets stand at character boundaries. The parser, the checker
-- and the test runner are a parameter.
pub mod Splicing
pub mod Accepted
pub mod Impact
use perdure.Prelude.{
  ℕ, zero, suc, ◌+◌, ◌-◌, ◌==◌, ltb, leb, Text, Bool, true, false, not, ◌&&◌, ◌||◌, Option, none,
  some, List, [], ◌∷◌, ◌++◌, codes, Result, ok, err, any, contains, length, take, drop, retain, map,
  if◌then◌else◌, text_eq,
}
use perdure.Prelude.Map
use perdure.Prelude.Map.{Map}
use perdure.Prelude.TextOrder.{sort_texts}
use perdure.Prelude.Decimal.{print_nat}
use perdure.Glob.{glob_match}

abbrev pub Bytes : Type 0
Bytes = List ℕ

-- The files of a workspace, by their paths.
abbrev pub Workspace : Type 0
Workspace = Map Bytes

pub record Edit : Type 0 where
  pub file : Text
  pub start : ℕ
  pub end : ℕ
  pub replacement : Bytes

pub record Patch : Type 0 where
  pub name : Text
  pub reason : Text
  pub touches : List Text
  pub edits : List Edit
  pub prove : List Text

pub record VerifyOpts : Type 0 where
  pub allow_new_effects : Bool
  pub forbid_api_break : Bool
  pub allowed_effects : Option (List Text)
  pub allowed_writes : Option (List Text)

-- `Workspace::slice`.
unfoldable pub slice_of : Option Bytes → ℕ → ℕ → Bytes
slice_of none start end = []
slice_of (some text) start end =
    let e = if ltb (length text) end then length text else end in
    let s = if ltb e start then e else start in take (e - s) (drop s text)

unfoldable pub slice : Workspace → Text → ℕ → ℕ → Bytes
unfolding slice_of
slice w file start end = slice_of (Map.lookup file w) start end

-- The edits by file, each list in the order of the patch.
unfoldable pub or_empty : Option (List Edit) → List Edit
or_empty none = []
or_empty (some es) = es

unfoldable pub by_file : List Edit → Map (List Edit) → Map (List Edit)
unfolding or_empty
by_file [] m = m
by_file (e ∷ es) m = by_file es (Map.insert e.file (or_empty (Map.lookup e.file m) ++ e ∷ []) m)

-- The stable sort by descending start.
unfoldable pub insert_desc : Edit → List Edit → List Edit
insert_desc e [] = e ∷ []
insert_desc e (f ∷ fs) =
    let rest = insert_desc e fs in if leb f.start e.start then e ∷ f ∷ fs else f ∷ rest

unfoldable pub sort_desc : List Edit → List Edit
unfolding insert_desc
sort_desc [] = []
sort_desc (e ∷ es) = insert_desc e (sort_desc es)

-- `buf.replace_range(start..end, replacement)`.
unfoldable pub replace_range : Edit → Bytes → Bytes
replace_range e buf = take e.start buf ++ (e.replacement ++ drop e.end buf)

unfoldable pub out_of_bounds : Edit → Bytes → Bool
out_of_bounds e buf = ltb (length buf) e.start || ltb (length buf) e.end || ltb e.end e.start

unfoldable pub bounds_error : Edit → Text
bounds_error e =
    codes "edit span "
    ++ (print_nat e.start
        ++ (codes ".."
            ++ (print_nat e.end ++ (codes " out of bounds for `" ++ (e.file ++ codes "`")))))

unfoldable pub apply_one : Bool → Edit → Bytes → (Bytes → Result Bytes Text) → Result Bytes Text
unfolding bounds_error replace_range
apply_one true e buf next = err (bounds_error e)
apply_one false e buf next = next (replace_range e buf)

unfoldable pub apply_sorted : List Edit → Bytes → Result Bytes Text
unfolding out_of_bounds apply_one
apply_sorted [] buf = ok buf
apply_sorted (e ∷ es) buf = apply_one (out_of_bounds e buf) e buf (apply_sorted es)

unfoldable pub apply_file : List Edit → Bytes → Result Bytes Text
unfolding sort_desc apply_sorted
apply_file edits text = apply_sorted (sort_desc edits) text

unfoldable pub put_back : Text → Workspace → Result Bytes Text → Result Workspace Text
put_back file w (err e) = err e
put_back file w (ok buf) = ok (Map.insert file buf w)

unfoldable pub apply_found : Text → List Edit → Workspace → Option Bytes → Result Workspace Text
unfolding put_back apply_file
apply_found file edits w none = err (codes "edit targets unknown file `" ++ (file ++ codes "`"))
apply_found file edits w (some text) = put_back file w (apply_file edits text)

unfoldable pub and_then :
    Result Workspace Text → (Workspace → Result Workspace Text) → Result Workspace Text
and_then (err e) next = err e
and_then (ok w) next = next w

unfoldable pub apply_files : Map (List Edit) → Workspace → Result Workspace Text
unfolding apply_found and_then
apply_files [] w = ok w
apply_files ((file, edits) ∷ rest) w =
    and_then (apply_found file edits w (Map.lookup file w)) (apply_files rest)

unfoldable pub apply_edits : Workspace → List Edit → Result Workspace Text
unfolding by_file apply_files
apply_edits w edits = apply_files (by_file edits []) w

-- What the pipeline asks of the parser, the checker and the runner about a workspace.
pub record Toolchain : Type 0 where
  pub parse_errors : Workspace → ℕ
  pub semantic_errors : Workspace → ℕ
  pub used_effects : Workspace → List Text
  pub signatures : Workspace → Map Text
  pub impacted_tests : Workspace → List Text → List Text
  pub test_passed : Workspace → List Text → Text → Bool

pub record PatchVerdict : Type 0 where
  pub accepted : Bool
  pub rejections : List Text
  pub errors_after : ℕ
  pub new_effects : List Text
  pub api_changes : List Text
  pub impacted : List Text
  pub workspace : Workspace

unfoldable pub matches_any : List Text → Text → Bool
matches_any globs file = any (λ g. glob_match g file) globs

-- A rejection, unless the test holds.
unfoldable pub unless : Bool → Text → List Text
unless true reason = []
unless false reason = reason ∷ []

unfoldable pub in_writes : Option (List Text) → Text → Bool
in_writes none file = true
in_writes (some globs) file = matches_any globs file

unfoldable pub scope_rejections : Patch → VerifyOpts → List Edit → List Text
unfolding unless in_writes
scope_rejections patch opts [] = []
scope_rejections patch opts (e ∷ es) =
    unless (matches_any patch.touches e.file)
      (codes "touched file outside allowed scope: " ++ e.file)
    ++ (unless (in_writes opts.allowed_writes e.file)
          (codes "touched file outside the goal's fs.write authority: " ++ e.file)
        ++ scope_rejections patch opts es)

unfoldable pub apply_rejections : Result Workspace Text → List Text
apply_rejections (ok w) = []
apply_rejections (err msg) = (codes "could not apply patch: " ++ msg) ∷ []

unfoldable pub applied_or : Workspace → Result Workspace Text → Workspace
applied_or base (ok w) = w
applied_or base (err msg) = base

unfoldable pub syntax_rejections : ℕ → List Text
syntax_rejections zero = []
syntax_rejections (suc n) =
    (codes "patch introduced " ++ (print_nat (suc n) ++ codes " syntax error(s)")) ∷ []

-- The rejections of a list of names for which a test fails.
unfoldable pub each_unless : (Text → Bool) → Text → List Text → List Text
unfolding unless
each_unless fine reason [] = []
each_unless fine reason (x ∷ xs) = unless (fine x) (reason ++ x) ++ each_unless fine reason xs

unfoldable pub effect_rejections : VerifyOpts → Option (List Text) → List Text → List Text
unfolding each_unless
effect_rejections opts (some granted) new_effects =
    each_unless (contains granted) (codes "introduced effect outside the goal's authority: ")
      new_effects
effect_rejections opts none new_effects =
    each_unless (λ e. opts.allow_new_effects) (codes "introduced new effect: ") new_effects

-- `changed_signatures`: the changed and the added ones in the order of the new map, the removed ones
-- in that of the old, and all sorted.
unfoldable pub signature_change : Text → Text → Option Text → List Text
signature_change name sig none = (codes "added " ++ (name ++ sig)) ∷ []
signature_change name sig (some old) =
    if text_eq old sig then [] else (name ++ (codes " " ++ (old ++ (codes " -> " ++ sig)))) ∷ []

unfoldable pub signature_changes : Map Text → Map Text → List Text
unfolding signature_change
signature_changes before [] = []
signature_changes before ((name, sig) ∷ after) =
    signature_change name sig (Map.lookup name before) ++ signature_changes before after

unfoldable pub removed_signatures : Map Text → Map Text → List Text
removed_signatures [] after = []
removed_signatures ((name, sig) ∷ before) after =
    let later = removed_signatures before after in
    if Map.contains_key name after then later else (codes "removed " ++ name) ∷ later

unfoldable pub changed_signatures : Map Text → Map Text → List Text
unfolding signature_changes removed_signatures
changed_signatures before after =
    sort_texts (signature_changes before after ++ removed_signatures before after)

unfoldable pub api_rejections : Bool → List Text → List Text
unfolding each_unless
api_rejections forbid changes = each_unless (λ c. not forbid) (codes "changed public API: ") changes

-- `after_eff.difference(&before_eff)`.
unfoldable pub difference : List Text → List Text → List Text
difference after before = retain (λ e. not (contains before e)) after

unfoldable pub is_empty : List Text → Bool
is_empty [] = true
is_empty (x ∷ xs) = false

unfoldable pub edited_files : List Edit → List Text
edited_files edits = map (λ (e : Edit). e.file) edits

-- A test that passed before passes now.
unfoldable pub still_passes : Toolchain → Workspace → Workspace → List Text → Text → Bool
still_passes tools base after impacted t =
    not (tools.test_passed base impacted t) || tools.test_passed after impacted t

unfoldable pub verify_patch : Toolchain → Workspace → Patch → VerifyOpts → PatchVerdict
unfolding scope_rejections apply_rejections applied_or syntax_rejections effect_rejections
    api_rejections changed_signatures difference is_empty edited_files apply_edits each_unless
    still_passes
verify_patch tools base patch opts =
    let applied = apply_edits base patch.edits in
    let after = applied_or base applied in
    let new_effects = difference (tools.used_effects after) (tools.used_effects base) in
    let api_changes = changed_signatures (tools.signatures base) (tools.signatures after) in
    let impacted = tools.impacted_tests after (edited_files patch.edits) in
    let rejections =
      scope_rejections patch opts patch.edits
      ++ (apply_rejections applied
          ++ (syntax_rejections (tools.parse_errors after)
              ++ (effect_rejections opts opts.allowed_effects new_effects
                  ++ (api_rejections opts.forbid_api_break api_changes
                      ++ each_unless (still_passes tools base after impacted)
                          (codes "regressed test: ") impacted)))) in
    record {
      accepted = is_empty rejections;
      rejections = rejections;
      errors_after = tools.parse_errors after + tools.semantic_errors after;
      new_effects = new_effects;
      api_changes = api_changes;
      impacted = impacted;
      workspace = after;
    }
