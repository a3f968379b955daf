-- ===== src/Patch/Accepted.antt =====
-- src/patch.rs: what `verify_patch` accepts.
use perdure.Prelude.{
  ℕ, zero, suc, ◌≡◌, refl, Text, Bool, true, false, not, Option, none, some, List, [], ◌∷◌, ◌++◌,
  codes, Result, ok, err, contains, All,
}
use perdure.Patch.{
  Workspace, Edit, Patch, VerifyOpts, Toolchain, matches_any, in_writes, unless, scope_rejections,
  apply_rejections, applied_or, syntax_rejections, each_unless, effect_rejections, api_rejections,
  is_empty, edited_files, still_passes, apply_edits, verify_patch,
}

empty-append :
    (a b : List Text) → is_empty (a ++ b) ≡ true → (is_empty a ≡ true) × (is_empty b ≡ true)
unfolding is_empty
empty-append [] b h = (refl, h)
empty-append (x ∷ a) b h = absurd (cc h)

empty-unless : (b : Bool) (reason : Text) → is_empty (unless b reason) ≡ true → b ≡ true
unfolding is_empty unless
empty-unless true reason h = refl
empty-unless false reason h = absurd (cc h)

empty-each :
    (fine : Text → Bool) (reason : Text) (xs : List Text)
    → is_empty (each_unless fine reason xs) ≡ true
    → All (λ x. fine x ≡ true) xs
unfolding each_unless
empty-each fine reason [] h = tt
empty-each fine reason (x ∷ xs) h =
    let (a, b) = empty-append (unless (fine x) (reason ++ x)) (each_unless fine reason xs) h in
    (empty-unless (fine x) (reason ++ x) a, empty-each fine reason xs b)

-- The file of an edit is declared by the patch and granted by the goal.
unfoldable pub InScope : Patch → VerifyOpts → Edit → Type 0
InScope patch opts e =
    (matches_any patch.touches e.file ≡ true) × (in_writes opts.allowed_writes e.file ≡ true)

empty-scope :
    (patch : Patch) (opts : VerifyOpts) (es : List Edit)
    → is_empty (scope_rejections patch opts es) ≡ true
    → All (InScope patch opts) es
unfolding scope_rejections InScope
empty-scope patch opts [] h = tt
empty-scope patch opts (e ∷ es) h =
    let (a, b) = empty-append (unless (matches_any patch.touches e.file) _) _ h in
    let (c, d) = empty-append (unless (in_writes opts.allowed_writes e.file) _) _ b in
    ((empty-unless _ _ a, empty-unless _ _ c), empty-scope patch opts es d)

empty-apply :
    (base : Workspace) (r : Result Workspace Text)
    → is_empty (apply_rejections r) ≡ true
    → r ≡ ok (applied_or base r)
unfolding is_empty apply_rejections applied_or
empty-apply base (ok w) h = refl
empty-apply base (err e) h = absurd (cc h)

empty-syntax : (n : ℕ) → is_empty (syntax_rejections n) ≡ true → n ≡ 0
unfolding is_empty syntax_rejections
empty-syntax zero h = refl
empty-syntax (suc n) h = absurd (cc h)

-- A new effect is one that the goal grants, or, without a goal, that the options allow.
unfoldable pub MayDo : VerifyOpts → Option (List Text) → Text → Type 0
MayDo opts (some granted) e = contains granted e ≡ true
MayDo opts none e = opts.allow_new_effects ≡ true

empty-effects :
    (opts : VerifyOpts) (o : Option (List Text)) (xs : List Text)
    → is_empty (effect_rejections opts o xs) ≡ true
    → All (MayDo opts o) xs
unfolding effect_rejections MayDo
empty-effects opts (some granted) xs h =
    empty-each (contains granted) (codes "introduced effect outside the goal's authority: ") xs h
empty-effects opts none xs h =
    empty-each (λ e. opts.allow_new_effects) (codes "introduced new effect: ") xs h

empty-api :
    (forbid : Bool) (xs : List Text)
    → is_empty (api_rejections forbid xs) ≡ true
    → All (λ c. not forbid ≡ true) xs
unfolding api_rejections
empty-api forbid xs h = empty-each (λ c. not forbid) (codes "changed public API: ") xs h

-- An accepted patch edits only files that it declares and that the goal grants, its edits apply, the
-- result has no syntax error, each new effect is granted, no signature changed if that is forbidden,
-- and each impacted test that passed before passes after.
pub verify_patch_sound :
    (tools : Toolchain) (base : Workspace) (patch : Patch) (opts : VerifyOpts)
    → let v = verify_patch tools base patch opts in
      v.accepted ≡ true
      → All (InScope patch opts) patch.edits
        × (apply_edits base patch.edits ≡ ok v.workspace)
        × (tools.parse_errors v.workspace ≡ 0)
        × All (MayDo opts opts.allowed_effects) v.new_effects
        × All (λ c. not opts.forbid_api_break ≡ true) v.api_changes
        × All (λ t. still_passes tools base v.workspace v.impacted t ≡ true) v.impacted
unfolding verify_patch
verify_patch_sound tools base patch opts h =
    let after = applied_or base (apply_edits base patch.edits) in
    let impacted = tools.impacted_tests after (edited_files patch.edits) in
    let (scope, h1) = empty-append (scope_rejections patch opts patch.edits) _ h in
    let (applied, h2) = empty-append (apply_rejections (apply_edits base patch.edits)) _ h1 in
    let (syntax, h3) = empty-append (syntax_rejections _) _ h2 in
    let (effects, h4) = empty-append (effect_rejections opts opts.allowed_effects _) _ h3 in
    let (api, tests) = empty-append (api_rejections opts.forbid_api_break _) _ h4 in
    (
      empty-scope patch opts patch.edits scope,
      empty-apply base (apply_edits base patch.edits) applied,
      empty-syntax _ syntax,
      empty-effects opts opts.allowed_effects _ effects,
      empty-api opts.forbid_api_break _ api,
      empty-each (still_passes tools base after impacted) (codes "regressed test: ") impacted tests,
    )
