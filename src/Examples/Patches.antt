-- ===== src/Examples/Patches.antt =====
-- A patch of one file, and a call graph of three functions.
use perdure.Prelude.{
  ◌≡◌, ◌↔◌, refl, true, false, not, none, some, [], ◌∷◌, codes, ok, contains, text_eq, here, All,
  arith,
}
use perdure.Prelude.Map
use perdure.Prelude.Map.{Map}
use perdure.Prelude.TextOrder.{sort_texts}
use perdure.Glob.{glob_match}
use perdure.Patch.{
  Workspace, Bytes, Edit, Patch, VerifyOpts, Toolchain, apply_file, apply_edits, verify_patch,
  matches_any, in_writes, unless, scope_rejections, applied_or, each_unless, difference,
  changed_signatures, still_passes, by_file, insert_desc, sort_desc, replace_range, out_of_bounds,
  apply_one, apply_sorted, and_then, apply_files, apply_rejections, syntax_rejections,
  effect_rejections, api_rejections, signature_changes, removed_signatures, is_empty, or_empty,
  apply_found, put_back,
}
use perdure.Patch.Splicing.{spliced, Ascending, Increasing, apply_file-eq-spliced}
use perdure.Patch.Accepted.{InScope, MayDo, verify_patch_sound}
use perdure.Patch.Impact.{Graph, Reaches, seed, call, callees, reachable, impacted_tests}
use perdure.Patch.Impact.Closure.{reachable_exact, impacted_complete}

abbrev edit : Edit
edit = record { file = codes "src/a"; start = 1; end = 2; replacement = 7 ∷ 8 ∷ [] }

abbrev later : Edit
later = record { file = codes "src/a"; start = 3; end = 3; replacement = 9 ∷ [] }

abbrev text : Bytes
text = 1 ∷ 2 ∷ 3 ∷ 4 ∷ []

apply_file-eq-spliced_example :
    apply_file (edit ∷ later ∷ []) text ≡ ok (spliced 0 text (edit ∷ later ∷ []))
apply_file-eq-spliced_example =
    apply_file-eq-spliced (edit ∷ later ∷ []) text
      (unfold Increasing in ((omega arith, tt), (tt, tt)))
      (unfold Ascending in (omega arith, omega arith, (omega arith, omega arith, omega arith)))

abbrev base : Workspace
base = (codes "src/a", text) ∷ []

abbrev patch : Patch
patch = record {
  name = codes "fix";
  reason = codes "a test fails";
  touches = codes "src/a" ∷ [];
  edits = edit ∷ [];
  prove = [];
}

abbrev opts : VerifyOpts
opts = record {
  allow_new_effects = false;
  forbid_api_break = true;
  allowed_effects = none;
  allowed_writes = some (codes "src/a" ∷ []);
}

-- A checker that finds nothing, and one test that passes.
abbrev tools : Toolchain
tools = record {
  parse_errors = λ w. 0;
  semantic_errors = λ w. 0;
  used_effects = λ w. [];
  signatures = λ w. [];
  impacted_tests = λ w files. codes "works" ∷ [];
  test_passed = λ w tests t. true;
}

accepted : (verify_patch tools base patch opts).accepted ≡ true
unfolding verify_patch scope_rejections unless matches_any in_writes glob_match apply_rejections
    syntax_rejections effect_rejections api_rejections each_unless changed_signatures
    signature_changes removed_signatures sort_texts difference is_empty still_passes apply_edits
    by_file or_empty apply_files apply_found put_back and_then apply_file sort_desc insert_desc
    apply_sorted out_of_bounds apply_one replace_range Map.insert Map.lookup text_eq applied_or
    contains
accepted = refl

verify_patch_sound_example :
    let v = verify_patch tools base patch opts in
    All (InScope patch opts) (edit ∷ [])
    × (apply_edits base (edit ∷ []) ≡ ok v.workspace)
    × (tools.parse_errors v.workspace ≡ 0)
    × All (MayDo opts none) v.new_effects
    × All (λ c. not true ≡ true) v.api_changes
    × All (λ t. still_passes tools base v.workspace v.impacted t ≡ true) v.impacted
verify_patch_sound_example = verify_patch_sound tools base patch opts accepted

-- `main` calls `parse`, which calls `lex` and itself.
abbrev graph : Graph
graph =
    (codes "main", codes "parse" ∷ [])
    ∷ (codes "parse", codes "lex" ∷ codes "parse" ∷ [])
    ∷ (codes "lex", [])
    ∷ []

reachable_exact_example :
    (contains (reachable graph (codes "main" ∷ [])) (codes "lex") ≡ true)
    ↔ Reaches graph (codes "main" ∷ []) (codes "lex")
reachable_exact_example = reachable_exact graph (codes "main" ∷ []) (codes "lex")

to_lex : Reaches graph (codes "main" ∷ []) (codes "lex")
unfolding contains text_eq callees Map.lookup
to_lex =
    call {x = codes "parse"} (codes "lex")
      (call {x = codes "main"} (codes "parse") (seed {x = codes "main"} refl) refl) refl

impacted_complete_example :
    contains
      (impacted_tests graph ((codes "t", codes "main" ∷ []) ∷ []) (codes "lex" ∷ []))
      (codes "t")
    ≡ true
impacted_complete_example =
    impacted_complete graph ((codes "t", codes "main" ∷ []) ∷ []) (codes "lex" ∷ []) (codes "t")
      (codes "main" ∷ []) (codes "lex") (here refl) to_lex (unfold contains text_eq in refl)
