-- ===== src/Guard/Laundering.antt =====
-- src/guard.rs: which out-of-scope writes the gate of `verify_inner` stops.
use perdure.Prelude.{Text, contains, ◌≡◌, ap, ◌∙◌, not, ◌&&◌, ◌||◌}
use perdure.Prelude.Map.{lookup, IsSorted}
use perdure.Snapshot.{snapshot}
use perdure.Snapshot.Diffing.{differs, snapshot-IsSorted}
use perdure.Guard.{Session, is_link, in_writable, scope_diff}
use perdure.Guard.Scope.{classify_exact, contains-retain}
use perdure.Guard.Gate.{gate_paths}

-- The gate stops a path exactly if it is out of scope (a changed path that is not writable or is a
-- link now, or a writable link) and is not among the paths that an earlier verify recorded as
-- generated by its commands, whoever wrote it since. The baseline has sorted keys.
pub gate_exact :
    (s : Session) (p : Text)
    → IsSorted s.baseline
    → contains (gate_paths s) p ≡ (
        ((differs (lookup p s.baseline) (lookup p (snapshot s.tree s.ignore))
            && not (in_writable s.spec p && not (is_link (lookup p (snapshot s.tree s.ignore)))))
          || (is_link (lookup p (snapshot s.tree s.ignore)) && in_writable s.spec p))
        && not (contains s.state.tool_generated p))
unfolding gate_paths scope_diff
gate_exact s p hb =
    let head = snapshot s.tree s.ignore in
    let (i, o) = classify_exact s.spec s.baseline head p hb (snapshot-IsSorted s.tree s.ignore) in
    contains-retain (λ x. not (contains s.state.tool_generated x)) (scope_diff s).out_of_scope p
    ∙ ap (λ b. b && not (contains s.state.tool_generated p)) o
