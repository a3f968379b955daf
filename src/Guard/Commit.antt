-- ===== src/Guard/Commit.antt =====
-- src/guard.rs: `commit` and `abort`.
use perdure.Prelude.{
  Text, Bool, true, false, Option, none, some, List, [], ◌∷◌, ◌++◌, codes, join, length, text_eq,
}
use perdure.Json.{nat, number, string, json}
use perdure.Run.{RunState}
use perdure.Snapshot.{snapshot}
use perdure.Guard.{Session, manifest_digest, append, scope_violation}
use perdure.Guard.Gate.{gate_paths}

pub record GuardOutcome : Type 0 where
  pub run_id : Text
  pub ok : Bool
  pub reason : Option Text
  pub status : Text
  pub phase : Text

unfoldable pub refuse : Session → Text → GuardOutcome
refuse s reason = record {
  run_id = s.state.run_id;
  ok = false;
  reason = some reason;
  status = s.state.status;
  phase = s.state.guard_phase;
}

unfoldable pub accept : Session → GuardOutcome
accept s = record {
  run_id = s.state.run_id;
  ok = true;
  reason = none;
  status = s.state.status;
  phase = s.state.guard_phase;
}

unfoldable pub finalized : Session → Session
finalized s =
    let state : RunState = record s.state {
      status = codes "completed";
      guard_phase = codes "committed";
    } in
    append
      (append (record s { state = state }) (codes "guard.committed")
        (json (
          (codes "commands_passed", number (nat s.state.commands_passed))
          ∷ (codes "receipts", number (nat (length s.receipts)))
          ∷ [])))
      (codes "run.completed") (json ((codes "kind", string (codes "coding")) ∷ []))

unfoldable pub note_violations : List Text → Session → Session
note_violations [] s = s
note_violations (p ∷ ps) s = note_violations ps (
    append s (codes "scope.violation")
      (scope_violation (snapshot s.tree s.ignore) p s.spec.allow.fs_write))

-- The tree is not the certified one: the reason names what the agent wrote out of scope, if it did.
unfoldable pub changed_since : Session → List Text → Session × GuardOutcome
unfolding note_violations
changed_since s [] =
    (s, refuse s (codes "tree changed since verify — run `perdure guard verify` again"))
changed_since s (p ∷ ps) =
    let noted = note_violations (p ∷ ps) s in
    let after : Session = record noted {
      state = record noted.state { out_of_scope = length (p ∷ ps) };
    } in
    (
      after,
      refuse after
          (codes "out-of-scope writes present since verify: " ++ join (codes ", ") (p ∷ ps)),
    )

-- The digest of the tree as it is now.
unfoldable pub tree_digest : Session → Text
tree_digest s = manifest_digest (snapshot s.tree s.ignore)

-- The two tests in turn: the verified bit, and whether the tree is the certified one.
unfoldable pub decide : Session → Bool → Bool → Session × GuardOutcome
unfolding changed_since accept
decide s false same = (s, refuse s (codes "not verified — run `perdure guard verify` first"))
decide s true false = changed_since s (gate_paths s)
decide s true true = (finalized s, accept (finalized s))

unfoldable pub commit : Session → Session × GuardOutcome
commit s = decide s s.state.verified (text_eq (tree_digest s) s.state.verified_digest)

unfoldable pub abort : Session → Session × GuardOutcome
unfolding accept
abort s =
    let state : RunState = record s.state {
      status = codes "cancelled";
      guard_phase = codes "aborted";
    } in
    let after =
      append (append (record s { state = state }) (codes "guard.aborted") (json []))
        (codes "run.cancelled") (json ((codes "kind", string (codes "coding")) ∷ [])) in
    (after, accept after)
