-- ===== src/Guard/Gate.antt =====
-- src/guard.rs: the rest of `verify_inner`: the scope gate, the loop over the required commands and
-- the verdict.
use perdure.Prelude.{
  ℕ, suc, ◌+◌, ◌==◌, Text, Bool, true, false, not, ◌&&◌, Option, some, List, [], ◌∷◌, ◌++◌, codes,
  join, length, contains, retain, if◌then◌else◌, Result, ok, err,
}
use perdure.Prelude.Decimal.{print_nat}
use perdure.Goal.{command_allowed, required_commands}
use perdure.Json.{Value, nat, neg, number, string, json, get}
use perdure.Snapshot.{Manifest}
use perdure.Guard.{
  Session, scope_diff, manifest_digest, scope_violation, strings, receipt_passed, append,
}
use perdure.Guard.Verify.{Shell, Obtained, got, failed, crashed, obtain}

pub record GuardStatus : Type 0 where
  pub run_id : Text
  pub goal : Text
  pub phase : Text
  pub verified : Bool
  pub commands_required : ℕ
  pub commands_passed : ℕ
  pub out_of_scope : ℕ
  pub receipts : ℕ
  pub step : ℕ

unfoldable pub status : Session → GuardStatus
status s = record {
  run_id = s.state.run_id;
  goal = s.state.goal;
  phase = s.state.guard_phase;
  verified = s.state.verified;
  commands_required = s.state.commands_required;
  commands_passed = s.state.commands_passed;
  out_of_scope = s.state.out_of_scope;
  receipts = length s.receipts;
  step = s.state.step;
}

-- The loop over the commands: how many passed and what failed, or an early return.
pub data Checked : Type 0 where
  through : Session → ℕ → List Text → Checked
  halted : Session → Text → Checked
  cut : Session → Checked

unfoldable pub and_then : Checked → (Session → ℕ → List Text → Checked) → Checked
and_then (through s passed failures) k = k s passed failures
and_then (halted s e) k = halted s e
and_then (cut s) k = cut s

-- `as_i64` of the exit code, printed.
exit_text : Option Value → Text
exit_text (some (number (nat n))) = print_nat n
exit_text (some (number (neg n))) = b'-' ∷ print_nat (n + 1)
exit_text _ = codes "timeout"

unfoldable pub verdict : Text → ℕ → List Text → Obtained → Checked
unfolding exit_text
verdict cmd passed failures (got s r) =
    if receipt_passed r
    then through s (suc passed) failures
    else through s passed (
        failures ++ (cmd ++ (codes ": exit " ++ exit_text (get r.output (codes "exit_code")))) ∷ [])
verdict cmd passed failures (failed s e) = halted s e
verdict cmd passed failures (crashed s) = cut s

-- A required command must be granted too.
unfoldable pub check_one : Shell → Option ℕ → Bool → Text → Text → Session → ℕ → List Text → Checked
check_one shell crash rerun digest cmd s passed failures =
    if command_allowed s.spec cmd
    then verdict cmd passed failures (obtain shell crash rerun digest s cmd)
    else through s passed
        (failures ++ (codes "`" ++ (cmd ++ codes "` is required but not in allow.shell")) ∷ [])

unfoldable pub check_all :
    Shell → Option ℕ → Bool → Text → List Text → Session → ℕ → List Text → Checked
check_all shell crash rerun digest [] s passed failures = through s passed failures
check_all shell crash rerun digest (cmd ∷ cmds) s passed failures =
    and_then (check_one shell crash rerun digest cmd s passed failures)
      (check_all shell crash rerun digest cmds)

unfoldable pub is_empty : List Text → Bool
is_empty [] = true
is_empty (_ ∷ _) = false

-- `state.verified` at the end of the loop.
unfoldable pub all_passed : List Text → ℕ → List Text → Bool
all_passed required passed failures =
    not (is_empty required) && passed == length required && is_empty failures

unfoldable pub pass : Session → ℕ → Session
pass s passed =
    let post = scope_diff s in
    append
      (record s {
        state = record s.state {
          commands_passed = passed;
          verified = true;
          guard_phase = codes "verified";
          verified_digest = manifest_digest post.head;
          tool_generated = post.out_of_scope;
        };
      })
      (codes "verify.passed")
      (json (
        (codes "commands", strings (required_commands s.spec))
        ∷ (codes "summary", string (print_nat passed ++ codes " command(s) passed"))
        ∷ (codes "tool_generated", strings post.out_of_scope)
        ∷ []))

unfoldable pub fail : Session → ℕ → List Text → Session
fail s passed failures =
    append
      (record s {
        state = record s.state {
          commands_passed = passed;
          verified = false;
          guard_phase = codes "open";
          verified_digest = [];
          tool_generated = [];
        };
      })
      (codes "verify.failed")
      (json (
        (codes "reason", string (codes "command_failed"))
        ∷ (codes "summary", string (join (codes "; ") failures))
        ∷ []))

-- An error leaves the state as it was on disk.
unfoldable pub conclude : Session → Checked → Session × Result GuardStatus Text
unfolding pass fail
conclude before (halted s e) = (record s { state = before.state }, err e)
conclude before (cut s) =
    let stopped : Session = record s {
      state = record s.state { verified = false; guard_phase = codes "open" };
    } in
    (stopped, ok (status stopped))
conclude before (through s passed failures) =
    let after =
      if all_passed (required_commands before.spec) passed failures
      then pass s passed
      else fail s passed failures in
    (after, ok (status after))

-- The out-of-scope paths that no earlier verified command made.
unfoldable pub gate_paths : Session → List Text
gate_paths s = retain (λ p. not (contains s.state.tool_generated p)) (scope_diff s).out_of_scope

unfoldable pub violations : Manifest → List Text → Session → Session
violations head [] s = s
violations head (p ∷ ps) s =
    violations head ps
      (append s (codes "scope.violation") (scope_violation head p s.spec.allow.fs_write))

unfoldable pub block : Session → List Text → Session
unfolding violations
block s paths =
    let noted = violations (scope_diff s).head paths s in
    append
      (record noted {
        state = record noted.state {
          out_of_scope = length paths;
          verified = false;
          guard_phase = codes "open";
        };
      })
      (codes "verify.failed")
      (json (
        (codes "reason", string (codes "out_of_scope"))
        ∷ (
          codes "summary",
          string (
              print_nat (length paths)
              ++ (codes " out-of-scope write(s): " ++ join (codes ", ") paths)),
        )
        ∷ []))

-- The session as the loop over the commands finds it.
unfoldable pub opened : Session → Session
opened s = record s {
  state = record s.state {
    out_of_scope = 0;
    commands_required = length (required_commands s.spec);
  };
}

unfoldable pub head_digest : Session → Text
head_digest s = manifest_digest (scope_diff s).head

unfoldable pub gate :
    Shell → Option ℕ → Bool → Session → List Text → Session × Result GuardStatus Text
unfolding block
gate shell crash rerun s [] =
    conclude s
      (check_all shell crash rerun (head_digest s) (required_commands s.spec) (opened s) 0 [])
gate shell crash rerun s (p ∷ ps) = let after = block s (p ∷ ps) in (after, ok (status after))

unfoldable pub verify_inner : Shell → Option ℕ → Bool → Session → Session × Result GuardStatus Text
unfolding gate
verify_inner shell crash rerun s = gate shell crash rerun s (gate_paths s)
