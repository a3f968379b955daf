-- ===== src/Guard/Plan.antt =====
-- src/guard.rs: the view that the harness gives an agent: `compute_plan`, `last_failure`,
-- `rejection_from_plan`, `next`, `diff` with its blind spots, and `verify_report`. Instructions and
-- done conditions are prose and left out.
pub mod Certified
use perdure.Prelude.{
  ℕ, ltb, ◌≡◌, refl, Text, Bool, true, false, not, ◌&&◌, ◌||◌, Option, none, some, List, [], ◌∷◌,
  ◌++◌, codes, map, any, retain, length, text_eq, if◌then◌else◌, Result, ok, err, ap, ◌∙◌, arith,
}
use perdure.Prelude.Decimal.{print_nat}
use perdure.Goal.{GoalSpec, required_commands, command_allowed}
use perdure.Json.{Value}
use perdure.Run.{RunState, History}
use perdure.Snapshot.{Diff}
use perdure.Guard.{Session, classify, scope_diff, manifest_digest}
use perdure.Guard.Audit.{text_at}
use perdure.Guard.Begin.{has_text, is_nil}
use perdure.Guard.Verify.{Shell}
use perdure.Guard.Gate.{GuardStatus, verify_inner}
use perdure.Guard.Finalized.{Answers, commit_exact}
use perdure.Guard.Commit.{commit, tree_digest}
use perdure.Guard.Advice.{Advice, agent_state, finalize_is_accepted}

-- The latest event of the gate, and its summary if it is a failure.
newest : Option Text → List (Text × Value) → Option Text
newest found [] = found
newest found ((kind, payload) ∷ log) =
    if text_eq kind (codes "verify.failed")
    then newest (text_at payload (codes "summary")) log
    else if text_eq kind (codes "verify.passed")
    then newest none log
    else newest found log

unfoldable pub last_failure : History → Option Text
unfolding newest
last_failure log = newest none log

pub record ScopeViolation : Type 0 where
  pub path : Text
  pub reason : Text
  pub allowed : List Text

pub record AgentPlan : Type 0 where
  pub advice : Advice
  pub violations : List ScopeViolation
  pub diff : Diff
  pub in_scope : List Text
  pub out_of_scope : List Text
  pub current_failure : Option Text
  pub cmd_misconfigured : Bool

unfoldable pub is_misconfigured : GoalSpec → Bool
is_misconfigured spec = any (λ c. not (command_allowed spec c)) (required_commands spec)

unfoldable pub has_changes : Diff → Bool
has_changes d = not (is_nil d.added && is_nil d.modified && is_nil d.deleted)

not_the_gate : Option Text → Bool
not_the_gate none = false
not_the_gate (some f) = not (has_text (codes "out-of-scope") f)

unfoldable pub is_command_failing : GoalSpec → RunState → List Text → Option Text → Bool
unfolding not_the_gate
is_command_failing spec state out failure =
    not state.verified
    && is_nil out
    && not (is_misconfigured spec)
    && ltb 0 state.commands_required
    && ltb state.commands_passed state.commands_required
    && not_the_gate failure

unfoldable pub violation : GoalSpec → Text → ScopeViolation
violation spec p = record {
  path = p;
  reason = codes "not allowed by fs.write";
  allowed = spec.allow.fs_write;
}

unfoldable pub compute_plan : Session → AgentPlan
unfolding last_failure is_misconfigured has_changes is_command_failing violation
compute_plan s =
    let d = scope_diff s in
    let failure = last_failure s.log in
    record {
      advice =
          agent_state s.state.guard_phase s.state.verified
            (s.state.verified && text_eq (manifest_digest d.head) s.state.verified_digest)
            (length d.out_of_scope) (has_changes d.changes) (is_misconfigured s.spec)
            (is_command_failing s.spec s.state d.out_of_scope failure);
      violations = map (violation s.spec) d.out_of_scope;
      diff = d.changes;
      in_scope = d.in_scope;
      out_of_scope = d.out_of_scope;
      current_failure = failure;
      cmd_misconfigured = is_misconfigured s.spec;
    }

pub record Rejection : Type 0 where
  pub kind : Text
  pub message : Text
  pub violations : List ScopeViolation
  pub repair_strategies : List Text
  pub preferred_kind : Text
  pub preferred_path : Option Text

or_message : Option Text → Text
or_message none = codes "a required command failed"
or_message (some f) = f

-- The cases behind the scope: a verified session, a misconfigured goal, a failed command.
unfoldable pub rejection_in_scope : Bool → Bool → Bool → Option Text → Option Rejection
unfolding or_message
rejection_in_scope true mis failing failure = none
rejection_in_scope false true failing failure = some (record {
  kind = codes "misconfigured";
  message = codes "A required command is not allowlisted in the goal's allow.shell.";
  violations = [];
  repair_strategies =
      codes "add_command_to_allow_shell" ∷ codes "ask_human_to_fix_perdurefile" ∷ [];
  preferred_kind = codes "ask_human";
  preferred_path = none;
})
rejection_in_scope false false true failure = some (record {
  kind = codes "command_failed";
  message = or_message failure;
  violations = [];
  repair_strategies = codes "edit_files_to_fix_failure" ∷ codes "rerun_verify" ∷ [];
  preferred_kind = codes "edit_then_verify";
  preferred_path = none;
})
rejection_in_scope false false false failure = none

unfoldable pub rejection_of : List Text → RunState → AgentPlan → Option Rejection
unfolding rejection_in_scope
rejection_of [] state plan =
    rejection_in_scope state.verified plan.cmd_misconfigured
      (ltb 0 state.commands_required && ltb state.commands_passed state.commands_required)
      plan.current_failure
rejection_of (p ∷ ps) state plan = some (record {
  kind = codes "scope_violation";
  message =
      print_nat (length (p ∷ ps)) ++ codes " changed file(s) outside the allowed write scope.";
  violations = plan.violations;
  repair_strategies =
      codes "revert_out_of_scope_file"
      ∷ codes "move_change_into_allowed_scope"
      ∷ codes "ask_human_to_expand_goal_authority"
      ∷ [];
  preferred_kind = codes "revert_file";
  preferred_path = some p;
})

unfoldable pub unless_ended : Bool → Option Rejection → Option Rejection
unless_ended true r = none
unless_ended false r = r

unfoldable pub has_ended : Text → Bool
has_ended phase = text_eq phase (codes "committed") || text_eq phase (codes "aborted")

unfoldable pub rejection_from_plan : RunState → AgentPlan → Option Rejection
unfolding unless_ended has_ended rejection_of
rejection_from_plan state plan =
    unless_ended (has_ended state.guard_phase) (rejection_of plan.out_of_scope state plan)

pub record GuardNext : Type 0 where
  pub run_id : Text
  pub goal : Text
  pub advice : Advice
  pub allowed_files : List Text
  pub allowed_commands : List Text
  pub scope_violations : List ScopeViolation

unfoldable pub next : Session → GuardNext
unfolding compute_plan
next s =
    let plan = compute_plan s in
    record {
      run_id = s.state.run_id;
      goal = s.state.goal;
      advice = plan.advice;
      allowed_files = s.spec.allow.fs_write;
      allowed_commands = s.spec.allow.shell;
      scope_violations = plan.violations;
    }

-- `str::ends_with` at a text.
ends_with : Text → Text → Bool
ends_with end [] = text_eq end []
ends_with end (c ∷ s) = text_eq end (c ∷ s) || ends_with end s

-- The frozen globs without the twin `entry/**` of each.
unfoldable pub blind_spots : Session → List Text
unfolding ends_with
blind_spots s = retain (λ g. not (ends_with (codes "/**") g)) s.ignore.globs

pub record GuardDiff : Type 0 where
  pub changes : Diff
  pub in_scope : List Text
  pub out_of_scope : List Text
  pub rejected : Bool
  pub blind_spots : List Text

unfoldable pub diff : Session → GuardDiff
diff s =
    let d = scope_diff s in
    record {
      changes = d.changes;
      in_scope = d.in_scope;
      out_of_scope = d.out_of_scope;
      rejected = not (is_nil d.out_of_scope);
      blind_spots = blind_spots s;
    }

pub record GuardVerify : Type 0 where
  pub status : GuardStatus
  pub rejection : Option Rejection
  pub next_action : Text
  pub recommended_command : Text

reported : Session × Result GuardStatus Text → Session × Result GuardVerify Text
unfolding rejection_from_plan compute_plan
reported (s, err e) = (s, err e)
reported (s, ok status) =
    let plan = compute_plan s in
    (
      s,
      ok (record {
        status = status;
        rejection = rejection_from_plan s.state plan;
        next_action = plan.advice.action;
        recommended_command = plan.advice.command;
      }),
    )

unfoldable pub verify_report : Shell → Bool → Session → Session × Result GuardVerify Text
unfolding reported
verify_report shell rerun s = reported (verify_inner shell none rerun s)
