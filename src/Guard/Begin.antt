-- ===== src/Guard/Begin.antt =====
-- src/guard.rs: `begin`, which opens a session over the working tree. The goals are those that the
-- Perdurefile declares, in source order; `none` is a file that is missing.
pub mod Fresh
use perdure.Prelude.{
  ℕ, ◌==◌, ◌≡◌, ◌≢◌, refl, arith, Text, Bool, true, false, not, Option, none, some, List, [], ◌∷◌,
  ◌++◌, codes, Result, ok, err, text_eq, text_eq_sound, starts_with, any, length, ◌||◌, In, here,
  there, if◌then◌else◌, Bool-cases, inl, inr, All,
}
use perdure.Goal.{GoalSpec, required_commands}
use perdure.Json.{nat, number, string, json}
use perdure.Run.{RunState, initial_state}
use perdure.Snapshot.{Entries, Ignore, load, snapshot}
use perdure.Guard.{Session, strings}

-- The reasons of a refusal, in the order of the tests.
pub data Refusal : Type 0 where
  no_perdurefile perdurefile_errors : Refusal
  no_such_goal : Text → Refusal
  no_goal several_goals : Refusal
  no_required_command no_write_scope placeholder : Refusal

abbrev pub placeholder_command : Text
placeholder_command = codes "set-your-test-command"

-- `str::contains` at a text.
unfoldable pub has_text : Text → Text → Bool
has_text needle [] = starts_with needle []
has_text needle (c ∷ s) = starts_with needle (c ∷ s) || has_text needle s

unfoldable pub find_goal : Text → List GoalSpec → Result GoalSpec Refusal
find_goal name [] = err (no_such_goal name)
find_goal name (g ∷ gs) = if text_eq g.name name then ok g else find_goal name gs

unfoldable pub sole_goal : List GoalSpec → Result GoalSpec Refusal
sole_goal [] = err no_goal
sole_goal (g ∷ []) = ok g
sole_goal (g ∷ h ∷ gs) = err several_goals

unfoldable pub choose_goal : Option Text → List GoalSpec → Result GoalSpec Refusal
unfolding find_goal sole_goal
choose_goal (some name) goals = find_goal name goals
choose_goal none goals = sole_goal goals

-- What the Perdurefile reads as.
pub data Perdurefile : Type 0 where
  missing erroneous : Perdurefile
  declares : List GoalSpec → Perdurefile

unfoldable pub is_nil : List Text → Bool
is_nil [] = true
is_nil (x ∷ xs) = false

unfoldable pub has_placeholder : GoalSpec → Bool
unfolding has_text
has_placeholder spec = any (has_text placeholder_command) (required_commands spec)

-- The three tests of a goal, in their order.
unfoldable pub admit : Bool → Bool → Bool → GoalSpec → Result GoalSpec Refusal
admit true _ _ spec = err no_required_command
admit false true _ spec = err no_write_scope
admit false false true spec = err placeholder
admit false false false spec = ok spec

unfoldable pub admit_goal : Result GoalSpec Refusal → Result GoalSpec Refusal
unfolding has_placeholder
admit_goal (err e) = err e
admit_goal (ok spec) =
    admit (is_nil (required_commands spec)) (is_nil spec.allow.fs_write) (has_placeholder spec) spec

unfoldable pub resolve : Perdurefile → Option Text → Result GoalSpec Refusal
unfolding admit_goal choose_goal
resolve missing name = err no_perdurefile
resolve erroneous name = err perdurefile_errors
resolve (declares goals) name = admit_goal (choose_goal name goals)

-- The session as it is written: the ignore set and the baseline are frozen here.
unfoldable pub open_session : Text → Option Text → Entries → GoalSpec → Session
open_session run_id ignore_file tree spec =
    let ignore = load ignore_file in
    let baseline = snapshot tree ignore in
    record {
      spec = spec;
      baseline = baseline;
      ignore = ignore;
      tree = tree;
      receipts = [];
      log =
          (
            codes "run.started",
            json (
                (codes "goal", string spec.name)
                ∷ (codes "kind", string (codes "coding"))
                ∷ (codes "strategy", string (codes "coding"))
                ∷ []),
          )
          ∷ (
            codes "guard.begun",
            json (
                (codes "allowed_files", strings spec.allow.fs_write)
                ∷ (codes "allowed_commands", strings spec.allow.shell)
                ∷ (codes "required_commands", strings (required_commands spec))
                ∷ []),
          )
          ∷ (codes "fs.snapshotted", json ((codes "files", number (nat (length baseline))) ∷ []))
          ∷ [];
      state = record (initial_state run_id spec.name (codes "coding")) {
        guard_phase = codes "open";
        commands_required = length (required_commands spec);
      };
    }

unfoldable pub opened :
    Text → Option Text → Entries → Result GoalSpec Refusal → Result Session Refusal
unfolding open_session
opened run_id ignore_file tree (err e) = err e
opened run_id ignore_file tree (ok spec) = ok (open_session run_id ignore_file tree spec)

-- `begin`, with the id that the store allocates and the text of `.perdureignore`.
unfoldable pub begin :
    Text → Option Text → Entries → Perdurefile → Option Text → Result Session Refusal
unfolding opened resolve
begin run_id ignore_file tree file name = opened run_id ignore_file tree (resolve file name)
