-- ===== src/Runtime.antt =====
-- src/runtime.rs: the repair of a goal: what one turn of `drive` does to the run. The step of the coder
-- is a parameter: what it answers depends on the workspace alone.
pub mod Loop
pub mod Replay
pub mod Budgets
pub mod Resume
use perdure.Prelude.{
  ℕ, zero, suc, ◌+◌, ◌-◌, ◌==◌, ltb, leb, Text, Bool, true, false, not, ◌&&◌, Option, none, some,
  List, [], ◌∷◌, ◌++◌, codes, map, if◌then◌else◌,
}
use perdure.Goal.{GoalSpec, step_budget, retry_budget}
use perdure.Json.{Value, nat, number, string, array, items_of, json}
use perdure.Run.{RunState, History}

pub record StepPatch (W : Type 0) : Type 0 where
  pub accepted : Bool
  pub new_ws : W
  pub diag : Value
  pub patch_name : Text
  pub patch : Value
  pub verdict : Value
  pub verdict_passed : ℕ
  pub verdict_failed : ℕ
  pub new_effects : List Text
  pub rejections : List Text
  pub regressed : Bool
  pub tests_run : ℕ
  pub diff_chars : ℕ

pub data StepOutcome (W : Type 0) : Type 0 where
  done : ℕ → ℕ → StepOutcome W
  no_action : ℕ → ℕ → ℕ → StepOutcome W
  patched : StepPatch W → StepOutcome W

-- What `agent::collect_problems` counts: the errors, the tests that pass and those that fail.
pub record Problems : Type 0 where
  pub errors : ℕ
  pub passed : ℕ
  pub failed : ℕ

pub record Coder (W : Type 0) : Type 0 where
  pub step_once : W → StepOutcome W
  pub collect_problems : W → Problems

pub record Checkpoint (W : Type 0) : Type 0 where
  pub step : ℕ
  pub files : W
  pub consecutive_rejections : ℕ
  pub patches_applied : ℕ
  pub patches_rejected : ℕ
  pub tests_run : ℕ
  pub regressions : ℕ
  pub diff_chars : ℕ

-- The workspace in memory, and what is on disk: the state, the history, the latest checkpoint.
pub record Run (W : Type 0) : Type 0 where
  pub ws : W
  pub state : RunState
  pub log : History
  pub checkpoint : Option (Checkpoint W)

pub record RunResult (W : Type 0) : Type 0 where
  pub run : Run W
  pub crashed : Bool

pub data Iteration (W : Type 0) : Type 0 where
  finished : RunResult W → Iteration W
  again : Run W → Iteration W

abbrev texts : List Text → Value
texts ts = array (items_of (map string ts))

-- The counters that tell an accepted patch from a rejected one.
unfoldable pub judged : Bool → ℕ → RunState → RunState
judged true chars st = record st {
  patches_applied = st.patches_applied + 1;
  diff_chars = st.diff_chars + chars;
  consecutive_rejections = 0;
}
judged false chars st = record st {
  patches_rejected = st.patches_rejected + 1;
  consecutive_rejections = st.consecutive_rejections + 1;
}

module _ {W : Type 0} where
  unfoldable pub exhausted : Coder W → GoalSpec → Run W → RunResult W
  exhausted coder spec r =
      let found = coder.collect_problems r.ws in
      record {
        run = record r {
          state = record r.state {
            status = codes "budget_exhausted";
            final_errors = found.errors;
            tests_passed = found.passed;
            tests_failed = found.failed;
          };
          log =
              r.log
              ++ (
                codes "budget.exhausted",
                json (
                    (codes "steps", number (nat r.state.step))
                    ∷ (codes "limit", number (nat (step_budget spec)))
                    ∷ []),
              )
                ∷ [];
        };
        crashed = false;
      }

  unfoldable pub completed : Run W → ℕ → ℕ → RunResult W
  completed r passed failed = record {
    run = record r {
      state = record r.state {
        status = codes "completed";
        final_errors = 0;
        tests_passed = passed;
        tests_failed = failed;
      };
      log =
          r.log
          ++ (
            codes "run.completed",
            json (
                (codes "steps", number (nat r.state.step))
                ∷ (codes "patches_applied", number (nat r.state.patches_applied))
                ∷ (codes "tests_passed", number (nat passed))
                ∷ []),
          )
            ∷ [];
    };
    crashed = false;
  }

  unfoldable pub stuck : Run W → ℕ → ℕ → ℕ → RunResult W
  stuck r errors passed failed = record {
    run = record r {
      state = record r.state {
        status = codes "failed";
        final_errors = errors;
        tests_passed = passed;
        tests_failed = failed;
      };
      log =
          r.log
          ++ (
            codes "run.failed",
            json (
                (
                  codes "reason",
                  string (codes "no actionable diagnostic — needs a model-backed coder"),
                )
                ∷ (codes "errors", number (nat errors))
                ∷ []),
          )
            ∷ [];
    };
    crashed = false;
  }

  unfoldable pub gave_up : Coder W → Run W → RunResult W
  gave_up coder r =
      let found = coder.collect_problems r.ws in
      record {
        run = record r {
          state = record r.state {
            status = codes "failed";
            final_errors = found.errors;
            tests_passed = found.passed;
            tests_failed = found.failed;
          };
          log =
              r.log
              ++ (
                codes "run.failed",
                json (
                    (codes "reason", string (codes "retry budget exhausted"))
                    ∷ (codes "rejections", number (nat r.state.patches_rejected))
                    ∷ []),
              )
                ∷ [];
        };
        crashed = false;
      }

  tested : StepPatch W → Value
  tested p = json (
      (codes "passed", number (nat p.verdict_passed))
      ∷ (codes "failed", number (nat p.verdict_failed))
      ∷ [])

  -- The events of a patch.
  patch_events : StepPatch W → History
  patch_events p =
      (codes "diagnostic.emitted", p.diag)
      ∷ (codes "patch.proposed", p.patch)
      ∷ ((elim p.new_effects [
        | [] ↦ []
        | _ ∷ _ ↦
            (codes "effect.delta_detected", json ((codes "new_effects", texts p.new_effects) ∷ []))
            ∷ []
      ])
          ++ ((if p.accepted
                then (codes "patch.verified", p.verdict)
                  ∷ (codes "patch.applied", json ((codes "patch", string p.patch_name) ∷ []))
                  ∷ []
                else (
                  codes "patch.rejected",
                  json (
                      (codes "patch", string p.patch_name)
                      ∷ (codes "rejections", texts p.rejections)
                      ∷ []),
                )
                  ∷ [])
              ++ (codes "test.completed", tested p) ∷ []))

  -- The counters behind a patch, accepted or not, with the step that it was.
  unfoldable pub counted : RunState → StepPatch W → RunState
  unfolding judged
  counted st p = judged p.accepted p.diff_chars (record st {
    tests_run = st.tests_run + p.tests_run;
    regressions = if p.regressed then st.regressions + 1 else st.regressions;
    step = st.step + 1;
  })

  unfoldable pub checkpoint_of : RunState → W → Checkpoint W
  checkpoint_of st ws = record {
    step = st.step;
    files = ws;
    consecutive_rejections = st.consecutive_rejections;
    patches_applied = st.patches_applied;
    patches_rejected = st.patches_rejected;
    tests_run = st.tests_run;
    regressions = st.regressions;
    diff_chars = st.diff_chars;
  }

  -- The run with the step of the patch made durable.
  unfoldable pub advance : Run W → StepPatch W → Run W
  unfolding tested patch_events
  advance r p =
      let st = counted r.state p in
      let ws = if p.accepted then p.new_ws else r.ws in
      record {
        ws = ws;
        state = st;
        log =
            (r.log ++ patch_events p)
            ++ (codes "checkpoint.written", json ((codes "step", number (nat st.step)) ∷ [])) ∷ [];
        checkpoint = some (checkpoint_of st ws);
      }
