-- ===== src/Examples/Runs.antt =====
-- Runs of two coders: one that repairs a problem at each step, and one whose patches are rejected.
use perdure.Prelude.{ℕ, zero, suc, ◌≡◌, refl, codes, Bool, true, false, none, some, [], ltb, arith}
use perdure.Goal.{GoalSpec, step_budget, retry_budget}
use perdure.Json.{null}
use perdure.Run.{initial_state}
use perdure.Runtime.{
  StepPatch, StepOutcome, done, patched, Problems, Coder, Run, RunResult, advance, counted, judged,
}
use perdure.Runtime.Loop.{
  drive, simulate, resumed, continue, iterate, turn, react, after_patch, crashes,
}
use perdure.Runtime.Replay.{view?, simulate-drive}
use perdure.Runtime.Budgets.{Within, drive-Within}
use perdure.Runtime.Resume.{run_to_end, crash_resume, crash_changes_outcome}

abbrev patch : Bool → ℕ → StepPatch ℕ
patch accepted left = record {
  accepted = accepted;
  new_ws = left;
  diag = null;
  patch_name = codes "p";
  patch = null;
  verdict = null;
  verdict_passed = 1;
  verdict_failed = 0;
  new_effects = [];
  rejections = [];
  regressed = false;
  tests_run = 1;
  diff_chars = 4;
}

-- The workspace is the number of problems.
abbrev repairing : ℕ → StepOutcome ℕ
repairing zero = done 1 0
repairing (suc left) = patched (patch true left)

abbrev problems : ℕ → Problems
problems n = record { errors = n; passed = 1; failed = 0 }

abbrev repairer : Coder ℕ
repairer = record { step_once = repairing; collect_problems = problems }

abbrev stubborn : Coder ℕ
stubborn = record { step_once = λ n. patched (patch false n); collect_problems = problems }

abbrev goal : ℕ → ℕ → GoalSpec
goal steps retries = record {
  name = codes "Repair";
  success = none;
  budget = record { steps = some steps; retries = some retries; time = none; cost = none };
  allow = record {
    effects = [];
    fs_read = [];
    fs_write = [];
    shell = [];
    http_get = [];
    http_post = [];
    tools = [];
  };
  require = [];
}

abbrev begun : ℕ → Run ℕ
begun n = record {
  ws = n;
  state = initial_state (codes "run_1") (codes "Repair") (codes "repair");
  log = [];
  checkpoint = none;
}

simulate-drive_example :
    view? (drive repairer (goal 5 1) 6 none (begun 2))
    ≡ simulate repairer
        (goal 5 1)
        6
        (begun 2).ws
        (begun 2).state.step
        (begun 2).state.consecutive_rejections
simulate-drive_example = simulate-drive repairer (goal 5 1) 6 (begun 2)

drive-Within_example :
    (res : RunResult ℕ) × (drive repairer (goal 5 1) 6 none (begun 2) ≡ some res)
    × Within (step_budget (goal 5 1)) (begun 2).state res.run.state
unfolding step_budget initial_state
drive-Within_example = drive-Within repairer (goal 5 1) 6 none (begun 2) (omega arith) (omega arith)

-- The run that crashes behind its first step.
abbrev crashed_run : RunResult ℕ
crashed_run = record { run = advance (begun 2) (patch true 1); crashed = true }

crash : run_to_end repairer (goal 5 1) (some 1) (begun 2) ≡ some crashed_run
unfolding run_to_end drive initial_state step_budget continue iterate turn react after_patch crashes
    advance counted judged
crash = refl

retries_left : ltb (retry_budget (goal 5 1)) crashed_run.run.state.consecutive_rejections ≡ false
unfolding retry_budget advance counted judged
retries_left = refl

crash_resume_example :
    view? (run_to_end repairer (goal 5 1) none (resumed 2 crashed_run.run))
    ≡ view? (run_to_end repairer (goal 5 1) none (begun 2))
unfolding step_budget initial_state
crash_resume_example =
    crash_resume repairer (goal 5 1) 1 2 (begun 2) crashed_run (omega arith) crash refl retries_left

-- One rejection with no retries, on the only step of the budget.
abbrev rejected_run : RunResult ℕ
rejected_run = record { run = advance (begun 2) (patch false 2); crashed = true }

rejected : run_to_end stubborn (goal 1 0) (some 1) (begun 2) ≡ some rejected_run
unfolding run_to_end drive initial_state step_budget continue iterate turn react after_patch crashes
    advance counted judged
rejected = refl

spent : ltb (retry_budget (goal 1 0)) rejected_run.run.state.consecutive_rejections ≡ true
unfolding retry_budget advance counted judged initial_state
spent = refl

on_last_step : rejected_run.run.state.step ≡ step_budget (goal 1 0)
unfolding step_budget advance counted judged initial_state
on_last_step = refl

crash_changes_outcome_example :
    (view? (run_to_end stubborn (goal 1 0) none (begun 2))
      ≡ some (codes "failed", rejected_run.run.ws, step_budget (goal 1 0)))
    × (view? (run_to_end stubborn (goal 1 0) none (resumed 2 rejected_run.run))
        ≡ some (codes "budget_exhausted", rejected_run.run.ws, step_budget (goal 1 0)))
unfolding step_budget initial_state
crash_changes_outcome_example =
    crash_changes_outcome stubborn (goal 1 0) 1 2 (begun 2) rejected_run (omega arith) rejected refl
      spent on_last_step
