-- ===== src/Runtime/Loop.antt =====
-- src/runtime.rs: the loops `drive` and `simulate`, and the resumption of a crashed run.
use perdure.Prelude.{
  ℕ, zero, suc, ◌+◌, ◌==◌, ltb, leb, Text, Bool, true, false, Option, none, some, [], ◌∷◌, ◌++◌,
  codes,
}
use perdure.Goal.{GoalSpec, step_budget, retry_budget}
use perdure.Json.{nat, number, json}
use perdure.Runtime.{
  StepOutcome, done, no_action, patched, Coder, Checkpoint, Run, RunResult, Iteration, finished,
  again, exhausted, completed, stuck, gave_up, advance,
}

-- `crash_after == Some(next_step)`.
unfoldable pub crashes : Option ℕ → ℕ → Bool
crashes none step = false
crashes (some n) step = n == step

module _ {W : Type 0} (coder : Coder W) (spec : GoalSpec) where
  -- The end of the turn: a rejection beyond the retry budget ends the run.
  unfoldable pub give_up_or_go_on : Bool → Run W → Iteration W
  give_up_or_go_on true r = finished (gave_up coder r)
  give_up_or_go_on false r = again r

  unfoldable pub after_patch : Bool → Bool → Run W → Iteration W
  after_patch true accepted r = finished (record { run = r; crashed = true })
  after_patch false true r = again r
  after_patch false false r =
      give_up_or_go_on (ltb (retry_budget spec) r.state.consecutive_rejections) r

  unfoldable pub react : Option ℕ → Run W → StepOutcome W → Iteration W
  react crash_after r (done passed failed) = finished (completed r passed failed)
  react crash_after r (no_action errors passed failed) = finished (stuck r errors passed failed)
  react crash_after r (patched p) =
      let next = advance r p in after_patch (crashes crash_after next.state.step) p.accepted next

  -- One turn of the loop: `true` where the steps are spent.
  unfoldable pub turn : Bool → Option ℕ → Run W → Iteration W
  turn true crash_after r = finished (exhausted coder spec r)
  turn false crash_after r = react crash_after r (coder.step_once r.ws)

  unfoldable pub iterate : Option ℕ → Run W → Iteration W
  iterate crash_after r = turn (leb (step_budget spec) r.state.step) crash_after r

  unfoldable pub continue : Iteration W → (Run W → Option (RunResult W)) → Option (RunResult W)
  continue (finished res) k = some res
  continue (again r) k = k r

  -- The loop, on fuel: `none` is a loop that did not end yet.
  unfoldable pub drive : ℕ → Option ℕ → Run W → Option (RunResult W)
  drive zero crash_after r = none
  drive (suc fuel) crash_after r = continue (iterate crash_after r) (drive fuel crash_after)

  -- `simulate`: the status, the files and the steps.
  unfoldable pub reject :
      Bool → (W → ℕ → ℕ → Option (Text × W × ℕ)) → W → ℕ → ℕ → Option (Text × W × ℕ)
  reject true rest ws step consec = some (codes "failed", ws, step)
  reject false rest ws step consec = rest ws step consec

  unfoldable pub simulate_patch :
      (W → ℕ → ℕ → Option (Text × W × ℕ)) → Bool → W → W → ℕ → ℕ → Option (Text × W × ℕ)
  simulate_patch rest true new_ws ws step consec = rest new_ws step 0
  simulate_patch rest false new_ws ws step consec =
      reject (ltb (retry_budget spec) (consec + 1)) rest ws step (consec + 1)

  unfoldable pub simulate_step :
      (W → ℕ → ℕ → Option (Text × W × ℕ)) → StepOutcome W → W → ℕ → ℕ → Option (Text × W × ℕ)
  simulate_step rest (done passed failed) ws step consec = some (codes "completed", ws, step)
  simulate_step rest (no_action errors passed failed) ws step consec =
      some (codes "failed", ws, step)
  simulate_step rest (patched p) ws step consec =
      simulate_patch rest p.accepted p.new_ws ws (step + 1) consec

  unfoldable pub simulate_turn :
      Bool → (W → ℕ → ℕ → Option (Text × W × ℕ)) → W → ℕ → ℕ → Option (Text × W × ℕ)
  simulate_turn true rest ws step consec = some (codes "budget_exhausted", ws, step)
  simulate_turn false rest ws step consec = simulate_step rest (coder.step_once ws) ws step consec

  unfoldable pub simulate : ℕ → W → ℕ → ℕ → Option (Text × W × ℕ)
  simulate zero ws step consec = none
  simulate (suc fuel) ws step consec =
      simulate_turn (leb (step_budget spec) step) (simulate fuel) ws step consec

module _ {W : Type 0} where
  -- `resume_run`: the workspace of the latest checkpoint, or the base files.
  unfoldable pub restored : W → Option (Checkpoint W) → W
  restored base none = base
  restored base (some cp) = cp.files

  unfoldable pub resumed : W → Run W → Run W
  resumed base r = record r {
    ws = restored base r.checkpoint;
    state = record r.state { status = codes "running" };
    log =
        r.log
        ++ (codes "run.resumed", json ((codes "from_step", number (nat r.state.step)) ∷ [])) ∷ [];
  }
