-- ===== src/Runtime/Replay.antt =====
-- src/runtime.rs: `simulate` makes the decisions of `drive`.
use perdure.Prelude.{
  ℕ, zero, suc, ◌+◌, ltb, leb, ◌≡◌, refl, ◌∙◌, Text, Bool, true, false, Option, none, some,
  if◌then◌else◌,
}
use perdure.Goal.{GoalSpec, step_budget, retry_budget}
use perdure.Run.{RunState}
use perdure.Runtime.{
  StepPatch, StepOutcome, done, no_action, patched, Coder, Run, RunResult, exhausted, completed,
  stuck, gave_up, advance, counted, judged,
}
use perdure.Runtime.Loop.{
  after_patch, react, iterate, continue, drive, simulate, simulate_step, simulate_patch, crashes,
  turn, simulate_turn, reject, give_up_or_go_on,
}

judged-step : (a : Bool) (n : ℕ) (st : RunState) → (judged a n st).step ≡ st.step
unfolding judged
judged-step true n st = refl
judged-step false n st = refl

judged-consec :
    (a : Bool) (n : ℕ) (st : RunState)
    → (judged a n st).consecutive_rejections ≡ (if a then 0 else st.consecutive_rejections + 1)
unfolding judged
judged-consec true n st = refl
judged-consec false n st = refl

module _ {W : Type 0} where
  -- What a replay compares, and the steps.
  unfoldable pub view : RunResult W → Text × W × ℕ
  view res = (res.run.state.status, res.run.ws, res.run.state.step)

  unfoldable pub view? : Option (RunResult W) → Option (Text × W × ℕ)
  unfolding view
  view? none = none
  view? (some res) = some (view res)

  pub advance-step : (r : Run W) (p : StepPatch W) → (advance r p).state.step ≡ r.state.step + 1
  unfolding advance counted
  advance-step r p = judged-step p.accepted p.diff_chars _

  pub advance-consec :
      (r : Run W) (p : StepPatch W)
      → (advance r p).state.consecutive_rejections
        ≡ (if p.accepted then 0 else r.state.consecutive_rejections + 1)
  unfolding advance counted
  advance-consec r p = judged-consec p.accepted p.diff_chars _

  pub advance-ws :
      (r : Run W) (p : StepPatch W) → (advance r p).ws ≡ (if p.accepted then p.new_ws else r.ws)
  unfolding advance
  advance-ws r p = refl

  module _ (coder : Coder W) (spec : GoalSpec) where
    -- The two continuations of a turn agree.
    unfoldable pub Agree :
        (Run W → Option (RunResult W)) → (W → ℕ → ℕ → Option (Text × W × ℕ)) → Type 0
    Agree k s = (r : Run W) → view? (k r) ≡ s r.ws r.state.step r.state.consecutive_rejections

    give_up-Agree :
        (k : Run W → Option (RunResult W)) (s : W → ℕ → ℕ → Option (Text × W × ℕ)) (b : Bool)
        (next : Run W)
        → Agree k s
        → view? (continue coder spec (give_up_or_go_on coder spec b next) k)
          ≡ reject coder spec b s next.ws next.state.step next.state.consecutive_rejections
    unfolding Agree give_up_or_go_on continue reject
    give_up-Agree k s true next h = unfold view? view gave_up in refl
    give_up-Agree k s false next h = h next

    patch-Agree :
        (k : Run W → Option (RunResult W)) (s : W → ℕ → ℕ → Option (Text × W × ℕ)) (a : Bool)
        (next : Run W) (new_ws ws : W) (step consec : ℕ)
        → Agree k s
        → next.ws ≡ (if a then new_ws else ws)
        → next.state.step ≡ step
        → next.state.consecutive_rejections ≡ (if a then 0 else consec + 1)
        → view? (continue coder spec (after_patch coder spec false a next) k)
          ≡ simulate_patch coder spec s a new_ws ws step consec
    unfolding Agree after_patch continue simulate_patch
    patch-Agree k s true next new_ws ws step consec h w st c = h next ∙ rw (w, st, c) refl
    patch-Agree k s false next new_ws ws step consec h w st c =
        give_up-Agree k s (ltb (retry_budget spec) next.state.consecutive_rejections) next h
        ∙ rw (w, st, c) refl

    react-Agree :
        (k : Run W → Option (RunResult W)) (s : W → ℕ → ℕ → Option (Text × W × ℕ)) (r : Run W)
        (o : StepOutcome W)
        → Agree k s
        → view? (continue coder spec (react coder spec none r o) k)
          ≡ simulate_step coder spec s o r.ws r.state.step r.state.consecutive_rejections
    unfolding react simulate_step continue
    react-Agree k s r (done passed failed) h = unfold view? view completed in refl
    react-Agree k s r (no_action errors passed failed) h = unfold view? view stuck in refl
    react-Agree k s r (patched p) h =
        unfold crashes in
        patch-Agree k s p.accepted (advance r p) p.new_ws r.ws (r.state.step + 1)
          r.state.consecutive_rejections h (advance-ws r p) (advance-step r p) (advance-consec r p)

    turn-Agree :
        (k : Run W → Option (RunResult W)) (s : W → ℕ → ℕ → Option (Text × W × ℕ)) (b : Bool)
        (r : Run W)
        → Agree k s
        → view? (continue coder spec (turn coder spec b none r) k)
          ≡ simulate_turn coder spec b s r.ws r.state.step r.state.consecutive_rejections
    unfolding turn simulate_turn
    turn-Agree k s true r h = unfold view? view continue exhausted in refl
    turn-Agree k s false r h = react-Agree k s r (coder.step_once r.ws) h

    -- The replay of a run has the outcome of the run: status, files and steps, on any fuel, whether
    -- the loop ends on it or not, from any state that the loop is entered in.
    pub simulate-drive :
        (fuel : ℕ) (r : Run W)
        → view? (drive coder spec fuel none r)
          ≡ simulate coder spec fuel r.ws r.state.step r.state.consecutive_rejections
    unfolding drive simulate Agree iterate
    simulate-drive zero r = unfold view? in refl
    simulate-drive (suc fuel) r =
        turn-Agree (drive coder spec fuel none) (simulate coder spec fuel)
          (leb (step_budget spec) r.state.step) r (simulate-drive fuel)
