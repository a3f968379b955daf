-- ===== src/Runtime/Resume.antt =====
-- src/runtime.rs: a run that crashed behind a step and is resumed has the outcome of a straight run.
use perdure.Prelude.{
  ℕ, zero, suc, ◌+◌, ◌-◌, ◌≤◌, ◌==◌, ltb, leb, ◌≡◌, refl, sym, ap, ◌∙◌, subst, Bool, true, false,
  Option, none, some, codes, arith,
}
use perdure.Goal.{GoalSpec, step_budget, retry_budget}
use perdure.Runtime.{
  StepOutcome, done, no_action, patched, Coder, Run, RunResult, exhausted, completed, stuck,
  gave_up, advance, checkpoint_of,
}
use perdure.Runtime.Loop.{
  after_patch, react, iterate, turn, continue, drive, crashes, give_up_or_go_on, resumed, restored,
  simulate, simulate_turn,
}
use perdure.Runtime.Replay.{view, view?, simulate-drive, advance-step, advance-consec}
use perdure.Runtime.Budgets.{Within, drive-Within}

module _ {W : Type 0} (coder : Coder W) (spec : GoalSpec) where
  -- The loop with the fuel that it needs.
  unfoldable pub run_to_end : Option ℕ → Run W → Option (RunResult W)
  run_to_end crash_after r = drive coder spec (suc (step_budget spec - r.state.step)) crash_after r

  -- The straight run from a step on: it may give up there, and goes on otherwise.
  straight : ℕ → Run W → Option (RunResult W)
  straight fuel r =
      continue coder spec
        (give_up_or_go_on coder spec (ltb (retry_budget spec) r.state.consecutive_rejections) r)
        (drive coder spec fuel none)

  -- A crash of the first loop stands on disk, and the second loop comes to what the straight run
  -- comes to from there. `total` is the fuel with the steps made.
  Crashed : ℕ → Option (RunResult W) → Option (RunResult W) → Type 0
  Crashed total o o' =
      (res : RunResult W)
      → o ≡ some res
      → res.crashed ≡ true
      → ((base : W) → restored base res.run.checkpoint ≡ res.run.ws)
        × (rest : ℕ) × (o' ≡ straight rest res.run)
        × (rest + res.run.state.step ≡ total)

  no_crash :
      (total : ℕ) (r : Run W) (o' : Option (RunResult W))
      → Crashed total (some (record { run = r; crashed = false })) o'
  unfolding Crashed
  no_crash total r o' res e c = let f : false ≡ res.crashed = ap crashed? e in absurd (cc (f, c))
    where
      crashed? : Option (RunResult W) → Bool
      crashed? none = false
      crashed? (some x) = x.crashed

  give_up-Crashed :
      (total : ℕ) (b : Bool) (next : Run W) (k k' : Run W → Option (RunResult W))
      → Crashed total (k next) (k' next)
      → Crashed total
          (continue coder spec (give_up_or_go_on coder spec b next) k)
          (continue coder spec (give_up_or_go_on coder spec b next) k')
  unfolding give_up_or_go_on continue
  give_up-Crashed total true next k k' h = unfold gave_up in no_crash total _ _
  give_up-Crashed total false next k k' h = h

  go_on :
      (r : Run W) (k : Run W → Option (RunResult W))
      → r.state.consecutive_rejections ≡ 0
      → k r
        ≡ continue coder spec
            (give_up_or_go_on coder spec (ltb (retry_budget spec) r.state.consecutive_rejections) r)
            k
  unfolding give_up_or_go_on continue
  go_on r k h =
      let e : ltb (retry_budget spec) r.state.consecutive_rejections ≡ false = ground arith in
      rw e refl

  crash-Crashed :
      (fuel : ℕ) (next : Run W) (o : Option (RunResult W))
      → ((base : W) → restored base next.checkpoint ≡ next.ws)
      → o ≡ straight fuel next
      → Crashed (fuel + next.state.step) (some (record { run = next; crashed = true })) o
  unfolding Crashed
  crash-Crashed fuel next o d h res e c =
      let same : next ≡ res.run = cc e in
      (
        subst (λ (x : Run W). (base : W) → restored base x.checkpoint ≡ x.ws) same d,
        fuel,
        h ∙ ap (straight fuel) same,
        ap (λ (x : Run W). fuel + x.state.step) (sym same),
      )

  patch-Crashed :
      (fuel n : ℕ) (c a : Bool) (next : Run W)
      → (a ≡ true → next.state.consecutive_rejections ≡ 0)
      → ((base : W) → restored base next.checkpoint ≡ next.ws)
      → Crashed
          (fuel + next.state.step)
          (drive coder spec fuel (some n) next)
          (drive coder spec fuel none next)
      → Crashed
          (fuel + next.state.step)
          (continue coder spec (after_patch coder spec c a next) (drive coder spec fuel (some n)))
          (continue coder spec (after_patch coder spec false a next) (drive coder spec fuel none))
  unfolding after_patch continue straight
  patch-Crashed fuel n true true next z d h =
      crash-Crashed fuel next (drive coder spec fuel none next) d
        (go_on next (drive coder spec fuel none) (z refl))
  patch-Crashed fuel n true false next z d h = crash-Crashed fuel next (straight fuel next) d refl
  patch-Crashed fuel n false true next z d h = h
  patch-Crashed fuel n false false next z d h =
      give_up-Crashed (fuel + next.state.step)
        (ltb (retry_budget spec) next.state.consecutive_rejections) next
        (drive coder spec fuel (some n)) (drive coder spec fuel none) h

  retotal : {t t' : ℕ} (o o' : Option (RunResult W)) → t ≡ t' → Crashed t o o' → Crashed t' o o'
  retotal o o' e h = subst (λ t. Crashed t o o') e h

  react-Crashed :
      (fuel n : ℕ) (r : Run W) (o : StepOutcome W)
      → ((next : Run W)
          → next.state.step ≡ r.state.step + 1
          → Crashed
              (fuel + next.state.step)
              (drive coder spec fuel (some n) next)
              (drive coder spec fuel none next))
      → Crashed
          (suc fuel + r.state.step)
          (continue coder spec (react coder spec (some n) r o) (drive coder spec fuel (some n)))
          (continue coder spec (react coder spec none r o) (drive coder spec fuel none))
  unfolding react crashes
  react-Crashed fuel n r (done passed failed) h = unfold continue completed in no_crash _ _ _
  react-Crashed fuel n r (no_action errors passed failed) h =
      unfold continue stuck in no_crash _ _ _
  react-Crashed fuel n r (patched p) h =
      let next = advance r p in
      let total : fuel + next.state.step ≡ suc fuel + r.state.step =
        omega (arith, advance-step r p) in
      let zeroed : p.accepted ≡ true → next.state.consecutive_rejections ≡ 0 =
        λ e. advance-consec r p ∙ rw e refl in
      retotal _ _ total (
        patch-Crashed fuel n (n == next.state.step) p.accepted next zeroed
          (λ base. unfold restored advance checkpoint_of in refl) (h next (advance-step r p)))

  turn-Crashed :
      (fuel n : ℕ) (b : Bool) (r : Run W)
      → ((next : Run W)
          → next.state.step ≡ r.state.step + 1
          → Crashed
              (fuel + next.state.step)
              (drive coder spec fuel (some n) next)
              (drive coder spec fuel none next))
      → Crashed
          (suc fuel + r.state.step)
          (continue coder spec (turn coder spec b (some n) r) (drive coder spec fuel (some n)))
          (continue coder spec (turn coder spec b none r) (drive coder spec fuel none))
  unfolding turn
  turn-Crashed fuel n true r h = unfold continue exhausted in no_crash _ _ _
  turn-Crashed fuel n false r h = react-Crashed fuel n r (coder.step_once r.ws) h

  drive-Crashed :
      (fuel n : ℕ) (r : Run W)
      → Crashed
          (fuel + r.state.step)
          (drive coder spec fuel (some n) r)
          (drive coder spec fuel none r)
  unfolding drive iterate
  drive-Crashed zero n r = unfold Crashed in λ res e c. absurd (cc e)
  drive-Crashed (suc fuel) n r =
      turn-Crashed fuel n (leb (step_budget spec) r.state.step) r
        (λ next s. drive-Crashed fuel n next)

  -- The facts on a crash that the theorems below share.
  crash_point :
      (n : ℕ) (base : W) (r : Run W) (res : RunResult W)
      → r.state.step ≤ step_budget spec
      → run_to_end (some n) r ≡ some res
      → res.crashed ≡ true
      → (run_to_end none r ≡ straight (suc (step_budget spec - res.run.state.step)) res.run)
        × (restored base res.run.checkpoint ≡ res.run.ws)
  unfolding run_to_end Within Crashed
  crash_point n base r res l e c =
      let fuel = suc (step_budget spec - r.state.step) in
      let (res', e', (within, _, _)) = drive-Within coder spec fuel (some n) r l (omega arith) in
      let same : res' ≡ res = cc (e', e) in
      let bound : res.run.state.step ≤ step_budget spec =
        subst (λ (x : RunResult W). x.run.state.step ≤ step_budget spec) same within in
      let (disk, rest, view, total) = drive-Crashed fuel n r res e c in
      let all : rest ≡ suc (step_budget spec - res.run.state.step) = omega arith in
      (view ∙ ap (λ f. straight f res.run) all, disk base)

  resumed-view :
      (base : W) (r : Run W)
      → restored base r.checkpoint ≡ r.ws
      → view? (run_to_end none (resumed base r))
        ≡ simulate coder spec
            (suc (step_budget spec - r.state.step))
            r.ws
            r.state.step
            r.state.consecutive_rejections
  unfolding run_to_end resumed
  resumed-view base r disk =
      let fuel = suc (step_budget spec - r.state.step) in
      simulate-drive coder spec fuel (resumed base r)
      ∙ ap (λ w. simulate coder spec fuel w r.state.step r.state.consecutive_rejections) disk

  straight-goes_on :
      (fuel : ℕ) (r : Run W)
      → ltb (retry_budget spec) r.state.consecutive_rejections ≡ false
      → straight fuel r ≡ drive coder spec fuel none r
  unfolding straight give_up_or_go_on continue
  straight-goes_on fuel r e = rw e refl

  simulate-spent :
      (fuel : ℕ) (r : Run W)
      → leb (step_budget spec) r.state.step ≡ true
      → simulate coder spec (suc fuel) r.ws r.state.step r.state.consecutive_rejections
        ≡ some (codes "budget_exhausted", r.ws, r.state.step)
  unfolding simulate simulate_turn
  simulate-spent fuel r e = rw e refl

  straight-gives_up :
      (fuel : ℕ) (r : Run W)
      → ltb (retry_budget spec) r.state.consecutive_rejections ≡ true
      → view? (straight fuel r) ≡ some (codes "failed", r.ws, r.state.step)
  unfolding straight give_up_or_go_on continue view? view gave_up
  straight-gives_up fuel r e = rw e refl

  -- A run that crashed behind a step and is resumed ends with the status, the files and the steps of
  -- the run without the crash. It starts within the step budget, and the crash is not behind the
  -- rejection that used up the retries.
  pub crash_resume :
      (n : ℕ) (base : W) (r : Run W) (res : RunResult W)
      → r.state.step ≤ step_budget spec
      → run_to_end (some n) r ≡ some res
      → res.crashed ≡ true
      → ltb (retry_budget spec) res.run.state.consecutive_rejections ≡ false
      → view? (run_to_end none (resumed base res.run)) ≡ view? (run_to_end none r)
  crash_resume n base r res l e c goes_on =
      let (whole, disk) = crash_point n base r res l e c in
      let fuel = suc (step_budget spec - res.run.state.step) in
      resumed-view base res.run disk
      ∙ sym (simulate-drive coder spec fuel res.run)
      ∙ sym (ap view? (whole ∙ straight-goes_on fuel res.run goes_on))

  -- A crash behind the rejection that used up the retries, on the last step of the budget, changes
  -- the outcome: the straight run failed, and the resumed run is out of its step budget.
  pub crash_changes_outcome :
      (n : ℕ) (base : W) (r : Run W) (res : RunResult W)
      → r.state.step ≤ step_budget spec
      → run_to_end (some n) r ≡ some res
      → res.crashed ≡ true
      → ltb (retry_budget spec) res.run.state.consecutive_rejections ≡ true
      → res.run.state.step ≡ step_budget spec
      → (view? (run_to_end none r) ≡ some (codes "failed", res.run.ws, step_budget spec))
        × (view? (run_to_end none (resumed base res.run))
            ≡ some (codes "budget_exhausted", res.run.ws, step_budget spec))
  crash_changes_outcome n base r res l e c gives_up last =
      let (whole, disk) = crash_point n base r res l e c in
      let fuel = suc (step_budget spec - res.run.state.step) in
      let spent : leb (step_budget spec) res.run.state.step ≡ true = ground arith in
      (
        ap view? whole
            ∙ straight-gives_up fuel res.run gives_up
            ∙ ap (λ k. some (codes "failed", res.run.ws, k)) last,
        resumed-view base res.run disk
            ∙ simulate-spent (step_budget spec - res.run.state.step) res.run spent
            ∙ ap (λ k. some (codes "budget_exhausted", res.run.ws, k)) last,
      )
