-- ===== src/Runtime/Budgets.antt =====
-- src/runtime.rs: `drive` ends within the step budget, and its counters count the steps.
use perdure.Prelude.{
  ℕ, zero, suc, ◌+◌, ◌≤◌, ◌<◌, ltb, leb, ◌≡◌, refl, Bool, true, false, Option, some, Bool-cases,
  inl, inr, arith,
}
use perdure.Goal.{GoalSpec, step_budget, retry_budget}
use perdure.Run.{RunState}
use perdure.Runtime.{
  StepPatch, StepOutcome, done, no_action, patched, Coder, Run, RunResult, Iteration, finished,
  again, exhausted, completed, stuck, gave_up, advance, counted, judged,
}
use perdure.Runtime.Loop.{
  after_patch, react, iterate, turn, continue, drive, crashes, give_up_or_go_on,
}

-- The patches that were judged.
abbrev pub patches : RunState → ℕ
patches st = st.patches_applied + st.patches_rejected

judged_counts :
    (a : Bool) (n : ℕ) (st : RunState)
    → ((judged a n st).step ≡ st.step) × (patches (judged a n st) ≡ patches st + 1)
unfolding judged
judged_counts true n st = (refl, omega arith)
judged_counts false n st = (refl, omega arith)

-- Every step from the first state to the second is one judged patch, and the second has no more
-- steps than `limit`.
unfoldable pub Within : ℕ → RunState → RunState → Type 0
Within limit st st' =
    (st'.step ≤ limit) × (patches st' + st.step ≡ patches st + st'.step) × (st.step ≤ st'.step)

module _ {W : Type 0} where
  advance_counts :
      (r : Run W) (p : StepPatch W)
      → ((advance r p).state.step ≡ r.state.step + 1)
        × (patches (advance r p).state ≡ patches r.state + 1)
  unfolding advance counted
  advance_counts r p = judged_counts p.accepted p.diff_chars _

  module _ (coder : Coder W) (spec : GoalSpec) where
    -- What a turn of the loop comes to within a limit on the steps.
    Turned : ℕ → RunState → Iteration W → Type 0
    Turned limit st (finished res) = Within limit st res.run.state
    Turned limit st (again r) =
        (r.state.step ≡ st.step + 1) × (patches r.state ≡ patches st + 1) × (r.state.step ≤ limit)

    after_patch-Turned :
        (limit : ℕ) (crash accepted : Bool) (st : RunState) (r : Run W)
        → r.state.step ≡ st.step + 1
        → patches r.state ≡ patches st + 1
        → r.state.step ≤ limit
        → Turned limit st (after_patch coder spec crash accepted r)
    unfolding Turned after_patch Within give_up_or_go_on gave_up
    after_patch-Turned limit true a st r h c l = (l, omega arith, omega arith)
    after_patch-Turned limit false true st r h c l = (h, c, l)
    after_patch-Turned limit false false st r h c l =
        elim (Bool-cases (ltb (retry_budget spec) r.state.consecutive_rejections)) [
          | inl e ↦ rw e (l, omega arith, omega arith)
          | inr e ↦ rw e (h, c, l)
        ]

    react-Turned :
        (limit : ℕ) (crash_after : Option ℕ) (r : Run W) (o : StepOutcome W)
        → r.state.step < limit
        → Turned limit r.state (react coder spec crash_after r o)
    unfolding react
    react-Turned limit crash_after r (done passed failed) l =
        unfold Turned Within completed in (omega arith, refl, omega arith)
    react-Turned limit crash_after r (no_action errors passed failed) l =
        unfold Turned Within stuck in (omega arith, refl, omega arith)
    react-Turned limit crash_after r (patched p) l =
        let (s, c) = advance_counts r p in
        after_patch-Turned limit (crashes crash_after (advance r p).state.step) p.accepted r.state
          (advance r p) s c (omega arith)

    turn-Turned :
        (crash_after : Option ℕ) (r : Run W) (b : Bool)
        → leb (step_budget spec) r.state.step ≡ b
        → r.state.step ≤ step_budget spec
        → Turned (step_budget spec) r.state (turn coder spec b crash_after r)
    unfolding turn
    turn-Turned crash_after r true e l = unfold Turned Within exhausted in (l, refl, omega arith)
    turn-Turned crash_after r false e l =
        react-Turned (step_budget spec) crash_after r (coder.step_once r.ws) (ground arith)

    -- A loop that ends within the limit.
    Ends : ℕ → RunState → Option (RunResult W) → Type 0
    Ends limit st o = (res : RunResult W) × (o ≡ some res) × Within limit st res.run.state

    continue-Ends :
        (limit : ℕ) (st : RunState) (it : Iteration W) (k : Run W → Option (RunResult W))
        → Turned limit st it
        → ((r : Run W)
            → r.state.step ≡ st.step + 1
            → r.state.step ≤ limit
            → Ends limit r.state (k r))
        → Ends limit st (continue coder spec it k)
    unfolding Turned Ends continue Within
    continue-Ends limit st (finished res) k t f = (res, refl, t)
    continue-Ends limit st (again r) k (s, c, l) f =
        let (res, e, (l', c', u)) = f r s l in (res, e, (l', omega arith, omega arith))

    -- The loop ends, given one turn more than the steps that are left: it makes no more steps than
    -- the budget has, and each step is one patch, applied or rejected. It starts within the budget.
    pub drive-Within :
        (fuel : ℕ) (crash_after : Option ℕ) (r : Run W)
        → r.state.step ≤ step_budget spec
        → step_budget spec < r.state.step + fuel
        → (res : RunResult W) × (drive coder spec fuel crash_after r ≡ some res)
          × Within (step_budget spec) r.state res.run.state
    unfolding drive iterate Ends
    drive-Within zero crash_after r l h = absurd (omega arith)
    drive-Within (suc fuel) crash_after r l h =
        continue-Ends (step_budget spec) r.state
          (turn coder spec (leb (step_budget spec) r.state.step) crash_after r)
          (drive coder spec fuel crash_after)
          (turn-Turned crash_after r (leb (step_budget spec) r.state.step) refl l)
          (λ r' s l'. drive-Within fuel crash_after r' l' (omega arith))
