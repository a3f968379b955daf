-- ===== src/Actions/Ends.antt =====
-- src/runtime.rs: how `drive_actions` ends, and that it does.
use perdure.Prelude.{
  ℕ, zero, suc, ◌+◌, ◌-◌, ◌≤◌, ◌<◌, ◌≡◌, refl, ◌⊎◌, inl, inr, arith, leb, Text, Bool, true, false,
  Option, none, some, codes, Result, ok, err, get_elem?,
}
use perdure.Goal.{GoalSpec, step_budget}
use perdure.Json.{Value}
use perdure.Run.{Receipt}
use perdure.Actions.{
  PlannedAction, ActionPlan, Approval, ActionCrash, ActionRun, Iteration, again, finished, append,
  with_status, exhausted, completed, failed, skipped, tool_failed, tool_completed, crash_or_go_on,
  advance, executed,
}
use perdure.Actions.Loop.{
  proposed, pause_unless, denied, tool_called, read_called, commit_receipt, after_commit, on_output,
  reused, on_receipt, on_read, perform, unless_denied, unless_pending, on_approval, gated,
  authorized, at_action, turn, iterate, RunResult, continue, drive_actions,
}

abbrev pub IsTerminal : Text → Type 0
IsTerminal s =
    (s ≡ codes "completed")
    ⊎ ((s ≡ codes "budget_exhausted") ⊎ ((s ≡ codes "failed") ⊎ (s ≡ codes "denied")))

-- What the two flags of a result say of its status.
abbrev pub Reported : Text → Bool → Bool → Type 0
Reported s true paused = paused ≡ false
Reported s false true = s ≡ codes "awaiting_approval"
Reported s false false = IsTerminal s

-- A turn that goes on has moved the cursor by one; one that ends has a status and did not pass it.
Turned : ActionRun → Iteration → Type 0
Turned r (again r') = r'.state.cursor ≡ r.state.cursor + 1
Turned r (finished r' crashed paused) =
    Reported r'.state.status crashed paused × (r'.state.cursor ≤ r.state.cursor + 1)

module _ (r : ActionRun) where
  go_on-Turned :
      (b : Bool) (r' : ActionRun)
      → r'.state.cursor ≡ r.state.cursor + 1
      → Turned r (crash_or_go_on b r')
  unfolding crash_or_go_on Turned
  go_on-Turned true r' h = (refl, omega (arith, h))
  go_on-Turned false r' h = h

  failed-Turned :
      (reason : Text) (a : PlannedAction) (r' : ActionRun)
      → r'.state.cursor ≡ r.state.cursor
      → Turned r (failed reason a r')
  unfolding failed with_status append Turned
  failed-Turned reason a r' h = (inr (inr (inl refl)), omega (arith, h))

  module _ (crash : Option ActionCrash) where
    advance-Turned :
        (r' : ActionRun) → r'.state.cursor ≡ r.state.cursor → Turned r (advance crash r')
    unfolding advance
    advance-Turned r' h = go_on-Turned _ _ (omega (arith, h))

    commit-Turned :
        (b : Bool) (r' : ActionRun)
        → r'.state.cursor ≡ r.state.cursor
        → Turned r (after_commit b crash r')
    unfolding after_commit
    commit-Turned true r' h = unfold Turned in (refl, omega (arith, h))
    commit-Turned false r' h = advance-Turned (executed r') (unfold executed in h)

    output-Turned :
        (a : PlannedAction) (o : Result Value Text)
        → Turned r (on_output crash a (tool_called a r) o)
    unfolding on_output tool_failed tool_completed commit_receipt tool_called append
    output-Turned a (err e) = failed-Turned _ a _ refl
    output-Turned a (ok output) = commit-Turned _ _ refl

    receipt-Turned : (a : PlannedAction) (o : Option Receipt) → Turned r (on_receipt crash a r o)
    unfolding on_receipt reused skipped executed append
    receipt-Turned a (some x) = advance-Turned _ refl
    receipt-Turned a none = output-Turned a _

    read-Turned :
        (a : PlannedAction) (o : Result Value Text) → Turned r (on_read crash a (read_called a r) o)
    unfolding on_read read_called tool_failed tool_completed executed append
    read-Turned a (err e) = failed-Turned _ a _ refl
    read-Turned a (ok output) = advance-Turned _ refl

    perform-Turned : (b : Bool) (a : PlannedAction) → Turned r (perform b crash a r)
    unfolding perform
    perform-Turned true a = receipt-Turned a _
    perform-Turned false a = read-Turned a _

    denied-Turned : (b : Bool) (a : PlannedAction) → Turned r (unless_denied b crash a r)
    unfolding unless_denied
    denied-Turned true a =
        unfold Turned denied with_status skipped append in (inr (inr (inr refl)), omega arith)
    denied-Turned false a = perform-Turned a.effectful a

    pending-Turned :
        (b : Bool) (status : Text) (a : PlannedAction)
        → Turned r (unless_pending b status crash a r)
    unfolding unless_pending
    pending-Turned true status a = unfold Turned with_status in (refl, omega arith)
    pending-Turned false status a = denied-Turned _ a

    paused-Turned : (b : Bool) (a : PlannedAction) → Turned r (pause_unless b (proposed a r))
    unfolding pause_unless Turned proposed append with_status
    paused-Turned true a = (refl, omega arith)
    paused-Turned false a = (refl, omega arith)

    approval-Turned : (o : Option Approval) (a : PlannedAction) → Turned r (on_approval o crash a r)
    unfolding on_approval
    approval-Turned none a = paused-Turned _ a
    approval-Turned (some apr) a = pending-Turned _ apr.status a

    gated-Turned : (b : Bool) (a : PlannedAction) → Turned r (gated b crash a r)
    unfolding gated
    gated-Turned true a = approval-Turned _ a
    gated-Turned false a = perform-Turned a.effectful a

    authorized-Turned : (b : Bool) (a : PlannedAction) → Turned r (authorized b crash a r)
    unfolding authorized
    authorized-Turned false a = failed-Turned _ a r refl
    authorized-Turned true a = gated-Turned a.requires_approval a

    at_action-Turned :
        (spec : GoalSpec) (o : Option PlannedAction) → Turned r (at_action spec o crash r)
    unfolding at_action
    at_action-Turned spec none =
        unfold Turned completed with_status append in (inl refl, omega arith)
    at_action-Turned spec (some a) = authorized-Turned _ a

-- The result of a loop: it comes, it is reported, and the cursor is where it may be.
Ended : ActionRun → ℕ → Option RunResult → Type 0
Ended r budget o =
    (res : RunResult) × (o ≡ some res)
    × Reported res.run.state.status res.crashed res.paused
    × ((res.run.state.cursor ≤ r.state.cursor) ⊎ (res.run.state.cursor ≤ budget))

continue-Ended :
    (r : ActionRun) (budget : ℕ) (it : Iteration) (k : ActionRun → Option RunResult)
    → r.state.cursor < budget
    → Turned r it
    → ((r' : ActionRun) → r'.state.cursor ≡ r.state.cursor + 1 → Ended r' budget (k r'))
    → Ended r budget (continue it k)
unfolding continue Ended Turned
continue-Ended r budget (finished r' c p) k b h rest =
    (record { run = r'; crashed = c; paused = p }, refl, h.0, inr (omega (arith, h.1)))
continue-Ended r budget (again r') k b h rest =
    let (res, e, reported, cursor) = rest r' h in
    (res, e, reported, elim cursor [ inl l ↦ inr (omega (arith, l, h)) | inr l ↦ inr l ])

module _ (spec : GoalSpec) (plan : ActionPlan) (crash : Option ActionCrash) where
  turn-Ended :
      (b : Bool) (r : ActionRun) (k : ActionRun → Option RunResult)
      → leb (step_budget spec) r.state.cursor ≡ b
      → ((r' : ActionRun)
          → r'.state.cursor ≡ r.state.cursor + 1
          → r.state.cursor < step_budget spec
          → Ended r' (step_budget spec) (k r'))
      → Ended r (step_budget spec) (continue (turn b spec plan crash r) k)
  unfolding turn
  turn-Ended true r k e rest =
      unfold continue exhausted with_status append Ended in
      (_, refl, inr (inl refl), inl (omega arith))
  turn-Ended false r k e rest =
      let short : r.state.cursor < step_budget spec = ground arith in
      continue-Ended r (step_budget spec) _ k short
        (at_action-Turned r crash spec (get_elem? plan.steps r.state.cursor))
        (λ r' c. rest r' c short)

  fueled-Ended :
      (fuel : ℕ) (r : ActionRun)
      → step_budget spec ≤ r.state.cursor + fuel
      → Ended r (step_budget spec) (drive_actions spec plan (suc fuel) crash r)
  unfolding drive_actions iterate
  fueled-Ended zero r h = turn-Ended _ r _ refl (λ r' c s. absurd (omega (arith, s, h)))
  fueled-Ended (suc fuel) r h =
      turn-Ended _ r _ refl (λ r' c s. fueled-Ended fuel r' (omega (arith, c, h)))

  -- Fuel for the steps that the budget leaves is enough: the loop ends. A result that is a crash is
  -- no pause, a pause awaits an approval, and any other has a terminal status. The cursor does not
  -- pass the budget.
  pub drive_actions-ends :
      (r : ActionRun)
      → (res : RunResult) × (drive_actions spec plan
            (suc (step_budget spec - r.state.cursor))
            crash
            r
          ≡ some res)
        × Reported res.run.state.status res.crashed res.paused
        × ((res.run.state.cursor ≤ r.state.cursor) ⊎ (res.run.state.cursor ≤ step_budget spec))
  unfolding Ended
  drive_actions-ends r = fueled-Ended (step_budget spec - r.state.cursor) r (omega arith)
