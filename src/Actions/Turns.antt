-- ===== src/Actions/Turns.antt =====
-- src/runtime.rs: what is to be shown of a predicate for every turn of `drive_actions` to keep it.
use perdure.Prelude.{
  ℕ, ◌≡◌, refl, sym, Text, Bool, true, false, Option, none, some, List, [], ◌∷◌, codes, text_eq,
  Result, ok, err, In, here, there, get_elem?, contains, leb, zero, suc,
}
use perdure.Prelude.Map
use perdure.Goal.{GoalSpec, step_budget, allowed_tools}
use perdure.Json.{Value}
use perdure.Store.Identity.{approval_id}
use perdure.Run.{RunState, Receipt, find_receipt_by_key}
use perdure.Actions.{
  PlannedAction, ActionPlan, Approval, ActionCrash, ActionRun, append, with_status, exhausted,
  completed, failed, skipped, tool_failed, tool_completed, crash_or_go_on, advance, executed,
  key_of,
}
use perdure.Actions.Tools.{invoke_fake_tool}
use perdure.Actions.Loop.{
  proposed, pause_unless, denied, tool_called, read_called, receipt_for, commit_receipt,
  after_commit, on_output, reused, on_receipt, on_read, perform, unless_denied, unless_pending,
  on_approval, gated, authorized, at_action, turn, iterate, after, RunResult, drive_actions,
  drive-keeps,
}

In-get_elem {ℓ} : {A : Type ℓ} (xs : List A) (i : ℕ) (a : A) → get_elem? xs i ≡ some a → In a xs
In-get_elem [] i a h = absurd (cc h)
In-get_elem (x ∷ xs) zero a h = here (sym (cc h))
In-get_elem (x ∷ xs) (suc i) a h = there (In-get_elem xs i a h)

-- The gate of an action is open: an approval stands that is neither pending nor denied.
unfoldable pub Open : ActionRun → PlannedAction → Type 0
Open r a =
    (apr : Approval) × (Map.lookup (approval_id r.state.run_id a.id) r.approvals ≡ some apr)
    × (text_eq apr.status (codes "pending") ≡ false)
    × (text_eq apr.status (codes "denied") ≡ false)

-- The action stands in the plan, its tool is granted, and its gate, if it has one, is open.
unfoldable pub May : GoalSpec → ActionPlan → ActionRun → PlannedAction → Type 0
unfolding Open
May spec plan r a =
    In a plan.steps
    × (contains (allowed_tools spec) a.tool ≡ true)
    × (a.requires_approval ≡ true → Open r a)

-- The laws for one predicate on runs.
pub record Keeps (spec : GoalSpec) (plan : ActionPlan) (P : ActionRun → Type 0) : Type 0 where
  pub quiet :
      (r : ActionRun) (kind : Text) (payload : Value)
      → text_eq kind (codes "tool.called") ≡ false
      → P r
      → P (append r kind payload)
  pub counted :
      (r : ActionRun) (st : RunState)
      → st.run_id ≡ r.state.run_id
      → P r
      → P (record r { state = st })
  pub asked :
      (r : ActionRun) (a : PlannedAction)
      → Map.lookup (approval_id r.state.run_id a.id) r.approvals ≡ none
      → P r
      → P (proposed a r)
  pub read : (r : ActionRun) (a : PlannedAction) → May spec plan r a → P r → P (read_called a r)
  pub wrote :
      (r : ActionRun) (a : PlannedAction) (output : Value)
      → May spec plan r a
      → find_receipt_by_key (key_of r a) r.receipts ≡ none
      → P r
      → let done = tool_completed a output (tool_called a r) in
        P (commit_receipt a (receipt_for a output done) done)
  pub fell :
      (r : ActionRun) (a : PlannedAction) (e : Text)
      → May spec plan r a
      → invoke_fake_tool a.tool a.input ≡ err e
      → P r
      → P (tool_called a r)

module _ (spec : GoalSpec) (plan : ActionPlan) (P : ActionRun → Type 0)
    (k : Keeps spec plan P) where
  skipped-keeps : (reason : Text) (a : PlannedAction) (r : ActionRun) → P r → P (skipped reason a r)
  unfolding skipped
  skipped-keeps reason a r h = k.quiet r (codes "action.skipped") _ (unfold text_eq in refl) h

  reused-keeps : (a : PlannedAction) (x : Receipt) (r : ActionRun) → P r → P (reused a x r)
  unfolding reused
  reused-keeps a x r h =
      skipped-keeps (codes "receipt already exists") a _
        (k.quiet r (codes "receipt.reused") _ (unfold text_eq in refl) h)

  executed-keeps : (r : ActionRun) → P r → P (executed r)
  unfolding executed
  executed-keeps r h = k.counted r _ refl h

  status-keeps : (status : Text) (r : ActionRun) → P r → P (with_status status r)
  unfolding with_status
  status-keeps status r h = k.counted r _ refl h

  failed-keeps :
      (reason : Text) (a : PlannedAction) (r : ActionRun) → P r → P (after (failed reason a r))
  unfolding failed
  failed-keeps reason a r h =
      k.quiet _ (codes "run.failed") _ (unfold text_eq in refl) (status-keeps (codes "failed") r h)

  tool_failed-keeps :
      (a : PlannedAction) (e : Text) (r : ActionRun)
      → P r
      → P (after (failed (codes "tool failed") a (tool_failed a e r)))
  unfolding tool_failed
  tool_failed-keeps a e r h =
      failed-keeps (codes "tool failed") a _
        (k.quiet r (codes "tool.failed") _ (unfold text_eq in refl) h)

  tool_completed-keeps :
      (a : PlannedAction) (output : Value) (r : ActionRun) → P r → P (tool_completed a output r)
  unfolding tool_completed
  tool_completed-keeps a output r h =
      k.quiet r (codes "tool.completed") _ (unfold text_eq in refl) h

  pause-keeps : (b : Bool) (r : ActionRun) → P r → P (after (pause_unless b r))
  unfolding pause_unless
  pause-keeps true r h = h
  pause-keeps false r h = h

  go_on-keeps : (b : Bool) (r : ActionRun) → P r → P (after (crash_or_go_on b r))
  unfolding crash_or_go_on
  go_on-keeps true r h = h
  go_on-keeps false r h = h

  module _ (crash : Option ActionCrash) where
    advance-keeps : (r : ActionRun) → P r → P (after (advance crash r))
    unfolding advance
    advance-keeps r h = go_on-keeps _ _ (k.counted r _ refl h)

    commit-keeps : (b : Bool) (r : ActionRun) → P r → P (after (after_commit b crash r))
    unfolding after_commit
    commit-keeps true r h = h
    commit-keeps false r h = advance-keeps (executed r) (executed-keeps r h)

    read-keeps :
        (a : PlannedAction) (r : ActionRun) (o : Result Value Text)
        → P r
        → P (after (on_read crash a r o))
    unfolding on_read
    read-keeps a r (err e) h = tool_failed-keeps a e r h
    read-keeps a r (ok output) h =
        advance-keeps _ (executed-keeps _ (tool_completed-keeps a output r h))

    output-keeps :
        (a : PlannedAction) (r : ActionRun) (o : Result Value Text)
        → May spec plan r a
        → find_receipt_by_key (key_of r a) r.receipts ≡ none
        → invoke_fake_tool a.tool a.input ≡ o
        → P r
        → P (after (on_output crash a (tool_called a r) o))
    unfolding on_output
    output-keeps a r (err e) may f call h =
        tool_failed-keeps a e (tool_called a r) (k.fell r a e may call h)
    output-keeps a r (ok output) may f call h = commit-keeps _ _ (k.wrote r a output may f h)

    receipt-keeps :
        (a : PlannedAction) (r : ActionRun) (o : Option Receipt)
        → May spec plan r a
        → find_receipt_by_key (key_of r a) r.receipts ≡ o
        → P r
        → P (after (on_receipt crash a r o))
    unfolding on_receipt
    receipt-keeps a r (some x) may f h = advance-keeps _ (executed-keeps _ (reused-keeps a x r h))
    receipt-keeps a r none may f h = output-keeps a r (invoke_fake_tool a.tool a.input) may f refl h

    perform-keeps :
        (b : Bool) (a : PlannedAction) (r : ActionRun)
        → May spec plan r a
        → P r
        → P (after (perform b crash a r))
    unfolding perform
    perform-keeps true a r may h = receipt-keeps a r _ may refl h
    perform-keeps false a r may h = read-keeps a _ _ (k.read r a may h)

    denied-keeps :
        (b : Bool) (status : Text) (a : PlannedAction) (r : ActionRun)
        → (b ≡ false → May spec plan r a)
        → P r
        → P (after (unless_denied b crash a r))
    unfolding unless_denied
    denied-keeps true status a r may h =
        unfold denied in
        k.quiet _ (codes "run.failed") _ (unfold text_eq in refl)
          (status-keeps (codes "denied") _ (skipped-keeps (codes "approval denied") a r h))
    denied-keeps false status a r may h = perform-keeps a.effectful a r (may refl) h

    pending-keeps :
        (b : Bool) (status : Text) (a : PlannedAction) (r : ActionRun)
        → (b ≡ false → text_eq status (codes "denied") ≡ false → May spec plan r a)
        → P r
        → P (after (unless_pending b status crash a r))
    unfolding unless_pending
    pending-keeps true status a r may h = status-keeps (codes "awaiting_approval") r h
    pending-keeps false status a r may h =
        denied-keeps (text_eq status (codes "denied")) status a r (may refl) h

    approval-keeps :
        (o : Option Approval) (a : PlannedAction) (r : ActionRun)
        → Map.lookup (approval_id r.state.run_id a.id) r.approvals ≡ o
        → (Open r a → May spec plan r a)
        → P r
        → P (after (on_approval o crash a r))
    unfolding on_approval
    approval-keeps none a r f may h = pause-keeps _ (proposed a r) (k.asked r a f h)
    approval-keeps (some apr) a r f may h =
        pending-keeps (text_eq apr.status (codes "pending")) apr.status a r
          (λ p d. may (unfold Open in (apr, f, p, d))) h

    gated-keeps :
        (b : Bool) (a : PlannedAction) (r : ActionRun)
        → ((b ≡ true → Open r a) → May spec plan r a)
        → P r
        → P (after (gated b crash a r))
    unfolding gated
    gated-keeps true a r may h = approval-keeps _ a r refl (λ o. may (λ _. o)) h
    gated-keeps false a r may h = perform-keeps a.effectful a r (may (λ e. absurd (cc e))) h

    authorized-keeps :
        (b : Bool) (a : PlannedAction) (r : ActionRun)
        → In a plan.steps
        → contains (allowed_tools spec) a.tool ≡ b
        → P r
        → P (after (authorized b crash a r))
    unfolding authorized
    authorized-keeps false a r ina c h = failed-keeps _ a r h
    authorized-keeps true a r ina c h =
        gated-keeps a.requires_approval a r (λ o. unfold May in (ina, c, o)) h

    at_action-keeps :
        (o : Option PlannedAction) (r : ActionRun)
        → ((a : PlannedAction) → o ≡ some a → In a plan.steps)
        → P r
        → P (after (at_action spec o crash r))
    unfolding at_action
    at_action-keeps none r ina h =
        unfold completed in
        k.quiet _ (codes "run.completed") _ (unfold text_eq in refl)
          (status-keeps (codes "completed") r h)
    at_action-keeps (some a) r ina h = authorized-keeps _ a r (ina a refl) refl h

    turn-keeps : (b : Bool) (r : ActionRun) → P r → P (after (turn b spec plan crash r))
    unfolding turn
    turn-keeps true r h =
        unfold exhausted in
        k.quiet _ (codes "budget.exhausted") _ (unfold text_eq in refl)
          (status-keeps (codes "budget_exhausted") r h)
    turn-keeps false r h =
        at_action-keeps (get_elem? plan.steps r.state.cursor) r
          (In-get_elem plan.steps r.state.cursor) h

    iterate-keeps : (r : ActionRun) → P r → P (after (iterate spec plan crash r))
    unfolding iterate
    iterate-keeps r h = turn-keeps (leb (step_budget spec) r.state.cursor) r h

    -- The loop keeps what the laws are shown for, with any crash.
    pub drive-Keeps :
        (fuel : ℕ) (r : ActionRun) (res : RunResult)
        → P r
        → drive_actions spec plan fuel crash r ≡ some res
        → P res.run
    drive-Keeps = drive-keeps P spec plan crash iterate-keeps
