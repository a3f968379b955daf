-- ===== src/Actions/Replay.antt =====
-- src/runtime.rs: `replay_action_run`, which walks the plan again and writes nothing.
use perdure.Prelude.{
  ℕ, suc, ◌+◌, ◌≤◌, ◌≡◌, ◌≢◌, refl, arith, leb, Text, Bool, true, false, Option, none, some, List,
  [], ◌∷◌, codes, text_eq, text_ne, Result, ok, err, contains, length,
}
use perdure.Prelude.Map
use perdure.Prelude.Map.{Map}
use perdure.Goal.{GoalSpec, step_budget, allowed_tools}
use perdure.Json.{Value}
use perdure.Store.Identity.{approval_id, idempotency_key}
use perdure.Run.{Receipts}
use perdure.Actions.{
  PlannedAction, ActionPlan, Approval, ActionCrash, ActionRun, exhausted, append, with_status,
}
use perdure.Actions.Tools.{invoke_fake_tool}
use perdure.Actions.Loop.{RunResult, drive_actions, iterate, turn, continue}

pub record Simulated : Type 0 where
  pub status : Text
  pub receipts : Map Value
  pub cursor : ℕ

-- The outputs of the recorded receipts, by their idempotency keys.
unfoldable pub recorded_receipts : Receipts → Map Value → Map Value
recorded_receipts [] out = out
recorded_receipts ((id, r) ∷ rs) out =
    recorded_receipts rs (Map.insert r.idempotency_key r.output out)

abbrev stop : Text → Map Value → ℕ → Simulated
stop s sim cursor = record { status = s; receipts = sim; cursor = cursor }

-- The walk over the rest of the plan, with what comes behind the action as `go`.
abbrev Walk : Type 0
Walk = Map Value → Simulated

-- A receipt that is new.
invoked : Walk → Text → Map Value → ℕ → Result Value Text → Simulated
invoked go key sim cursor (err e) = stop (codes "failed") sim cursor
invoked go key sim cursor (ok out) = go (Map.insert key out sim)

entry : Walk → Text → PlannedAction → Map Value → ℕ → Option Value → Simulated
unfolding invoked
entry go key a sim cursor (some out) = go sim
entry go key a sim cursor none = invoked go key sim cursor (invoke_fake_tool a.tool a.input)

looked_up : Walk → Map Value → ℕ → Result Value Text → Simulated
looked_up go sim cursor (err e) = stop (codes "failed") sim cursor
looked_up go sim cursor (ok out) = go sim

-- `true` at an effectful action.
performed : Bool → Text → Walk → PlannedAction → Map Value → ℕ → Simulated
unfolding entry looked_up
performed true rid go a sim cursor =
    let key = idempotency_key rid a.id a.tool a.input in
    entry go key a sim cursor (Map.lookup key sim)
performed false rid go a sim cursor = looked_up go sim cursor (invoke_fake_tool a.tool a.input)

unless_denied : Bool → Text → Walk → PlannedAction → Map Value → ℕ → Simulated
unless_denied true rid go a sim cursor = stop (codes "denied") sim cursor
unless_denied false rid go a sim cursor = stop (codes "awaiting_approval") sim cursor

if_granted : Bool → Text → Text → Walk → PlannedAction → Map Value → ℕ → Simulated
unfolding unless_denied performed
if_granted true status rid go a sim cursor = performed a.effectful rid go a sim cursor
if_granted false status rid go a sim cursor =
    unless_denied (text_eq status (codes "denied")) rid go a sim cursor

on_approval : Option Approval → Text → Walk → PlannedAction → Map Value → ℕ → Simulated
unfolding if_granted
on_approval none rid go a sim cursor = stop (codes "awaiting_approval") sim cursor
on_approval (some apr) rid go a sim cursor =
    if_granted (text_eq apr.status (codes "granted")) apr.status rid go a sim cursor

module _ (spec : GoalSpec) (rid : Text) (approvals : Map Approval) where
  -- `true` at an action that requires approval.
  gated : Bool → Walk → PlannedAction → Map Value → ℕ → Simulated
  unfolding on_approval performed
  gated true go a sim cursor =
      on_approval (Map.lookup (approval_id rid a.id) approvals) rid go a sim cursor
  gated false go a sim cursor = performed a.effectful rid go a sim cursor

  authorized : Bool → Walk → PlannedAction → Map Value → ℕ → Simulated
  unfolding gated
  authorized false go a sim cursor = stop (codes "failed") sim cursor
  authorized true go a sim cursor = gated a.requires_approval go a sim cursor

  in_budget : Bool → Walk → PlannedAction → Map Value → ℕ → Simulated
  unfolding authorized
  in_budget true go a sim cursor = stop (codes "budget_exhausted") sim cursor
  in_budget false go a sim cursor =
      authorized (contains (allowed_tools spec) a.tool) go a sim cursor

  unfoldable pub simulate_from : List PlannedAction → ℕ → Map Value → Simulated
  unfolding in_budget
  simulate_from [] cursor sim = stop (codes "completed") sim cursor
  simulate_from (a ∷ steps) cursor sim =
      in_budget (leb (step_budget spec) cursor) (simulate_from steps (cursor + 1)) a sim cursor

unfoldable pub replay_action_run : GoalSpec → ActionPlan → ActionRun → Simulated
replay_action_run spec plan r = simulate_from spec r.state.run_id r.approvals plan.steps 0 []

-- No walk from here is stopped by the budget.
Within : Simulated → Type 0
Within s = s.status ≢ codes "budget_exhausted"

Goes : Walk → Type 0
unfolding Within
Goes go = (m : Map Value) → Within (go m)

invoked-Within :
    (go : Walk) (key : Text) (sim : Map Value) (cursor : ℕ) (o : Result Value Text)
    → Goes go
    → Within (invoked go key sim cursor o)
unfolding invoked Within Goes text_eq
invoked-Within go key sim cursor (err e) h = text_ne _ _ refl
invoked-Within go key sim cursor (ok out) h = h (Map.insert key out sim)

performed-Within :
    (b : Bool) (rid : Text) (go : Walk) (a : PlannedAction) (sim : Map Value) (cursor : ℕ)
    → Goes go
    → Within (performed b rid go a sim cursor)
unfolding performed
performed-Within true rid go a sim cursor h = entered (Map.lookup _ sim)
  where
    entered :
        (o : Option Value)
        → Within (entry go (idempotency_key rid a.id a.tool a.input) a sim cursor o)
    entered (some out) = unfold entry Goes in h sim
    entered none = unfold entry in invoked-Within go _ sim cursor _ h
performed-Within false rid go a sim cursor h = looked (invoke_fake_tool a.tool a.input)
  where
    looked : (o : Result Value Text) → Within (looked_up go sim cursor o)
    looked (err e) = unfold looked_up Within text_eq in text_ne _ _ refl
    looked (ok out) = unfold looked_up Goes in h sim

approval-Within :
    (o : Option Approval) (rid : Text) (go : Walk) (a : PlannedAction) (sim : Map Value)
    (cursor : ℕ)
    → Goes go
    → Within (on_approval o rid go a sim cursor)
unfolding on_approval
approval-Within none rid go a sim cursor h = unfold Within text_eq in text_ne _ _ refl
approval-Within (some apr) rid go a sim cursor h = granted (text_eq apr.status (codes "granted"))
  where
    refused : (b : Bool) → Within (unless_denied b rid go a sim cursor)
    refused true = unfold unless_denied Within text_eq in text_ne _ _ refl
    refused false = unfold unless_denied Within text_eq in text_ne _ _ refl

    granted : (b : Bool) → Within (if_granted b apr.status rid go a sim cursor)
    granted true = unfold if_granted in performed-Within a.effectful rid go a sim cursor h
    granted false = unfold if_granted in refused (text_eq apr.status (codes "denied"))

module _ (spec : GoalSpec) (rid : Text) (approvals : Map Approval) where
  authorized-Within :
      (b : Bool) (go : Walk) (a : PlannedAction) (sim : Map Value) (cursor : ℕ)
      → Goes go
      → Within (authorized spec rid approvals b go a sim cursor)
  unfolding authorized
  authorized-Within false go a sim cursor h = unfold Within text_eq in text_ne _ _ refl
  authorized-Within true go a sim cursor h = at_gate a.requires_approval
    where
      at_gate : (b : Bool) → Within (gated spec rid approvals b go a sim cursor)
      at_gate true = unfold gated in approval-Within _ rid go a sim cursor h
      at_gate false = unfold gated in performed-Within a.effectful rid go a sim cursor h

  simulate-Within :
      (steps : List PlannedAction) (cursor : ℕ) (sim : Map Value)
      → cursor + length steps ≤ step_budget spec
      → Within (simulate_from spec rid approvals steps cursor sim)
  unfolding simulate_from Goes
  simulate-Within [] cursor sim h = unfold Within text_eq in text_ne _ _ refl
  simulate-Within (a ∷ steps) cursor sim h =
      let short : leb (step_budget spec) cursor ≡ false = ground arith in
      rw short (
        unfold in_budget in
        authorized-Within _ _ a sim cursor
          (λ m. simulate-Within steps (cursor + 1) m (omega (arith, h))))

-- A run that executed a plan as long as its budget ends as exhausted, and its replay never says so:
-- the loop tests the budget before the end of the plan, the replay the end of the plan first.
pub replay_misses_exhaustion :
    (spec : GoalSpec) (plan : ActionPlan) (fuel : ℕ) (crash : Option ActionCrash) (r : ActionRun)
    → length plan.steps ≡ step_budget spec
    → r.state.cursor ≡ length plan.steps
    → ((res : RunResult) × (drive_actions spec plan (suc fuel) crash r ≡ some res)
        × (res.run.state.status ≡ codes "budget_exhausted"))
      × ((replay_action_run spec plan r).status ≢ codes "budget_exhausted")
unfolding replay_action_run Within
replay_misses_exhaustion spec plan fuel crash r h c =
    let spent : leb (step_budget spec) r.state.cursor ≡ true = ground arith in
    (
      unfold drive_actions iterate in
          rw spent (unfold turn continue exhausted append with_status in (_, refl, refl)),
      simulate-Within spec r.state.run_id r.approvals plan.steps 0 [] (omega (arith, h)),
    )
