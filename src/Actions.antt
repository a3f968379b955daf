-- ===== src/Actions.antt =====
-- src/action.rs and src/runtime.rs: a plan of actions, and what one turn of `drive_actions` does.
pub mod Tools
pub mod Loop
pub mod Turns
pub mod Life
pub mod Once
pub mod Replay
pub mod Ends
pub mod Cleared
use perdure.Prelude.{
  ℕ, ◌+◌, ◌==◌, leb, Text, Bool, true, false, Option, none, some, List, [], ◌∷◌, ◌++◌, codes,
  contains, text_eq, get_elem?, Result, ok, err,
}
use perdure.Prelude.Map
use perdure.Prelude.Map.{Map}
use perdure.Goal.{GoalSpec, step_budget, allowed_tools}
use perdure.Json.{Value, nat, number, string, json}
use perdure.Event.{format_event_id}
use perdure.Store.Identity.{idempotency_key, approval_id, receipt_id, input_hash}
use perdure.Run.{RunState, Receipt, Receipts, History, save_receipt, find_receipt_by_key}
use Tools.{invoke_fake_tool}

pub record PlannedAction : Type 0 where
  pub id : Text
  pub tool : Text
  pub input : Value
  pub requires_approval : Bool
  pub effectful : Bool
  pub summary : Text

pub record ActionPlan : Type 0 where
  pub steps : List PlannedAction

pub record Approval : Type 0 where
  pub id : Text
  pub action_id : Text
  pub tool : Text
  pub summary : Text
  pub status : Text
  pub note : Option Text

pub data ActionCrash : Type 0 where
  step : ℕ → ActionCrash
  after_receipt : ℕ → ActionCrash

-- What a run has on disk: its state, its receipts, its approvals and its history. The state in
-- memory is the saved one wherever a turn ends.
pub record ActionRun : Type 0 where
  pub state : RunState
  pub receipts : Receipts
  pub approvals : Map Approval
  pub log : History

pub data Iteration : Type 0 where
  again : ActionRun → Iteration
  finished : ActionRun → (crashed paused : Bool) → Iteration

unfoldable pub append : ActionRun → Text → Value → ActionRun
append r kind payload = record r { log = r.log ++ (kind, payload) ∷ [] }

unfoldable pub with_status : Text → ActionRun → ActionRun
with_status status r = record r { state = record r.state { status = status } }

unfoldable pub crashes_at_step : Option ActionCrash → ℕ → Bool
crashes_at_step (some (step n)) m = n == m
crashes_at_step _ m = false

unfoldable pub crashes_after_receipt : Option ActionCrash → ℕ → Bool
crashes_after_receipt (some (after_receipt n)) m = n == m
crashes_after_receipt _ m = false

unfoldable pub exhausted : GoalSpec → ActionRun → Iteration
unfolding append with_status
exhausted spec r =
    finished
      (append (with_status (codes "budget_exhausted") r) (codes "budget.exhausted") (
        json (
          (codes "actions", number (nat r.state.cursor))
          ∷ (codes "limit", number (nat (step_budget spec)))
          ∷ [])))
      false false

unfoldable pub completed : ActionRun → Iteration
unfolding append with_status
completed r =
    finished
      (append (with_status (codes "completed") r) (codes "run.completed") (
        json (
          (codes "steps", number (nat r.state.step))
          ∷ (codes "actions_executed", number (nat r.state.actions_executed))
          ∷ (codes "receipts", number (nat r.state.receipts_created))
          ∷ [])))
      false false

-- The run fails at an action.
unfoldable pub failed : Text → PlannedAction → ActionRun → Iteration
unfolding append with_status
failed reason a r =
    finished
      (append (with_status (codes "failed") r) (codes "run.failed")
        (json ((codes "reason", string reason) ∷ (codes "action", string a.id) ∷ [])))
      false false

unfoldable pub skipped : Text → PlannedAction → ActionRun → ActionRun
unfolding append
skipped reason a r =
    append r (codes "action.skipped")
      (json ((codes "action", string a.id) ∷ (codes "reason", string reason) ∷ []))

unfoldable pub tool_failed : PlannedAction → Text → ActionRun → ActionRun
unfolding append
tool_failed a e r = append r (codes "tool.failed") (
    json (
      (codes "tool", string a.tool)
      ∷ (codes "action", string a.id)
      ∷ (codes "error", string e)
      ∷ []))

unfoldable pub tool_completed : PlannedAction → Value → ActionRun → ActionRun
unfolding append
tool_completed a output r = append r (codes "tool.completed") (
    json (
      (codes "tool", string a.tool)
      ∷ (codes "action", string a.id)
      ∷ (codes "output", output)
      ∷ []))

-- The end of a step: a crash that is asked for here, or the next turn.
unfoldable pub crash_or_go_on : Bool → ActionRun → Iteration
crash_or_go_on true r = finished r true false
crash_or_go_on false r = again r

unfoldable pub advance : Option ActionCrash → ActionRun → Iteration
unfolding crash_or_go_on crashes_at_step
advance crash r =
    let r' : ActionRun = record r {
      state = record r.state {
        cursor = r.state.cursor + 1;
        pending_approval = none;
        status = codes "running";
        step = r.state.step + 1;
      };
    } in
    crash_or_go_on (crashes_at_step crash r'.state.step) r'

unfoldable pub executed : ActionRun → ActionRun
executed r = record r { state = record r.state { actions_executed = r.state.actions_executed + 1 } }

unfoldable pub key_of : ActionRun → PlannedAction → Text
key_of r a = idempotency_key r.state.run_id a.id a.tool a.input

unfoldable pub gate_of : Bool → ActionRun → PlannedAction → Option Text
gate_of false r a = none
gate_of true r a = some (approval_id r.state.run_id a.id)
