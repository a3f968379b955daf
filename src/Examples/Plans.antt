-- ===== src/Examples/Plans.antt =====
-- A plan of two actions: a lookup, and a refund that a human has to approve.
use perdure.Prelude.{
  suc, ◌-◌, ◌≤◌, ◌≡◌, ◌≢◌, ◌⊎◌, refl, sym, ap, ◌∙◌, Text, true, false, Option, none, some, [], ◌∷◌,
  codes, text_eq, text_ne, as_bytes, In, here, there, contains,
}
use perdure.Goal.{GoalSpec, step_budget, allowed_tools}
use perdure.Json.{Value, string, json}
use perdure.Store.Identity.{receipt_id, fnv1a_hex, idempotency_key}
use perdure.Store.Canonical as Canonical
use perdure.Store.Canonical.{canonical_bytes}
use perdure.Prelude.TextOrder.{sort_entries}
use perdure.Run.{find_receipt_by_key, initial_state}
use perdure.Actions.{
  PlannedAction, ActionPlan, ActionCrash, step, ActionRun, append, tool_completed, executed,
  advance, crash_or_go_on, crashes_at_step,
}
use perdure.Actions.Tools.{invoke_fake_tool, is_known_tool}
use perdure.Actions.Loop.{
  RunResult, drive_actions, start_action_run, iterate, turn, at_action, authorized, gated, perform,
  on_read, read_called, continue,
}
use perdure.Actions.Life.{Life, started}
use perdure.Actions.Ends.{drive_actions-ends, Reported}
use perdure.Actions.Once.{Apart, Known, plan_key, calls, held}
use perdure.Actions.Once.Lives.{effect_once}
use perdure.Actions.Cleared.{Cleared, calls-Cleared}
use perdure.Actions.Replay.{replay_action_run, replay_misses_exhaustion}

abbrev lookup : PlannedAction
lookup = record {
  id = codes "lookup";
  tool = codes "fake.stripe.find_duplicate";
  input = json ((codes "charge_id", string (codes "ch_1")) ∷ []);
  requires_approval = false;
  effectful = false;
  summary = codes "look up the charge";
}

abbrev refund : PlannedAction
refund = record {
  id = codes "refund";
  tool = codes "fake.stripe.refund";
  input = json ((codes "charge_id", string (codes "ch_1")) ∷ []);
  requires_approval = true;
  effectful = true;
  summary = codes "refund the charge";
}

abbrev plan : ActionPlan
plan = record { steps = lookup ∷ refund ∷ [] }

abbrev spec : GoalSpec
spec = record {
  name = codes "Resolve";
  success = none;
  budget = record { steps = some 2; retries = none; time = none; cost = none };
  allow = record {
    effects = [];
    fs_read = [];
    fs_write = [];
    shell = [];
    http_get = [];
    http_post = [];
    tools = codes "fake.stripe.find_duplicate" ∷ codes "fake.stripe.refund" ∷ [];
  };
  require = [];
}

abbrev rid : Text
rid = codes "run_1"

abbrev begun : ActionRun
begun = start_action_run rid spec plan

-- The process dies behind the first action.
abbrev crash : Option ActionCrash
crash = some (step 1)

known : Known plan
unfolding Known is_known_tool text_eq
known a (here p) = ap (λ (x : PlannedAction). is_known_tool x.tool) p
known a (there (here p)) = ap (λ (x : PlannedAction). is_known_tool x.tool) p
known a (there (there i)) = elim i [ ]

ids_differ : receipt_id (plan_key rid lookup) ≢ receipt_id (plan_key rid refund)
unfolding as_bytes Canonical.join Canonical.entries sort_entries
ids_differ =
    text_ne _ _ (unfold receipt_id fnv1a_hex idempotency_key canonical_bytes text_eq in refl)

apart : Apart rid plan
unfolding Apart
apart a b (here p) (here q) e = ap (plan_key rid) p ∙ sym (ap (plan_key rid) q)
apart a b (here p) (there (here q)) e = absurd (
    ids_differ
      (ap (λ x. receipt_id (plan_key rid x)) (sym p) ∙ e ∙ ap (λ x. receipt_id (plan_key rid x)) q))
apart a b (here p) (there (there i)) e = elim i [ ]
apart a b (there (here p)) (here q) e = absurd (
    ids_differ (
      ap (λ x. receipt_id (plan_key rid x)) (sym q)
      ∙ sym e
      ∙ ap (λ x. receipt_id (plan_key rid x)) p))
apart a b (there (here p)) (there (here q)) e = ap (plan_key rid) p ∙ sym (ap (plan_key rid) q)
apart a b (there (here p)) (there (there i)) e = elim i [ ]
apart a b (there (there i)) j e = elim i [ ]

abbrev result : RunResult
result = (drive_actions-ends spec plan crash begun).0

lived : Life rid spec plan result.run
lived = started _ crash result (drive_actions-ends spec plan crash begun).1

drive_actions-ends_example :
    (res : RunResult) × (drive_actions spec plan
        (suc (step_budget spec - begun.state.cursor))
        crash
        begun
      ≡ some res)
    × Reported res.run.state.status res.crashed res.paused
    × ((res.run.state.cursor ≤ begun.state.cursor) ⊎ (res.run.state.cursor ≤ step_budget spec))
drive_actions-ends_example = drive_actions-ends spec plan crash begun

effect_once_example :
    let key = plan_key rid refund in
    (calls key result.run.log ≤ 1)
    × (calls key result.run.log ≡ held (find_receipt_by_key key result.run.receipts))
effect_once_example = effect_once rid plan spec apart known lived (plan_key rid refund)

abbrev call : Value
call = json (
    (codes "tool", string lookup.tool)
    ∷ (codes "action", string lookup.id)
    ∷ (codes "input", lookup.input)
    ∷ [])

abbrev or_begun : Option RunResult → RunResult
or_begun none = record { run = begun; crashed = false; paused = false }
or_begun (some res) = res

abbrev looked : RunResult
looked = or_begun (drive_actions spec plan 2 crash begun)

looked_ends : drive_actions spec plan 2 crash begun ≡ some looked
unfolding drive_actions iterate turn at_action authorized gated perform on_read continue advance
    crash_or_go_on crashes_at_step invoke_fake_tool text_eq contains start_action_run initial_state
    step_budget allowed_tools read_called tool_completed executed append
looked_ends = refl

was_called : In (codes "tool.called", call) looked.run.log
unfolding drive_actions iterate turn at_action authorized gated perform on_read continue advance
    crash_or_go_on crashes_at_step invoke_fake_tool text_eq contains start_action_run initial_state
    step_budget allowed_tools read_called tool_completed executed append
was_called = there (here refl)

calls-Cleared_example : Cleared rid spec plan looked.run.approvals call
calls-Cleared_example =
    calls-Cleared rid spec plan (started 2 crash looked looked_ends) call was_called

-- Both actions are done, and the budget is 2.
abbrev spent : ActionRun
spent = record begun {
  state = record (initial_state rid (codes "Resolve") (codes "action")) { cursor = 2 };
}

replay_misses_exhaustion_example :
    ((res : RunResult) × (drive_actions spec plan 1 none spent ≡ some res)
      × (res.run.state.status ≡ codes "budget_exhausted"))
    × ((replay_action_run spec plan spent).status ≢ codes "budget_exhausted")
unfolding step_budget
replay_misses_exhaustion_example = replay_misses_exhaustion spec plan 0 none spent refl refl
