-- ===== src/Actions/Loop.antt =====
-- src/runtime.rs: the turns of `drive_actions`, its loop, and the start and the resumption of a run.
use perdure.Prelude.{
  ℕ, zero, suc, ◌+◌, ◌≡◌, leb, Text, Bool, true, false, Option, none, some, [], ◌∷◌, ◌++◌, codes,
  contains, text_eq, get_elem?, length, Result, ok, err, map, subst,
}
use perdure.Prelude.Map
use perdure.Goal.{GoalSpec, step_budget, allowed_tools}
use perdure.Json.{Value, nat, number, string, array, items_of, json}
use perdure.Event.{format_event_id}
use perdure.Store.Identity.{approval_id, receipt_id, input_hash}
use perdure.Run.{Receipt, initial_state, save_receipt, find_receipt_by_key}
use perdure.Actions.{
  PlannedAction, ActionPlan, Approval, ActionCrash, ActionRun, Iteration, again, finished, append,
  with_status, crashes_at_step, crashes_after_receipt, exhausted, completed, failed, skipped,
  tool_failed, tool_completed, advance, executed, key_of, gate_of,
}
use perdure.Actions.Tools.{invoke_fake_tool}

-- The first time at a gate: the action is proposed and its approval requested.
unfoldable pub proposed : PlannedAction → ActionRun → ActionRun
unfolding append with_status
proposed a r =
    let apr_id = approval_id r.state.run_id a.id in
    let approval : Approval = record {
      id = apr_id;
      action_id = a.id;
      tool = a.tool;
      summary = a.summary;
      status = codes "pending";
      note = none;
    } in
    let saved : ActionRun = record r { approvals = Map.insert apr_id approval r.approvals } in
    let told = append saved (codes "action.proposed") (
      json (
        (codes "action", string a.id)
        ∷ (codes "tool", string a.tool)
        ∷ (codes "summary", string a.summary)
        ∷ (codes "input", a.input)
        ∷ [])) in
    let asked = append told (codes "approval.requested") (
      json (
        (codes "approval_id", string apr_id)
        ∷ (codes "action", string a.id)
        ∷ (codes "tool", string a.tool)
        ∷ [])) in
    record asked {
      state = record asked.state {
        pending_approval = some apr_id;
        status = codes "awaiting_approval";
        step = asked.state.step + 1;
      };
    }

unfoldable pub pause_unless : Bool → ActionRun → Iteration
pause_unless true r = finished r true false
pause_unless false r = finished r false true

unfoldable pub denied : PlannedAction → ActionRun → Iteration
unfolding append with_status skipped
denied a r =
    finished
      (append (with_status (codes "denied") (skipped (codes "approval denied") a r))
        (codes "run.failed")
        (json (
          (codes "reason", string (codes "approval denied")) ∷ (codes "action", string a.id) ∷ [])))
      false false

unfoldable pub tool_called : PlannedAction → ActionRun → ActionRun
unfolding append key_of
tool_called a r = append r (codes "tool.called") (
    json (
      (codes "tool", string a.tool)
      ∷ (codes "action", string a.id)
      ∷ (codes "idempotency_key", string (key_of r a))
      ∷ (codes "input", a.input)
      ∷ []))

unfoldable pub read_called : PlannedAction → ActionRun → ActionRun
unfolding append
read_called a r = append r (codes "tool.called") (
    json (
      (codes "tool", string a.tool)
      ∷ (codes "action", string a.id)
      ∷ (codes "input", a.input)
      ∷ []))

-- `log.peek_seq()`: the first event has number 1.
unfoldable pub peek_seq : ActionRun → ℕ
peek_seq r = length r.log + 1

unfoldable pub receipt_for : PlannedAction → Value → ActionRun → Receipt
unfolding key_of gate_of peek_seq
receipt_for a output r =
    let key = key_of r a in
    record {
      receipt_id = receipt_id key;
      idempotency_key = key;
      action_id = a.id;
      tool = a.tool;
      input = a.input;
      output = output;
      run_id = r.state.run_id;
      step = r.state.receipts_created + 1;
      effect = a.tool;
      input_hash = input_hash a.input;
      approval_id = gate_of a.requires_approval r a;
      created_event_id = format_event_id (peek_seq r);
    }

-- The commit point: the receipt is saved, then counted and told.
unfoldable pub commit_receipt : PlannedAction → Receipt → ActionRun → ActionRun
unfolding append
commit_receipt a x r =
    append
      (record r {
        receipts = save_receipt x r.receipts;
        state = record r.state { receipts_created = r.state.receipts_created + 1 };
      })
      (codes "receipt.created")
      (json (
        (codes "receipt_id", string x.receipt_id)
        ∷ (codes "tool", string a.tool)
        ∷ (codes "action", string a.id)
        ∷ (codes "idempotency_key", string x.idempotency_key)
        ∷ []))

-- The window between the receipt and the cursor.
unfoldable pub after_commit : Bool → Option ActionCrash → ActionRun → Iteration
after_commit true crash r = finished r true false
after_commit false crash r = advance crash (executed r)

unfoldable pub on_output :
    Option ActionCrash → PlannedAction → ActionRun → Result Value Text → Iteration
on_output crash a r (err e) = failed (codes "tool failed") a (tool_failed a e r)
on_output crash a r (ok output) =
    let done = tool_completed a output r in
    let saved = commit_receipt a (receipt_for a output done) done in
    after_commit (crashes_after_receipt crash saved.state.receipts_created) crash saved

unfoldable pub reused : PlannedAction → Receipt → ActionRun → ActionRun
unfolding append key_of
reused a x r = skipped (codes "receipt already exists") a (
    append r (codes "receipt.reused") (
      json (
        (codes "receipt_id", string x.receipt_id)
        ∷ (codes "idempotency_key", string (key_of r a))
        ∷ (codes "action", string a.id)
        ∷ [])))

unfoldable pub on_receipt :
    Option ActionCrash → PlannedAction → ActionRun → Option Receipt → Iteration
on_receipt crash a r (some x) = advance crash (executed (reused a x r))
on_receipt crash a r none = on_output crash a (tool_called a r) (invoke_fake_tool a.tool a.input)

unfoldable pub on_read :
    Option ActionCrash → PlannedAction → ActionRun → Result Value Text → Iteration
on_read crash a r (err e) = failed (codes "tool failed") a (tool_failed a e r)
on_read crash a r (ok output) = advance crash (executed (tool_completed a output r))

-- `true` at an effectful action.
unfoldable pub perform : Bool → Option ActionCrash → PlannedAction → ActionRun → Iteration
perform true crash a r = on_receipt crash a r (find_receipt_by_key (key_of r a) r.receipts)
perform false crash a r = on_read crash a (read_called a r) (invoke_fake_tool a.tool a.input)

unfoldable pub unless_denied : Bool → Option ActionCrash → PlannedAction → ActionRun → Iteration
unless_denied true crash a r = denied a r
unless_denied false crash a r = perform a.effectful crash a r

unfoldable pub unless_pending :
    Bool → Text → Option ActionCrash → PlannedAction → ActionRun → Iteration
unfolding with_status
unless_pending true status crash a r =
    finished (with_status (codes "awaiting_approval") r) false true
unless_pending false status crash a r = unless_denied (text_eq status (codes "denied")) crash a r

unfoldable pub on_approval :
    Option Approval → Option ActionCrash → PlannedAction → ActionRun → Iteration
on_approval none crash a r =
    let asked = proposed a r in pause_unless (crashes_at_step crash asked.state.step) asked
on_approval (some apr) crash a r =
    unless_pending (text_eq apr.status (codes "pending")) apr.status crash a r

-- `true` at an action that requires approval.
unfoldable pub gated : Bool → Option ActionCrash → PlannedAction → ActionRun → Iteration
gated true crash a r =
    on_approval (Map.lookup (approval_id r.state.run_id a.id) r.approvals) crash a r
gated false crash a r = perform a.effectful crash a r

unfoldable pub authorized : Bool → Option ActionCrash → PlannedAction → ActionRun → Iteration
authorized false crash a r =
    failed (codes "tool `" ++ (a.tool ++ codes "` is outside the goal's authority")) a r
authorized true crash a r = gated a.requires_approval crash a r

unfoldable pub at_action :
    GoalSpec → Option PlannedAction → Option ActionCrash → ActionRun → Iteration
at_action spec none crash r = completed r
at_action spec (some a) crash r = authorized (contains (allowed_tools spec) a.tool) crash a r

-- `true` where the budget is spent.
unfoldable pub turn : Bool → GoalSpec → ActionPlan → Option ActionCrash → ActionRun → Iteration
turn true spec plan crash r = exhausted spec r
turn false spec plan crash r = at_action spec (get_elem? plan.steps r.state.cursor) crash r

unfoldable pub iterate : GoalSpec → ActionPlan → Option ActionCrash → ActionRun → Iteration
iterate spec plan crash r = turn (leb (step_budget spec) r.state.cursor) spec plan crash r

pub record RunResult : Type 0 where
  pub run : ActionRun
  pub crashed : Bool
  pub paused : Bool

unfoldable pub continue : Iteration → (ActionRun → Option RunResult) → Option RunResult
continue (finished r c p) k = some (record { run = r; crashed = c; paused = p })
continue (again r) k = k r

-- The loop, on fuel: `none` is a loop that did not end yet.
unfoldable pub drive_actions :
    GoalSpec → ActionPlan → ℕ → Option ActionCrash → ActionRun → Option RunResult
drive_actions spec plan zero crash r = none
drive_actions spec plan (suc fuel) crash r =
    continue (iterate spec plan crash r) (drive_actions spec plan fuel crash)

abbrev pub after : Iteration → ActionRun
after (again r) = r
after (finished r c p) = r

module _ (P : ActionRun → Type 0) (spec : GoalSpec) (plan : ActionPlan)
    (crash : Option ActionCrash) where
  continue-keeps :
      (it : Iteration) (k : ActionRun → Option RunResult) (res : RunResult)
      → P (after it)
      → ((r : ActionRun) → P r → k r ≡ some res → P res.run)
      → continue it k ≡ some res
      → P res.run
  unfolding continue
  continue-keeps (finished r c p) k res h rest e =
      let same : record { run = r; crashed = c; paused = p } ≡ res = cc e in
      subst (λ (x : RunResult). P x.run) same h
  continue-keeps (again r) k res h rest e = rest r h e

  -- What each turn keeps, the loop keeps.
  pub drive-keeps :
      ((r : ActionRun) → P r → P (after (iterate spec plan crash r)))
      → (fuel : ℕ) (r : ActionRun) (res : RunResult) → P r
      → drive_actions spec plan fuel crash r ≡ some res
      → P res.run
  unfolding drive_actions
  drive-keeps keep zero r res h e = absurd (cc e)
  drive-keeps keep (suc fuel) r res h e =
      continue-keeps (iterate spec plan crash r) (drive_actions spec plan fuel crash) res (keep r h)
        (λ r'. drive-keeps keep fuel r' res) e

-- `start_action_run`, up to the loop.
unfoldable pub start_action_run : Text → GoalSpec → ActionPlan → ActionRun
start_action_run run_id spec plan = record {
  state = initial_state run_id spec.name (codes "action");
  receipts = [];
  approvals = [];
  log =
      (
        codes "run.started",
        json (
            (codes "goal", string spec.name)
            ∷ (codes "kind", string (codes "action"))
            ∷ (codes "budget", json ((codes "steps", number (nat (step_budget spec))) ∷ []))
            ∷ (codes "tools", array (items_of (map string spec.allow.tools)))
            ∷ (codes "actions", number (nat (length plan.steps)))
            ∷ []),
      )
      ∷ [];
}

-- `resume_action_run`, up to the loop.
unfoldable pub resume_action_run : ActionRun → ActionRun
unfolding append
resume_action_run r = append r (codes "run.resumed") (
    json (
      (codes "from_step", number (nat r.state.step))
      ∷ (codes "cursor", number (nat r.state.cursor))
      ∷ []))
