-- ===== src/Actions/Once/Lives.antt =====
-- src/runtime.rs: the effect of an action happens at most once in the life of a run.
use perdure.Prelude.{
  ◌≤◌, ◌≡◌, refl, sym, ap, ◌∙◌, arith, Text, Bool, true, false, Option, codes, text_eq, err, ◌≢◌,
}
use perdure.Goal.{GoalSpec}
use perdure.Json.{Value}
use perdure.Run.{find_receipt_by_key, initial_state}
use perdure.Actions.{PlannedAction, ActionPlan, Approval, ActionRun, append}
use perdure.Actions.Tools.{invoke_fake_tool, is_known_tool, is_ok, known_tools_exact}
use perdure.Actions.Loop.{proposed, read_called, start_action_run, resume_action_run}
use perdure.Actions.Turns.{May, Keeps}
use perdure.Actions.Life.{Life, Life-keeps, KeptByDecisions, decided_kind, record_decision}
use perdure.Actions.Once.{
  calls, calls-append_other, calls-append_keyless, held, held-le, is_call, Apart, Known, Sound,
  Issued, append-Sound, commit-Sound,
}

module _ (rid : Text) (plan : ActionPlan) where
  -- A call that the runtime has no tool for does not occur in a known plan.
  answered :
      (tool : Text) (input : Value) (e : Text)
      → is_known_tool tool ≡ true
      → invoke_fake_tool tool input ≢ err e
  answered tool input e known failed =
      let wrong : false ≡ true = ap is_ok (sym failed) ∙ known_tools_exact tool input ∙ known in
      cc wrong

  proposed-Sound :
      (r : ActionRun) (a : PlannedAction) → Sound rid plan r → Sound rid plan (proposed a r)
  unfolding proposed append Sound
  proposed-Sound r a h = (
    h.0,
    h.1,
    λ key.
        calls-append_other key (codes "approval.requested") _ _ (unfold text_eq in refl)
        ∙ calls-append_other key (codes "action.proposed") _ r.log (unfold text_eq in refl)
        ∙ h.2 key,
  )

  Sound-Keeps : (spec : GoalSpec) → Apart rid plan → Known plan → Keeps spec plan (Sound rid plan)
  unfolding Sound May Known
  Sound-Keeps spec apart known = record {
    quiet = λ r kind payload q h. append-Sound rid plan r kind payload q h;
    counted = λ r st e h. (e ∙ h.0, h.1, h.2);
    asked = λ r a f h. proposed-Sound r a h;
    read = λ r a may h.
        unfold read_called append in
        (h.0, h.1, λ key. calls-append_keyless key a.tool a.id a.input r.log ∙ h.2 key);
    wrote = λ r a output may f h. commit-Sound rid plan a output r apart may.0 f h;
    fell = λ r a e may call h. absurd (answered a.tool a.input e (known a may.0) call);
  }

  start-Sound : (spec : GoalSpec) → Sound rid plan (start_action_run rid spec plan)
  unfolding Sound start_action_run initial_state find_receipt_by_key held Issued
  start-Sound spec = (refl, tt, λ key. unfold calls is_call text_eq in omega arith)

  resume-Sound : (r : ActionRun) → Sound rid plan r → Sound rid plan (resume_action_run r)
  unfolding resume_action_run
  resume-Sound r h = append-Sound rid plan r (codes "run.resumed") _ (unfold text_eq in refl) h

  recorded-Sound :
      (granting : Bool) (apr_id : Text) (remark : Option Text) (r : ActionRun) (apr : Approval)
      → Sound rid plan r
      → Sound rid plan (record_decision granting apr_id remark r apr)
  unfolding record_decision
  recorded-Sound true apr_id remark r apr h =
      append-Sound rid plan _ (decided_kind true) _ (unfold decided_kind text_eq in refl)
        (unfold Sound in h)
  recorded-Sound false apr_id remark r apr h =
      append-Sound rid plan _ (decided_kind false) _ (unfold decided_kind text_eq in refl)
        (unfold Sound in h)

  -- Through any crashes (behind a step or behind a receipt), resumptions and decisions the tool of an
  -- effectful action is called at most once for its idempotency key, and exactly as often as there is
  -- a receipt of the key, where the plan's tools are known and the ids of its receipts do not collide.
  pub effect_once :
      (spec : GoalSpec)
      → Apart rid plan
      → Known plan
      → {r : ActionRun} → Life rid spec plan r
      → (key : Text)
      → (calls key r.log ≤ 1) × (calls key r.log ≡ held (find_receipt_by_key key r.receipts))
  unfolding Sound
  effect_once spec apart known {r} l key =
      let sound =
        Life-keeps (Sound rid plan)
          (unfold KeptByDecisions in
            λ granting apr_id remark r apr f p. recorded-Sound granting apr_id remark r apr)
          rid spec plan (Sound-Keeps spec apart known) (start-Sound spec) resume-Sound l in
      let e = sound.2 key in (rw e (held-le (find_receipt_by_key key r.receipts)), e)
