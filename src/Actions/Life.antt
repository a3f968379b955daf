-- ===== src/Actions/Life.antt =====
-- src/runtime.rs and src/cli.rs: the life of a run of actions, from its start through crashes,
-- decisions on its approvals, and resumptions.
use perdure.Prelude.{
  ℕ, ◌≡◌, refl, subst, Text, Bool, true, false, Option, none, some, [], ◌∷◌, codes, text_eq, Result,
  ok, err,
}
use perdure.Prelude.Map
use perdure.Goal.{GoalSpec}
use perdure.Json.{Value, null, string, json}
use perdure.Actions.{ActionPlan, Approval, ActionCrash, ActionRun, append}
use perdure.Actions.Loop.{RunResult, drive_actions, start_action_run, resume_action_run}
use perdure.Actions.Turns.{Keeps, drive-Keeps}

unfoldable pub decision : Bool → Text
decision true = codes "granted"
decision false = codes "denied"

unfoldable pub decided_kind : Bool → Text
decided_kind true = codes "approval.granted"
decided_kind false = codes "approval.denied"

opt_string : Option Text → Value
opt_string none = null
opt_string (some s) = string s

unfoldable pub record_decision : Bool → Text → Option Text → ActionRun → Approval → ActionRun
unfolding opt_string append
record_decision granting apr_id remark r apr =
    let apr' : Approval = record apr { status = decision granting; note = remark } in
    append (record r { approvals = Map.insert apr_id apr' r.approvals }) (decided_kind granting)
      (json (
        (codes "approval_id", string apr.id)
        ∷ (codes "action", string apr.action_id)
        ∷ (codes "tool", string apr.tool)
        ∷ (codes "note", opt_string remark)
        ∷ []))

-- `true` where the approval is pending.
unfoldable pub decide_if :
    Bool → Bool → Text → Option Text → ActionRun → Approval → Result ActionRun Text
decide_if true granting apr_id remark r apr = ok (record_decision granting apr_id remark r apr)
decide_if false granting apr_id remark r apr = err (codes "decisions are final")

unfoldable pub decide_found :
    Option Approval → Bool → Text → Option Text → ActionRun → Result ActionRun Text
decide_found none granting apr_id remark r = err (codes "no approval")
decide_found (some apr) granting apr_id remark r =
    decide_if (text_eq apr.status (codes "pending")) granting apr_id remark r apr

-- `decide_approval` of src/cli.rs: `true` grants.
unfoldable pub decide_approval : Bool → Text → Option Text → ActionRun → Result ActionRun Text
decide_approval granting apr_id remark r =
    decide_found (Map.lookup apr_id r.approvals) granting apr_id remark r

-- The runs that can be on disk, when each process has ended: by itself, paused, or by a crash.
pub data Life (rid : Text) (spec : GoalSpec) (plan : ActionPlan) : ActionRun → Type 0 where
  started :
      (fuel : ℕ) (crash : Option ActionCrash) (res : RunResult)
      → drive_actions spec plan fuel crash (start_action_run rid spec plan) ≡ some res
      → Life rid spec plan res.run
  resumed :
      {r : ActionRun} (fuel : ℕ) (crash : Option ActionCrash) (res : RunResult)
      → Life rid spec plan r
      → drive_actions spec plan fuel crash (resume_action_run r) ≡ some res
      → Life rid spec plan res.run
  decided :
      {r r' : ActionRun} (granting : Bool) (apr_id : Text) (remark : Option Text)
      → Life rid spec plan r
      → decide_approval granting apr_id remark r ≡ ok r'
      → Life rid spec plan r'

unfoldable pub KeptByDecisions : (ActionRun → Type 0) → Type 0
KeptByDecisions P =
    (granting : Bool) (apr_id : Text) (remark : Option Text) (r : ActionRun) (apr : Approval)
    → Map.lookup apr_id r.approvals ≡ some apr
    → text_eq apr.status (codes "pending") ≡ true
    → P r
    → P (record_decision granting apr_id remark r apr)

module _ (P : ActionRun → Type 0) (recorded : KeptByDecisions P) where
  decide_if-keeps :
      (b granting : Bool) (apr_id : Text) (remark : Option Text) (r r' : ActionRun) (apr : Approval)
      → Map.lookup apr_id r.approvals ≡ some apr
      → text_eq apr.status (codes "pending") ≡ b
      → decide_if b granting apr_id remark r apr ≡ ok r'
      → P r
      → P r'
  unfolding decide_if KeptByDecisions
  decide_if-keeps true granting apr_id remark r r' apr f p e h =
      subst P (cc e) (recorded granting apr_id remark r apr f p h)
  decide_if-keeps false granting apr_id remark r r' apr f p e h = absurd (cc e)

  decide_found-keeps :
      (granting : Bool) (apr_id : Text) (remark : Option Text) (r r' : ActionRun)
      (o : Option Approval)
      → Map.lookup apr_id r.approvals ≡ o
      → decide_found o granting apr_id remark r ≡ ok r'
      → P r
      → P r'
  unfolding decide_found
  decide_found-keeps granting apr_id remark r r' none f e h = absurd (cc e)
  decide_found-keeps granting apr_id remark r r' (some apr) f e h =
      decide_if-keeps (text_eq apr.status (codes "pending")) granting apr_id remark r r' apr f refl
        e h

  module _ (rid : Text) (spec : GoalSpec) (plan : ActionPlan) (k : Keeps spec plan P) where
    -- What the start has, and every turn, resumption and decision keeps, holds through the life.
    pub Life-keeps :
        P (start_action_run rid spec plan)
        → ((r : ActionRun) → P r → P (resume_action_run r))
        → {r : ActionRun} → Life rid spec plan r
        → P r
    unfolding decide_approval
    Life-keeps start resume (started fuel crash res e) =
        drive-Keeps spec plan P k crash fuel _ res start e
    Life-keeps start resume (resumed {r} fuel crash res l e) =
        drive-Keeps spec plan P k crash fuel _ res (resume r (Life-keeps start resume l)) e
    Life-keeps start resume (decided {r} {r'} granting apr_id remark l e) =
        decide_found-keeps granting apr_id remark r r' (Map.lookup apr_id r.approvals) refl e
          (Life-keeps start resume l)
