-- ===== src/Actions/Cleared.antt =====
-- src/runtime.rs: the calls of tools in a run's history, and the grants and approvals behind them.
use perdure.Prelude.{
  ◌≡◌, refl, sym, subst, ◌∙◌, ◌≢◌, ◌⊎◌, inl, inr, Text, Bool, true, false, none, some, [], ◌∷◌,
  ◌++◌, codes, text_eq, text_eq_sound, text_ne, Bool-cases, All, In, here, there, contains,
}
use perdure.Prelude.Map
use perdure.Prelude.Map.{Map, lookup-insert}
use perdure.Goal.{GoalSpec, allowed_tools}
use perdure.Json.{Value, string, get, field_get}
use perdure.Store.Identity.{approval_id}
use perdure.Run.{History, initial_state}
use perdure.Actions.{PlannedAction, ActionPlan, Approval, ActionRun, append, tool_completed}
use perdure.Actions.Loop.{
  proposed, tool_called, read_called, receipt_for, commit_receipt, start_action_run,
  resume_action_run,
}
use perdure.Actions.Turns.{Open, May, Keeps}
use perdure.Actions.Life.{
  Life, Life-keeps, KeptByDecisions, record_decision, decision, decided_kind,
}

abbrev Approvals : Type 0
Approvals = Map Approval

-- The three states of an approval.
Status : Text → Type 0
Status s = (s ≡ codes "pending") ⊎ ((s ≡ codes "granted") ⊎ (s ≡ codes "denied"))

Legal : Approvals → Type 0
unfolding Status
Legal aprs = (id : Text) (apr : Approval) → Map.lookup id aprs ≡ some apr → Status apr.status

-- A human granted the approval of that id.
unfoldable pub Granted : Approvals → Text → Type 0
Granted aprs id =
    (apr : Approval) × (Map.lookup id aprs ≡ some apr) × (apr.status ≡ codes "granted")

-- A call tells of an action of the plan whose tool the goal grants, and which, if it requires an
-- approval, has a granted one.
unfoldable pub Cleared : Text → GoalSpec → ActionPlan → Approvals → Value → Type 0
unfolding Granted
Cleared rid spec plan aprs payload =
    (a : PlannedAction) × In a plan.steps
    × (contains (allowed_tools spec) a.tool ≡ true)
    × (get payload (codes "tool") ≡ some (string a.tool))
    × (get payload (codes "action") ≡ some (string a.id))
    × (a.requires_approval ≡ true → Granted aprs (approval_id rid a.id))

Status-granted :
    (s : Text)
    → Status s
    → text_eq s (codes "pending") ≡ false
    → text_eq s (codes "denied") ≡ false
    → s ≡ codes "granted"
unfolding Status
Status-granted s (inl e) p d = absurd (text_ne s (codes "pending") p e)
Status-granted s (inr (inl e)) p d = e
Status-granted s (inr (inr e)) p d = absurd (text_ne s (codes "denied") d e)

decided_kind_quiet : (b : Bool) → text_eq (decided_kind b) (codes "tool.called") ≡ false
unfolding decided_kind text_eq
decided_kind_quiet true = refl
decided_kind_quiet false = refl

decision-Status : (b : Bool) → Status (decision b)
unfolding Status decision
decision-Status true = inr (inl refl)
decision-Status false = inr (inr refl)

-- No grant is lost where the approval that is written was missing or pending.
Granted-insert :
    (id j : Text) (apr : Approval) (aprs : Approvals)
    → ((old : Approval)
        → Map.lookup j aprs ≡ some old
        → text_eq old.status (codes "pending") ≡ true)
    → Granted aprs id
    → Granted (Map.insert j apr aprs) id
unfolding Granted
Granted-insert id j apr aprs pending (old, f, g) = elim (Bool-cases (text_eq j id)) [
  | inl e ↦
      let same = text_eq_sound j id e in
      let p =
        text_eq_sound _ _ (pending old (subst (λ i. Map.lookup i aprs ≡ some old) (sym same) f)) in
      let clash : codes "pending" ≡ codes "granted" = rw (← p, ← g) refl in
      absurd (text_ne (codes "pending") (codes "granted") (unfold text_eq in refl) clash)
  | inr e ↦ (old, rw (lookup-insert j id apr aprs, e) f, g)
]

Legal-insert :
    (j : Text) (apr : Approval) (aprs : Approvals)
    → Status apr.status
    → Legal aprs
    → Legal (Map.insert j apr aprs)
unfolding Legal
Legal-insert j apr aprs s h id x f = elim (Bool-cases (text_eq j id)) [
  | inl e ↦
      let f' : some apr ≡ some x = rw (lookup-insert j id apr aprs, e) at f in
      (let same : apr ≡ x = cc f' in subst (λ (y : Approval). Status y.status) same s)
  | inr e ↦ h id x (rw (lookup-insert j id apr aprs, e) at f)
]

module _ (rid : Text) (spec : GoalSpec) (plan : ActionPlan) where
  CallEvent : Approvals → Text × Value → Type 0
  CallEvent aprs (kind, payload) =
      text_eq kind (codes "tool.called") ≡ true → Cleared rid spec plan aprs payload

  Safe : ActionRun → Type 0
  unfolding CallEvent Legal
  Safe r = (r.state.run_id ≡ rid) × Legal r.approvals × All (CallEvent r.approvals) r.log

  All-append_one :
      (aprs : Approvals) (log : History) (e : Text × Value)
      → CallEvent aprs e
      → All (CallEvent aprs) log
      → All (CallEvent aprs) (log ++ e ∷ [])
  All-append_one aprs [] e p h = (p, tt)
  All-append_one aprs (x ∷ log) e p h = (h.0, All-append_one aprs log e p h.1)

  quiet_event :
      (aprs : Approvals) (kind : Text) (payload : Value)
      → text_eq kind (codes "tool.called") ≡ false
      → CallEvent aprs (kind, payload)
  unfolding CallEvent
  quiet_event aprs kind payload q t = let clash : true ≡ false = rw t at q in absurd (cc clash)

  All-insert :
      (j : Text) (apr : Approval) (aprs : Approvals) (log : History)
      → ((old : Approval)
          → Map.lookup j aprs ≡ some old
          → text_eq old.status (codes "pending") ≡ true)
      → All (CallEvent aprs) log
      → All (CallEvent (Map.insert j apr aprs)) log
  All-insert j apr aprs [] pending h = tt
  All-insert j apr aprs (e ∷ log) pending h = (
    unfold CallEvent Cleared in
        λ t.
          let (a, ina, tool, t1, t2, g) = h.0 t in
          (a, ina, tool, t1, t2, λ req. Granted-insert _ j apr aprs pending (g req)),
    All-insert j apr aprs log pending h.1,
  )

  -- What an open gate shows.
  May-Granted :
      (r : ActionRun) (a : PlannedAction)
      → Safe r
      → May spec plan r a
      → a.requires_approval ≡ true
      → Granted r.approvals (approval_id rid a.id)
  unfolding Safe May Open Granted Legal
  May-Granted r a h may req =
      let (apr, f, p, d) = may.2 req in
      (
        apr,
        subst (λ i. Map.lookup (approval_id i a.id) r.approvals ≡ some apr) h.0 f,
        Status-granted apr.status (h.1 _ apr f) p d,
      )

  called-CallEvent :
      (r : ActionRun) (a : PlannedAction) (payload : Value)
      → get payload (codes "tool") ≡ some (string a.tool)
      → get payload (codes "action") ≡ some (string a.id)
      → Safe r
      → May spec plan r a
      → CallEvent r.approvals (codes "tool.called", payload)
  unfolding CallEvent Cleared May
  called-CallEvent r a payload t1 t2 h may _ =
      (a, may.0, may.1, t1, t2, λ req. May-Granted r a h may req)

  append-Safe :
      (r : ActionRun) (kind : Text) (payload : Value)
      → CallEvent r.approvals (kind, payload)
      → Safe r
      → Safe (append r kind payload)
  unfolding Safe append
  append-Safe r kind payload p h =
      (h.0, h.1, All-append_one r.approvals r.log (kind, payload) p h.2)

  called-Safe :
      (r : ActionRun) (a : PlannedAction) → May spec plan r a → Safe r → Safe (tool_called a r)
  unfolding tool_called get field_get text_eq
  called-Safe r a may h =
      append-Safe r (codes "tool.called") _ (called-CallEvent r a _ refl refl h may) h

  quiet-Safe :
      (r : ActionRun) (kind : Text) (payload : Value)
      → text_eq kind (codes "tool.called") ≡ false
      → Safe r
      → Safe (append r kind payload)
  quiet-Safe r kind payload q h =
      append-Safe r kind payload (quiet_event r.approvals kind payload q) h

  -- An approval is written, missing before or pending.
  approved-Safe :
      (j : Text) (apr : Approval) (r : ActionRun)
      → Status apr.status
      → ((old : Approval)
          → Map.lookup j r.approvals ≡ some old
          → text_eq old.status (codes "pending") ≡ true)
      → Safe r
      → Safe (record r { approvals = Map.insert j apr r.approvals })
  unfolding Safe
  approved-Safe j apr r s pending h =
      (h.0, Legal-insert j apr r.approvals s h.1, All-insert j apr r.approvals r.log pending h.2)

  asked-Safe :
      (r : ActionRun) (a : PlannedAction)
      → Map.lookup (approval_id r.state.run_id a.id) r.approvals ≡ none
      → Safe r
      → Safe (proposed a r)
  unfolding proposed append text_eq Safe Status
  asked-Safe r a f h = (
    h.0,
    Legal-insert _ _ r.approvals (inl refl) h.1,
    All-append_one _ _ _ (quiet_event _ (codes "approval.requested") _ refl) (
        All-append_one _ r.log _ (quiet_event _ (codes "action.proposed") _ refl)
          (All-insert _ _ r.approvals r.log (λ old g. absurd (cc (sym f ∙ g))) h.2)),
  )

  read-Safe :
      (r : ActionRun) (a : PlannedAction) → May spec plan r a → Safe r → Safe (read_called a r)
  unfolding read_called get field_get text_eq
  read-Safe r a may h =
      append-Safe r (codes "tool.called") _ (called-CallEvent r a _ refl refl h may) h

  wrote-Safe :
      (r : ActionRun) (a : PlannedAction) (output : Value)
      → May spec plan r a
      → Safe r
      → let done = tool_completed a output (tool_called a r) in
        Safe (commit_receipt a (receipt_for a output done) done)
  unfolding commit_receipt tool_completed append text_eq Safe
  wrote-Safe r a output may h =
      let called = called-Safe r a may h in
      (
        called.0,
        called.1,
        All-append_one _ _ _ (quiet_event _ (codes "receipt.created") _ refl) (
            All-append_one _ (tool_called a r).log _ (quiet_event _ (codes "tool.completed") _ refl)
              called.2),
      )

  Safe-Keeps : Keeps spec plan Safe
  unfolding Safe
  Safe-Keeps = record {
    quiet = quiet-Safe;
    counted = λ r st e h. (e ∙ h.0, h.1, h.2);
    asked = asked-Safe;
    read = read-Safe;
    wrote = λ r a output may f h. wrote-Safe r a output may h;
    fell = λ r a e may call h. called-Safe r a may h;
  }

  recorded-Safe : KeptByDecisions Safe
  unfolding KeptByDecisions record_decision
  recorded-Safe granting apr_id remark r apr f p h =
      quiet-Safe _ (decided_kind granting) _ (decided_kind_quiet granting) (
        approved-Safe apr_id _ r (decision-Status granting)
          (λ old g.
            let same : apr ≡ old = cc (sym f ∙ g) in
            subst (λ (x : Approval). text_eq x.status (codes "pending") ≡ true) same p)
          h)

  started : text_eq (codes "run.started") (codes "tool.called") ≢ true
  unfolding text_eq
  started e = cc e

  start-Safe : Safe (start_action_run rid spec plan)
  unfolding Safe start_action_run initial_state Legal CallEvent Map.lookup
  start-Safe = (refl, λ id apr f. absurd (cc f), (λ t. absurd (started t), tt))

  resume-Safe : (r : ActionRun) → Safe r → Safe (resume_action_run r)
  unfolding resume_action_run
  resume-Safe r h = quiet-Safe r (codes "run.resumed") _ (unfold text_eq in refl) h

  All-In :
      (aprs : Approvals) (log : History) (e : Text × Value)
      → All (CallEvent aprs) log
      → In e log
      → CallEvent aprs e
  All-In aprs [] e h i = elim i [ ]
  All-In aprs (x ∷ log) e h (here p) = subst (CallEvent aprs) (sym p) h.0
  All-In aprs (x ∷ log) e h (there i) = All-In aprs log e h.1 i

  -- Through any crashes (behind a step or behind a receipt), resumptions and decisions every call of a
  -- tool in the history is that of an action of the plan whose tool the goal grants and, where the
  -- action requires an approval, whose approval is granted.
  pub calls-Cleared :
      {r : ActionRun}
      → Life rid spec plan r
      → (payload : Value) → In (codes "tool.called", payload) r.log
      → Cleared rid spec plan r.approvals payload
  unfolding Safe CallEvent
  calls-Cleared {r} l payload i =
      let safe = Life-keeps Safe recorded-Safe rid spec plan Safe-Keeps start-Safe resume-Safe l in
      All-In r.approvals r.log (codes "tool.called", payload) safe.2 i (unfold text_eq in refl)
