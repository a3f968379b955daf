-- ===== src/Actions/Once.antt =====
-- src/runtime.rs: how often the tool of an effectful action is called.
pub mod Lives
use perdure.Prelude.{
  ℕ, zero, suc, ◌+◌, ◌≤◌, ◌≡◌, refl, sym, ap, ◌∙◌, subst, arith, Text, Bool, true, false, ◌&&◌,
  Option, none, some, List, [], ◌∷◌, ◌++◌, codes, text_eq, text_eq_sound, text_eq_iff, text_eq_refl,
  text_ltb, if◌then◌else◌, Bool-cases, Option-cases, inl, inr, Result, ok, err, All, ◌≢◌, In, here,
  there, get_elem?, contains, leb,
}
use perdure.Prelude.Map
use perdure.Prelude.Map.{Map}
use perdure.Goal.{GoalSpec, step_budget, allowed_tools}
use perdure.Json.{Value, string, json, get, field_get}
use perdure.Store.Identity.{idempotency_key, receipt_id, approval_id}
use perdure.Run.{Receipt, Receipts, History, save_receipt, find_receipt_by_key, initial_state}
use perdure.Actions.{PlannedAction, ActionPlan, Approval, ActionRun, append, tool_completed, key_of}
use perdure.Actions.Tools.{invoke_fake_tool, is_known_tool, is_ok, known_tools_exact}
use perdure.Actions.Loop.{
  proposed, tool_called, read_called, receipt_for, commit_receipt, start_action_run,
  resume_action_run,
}
use perdure.Actions.Turns.{May, Keeps}
use perdure.Actions.Life.{
  Life, Life-keeps, decide_approval, decide_found, decide_if, decided_kind, record_decision,
}

has_key : Text → Option Value → Bool
has_key key (some (string k)) = text_eq k key
has_key key _ = false

unfoldable pub is_call : Text → Text × Value → Bool
unfolding has_key
is_call key (kind, payload) =
    text_eq kind (codes "tool.called") && has_key key (get payload (codes "idempotency_key"))

-- How many calls of tools the history has for an idempotency key.
unfoldable pub calls : Text → History → ℕ
unfolding is_call
calls key [] = 0
calls key (e ∷ log) = (if is_call key e then 1 else 0) + calls key log

unfoldable pub held : Option Receipt → ℕ
held none = 0
held (some x) = 1

pub held-le : (o : Option Receipt) → held o ≤ 1
unfolding held
held-le none = omega arith
held-le (some x) = omega arith

calls-append :
    (key : Text) (log : History) (e : Text × Value)
    → calls key (log ++ e ∷ []) ≡ calls key log + (if is_call key e then 1 else 0)
unfolding calls
calls-append key [] e = omega arith
calls-append key (x ∷ log) e = omega (arith, calls-append key log e)

-- A receipt under the same file name is one of the same key.
NoClash : Receipt → Receipts → Type 0
NoClash x [] = Unit
NoClash x ((id, y) ∷ rs) =
    (text_eq id x.receipt_id ≡ true → text_eq y.idempotency_key x.idempotency_key ≡ true)
    × NoClash x rs

find-save :
    (x : Receipt) (rs : Receipts) (key : Text)
    → NoClash x rs
    → find_receipt_by_key x.idempotency_key rs ≡ none
    → find_receipt_by_key key (save_receipt x rs)
      ≡ (if text_eq x.idempotency_key key then some x else find_receipt_by_key key rs)
unfolding NoClash find_receipt_by_key save_receipt Map.insert
find-save x [] key n f = refl
find-save x ((id, y) ∷ rs) key n f = ground (
  arith,
  find-save x rs key n.1,
  text_eq_iff x.idempotency_key key,
  text_eq_iff y.idempotency_key key,
  text_eq_iff y.idempotency_key x.idempotency_key,
)

pub calls-append_other :
    (key kind : Text) (payload : Value) (log : History)
    → text_eq kind (codes "tool.called") ≡ false
    → calls key (log ++ (kind, payload) ∷ []) ≡ calls key log
calls-append_other key kind payload log q =
    calls-append key log (kind, payload) ∙ (unfold is_call in rw q (omega arith))

pub calls-append_keyless :
    (key tool id : Text) (input : Value) (log : History)
    → calls key (
        log
        ++ (
          codes "tool.called",
          json (
              (codes "tool", string tool)
              ∷ (codes "action", string id)
              ∷ (codes "input", input)
              ∷ []),
        )
          ∷ [])
      ≡ calls key log
calls-append_keyless key tool id input log =
    calls-append key log _ ∙ (unfold is_call text_eq get field_get has_key in omega arith)

-- The history of one call with its receipt has one more call for its key, and no other.
calls-commit :
    (key : Text) (a : PlannedAction) (output : Value) (x : Receipt) (r : ActionRun)
    → calls key (commit_receipt a x (tool_completed a output (tool_called a r))).log
      ≡ calls key r.log + (if text_eq (key_of r a) key then 1 else 0)
unfolding commit_receipt tool_completed append
calls-commit key a output x r =
    let called = tool_called a r in
    calls-append_other key (codes "receipt.created") _ (tool_completed a output called).log
      (unfold text_eq in refl)
    ∙ calls-append_other key (codes "tool.completed") _ called.log (unfold text_eq in refl)
    ∙ (unfold tool_called append in
        calls-append key r.log _ ∙ (unfold is_call text_eq get field_get has_key key_of in refl))

abbrev pub plan_key : Text → PlannedAction → Text
plan_key rid a = idempotency_key rid a.id a.tool a.input

-- The ids of the receipts, which are short digests of the keys, tell the plan's keys apart.
unfoldable pub Apart : Text → ActionPlan → Type 0
Apart rid plan =
    (a b : PlannedAction)
    → In a plan.steps
    → In b plan.steps
    → receipt_id (plan_key rid a) ≡ receipt_id (plan_key rid b)
    → plan_key rid a ≡ plan_key rid b

-- Every tool of the plan is one that the runtime has.
unfoldable pub Known : ActionPlan → Type 0
Known plan = (a : PlannedAction) → In a plan.steps → is_known_tool a.tool ≡ true

module _ (rid : Text) (plan : ActionPlan) where
  pub Keyed : Text → Type 0
  Keyed key = (a : PlannedAction) × In a plan.steps × (key ≡ plan_key rid a)

  unfoldable pub Issued : Receipts → Type 0
  Issued [] = Unit
  Issued ((id, y) ∷ rs) = (id ≡ receipt_id y.idempotency_key) × Keyed y.idempotency_key × Issued rs

  Issued-save :
      (x : Receipt) (rs : Receipts)
      → x.receipt_id ≡ receipt_id x.idempotency_key
      → Keyed x.idempotency_key
      → Issued rs
      → Issued (save_receipt x rs)
  unfolding Issued save_receipt Map.insert
  Issued-save x [] e k h = (e, k, tt)
  Issued-save x ((id, y) ∷ rs) e k h = elim (Bool-cases (text_eq id x.receipt_id)) [
    | inl p ↦ rw p (e, k, h.2)
    | inr p ↦ elim (Bool-cases (text_ltb x.receipt_id id)) [
      | inl q ↦ rw (p, q) (e, k, h)
      | inr q ↦ rw (p, q) (h.0, h.1, Issued-save x rs e k h.2)
    ]
  ]

  NoClash-Issued :
      (x : Receipt) (rs : Receipts)
      → Apart rid plan
      → x.receipt_id ≡ receipt_id x.idempotency_key
      → Keyed x.idempotency_key
      → Issued rs
      → NoClash x rs
  unfolding NoClash Issued Keyed Apart
  NoClash-Issued x [] apart e k h = tt
  NoClash-Issued x ((id, y) ∷ rs) apart e k h =
      let (b, inb, eb) = k in
      let (a, ina, ea) = h.1 in
      (
        λ same.
            let ids : receipt_id (plan_key rid a) ≡ receipt_id (plan_key rid b) =
              ap receipt_id (sym ea)
              ∙ sym h.0
              ∙ text_eq_sound id x.receipt_id same
              ∙ e
              ∙ ap receipt_id eb in
            (text_eq_iff y.idempotency_key x.idempotency_key).1
              (ea ∙ apart a b ina inb ids ∙ sym eb),
        NoClash-Issued x rs apart e k h.2,
      )

  -- Each call of an effectful action's tool has its receipt, and each receipt its one call.
  unfoldable pub Sound : ActionRun → Type 0
  unfolding Issued
  Sound r =
      (r.state.run_id ≡ rid)
      × Issued r.receipts
      × ((key : Text) → calls key r.log ≡ held (find_receipt_by_key key r.receipts))

  pub append-Sound :
      (r : ActionRun) (kind : Text) (payload : Value)
      → text_eq kind (codes "tool.called") ≡ false
      → Sound r
      → Sound (append r kind payload)
  unfolding Sound append
  append-Sound r kind payload q h = (
    h.0,
    h.1,
    λ key.
        calls-append key r.log (kind, payload) ∙ (unfold is_call in rw q (omega (arith, h.2 key))),
  )

  counted :
      (x : Receipt) (key : Text) (rs : Receipts) (n : ℕ)
      → NoClash x rs
      → find_receipt_by_key x.idempotency_key rs ≡ none
      → n ≡ held (find_receipt_by_key key rs)
      → n + (if text_eq x.idempotency_key key then 1 else 0)
        ≡ held (find_receipt_by_key key (save_receipt x rs))
  unfolding held
  counted x key rs n clash none_yet h =
      rw (find-save x rs key clash none_yet) (elim (Bool-cases (text_eq x.idempotency_key key)) [
        | inl e ↦
            let same = text_eq_sound x.idempotency_key key e in
            let zero_yet : held (find_receipt_by_key key rs) ≡ 0 = rw (← same, none_yet) refl in
            rw e (omega (arith, h, zero_yet))
        | inr e ↦ rw e (omega (arith, h))
      ])

  -- One call of an effectful action's tool, up to its receipt.
  pub commit-Sound :
      (a : PlannedAction) (output : Value) (r : ActionRun)
      → Apart rid plan
      → In a plan.steps
      → find_receipt_by_key (key_of r a) r.receipts ≡ none
      → Sound r
      → let done = tool_completed a output (tool_called a r) in
        Sound (commit_receipt a (receipt_for a output done) done)
  unfolding Sound tool_completed tool_called commit_receipt append receipt_for key_of Keyed
  commit-Sound a output r apart ina none_yet h =
      let done = tool_completed a output (tool_called a r) in
      let x = receipt_for a output done in
      let keyed : x.idempotency_key ≡ plan_key rid a = ap (λ i. plan_key i a) h.0 in
      let clash = NoClash-Issued x r.receipts apart refl (a, ina, keyed) h.1 in
      (
        h.0,
        Issued-save x r.receipts refl (a, ina, keyed) h.1,
        λ key.
            calls-commit key a output x r
            ∙ counted x key r.receipts (calls key r.log) clash none_yet (h.2 key),
      )
