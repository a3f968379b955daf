-- ===== src/Run.antt =====
-- src/store.rs: the summary of a run, its receipts, and the receipts' store.
use perdure.Prelude.{
  ℕ, Text, Bool, false, Option, none, some, List, [], ◌∷◌, codes, text_eq, if◌then◌else◌,
}
use perdure.Prelude.Map
use perdure.Prelude.Map.{Map}
use perdure.Json.{Value}

-- `RunState`. The arithmetic of its counters is that of ℕ: no run comes near 2 ^ 64 of anything.
pub record RunState : Type 0 where
  pub run_id : Text
  pub goal : Text
  pub status : Text
  pub step : ℕ
  pub consecutive_rejections : ℕ
  pub patches_applied : ℕ
  pub patches_rejected : ℕ
  pub tests_run : ℕ
  pub regressions : ℕ
  pub diff_chars : ℕ
  pub final_errors : ℕ
  pub tests_passed : ℕ
  pub tests_failed : ℕ
  pub kind : Text
  pub cursor : ℕ
  pub pending_approval : Option Text
  pub actions_executed : ℕ
  pub receipts_created : ℕ
  pub guard_phase : Text
  pub commands_required : ℕ
  pub commands_passed : ℕ
  pub out_of_scope : ℕ
  pub verified : Bool
  pub verified_digest : Text
  pub tool_generated : List Text

pub record Receipt : Type 0 where
  pub receipt_id : Text
  pub idempotency_key : Text
  pub action_id : Text
  pub tool : Text
  pub input : Value
  pub output : Value
  pub run_id : Text
  pub step : ℕ
  pub effect : Text
  pub input_hash : Text
  pub approval_id : Option Text
  pub created_event_id : Text

-- The state at the start of a run: the counters are 0.
unfoldable pub initial_state : Text → Text → Text → RunState
initial_state run_id goal kind = record {
  run_id = run_id;
  goal = goal;
  status = codes "running";
  step = 0;
  consecutive_rejections = 0;
  patches_applied = 0;
  patches_rejected = 0;
  tests_run = 0;
  regressions = 0;
  diff_chars = 0;
  final_errors = 0;
  tests_passed = 0;
  tests_failed = 0;
  kind = kind;
  cursor = 0;
  pending_approval = none;
  actions_executed = 0;
  receipts_created = 0;
  guard_phase = [];
  commands_required = 0;
  commands_passed = 0;
  out_of_scope = 0;
  verified = false;
  verified_digest = [];
  tool_generated = [];
}

-- The receipts of a run, one file per receipt id, read in the order of the ids.
abbrev pub Receipts : Type 0
Receipts = Map Receipt

unfoldable pub save_receipt : Receipt → Receipts → Receipts
save_receipt r rs = Map.insert r.receipt_id r rs

unfoldable pub find_receipt_by_key : Text → Receipts → Option Receipt
find_receipt_by_key key [] = none
find_receipt_by_key key ((id, r) ∷ rs) =
    if text_eq r.idempotency_key key then some r else find_receipt_by_key key rs

-- The history: the kind and the payload of each event. Event.antt has the events themselves.
abbrev pub History : Type 0
History = List (Text × Value)
