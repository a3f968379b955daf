-- ===== src/Examples/Files.antt =====
-- A history file with one event, a ledger with one receipt, a fresh session, and an import.
use perdure.Prelude.{
  ℕ, ◌≡◌, ◌↔◌, refl, Text, Bool, true, false, ◌&&◌, none, some, List, [], ◌∷◌, ◌++◌, codes, text_eq,
  has_char, trim, strip_last, ok, err, here, inl, All, if◌then◌else◌, strip_prefix, contains,
  trim_start, starts_with,
}
use perdure.Prelude.Map
use perdure.Prelude.Map.{lookup}
use perdure.Goal.{GoalSpec, required_commands}
use perdure.Json.{null, string, number, nat, json, get, field_get, as_str, as_bool, is_zero_i64}
use perdure.Event.{Event, genesis_hash}
use perdure.Event.Chain.{verify_chain}
use perdure.Event.Log.{
  Codec, event, eof, bad, invalid_data, log_behind, resume, append, is_blank, line_text,
}
use perdure.Event.Log.Torn.{Prints, IsTorn, Trailing, written, resume_torn, missing_newline_blocks}
use perdure.Run.{RunState, Receipt, Receipts, initial_state}
use perdure.Snapshot.{nil}
use perdure.Store.Identity.{receipt_content_hash}
use perdure.Guard.{Session, scope_diff, is_link, in_writable, receipt_passed}
use perdure.Guard.Audit.{
  audit_receipts, chain_ok, created_in, note_created, derived_verified, passes_in, has_receipt,
}
use perdure.Guard.Audit.Tamper.{AllKept, NoneDeleted, InputKept, Anchored, audit_exact, audit_pins}
use perdure.Guard.Begin.{
  declares, begin, resolve, admit_goal, admit, choose_goal, sole_goal, opened, open_session,
  has_placeholder, has_text, is_nil,
}
use perdure.Guard.Begin.Fresh.{Opened, begin_sound}
use perdure.Imports.{normalize_import, relative_import_path, split, is_here, is_up, onto_first}
use perdure.Imports.RoundTrip.{Plain, normalize-relative}

abbrev run_id : Text
run_id = codes "run_1"

abbrev first : Event
first = record {
  schema = codes "perdure.event.v1";
  event_id = codes "evt_000001";
  run_id = run_id;
  seq = 1;
  kind = codes "run.started";
  timestamp_mode = codes "deterministic";
  payload = null;
  prev_hash = genesis_hash;
  entry_hash = codes "h1";
}

-- Every event is written as `{}`, which reads as the first one; `{` ends too early.
abbrev codec : Codec
codec = record {
  to_string = λ e. codes "{}";
  from_str = λ l.
      if text_eq l (codes "{}") then event first else if text_eq l (codes "{") then eof else bad;
}

prints : All (Prints codec) (first ∷ [])
unfolding Prints has_char is_blank trim trim_start line_text strip_last text_eq
prints = ((refl, refl, refl, refl), tt)

resume_torn_example :
    (resume codec run_id (some (written codec (first ∷ []) ++ codes "{"))
      ≡ ok (log_behind run_id (first ∷ []), written codec (first ∷ [])))
    × (resume codec run_id (some (written codec (first ∷ [])))
        ≡ ok (log_behind run_id (first ∷ []), written codec (first ∷ [])))
resume_torn_example = resume_torn codec run_id (first ∷ []) (codes "{") prints torn
  where
    torn : IsTorn codec (codes "{")
    torn = unfold IsTorn has_char is_blank trim trim_start text_eq in (λ e. cc e, refl, refl, refl)

trailing : Trailing codec (codes "{}{}")
unfolding Trailing has_char is_blank trim trim_start text_eq
trailing = (refl, refl, refl)

missing_newline_blocks_example :
    let log = log_behind run_id (first ∷ []) in
    let next = append codec log (codes "{}") (codes "run.resumed") null in
    (resume codec run_id (some (codes "{}")) ≡ ok (log, codes "{}"))
    × (resume codec run_id (some next.0.1) ≡ err invalid_data)
missing_newline_blocks_example =
    missing_newline_blocks codec run_id [] first (codes "run.resumed") null tt prints.0 (λ e. cc e)
      (unfold line_text strip_last in refl) trailing

abbrev goal : GoalSpec
goal = record {
  name = codes "FixTests";
  success = none;
  budget = record { steps = none; retries = none; time = none; cost = none };
  allow = record {
    effects = [];
    fs_read = [];
    fs_write = codes "src/**" ∷ [];
    shell = codes "cargo test" ∷ [];
    http_get = [];
    http_post = [];
    tools = [];
  };
  require = codes "command:cargo test" ∷ [];
}

abbrev receipt : Receipt
receipt = record {
  receipt_id = codes "rcpt_1";
  idempotency_key = codes "idem_1";
  action_id = codes "verify:cargo test";
  tool = codes "shell.run";
  input = json ((codes "command", string (codes "cargo test")) ∷ []);
  output = json ((codes "exit_code", number (nat 0)) ∷ []);
  run_id = run_id;
  step = 1;
  effect = codes "shell.run";
  input_hash = [];
  approval_id = none;
  created_event_id = codes "evt_000001";
}

-- The event that anchors the receipt.
abbrev created : Event
created = record first {
  kind = codes "receipt.created";
  payload = json (
      (codes "receipt_id", string (codes "rcpt_1"))
      ∷ (codes "receipt_hash", string (receipt_content_hash receipt.input receipt.output))
      ∷ []);
  entry_hash = [];
}

abbrev raw : List Event × Bool
raw = (created ∷ [], true)

abbrev ledger : Receipts
ledger = (codes "rcpt_1", receipt) ∷ []

abbrev other : Receipts
other = (codes "rcpt_1", record receipt { step = 7 }) ∷ []

abbrev state : RunState
state = initial_state run_id (codes "FixTests") (codes "coding")

abbrev verified : RunState
verified = record state { verified = true }

audit_exact_example : ((audit_receipts goal verified raw (some ledger)).ok ≡ true) ↔ (
    (chain_ok raw ≡ true)
    × AllKept (created_in raw.0 []) ledger
    × NoneDeleted ledger (created_in raw.0 [])
    × (derived_verified goal ledger verified ≡ true))
audit_exact_example = audit_exact goal verified raw ledger

intact :
    (step : ℕ)
    → (audit_receipts goal verified raw
        (some ((codes "rcpt_1", record receipt { step = step }) ∷ []))).ok
      ≡ true
intact step =
    (audit_exact goal verified raw ((codes "rcpt_1", record receipt { step = step }) ∷ [])).1 (
      unfold chain_ok verify_chain in refl,
      unfold AllKept InputKept Anchored created_in note_created Map.insert Map.lookup text_eq get
            field_get as_str in
          (inl refl, refl, tt),
      unfold NoneDeleted has_receipt created_in note_created Map.insert text_eq get field_get
            as_str in
          (refl, tt),
      unfold derived_verified required_commands passes_in text_eq get field_get as_str
            receipt_passed is_zero_i64 as_bool initial_state strip_prefix in
          refl,
    )

audit_pins_example :
    receipt_content_hash receipt.input receipt.output
    ≡ receipt_content_hash receipt.input receipt.output
audit_pins_example =
    audit_pins goal verified verified raw ledger other (codes "rcpt_1") (codes "rcpt_1")
      (receipt_content_hash receipt.input receipt.output) receipt (record receipt { step = 7 })
      (intact 1) (intact 7) (here refl) (here refl) refl
      (unfold created_in note_created Map.insert Map.lookup text_eq get field_get as_str in refl)

abbrev fresh : Session
fresh = open_session run_id none nil goal

begin_sound_example :
    Opened (declares (goal ∷ [])) goal
    × ((is_nil (required_commands goal) ≡ false)
        × (is_nil goal.allow.fs_write ≡ false)
        × (has_placeholder goal ≡ false))
    × (fresh.state.verified ≡ false)
    × ((p : Text)
        → (contains (scope_diff fresh).in_scope p ≡ false)
          × (contains (scope_diff fresh).out_of_scope p
              ≡ (is_link (lookup p fresh.baseline) && in_writable goal p)))
unfolding open_session
begin_sound_example = begin_sound run_id none nil (declares (goal ∷ [])) none fresh (
    unfold begin resolve admit_goal admit choose_goal sole_goal opened open_session has_placeholder
      has_text is_nil required_commands strip_prefix starts_with in
    refl)

normalize-relative_example :
    normalize_import
      (codes "tests/auth_test.pdr")
      (relative_import_path (codes "tests/auth_test.pdr") (codes "src/auth.pdr"))
    ≡ ok (codes "src/auth.pdr")
normalize-relative_example =
    normalize-relative (codes "tests/auth_test.pdr") (codes "src/auth.pdr") (
      unfold split onto_first Plain is_here is_up text_eq has_char in
      ((refl, refl, refl), ((refl, refl, refl), tt)))
