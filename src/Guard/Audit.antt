-- ===== src/Guard/Audit.antt =====
-- src/guard.rs: `audit`, which checks a session's ledger for tampering. The
-- texts that describe a fault are left out. An unreadable receipt file is `none` for the receipts.

pub mod Tamper
use perdure.Prelude.{
  ℕ, zero, suc, ◌+◌, ◌==◌, ◌≡◌, ◌↔◌, refl, arith, Text, Bool, true, false, not, ◌&&◌, ◌||◌, Option,
  none, some, List, [], ◌∷◌, ◌++◌, codes, Result, ok, err, text_eq, text_eq_iff, if◌then◌else◌, any,
  length, retain, All, In, here, there, append-nil,
}
use perdure.Prelude.Map
use perdure.Prelude.Map.{Map}
use perdure.Goal.{GoalSpec, required_commands}
use perdure.Json.{Value, get, as_str}
use perdure.Event.{Event}
use perdure.Event.Log.{Codec, Parsed, event, eof, bad, physical_lines, line_text, is_blank}
use perdure.Event.Chain.{ChainBreak, verify_chain, is_empty}
use perdure.Run.{RunState, Receipt, Receipts}
use perdure.Snapshot.{bool_eq}
use perdure.Store.Identity.{input_hash, receipt_content_hash}
use perdure.Guard.{receipt_passed}

-- The events up to the first line that does not parse, and whether all lines did.
abbrev Raw : Type 0
Raw = List Event × Bool

raw_line : Bool → Parsed → Raw → Raw
raw_line true p rest = rest
raw_line false (event e) rest = (e ∷ rest.0, rest.1)
raw_line false eof rest = ([], false)
raw_line false bad rest = ([], false)

module _ (codec : Codec) where
  raw_events : List (Text × Bool) → List Event × Bool
  unfolding raw_line
  raw_events [] = ([], true)
  raw_events ((l, t) ∷ ls) =
      raw_line (is_blank (line_text l t)) (codec.from_str (line_text l t)) (raw_events ls)

  -- A missing file reads as no text.
  unfoldable pub parse_raw : Option Text → List Event × Bool
  unfolding raw_events
  parse_raw none = ([], true)
  parse_raw (some text) = raw_events (physical_lines text)

is_intact : Result (Unit {0}) ChainBreak → Bool
is_intact (ok _) = true
is_intact (err b) = false

unfoldable pub chain_ok : List Event × Bool → Bool
unfolding is_intact
chain_ok (events, parsed) = parsed && is_intact (verify_chain events)

unfoldable pub text_at : Value → Text → Option Text
text_at v key = elim (get v key) [ none ↦ none | some x ↦ as_str x ]

-- The receipts that the chain records, each with the hash that its event anchors.
unfoldable pub note_created :
    Bool → Option Text → Option Text → Map (Option Text) → Map (Option Text)
note_created true (some rid) anchored m = Map.insert rid anchored m
note_created _ _ anchored m = m

unfoldable pub created_in : List Event → Map (Option Text) → Map (Option Text)
unfolding note_created text_at
created_in [] m = m
created_in (e ∷ es) m = created_in es (
    note_created (text_eq e.kind (codes "receipt.created")) (text_at e.payload (codes "receipt_id"))
      (text_at e.payload (codes "receipt_hash")) m)

pub data Fault : Type 0 where
  altered_input unanchored altered_body deleted : Text → Fault

unfoldable pub input_faults : Receipt → List Fault
input_faults r =
    if not (is_empty r.input_hash) && not (text_eq r.input_hash (input_hash r.input))
    then altered_input r.receipt_id ∷ []
    else []

unfoldable pub anchor_faults : Receipt → Option (Option Text) → List Fault
anchor_faults r none = unanchored r.receipt_id ∷ []
anchor_faults r (some none) = []
anchor_faults r (some (some anchored)) =
    if text_eq (receipt_content_hash r.input r.output) anchored
    then []
    else altered_body r.receipt_id ∷ []

-- The second test is made only on an intact chain.
unfoldable pub receipt_faults : Bool → Map (Option Text) → Receipt → List Fault
unfolding input_faults anchor_faults
receipt_faults true created r = input_faults r ++ anchor_faults r (Map.lookup r.receipt_id created)
receipt_faults false created r = input_faults r

unfoldable pub all_receipt_faults : Bool → Map (Option Text) → Receipts → List Fault
unfolding receipt_faults
all_receipt_faults chain created [] = []
all_receipt_faults chain created ((id, r) ∷ rs) =
    receipt_faults chain created r ++ all_receipt_faults chain created rs

unfoldable pub has_receipt : Text → Receipts → Bool
has_receipt rid [] = false
has_receipt rid ((id, r) ∷ rs) = text_eq r.receipt_id rid || has_receipt rid rs

unfoldable pub deleted_faults : Receipts → Map (Option Text) → List Fault
unfolding has_receipt
deleted_faults rs [] = []
deleted_faults rs ((rid, anchored) ∷ created) =
    let later = deleted_faults rs created in
    if has_receipt rid rs then later else deleted rid ∷ later

unfoldable pub faults_of : Bool → Map (Option Text) → Receipts → List Fault
unfolding all_receipt_faults deleted_faults
faults_of true created rs = all_receipt_faults true created rs ++ deleted_faults rs created
faults_of false created rs = all_receipt_faults false created rs

-- Whether some receipt of the command passed.
is_of : Text → Option Text → Bool
is_of cmd none = false
is_of cmd (some c) = text_eq c cmd

unfoldable pub passes_in : Receipts → Text → Bool
unfolding is_of text_at
passes_in [] cmd = false
passes_in ((id, r) ∷ rs) cmd =
    (is_of cmd (text_at r.input (codes "command")) && receipt_passed r) || passes_in rs cmd

unfoldable pub derived_verified : GoalSpec → Receipts → RunState → Bool
unfolding passes_in
derived_verified spec rs state =
    let required = required_commands spec in
    not (length required == 0)
    && length (retain (passes_in rs) required) == length required
    && state.out_of_scope == 0

pub record AuditReport : Type 0 where
  pub ok : Bool
  pub events_total : ℕ
  pub chain_ok : Bool
  pub receipts_total : ℕ
  pub receipts_ok : Bool
  pub faults : List Fault
  pub state_consistent : Bool

unfoldable pub is_none : List Fault → Bool
is_none [] = true
is_none (f ∷ fs) = false

unfoldable pub audit_receipts :
    GoalSpec → RunState → List Event × Bool → Option Receipts → AuditReport
unfolding chain_ok created_in faults_of derived_verified is_none
audit_receipts spec state raw none = record {
  ok = false;
  events_total = length raw.0;
  chain_ok = chain_ok raw;
  receipts_total = 0;
  receipts_ok = false;
  faults = [];
  state_consistent = false;
}
audit_receipts spec state raw (some rs) =
    let chain = chain_ok raw in
    let faults = faults_of chain (created_in raw.0 []) rs in
    let consistent = bool_eq (derived_verified spec rs state) state.verified in
    record {
      ok = chain && is_none faults && consistent;
      events_total = length raw.0;
      chain_ok = chain;
      receipts_total = length rs;
      receipts_ok = is_none faults;
      faults = faults;
      state_consistent = consistent;
    }

unfoldable pub audit : Codec → GoalSpec → RunState → Option Text → Option Receipts → AuditReport
unfolding audit_receipts parse_raw
audit codec spec state text receipts = audit_receipts spec state (parse_raw codec text) receipts
