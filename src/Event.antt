-- ===== src/Event.antt =====
-- src/event.rs: the events of a run's history and their hashes.
pub mod Log
pub mod Chain
use perdure.Prelude.{ℕ, ◌-◌, ◌<◌, Text, List, [], ◌∷◌, ◌++◌, codes, length, replicate, String}
use perdure.Prelude.Decimal.{print_nat}
use perdure.Hash.{sha256_hex}
use perdure.Json.{Value, number, nat, string, json}
use perdure.Store.Canonical.{canonical_bytes}

abbrev pub event_schema : Text
event_schema = codes "perdure.event.v1"

abbrev pub genesis_hash : Text
genesis_hash = codes "genesis"

pub record Event : Type 0 where
  pub schema : Text
  pub event_id : Text
  pub run_id : Text
  pub seq : ℕ
  pub kind : Text
  pub timestamp_mode : Text
  pub payload : Value
  pub prev_hash : Text
  pub entry_hash : Text

-- `format!("evt_{:06}", seq)`.
unfoldable pub format_event_id : ℕ → Text
format_event_id seq =
    let shown = print_nat seq in codes "evt_" ++ (replicate (6 - length shown) b'0' ++ shown)

-- Every field but `entry_hash`, as one JSON object.
unfoldable pub content : Event → Value
content e = json (
    (codes "schema", string e.schema)
    ∷ (codes "event_id", string e.event_id)
    ∷ (codes "run_id", string e.run_id)
    ∷ (codes "seq", number (nat e.seq))
    ∷ (codes "kind", string e.kind)
    ∷ (codes "timestamp_mode", string e.timestamp_mode)
    ∷ (codes "payload", e.payload)
    ∷ (codes "prev_hash", string e.prev_hash)
    ∷ [])

unfoldable pub compute_hash : Event → Text
compute_hash e = sha256_hex (canonical_bytes (content e) ∷ [])

unfoldable pub build : Text → ℕ → Text → Value → Text → Event
build run_id seq kind payload prev_hash =
    let ev : Event = record {
      schema = event_schema;
      event_id = format_event_id seq;
      run_id = run_id;
      seq = seq;
      kind = kind;
      timestamp_mode = codes "deterministic";
      payload = payload;
      prev_hash = prev_hash;
      entry_hash = [];
    } in
    record ev { entry_hash = compute_hash ev }
