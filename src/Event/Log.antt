-- ===== src/Event/Log.antt =====
-- src/event.rs: the history's file: `EventLog`, its appends, and how a file is read back. A file is
-- its text, one whose bytes are not UTF-8 is left out. The JSON of an event is serde_json's.
pub mod Torn
use perdure.Prelude.{
  ℕ, zero, suc, ◌+◌, ◌==◌, Text, Bool, true, false, not, ◌&&◌, Option, none, some, List, [], ◌∷◌,
  ◌++◌, codes, Result, ok, err, trim, strip_last, if◌then◌else◌, max,
}
use perdure.Goal.{unwrap_or}
use perdure.Json.{Value}
use perdure.Event.{Event, genesis_hash, build}
use perdure.Event.Chain.{is_empty}

-- `serde_json::from_str::<Event>`: an event, an error at the end of the input, or another error.
pub data Parsed : Type 0 where
  event : Event → Parsed
  eof bad : Parsed

pub record Codec : Type 0 where
  pub to_string : Event → Text
  pub from_str : Text → Parsed

pub data LogError : Type 0 where
  not_found invalid_data already_exists : LogError

pub record EventLog : Type 0 where
  pub run_id : Text
  pub next_seq : ℕ
  pub last_hash : Text

-- The physical lines, each with whether a newline ends it.
push : ℕ → List (Text × Bool) → List (Text × Bool)
push c [] = (c ∷ [], false) ∷ []
push c ((l, t) ∷ ls) = (c ∷ l, t) ∷ ls

unfoldable pub physical_lines : Text → List (Text × Bool)
unfolding push
physical_lines [] = []
physical_lines (c ∷ s) =
    let rest = physical_lines s in if c == 10 then ([], true) ∷ rest else push c rest

-- `str::lines` drops a carriage return before a newline.
unfoldable pub line_text : Text → Bool → Text
line_text l true = unwrap_or (strip_last 13 l) l
line_text l false = l

unfoldable pub is_blank : Text → Bool
is_blank l = is_empty (trim l)

unfoldable pub also : Event → Result (List Event) LogError → Result (List Event) LogError
also e (ok es) = ok (e ∷ es)
also e (err x) = err x

-- A line that is not blank: `rest` is what the lines behind it give.
unfoldable pub strict_line : Parsed → Result (List Event) LogError → Result (List Event) LogError
unfolding also
strict_line (event e) rest = also e rest
strict_line eof rest = err invalid_data
strict_line bad rest = err invalid_data

unfoldable pub skip_or : Bool → Parsed → Result (List Event) LogError → Result (List Event) LogError
unfolding strict_line
skip_or true p rest = rest
skip_or false p rest = strict_line p rest

unfoldable pub newline_if : Bool → Text
newline_if true = 10 ∷ []
newline_if false = []

-- The sequence number behind the greatest one.
unfoldable pub max_seq : List Event → ℕ
max_seq [] = 0
max_seq (e ∷ es) = max e.seq (max_seq es)

unfoldable pub last_event_hash : Text → List Event → Text
last_event_hash hash [] = hash
last_event_hash hash (e ∷ es) = last_event_hash e.entry_hash es

unfoldable pub or_genesis : Text → Text
or_genesis [] = genesis_hash
or_genesis (c ∷ s) = c ∷ s

unfoldable pub log_behind : Text → List Event → EventLog
log_behind run_id es = record {
  run_id = run_id;
  next_seq = max_seq es + 1;
  last_hash = or_genesis (last_event_hash [] es);
}

-- `EventLog::create`: it refuses a file that exists.
unfoldable pub create : Text → Option Text → Result (EventLog × Text) LogError
create run_id (some text) = err already_exists
create run_id none = ok (record { run_id = run_id; next_seq = 1; last_hash = genesis_hash }, [])

-- The loop of `recover_torn_tail` over the rest of the lines: the events, the text up to
-- `valid_end`, the text up to `cursor`, and whether a torn line was met.
abbrev pub Recovering : Type 0
Recovering = List Event → Text → Text → Bool → Result (List Event × Text) LogError

module _ (codec : Codec) where
  unfoldable pub read_lines : List (Text × Bool) → Result (List Event) LogError
  unfolding skip_or
  read_lines [] = ok []
  read_lines ((l, t) ∷ ls) =
      skip_or (is_blank (line_text l t)) (codec.from_str (line_text l t)) (read_lines ls)

  -- `read_all_strict`, at a file that exists.
  unfoldable pub read_all_strict : Text → Result (List Event) LogError
  unfolding read_lines
  read_all_strict text = read_lines (physical_lines text)

  -- `read_all`: what does not parse is skipped.
  kept_line : Bool → Parsed → List Event → List Event
  kept_line false (event e) es = e ∷ es
  kept_line _ _ es = es

  unfoldable pub read_all_lines : List (Text × Bool) → List Event
  unfolding kept_line
  read_all_lines [] = []
  read_all_lines ((l, t) ∷ ls) =
      kept_line (is_blank (line_text l t)) (codec.from_str (line_text l t)) (read_all_lines ls)

  unfoldable pub read_all : Text → List Event
  unfolding read_all_lines
  read_all text = read_all_lines (physical_lines text)

  unfoldable pub recover_parsed : Recovering → Parsed → Bool → Recovering
  recover_parsed go (event e) terminated events valid next torn =
      go (events ++ e ∷ []) next next torn
  recover_parsed go eof false events valid next torn = go events valid next true
  recover_parsed go eof true events valid next torn = err invalid_data
  recover_parsed go bad terminated events valid next torn = err invalid_data

  unfoldable pub recover_line : Bool → Recovering → Parsed → Bool → Recovering
  unfolding recover_parsed
  recover_line true go p terminated events valid next torn = go events next next torn
  recover_line false go p terminated events valid next true = err invalid_data
  recover_line false go p terminated events valid next false =
      recover_parsed go p terminated events valid next false

  unfoldable pub recover_lines : List (Text × Bool) → Recovering
  unfolding recover_line
  recover_lines [] events valid cursor true = ok (events, valid)
  recover_lines [] events valid cursor false = err invalid_data
  recover_lines ((l, t) ∷ ls) events valid cursor torn =
      recover_line (is_blank l) (recover_lines ls) (codec.from_str l) t events valid
        (cursor ++ (l ++ newline_if t)) torn

  -- `recover_torn_tail`: the events, and the file as it is truncated.
  unfoldable pub recover_torn_tail : Text → Result (List Event × Text) LogError
  unfolding recover_lines
  recover_torn_tail text = recover_lines (physical_lines text) [] [] [] false

  unfoldable pub or_original :
      LogError → Result (List Event × Text) LogError → Result (List Event × Text) LogError
  or_original e (ok r) = ok r
  or_original e (err _) = err e

  unfoldable pub existing :
      Text → Result (List Event) LogError → Result (List Event × Text) LogError
  unfolding or_original recover_torn_tail
  existing text (ok es) = ok (es, text)
  existing text (err e) = or_original e (recover_torn_tail text)

  unfoldable pub reopened :
      Text → Result (List Event × Text) LogError → Result (EventLog × Text) LogError
  reopened run_id (ok (es, text)) = ok (log_behind run_id es, text)
  reopened run_id (err e) = err e

  -- `EventLog::resume`: a file that is missing has no events.
  unfoldable pub resume : Text → Option Text → Result (EventLog × Text) LogError
  unfolding existing reopened read_all_strict
  resume run_id none = ok (log_behind run_id [], [])
  resume run_id (some text) = reopened run_id (existing text (read_all_strict text))

  -- `EventLog::append`.
  unfoldable pub append : EventLog → Text → Text → Value → (EventLog × Text) × Event
  append log text kind payload =
      let e = build log.run_id log.next_seq kind payload log.last_hash in
      (
        (
          record log { next_seq = log.next_seq + 1; last_hash = e.entry_hash },
          text ++ (codec.to_string e ++ 10 ∷ []),
        ),
        e,
      )
