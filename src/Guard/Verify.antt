-- ===== src/Guard/Verify.antt =====
-- src/guard.rs: `verify_inner`. The shell is a parameter: the sequence number of the event that the
-- command's receipt names, the idempotency key, the command and the tree give the run's result.
use perdure.Prelude.{
  ℕ, suc, ◌+◌, ◌==◌, Text, Bool, false, Option, none, some, List, [], ◌∷◌, ◌++◌, codes, length,
  text_eq, if◌then◌else◌, Result, ok, err,
}
use perdure.Event.{format_event_id}
use perdure.Json.{Value, Number, nat, number, string, bool, null, json, get, as_str}
use perdure.Run.{Receipt, Receipts, save_receipt, find_receipt_by_key}
use perdure.Snapshot.{Entries}
use perdure.Store.Identity.{idempotency_key, receipt_id, input_hash, receipt_content_hash}
use perdure.Guard.{Session, strings, append}

-- `ShellResult`, and the tree as the command leaves it.
pub record ShellRun : Type 0 where
  pub exit_code : Option Number
  pub timed_out : Bool
  pub duration_ms : ℕ
  pub argv : List Text
  pub program_path : Text
  pub stdout_path : Text
  pub stderr_path : Text
  pub stdout_bytes : ℕ
  pub stderr_bytes : ℕ
  pub tree : Entries

abbrev pub Shell : Type 0
Shell = ℕ → Text → Text → Entries → Result ShellRun Text

abbrev pub allowed_env_names : List Text
allowed_env_names =
    codes "PATH"
    ∷ codes "HOME"
    ∷ codes "LANG"
    ∷ codes "LC_ALL"
    ∷ codes "TMPDIR"
    ∷ codes "RUSTUP_HOME"
    ∷ []

exit_value : Option Number → Value
exit_value none = null
exit_value (some n) = number n

-- The receipts of this command: their number makes the key of a rerun new.
is_of : Text → Option Text → Bool
is_of cmd none = false
is_of cmd (some c) = text_eq c cmd

attempts : Text → Receipts → ℕ
unfolding is_of
attempts cmd [] = 0
attempts cmd ((id, r) ∷ rs) =
    let later = attempts cmd rs in
    if is_of cmd (elim (get r.input (codes "command")) [ none ↦ none | some v ↦ as_str v ])
    then suc later
    else later

-- The input of the receipt, with the tree that the command is run on.
unfoldable pub key_input : Bool → Text → Receipts → Text → Value
unfolding attempts
key_input rerun digest receipts cmd =
    let base =
      (codes "command", string cmd)
      ∷ (codes "cwd", string (codes "."))
      ∷ (codes "tree", string digest)
      ∷ [] in
    if rerun
    then json (base ++ (codes "rerun", number (nat (attempts cmd receipts))) ∷ [])
    else json base

unfoldable pub action_of : Text → Text
action_of cmd = codes "verify:" ++ cmd

unfoldable pub key_of : Session → Value → Text → Text
key_of s input cmd = idempotency_key s.state.run_id (action_of cmd) (codes "shell.run") input

unfoldable pub output_of : ShellRun → Value
unfolding exit_value
output_of res = json (
    (codes "exit_code", exit_value res.exit_code)
    ∷ (codes "timed_out", bool res.timed_out)
    ∷ (codes "duration_ms", number (nat res.duration_ms))
    ∷ (codes "argv", strings res.argv)
    ∷ (codes "program_path", string res.program_path)
    ∷ (codes "stdout_artifact", string res.stdout_path)
    ∷ (codes "stderr_artifact", string res.stderr_path)
    ∷ (codes "stdout_bytes", number (nat res.stdout_bytes))
    ∷ (codes "stderr_bytes", number (nat res.stderr_bytes))
    ∷ (codes "env_redacted", strings allowed_env_names)
    ∷ [])

-- `log.peek_seq()`: the log was opened before, so the first event has number 1.
unfoldable pub peek_seq : Session → ℕ
peek_seq s = length s.log + 1

unfoldable pub receipt_for : Session → Text → Value → Text → ShellRun → Receipt
receipt_for s cmd input key res = record {
  receipt_id = receipt_id key;
  idempotency_key = key;
  action_id = action_of cmd;
  tool = codes "shell.run";
  input = input;
  output = output_of res;
  run_id = s.state.run_id;
  step = s.state.receipts_created + 1;
  effect = codes "shell.run";
  input_hash = input_hash input;
  approval_id = none;
  created_event_id = format_event_id (peek_seq s);
}

-- The receipt is durable before the event that anchors it.
unfoldable pub record_receipt : Session → Text → Receipt → Entries → Session
record_receipt s cmd r tree =
    let saved : Session = record s {
      tree = tree;
      receipts = save_receipt r s.receipts;
      state = record s.state { receipts_created = s.state.receipts_created + 1 };
    } in
    append saved (codes "receipt.created") (
      json (
        (codes "receipt_id", string r.receipt_id)
        ∷ (codes "command", string cmd)
        ∷ (codes "idempotency_key", string r.idempotency_key)
        ∷ (codes "receipt_hash", string (receipt_content_hash r.input r.output))
        ∷ []))

-- What one required command comes to: a receipt, a shell that could not run, or the crash of a test.
pub data Obtained : Type 0 where
  got : Session → Receipt → Obtained
  failed : Session → Text → Obtained
  crashed : Session → Obtained

unfoldable pub crash_now : Option ℕ → Session → Receipt → Obtained
crash_now none s r = got s r
crash_now (some n) s r = if n == s.state.receipts_created then crashed s else got s r

unfoldable pub ran : Option ℕ → Session → Text → Value → Text → Result ShellRun Text → Obtained
unfolding crash_now record_receipt receipt_for
ran crash s cmd input key (err e) = failed s e
ran crash s cmd input key (ok res) =
    let r = receipt_for s cmd input key res in crash_now crash (record_receipt s cmd r res.tree) r

unfoldable pub command_event : Text → Value
command_event cmd = json ((codes "command", string cmd) ∷ (codes "cwd", string (codes ".")) ∷ [])

-- An unchanged tree has its receipt already; otherwise the command is run.
unfoldable pub reuse_or_run :
    Shell → Option ℕ → Session → Text → Value → Text → Option Receipt → Obtained
unfolding ran
reuse_or_run shell crash s cmd input key (some r) =
    got
      (append s (codes "receipt.reused")
        (json ((codes "receipt_id", string r.receipt_id) ∷ (codes "command", string cmd) ∷ [])))
      r
reuse_or_run shell crash s cmd input key none =
    let started = append s (codes "shell.executed") (command_event cmd) in
    ran crash started cmd input key (shell (peek_seq started) key cmd s.tree)

unfoldable pub obtain : Shell → Option ℕ → Bool → Text → Session → Text → Obtained
unfolding reuse_or_run key_of
obtain shell crash rerun digest s cmd =
    let input = key_input rerun digest s.receipts cmd in
    let key = key_of s input cmd in
    reuse_or_run shell crash s cmd input key (find_receipt_by_key key s.receipts)
