-- ===== src/Examples/Session.antt =====
-- A guard session over one goal: `src/**` may be written and `cargo test` has to pass.
use perdure.Prelude.{
  ℕ, ◌≡◌, refl, Text, codes, true, false, not, ◌&&◌, ◌||◌, Option, none, some, [], ◌∷◌, ok,
  contains, text_eq, text_eq_refl, has_char, strip_prefix, ◌⊎◌,
}
use perdure.Prelude.TextOrder as Order
use perdure.Prelude.Map as Map
use perdure.Snapshot as Snapshot
use perdure.Glob.{glob_match}
use perdure.Prelude.Map.{lookup, IsSorted}
use perdure.Goal.{GoalSpec, required_commands, allowed_writes, command_allowed}
use perdure.Json.{Value, nat, get, is_zero_i64, as_bool}
use perdure.Run.{Receipt, initial_state, save_receipt, find_receipt_by_key}
use perdure.Snapshot.{Entries, nil, entry, file, dir, Ignore, snapshot, default_ignore, from_globs}
use perdure.Snapshot.Diffing.{differs, snapshot-IsSorted}
use perdure.Guard.{
  Session, scope_diff, classify, is_link, in_writable, is_in_scope, append, receipt_passed,
}
use perdure.Guard.Scope.{classify_exact}
use perdure.Guard.Verify.{
  reuse_or_run, ran, crash_now, record_receipt, receipt_for, command_event, output_of, Shell,
  ShellRun, got, obtain, key_of, key_input,
}
use perdure.Guard.Gate.{verify_inner, gate_paths, is_empty, head_digest, opened}
use perdure.Guard.Commit.{commit, tree_digest}
use perdure.Guard.Evidence.{Certificate, Passing, done, next, verify_sound, verify_complete}
use perdure.Guard.Finalized.{
  Answers, Backed, commit_exact, start, then_, verifying, finalized_is_certified,
  verify_then_commit,
}
use perdure.Guard.Laundering.{gate_exact}
use perdure.Guard.Reuse.{Since, now, changed, saved, runs_once}
use perdure.Guard.Plan as Plan
use perdure.Guard.Plan.{has_ended, is_misconfigured, compute_plan, rejection_from_plan, Rejection}
use perdure.Guard.Plan.Certified.{certified_but_rejected}
use perdure.Guard.Advice.{agent_state, finalize_is_accepted}

abbrev goal : GoalSpec
goal = record {
  name = codes "FixTests";
  success = none;
  budget = record { steps = none; retries = none; time = none; cost = none };
  allow = record {
    effects = [];
    fs_read = [];
    fs_write = codes "src/**" ∷ [];
    shell = codes "cargo test" ∷ [];
    http_get = [];
    http_post = [];
    tools = [];
  };
  require = codes "command:cargo test" ∷ [];
}

-- The agent added `src/a`.
abbrev edited : Entries
edited = entry (codes "src") (dir (entry (codes "a") (file (1 ∷ []) false) nil)) nil

abbrev session : Session
session = record {
  spec = goal;
  baseline = [];
  ignore = record { globs = [] };
  tree = edited;
  receipts = [];
  log = [];
  state = initial_state (codes "run_1") (codes "FixTests") (codes "coding");
}

-- A command that exits 0 and leaves the tree as it is.
abbrev passing : Shell
passing seq key cmd tree = ok (record {
  exit_code = some (nat 0);
  timed_out = false;
  duration_ms = 5;
  argv = codes "cargo" ∷ codes "test" ∷ [];
  program_path = codes "/bin/cargo";
  stdout_path = codes "o";
  stderr_path = codes "e";
  stdout_bytes = 0;
  stderr_bytes = 0;
  tree = tree;
})

clean : gate_paths session ≡ []
unfolding gate_paths scope_diff classify Order.dedup Order.sort_texts Snapshot.snapshot text_eq
    has_char Map.insert is_link Snapshot.changed Snapshot.diff Map.lookup is_in_scope in_writable
    allowed_writes glob_match contains
clean = refl

abbrev cmd : Text
cmd = codes "cargo test"

abbrev input : Value
input = key_input false (head_digest session) [] cmd

abbrev key : Text
key = key_of (opened session) input cmd

abbrev started : Session
started = append (opened session) (codes "shell.executed") (command_event cmd)

abbrev run_result : ShellRun
run_result = record {
  exit_code = some (nat 0);
  timed_out = false;
  duration_ms = 5;
  argv = codes "cargo" ∷ codes "test" ∷ [];
  program_path = codes "/bin/cargo";
  stdout_path = codes "o";
  stderr_path = codes "e";
  stdout_bytes = 0;
  stderr_bytes = 0;
  tree = edited;
}

abbrev receipt : Receipt
receipt = receipt_for started cmd input key run_result

abbrev after : Session
after = record_receipt started cmd receipt edited

obtained : obtain passing none false (head_digest session) (opened session) cmd ≡ got after receipt
unfolding obtain reuse_or_run find_receipt_by_key ran crash_now opened
obtained = refl

passes : receipt_passed receipt ≡ true
unfolding receipt_passed receipt_for output_of get is_zero_i64 as_bool text_eq
passes = refl

granted : command_allowed (opened session).spec cmd ≡ true
unfolding command_allowed opened contains text_eq
granted = refl

required : required_commands goal ≡ cmd ∷ []
unfolding required_commands strip_prefix
required = refl

run :
    Passing passing none false (head_digest session) (opened session) (required_commands goal) after
run = rw required (next granted receipt obtained passes done)

some_required : is_empty (required_commands goal) ≡ false
unfolding is_empty
some_required = rw required refl

verified : (verify_inner passing none false session).0.state.verified ≡ true
verified = (verify_complete passing none false session after clean some_required run).0

verify_sound_example :
    ((verify_inner passing none false session).0.state ≡ session.state)
    ⊎ Certificate passing session (verify_inner passing none false session).0.state.verified_digest
verify_sound_example = verify_sound passing none false session verified

verify_then_commit_example : (commit (verify_inner passing none false session).0).1.ok ≡ true
verify_then_commit_example =
    verify_then_commit passing none false session after clean some_required run

fresh : session.state.verified ≡ false
unfolding initial_state
fresh = refl

finalized_is_certified_example :
    Backed passing session
      (verify_inner passing none false session).0
      (tree_digest (verify_inner passing none false session).0)
finalized_is_certified_example =
    finalized_is_certified passing fresh (then_ start (verifying {s = session} none false))
      (verify_then_commit passing none false session after clean some_required run)

commit_exact_example :
    Answers session
      (session.state.verified && text_eq (tree_digest session) session.state.verified_digest)
      (commit session)
commit_exact_example = commit_exact session

IsSorted-baseline : IsSorted session.baseline
unfolding IsSorted
IsSorted-baseline = tt

-- A manifest entry, and a tree in which a file outside the scope changed.
abbrev stray : Session
stray = record session { tree = entry (codes "b") (file (2 ∷ []) false) nil }

gate_exact_example : contains (gate_paths stray) (codes "b") ≡ (
    ((differs
          (lookup (codes "b") stray.baseline)
          (lookup (codes "b") (snapshot stray.tree stray.ignore))
        && not (
            in_writable stray.spec (codes "b")
            && not (is_link (lookup (codes "b") (snapshot stray.tree stray.ignore)))))
      || (is_link (lookup (codes "b") (snapshot stray.tree stray.ignore))
          && in_writable stray.spec (codes "b")))
    && not (contains stray.state.tool_generated (codes "b")))
gate_exact_example = gate_exact stray (codes "b") IsSorted-baseline

classify_exact_example :
    (contains (classify goal [] (snapshot stray.tree stray.ignore)).in_scope (codes "b") ≡ (
      differs (lookup (codes "b") []) (lookup (codes "b") (snapshot stray.tree stray.ignore))
      && (in_writable goal (codes "b")
          && not (is_link (lookup (codes "b") (snapshot stray.tree stray.ignore))))))
    × (contains (classify goal [] (snapshot stray.tree stray.ignore)).out_of_scope (codes "b") ≡ (
        (differs (lookup (codes "b") []) (lookup (codes "b") (snapshot stray.tree stray.ignore))
          && not (
              in_writable goal (codes "b")
              && not (is_link (lookup (codes "b") (snapshot stray.tree stray.ignore)))))
        || (is_link (lookup (codes "b") (snapshot stray.tree stray.ignore))
            && in_writable goal (codes "b"))))
classify_exact_example =
    classify_exact goal [] (snapshot stray.tree stray.ignore) (codes "b") IsSorted-baseline
      (snapshot-IsSorted stray.tree stray.ignore)

-- The agent moved its file away, and the receipt was saved once more.
abbrev moved : Session
moved = record after { tree = nil }

abbrev resaved : Session
resaved = record moved { receipts = save_receipt receipt moved.receipts }

since :
    Since
      (key_of
        (opened session)
        (key_input false (head_digest session) (opened session).receipts cmd)
        cmd)
      after
      resaved
unfolding receipt_for opened
since = saved resaved receipt (changed moved now refl refl) refl refl (λ z h k. refl)

runs_once_example :
    (t' : Session) × (again : Receipt) × (again.idempotency_key
      ≡ key_of
          (opened session)
          (key_input false (head_digest session) (opened session).receipts cmd)
          cmd)
    × (t'.receipts ≡ resaved.receipts)
    × (((shell' : Shell) (crash' : Option ℕ)
        → obtain shell' crash' false (head_digest session) resaved cmd ≡ got t' again))
runs_once_example =
    runs_once passing none (head_digest session) cmd (opened session) after resaved receipt obtained
      since

-- A session that stands as verified, with the tree that it has.
abbrev ready : Session
ready = record session {
  state = record session.state {
    verified = true;
    guard_phase = codes "verified";
    verified_digest = tree_digest session;
  };
}

ready_same : text_eq (tree_digest ready) ready.state.verified_digest ≡ true
unfolding tree_digest
ready_same = text_eq_refl (tree_digest session)

told :
    (agent_state ready.state.guard_phase ready.state.verified
      (text_eq (tree_digest ready) ready.state.verified_digest)
      0
      true
      false
      false).action
    ≡ codes "finalize"
told = rw ready_same (unfold agent_state text_eq in refl)

finalize_is_accepted_example : (commit ready).1.ok ≡ true
finalize_is_accepted_example = finalize_is_accepted ready 0 true false false told

-- The gate let `b` pass as generated by a command, and certified the tree with it.
abbrev generated : Session
generated = record stray {
  state = record stray.state {
    verified = true;
    guard_phase = codes "verified";
    verified_digest = tree_digest stray;
    tool_generated = codes "b" ∷ [];
  };
}

generated_same : text_eq (tree_digest generated) generated.state.verified_digest ≡ true
unfolding tree_digest
generated_same = text_eq_refl (tree_digest stray)

unended : has_ended generated.state.guard_phase ≡ false
unfolding has_ended text_eq
unended = refl

allowlisted : is_misconfigured generated.spec ≡ false
unfolding is_misconfigured required_commands command_allowed contains text_eq strip_prefix
allowlisted = refl

out_of_scope : (scope_diff generated).out_of_scope ≡ codes "b" ∷ []
unfolding scope_diff classify Order.dedup Order.sort_texts Snapshot.snapshot text_eq has_char
    Map.insert is_link Snapshot.changed Snapshot.diff Map.lookup is_in_scope in_writable
    allowed_writes glob_match contains
out_of_scope = refl

certified_but_rejected_example :
    ((commit generated).1.ok ≡ true)
    × ((Plan.next generated).advice.action ≡ codes "fix_scope_violation")
    × ((r : Rejection) × (rejection_from_plan generated.state (compute_plan generated) ≡ some r)
        × (r.kind ≡ codes "scope_violation")
        × (r.preferred_path ≡ some (codes "b")))
certified_but_rejected_example =
    certified_but_rejected generated (codes "b") [] unended allowlisted refl generated_same
      out_of_scope
