-- ===== src/Guard/Replay.antt =====
-- src/guard.rs: `replay` of a session. The shell is the parameter of Verify; nothing is appended here,
-- so the number that it is given counts the runs of the replay. An unreadable receipt file is `none`
-- for the receipts, and the error of a shell that cannot run is handed on.
use perdure.Prelude.{
  ℕ, suc, ◌+◌, ◌==◌, ◌≡◌, ◌≤◌, refl, arith, ap, sym, ◌∙◌, Text, text_eq, All, Bool, true, false,
  not, ◌&&◌, Option, none, some, List, [], ◌∷◌, ◌++◌, codes, Result, ok, err, length, retain,
}
use perdure.Goal.{GoalSpec, required_commands, command_allowed}
use perdure.Json.{Number, nat, string, json}
use perdure.Run.{RunState, Receipts}
use perdure.Snapshot.{Entries, snapshot, bool_eq}
use perdure.Store.Identity.{idempotency_key}
use perdure.Event.{Event}
use perdure.Guard.{Session, manifest_digest}
use perdure.Guard.Audit.{passes_in, derived_verified, audit_receipts}
use perdure.Guard.Verify.{ShellRun, Shell}

pub record ReplayResult : Type 0 where
  pub recorded_status : Text
  pub replayed_status : Text
  pub identical : Bool
  pub steps : ℕ

exits_zero : Option Number → Bool
exits_zero (some (nat n)) = n == 0
exits_zero _ = false

unfoldable pub run_passed : ShellRun → Bool
unfolding exits_zero
run_passed res = exits_zero res.exit_code && not res.timed_out

-- The key of a replayed run is no key of `verify`.
unfoldable pub replay_key : Session → Text → Text → Text
replay_key s digest cmd =
    codes "replay_"
    ++ idempotency_key s.state.run_id (codes "replay:" ++ cmd) (codes "shell.run")
        (json ((codes "command", string cmd) ∷ (codes "tree", string digest) ∷ []))

-- The loop over the required commands, with the runs and the passes so far, and the tree as the
-- commands leave it.
abbrev Rest : Type 0
Rest = ℕ → ℕ → Entries → Result ℕ Text

unfoldable pub count_one : Bool → ℕ → ℕ
count_one true passed = suc passed
count_one false passed = passed

unfoldable pub after_run : Rest → ℕ → ℕ → Result ShellRun Text → Result ℕ Text
unfolding count_one
after_run rest runs passed (err e) = err e
after_run rest runs passed (ok res) = rest (suc runs) (count_one (run_passed res) passed) res.tree

unfoldable pub run_again : Bool → Shell → Rest → Text → Text → ℕ → ℕ → Entries → Result ℕ Text
unfolding after_run
run_again false shell rest key cmd runs passed tree = rest runs passed tree
run_again true shell rest key cmd runs passed tree =
    after_run rest runs passed (shell runs key cmd tree)

unfoldable pub count_passes : Shell → Session → Text → List Text → ℕ → ℕ → Entries → Result ℕ Text
unfolding run_again replay_key
count_passes shell s digest [] runs passed tree = ok passed
count_passes shell s digest (cmd ∷ cmds) runs passed tree =
    run_again (command_allowed s.spec cmd) shell (count_passes shell s digest cmds)
      (replay_key s digest cmd) cmd runs passed tree

unfoldable pub verdict_of : Bool → Text
verdict_of true = codes "completed"
verdict_of false = codes "failed"

-- The verdict of the commands on the tree that stands, against the recorded bit.
unfoldable pub compared : RunState → Bool → ReplayResult
unfolding verdict_of
compared state fresh = record {
  recorded_status = state.status;
  replayed_status = verdict_of fresh;
  identical = text_eq (verdict_of fresh) (verdict_of state.verified);
  steps = state.step;
}

unfoldable pub rerun_result : Session → Result ℕ Text → Result ReplayResult Text
unfolding compared
rerun_result s (err e) = err e
rerun_result s (ok passed) = ok (compared s.state (passed == length (required_commands s.spec)))

unfoldable pub replay_rerun : Shell → Session → Result ReplayResult Text
unfolding count_passes rerun_result
replay_rerun shell s =
    let digest = manifest_digest (snapshot s.tree s.ignore) in
    rerun_result s (count_passes shell s digest (required_commands s.spec) 0 0 s.tree)

-- What the receipts say. There is no test for an empty requirement.
unfoldable pub replay_verified : GoalSpec → Receipts → RunState → Bool
unfolding passes_in
replay_verified spec rs state =
    let required = required_commands spec in
    length (retain (passes_in rs) required) == length required && state.out_of_scope == 0

unfoldable pub replay_status : Bool → Text → Text
replay_status true status = status
replay_status false status = codes "diverged"

unfoldable pub replay_recorded : GoalSpec → RunState → Option Receipts → Result ReplayResult Text
unfolding replay_verified replay_status
replay_recorded spec state none = err (codes "unreadable receipt")
replay_recorded spec state (some rs) =
    let consistent = bool_eq (replay_verified spec rs state) state.verified in
    ok (record {
      recorded_status = state.status;
      replayed_status = replay_status consistent state.status;
      identical = consistent;
      steps = state.step;
    })

unfoldable pub replay : Shell → Session → Option Receipts → Bool → Result ReplayResult Text
unfolding replay_rerun replay_recorded
replay shell s receipts true = replay_rerun shell s
replay shell s receipts false = replay_recorded s.spec s.state receipts

identical_in : Result ReplayResult Text → Bool
identical_in (ok x) = x.identical
identical_in (err e) = false

without_guard : (a b c v : Bool) → a ≡ false → bool_eq (b && c) v ≡ bool_eq (not a && b && c) v
without_guard a b c v h = rw h refl

module _ (spec : GoalSpec) (state : RunState) (raw : List Event × Bool) (rs : Receipts) where
  -- With a command required, the replay of the record and the audit judge the verified bit alike.
  replay-audit :
      (length (required_commands spec) == 0) ≡ false
      → (x : ReplayResult) → replay_recorded spec state (some rs) ≡ ok x
      → x.identical ≡ (audit_receipts spec state raw (some rs)).state_consistent
  unfolding replay_recorded replay_verified audit_receipts derived_verified identical_in
  replay-audit some_command x e =
      sym (ap identical_in e) ∙ without_guard _ _ _ state.verified some_command

-- What the rest of the loop gives: at most a pass for each command that is left, and `P` where all
-- of them passed.
abbrev Counts : (P : Type 0) → (len passed n : ℕ) → Type 0
Counts P len passed n = (n ≤ passed + len) × (n ≡ passed + len → P)

module _ (P : Type 0) (len n : ℕ) where
  count_one-Counts :
      (b : Bool) (passed : ℕ) → Counts P len (count_one b passed) n → Counts P (suc len) passed n
  unfolding count_one
  count_one-Counts true passed h = (omega (arith, h.0), λ all. h.1 (omega (arith, all)))
  count_one-Counts false passed h = (omega (arith, h.0), λ all. absurd (omega (arith, h.0, all)))

  after_run-Counts :
      (rest : Rest)
      → ((runs passed : ℕ) (tree : Entries) → rest runs passed tree ≡ ok n → Counts P len passed n)
      → (runs passed : ℕ) (res : Result ShellRun Text) → after_run rest runs passed res ≡ ok n
      → Counts P (suc len) passed n
  unfolding after_run
  after_run-Counts rest later runs passed (err m) e = absurd (cc e)
  after_run-Counts rest later runs passed (ok res) e =
      count_one-Counts (run_passed res) passed (later (suc runs) _ res.tree e)

  run_again-Counts :
      (allowed : Bool) (shell : Shell) (rest : Rest) (key cmd : Text)
      → ((runs passed : ℕ) (tree : Entries) → rest runs passed tree ≡ ok n → Counts P len passed n)
      → (runs passed : ℕ) (tree : Entries)
      → run_again allowed shell rest key cmd runs passed tree ≡ ok n
      → Counts ((allowed ≡ true) × P) (suc len) passed n
  unfolding run_again
  run_again-Counts false shell rest key cmd later runs passed tree e =
      let h = later runs passed tree e in
      (omega (arith, h.0), λ all. absurd (omega (arith, h.0, all)))
  run_again-Counts true shell rest key cmd later runs passed tree e =
      let h = after_run-Counts rest later runs passed (shell runs key cmd tree) e in
      (h.0, λ all. (refl, h.1 all))

-- The passes grow by at most one for each command, and reach that only where each is granted.
count_passes-Counts :
    (shell : Shell) (s : Session) (digest : Text) (cmds : List Text) (n runs passed : ℕ)
    (tree : Entries)
    → count_passes shell s digest cmds runs passed tree ≡ ok n
    → Counts (All (λ cmd. command_allowed s.spec cmd ≡ true) cmds) (length cmds) passed n
unfolding count_passes
count_passes-Counts shell s digest [] n runs passed tree e =
    let same : passed ≡ n = cc e in (omega (arith, same), λ _. tt)
count_passes-Counts shell s digest (cmd ∷ cmds) n runs passed tree e =
    run_again-Counts (All (λ c. command_allowed s.spec c ≡ true) cmds) (length cmds) n
      (command_allowed s.spec cmd) shell (count_passes shell s digest cmds)
      (replay_key s digest cmd) cmd (count_passes-Counts shell s digest cmds n) runs passed tree e

reproduced :
    (fresh v : Bool) → text_eq (verdict_of fresh) (verdict_of v) ≡ true → v ≡ true → fresh ≡ true
unfolding verdict_of text_eq
reproduced true v h k = refl
reproduced false true h k = h
reproduced false false h k = k

all_passed-rerun :
    (s : Session) (counted : Result ℕ Text) (x : ReplayResult)
    → rerun_result s counted ≡ ok x
    → x.identical ≡ true
    → s.state.verified ≡ true
    → counted ≡ ok (length (required_commands s.spec))
unfolding rerun_result compared identical_in
all_passed-rerun s (err m) x e same verified = absurd (cc e)
all_passed-rerun s (ok passed) x e same verified =
    let fresh = reproduced _ s.state.verified (ap identical_in e ∙ same) verified in
    let all : passed ≡ length (required_commands s.spec) = ground (arith, fresh) in ap ok all

-- A rerun reports a verified session as reproduced only where each required command is granted.
replay_rerun-Allowed :
    (shell : Shell) (s : Session) (x : ReplayResult)
    → replay_rerun shell s ≡ ok x
    → x.identical ≡ true
    → s.state.verified ≡ true
    → All (λ cmd. command_allowed s.spec cmd ≡ true) (required_commands s.spec)
unfolding replay_rerun
replay_rerun-Allowed shell s x e same verified =
    let required = required_commands s.spec in
    let counted = all_passed-rerun s _ x e same verified in
    (count_passes-Counts shell s _ required (length required) 0 0 s.tree counted).1 (omega arith)
