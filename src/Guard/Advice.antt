-- ===== src/Guard/Advice.antt =====
-- src/guard.rs: `agent_state`, the next move that the harness tells the agent.
use perdure.Prelude.{
  ℕ, ltb, Text, codes, text_eq, Bool, true, not, ◌&&◌, ◌≡◌, ◌∙◌, [], if◌then◌else◌, arith,
}
use perdure.Guard.{Session}
use perdure.Guard.Commit.{commit, tree_digest}
use perdure.Guard.Finalized.{Answers, commit_exact}

-- The label, the next action and the recommended command. The instructions are prose.
pub record Advice : Type 0 where
  pub label : Text
  pub action : Text
  pub command : Text

abbrev advice : Text → Text → Text → Advice
advice label action command = record { label = label; action = action; command = command }

abbrev run_verify : Text
run_verify = codes "perdure guard verify"

-- The cases in the order of the source.
unfoldable pub agent_state : Text → Bool → Bool → ℕ → Bool → Bool → Bool → Advice
agent_state phase verified digest_matches n_violations has_changes cmd_misconfigured
      command_failing =
    if text_eq phase (codes "committed")
    then advice (codes "finalized") (codes "done") []
    else if text_eq phase (codes "aborted")
    then advice (codes "aborted") (codes "aborted") []
    else if cmd_misconfigured
    then advice (codes "blocked") (codes "blocked") []
    else if ltb 0 n_violations
    then advice (codes "blocked") (codes "fix_scope_violation") (codes "perdure guard diff --json")
    else if verified && digest_matches
    then advice (codes "verified") (codes "finalize") (codes "perdure guard finalize")
    else if verified && not digest_matches
    then advice (codes "editing") (codes "run_verify") run_verify
    else if command_failing
    then advice (codes "editing") (codes "edit_then_verify") run_verify
    else if has_changes
    then advice (codes "editing") (codes "run_verify") run_verify
    else advice (codes "editing") (codes "edit_then_verify") run_verify

only_then :
    (phase : Text) (v d : Bool) (n : ℕ) (c m f : Bool)
    → (agent_state phase v d n c m f).action ≡ codes "finalize"
    → (v && d) ≡ true
unfolding agent_state
only_then phase v d n c m f h = ground arith

-- An agent that is told to finalize has a session that `commit` accepts: whatever the rest of the
-- view is, `finalize` is the next action only where the commit of the same session succeeds.
pub finalize_is_accepted :
    (s : Session) (n_violations : ℕ) (has_changes cmd_misconfigured command_failing : Bool)
    → (agent_state s.state.guard_phase s.state.verified
        (text_eq (tree_digest s) s.state.verified_digest)
        n_violations
        has_changes
        cmd_misconfigured
        command_failing).action
      ≡ codes "finalize"
    → (commit s).1.ok ≡ true
unfolding Answers
finalize_is_accepted s n c m f h =
    let (decision, _, _, _, _, _, _) = commit_exact s in
    decision
    ∙ only_then s.state.guard_phase s.state.verified
        (text_eq (tree_digest s) s.state.verified_digest) n c m f h
