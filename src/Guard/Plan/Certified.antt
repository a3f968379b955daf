-- ===== src/Guard/Plan/Certified.antt =====
-- src/guard.rs: the agent's view of a session, against what `commit` says of the same session.
use perdure.Prelude.{
  sym, ℕ, ltb, ◌≡◌, refl, Text, Bool, true, false, ◌&&◌, Option, some, List, [], ◌∷◌, codes, length,
  text_eq, ap, ◌∙◌, arith,
}
use perdure.Run.{RunState}
use perdure.Guard.{Session, classify, scope_diff}
use perdure.Guard.Finalized.{Answers, commit_exact}
use perdure.Guard.Commit.{commit, tree_digest}
use perdure.Guard.Advice.{Advice, agent_state, finalize_is_accepted}
use perdure.Guard.Plan.{
  next, compute_plan, rejection_from_plan, unless_ended, rejection_of, has_ended, is_misconfigured,
  AgentPlan, Rejection,
}

-- The verified bit in front of the digest test changes no advice.
guarded_digest :
    (phase : Text) (v d : Bool) (n : ℕ) (c m f : Bool)
    → agent_state phase v (v && d) n c m f ≡ agent_state phase v d n c m f
unfolding agent_state
guarded_digest phase true d n c m f = refl
guarded_digest phase false d n c m f = refl

-- `finalize` as the next action is given only to a session that `commit` accepts.
next-finalize : (s : Session) → (next s).advice.action ≡ codes "finalize" → (commit s).1.ok ≡ true
unfolding next compute_plan scope_diff classify tree_digest
next-finalize s h = finalize_is_accepted s _ _ _ _ (
    ap (λ (a : Advice). a.action)
      (sym (guarded_digest s.state.guard_phase s.state.verified _ _ _ _ _))
    ∙ h)

fix_scope :
    (phase : Text) (v d : Bool) (n : ℕ) (c m f : Bool)
    → has_ended phase ≡ false
    → m ≡ false
    → ltb 0 n ≡ true
    → (agent_state phase v d n c m f).action ≡ codes "fix_scope_violation"
unfolding agent_state has_ended
fix_scope phase v d n c m f unended granted some_path = ground arith

rejected_out :
    (out : List Text) (p : Text) (ps : List Text) (state : RunState) (plan : AgentPlan)
    → out ≡ p ∷ ps
    → (r : Rejection) × (rejection_of out state plan ≡ some r)
      × (r.kind ≡ codes "scope_violation")
      × (r.preferred_path ≡ some p)
unfolding rejection_of
rejected_out [] p ps state plan h = absurd (cc h)
rejected_out (q ∷ qs) p ps state plan h = (_, refl, refl, ap some (cc h))

some_length :
    (out : List Text) (p : Text) (ps : List Text) → out ≡ p ∷ ps → ltb 0 (length out) ≡ true
some_length [] p ps h = absurd (cc h)
some_length (q ∷ qs) p ps h = ground arith

both : (a b : Bool) → a ≡ true → b ≡ true → (a && b) ≡ true
both a b h k = ground arith

rejected : (ended : Bool) (r : Option Rejection) → ended ≡ false → unless_ended ended r ≡ r
unfolding unless_ended
rejected true r h = absurd (cc h)
rejected false r h = refl

-- A certified session is told to revert: `commit` accepts it as it stands, and yet, as long as a
-- change is out of scope, which a file that a command of the gate generated is too, its view is a
-- scope violation to be fixed and its rejection prefers to revert the first such path.
pub certified_but_rejected :
    (s : Session) (p : Text) (ps : List Text)
    → has_ended s.state.guard_phase ≡ false
    → is_misconfigured s.spec ≡ false
    → s.state.verified ≡ true
    → text_eq (tree_digest s) s.state.verified_digest ≡ true
    → (scope_diff s).out_of_scope ≡ p ∷ ps
    → ((commit s).1.ok ≡ true)
      × ((next s).advice.action ≡ codes "fix_scope_violation")
      × ((r : Rejection) × (rejection_from_plan s.state (compute_plan s) ≡ some r)
          × (r.kind ≡ codes "scope_violation")
          × (r.preferred_path ≡ some p))
unfolding Answers next compute_plan rejection_from_plan unless_ended
certified_but_rejected s p ps unended granted verified same out =
    let (decision, _, _, _, _, _, _) = commit_exact s in
    let told =
      fix_scope s.state.guard_phase s.state.verified _ (length (scope_diff s).out_of_scope) _
        (is_misconfigured s.spec) _ unended granted (some_length _ p ps out) in
    let (r, is, kind, path) = rejected_out _ p ps s.state (compute_plan s) out in
    (decision ∙ both _ _ verified same, told, (r, rejected _ _ unended ∙ is, kind, path))
