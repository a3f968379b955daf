-- ===== src/Guard/Evidence.antt =====
-- src/guard.rs: what stands behind the verified bit.
use perdure.Prelude.{
  ℕ, suc, ◌+◌, ◌≤◌, ◌==◌, ◌≡◌, refl, sym, ap, ◌∙◌, subst, Text, Bool, true, false, Option, List, [],
  ◌∷◌, ◌++◌, length, length-append, if◌then◌else◌, Bool-cases, inl, inr, ◌⊎◌, arith,
}
use perdure.Goal.{command_allowed, required_commands}
use perdure.Run.{Receipt}
use perdure.Guard.{Session, scope_diff, receipt_passed, append, classify}
use perdure.Guard.Verify.{Shell, Obtained, got, failed, crashed, obtain}
use perdure.Guard.Gate.{
  Checked, through, halted, cut, and_then, verdict, check_one, check_all, is_empty, all_passed,
  pass, fail, conclude, gate_paths, block, opened, head_digest, gate, verify_inner,
}
use perdure.Guard.Commit.{tree_digest}

grown : (f f' : List Text) (x : Text) → f ++ x ∷ [] ≡ f' → suc (length f) ≤ length f'
grown f f' x h = omega (arith, length-append f (x ∷ []), ap length h)

through_inj :
    {s s' : Session} {p p' : ℕ} {f f' : List Text} → through s p f ≡ through s' p' f' → f ≡ f'
through_inj h = cc h

module _ (shell : Shell) (crash : Option ℕ) (rerun : Bool) (digest : Text) where
  -- Each command in turn is granted and yields a receipt that passes.
  pub data Passing : Session → List Text → Session → Type 0 where
    done : {s : Session} → Passing s [] s
    next :
        {s s' s'' : Session} {cmd : Text} {cmds : List Text}
        → command_allowed s.spec cmd ≡ true
        → (r : Receipt) → obtain shell crash rerun digest s cmd ≡ got s' r
        → receipt_passed r ≡ true
        → Passing s' cmds s''
        → Passing s (cmd ∷ cmds) s''

  -- One command: the failures grow, or it passes.
  verdict_cases :
      (cmd : Text) (p p' : ℕ) (f f' : List Text) (s' : Session) (o : Obtained)
      → verdict cmd p f o ≡ through s' p' f'
      → (suc (length f) ≤ length f')
        ⊎ ((f' ≡ f) × (r : Receipt) × (o ≡ got s' r) × (receipt_passed r ≡ true))
  unfolding verdict
  verdict_cases cmd p p' f f' s' (got s r) h = elim (Bool-cases (receipt_passed r)) [
    | inl e ↦
        let h' : through s (suc p) f ≡ through s' p' f' = rw e at h in inr (cc h', r, cc h', e)
    | inr e ↦ inl (grown f f' _ (through_inj (rw e at h)))
  ]
  verdict_cases cmd p p' f f' s' (failed s e) h = absurd (cc h)
  verdict_cases cmd p p' f f' s' (crashed s) h = absurd (cc h)

  check_one_cases :
      (cmd : Text) (s s' : Session) (p p' : ℕ) (f f' : List Text)
      → check_one shell crash rerun digest cmd s p f ≡ through s' p' f'
      → (suc (length f) ≤ length f')
        ⊎ ((f' ≡ f)
            × (command_allowed s.spec cmd ≡ true)
            × (r : Receipt) × (obtain shell crash rerun digest s cmd ≡ got s' r)
            × (receipt_passed r ≡ true))
  unfolding check_one
  check_one_cases cmd s s' p p' f f' h = elim (Bool-cases (command_allowed s.spec cmd)) [
    | inl e ↦
        let h' = rw e at h in
        elim (verdict_cases cmd p p' f f' s' (obtain shell crash rerun digest s cmd) h') [
          | inl l ↦ inl l
          | inr (same, r, o, t) ↦ inr (same, e, r, o, t)
        ]
    | inr e ↦ inl (grown f f' _ (through_inj (rw e at h)))
  ]

  and_then_lem :
      (c : Checked) (k : Session → ℕ → List Text → Checked) {s' : Session} {p' : ℕ} {f' : List Text}
      → and_then c k ≡ through s' p' f'
      → (s : Session) × (p : ℕ) × (f : List Text) × (c ≡ through s p f)
        × (k s p f ≡ through s' p' f')
  unfolding and_then
  and_then_lem (through s p f) k h = (s, p, f, refl, h)
  and_then_lem (halted s e) k h = absurd (cc h)
  and_then_lem (cut s) k h = absurd (cc h)

  check_all_cases :
      (cmds : List Text) (s s' : Session) (p p' : ℕ) (f f' : List Text)
      → check_all shell crash rerun digest cmds s p f ≡ through s' p' f'
      → (suc (length f) ≤ length f') ⊎ ((f' ≡ f) × Passing s cmds s')
  unfolding check_all
  check_all_cases [] s s' p p' f f' h = inr (cc h, subst (λ z. Passing s [] z) (cc h) done)
  check_all_cases (cmd ∷ cmds) s s' p p' f f' h =
      let (s1, p1, f1, one, rest) =
        and_then_lem (check_one shell crash rerun digest cmd s p f)
          (check_all shell crash rerun digest cmds) h in
      elim (check_all_cases cmds s1 s' p1 p' f1 f' rest) [
        | inl l ↦ elim (check_one_cases cmd s s1 p p1 f f1 one) [
          | inl l' ↦ inl (omega arith)
          | inr (same, _, _, _, _) ↦ inl (rw (sym same) l)
        ]
        | inr (same, more) ↦ elim (check_one_cases cmd s s1 p p1 f f1 one) [
          | inl l' ↦ inl (rw same l')
          | inr (same', granted, r, o, t) ↦ inr (same ∙ same', next granted r o t more)
        ]
      ]

  check_all-Passing :
      {s s' : Session} {cmds : List Text} (p : ℕ) (f : List Text)
      → Passing s cmds s'
      → check_all shell crash rerun digest cmds s p f ≡ through s' (p + length cmds) f
  unfolding check_all and_then
  check_all-Passing p f (done {s}) = let e : p ≡ p + 0 = omega arith in ap (λ n. through s n f) e
  check_all-Passing p f (next {s} {s'} {s''} {cmd} {cmds} allowed r o t more) =
      let one : check_one shell crash rerun digest cmd s p f ≡ through s' (suc p) f =
        unfold check_one verdict in rw (allowed, o, t) refl in
      let e : suc p + length cmds ≡ p + suc (length cmds) = omega arith in
      rw one (check_all-Passing (suc p) f more ∙ ap (λ n. through s'' n f) e)

-- What an honest verified bit rests on: no out-of-scope path at the gate, at least one required
-- command, each granted and with a receipt that passes, and the digest of the tree behind them.
pub data Certificate (shell : Shell) (before : Session) (digest : Text) : Type 0 where
  certificate :
      {crash : Option ℕ} {rerun : Bool} {after : Session}
      → gate_paths before ≡ []
      → is_empty (required_commands before.spec) ≡ false
      → Passing shell crash rerun
          (head_digest before)
          (opened before)
          (required_commands before.spec)
          after
      → digest ≡ tree_digest after
      → Certificate shell before digest

all_passed_lem :
    (required : List Text) (p : ℕ) (f : List Text)
    → all_passed required p f ≡ true
    → (is_empty required ≡ false) × (f ≡ [])
unfolding all_passed is_empty
all_passed_lem [] p f h = absurd (ground arith)
all_passed_lem (_ ∷ _) p [] h = (refl, refl)
all_passed_lem (_ ∷ _) p (_ ∷ _) h = absurd (ground arith)

settled_verified :
    (b : Bool) (a : Session) (p : ℕ) (f : List Text)
    → (if b then pass a p else fail a p f).state.verified ≡ b
unfolding pass fail append
settled_verified true a p f = refl
settled_verified false a p f = refl

pass_digest : (a : Session) (p : ℕ) → (pass a p).state.verified_digest ≡ tree_digest a
unfolding pass append scope_diff classify tree_digest
pass_digest a p = refl

conclude_cases :
    (shell : Shell) (crash : Option ℕ) (rerun : Bool) (s : Session) (c : Checked)
    → gate_paths s ≡ []
    → check_all shell crash rerun (head_digest s) (required_commands s.spec) (opened s) 0 [] ≡ c
    → (conclude s c).0.state.verified ≡ true
    → ((conclude s c).0.state ≡ s.state)
      ⊎ Certificate shell s (conclude s c).0.state.verified_digest
unfolding conclude
conclude_cases shell crash rerun s (halted a e) g k h = inl refl
conclude_cases shell crash rerun s (cut a) g k h = absurd (ground arith)
conclude_cases shell crash rerun s (through a p f) g k h =
    let required = required_commands s.spec in
    let full : all_passed required p f ≡ true =
      sym (settled_verified (all_passed required p f) a p f) ∙ h in
    let (some_required, none_failed) = all_passed_lem required p f full in
    elim (check_all_cases shell crash rerun (head_digest s) required (opened s) a 0 p [] f k) [
      | inl l ↦ absurd (omega (arith, ap length none_failed))
      | inr (_, run) ↦ inr (rw full (certificate g some_required run (pass_digest a p)))
    ]

gate_cases :
    (shell : Shell) (crash : Option ℕ) (rerun : Bool) (s : Session) (paths : List Text)
    → gate_paths s ≡ paths
    → (gate shell crash rerun s paths).0.state.verified ≡ true
    → ((gate shell crash rerun s paths).0.state ≡ s.state)
      ⊎ Certificate shell s (gate shell crash rerun s paths).0.state.verified_digest
unfolding gate
gate_cases shell crash rerun s [] g h =
    conclude_cases shell crash rerun s
      (check_all shell crash rerun (head_digest s) (required_commands s.spec) (opened s) 0 []) g
      refl h
gate_cases shell crash rerun s (p ∷ ps) g h = absurd (unfold block append in ground arith)

-- After a verify the verified bit is either the one from before, which an error of the shell leaves
-- as it was with all the state, or it rests on a certificate: the gate found nothing out of scope,
-- there is a required command, every one is granted and has a passing receipt for the tree that the
-- verify began with, and the recorded digest is that of the tree that the commands left.
pub verify_sound :
    (shell : Shell) (crash : Option ℕ) (rerun : Bool) (s : Session)
    → (verify_inner shell crash rerun s).0.state.verified ≡ true
    → ((verify_inner shell crash rerun s).0.state ≡ s.state)
      ⊎ Certificate shell s (verify_inner shell crash rerun s).0.state.verified_digest
unfolding verify_inner
verify_sound shell crash rerun s h = gate_cases shell crash rerun s (gate_paths s) refl h

-- Conversely a verify sets the verified bit, records the digest of the tree as the commands left it
-- and leaves the tree so, if the gate finds nothing, some command is required and each is granted and
-- yields a passing receipt.
pub verify_complete :
    (shell : Shell) (crash : Option ℕ) (rerun : Bool) (s after : Session)
    → gate_paths s ≡ []
    → is_empty (required_commands s.spec) ≡ false
    → Passing shell crash rerun (head_digest s) (opened s) (required_commands s.spec) after
    → ((verify_inner shell crash rerun s).0.state.verified ≡ true)
      × ((verify_inner shell crash rerun s).0.state.verified_digest ≡ tree_digest after)
      × (tree_digest (verify_inner shell crash rerun s).0 ≡ tree_digest after)
unfolding verify_inner
verify_complete shell crash rerun s after g some_required run =
    let required = required_commands s.spec in
    let n : 0 + length required == length required ≡ true = ground arith in
    let full : all_passed required (0 + length required) [] ≡ true =
      unfold all_passed is_empty in rw (some_required, n) refl in
    let all = check_all-Passing shell crash rerun (head_digest s) 0 [] run in
    rw g (
      unfold gate in
      rw all (
        unfold conclude in
        rw full (unfold pass append scope_diff classify tree_digest in (refl, refl, refl))))
