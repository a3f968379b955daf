-- ===== src/Guard/Finalized.antt =====
-- src/guard.rs: the course of a session, and when `commit` finalizes it.
use perdure.Prelude.{
  ℕ, ◌≡◌, refl, sym, ap, ◌∙◌, subst, Text, text_eq, text_eq_sound, text_eq_refl, Bool, true, false,
  ◌&&◌, &&-true, Option, List, [], ◌∷◌, codes, if◌then◌else◌, inl, inr,
}
use perdure.Run.{RunState}
use perdure.Snapshot.{Entries}
use perdure.Guard.{Session, append}
use perdure.Guard.Verify.{Shell}
use perdure.Goal.{required_commands}
use perdure.Guard.Gate.{verify_inner, gate_paths, is_empty, head_digest, opened}
use perdure.Guard.Commit.{
  GuardOutcome, refuse, finalized, decide, commit, abort, tree_digest, changed_since,
  note_violations, accept,
}
use perdure.Guard.Evidence.{Certificate, Passing, verify_sound, verify_complete}

-- The answer to a commit and the session behind it, as the decision is.
unfoldable pub Answers : Session → Bool → Session × GuardOutcome → Type 0
Answers s b (after, outcome) =
    (outcome.ok ≡ b)
    × (after.state.status ≡ (if b then codes "completed" else s.state.status))
    × (after.state.guard_phase ≡ (if b then codes "committed" else s.state.guard_phase))
    × (after.state.verified ≡ s.state.verified)
    × (after.state.verified_digest ≡ s.state.verified_digest)
    × (after.tree ≡ s.tree)
    × (after.receipts ≡ s.receipts)

note_violations_lem :
    (ps : List Text) (s : Session)
    → ((note_violations ps s).state ≡ s.state)
      × ((note_violations ps s).tree ≡ s.tree)
      × ((note_violations ps s).receipts ≡ s.receipts)
unfolding note_violations append
note_violations_lem [] s = (refl, refl, refl)
note_violations_lem (p ∷ ps) s = note_violations_lem ps _

changed_since-Answers : (s : Session) (ps : List Text) → Answers s false (changed_since s ps)
unfolding Answers changed_since refuse
changed_since-Answers s [] = (refl, refl, refl, refl, refl, refl, refl)
changed_since-Answers s (p ∷ ps) =
    let (st, tr, rc) = note_violations_lem (p ∷ ps) s in
    (
      refl,
      ap (λ (x : RunState). x.status) st,
      ap (λ (x : RunState). x.guard_phase) st,
      ap (λ (x : RunState). x.verified) st,
      ap (λ (x : RunState). x.verified_digest) st,
      tr,
      rc,
    )

decide-Answers : (s : Session) (b c : Bool) → Answers s (b && c) (decide s b c)
unfolding decide
decide-Answers s false c = unfold Answers refuse in (refl, refl, refl, refl, refl, refl, refl)
decide-Answers s true false = changed_since-Answers s (gate_paths s)
decide-Answers s true true =
    unfold Answers finalized accept append in (refl, refl, refl, refl, refl, refl, refl)

-- `commit` accepts exactly a verified session whose tree still has the certified digest. If it
-- accepts, the run is completed and its phase committed, and if it refuses, both stay; the verified
-- bit, the certified digest, the tree and the receipts stay in either case.
pub commit_exact :
    (s : Session)
    → Answers s (s.state.verified && text_eq (tree_digest s) s.state.verified_digest) (commit s)
unfolding commit
commit_exact s = decide-Answers s s.state.verified (text_eq (tree_digest s) s.state.verified_digest)

-- What happens to a session: the agent, or anyone, changes the tree in any way, or a command of the
-- gate is called.
pub data Step (shell : Shell) : Session → Session → Type 0 where
  edit : {s : Session} (t : Entries) → Step shell s (record s { tree = t })
  verifying :
      {s : Session} (crash : Option ℕ) (rerun : Bool)
      → Step shell s (verify_inner shell crash rerun s).0
  committing : {s : Session} → Step shell s (commit s).0
  aborting : {s : Session} → Step shell s (abort s).0

pub data Course (shell : Shell) : Session → Session → Type 0 where
  start : {s : Session} → Course shell s s
  then_ : {s s' s'' : Session} → Course shell s s' → Step shell s' s'' → Course shell s s''

-- A verify on the way from `s` to `s'`: it was called at the session `before` of that way and certified
-- the digest there.
pub record Backed (shell : Shell) (s s' : Session) (digest : Text) : Type 0 where
  pub before : Session
  pub crash : Option ℕ
  pub rerun : Bool
  pub earlier : Course shell s before
  pub later : Course shell (verify_inner shell crash rerun before).0 s'
  pub set_bit : (verify_inner shell crash rerun before).0.state.verified ≡ true
  pub recorded : (verify_inner shell crash rerun before).0.state.verified_digest ≡ digest
  pub found : Certificate shell before digest

unfoldable Honest : Shell → Session → Session → Type 0
Honest shell s s' = s'.state.verified ≡ true → Backed shell s s' s'.state.verified_digest

extended :
    (shell : Shell) {s s' s'' : Session} {d d' : Text}
    → Step shell s' s''
    → d ≡ d'
    → Backed shell s s' d
    → Backed shell s s'' d'
extended shell st same c = record {
  before = c.before;
  crash = c.crash;
  rerun = c.rerun;
  earlier = c.earlier;
  later = then_ c.later st;
  set_bit = c.set_bit;
  recorded = c.recorded ∙ same;
  found = subst (Certificate shell c.before) same c.found;
}

Step-Honest :
    (shell : Shell) {s s' s'' : Session}
    → Course shell s s'
    → Step shell s' s''
    → Honest shell s s'
    → Honest shell s s''
unfolding Honest Answers abort append
Step-Honest shell way (edit t) h v = extended shell (edit t) refl (h v)
Step-Honest shell way (verifying {s} crash rerun) h v = elim (verify_sound shell crash rerun s v) [
  | inl same ↦
      extended shell (verifying crash rerun) (ap (λ (x : RunState). x.verified_digest) (sym same))
        (h (ap (λ (x : RunState). x.verified) (sym same) ∙ v))
  | inr c ↦ record {
    before = s;
    crash = crash;
    rerun = rerun;
    earlier = way;
    later = start;
    set_bit = v;
    recorded = refl;
    found = c;
  }
]
Step-Honest shell way (committing {s}) h v =
    let (_, _, _, verified, digest, _, _) = commit_exact s in
    extended shell committing (sym digest) (h (sym verified ∙ v))
Step-Honest shell way aborting h v = extended shell aborting refl (h v)

Course-Honest :
    (shell : Shell) {s s' : Session} → Course shell s s' → Honest shell s s → Honest shell s s'
Course-Honest shell start h = h
Course-Honest shell (then_ c st) h = Step-Honest shell c st (Course-Honest shell c h)

-- However the tree is edited and the gate called since `begin`, a commit is accepted only where a
-- verify on the way to it set the verified bit: that verify found nothing out of scope and, for every
-- required command, a grant and a passing receipt, and the digest that it recorded is that of the tree
-- as it stands at the commit.
pub finalized_is_certified :
    (shell : Shell) {s s' : Session}
    → s.state.verified ≡ false
    → Course shell s s'
    → (commit s').1.ok ≡ true
    → Backed shell s s' (tree_digest s')
unfolding Honest Answers
finalized_is_certified shell {s} {s'} fresh way accepted =
    let (decision, _, _, _, _, _, _) = commit_exact s' in
    let (verified, same) =
      &&-true s'.state.verified (text_eq (tree_digest s') s'.state.verified_digest)
        (sym decision ∙ accepted) in
    let c = Course-Honest shell way (λ v. absurd (cc (fresh, v))) verified in
    let digest : s'.state.verified_digest ≡ tree_digest s' = sym (text_eq_sound _ _ same) in
    record {
      before = c.before;
      crash = c.crash;
      rerun = c.rerun;
      earlier = c.earlier;
      later = c.later;
      set_bit = c.set_bit;
      recorded = c.recorded ∙ digest;
      found = subst (Certificate shell c.before) digest c.found;
    }

-- A session that was just verified (the gate found nothing, some command is required, and each is
-- granted and yields a passing receipt) is accepted by the next commit.
pub verify_then_commit :
    (shell : Shell) (crash : Option ℕ) (rerun : Bool) (s after : Session)
    → gate_paths s ≡ []
    → is_empty (required_commands s.spec) ≡ false
    → Passing shell crash rerun (head_digest s) (opened s) (required_commands s.spec) after
    → (commit (verify_inner shell crash rerun s).0).1.ok ≡ true
unfolding Answers
verify_then_commit shell crash rerun s after g some_required run =
    let (verified, recorded, left) =
      verify_complete shell crash rerun s after g some_required run in
    let v = (verify_inner shell crash rerun s).0 in
    let (decision, _, _, _, _, _, _) = commit_exact v in
    let same : text_eq (tree_digest v) v.state.verified_digest ≡ true =
      rw (left, recorded) (text_eq_refl (tree_digest after)) in
    decision ∙ rw (verified, same) refl
