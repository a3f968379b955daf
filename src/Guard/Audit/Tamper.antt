-- ===== src/Guard/Audit/Tamper.antt =====
-- src/guard.rs: what an audit that finds nothing shows, and what it cannot tell apart.
use perdure.Prelude.{
  ◌==◌, ◌≡◌, ◌≢◌, ◌↔◌, ◌⊎◌, refl, sym, ap, ◌∙◌, arith, Text, Bool, true, false, ◌&&◌, Option, none,
  some, List, [], ◌∷◌, ◌++◌, text_eq_iff, &&-true, length, In, here, there, subst, retain, All,
}
use perdure.Prelude.Map
use perdure.Prelude.Map.{Map}
use perdure.Goal.{GoalSpec, required_commands}
use perdure.Event.{Event}
use perdure.Event.Chain.{is_empty}
use perdure.Run.{RunState, Receipt, Receipts}
use perdure.Snapshot.{bool_eq}
use perdure.Store.Identity.{input_hash, receipt_content_hash}
use perdure.Guard.Audit.{
  Fault, input_faults, anchor_faults, receipt_faults, all_receipt_faults, has_receipt,
  deleted_faults, faults_of, is_none, chain_ok, created_in, derived_verified, passes_in,
  audit_receipts,
}

-- The receipt's input has the hash that it carries, if it carries one.
unfoldable pub InputKept : Receipt → Type 0
InputKept r = (r.input_hash ≡ []) ⊎ (r.input_hash ≡ input_hash r.input)

-- What the chain says of a receipt: nothing, that it was created, or that and the hash of its body.
unfoldable pub Anchored : Receipt → Option (Option Text) → Type 0
Anchored r none = ⊥
Anchored r (some none) = Unit
Anchored r (some (some h)) = receipt_content_hash r.input r.output ≡ h

unfoldable pub AllKept : Map (Option Text) → Receipts → Type 0
unfolding InputKept Anchored
AllKept created [] = Unit
AllKept created ((id, r) ∷ rs) =
    InputKept r × Anchored r (Map.lookup r.receipt_id created) × AllKept created rs

unfoldable pub NoneDeleted : Receipts → Map (Option Text) → Type 0
NoneDeleted rs [] = Unit
NoneDeleted rs ((rid, h) ∷ created) = (has_receipt rid rs ≡ true) × NoneDeleted rs created

is_none-append :
    (a b : List Fault) → (is_none (a ++ b) ≡ true) ↔ ((is_none a ≡ true) × (is_none b ≡ true))
unfolding is_none
is_none-append [] b = (λ h. (refl, h), λ h. h.1)
is_none-append (f ∷ a) b = (λ h. absurd (cc h), λ h. absurd (cc h.0))

is_empty_iff : (t : Text) → (is_empty t ≡ true) ↔ (t ≡ [])
is_empty_iff [] = (λ _. refl, λ _. refl)
is_empty_iff (c ∷ t) = (λ h. cc, λ h. cc)

input_iff : (r : Receipt) → (is_none (input_faults r) ≡ true) ↔ InputKept r
unfolding input_faults InputKept is_none
input_iff r =
    ground (arith, is_empty_iff r.input_hash, text_eq_iff r.input_hash (input_hash r.input))

anchor_iff :
    (r : Receipt) (o : Option (Option Text)) → (is_none (anchor_faults r o) ≡ true) ↔ Anchored r o
unfolding anchor_faults Anchored is_none
anchor_iff r none = (λ h. absurd (cc h), λ h. absurd h)
anchor_iff r (some none) = (λ h. tt, λ h. refl)
anchor_iff r (some (some h)) = ground (arith, text_eq_iff (receipt_content_hash r.input r.output) h)

all_iff :
    (created : Map (Option Text)) (rs : Receipts)
    → (is_none (all_receipt_faults true created rs) ≡ true) ↔ AllKept created rs
unfolding all_receipt_faults receipt_faults AllKept
all_iff created [] = unfold is_none in (λ h. tt, λ h. refl)
all_iff created ((id, r) ∷ rs) =
    let whole =
      is_none-append (receipt_faults true created r) (all_receipt_faults true created rs) in
    let first =
      is_none-append (input_faults r) (anchor_faults r (Map.lookup r.receipt_id created)) in
    let input = input_iff r in
    let anchor = anchor_iff r (Map.lookup r.receipt_id created) in
    let rest = all_iff created rs in
    (
      λ h. let (a, b) = whole.0 h in let (c, d) = first.0 a in (input.0 c, anchor.0 d, rest.0 b),
      λ h. whole.1 (first.1 (input.1 h.0, anchor.1 h.1), rest.1 h.2),
    )

deleted_iff :
    (rs : Receipts) (created : Map (Option Text))
    → (is_none (deleted_faults rs created) ≡ true) ↔ NoneDeleted rs created
unfolding deleted_faults NoneDeleted is_none
deleted_iff rs [] = (λ h. tt, λ h. refl)
deleted_iff rs ((rid, h) ∷ created) = ground (arith, deleted_iff rs created)

bool_eq_iff : (a b : Bool) → (bool_eq a b ≡ true) ↔ (a ≡ b)
unfolding bool_eq
bool_eq_iff a b = ground arith

faults_iff :
    (created : Map (Option Text)) (rs : Receipts)
    → (is_none (faults_of true created rs) ≡ true) ↔ (AllKept created rs × NoneDeleted rs created)
unfolding faults_of
faults_iff created rs =
    let whole = is_none-append (all_receipt_faults true created rs) (deleted_faults rs created) in
    let kept = all_iff created rs in
    let present = deleted_iff rs created in
    (
      λ h. let (a, b) = whole.0 h in (kept.0 a, present.0 b),
      λ h. whole.1 (kept.1 h.0, present.1 h.1),
    )

verdict_iff :
    (chain d v : Bool) (created : Map (Option Text)) (rs : Receipts)
    → ((chain && is_none (faults_of chain created rs) && bool_eq d v) ≡ true)
      ↔ ((chain ≡ true) × AllKept created rs × NoneDeleted rs created × (d ≡ v))
verdict_iff true d v created rs =
    let faults = faults_iff created rs in
    let same = bool_eq_iff d v in
    (
      λ h.
          let (a, b) = &&-true (is_none (faults_of true created rs)) (bool_eq d v) h in
          let (kept, present) = faults.0 a in (refl, kept, present, same.0 b),
      λ h.
          let a : is_none (faults_of true created rs) ≡ true = faults.1 (h.1, h.2) in
          let b : bool_eq d v ≡ true = same.1 h.3 in rw (a, b) refl,
    )
verdict_iff false d v created rs = (λ h. absurd (cc h), λ h. absurd (cc h.0))

-- An audit passes exactly if the event chain is intact, every receipt has the input hash that it
-- carries and is anchored in the chain, with the hash of its body where the chain has one, no receipt
-- that the chain records is missing, and the verified bit is what the receipts give.
pub audit_exact :
    (spec : GoalSpec) (state : RunState) (raw : List Event × Bool) (rs : Receipts)
    → ((audit_receipts spec state raw (some rs)).ok ≡ true) ↔ (
        (chain_ok raw ≡ true)
        × AllKept (created_in raw.0 []) rs
        × NoneDeleted rs (created_in raw.0 [])
        × (derived_verified spec rs state ≡ state.verified))
unfolding audit_receipts
audit_exact spec state raw rs =
    verdict_iff (chain_ok raw) (derived_verified spec rs state) state.verified (created_in raw.0 [])
      rs

kept_of :
    (created : Map (Option Text)) (rs : Receipts) (id : Text) (r : Receipt) (h : Text)
    → AllKept created rs
    → In (id, r) rs
    → Map.lookup r.receipt_id created ≡ some (some h)
    → receipt_content_hash r.input r.output ≡ h
unfolding AllKept
kept_of created [] id r h k i e = elim i [ ]
kept_of created ((j, x) ∷ rs) id r h k (here same) e =
    let one : r ≡ x = ap (λ (p : Text × Receipt). p.1) same in
    let there_too : Map.lookup x.receipt_id created ≡ some (some h) =
      ap (λ (y : Receipt). Map.lookup y.receipt_id created) (sym one) ∙ e in
    let body : Anchored x (some (some h)) = subst (Anchored x) there_too k.1 in
    ap (λ (y : Receipt). receipt_content_hash y.input y.output) one ∙ (unfold Anchored in body)
kept_of created ((j, x) ∷ rs) id r h k (there i) e = kept_of created rs id r h k.2 i e

-- Two ledgers that share an event file and both pass the audit agree on the content hash of every
-- receipt that the chain anchors: a changed exit code or input needs a collision of the hash.
pub audit_pins :
    (spec : GoalSpec) (s s' : RunState) (raw : List Event × Bool) (rs rs' : Receipts)
    (id id' h : Text) (r r' : Receipt)
    → (audit_receipts spec s raw (some rs)).ok ≡ true
    → (audit_receipts spec s' raw (some rs')).ok ≡ true
    → In (id, r) rs
    → In (id', r') rs'
    → r.receipt_id ≡ r'.receipt_id
    → Map.lookup r.receipt_id (created_in raw.0 []) ≡ some (some h)
    → receipt_content_hash r.input r.output ≡ receipt_content_hash r'.input r'.output
audit_pins spec s s' raw rs rs' id id' h r r' a a' i i' same e =
    let created = created_in raw.0 [] in
    let (_, kept, _, _) = (audit_exact spec s raw rs).0 a in
    let (_, kept', _, _) = (audit_exact spec s' raw rs').0 a' in
    let e' : Map.lookup r'.receipt_id created ≡ some (some h) =
      ap (λ k. Map.lookup k created) (sym same) ∙ e in
    kept_of created rs id r h kept i e ∙ sym (kept_of created rs' id' r' h kept' i' e')

retain-All : (p : Text → Bool) (xs : List Text) → All (λ x. p x ≡ true) xs → retain p xs ≡ xs
retain-All p [] h = refl
retain-All p (x ∷ xs) h = rw (h.0, retain-All p xs h.1) refl

nonempty : (xs : List Text) → xs ≢ [] → (length xs == 0) ≡ false
nonempty [] h = absurd (h refl)
nonempty (x ∷ xs) h = ground arith

supported :
    (spec : GoalSpec) (rs : Receipts) (state : RunState)
    → required_commands spec ≢ []
    → All (λ cmd. passes_in rs cmd ≡ true) (required_commands spec)
    → state.out_of_scope ≡ 0
    → derived_verified spec rs state ≡ true
unfolding derived_verified
supported spec rs state some_command passed scope =
    let all_pass = retain-All (passes_in rs) (required_commands spec) passed in
    let several = nonempty (required_commands spec) some_command in
    rw (all_pass, several) (ground arith)

mismatch : (d v : Bool) → d ≡ true → v ≡ false → bool_eq d v ≡ false
unfolding bool_eq
mismatch d v h k = ground arith

-- Where every required command has a passing receipt, for whatever tree, and the last gate found
-- nothing out of scope, the audit of a session whose verified bit is false finds its state inconsistent.
unverified-audit :
    (spec : GoalSpec) (state : RunState) (raw : List Event × Bool) (rs : Receipts)
    → required_commands spec ≢ []
    → All (λ cmd. passes_in rs cmd ≡ true) (required_commands spec)
    → state.out_of_scope ≡ 0
    → state.verified ≡ false
    → ((audit_receipts spec state raw (some rs)).state_consistent ≡ false)
      × ((audit_receipts spec state raw (some rs)).ok ≡ false)
unfolding audit_receipts
unverified-audit spec state raw rs some_command passed scope unverified =
    let derived = supported spec rs state some_command passed scope in
    let clash = mismatch (derived_verified spec rs state) state.verified derived unverified in
    (clash, failed (chain_ok raw) _ _ clash)
  where
    failed : (a b c : Bool) → c ≡ false → (a && b && c) ≡ false
    failed a b c h = ground arith
