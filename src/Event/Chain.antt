-- ===== src/Event/Chain.antt =====
-- `verify_chain` of src/event.rs: what it accepts, what it reports, and what it cannot see.
pub mod Tamper
use perdure.Prelude.{
  ℕ, zero, suc, ◌+◌, ◌<◌, ◌≡◌, ◌≢◌, ◌↔◌, ◌⊎◌, inl, inr, refl, ap, Text, List, [], ◌∷◌, ◌++◌, Bool,
  true, false, Result, ok, err, text_eq, text_eq_sound, text_ne, subst, if◌then◌else◌, arith,
  Bool-cases, length,
}
use perdure.Event.{Event, genesis_hash, compute_hash}

-- The two reasons.
pub data Reason : Type 0 where
  altered : Reason
  broken_link : Reason

pub record ChainBreak : Type 0 where
  pub index : ℕ
  pub seq : ℕ
  pub reason : Reason

abbrev pub is_empty : Text → Bool
is_empty [] = true
is_empty (_ ∷ _) = false

-- The loop: `i` is the index and `expected_prev` the anchor.
verify_from : ℕ → Text → List Event → Result (Unit {0}) ChainBreak
verify_from i expected_prev [] = ok tt
verify_from i expected_prev (e ∷ es) =
    let legacy = verify_from (i + 1) genesis_hash es in
    let linked = verify_from (i + 1) e.entry_hash es in
    if is_empty e.entry_hash
    then legacy
    else if text_eq (compute_hash e) e.entry_hash
    then (if text_eq e.prev_hash expected_prev
        then linked
        else err (record { index = i; seq = e.seq; reason = broken_link }))
    else err (record { index = i; seq = e.seq; reason = altered })

unfoldable pub verify_chain : List Event → Result (Unit {0}) ChainBreak
unfolding verify_from
verify_chain events = verify_from 0 genesis_hash events

-- The hash that the event after `e` must name.
unfoldable pub anchor_after : Event → Text
anchor_after e = if is_empty e.entry_hash then genesis_hash else e.entry_hash

-- An event that stands well behind the anchor: one without a hash, or one whose hash is that of
-- its content and which names the anchor.
pub data Link (anchor : Text) (e : Event) : Type 0 where
  legacy : e.entry_hash ≡ [] → Link anchor e
  hashed : e.entry_hash ≢ [] → compute_hash e ≡ e.entry_hash → e.prev_hash ≡ anchor → Link anchor e

abbrev pub Chained : Text → List Event → Type 0
Chained anchor [] = Unit
Chained anchor (e ∷ es) = Link anchor e × Chained (anchor_after e) es

-- The anchor behind a whole list.
abbrev pub anchor_behind : Text → List Event → Text
anchor_behind anchor [] = anchor
anchor_behind anchor (e ∷ es) = anchor_behind (anchor_after e) es

-- What is wrong with an event, behind the given anchor.
abbrev pub Fault : Reason → Text → Event → Type 0
Fault altered anchor e = compute_hash e ≢ e.entry_hash
Fault broken_link anchor e = (compute_hash e ≡ e.entry_hash) × (e.prev_hash ≢ anchor)

-- The first event that does not fit: what stands before it is chained.
pub record BreaksAt (i : ℕ) (anchor : Text) (es : List Event) (b : ChainBreak) : Type 0 where
  pub before : List Event
  pub event : Event
  pub after : List Event
  pub split : es ≡ before ++ event ∷ after
  pub place : b.index ≡ i + length before
  pub sequence : b.seq ≡ event.seq
  pub chained : Chained anchor before
  pub has_hash : event.entry_hash ≢ []
  pub fault : Fault b.reason (anchor_behind anchor before) event

is_empty_iff : (t : Text) → (is_empty t ≡ true) ↔ (t ≡ [])
is_empty_iff [] = (λ _. refl, λ _. refl)
is_empty_iff (c ∷ t) = (λ h. cc, λ h. cc)

-- The verdict on a list of events behind an anchor.
abbrev Verdict : ℕ → Text → List Event → Result (Unit {0}) ChainBreak → Type 0
Verdict i anchor es (ok _) = Chained anchor es
Verdict i anchor es (err b) = BreaksAt i anchor es b

Verdict-cons :
    (i : ℕ) (anchor : Text) (e : Event) (es : List Event) (r : Result (Unit {0}) ChainBreak)
    → Link anchor e
    → Verdict (i + 1) (anchor_after e) es r
    → Verdict i anchor (e ∷ es) r
Verdict-cons i anchor e es (ok _) l v = (l, v)
Verdict-cons i anchor e es (err b) l v = record {
  before = e ∷ v.before;
  event = v.event;
  after = v.after;
  split = ap (λ xs. e ∷ xs) v.split;
  place = omega (arith, v.place);
  sequence = v.sequence;
  chained = (l, v.chained);
  has_hash = v.has_hash;
  fault = v.fault;
}

break_here :
    (i : ℕ) (anchor : Text) (e : Event) (es : List Event) (r : Reason)
    → e.entry_hash ≢ []
    → Fault r anchor e
    → BreaksAt i anchor (e ∷ es) (record { index = i; seq = e.seq; reason = r })
break_here i anchor e es r full f = record {
  before = [];
  event = e;
  after = es;
  split = refl;
  place = omega arith;
  sequence = refl;
  chained = tt;
  has_hash = full;
  fault = f;
}

Verdict-verify_from :
    (i : ℕ) (anchor : Text) (es : List Event) → Verdict i anchor es (verify_from i anchor es)
unfolding verify_from
Verdict-verify_from i anchor [] = tt
Verdict-verify_from i anchor (e ∷ es) = elim (Bool-cases (is_empty e.entry_hash)) [
  | inl bare ↦
      let next : anchor_after e ≡ genesis_hash = unfold anchor_after in rw bare in
      rw bare (
        Verdict-cons i anchor e es _ (legacy ((is_empty_iff e.entry_hash).0 bare))
          (rw next (Verdict-verify_from (i + 1) genesis_hash es)))
  | inr full ↦
      let next : anchor_after e ≡ e.entry_hash = unfold anchor_after in rw full in
      let some_hash : e.entry_hash ≢ [] = λ z. cc ((is_empty_iff e.entry_hash).1 z, full) in
      rw full (elim (Bool-cases (text_eq (compute_hash e) e.entry_hash)) [
        | inl genuine ↦
            let content : compute_hash e ≡ e.entry_hash =
              text_eq_sound (compute_hash e) e.entry_hash genuine in
            rw genuine (elim (Bool-cases (text_eq e.prev_hash anchor)) [
              | inl linked ↦ rw linked (
                  Verdict-cons i anchor e es _
                    (hashed some_hash content (text_eq_sound e.prev_hash anchor linked))
                    (rw next (Verdict-verify_from (i + 1) e.entry_hash es)))
              | inr loose ↦ rw loose (
                  break_here i anchor e es broken_link some_hash
                    (content, text_ne e.prev_hash anchor loose))
            ])
        | inr forged ↦ rw forged (
            break_here i anchor e es altered some_hash
              (text_ne (compute_hash e) e.entry_hash forged))
      ])
]

Chained-split :
    (anchor : Text) (before : List Event) (e : Event) (after : List Event)
    → Chained anchor (before ++ e ∷ after)
    → Link (anchor_behind anchor before) e
Chained-split anchor [] e after c = c.0
Chained-split anchor (x ∷ before) e after c = Chained-split (anchor_after x) before e after c.1

Link-no-Fault :
    (r : Reason) (anchor : Text) (e : Event)
    → e.entry_hash ≢ []
    → Link anchor e
    → ¬ Fault r anchor e
Link-no-Fault altered anchor e full (legacy bare) f = full bare
Link-no-Fault altered anchor e full (hashed _ genuine linked) f = f genuine
Link-no-Fault broken_link anchor e full (legacy bare) f = full bare
Link-no-Fault broken_link anchor e full (hashed _ genuine linked) f = f.1 linked

complete :
    (es : List Event) (r : Result (Unit {0}) ChainBreak)
    → Verdict 0 genesis_hash es r
    → Chained genesis_hash es
    → r ≡ ok tt
complete es (ok tt) v c = refl
complete es (err b) v c = absurd (
    Link-no-Fault b.reason (anchor_behind genesis_hash v.before) v.event v.has_hash
      (Chained-split genesis_hash v.before v.event v.after (subst (Chained genesis_hash) v.split c))
      v.fault)

-- A history is accepted exactly when each of its events is either without a hash (a legacy event),
-- or carries the hash of its own content and names the event before it (or genesis, at the start
-- and behind a legacy event).
pub verify_chain_iff : (es : List Event) → (verify_chain es ≡ ok tt) ↔ Chained genesis_hash es
unfolding verify_chain
verify_chain_iff es = (
  λ h. subst (Verdict 0 genesis_hash es) h (Verdict-verify_from 0 genesis_hash es),
  complete es (verify_from 0 genesis_hash es) (Verdict-verify_from 0 genesis_hash es),
)

-- A refusal reports the first event that does not fit: its index and sequence number, with all
-- before it chained; and the reason is the fault it has, an altered content or a broken link.
pub verify_chain_break :
    (es : List Event) (b : ChainBreak) → verify_chain es ≡ err b → BreaksAt 0 genesis_hash es b
unfolding verify_chain
verify_chain_break es b h =
    subst (Verdict 0 genesis_hash es) h (Verdict-verify_from 0 genesis_hash es)
