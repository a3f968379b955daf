-- ===== src/Event/Chain/Tamper.antt =====
-- What an accepted chain says about the events, and which changes `verify_chain` does not see.
use perdure.Prelude.{
  ℕ, ◌≡◌, ◌≢◌, ◌⊎◌, inl, inr, refl, sym, ◌∙◌, Text, List, [], ◌∷◌, ◌++◌, map, ok, text_eq,
  text_eq_sound, text_ne, arith, Bool-cases, length, All,
}
use perdure.Hash.{sha256_hex}
use perdure.Store.Canonical.{canonical_bytes}
use perdure.Event.{Event, genesis_hash, compute_hash, content}
use perdure.Event.Chain.{
  verify_chain, Link, legacy, hashed, Chained, anchor_after, anchor_behind, verify_chain_iff,
}

abbrev pub IsHashed : List Event → Type 0
IsHashed = All (λ e. e.entry_hash ≢ [])

-- The bytes that an event's hash is taken of.
abbrev pub event_bytes : Event → List ℕ
event_bytes e = canonical_bytes (content e)

-- Event by event the same hashed bytes.
abbrev pub SameBytes : List Event → List Event → Type 0
SameBytes [] [] = Unit
SameBytes [] (_ ∷ _) = ⊥
SameBytes (_ ∷ _) [] = ⊥
SameBytes (e ∷ es) (f ∷ fs) = (event_bytes e ≡ event_bytes f) × SameBytes es fs

-- Different bytes with one SHA-256 digest.
abbrev pub Collide : Event → Event → Type 0
Collide e f =
    (event_bytes e ≢ event_bytes f)
    × (sha256_hex (event_bytes e ∷ []) ≡ sha256_hex (event_bytes f ∷ []))

-- One encoding, and different predecessors.
abbrev pub Confused : Event → Event → Type 0
Confused e f = (event_bytes e ≡ event_bytes f) × (e.prev_hash ≢ f.prev_hash)

-- A place of both histories whose two events are related, and behind which the histories hold the same
-- bytes.
abbrev pub LastAt : (Event → Event → Type 0) → List Event → List Event → Type 0
LastAt P [] fs = ⊥
LastAt P (e ∷ es) [] = ⊥
LastAt P (e ∷ es) (f ∷ fs) = (P e f × SameBytes es fs) ⊎ LastAt P es fs

hashed-Link :
    (anchor : Text) (e : Event)
    → e.entry_hash ≢ []
    → Link anchor e
    → (compute_hash e ≡ e.entry_hash) × (e.prev_hash ≡ anchor) × (anchor_after e ≡ e.entry_hash)
unfolding anchor_after
hashed-Link anchor e full (legacy bare) = absurd (full bare)
hashed-Link anchor e full (hashed _ genuine linked) = (genuine, linked, ground arith)

agree :
    (a b : Text) (es fs : List Event)
    → length es ≡ length fs
    → IsHashed es
    → IsHashed fs
    → Chained a es
    → Chained b fs
    → anchor_behind a es ≡ anchor_behind b fs
    → ((a ≡ b) × SameBytes es fs) ⊎ (LastAt Collide es fs ⊎ LastAt Confused es fs)
agree a b [] [] n he hf ce cf h = inl (h, tt)
agree a b [] (f ∷ fs) n he hf ce cf h = absurd (omega arith)
agree a b (e ∷ es) [] n he hf ce cf h = absurd (omega arith)
agree a b (e ∷ es) (f ∷ fs) n he hf ce cf h =
    elim (agree (anchor_after e) (anchor_after f) es fs (omega arith) he.1 hf.1 ce.1 cf.1 h) [
      | inr (inl found) ↦ inr (inl (inr found))
      | inr (inr found) ↦ inr (inr (inr found))
      | inl (same, rest) ↦
          let (ge, le, ae) = hashed-Link a e he.0 ce.0 in
          let (gf, lf, af) = hashed-Link b f hf.0 cf.0 in
          let digests : compute_hash e ≡ compute_hash f = ge ∙ sym ae ∙ same ∙ af ∙ sym gf in
          elim (Bool-cases (text_eq (event_bytes e) (event_bytes f))) [
            | inr differ ↦
                inr (inl (inl ((text_ne _ _ differ, (unfold compute_hash in digests)), rest)))
            | inl equal ↦
                let bytes : event_bytes e ≡ event_bytes f = text_eq_sound _ _ equal in
                elim (Bool-cases (text_eq e.prev_hash f.prev_hash)) [
                  | inl one ↦ inl (sym le ∙ text_eq_sound _ _ one ∙ lf, (bytes, rest))
                  | inr two ↦ inr (inr (inl ((bytes, text_ne _ _ two), rest)))
                ]
          ]
    ]

-- Tamper evidence: where two histories of one length, all of whose events carry hashes, are both
-- accepted and end in the same hash, then they hold the same hashed bytes at every place, or there is
-- a place behind which they do, and whose two events either collide under SHA-256, with different
-- bytes, or have one encoding and name different predecessors.
pub tamper_evident :
    (es fs : List Event)
    → length es ≡ length fs
    → IsHashed es
    → IsHashed fs
    → verify_chain es ≡ ok tt
    → verify_chain fs ≡ ok tt
    → anchor_behind genesis_hash es ≡ anchor_behind genesis_hash fs
    → SameBytes es fs ⊎ (LastAt Collide es fs ⊎ LastAt Confused es fs)
tamper_evident es fs n he hf ve vf h =
    elim (agree genesis_hash genesis_hash es fs n he hf ((verify_chain_iff es).0 ve)
      ((verify_chain_iff fs).0 vf) h) [ inl (_, same) ↦ inl same | inr found ↦ inr found ]

Chained-prefix :
    (anchor : Text) (es fs : List Event) → Chained anchor (es ++ fs) → Chained anchor es
Chained-prefix anchor [] fs c = tt
Chained-prefix anchor (e ∷ es) fs c = (c.0, Chained-prefix (anchor_after e) es fs c.1)

-- Cutting any number of events off the end of an accepted history is not detected.
pub truncation_unseen :
    (es fs : List Event) → verify_chain (es ++ fs) ≡ ok tt → verify_chain es ≡ ok tt
truncation_unseen es fs h =
    (verify_chain_iff es).1 (Chained-prefix genesis_hash es fs ((verify_chain_iff (es ++ fs)).0 h))

-- An event whose hash is erased.
abbrev pub strip_hash : Event → Event
strip_hash e = record e { entry_hash = [] }

Chained-strip : (anchor : Text) (es : List Event) → Chained anchor (map strip_hash es)
Chained-strip anchor [] = tt
Chained-strip anchor (e ∷ es) = (legacy refl, Chained-strip (anchor_after (strip_hash e)) es)

-- Any list of events whatever, edited, inserted, removed or reordered, is accepted once the hash
-- of each event is erased: the events then pass for legacy ones.
pub stripped_unseen : (es : List Event) → verify_chain (map strip_hash es) ≡ ok tt
stripped_unseen es = (verify_chain_iff (map strip_hash es)).1 (Chained-strip genesis_hash es)
