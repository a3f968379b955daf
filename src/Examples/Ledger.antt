-- ===== src/Examples/Ledger.antt =====
-- Histories of two events.
use perdure.Prelude.{
  ℕ, ◌≡◌, ◌≢◌, ◌↔◌, ◌⊎◌, refl, sym, ap, subst, false, Text, codes, List, [], ◌∷◌, map, ok, err,
  length, arith, text_eq, text_eq_refl,
}
use perdure.Json.{null}
use perdure.Hash.Digest.{sha256_hex_shape}
use perdure.Event.{Event, build, compute_hash, genesis_hash, content}
use perdure.Event.Chain.{
  ChainBreak, broken_link, verify_chain, is_empty, Chained, Link, hashed, BreaksAt, anchor_after,
  verify_chain_iff, verify_chain_break,
}
use perdure.Event.Chain.Tamper.{
  IsHashed, SameBytes, Collide, Confused, LastAt, tamper_evident, strip_hash, stripped_unseen,
}

abbrev first : Event
first = build (codes "run_1") 1 (codes "run.started") null genesis_hash

abbrev second : Event
second = build (codes "run_1") 2 (codes "run.completed") null first.entry_hash

abbrev history : List Event
history = first ∷ second ∷ []

verify_chain_iff_example : (verify_chain history ≡ ok tt) ↔ Chained genesis_hash history
verify_chain_iff_example = verify_chain_iff history

stripped_unseen_example : verify_chain (map strip_hash (second ∷ first ∷ [])) ≡ ok tt
stripped_unseen_example = stripped_unseen (second ∷ first ∷ [])

-- A built event carries a hash, and it is that of its content.
has_hash : (seq : ℕ) (kind prev : Text) → (build (codes "run_1") seq kind null prev).entry_hash ≢ []
unfolding build compute_hash
has_hash seq kind prev e = omega (arith, ap length e, (sha256_hex_shape _).0)

genuine :
    (seq : ℕ) (kind prev : Text)
    → compute_hash (build (codes "run_1") seq kind null prev)
      ≡ (build (codes "run_1") seq kind null prev).entry_hash
unfolding build compute_hash content
genuine seq kind prev = refl

link : (seq : ℕ) (kind prev : Text) → Link prev (build (codes "run_1") seq kind null prev)
link seq kind prev = hashed (has_hash seq kind prev) (genuine seq kind prev) (unfold build in refl)

is_empty-hash : (e : Event) → e.entry_hash ≢ [] → is_empty e.entry_hash ≡ false
is_empty-hash e h = not_empty e.entry_hash h
  where
    not_empty : (t : Text) → t ≢ [] → is_empty t ≡ false
    not_empty [] n = absurd (n refl)
    not_empty (c ∷ t) n = refl

anchor_after-hash : (e : Event) → e.entry_hash ≢ [] → anchor_after e ≡ e.entry_hash
unfolding anchor_after
anchor_after-hash e h = rw (is_empty-hash e h) refl

anchored :
    (seq : ℕ) (kind prev : Text)
    → anchor_after (build (codes "run_1") seq kind null prev)
      ≡ (build (codes "run_1") seq kind null prev).entry_hash
anchored seq kind prev = anchor_after-hash _ (has_hash seq kind prev)

chained : Chained genesis_hash history
chained = (
  link 1 (codes "run.started") genesis_hash,
  (
    subst (λ a. Link a second) (sym (anchored 1 (codes "run.started") genesis_hash))
        (link 2 (codes "run.completed") first.entry_hash),
    tt,
  ),
)

accepted : verify_chain history ≡ ok tt
accepted = (verify_chain_iff history).1 chained

hashes : IsHashed history
hashes = (
  has_hash 1 (codes "run.started") genesis_hash,
  (has_hash 2 (codes "run.completed") first.entry_hash, tt),
)

tamper_evident_example :
    SameBytes history history ⊎ (LastAt Collide history history ⊎ LastAt Confused history history)
tamper_evident_example = tamper_evident history history refl hashes hashes accepted accepted refl

-- A genuine first event that does not name genesis.
abbrev loose : Event
loose = build (codes "run_1") 1 (codes "run.started") null (codes "x")

abbrev break : ChainBreak
break = record { index = 0; seq = 1; reason = broken_link }

refused : verify_chain (loose ∷ []) ≡ err break
unfolding verify_chain
refused =
    rw
      (
        is_empty-hash loose (has_hash 1 (codes "run.started") (codes "x")),
        genuine 1 (codes "run.started") (codes "x"),
        text_eq_refl loose.entry_hash,
      )
      (unfold build text_eq in refl)

verify_chain_break_example : BreaksAt 0 genesis_hash (loose ∷ []) break
verify_chain_break_example = verify_chain_break (loose ∷ []) break refused
