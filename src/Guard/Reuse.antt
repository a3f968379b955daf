-- ===== src/Guard/Reuse.antt =====
-- src/guard.rs: without `--rerun` a command that has a receipt for a tree is not run on it again.
use perdure.Prelude.{
  ℕ, ◌≡◌, refl, sym, ap, ◌∙◌, subst, Text, text_eq, text_eq_sound, text_eq_refl, true, false,
  Option, none, some, [], ◌∷◌, codes, ◌==◌, Bool-cases, inl, inr, Result, ok, err, text_ltb,
}
use perdure.Prelude.Map
use perdure.Json.{Value, json, string}
use perdure.Store.Identity.{idempotency_key}
use perdure.Run.{Receipt, Receipts, save_receipt, find_receipt_by_key}
use perdure.Guard.{Session, append}
use perdure.Guard.Verify.{
  Shell, ShellRun, got, obtain, reuse_or_run, ran, crash_now, key_input, key_of, action_of,
  record_receipt, receipt_for, command_event, peek_seq,
}

-- What is found under a key has that key.
find_key :
    (key : Text) (rs : Receipts) (r : Receipt)
    → find_receipt_by_key key rs ≡ some r
    → r.idempotency_key ≡ key
unfolding find_receipt_by_key
find_key key [] r h = absurd (cc h)
find_key key ((id, x) ∷ rs) r h = elim (Bool-cases (text_eq x.idempotency_key key)) [
  | inl e ↦
      let found : some x ≡ some r = rw e at h in
      let same : x ≡ r = cc found in
      ap (λ (y : Receipt). y.idempotency_key) (sym same) ∙ text_eq_sound x.idempotency_key key e
  | inr e ↦ find_key key rs r (rw e at h)
]

-- A saved receipt is found, or another of the same key.
find_saved :
    (r : Receipt) (rs : Receipts)
    → (x : Receipt) × (find_receipt_by_key r.idempotency_key (save_receipt r rs) ≡ some x)
unfolding find_receipt_by_key save_receipt Map.insert
find_saved r [] = (r, rw (text_eq_refl r.idempotency_key) refl)
find_saved r ((id, x) ∷ rs) = elim (Bool-cases (text_eq id r.receipt_id)) [
  | inl e ↦ (r, rw (e, text_eq_refl r.idempotency_key) refl)
  | inr e ↦ elim (Bool-cases (text_ltb r.receipt_id id)) [
    | inl l ↦ (r, rw (e, l, text_eq_refl r.idempotency_key) refl)
    | inr l ↦ elim (Bool-cases (text_eq x.idempotency_key r.idempotency_key)) [
      | inl k ↦ (x, rw (e, l, k) refl)
      | inr k ↦ let (y, p) = find_saved r rs in (y, rw (e, l, k) p)
    ]
  ]
]

-- A save under another key that replaces no receipt of this one changes nothing that is found.
find-save_other :
    (key : Text) (y : Receipt) (rs : Receipts)
    → text_eq y.idempotency_key key ≡ false
    → ((z : Receipt) → Map.lookup y.receipt_id rs ≡ some z → text_eq z.idempotency_key key ≡ false)
    → find_receipt_by_key key (save_receipt y rs) ≡ find_receipt_by_key key rs
unfolding find_receipt_by_key save_receipt Map.insert Map.lookup
find-save_other key y [] ny apart = rw ny refl
find-save_other key y ((id, x) ∷ rs) ny apart = elim (Bool-cases (text_eq id y.receipt_id)) [
  | inl e ↦ rw (e, ny, apart x (rw e refl)) refl
  | inr e ↦ elim (Bool-cases (text_ltb y.receipt_id id)) [
    | inl l ↦ rw (e, l, ny) refl
    | inr l ↦ elim (Bool-cases (text_eq x.idempotency_key key)) [
      | inl k ↦ rw (e, l, k) refl
      | inr k ↦ rw (e, l, k) (find-save_other key y rs ny (λ z h. apart z (rw e h)))
    ]
  ]
]

Held : Text → Receipts → Type 0
Held key rs = (x : Receipt) × (find_receipt_by_key key rs ≡ some x)

-- A save that gives the file of a receipt of the key to no receipt of another key.
abbrev pub IsApart : Text → Receipt → Receipts → Type 0
IsApart key y rs =
    (z : Receipt)
    → Map.lookup y.receipt_id rs ≡ some z
    → z.idempotency_key ≡ key
    → y.idempotency_key ≡ key

Held-save :
    (key : Text) (y : Receipt) (rs : Receipts)
    → IsApart key y rs
    → Held key rs
    → Held key (save_receipt y rs)
unfolding Held
Held-save key y rs apart (x, f) = elim (Bool-cases (text_eq y.idempotency_key key)) [
  | inl e ↦ subst (λ k. Held k (save_receipt y rs)) (text_eq_sound _ _ e) (find_saved y rs)
  | inr e ↦ (x, find-save_other key y rs e (other e) ∙ f)
]
  where
    other :
        text_eq y.idempotency_key key ≡ false
        → (z : Receipt) → Map.lookup y.receipt_id rs ≡ some z
        → text_eq z.idempotency_key key ≡ false
    other e z h = elim (Bool-cases (text_eq z.idempotency_key key)) [
      | inl k ↦
          let one = apart z h (text_eq_sound _ _ k) in
          let full : text_eq y.idempotency_key key ≡ true = rw one (text_eq_refl key) in
          cc (e, full)
      | inr k ↦ k
    ]

-- What may happen in a run behind a session: anything that leaves its receipts and its id, and saves
-- of receipts, none of which gives the file of a receipt of the key to another key.
pub data Since (key : Text) (s : Session) : Session → Type 0 where
  now : Since key s s
  changed :
      {t : Session} (u : Session)
      → Since key s t
      → u.receipts ≡ t.receipts
      → u.state.run_id ≡ t.state.run_id
      → Since key s u
  saved :
      {t : Session} (u : Session) (y : Receipt)
      → Since key s t
      → u.receipts ≡ save_receipt y t.receipts
      → u.state.run_id ≡ t.state.run_id
      → IsApart key y t.receipts
      → Since key s u

Since-Held :
    {key : Text} {s t : Session}
    → Since key s t
    → Held key s.receipts
    → Held key t.receipts × (t.state.run_id ≡ s.state.run_id)
Since-Held now h = (h, refl)
Since-Held {key} (changed u way same id) h =
    let (held, run) = Since-Held way h in (subst (Held key) (sym same) held, id ∙ run)
Since-Held {key} (saved u y way same id apart) h =
    let (held, run) = Since-Held way h in
    (subst (Held key) (sym same) (Held-save key y _ apart held), id ∙ run)

-- The session behind a receipt: it has a receipt of the key, and still the run's id.
Kept : Session → Text → Session → Type 0
Kept s key s' = Held key s'.receipts × (s'.state.run_id ≡ s.state.run_id)

got_inj : {s s' : Session} {r r' : Receipt} → got s r ≡ got s' r' → s ≡ s'
got_inj h = cc h

crash_now-got :
    (crash : Option ℕ) (r : Receipt) {s s' : Session} {r' : Receipt}
    → crash_now crash s r ≡ got s' r'
    → s ≡ s'
unfolding crash_now
crash_now-got none r h = got_inj h
crash_now-got (some n) r {s} h = elim (Bool-cases (n == s.state.receipts_created)) [
  | inl e ↦ let h' = rw e at h in absurd (cc h')
  | inr e ↦ got_inj (rw e at h)
]

ran-Kept :
    (crash : Option ℕ) (s s' : Session) (cmd key : Text) (input : Value) (r : Receipt)
    (o : Result ShellRun Text)
    → ran crash s cmd input key o ≡ got s' r
    → Kept s key s'
unfolding ran Held
ran-Kept crash s s' cmd key input r (err e) h = absurd (cc h)
ran-Kept crash s s' cmd key input r (ok res) h =
    let x = receipt_for s cmd input key res in
    let saved = record_receipt s cmd x res.tree in
    let kept : Kept s key saved =
      unfold Kept record_receipt append receipt_for in (find_saved x s.receipts, refl) in
    subst (Kept s key) (crash_now-got crash x h) kept

reuse_or_run-Kept :
    (shell : Shell) (crash : Option ℕ) (s s' : Session) (cmd key : Text) (input : Value)
    (r : Receipt) (o : Option Receipt)
    → find_receipt_by_key key s.receipts ≡ o
    → reuse_or_run shell crash s cmd input key o ≡ got s' r
    → Kept s key s'
unfolding reuse_or_run Held
reuse_or_run-Kept shell crash s s' cmd key input r (some x) f h =
    subst (Kept s key) (got_inj h) (unfold Kept append in ((x, f), refl))
reuse_or_run-Kept shell crash s s' cmd key input r none f h =
    let started = append s (codes "shell.executed") (command_event cmd) in
    unfold Kept append in
    ran-Kept crash started s' cmd key input r (shell (peek_seq started) key cmd s.tree) h

-- Once a command yielded a receipt for a tree, without `--rerun`, no later turn of it without `--rerun`
-- on the same tree runs it: whatever happened since (other than a receipt of another key taking the
-- file of this one), the turn takes a receipt of the same key, and what it leaves does not depend on the
-- shell.
pub runs_once :
    (shell : Shell) (crash : Option ℕ) (digest cmd : Text) (s s' t : Session) (r : Receipt)
    → obtain shell crash false digest s cmd ≡ got s' r
    → Since (key_of s (key_input false digest s.receipts cmd) cmd) s' t
    → (t' : Session) × (again : Receipt) × (again.idempotency_key
        ≡ key_of s (key_input false digest s.receipts cmd) cmd)
      × (t'.receipts ≡ t.receipts)
      × (((shell' : Shell) (crash' : Option ℕ)
          → obtain shell' crash' false digest t cmd ≡ got t' again))
unfolding obtain Kept Held
runs_once shell crash digest cmd s s' t r h since =
    let key = key_of s (key_input false digest s.receipts cmd) cmd in
    let input = key_input false digest s.receipts cmd in
    let kept : Kept s key s' =
      reuse_or_run-Kept shell crash s s' cmd key input r (find_receipt_by_key key s.receipts) refl
        h in
    let (held, same) = kept in
    let ((x, f), run) = Since-Held since held in
    let one_key : key_of t (key_input false digest t.receipts cmd) cmd ≡ key =
      unfold key_of key_input in
      ap (λ i. idempotency_key i (action_of cmd) (codes "shell.run") input) (run ∙ same) in
    (
      append t (codes "receipt.reused")
          (json ((codes "receipt_id", string x.receipt_id) ∷ (codes "command", string cmd) ∷ [])),
      x,
      find_key key t.receipts x f,
      unfold append in refl,
      λ shell' crash'. rw (one_key, f) (unfold reuse_or_run in refl),
    )
