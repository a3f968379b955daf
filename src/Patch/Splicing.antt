-- ===== src/Patch/Splicing.antt =====
-- src/patch.rs: applying a file's edits from the last to the first is replacing them all at once.
use perdure.Prelude.{
  ℕ, zero, suc, ◌-◌, ◌≤◌, ◌<◌, ◌≡◌, refl, sym, ap, ap₂, ◌∙◌, arith, leb, ltb, Text, Bool, true,
  false, ◌||◌, List, [], ◌∷◌, ◌++◌, append_assoc, Result, ok, err, take, drop, length,
  length-append, length-take, take-append-drop, All,
}
use perdure.Patch.{
  Bytes, Edit, insert_desc, sort_desc, replace_range, out_of_bounds, apply_one, apply_sorted,
  apply_file,
}

-- The text from `pos` on, with every edit in the place of its span: the edits in ascending order.
unfoldable pub spliced : ℕ → Bytes → List Edit → Bytes
spliced pos text [] = drop pos text
spliced pos text (e ∷ es) =
    take (e.start - pos) (drop pos text) ++ (e.replacement ++ spliced e.end text es)

-- The edits ascend, do not overlap and stand in the text from `pos` on.
unfoldable pub Ascending : ℕ → ℕ → List Edit → Type 0
Ascending size pos [] = pos ≤ size
Ascending size pos (e ∷ es) = (pos ≤ e.start) × (e.start ≤ e.end) × Ascending size e.end es

Ascending-le : (size pos : ℕ) (es : List Edit) → Ascending size pos es → pos ≤ size
unfolding Ascending
Ascending-le size pos [] h = h
Ascending-le size pos (e ∷ es) h =
    let later = Ascending-le size e.end es h.2 in omega (arith, h.0, h.1, later)

take-split : (a b : ℕ) (t : Bytes) → a ≤ b → take b t ≡ take a t ++ take (b - a) (drop a t)
take-split zero b t h = ap (λ n. take n t) (omega arith)
take-split (suc a) zero t h = absurd (omega arith)
take-split (suc a) (suc b) [] h = take_nil (suc b - suc a)
  where
    take_nil : (n : ℕ) → ◌≡◌ {A = Bytes} [] (take n [])
    take_nil zero = refl
    take_nil (suc n) = refl
take-split (suc a) (suc b) (x ∷ t) h =
    let e : suc b - suc a ≡ b - a = omega arith in
    rw e (ap (λ l. x ∷ l) (take-split a b t (omega arith)))

take_prefix : (a b : ℕ) (t s : Bytes) → a ≤ b → b ≤ length t → take a (take b t ++ s) ≡ take a t
take_prefix zero b t s h k = refl
take_prefix (suc a) zero t s h k = absurd (omega arith)
take_prefix (suc a) (suc b) [] s h k = absurd (omega arith)
take_prefix (suc a) (suc b) (x ∷ t) s h k =
    ap (λ l. x ∷ l) (take_prefix a b t s (omega arith) (omega arith))

drop_prefix : (b : ℕ) (t s : Bytes) → b ≤ length t → drop b (take b t ++ s) ≡ s
drop_prefix zero t s k = refl
drop_prefix (suc b) [] s k = absurd (omega arith)
drop_prefix (suc b) (x ∷ t) s k = drop_prefix b t s (omega arith)

-- The list with one more at its end.
apply_then : List Edit → Edit → List Edit
apply_then es e = es ++ e ∷ []

and_last : Edit → Result Bytes Text → Result Bytes Text
unfolding apply_sorted
and_last e (ok buf) = apply_sorted (e ∷ []) buf
and_last e (err x) = err x

apply_one-last :
    (b : Bool) (f e : Edit) (buf : Bytes) (k k' : Bytes → Result Bytes Text)
    → ((x : Bytes) → k x ≡ and_last e (k' x))
    → apply_one b f buf k ≡ and_last e (apply_one b f buf k')
unfolding apply_one and_last
apply_one-last true f e buf k k' h = refl
apply_one-last false f e buf k k' h = h (replace_range f buf)

apply-snoc :
    (es : List Edit) (e : Edit) (buf : Bytes)
    → apply_sorted (es ++ e ∷ []) buf ≡ and_last e (apply_sorted es buf)
unfolding apply_sorted and_last
apply-snoc [] e buf = refl
apply-snoc (f ∷ es) e buf =
    apply_one-last (out_of_bounds f buf) f e buf (apply_sorted (es ++ e ∷ [])) (apply_sorted es)
      (λ x. apply-snoc es e x)

descending : List Edit → List Edit
descending [] = []
descending (e ∷ es) = descending es ++ e ∷ []

-- One edit, on a buffer that is the text up to the edit's end.
apply_one-within :
    (e : Edit) (pos : ℕ) (text s : Bytes)
    → pos ≤ e.start
    → e.start ≤ e.end
    → e.end ≤ length text
    → and_last e (ok (take e.end text ++ s))
      ≡ ok (take pos text ++ (take (e.start - pos) (drop pos text) ++ (e.replacement ++ s)))
unfolding and_last apply_sorted out_of_bounds
apply_one-within e pos text s p q r =
    let buf = take e.end text ++ s in
    let size : e.end ≤ length buf =
      omega (arith, length-append (take e.end text) s, length-take e.end text) in
    let inside : (ltb (length buf) e.start || ltb (length buf) e.end || ltb e.end e.start) ≡ false =
      ground arith in
    let front = take_prefix e.start e.end text s q r ∙ take-split pos e.start text p in
    rw inside (
      unfold apply_one apply_sorted replace_range in
      ap ok (
        ap₂ (λ a b. a ++ (e.replacement ++ b)) front (drop_prefix e.end text s r)
        ∙ append_assoc (take pos text) (take (e.start - pos) (drop pos text)) (e.replacement ++ s)))

apply-descending :
    (es : List Edit) (pos : ℕ) (text : Bytes)
    → Ascending (length text) pos es
    → apply_sorted (descending es) text ≡ ok (take pos text ++ spliced pos text es)
unfolding Ascending spliced descending
apply-descending [] pos text h = unfold apply_sorted in ap ok (sym (take-append-drop pos text))
apply-descending (e ∷ es) pos text h =
    apply-snoc (descending es) e text
    ∙ ap (and_last e) (apply-descending es e.end text h.2)
    ∙ apply_one-within e pos text (spliced e.end text es) h.0 h.1
        (Ascending-le (length text) e.end es h.2)

-- The starts strictly increase.
unfoldable pub Increasing : List Edit → Type 0
Increasing [] = Unit
Increasing (e ∷ es) = All (λ (f : Edit). e.start < f.start) es × Increasing es

All-snoc :
    (n : ℕ) (es : List Edit) (e : Edit)
    → All (λ (f : Edit). n < f.start) es
    → n < e.start
    → All (λ (f : Edit). n < f.start) (es ++ e ∷ [])
All-snoc n [] e h k = (k, tt)
All-snoc n (f ∷ es) e h k = (h.0, All-snoc n es e h.1 k)

All-descending :
    (n : ℕ) (es : List Edit)
    → All (λ (f : Edit). n < f.start) es
    → All (λ (f : Edit). n < f.start) (descending es)
unfolding descending
All-descending n [] h = tt
All-descending n (e ∷ es) h = All-snoc n (descending es) e (All-descending n es h.1) h.0

insert-last :
    (e : Edit) (es : List Edit)
    → All (λ (f : Edit). e.start < f.start) es
    → insert_desc e es ≡ es ++ e ∷ []
unfolding insert_desc
insert-last e [] h = refl
insert-last e (f ∷ es) h =
    let after : leb f.start e.start ≡ false = ground arith in
    rw after (ap (λ l. f ∷ l) (insert-last e es h.1))

sort-Increasing : (es : List Edit) → Increasing es → sort_desc es ≡ descending es
unfolding sort_desc descending Increasing
sort-Increasing [] h = refl
sort-Increasing (e ∷ es) h =
    ap (insert_desc e) (sort-Increasing es h.1)
    ∙ insert-last e (descending es) (All-descending e.start es h.0)

-- Applying the edits of a file from the last to the first gives the text with every span replaced at
-- once, where the edits are listed by increasing start, do not overlap and stand in the text.
pub apply_file-eq-spliced :
    (es : List Edit) (text : Bytes)
    → Increasing es
    → Ascending (length text) 0 es
    → apply_file es text ≡ ok (spliced 0 text es)
unfolding apply_file
apply_file-eq-spliced es text inc asc =
    ap (λ l. apply_sorted l text) (sort-Increasing es inc) ∙ apply-descending es 0 text asc
