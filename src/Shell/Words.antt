-- ===== src/Shell/Words.antt =====
-- Commands without quotes, and what `tokenize` never returns.
use perdure.Prelude.{
  ℕ, ◌≡◌, ◌≢◌, refl, ap, ◌∙◌, sym, Text, Bool, true, false, List, [], ◌∷◌, ◌++◌, append_assoc,
  append-nil, is_whitespace, ok, arith, All,
}
use perdure.Shell.{quote, backslash, finish, scan, tokenize}
use perdure.Shell.Quoting.{scan_space}

-- An ordinary character of a word: neither a quote nor white space. A backslash and the operators
-- of a shell are ordinary.
abbrev pub IsPlain : ℕ → Type 0
IsPlain c = (c ≢ quote) × (is_whitespace c ≡ false)

-- A word: at least one character, each ordinary.
abbrev pub IsWord : Text → Type 0
IsWord [] = ⊥
IsWord (c ∷ s) = All IsPlain (c ∷ s)

unfoldable pub spaced : List Text → Text
spaced [] = []
spaced (a ∷ []) = a
spaced (a ∷ b ∷ rest) = a ++ 32 ∷ spaced (b ∷ rest)

scan_plain :
    (c : ℕ) (rest : Text) (argv : List Text) (cur : Text) (in_word : Bool)
    → IsPlain c
    → scan (c ∷ rest) argv cur in_word false ≡ scan rest argv (cur ++ c ∷ []) true false
unfolding scan
scan_plain c rest argv cur in_word p = rw (p.1) (ground (arith, p.0))

scan-word :
    (w rest : Text) (argv : List Text) (cur : Text)
    → All IsPlain w
    → scan (w ++ rest) argv cur true false ≡ scan rest argv (cur ++ w) true false
scan-word [] rest argv cur p = ap (λ t. scan rest argv t true false) (sym (append-nil cur))
scan-word (c ∷ w) rest argv cur p =
    scan_plain c (w ++ rest) argv cur true p.0
    ∙ scan-word w rest argv (cur ++ c ∷ []) p.1
    ∙ ap (λ t. scan rest argv t true false) (append_assoc cur (c ∷ []) w)

scan-first :
    (a rest : Text) (argv : List Text)
    → IsWord a
    → scan (a ++ rest) argv [] false false ≡ scan rest argv a true false
scan-first [] rest argv h = absurd h
scan-first (c ∷ w) rest argv h =
    scan_plain c (w ++ rest) argv [] false h.0 ∙ scan-word w rest argv (c ∷ []) h.1

scan-spaced :
    (a : Text) (rest argv : List Text)
    → IsWord a
    → All IsWord rest
    → scan (spaced (a ∷ rest)) argv [] false false ≡ ok (argv ++ a ∷ rest)
unfolding spaced
scan-spaced a [] argv w ws =
    ap (λ t. scan t argv [] false false) (sym (append-nil a))
    ∙ scan-first a [] argv w
    ∙ (unfold scan finish in refl)
scan-spaced a (b ∷ rest) argv w ws =
    scan-first a (32 ∷ spaced (b ∷ rest)) argv w
    ∙ scan_space (spaced (b ∷ rest)) argv a
    ∙ scan-spaced b rest (argv ++ a ∷ []) ws.0 ws.1
    ∙ ap ok (append_assoc argv (a ∷ []) (b ∷ rest))

-- A command of words with one space between two is split into the words, as they are: backslashes
-- and the operators `|`, `&`, `;`, `>`, `$`, `*` have no effect.
pub tokenize-spaced :
    (a : Text) (rest : List Text)
    → IsWord a
    → All IsWord rest
    → tokenize (spaced (a ∷ rest)) ≡ ok (a ∷ rest)
unfolding tokenize
tokenize-spaced a rest w ws = scan-spaced a rest [] w ws

finish-ne-nil :
    (argv : List Text) (cur : Text) (in_word in_quote : Bool)
    → finish argv cur in_word in_quote ≢ ok []
unfolding finish
finish-ne-nil argv cur in_word true h = cc
finish-ne-nil [] cur true false h = cc
finish-ne-nil (a ∷ argv) cur true false h = cc
finish-ne-nil [] cur false false h = cc
finish-ne-nil (a ∷ argv) cur false false h = cc

scan-ne-nil :
    (t : Text) (argv : List Text) (cur : Text) (in_word in_quote : Bool)
    → scan t argv cur in_word in_quote ≢ ok []
unfolding scan
scan-ne-nil [] argv cur in_word in_quote h = finish-ne-nil argv cur in_word in_quote h
scan-ne-nil (c ∷ []) argv cur in_word true h = ground (
  arith,
  finish-ne-nil argv (cur ++ backslash ∷ []) true true,
  finish-ne-nil argv cur true false,
  finish-ne-nil argv (cur ++ c ∷ []) true true,
)
scan-ne-nil (c ∷ next ∷ rest) argv cur in_word true h = ground (
  arith,
  scan-ne-nil rest argv (cur ++ next ∷ []) true true,
  scan-ne-nil (next ∷ rest) argv cur true false,
  scan-ne-nil (next ∷ rest) argv (cur ++ c ∷ []) true true,
)
scan-ne-nil (c ∷ rest) argv cur in_word false h = ground (
  arith,
  scan-ne-nil rest argv cur true true,
  scan-ne-nil rest (argv ++ cur ∷ []) [] false false,
  scan-ne-nil rest argv cur false false,
  scan-ne-nil rest argv (cur ++ c ∷ []) true false,
)

-- No command is split into the empty vector, so the program to run is always there.
pub tokenize-ne-nil : (command : Text) → tokenize command ≢ ok []
unfolding tokenize
tokenize-ne-nil command h = scan-ne-nil command [] [] false false h
