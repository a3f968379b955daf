-- ===== src/Shell/Quoting.antt =====
-- Every argument vector can be written as a command: quote each argument.
use perdure.Prelude.{
  ℕ, ◌≡◌, ◌≢◌, refl, ap, ◌∙◌, sym, Text, Bool, true, false, List, [], ◌∷◌, ◌++◌, append_assoc,
  append-nil, ◌==◌, if◌then◌else◌, ◌||◌, is_whitespace, ok, arith, Bool-cases, inl, inr,
}
use perdure.Shell.{quote, backslash, finish, scan, tokenize}

-- A backslash before each quote and each backslash.
unfoldable pub escape : Text → Text
escape [] = []
escape (c ∷ s) =
    let rest = escape s in if c == quote || c == backslash then backslash ∷ c ∷ rest else c ∷ rest

unfoldable pub quoted : Text → Text
unfolding escape
quoted a = quote ∷ (escape a ++ quote ∷ [])

-- The arguments, each in quotes, with a space between two.
unfoldable pub command_line : List Text → Text
unfolding quoted
command_line [] = []
command_line (a ∷ []) = quoted a
command_line (a ∷ b ∷ rest) = quoted a ++ 32 ∷ command_line (b ∷ rest)

module _ (argv : List Text) (cur : Text) (in_word : Bool) where
  scan_escaped :
      (c : ℕ) (rest : Text)
      → scan (backslash ∷ c ∷ rest) argv cur in_word true ≡ scan rest argv (cur ++ c ∷ []) true true
  unfolding scan
  scan_escaped c rest = refl

  scan_close :
      (rest : Text) → scan (quote ∷ rest) argv cur in_word true ≡ scan rest argv cur true false
  unfolding scan
  scan_close [] = refl
  scan_close (c ∷ rest) = refl

  scan_taken :
      (c : ℕ) (rest : Text)
      → c ≢ quote
      → c ≢ backslash
      → scan (c ∷ rest) argv cur in_word true ≡ scan rest argv (cur ++ c ∷ []) true true
  unfolding scan
  scan_taken c [] n m = ground arith
  scan_taken c (d ∷ rest) n m = ground arith

-- Inside quotes, an escaped text is taken as it was before.
scan-escape :
    (a rest : Text) (argv : List Text) (cur : Text) (in_word : Bool)
    → scan (escape a ++ quote ∷ rest) argv cur in_word true ≡ scan rest argv (cur ++ a) true false
unfolding escape
scan-escape [] rest argv cur in_word =
    scan_close argv cur in_word rest ∙ ap (λ t. scan rest argv t true false) (sym (append-nil cur))
scan-escape (c ∷ a) rest argv cur in_word =
    let later : scan (escape a ++ quote ∷ rest) argv (cur ++ c ∷ []) true true
        ≡ scan rest argv (cur ++ c ∷ a) true false =
      scan-escape a rest argv (cur ++ c ∷ []) true
      ∙ ap (λ t. scan rest argv t true false) (append_assoc cur (c ∷ []) a) in
    elim (Bool-cases (c == quote || c == backslash)) [
      | inl special ↦
          rw special (scan_escaped argv cur in_word c (escape a ++ quote ∷ rest) ∙ later)
      | inr plain ↦ rw plain (
          scan_taken argv cur in_word c (escape a ++ quote ∷ rest) (ground arith) (ground arith)
          ∙ later)
    ]

scan_open :
    (rest : Text) (argv : List Text) (cur : Text) (in_word : Bool)
    → scan (quote ∷ rest) argv cur in_word false ≡ scan rest argv cur true true
unfolding scan
scan_open rest argv cur in_word = refl

pub scan_space :
    (rest : Text) (argv : List Text) (cur : Text)
    → scan (32 ∷ rest) argv cur true false ≡ scan rest (argv ++ cur ∷ []) [] false false
unfolding scan is_whitespace
scan_space rest argv cur = refl

scan-quoted :
    (a rest : Text) (argv : List Text)
    → scan (quoted a ++ rest) argv [] false false ≡ scan rest argv a true false
unfolding quoted
scan-quoted a rest argv =
    ap (λ t. scan (quote ∷ t) argv [] false false) (append_assoc (escape a) (quote ∷ []) rest)
    ∙ scan_open (escape a ++ quote ∷ rest) argv [] false
    ∙ scan-escape a rest argv [] true

scan-command_line :
    (a : Text) (rest argv : List Text)
    → scan (command_line (a ∷ rest)) argv [] false false ≡ ok (argv ++ a ∷ rest)
unfolding command_line
scan-command_line a [] argv =
    ap (λ t. scan t argv [] false false) (sym (append-nil (quoted a)))
    ∙ scan-quoted a [] argv
    ∙ (unfold scan finish in refl)
scan-command_line a (b ∷ rest) argv =
    scan-quoted a (32 ∷ command_line (b ∷ rest)) argv
    ∙ scan_space (command_line (b ∷ rest)) argv a
    ∙ scan-command_line b rest (argv ++ a ∷ [])
    ∙ ap ok (append_assoc argv (a ∷ []) (b ∷ rest))

-- Each vector of at least one argument, whatever characters it holds, quotes, backslashes, white
-- space and empty arguments included, is what some command is split into: each argument in quotes,
-- with `\` before a quote or a backslash.
pub tokenize-command_line :
    (a : Text) (rest : List Text) → tokenize (command_line (a ∷ rest)) ≡ ok (a ∷ rest)
unfolding tokenize
tokenize-command_line a rest = scan-command_line a rest []
