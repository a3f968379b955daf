-- ===== src/Shell.antt =====
-- `tokenize` of src/shell.rs: how a command string becomes an argument vector.
pub mod Quoting
pub mod Words
use perdure.Prelude.{
  ℕ, Text, Bool, true, false, List, [], ◌∷◌, ◌++◌, ◌==◌, if◌then◌else◌, is_whitespace, Result, ok,
  err,
}

pub data TokenError : Type 0 where
  unterminated_quote : TokenError
  empty_command : TokenError

abbrev pub quote : ℕ
quote = b'"'

abbrev pub backslash : ℕ
backslash = 92

-- What stands behind the loop.
finish : List Text → Text → Bool → Bool → Result (List Text) TokenError
finish argv cur in_word true = err unterminated_quote
finish argv cur true false = ok (argv ++ cur ∷ [])
finish [] cur false false = err empty_command
finish (a ∷ argv) cur false false = ok (a ∷ argv)

-- The loop over the characters: `argv`, `cur`, `in_word`, `in_quote` are its variables.
pub scan : Text → List Text → Text → Bool → Bool → Result (List Text) TokenError
unfolding finish
scan [] argv cur in_word in_quote = finish argv cur in_word in_quote
scan (c ∷ []) argv cur in_word true =
    if c == backslash
    then finish argv (cur ++ backslash ∷ []) true true
    else if c == quote
    then finish argv cur true false
    else finish argv (cur ++ c ∷ []) true true
scan (c ∷ next ∷ rest) argv cur in_word true =
    let escaped = scan rest argv (cur ++ next ∷ []) true true in
    let closed = scan (next ∷ rest) argv cur true false in
    let taken = scan (next ∷ rest) argv (cur ++ c ∷ []) true true in
    if c == backslash then escaped else if c == quote then closed else taken
scan (c ∷ rest) argv cur in_word false =
    let opened = scan rest argv cur true true in
    let pushed = scan rest (argv ++ cur ∷ []) [] false false in
    let skipped = scan rest argv cur false false in
    let taken = scan rest argv (cur ++ c ∷ []) true false in
    if c == quote
    then opened
    else if is_whitespace c
    then (if in_word then pushed else skipped)
    else taken

unfoldable pub tokenize : Text → Result (List Text) TokenError
unfolding scan
tokenize command = scan command [] [] false false
