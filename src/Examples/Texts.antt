-- ===== src/Examples/Texts.antt =====
-- Commands, durations, hashes and encodings.
use perdure.Prelude.{
  ℕ, ◌≡◌, refl, Text, codes, true, none, some, List, [], ◌∷◌, ◌++◌, concat, ok, text_ltb, text_eq,
  text_ne, is_whitespace, arith,
}
use perdure.Prelude.Decimal.{print_nat}
use perdure.Prelude.TextOrder.{Reorder, swap}
use perdure.Hash.{digest}
use perdure.Hash.Padding.{reference}
use perdure.Hash.Streaming.{digest-eq-reference}
use perdure.Json.{Value, number, nat, string, json}
use perdure.Store.Canonical.{canonical_bytes, canonical_bytes_collide, spliced}
use perdure.Shell.{tokenize}
use perdure.Shell.Quoting.{command_line, tokenize-command_line}
use perdure.Shell.Words.{IsWord}
use perdure.Goal.{GoalSpec}
use perdure.Goal.Budget.{minutes, letter}

abbrev parts : List (List ℕ)
parts = (97 ∷ []) ∷ [] ∷ (98 ∷ 99 ∷ []) ∷ []

digest-eq-reference_example : digest parts ≡ reference (concat parts)
digest-eq-reference_example = digest-eq-reference parts

abbrev fields : List (Text × Value)
fields = (codes "a", number (nat 1)) ∷ (codes "b", string (codes "x")) ∷ []

abbrev swapped : List (Text × Value)
swapped = (codes "b", string (codes "x")) ∷ (codes "a", number (nat 1)) ∷ []

reordered : Reorder fields swapped
reordered =
    swap (codes "a", number (nat 1)) (codes "b", string (codes "x")) []
      (text_ne (codes "a") (codes "b") (unfold text_eq in refl))

in_order : text_ltb (codes "a") (codes "b") ≡ true
unfolding text_ltb
in_order = refl

canonical_bytes_collide_example :
    canonical_bytes (json ((codes "a", string (spliced (codes "x") (codes "b") (codes "y"))) ∷ []))
    ≡ canonical_bytes
        (json ((codes "a", string (codes "x")) ∷ (codes "b", string (codes "y")) ∷ []))
canonical_bytes_collide_example =
    canonical_bytes_collide (codes "a") (codes "x") (codes "b") (codes "y") in_order

tokenize-command_line_example :
    tokenize (command_line (codes "sh" ∷ codes "a b\"c" ∷ []))
    ≡ ok (codes "sh" ∷ codes "a b\"c" ∷ [])
tokenize-command_line_example = tokenize-command_line (codes "sh") (codes "a b\"c" ∷ [])

go_IsWord : IsWord (codes "go")
unfolding is_whitespace
go_IsWord = ((omega arith, refl), ((omega arith, refl), tt))

abbrev timed : GoalSpec
timed = record {
  name = codes "g";
  success = none;
  budget = record {
    steps = none;
    retries = none;
    time = some (print_nat 20 ++ letter minutes ∷ []);
    cost = none;
  };
  allow = record {
    effects = [];
    fs_read = [];
    fs_write = [];
    shell = [];
    http_get = [];
    http_post = [];
    tools = [];
  };
  require = [];
}
