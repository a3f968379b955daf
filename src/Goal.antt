-- ===== src/Goal.antt =====
-- src/goal.rs: the resolved goal contract, its budgets and its authority.
pub mod Budget
use perdure.Prelude.{
  ℕ, zero, suc, ◌*◌, ◌^◌, Text, Bool, true, false, List, [], ◌∷◌, Option, none, some, codes, ltb,
  ◌==◌, if◌then◌else◌, text_eq, contains, strip_prefix, strip_last, trim, any,
}
use perdure.Prelude.Decimal.{parse_nat}
use perdure.Json.{Number}

pub record BudgetSpec : Type 0 where
  pub steps : Option ℕ
  pub retries : Option ℕ
  pub time : Option Text
  pub cost : Option Number

pub record AllowSpec : Type 0 where
  pub effects : List Text
  pub fs_read : List Text
  pub fs_write : List Text
  pub shell : List Text
  pub http_get : List Text
  pub http_post : List Text
  pub tools : List Text

pub record GoalSpec : Type 0 where
  pub name : Text
  pub success : Option Text
  pub budget : BudgetSpec
  pub allow : AllowSpec
  pub require : List Text

abbrev pub default_steps : ℕ
default_steps = 32

abbrev pub default_retries : ℕ
default_retries = 3

-- `Option::unwrap_or`.
abbrev pub unwrap_or {ℓ} : {A : Type ℓ} → Option A → A → A
unwrap_or none d = d
unwrap_or (some a) d = a

unfoldable pub step_budget : GoalSpec → ℕ
step_budget spec = unwrap_or spec.budget.steps default_steps

unfoldable pub retry_budget : GoalSpec → ℕ
retry_budget spec = unwrap_or spec.budget.retries default_retries

-- `str::parse::<u64>`: a leading `+` is taken, and a number that does not fit is an error.
fits_u64 : Option ℕ → Option ℕ
fits_u64 none = none
fits_u64 (some n) = if ltb n (2 ^ 64) then some n else none

unfoldable pub parse_u64 : Text → Option ℕ
unfolding fits_u64
parse_u64 [] = none
parse_u64 (c ∷ s) = if c == b'+' then fits_u64 (parse_nat s) else fits_u64 (parse_nat (c ∷ s))

-- `u64::checked_mul`.
checked_mul : Option ℕ → ℕ → Option ℕ
checked_mul none unit = none
checked_mul (some n) unit = if ltb (n * unit) (2 ^ 64) then some (n * unit) else none

-- The three suffixes in turn.
unit_of : Text → Option (Text × ℕ)
unit_of text = elim (strip_last b'h' text) [
  | some n ↦ some (n, 3_600_000)
  | none ↦ elim (strip_last b'm' text) [
    | some n ↦ some (n, 60_000)
    | none ↦ elim (strip_last b's' text) [ some n ↦ some (n, 1_000) | none ↦ none ]
  ]
]

duration_of : Option (Text × ℕ) → Option ℕ
duration_of none = none
duration_of (some (num, unit)) = checked_mul (parse_u64 (trim num)) unit

duration_ms : Text → Option ℕ
duration_ms text = duration_of (unit_of (trim text))

time_of : Option Text → Option ℕ
time_of none = none
time_of (some text) = duration_ms text

unfoldable pub time_budget_ms : GoalSpec → Option ℕ
unfolding time_of duration_ms duration_of unit_of checked_mul parse_u64
time_budget_ms spec = time_of spec.budget.time

-- The grants. A set of texts is the list that it is made of.
unfoldable pub allowed_effects : GoalSpec → List Text
allowed_effects spec = spec.allow.effects

unfoldable pub allowed_tools : GoalSpec → List Text
allowed_tools spec = spec.allow.tools

unfoldable pub allowed_writes : GoalSpec → Option (List Text)
allowed_writes spec = elim spec.allow.fs_write [ [] ↦ none | g ∷ gs ↦ some (g ∷ gs) ]

unfoldable pub requires_tests_pass : GoalSpec → Bool
requires_tests_pass spec = contains spec.require (codes "tests.pass")

unfoldable pub allowed_commands : GoalSpec → List Text
allowed_commands spec = spec.allow.shell

unfoldable pub command_allowed : GoalSpec → Text → Bool
command_allowed spec cmd = contains spec.allow.shell cmd

-- The conditions `command:<cmd>`, without the prefix.
commands_in : List Text → List Text
commands_in [] = []
commands_in (c ∷ cs) = elim (strip_prefix (codes "command:") c) [
  | some cmd ↦ cmd ∷ commands_in cs
  | none ↦ commands_in cs
]

unfoldable pub required_commands : GoalSpec → List Text
unfolding commands_in
required_commands spec = commands_in spec.require
