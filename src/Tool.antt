-- ===== src/Tool.antt =====
-- src/tool.rs: the tools, which of them are real, and what a goal grants to them.
pub mod Authority
use perdure.Prelude.{
  ℕ, ltb, leb, ◌==◌, Text, codes, text_eq, contains, starts_with, split_char, Bool, true, false,
  not, ◌&&◌, ◌||◌, Option, none, some, List, [], ◌∷◌, ◌++◌, any, if◌then◌else◌, Result, ok, err,
  ◌>>=◌, ◌>>◌,
}
use perdure.Goal.{GoalSpec, AllowSpec, command_allowed, allowed_commands, allowed_tools}
use perdure.Json.{Value, get, as_str, as_u64}
use perdure.Http.{UrlError, HeaderError, url_allowed, check_headers}
use perdure.Glob.{slash}

abbrev pub default_timeout_ms : ℕ
default_timeout_ms = 120_000

abbrev pub max_timeout_ms : ℕ
max_timeout_ms = 600_000

abbrev pub known_tools : List Text
known_tools =
    codes "fake.stripe.find_duplicate"
    ∷ codes "fake.stripe.refund"
    ∷ codes "fake.email.send"
    ∷ codes "fake.github.create_pr"
    ∷ codes "fake.zendesk.comment"
    ∷ codes "fake.stripe.list_disputes"
    ∷ codes "fake.ci.deploy"
    ∷ codes "shell.run"
    ∷ codes "http.get"
    ∷ codes "http.post"
    ∷ []

unfoldable pub is_known : Text → Bool
is_known tool = contains known_tools tool

unfoldable pub is_real : Text → Bool
is_real tool = text_eq tool (codes "shell.run") || starts_with (codes "http.") tool

unfoldable pub is_empty : List Text → Bool
is_empty [] = true
is_empty (_ ∷ _) = false

unfoldable pub tool_granted : GoalSpec → Text → Bool
tool_granted spec tool =
    if text_eq tool (codes "shell.run")
    then not (is_empty (allowed_commands spec))
    else if text_eq tool (codes "http.get")
    then not (is_empty spec.allow.http_get)
    else if text_eq tool (codes "http.post")
    then not (is_empty spec.allow.http_post)
    else contains (allowed_tools spec) tool

-- The refusals.
pub data Refusal : Type 0 where
  not_a_text : Text → Refusal
  command_not_granted : Text → Refusal
  absolute_cwd : Text → Refusal
  parent_cwd : Text → Refusal
  timeout_not_a_number : Refusal
  timeout_out_of_range : Refusal
  url_refused : UrlError → Refusal
  headers_refused : HeaderError → Refusal
  not_real : Text → Refusal

-- A Boolean guard and the two steps of src/http.rs, as steps of `authorize`.
unfoldable pub require : Bool → Refusal → Result (Unit {0}) Refusal
require true e = ok tt
require false e = err e

unfoldable pub url_step : Result (Unit {0}) UrlError → Result (Unit {0}) Refusal
url_step (ok u) = ok u
url_step (err e) = err (url_refused e)

unfoldable pub headers_step : Result (Unit {0}) HeaderError → Result (Unit {0}) Refusal
headers_step (ok u) = ok u
headers_step (err e) = err (headers_refused e)

unfoldable pub text_or : Option Text → Text → Result Text Refusal
text_or none field = err (not_a_text field)
text_or (some s) field = ok s

-- `and_then(|v| v.as_str())`.
unfoldable pub str_of : Option Value → Option Text
str_of none = none
str_of (some v) = as_str v

unfoldable pub required_str : Value → Text → Result Text Refusal
required_str input field = text_or (str_of (get input field)) field

-- The components of a path, between its slashes.
unfoldable pub components : Text → Text → List Text
components cur [] = cur ∷ []
components cur (c ∷ s) =
    let ended = components [] s in
    let longer = components (cur ++ c ∷ []) s in if c == slash then cur ∷ ended else longer

unfoldable pub has_parent : Text → Bool
has_parent cwd = contains (components [] cwd) (codes "..")

-- `check_cwd`, on a platform where `/` alone separates and a path is absolute if it begins so.
unfoldable pub check_cwd : Text → Result (Unit {0}) Refusal
check_cwd cwd =
    require (not (starts_with (slash ∷ []) cwd)) (absolute_cwd cwd)
    >> require (not (has_parent cwd)) (parent_cwd cwd)

unfoldable pub check_cwd_of : Option Value → Result (Unit {0}) Refusal
check_cwd_of none = ok tt
check_cwd_of (some v) = text_or (as_str v) (codes "cwd") >>= check_cwd

unfoldable pub timeout_in_range : Option ℕ → Result ℕ Refusal
timeout_in_range none = err timeout_not_a_number
timeout_in_range (some t) =
    if t == 0 || ltb max_timeout_ms t then err timeout_out_of_range else ok t

unfoldable pub timeout_of : Option Value → Result ℕ Refusal
timeout_of none = ok default_timeout_ms
timeout_of (some v) = timeout_in_range (as_u64 v)

unfoldable pub parse_timeout : Value → Result ℕ Refusal
parse_timeout input = timeout_of (get input (codes "timeout_ms"))

-- Whether the timeout can be read.
unfoldable pub timeout_step : Value → Result (Unit {0}) Refusal
timeout_step input = parse_timeout input >>= (λ t. ok tt)

unfoldable pub authorize_shell : GoalSpec → Value → Result (Unit {0}) Refusal
authorize_shell spec input = required_str input (codes "cmd") >>= (λ cmd.
    require (command_allowed spec cmd) (command_not_granted cmd)
    >> (check_cwd_of (get input (codes "cwd")) >> timeout_step input))

unfoldable pub authorize_http : GoalSpec → Text → Value → Result (Unit {0}) Refusal
authorize_http spec tool input = required_str input (codes "url") >>= (λ url.
    url_step (url_allowed spec tool url)
    >> (headers_step (check_headers input) >> timeout_step input))

unfoldable pub authorize : GoalSpec → Text → Value → Result (Unit {0}) Refusal
authorize spec tool input =
    if text_eq tool (codes "shell.run")
    then authorize_shell spec input
    else if text_eq tool (codes "http.get") || text_eq tool (codes "http.post")
    then authorize_http spec tool input
    else err (not_real tool)
