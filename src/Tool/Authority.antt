-- ===== src/Tool/Authority.antt =====
-- src/tool.rs: what an authorized call is.
use perdure.Prelude.{
  ℕ, ltb, ◌==◌, ◌≤◌, ◌≡◌, refl, Text, codes, text_eq, starts_with, Bool, true, false, not, ◌||◌,
  Option, none, some, [], ◌∷◌, Result, ok, err, ◌>>◌, >>=-eq-ok, Bool-cases, inl, inr, ◌⊎◌, arith,
}
use perdure.Goal.{GoalSpec, command_allowed}
use perdure.Glob.{slash}
use perdure.Json.{Value, get, as_str, as_u64}
use perdure.Http.{UrlError, HeaderError, url_allowed, check_headers}
use perdure.Tool.{
  Refusal, require, url_step, headers_step, text_or, str_of, required_str, has_parent, check_cwd,
  check_cwd_of, timeout_in_range, timeout_of, parse_timeout, timeout_step, authorize_shell,
  authorize_http, authorize, max_timeout_ms, default_timeout_ms, absolute_cwd, parent_cwd,
  command_not_granted,
}

require_ok : (b : Bool) (e : Refusal) → require b e ≡ ok tt → b ≡ true
unfolding require
require_ok true e h = refl
require_ok false e h = absurd (cc h)

text_or_ok : (o : Option Text) (field s : Text) → text_or o field ≡ ok s → o ≡ some s
unfolding text_or
text_or_ok none field s h = absurd (cc h)
text_or_ok (some x) field s h = cc h

url_step_ok : (r : Result (Unit {0}) UrlError) → url_step r ≡ ok tt → r ≡ ok tt
unfolding url_step
url_step_ok (ok u) h = refl
url_step_ok (err e) h = absurd (cc h)

headers_step_ok : (r : Result (Unit {0}) HeaderError) → headers_step r ≡ ok tt → r ≡ ok tt
unfolding headers_step
headers_step_ok (ok u) h = refl
headers_step_ok (err e) h = absurd (cc h)

-- A relative path that no component leads out of.
unfoldable pub Inside : Option Value → Type 0
Inside none = Unit
Inside (some v) =
    (cwd : Text) × (as_str v ≡ some cwd)
    × (starts_with (slash ∷ []) cwd ≡ false)
    × (has_parent cwd ≡ false)

not-true : (b : Bool) → not b ≡ true → b ≡ false
not-true b h = ground arith

check_cwd_of_ok : (o : Option Value) → check_cwd_of o ≡ ok tt → Inside o
unfolding check_cwd_of Inside check_cwd
check_cwd_of_ok none h = tt
check_cwd_of_ok (some v) h =
    let (cwd, text, h1) = >>=-eq-ok (text_or (as_str v) (codes "cwd")) check_cwd h in
    let (_, relative, inside) =
      >>=-eq-ok (require (not (starts_with (slash ∷ []) cwd)) (absolute_cwd cwd))
        (λ _. require (not (has_parent cwd)) (parent_cwd cwd)) h1 in
    (
      cwd,
      text_or_ok (as_str v) (codes "cwd") cwd text,
      not-true (starts_with (slash ∷ []) cwd) (require_ok _ _ relative),
      not-true (has_parent cwd) (require_ok _ _ inside),
    )

timeout_in_range_ok :
    (o : Option ℕ) (t : ℕ) → timeout_in_range o ≡ ok t → (1 ≤ t) × (t ≤ max_timeout_ms)
unfolding timeout_in_range
timeout_in_range_ok none t h = absurd (cc h)
timeout_in_range_ok (some n) t h = elim (Bool-cases (n == 0 || ltb max_timeout_ms n)) [
  | inl e ↦ let h' = rw e at h in absurd (cc h')
  | inr e ↦
      let h' : ok n ≡ ok t = rw e at h in let same : n ≡ t = cc h' in (ground arith, ground arith)
]

timeout_of_ok : (o : Option Value) (t : ℕ) → timeout_of o ≡ ok t → (1 ≤ t) × (t ≤ max_timeout_ms)
unfolding timeout_of
timeout_of_ok none t h = let e : default_timeout_ms ≡ t = cc h in (omega arith, omega arith)
timeout_of_ok (some v) t h = timeout_in_range_ok (as_u64 v) t h

-- The call has a wall clock of at most ten minutes.
unfoldable pub Timed : Value → Type 0
Timed input = (t : ℕ) × (parse_timeout input ≡ ok t) × (1 ≤ t) × (t ≤ max_timeout_ms)

timed : (input : Value) → timeout_step input ≡ ok tt → Timed input
unfolding Timed timeout_step
timed input h =
    let (t, e, _) = >>=-eq-ok (parse_timeout input) (λ t. ok tt) h in
    let (low, high) =
      timeout_of_ok (get input (codes "timeout_ms")) t (unfold parse_timeout in e) in
    (t, e, low, high)

-- The command of a shell call is granted, and it runs inside the repository.
unfoldable pub ShellGranted : GoalSpec → Value → Type 0
ShellGranted spec input =
    (cmd : Text) × (str_of (get input (codes "cmd")) ≡ some cmd)
    × (command_allowed spec cmd ≡ true)
    × Inside (get input (codes "cwd"))

-- The URL of an http call is granted to the tool, and its headers are accepted.
unfoldable pub HttpGranted : GoalSpec → Text → Value → Type 0
HttpGranted spec tool input =
    (url : Text) × (str_of (get input (codes "url")) ≡ some url)
    × (url_allowed spec tool url ≡ ok tt)
    × (check_headers input ≡ ok tt)

authorize_shell_ok :
    (spec : GoalSpec) (input : Value)
    → authorize_shell spec input ≡ ok tt
    → ShellGranted spec input × Timed input
unfolding authorize_shell ShellGranted
authorize_shell_ok spec input h =
    let (cmd, text, h1) =
      >>=-eq-ok (required_str input (codes "cmd"))
        (λ cmd.
          require (command_allowed spec cmd) (command_not_granted cmd)
          >> (check_cwd_of (get input (codes "cwd")) >> timeout_step input))
        h in
    let (_, granted, h2) =
      >>=-eq-ok (require (command_allowed spec cmd) (command_not_granted cmd))
        (λ _. check_cwd_of (get input (codes "cwd")) >> timeout_step input) h1 in
    let (_, inside, h3) =
      >>=-eq-ok (check_cwd_of (get input (codes "cwd"))) (λ _. timeout_step input) h2 in
    (
      (
        cmd,
        text_or_ok (str_of (get input (codes "cmd"))) (codes "cmd") cmd
            (unfold required_str in text),
        require_ok _ _ granted,
        check_cwd_of_ok (get input (codes "cwd")) inside,
      ),
      timed input h3,
    )

authorize_http_ok :
    (spec : GoalSpec) (tool : Text) (input : Value)
    → authorize_http spec tool input ≡ ok tt
    → HttpGranted spec tool input × Timed input
unfolding authorize_http HttpGranted
authorize_http_ok spec tool input h =
    let (url, text, h1) =
      >>=-eq-ok (required_str input (codes "url"))
        (λ url.
          url_step (url_allowed spec tool url)
          >> (headers_step (check_headers input) >> timeout_step input))
        h in
    let (_, granted, h2) =
      >>=-eq-ok (url_step (url_allowed spec tool url))
        (λ _. headers_step (check_headers input) >> timeout_step input) h1 in
    let (_, clean, h3) =
      >>=-eq-ok (headers_step (check_headers input)) (λ _. timeout_step input) h2 in
    (
      (
        url,
        text_or_ok (str_of (get input (codes "url"))) (codes "url") url
            (unfold required_str in text),
        url_step_ok (url_allowed spec tool url) granted,
        headers_step_ok (check_headers input) clean,
      ),
      timed input h3,
    )

-- A call that is authorized is one of two: a shell call of exactly a granted command, in a relative
-- directory without `..`, or an http call of a granted URL with accepted headers; and it has a
-- timeout from 1 to 600000 milliseconds. Anything else is refused.
pub authorize_sound :
    (spec : GoalSpec) (tool : Text) (input : Value)
    → authorize spec tool input ≡ ok tt
    → (((text_eq tool (codes "shell.run") ≡ true) × ShellGranted spec input)
        ⊎ (((text_eq tool (codes "http.get") || text_eq tool (codes "http.post")) ≡ true)
            × HttpGranted spec tool input))
      × Timed input
unfolding authorize
authorize_sound spec tool input h = elim (Bool-cases (text_eq tool (codes "shell.run"))) [
  | inl e ↦ let (granted, t) = authorize_shell_ok spec input (rw e at h) in (inl (e, granted), t)
  | inr e ↦
      elim (Bool-cases (text_eq tool (codes "http.get") || text_eq tool (codes "http.post"))) [
        | inl e' ↦
            let (granted, t) = authorize_http_ok spec tool input (rw (e, e') at h) in
            (inr (e', granted), t)
        | inr e' ↦ let h' = rw (e, e') at h in absurd (cc h')
      ]
]
