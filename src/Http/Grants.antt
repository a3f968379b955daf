-- ===== src/Http/Grants.antt =====
-- src/http.rs: what a granted URL and accepted headers are.
use perdure.Prelude.{
  ◌≡◌, ◌↔◌, subst, refl, sym, ap, ◌∙◌, Text, codes, text_eq, contains, starts_with,
  to_ascii_lowercase, Bool, true, false, not, ◌&&◌, Option, none, some, List, [], ◌∷◌, ok, ◌>>=◌,
  >>=-eq-ok, Bool-cases, inl, inr, arith, text_eq_refl,
}
use perdure.Glob.{glob_match}
use perdure.Goal.{GoalSpec}
use perdure.Json.{Value, Fields, end, field, get, as_str, as_object}
use perdure.Http.{
  ParsedUrl, UrlError, canonical, reject_if, parse_url, globs_of, find_glob, judge_glob,
  url_allowed, sensitive_headers, judge_field, check_object, check_field, check_fields,
  check_record, check_headers,
}

reject_if_ok : (b : Bool) (e : UrlError) → reject_if b e ≡ ok tt → b ≡ false
unfolding reject_if
reject_if_ok true e h = absurd (cc h)
reject_if_ok false e h = refl

find_glob-some :
    (s g : Text) (gs : List Text)
    → find_glob s gs ≡ some g
    → (contains gs g ≡ true) × (glob_match g s ≡ true)
unfolding find_glob contains
find_glob-some s g [] h = absurd (cc h)
find_glob-some s g (x ∷ gs) h = elim (Bool-cases (glob_match x s)) [
  | inl e ↦
      let same : x ≡ g = (let h' : some x ≡ some g = rw e at h in cc h') in
      (rw same (rw (text_eq_refl g) refl), ap (λ z. glob_match z s) (sym same) ∙ e)
  | inr e ↦ let (c, m) = find_glob-some s g gs (rw e at h) in (ground arith, m)
]

judge_glob_ok :
    (u : ParsedUrl) (o : Option Text)
    → judge_glob u o ≡ ok tt
    → (g : Text) × (o ≡ some g)
      × ((text_eq u.scheme (codes "http") && not (starts_with (codes "http://") g)) ≡ false)
unfolding judge_glob
judge_glob_ok u none h = absurd (cc h)
judge_glob_ok u (some g) h = (g, refl, reject_if_ok _ _ h)

-- A URL is granted only by a glob that the goal lists for this very tool and that matches the
-- canonical form of the parsed URL; plaintext http only by a glob that itself starts with `http://`.
pub url_allowed_sound :
    (spec : GoalSpec) (tool url : Text)
    → url_allowed spec tool url ≡ ok tt
    → (u : ParsedUrl) × (globs : List Text) × (g : Text) × (parse_url url ≡ ok u)
      × (globs_of spec tool ≡ ok globs)
      × (contains globs g ≡ true)
      × (glob_match g (canonical u) ≡ true)
      × ((text_eq u.scheme (codes "http") && not (starts_with (codes "http://") g)) ≡ false)
unfolding url_allowed
url_allowed_sound spec tool url h =
    let (u, parsed, h1) =
      >>=-eq-ok (parse_url url)
        (λ u. globs_of spec tool >>= (λ globs. judge_glob u (find_glob (canonical u) globs))) h in
    let (globs, listed, h2) =
      >>=-eq-ok (globs_of spec tool) (λ globs. judge_glob u (find_glob (canonical u) globs)) h1 in
    let (g, found, plain) = judge_glob_ok u (find_glob (canonical u) globs) h2 in
    let (member, matched) = find_glob-some (canonical u) g globs found in
    (u, globs, g, parsed, listed, member, matched, plain)

-- The fields of a record, one by one: strings and, in a record of literals, under no name that is
-- listed as sensitive in its lower-case form.
unfoldable pub Clean : Bool → Fields → Type 0
Clean literal end = Unit
Clean literal (field k v fs) =
    ((s : Text) × (as_str v ≡ some s))
    × ((literal && contains sensitive_headers (to_ascii_lowercase k)) ≡ false)
    × Clean literal fs

-- A record that is absent, or clean.
unfoldable pub CleanRecord : Bool → Option Value → Type 0
CleanRecord literal none = Unit
CleanRecord literal (some v) = (fs : Fields) × (as_object v ≡ some fs) × Clean literal fs

pub judge_field_iff :
    (literal : Bool) (k : Text) (o : Option Text)
    → (judge_field literal k o ≡ ok tt) ↔ (
        ((s : Text) × (o ≡ some s))
        × ((literal && contains sensitive_headers (to_ascii_lowercase k)) ≡ false))
unfolding judge_field
judge_field_iff literal k none = (λ h. absurd (cc h), λ (x, _). let (s, e) = x in absurd (cc e))
judge_field_iff literal k (some s) =
    elim (Bool-cases (literal && contains sensitive_headers (to_ascii_lowercase k))) [
      | inl e ↦ (λ h. (let h' = rw e at h in absurd (cc h')), λ x. absurd (cc (x.1, e)))
      | inr e ↦ (λ h. ((s, refl), e), λ x. rw e refl)
    ]

check_fields_iff :
    (literal : Bool) (fs : Fields) → (check_fields literal fs ≡ ok tt) ↔ Clean literal fs
unfolding check_fields Clean check_field
check_fields_iff literal end = (λ h. tt, λ c. refl)
check_fields_iff literal (field k v fs) = (
  λ h.
      let (_, first, rest) =
        >>=-eq-ok (judge_field literal k (as_str v)) (λ _. check_fields literal fs) h in
      let (text, clean) = (judge_field_iff literal k (as_str v)).0 first in
      (text, clean, (check_fields_iff literal fs).0 rest),
  λ c.
      rw ((judge_field_iff literal k (as_str v)).1 (c.0, c.1))
        ((check_fields_iff literal fs).1 c.2),
)

check_object_iff :
    (literal : Bool) (name : Text) (o : Option Fields)
    → (check_object literal name o ≡ ok tt) ↔ ((fs : Fields) × (o ≡ some fs) × Clean literal fs)
unfolding check_object
check_object_iff literal name none = (λ h. absurd (cc h), λ (fs, e, c). absurd (cc e))
check_object_iff literal name (some fs) = (
  λ h. (fs, refl, (check_fields_iff literal fs).0 h),
  λ (gs, e, c).
      let same : gs ≡ fs = cc e in (check_fields_iff literal fs).1 (subst (Clean literal) same c),
)

check_record_iff :
    (literal : Bool) (name : Text) (o : Option Value)
    → (check_record literal name o ≡ ok tt) ↔ CleanRecord literal o
unfolding check_record CleanRecord
check_record_iff literal name none = (λ h. tt, λ c. refl)
check_record_iff literal name (some v) = check_object_iff literal name (as_object v)

-- The headers of a call are accepted exactly if `headers` and `headers_env`, where the call has them,
-- are records of strings, and the lower-case form of no name in `headers` is one of the six listed
-- names.
pub check_headers_iff :
    (input : Value)
    → (check_headers input ≡ ok tt) ↔ (
        CleanRecord true (get input (codes "headers"))
        × CleanRecord false (get input (codes "headers_env")))
unfolding check_headers
check_headers_iff input =
    let literal = check_record_iff true (codes "headers") (get input (codes "headers")) in
    let from_env = check_record_iff false (codes "headers_env") (get input (codes "headers_env")) in
    (
      λ h.
          let (_, first, rest) =
            >>=-eq-ok (check_record true (codes "headers") (get input (codes "headers")))
              (λ _. check_record false (codes "headers_env") (get input (codes "headers_env"))) h in
          (literal.0 first, from_env.0 rest),
      λ c. rw (literal.1 c.0) (from_env.1 c.1),
    )
