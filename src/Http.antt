-- ===== src/Http.antt =====
-- src/http.rs: the URLs and the headers that a goal grants.
pub mod Grants
pub mod Wire
use perdure.Prelude.{
  ℕ, zero, suc, ltb, ◌==◌, Text, codes, text_eq, contains, starts_with, has_char, split_char,
  to_ascii_lowercase, is_digit, is_alnum, drop, all, Bool, true, false, not, ◌&&◌, ◌||◌, Option,
  none, some, List, [], ◌∷◌, ◌++◌, if◌then◌else◌, Result, ok, err, ◌>>=◌, ◌>>◌,
}
use mathlib.Core.Option as Option
use perdure.Prelude.Decimal.{print_nat, parse_nat}
use perdure.Glob.{glob_match, slash}
use perdure.Goal.{GoalSpec, AllowSpec}
use perdure.Json.{Value, Fields, end, field, get, as_str, as_object}

pub record ParsedUrl : Type 0 where
  pub scheme : Text
  pub host : Text
  pub port : Option ℕ
  pub path : Text

-- The refusals, each with what its message names.
pub data UrlError : Type 0 where
  no_scheme : Text → UrlError
  bad_scheme : Text → UrlError
  no_host : Text → UrlError
  userinfo : UrlError
  fragment : UrlError
  port_out_of_range : Text → UrlError
  bad_authority : Text → UrlError
  bad_host : Text → UrlError
  not_http_tool : Text → UrlError
  not_granted : Text → UrlError
  plaintext : Text → Text → UrlError

port_text : Option ℕ → Text
port_text none = []
port_text (some p) = b':' ∷ print_nat p

unfoldable pub canonical : ParsedUrl → Text
unfolding port_text
canonical u = u.scheme ++ (codes "://" ++ (u.host ++ (port_text u.port ++ u.path)))

-- `split_once("://")`.
unfoldable pub split_scheme : Text → Option (Text × Text)
split_scheme [] = none
split_scheme (c ∷ s) =
    let later = Option.map (λ (p : Text × Text). (c ∷ p.0, p.1)) (split_scheme s) in
    if starts_with (codes "://") (c ∷ s) then some ([], drop 2 s) else later

-- `rsplit_once` at a character: its last occurrence.
unfoldable pub split_last : ℕ → Text → Option (Text × Text)
split_last c [] = none
split_last c (x ∷ s) = elim (split_last c s) [
  | some p ↦ some (x ∷ p.0, p.1)
  | none ↦ if x == c then some ([], s) else none
]

-- The authority and the path: without a `/` the path is `/`.
unfoldable pub split_path : Text → Text × Text
split_path rest = elim (split_char slash rest) [
  | some p ↦ (p.0, slash ∷ p.1)
  | none ↦ (rest, slash ∷ [])
]

-- `p.parse::<u16>()`, on digits.
unfoldable pub parse_port : Text → Option ℕ → Result (Option ℕ) UrlError
parse_port p none = err (port_out_of_range p)
parse_port p (some n) = if ltb n 65536 then ok (some n) else err (port_out_of_range p)

unfoldable pub is_empty : Text → Bool
is_empty [] = true
is_empty (_ ∷ _) = false

unfoldable pub split_port : Text → Option (Text × Text) → Result (Text × Option ℕ) UrlError
split_port authority none = ok (authority, none)
split_port authority (some (h, p)) =
    if all is_digit p && not (is_empty p)
    then parse_port p (parse_nat p) >>= (λ port. ok (h, port))
    else err (bad_authority authority)

unfoldable pub host_char : ℕ → Bool
host_char c = is_alnum c || c == b'.' || c == b'-'

-- A test that ends in an error.
unfoldable pub reject_if : Bool → UrlError → Result (Unit {0}) UrlError
reject_if true e = err e
reject_if false e = ok tt

unfoldable pub parse_parts : Text → Text → Text × Text → Result ParsedUrl UrlError
parse_parts url scheme (authority, path) =
    reject_if (is_empty authority) (no_host url)
    >> (reject_if (has_char b'@' authority) userinfo
        >> (reject_if (has_char b'#' path) fragment
            >> (split_port authority (split_last b':' authority) >>= (λ (hp : Text × Option ℕ).
                reject_if (is_empty hp.0) (no_host url)
                >> (reject_if (not (all host_char hp.0)) (bad_host hp.0)
                    >> ok (record {
                      scheme = scheme;
                      host = to_ascii_lowercase hp.0;
                      port = hp.1;
                      path = path;
                    }))))))

unfoldable pub parse_from : Text → Option (Text × Text) → Result ParsedUrl UrlError
parse_from url none = err (no_scheme url)
parse_from url (some (scheme, rest)) =
    reject_if (not (text_eq scheme (codes "http")) && not (text_eq scheme (codes "https")))
      (bad_scheme scheme)
    >> parse_parts url scheme (split_path rest)

unfoldable pub parse_url : Text → Result ParsedUrl UrlError
parse_url url = parse_from url (split_scheme url)

-- The globs of the tool.
unfoldable pub globs_of : GoalSpec → Text → Result (List Text) UrlError
globs_of spec tool =
    if text_eq tool (codes "http.get")
    then ok spec.allow.http_get
    else if text_eq tool (codes "http.post")
    then ok spec.allow.http_post
    else err (not_http_tool tool)

-- `globs.iter().find(…)`.
unfoldable pub find_glob : Text → List Text → Option Text
find_glob s [] = none
find_glob s (g ∷ gs) = if glob_match g s then some g else find_glob s gs

unfoldable pub judge_glob : ParsedUrl → Option Text → Result (Unit {0}) UrlError
judge_glob u none = err (not_granted (canonical u))
judge_glob u (some g) =
    reject_if (text_eq u.scheme (codes "http") && not (starts_with (codes "http://") g))
      (plaintext (canonical u) g)

unfoldable pub url_allowed : GoalSpec → Text → Text → Result (Unit {0}) UrlError
url_allowed spec tool url =
    parse_url url
    >>= (λ u. globs_of spec tool >>= (λ globs. judge_glob u (find_glob (canonical u) globs)))

abbrev pub sensitive_headers : List Text
sensitive_headers =
    codes "authorization"
    ∷ codes "cookie"
    ∷ codes "x_api_key"
    ∷ codes "x-api-key"
    ∷ codes "proxy_authorization"
    ∷ codes "proxy-authorization"
    ∷ []

pub data HeaderError : Type 0 where
  not_a_record : Text → HeaderError
  not_a_string : Text → HeaderError
  credential : Text → HeaderError

-- One field: a string, and for a literal header no credential.
unfoldable pub judge_field : Bool → Text → Option Text → Result (Unit {0}) HeaderError
judge_field literal k none = err (not_a_string k)
judge_field literal k (some s) =
    if literal && contains sensitive_headers (to_ascii_lowercase k)
    then err (credential k)
    else ok tt

unfoldable pub check_field : Bool → Text → Value → Result (Unit {0}) HeaderError
check_field literal k v = judge_field literal k (as_str v)

unfoldable pub check_fields : Bool → Fields → Result (Unit {0}) HeaderError
check_fields literal end = ok tt
check_fields literal (field k v fs) = check_field literal k v >> check_fields literal fs

unfoldable pub check_object : Bool → Text → Option Fields → Result (Unit {0}) HeaderError
check_object literal name none = err (not_a_record name)
check_object literal name (some fs) = check_fields literal fs

unfoldable pub check_record : Bool → Text → Option Value → Result (Unit {0}) HeaderError
check_record literal name none = ok tt
check_record literal name (some v) = check_object literal name (as_object v)

unfoldable pub check_headers : Value → Result (Unit {0}) HeaderError
check_headers input =
    check_record true (codes "headers") (get input (codes "headers"))
    >> check_record false (codes "headers_env") (get input (codes "headers_env"))

-- The name that a header has on the wire.
unfoldable pub wire_char : ℕ → ℕ
wire_char c = if c == b'_' then b'-' else c

unfoldable pub header_wire_name : Text → Text
unfolding wire_char
header_wire_name [] = []
header_wire_name (c ∷ s) = wire_char c ∷ header_wire_name s
