-- ===== src/Examples/Calls.antt =====
-- Calls of the real tools, and what a goal grants to them.
use perdure.Prelude.{
  ◌↔◌, ◌≡◌, refl, Text, codes, true, false, not, ◌&&◌, ◌||◌, ◌⊎◌, none, List, [], ◌∷◌, ok, contains,
  text_eq, starts_with, has_char, to_ascii_lowercase, is_digit, is_alnum, split_char,
}
use perdure.Glob.{glob_match}
use perdure.Goal.{GoalSpec, command_allowed}
use perdure.Json.{Value, string, json, get, as_object, as_str}
use perdure.Http.{
  ParsedUrl, UrlError, canonical, parse_url, globs_of, url_allowed, HeaderError, check_headers,
}
use perdure.Http as Http
use perdure.Http.Grants.{Clean, CleanRecord, url_allowed_sound, check_headers_iff}
use perdure.Http.Wire.{unlisted_on_wire_iff}
use perdure.Tool.{authorize, Refusal}
use perdure.Tool as Tool
use perdure.Tool.Authority.{ShellGranted, HttpGranted, Timed, authorize_sound}

abbrev goal : GoalSpec
goal = record {
  name = codes "g";
  success = none;
  budget = record { steps = none; retries = none; time = none; cost = none };
  allow = record {
    effects = [];
    fs_read = [];
    fs_write = [];
    shell = codes "make" ∷ [];
    http_get = codes "https://a.b/*" ∷ [];
    http_post = [];
    tools = [];
  };
  require = [];
}

abbrev call : Value
call = json ((codes "cmd", string (codes "make")) ∷ (codes "cwd", string (codes "sub")) ∷ [])

authorized : authorize goal (codes "shell.run") call ≡ ok tt
unfolding authorize Tool.authorize_shell Tool.required_str Tool.text_or Tool.str_of get as_str
    text_eq Tool.require command_allowed contains Tool.check_cwd_of Tool.check_cwd Tool.has_parent
    Tool.components starts_with Tool.timeout_step Tool.parse_timeout Tool.timeout_of
authorized = refl

authorize_sound_example :
    (((text_eq (codes "shell.run") (codes "shell.run") ≡ true) × ShellGranted goal call)
      ⊎ (((text_eq (codes "shell.run") (codes "http.get")
              || text_eq (codes "shell.run") (codes "http.post"))
            ≡ true)
          × HttpGranted goal (codes "shell.run") call))
    × Timed call
authorize_sound_example = authorize_sound goal (codes "shell.run") call authorized

abbrev url : Text
url = codes "https://a.b/x"

allowed : url_allowed goal (codes "http.get") url ≡ ok tt
unfolding url_allowed parse_url Http.parse_from Http.split_scheme Http.parse_parts Http.split_path
    Http.split_port Http.split_last Http.reject_if text_eq starts_with Http.is_empty has_char
    Http.host_char is_alnum is_digit to_ascii_lowercase globs_of Http.find_glob canonical glob_match
    Http.judge_glob split_char
allowed = refl

url_allowed_sound_example :
    (u : ParsedUrl) × (globs : List Text) × (g : Text) × (parse_url url ≡ ok u)
    × (globs_of goal (codes "http.get") ≡ ok globs)
    × (contains globs g ≡ true)
    × (glob_match g (canonical u) ≡ true)
    × ((text_eq u.scheme (codes "http") && not (starts_with (codes "http://") g)) ≡ false)
url_allowed_sound_example = url_allowed_sound goal (codes "http.get") url allowed

abbrev headers : Value
headers = json ((codes "accept", string (codes "x")) ∷ [])

abbrev request : Value
request = json ((codes "headers", headers) ∷ [])

clean :
    CleanRecord true (get request (codes "headers"))
    × CleanRecord false (get request (codes "headers_env"))
unfolding CleanRecord Clean get as_object as_str text_eq contains to_ascii_lowercase
clean = ((_, refl, ((codes "x", refl), refl, tt)), tt)

accepted : check_headers request ≡ ok tt
accepted = (check_headers_iff request).1 clean

check_headers_iff_example : (check_headers request ≡ ok tt) ↔ (
    CleanRecord true (get request (codes "headers"))
    × CleanRecord false (get request (codes "headers_env")))
check_headers_iff_example = check_headers_iff request

unlisted_on_wire_iff_example :
    ((Http.check_field true (codes "X-Api_Key") (string (codes "secret")) ≡ ok tt)
      × (contains Http.sensitive_headers
            (to_ascii_lowercase (Http.header_wire_name (codes "X-Api_Key")))
          ≡ true))
    ↔ ((to_ascii_lowercase (codes "X-Api_Key") ≡ codes "x-api_key")
        ⊎ (to_ascii_lowercase (codes "X-Api_Key") ≡ codes "x_api-key"))
unlisted_on_wire_iff_example = unlisted_on_wire_iff (codes "X-Api_Key") (codes "secret")
