-- ===== src/Http/Wire.antt =====
-- src/http.rs: the names under which literal headers go on the wire, against the listed credentials.
use perdure.Prelude.{
  ℕ, ◌==◌, ◌≡◌, ◌↔◌, ◌⊎◌, refl, sym, ap, ap₂, ◌∙◌, subst, Text, codes, text_eq, text_eq_sound,
  contains, to_ascii_lowercase, lower_char, Bool, true, false, some, ok, &&-true, ◌||◌, List, [],
  ◌∷◌, ◌++◌, map, all, In, here, there, Bool-cases, inl, inr, arith,
}
use perdure.Json.{string, as_str}
use perdure.Http.{sensitive_headers, header_wire_name, wire_char, check_field}
use perdure.Http.Grants.{judge_field_iff}

-- The names that have this name on the wire, and itself.
spelled_dash : Bool → List Text → List Text
spelled_dash true ss = map (λ s. b'_' ∷ s) ss
spelled_dash false ss = []

spellings : Text → List Text
unfolding spelled_dash
spellings [] = [] ∷ []
spellings (c ∷ w) = map (λ s. c ∷ s) (spellings w) ++ spelled_dash (c == b'-') (spellings w)

In-left : (a : Text) (xs ys : List Text) → In a xs → In a (xs ++ ys)
In-left a [] ys i = elim i [ ]
In-left a (x ∷ xs) ys (here e) = here e
In-left a (x ∷ xs) ys (there i) = there (In-left a xs ys i)

In-right : (a : Text) (xs ys : List Text) → In a ys → In a (xs ++ ys)
In-right a [] ys i = i
In-right a (x ∷ xs) ys i = there (In-right a xs ys i)

In-map : (c : ℕ) (a : Text) (xs : List Text) → In a xs → In (c ∷ a) (map (λ s. c ∷ s) xs)
In-map c a [] i = elim i [ ]
In-map c a (x ∷ xs) (here e) = here (ap (λ s. c ∷ s) e)
In-map c a (x ∷ xs) (there i) = there (In-map c a xs i)

wire_char_cases : (c : ℕ) → (wire_char c ≡ c) ⊎ ((c ≡ b'_') × (wire_char c ≡ b'-'))
unfolding wire_char
wire_char_cases c = elim (Bool-cases (c == b'_')) [
  | inl e ↦ let same : c ≡ b'_' = ground (arith, e) in inr (same, rw e refl)
  | inr e ↦ inl (rw e refl)
]

In-spellings : (t : Text) → In t (spellings (header_wire_name t))
unfolding spellings header_wire_name spelled_dash
In-spellings [] = here refl
In-spellings (c ∷ t) = elim (wire_char_cases c) [
  | inl e ↦ In-left _ _ _ (
      subst (λ x. In (x ∷ t) (map (λ s. wire_char c ∷ s) (spellings (header_wire_name t)))) e
        (In-map (wire_char c) t _ (In-spellings t)))
  | inr (e, w) ↦ In-right _ _ _ (
      subst (λ x. In (c ∷ t) (spelled_dash (x == b'-') (spellings (header_wire_name t)))) (sym w)
        (subst (λ x. In (x ∷ t) (map (λ s. b'_' ∷ s) (spellings (header_wire_name t)))) (sym e)
          (In-map b'_' t _ (In-spellings t))))
]

all-In : (p : Text → Bool) (xs : List Text) (a : Text) → all p xs ≡ true → In a xs → p a ≡ true
all-In p [] a h i = elim i [ ]
all-In p (x ∷ xs) a h (here e) = ap p e ∙ (&&-true (p x) (all p xs) h).0
all-In p (x ∷ xs) a h (there i) = all-In p xs a (&&-true (p x) (all p xs) h).1 i

all-contains :
    (p : Text → Bool) (xs : List Text) (a : Text)
    → all p xs ≡ true
    → contains xs a ≡ true
    → p a ≡ true
unfolding contains
all-contains p [] a h k = absurd (cc k)
all-contains p (x ∷ xs) a h k = elim (Bool-cases (text_eq x a)) [
  | inl e ↦ ap p (sym (text_eq_sound x a e)) ∙ (&&-true (p x) (all p xs) h).0
  | inr e ↦ all-contains p xs a (&&-true (p x) (all p xs) h).1 (rw e at k)
]

lower-wire_char : (c : ℕ) → lower_char (wire_char c) ≡ wire_char (lower_char c)
unfolding lower_char wire_char
lower-wire_char c = ground arith

lower-wire :
    (k : Text) → to_ascii_lowercase (header_wire_name k) ≡ header_wire_name (to_ascii_lowercase k)
unfolding to_ascii_lowercase header_wire_name
lower-wire [] = refl
lower-wire (c ∷ k) = ap₂ (λ x s. x ∷ s) (lower-wire_char c) (lower-wire k)

-- A listed name, or one of the two that are missing.
known : Text → Bool
known t =
    contains sensitive_headers t || text_eq t (codes "x-api_key") || text_eq t (codes "x_api-key")

all-known : all (λ w. all known (spellings w)) sensitive_headers ≡ true
unfolding known spellings contains text_eq spelled_dash
all-known = refl

missing :
    (t : Text)
    → known t ≡ true
    → contains sensitive_headers t ≡ false
    → (t ≡ codes "x-api_key") ⊎ (t ≡ codes "x_api-key")
unfolding known
missing t h unlisted = elim (Bool-cases (text_eq t (codes "x-api_key"))) [
  | inl e ↦ inl (text_eq_sound _ _ e)
  | inr e ↦ inr (text_eq_sound _ _ (rw (unlisted, e) at h))
]

dash_first : contains sensitive_headers (codes "x-api_key") ≡ false
unfolding contains text_eq
dash_first = refl

dash_last : contains sensitive_headers (codes "x_api-key") ≡ false
unfolding contains text_eq
dash_last = refl

wire_first : contains sensitive_headers (header_wire_name (codes "x-api_key")) ≡ true
unfolding contains text_eq header_wire_name
wire_first = refl

wire_last : contains sensitive_headers (header_wire_name (codes "x_api-key")) ≡ true
unfolding contains text_eq header_wire_name
wire_last = refl

spelled_so :
    (k v t : Text)
    → to_ascii_lowercase k ≡ t
    → contains sensitive_headers t ≡ false
    → contains sensitive_headers (header_wire_name t) ≡ true
    → (check_field true k (string v) ≡ ok tt)
      × (contains sensitive_headers (to_ascii_lowercase (header_wire_name k)) ≡ true)
unfolding check_field as_str
spelled_so k v t e unlisted wire = (
  (judge_field_iff true k (some v)).1 ((v, refl), ap (contains sensitive_headers) e ∙ unlisted),
  ap (contains sensitive_headers) (lower-wire k)
      ∙ ap (λ x. contains sensitive_headers (header_wire_name x)) e
      ∙ wire,
)

-- A literal header passes the check and is a listed credential on the wire exactly where its name is a
-- spelling of `x-api_key` or `x_api-key`, in upper or lower case.
pub unlisted_on_wire_iff :
    (k v : Text)
    → ((check_field true k (string v) ≡ ok tt)
        × (contains sensitive_headers (to_ascii_lowercase (header_wire_name k)) ≡ true))
      ↔ ((to_ascii_lowercase k ≡ codes "x-api_key") ⊎ (to_ascii_lowercase k ≡ codes "x_api-key"))
unfolding check_field as_str
unlisted_on_wire_iff k v = (
  λ (passed, on_wire).
      let t = to_ascii_lowercase k in
      let (_, unlisted) = (judge_field_iff true k (some v)).0 passed in
      let wire = ap (contains sensitive_headers) (sym (lower-wire k)) ∙ on_wire in
      let spelled =
        all-contains (λ w. all known (spellings w)) sensitive_headers (header_wire_name t) all-known
          wire in
      missing t (all-In known (spellings (header_wire_name t)) t spelled (In-spellings t)) unlisted,
  λ one. elim one [
    | inl e ↦ spelled_so k v (codes "x-api_key") e dash_first wire_first
    | inr e ↦ spelled_so k v (codes "x_api-key") e dash_last wire_last
  ],
)
