-- ===== src/Store/Canonical.antt =====
-- `canonical_bytes` and `write_canonical` of src/store.rs.
use perdure.Prelude.{
  ℕ, ◌+◌, ◌≡◌, ap, Text, List, [], ◌∷◌, ◌++◌, append_assoc, true, false, as_bytes, as_bytes-append,
  codes, text_ltb,
}
use perdure.Prelude.Decimal.{print_nat}
use perdure.Prelude.TextOrder.{
  sort_entries, text_ltb-asym, Reorder, done, keep, swap, chain, sort_entries-Reorder,
}
use perdure.Json.{
  Number, nat, neg, float, Value, null, bool, number, string, array, object, Items, nil, cons,
  Fields, end, field, fields_of, json,
}

-- `Number::to_string`.
unfoldable pub number_text : Number → Text
number_text (nat n) = print_nat n
number_text (neg n) = b'-' ∷ print_nat (n + 1)
number_text (float s) = s

-- A `,` before every part but the first.
unfoldable pub join : List (List ℕ) → List ℕ
join [] = []
join (x ∷ []) = x
join (x ∷ y ∷ rest) = x ++ b',' ∷ join (y ∷ rest)

-- `"`, the bytes of the text as they are, `"`.
unfoldable pub quoted : Text → List ℕ
quoted s = b'"' ∷ (as_bytes s ++ b'"' ∷ [])

-- The fields behind their keys, in the order of the list.
unfoldable pub entries : List (Text × List ℕ) → List (List ℕ)
unfolding quoted
entries [] = []
entries ((k, v) ∷ es) = (quoted k ++ b':' ∷ v) ∷ entries es

unfoldable mutual
  pub canonical : Value → List ℕ
  canonical null = codes "null"
  canonical (bool true) = codes "true"
  canonical (bool false) = codes "false"
  canonical (number n) = as_bytes (number_text n)
  canonical (string s) = quoted s
  canonical (array xs) = b'[' ∷ (join (canonical_items xs) ++ b']' ∷ [])
  canonical (object fs) = b'{' ∷ (join (entries (sort_entries (canonical_fields fs))) ++ b'}' ∷ [])

  pub canonical_items : Items → List (List ℕ)
  canonical_items nil = []
  canonical_items (cons x xs) = canonical x ∷ canonical_items xs

  pub canonical_fields : Fields → List (Text × List ℕ)
  canonical_fields end = []
  canonical_fields (field k v fs) = (k, canonical v) ∷ canonical_fields fs

unfoldable pub canonical_bytes : Value → List ℕ
unfolding canonical
canonical_bytes v = canonical v

canonical_fields-Reorder :
    {xs ys : List (Text × Value)}
    → Reorder xs ys
    → Reorder (canonical_fields (fields_of xs)) (canonical_fields (fields_of ys))
unfolding canonical_fields
canonical_fields-Reorder done = done
canonical_fields-Reorder (keep (k, v) r) = keep (k, canonical v) (canonical_fields-Reorder r)
canonical_fields-Reorder (swap (j, v) (k, w) xs ne) =
    swap (j, canonical v) (k, canonical w) (canonical_fields (fields_of xs)) ne
canonical_fields-Reorder (chain r s) =
    chain (canonical_fields-Reorder r) (canonical_fields-Reorder s)

-- The bytes of an object do not depend on the order in which its fields are listed, where no key
-- stands twice.
pub canonical_bytes-Reorder :
    {xs ys : List (Text × Value)}
    → Reorder xs ys
    → canonical_bytes (json xs) ≡ canonical_bytes (json ys)
unfolding canonical_bytes canonical canonical_fields
canonical_bytes-Reorder r =
    ap (λ es. b'{' ∷ (join (entries es) ++ b'}' ∷ []))
      (sort_entries-Reorder (canonical_fields-Reorder r))

-- The text that ends one string, opens the next field and begins its string: `v","k":"w`.
abbrev pub spliced : Text → Text → Text → Text
spliced v k w = v ++ (codes "\",\"" ++ (k ++ (codes "\":\"" ++ w)))

-- Strings are not escaped, so the bytes do not determine the value: one field whose text holds a
-- quote has the bytes of two fields, for all keys in order and all texts.
pub canonical_bytes_collide :
    (j v k w : Text)
    → text_ltb j k ≡ true
    → canonical_bytes (json ((j, string (spliced v k w)) ∷ []))
      ≡ canonical_bytes (json ((j, string v) ∷ (k, string w) ∷ []))
unfolding canonical_bytes canonical canonical_fields sort_entries entries join as_bytes
canonical_bytes_collide j v k w h =
    rw (text_ltb-asym j k h) (unfold quoted in simp (as_bytes-append, append_assoc))
