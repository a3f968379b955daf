-- ===== src/Actions/Tools.antt =====
-- src/action.rs: the fake tools, which are functions of their input.
use perdure.Prelude.{
  ℕ, ◌+◌, ◌-◌, ◌*◌, ◌%◌, ◌^◌, ltb, leb, ◌&&◌, ◌≡◌, arith, Text, Bool, true, false, Option, none,
  some, List, [], ◌∷◌, ◌++◌, codes, text_eq, take, any, Result, ok, err, if◌then◌else◌, is_digit,
}
use perdure.Prelude.Decimal.{print_nat}
use perdure.Goal.{unwrap_or}
use perdure.Json.{
  Value, null, bool, number, string, array, Number, nat, neg, json, items_of, get, as_str,
}
use perdure.Store.Identity.{short_digest}

-- `Value::as_i64`.
as_i64 : Option Value → Option Number
as_i64 (some (number (nat n))) = if ltb n (2 ^ 63) then some (nat n) else none
as_i64 (some (number (neg n))) = if ltb n (2 ^ 63) then some (neg n) else none
as_i64 _ = none

-- `n >= m`, at a constant.
at_least : ℕ → Number → Bool
at_least m (nat n) = leb m n
at_least m _ = false

got : Value → Text → Value
got input k = unwrap_or (get input k) null

-- `u64::from_str_radix(s, 16)`, at a text that fits.
hex_value : ℕ → Text → Option ℕ
hex_value acc [] = some acc
hex_value acc (c ∷ s) =
    if is_digit c
    then hex_value (acc * 16 + (c - b'0')) s
    else if leb b'a' c && leb c b'f'
    then hex_value (acc * 16 + (c - b'a' + 10)) s
    else if leb b'A' c && leb c b'F'
    then hex_value (acc * 16 + (c - b'A' + 10)) s
    else none

str_or : Option Value → Text → Text
str_or none d = d
str_or (some v) d = unwrap_or (as_str v) d

find_duplicate : Value → Value
unfolding as_i64 got
find_duplicate input = json (
    (codes "charge_id", got input (codes "charge_id"))
    ∷ (codes "duplicate_charge_id", string (codes "ch_dup_" ++ short_digest input))
    ∷ (
      codes "amount_cents",
      number (unwrap_or (as_i64 (get input (codes "amount_cents"))) (nat 4200)),
    )
    ∷ (codes "currency", string (codes "usd"))
    ∷ (codes "is_duplicate", bool true)
    ∷ [])

refund : Value → Value
unfolding as_i64 got
refund input = json (
    (codes "refund_id", string (codes "re_" ++ short_digest input))
    ∷ (codes "charge_id", got input (codes "charge_id"))
    ∷ (codes "amount_cents", number (unwrap_or (as_i64 (get input (codes "amount_cents"))) (nat 0)))
    ∷ (codes "status", string (codes "succeeded"))
    ∷ [])

send_email : Value → Value
unfolding got
send_email input = json (
    (codes "message_id", string (codes "msg_" ++ short_digest input))
    ∷ (codes "to", got input (codes "to"))
    ∷ (codes "status", string (codes "sent"))
    ∷ [])

create_pr : Value → Value
unfolding hex_value str_or
create_pr input =
    let n = unwrap_or (hex_value 0 (take 6 (short_digest input))) 0 % 9000 + 1000 in
    json (
      (codes "pr_number", number (nat n))
      ∷ (
        codes "pr_url",
        string (
            codes "https://github.example/"
            ++ (str_or (get input (codes "repo")) (codes "repo")
                ++ (codes "/pull/" ++ print_nat n))),
      )
      ∷ (codes "state", string (codes "open"))
      ∷ [])

comment : Value → Value
unfolding got
comment input = json (
    (codes "comment_id", string (codes "cmt_" ++ short_digest input))
    ∷ (codes "ticket_id", got input (codes "ticket_id"))
    ∷ (codes "status", string (codes "posted"))
    ∷ [])

charge : Text → Text → ℕ → Bool → Value
charge tag n cents duplicate = json (
    (codes "charge_id", string (codes "ch_" ++ (tag ++ n)))
    ∷ (codes "amount_cents", number (nat cents))
    ∷ (codes "is_duplicate", bool duplicate)
    ∷ [])

list_disputes : Value → Value
unfolding got charge
list_disputes input =
    let tag = take 6 (short_digest input) in
    json (
      (codes "customer", got input (codes "customer"))
      ∷ (
        codes "charges",
        array (
            items_of (
              charge tag (codes "_1") 4200 true
              ∷ charge tag (codes "_2") 1599 false
              ∷ charge tag (codes "_3") 8800 true
              ∷ [])),
      )
      ∷ [])

deploy : Value → Value
unfolding as_i64 got at_least
deploy input =
    let attempt = unwrap_or (as_i64 (get input (codes "attempt"))) (nat 1) in
    json (
      (codes "service", got input (codes "service"))
      ∷ (codes "attempt", number attempt)
      ∷ (codes "ok", bool (at_least 3 attempt))
      ∷ (codes "build_id", string (codes "bld_" ++ short_digest input))
      ∷ [])

unfoldable pub invoke_fake_tool : Text → Value → Result Value Text
unfolding find_duplicate refund send_email create_pr comment list_disputes deploy
invoke_fake_tool tool input =
    if text_eq tool (codes "fake.stripe.find_duplicate")
    then ok (find_duplicate input)
    else if text_eq tool (codes "fake.stripe.refund")
    then ok (refund input)
    else if text_eq tool (codes "fake.email.send")
    then ok (send_email input)
    else if text_eq tool (codes "fake.github.create_pr")
    then ok (create_pr input)
    else if text_eq tool (codes "fake.zendesk.comment")
    then ok (comment input)
    else if text_eq tool (codes "fake.stripe.list_disputes")
    then ok (list_disputes input)
    else if text_eq tool (codes "fake.ci.deploy")
    then ok (deploy input)
    else err (codes "unknown tool `" ++ (tool ++ codes "`"))

abbrev pub known_tools : List Text
known_tools =
    codes "fake.stripe.find_duplicate"
    ∷ codes "fake.stripe.refund"
    ∷ codes "fake.email.send"
    ∷ codes "fake.github.create_pr"
    ∷ codes "fake.zendesk.comment"
    ∷ codes "fake.stripe.list_disputes"
    ∷ codes "fake.ci.deploy"
    ∷ []

unfoldable pub is_known_tool : Text → Bool
is_known_tool tool = any (λ t. text_eq tool t) known_tools

abbrev pub is_ok {ℓ κ} : {A : Type ℓ} {E : Type κ} → Result A E → Bool
is_ok (ok a) = true
is_ok (err e) = false

-- A tool answers, whatever its input, exactly if `known_tools` lists it.
pub known_tools_exact :
    (tool : Text) (input : Value) → is_ok (invoke_fake_tool tool input) ≡ is_known_tool tool
unfolding invoke_fake_tool is_known_tool
known_tools_exact tool input = ground arith
