-- ===== src/Api/Fetch.antt =====
-- dashboard/frontend/src/lib/api.ts, `fetchJSON`: from the reply of `fetch` to the value or the
-- error that the caller gets. The cast of the parsed body to the type argument is unchecked there,
-- so it is any function here. `number_text` prints a fraction, and `null_message` is the message of
-- the error that reading a member of `null` throws.
pub mod Outcomes
mod Tests
use zerokey.Base.{
  arith, ℕ, zero, pos, leb, ◌≤◌, ◌≡◌, ◌≢◌, refl, ◌↔◌, ◌⊎◌, inl, inr, String, Bool, true, false, not,
  ◌&&◌, Option, none, some, List, [], ◌∷◌, template, truthy, str_eq, eq_iff, if◌then◌else◌, Decimal,
  Bool-cases,
}
use zerokey.Base.Text.{show_ℕ, show_ℤ}
use zerokey.Api.Types.{
  Json, Items, Fields, null, bool, int, decimal, text, arr, obj, nil, cons, end, field,
}
use zerokey.Api.Call.{Call, options_of}
use zerokey.Runtime.Async.{Outcome, ok, failed}

-- What `res.json()` gives.
pub data Body : Type 0 where
  parsed : Json → Body
  unparsable : String → Body

pub record Response : Type 0 where
  pub status : ℕ
  pub status_text : String
  pub body : Body

pub data Reply : Type 0 where
  rejected : String → Reply
  response : Response → Reply

-- What the caller gets, and what was written by `console.warn`: the URL and the message.
pub record Fetched (A : Type 0) : Type 0 where
  pub outcome : Outcome A
  pub warnings : List (String × String)

-- A repeated name stands for its last value.
unfoldable pub member : String → Fields → Option Json
member name end = none
member name (field other v rest) = elim (member name rest) [
  | none ↦ if str_eq other name then some v else none
  | some w ↦ some w
]

-- `res.ok`
abbrev pub is_ok : ℕ → Bool
is_ok status = leb 200 status && leb status 299

-- Whether a value counts as true.
unfoldable pub truthy_json : Json → Bool
truthy_json null = false
truthy_json (bool b) = b
truthy_json (int n) = elim n [ pos (zero) ↦ false | other ↦ true ]
truthy_json (decimal d) = elim d.mantissa [ pos (zero) ↦ false | other ↦ true ]
truthy_json (text s) = truthy s
truthy_json (arr items) = true
truthy_json (obj fields) = true

module _ (number_text : Decimal → String) (null_message : String) where
  -- `String(v)`, and inside an array, where `null` is empty.
  mutual
    js_text : Json → String
    js_text null = "null"
    js_text (bool b) = if b then "true" else "false"
    js_text (int n) = show_ℤ n
    js_text (decimal d) = number_text d
    js_text (text s) = s
    js_text (arr items) = items_text items
    js_text (obj fields) = "[object Object]"

    items_text : Items → String
    items_text nil = ""
    items_text (cons v rest) = after_first (item_text v) rest

    item_text : Json → String
    item_text null = ""
    item_text (arr items) = items_text items
    item_text (bool b) = if b then "true" else "false"
    item_text (int n) = show_ℤ n
    item_text (decimal d) = number_text d
    item_text (text s) = s
    item_text (obj fields) = "[object Object]"

    after_first : String → Items → String
    after_first first nil = first
    after_first first (cons v rest) = template (first ∷ "," ∷ after_first (item_text v) rest ∷ [])

  -- `err.detail || …`, as the text of the error.
  detail_or : Option Json → String → String
  detail_or none standard = standard
  detail_or (some v) standard = if truthy_json v then js_text v else standard

  pub standard_message : ℕ → String
  unfolding show_ℕ
  standard_message status = template ("Request failed with status " ∷ show_ℕ status ∷ [])

  -- The message of the error that an answer with a bad status is turned into.
  pub error_message : Response → String
  error_message res = elim res.body [
    | unparsable _ ↦ detail_or (some (text res.status_text)) (standard_message res.status)
    | parsed v ↦ elim v [
      | null ↦ null_message
      | obj fields ↦ detail_or (member "detail" fields) (standard_message res.status)
      | _ ↦ standard_message res.status
    ]
  ]

  abbrev pub warned : {A : Type 0} → String → String → Fetched A
  warned url message = record { outcome = failed message; warnings = (url, message) ∷ [] }

  -- The body is returned as a promise, so its own error passes the `catch` by.
  json_body : {A : Type 0} → (Json → A) → Body → Fetched A
  json_body cast (parsed v) = record { outcome = ok (cast v); warnings = [] }
  json_body cast (unparsable message) = record { outcome = failed message; warnings = [] }

  pub fetch_json : {A : Type 0} → (Json → A) → String → Reply → Fetched A
  unfolding json_body
  fetch_json cast url (rejected message) = warned url message
  fetch_json cast url (response res) =
      if not (is_ok res.status) then warned url (error_message res) else json_body cast res.body
