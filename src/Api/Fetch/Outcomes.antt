-- ===== src/Api/Fetch/Outcomes.antt =====
-- What the callers of `fetchJSON` get.
use zerokey.Base.{
  ◌≡◌, refl, ap, sym, ◌∙◌, ◌↔◌, ◌⊎◌, inl, inr, String, true, false, some, truthy, if◌then◌else◌,
  Decimal, Bool-cases,
}
use zerokey.Api.Types.{Json, Fields, text, obj}
use zerokey.Runtime.Async.{Outcome, ok, failed}
use zerokey.Api.Fetch.{
  Body, parsed, unparsable, Response, Reply, rejected, response, member, is_ok, detail_or, js_text,
  truthy_json, standard_message, error_message, warned, json_body, fetch_json,
}

Body-cases :
    (b : Body) → ((v : Json) × (b ≡ parsed v)) ⊎ ((message : String) × (b ≡ unparsable message))
Body-cases (parsed v) = inl (v, refl)
Body-cases (unparsable message) = inr (message, refl)

ok_inj : {A : Type 0} {a b : A} → Path (Outcome A) (ok a) (ok b) → a ≡ b
ok_inj e = cc

module _ (number_text : Decimal → String) (null_message : String) where
  pub accepted :
      {A : Type 0} (cast : Json → A) (url : String) (res : Response) (v : Json)
      → is_ok res.status ≡ true
      → res.body ≡ parsed v
      → (fetch_json number_text null_message cast url (response res)).outcome ≡ ok (cast v)
  unfolding fetch_json
  accepted cast url res v good body = rw (good, fetch_json) (rw (body, json_body))

  unread :
      {A : Type 0} (cast : Json → A) (url : String) (res : Response) (message : String)
      → is_ok res.status ≡ true
      → res.body ≡ unparsable message
      → (fetch_json number_text null_message cast url (response res)).outcome ≡ failed message
  unfolding fetch_json
  unread cast url res message good body = rw (good, fetch_json) (rw (body, json_body))

  reported :
      {A : Type 0} (cast : Json → A) (url : String) (res : Response)
      → is_ok res.status ≡ false
      → fetch_json number_text null_message cast url (response res)
        ≡ warned number_text null_message url (error_message number_text null_message res)
  unfolding fetch_json
  reported cast url res bad = rw (bad, fetch_json)

  fetched :
      {A : Type 0} (cast : Json → A) (url : String) (res : Response) (a : A)
      → (fetch_json number_text null_message cast url (response res)).outcome ≡ ok a
      → (v : Json) × (is_ok res.status ≡ true) × (res.body ≡ parsed v) × (cast v ≡ a)
  unfolding fetch_json
  fetched cast url res a e = elim (Bool-cases (is_ok res.status)) [
    | inl good ↦ elim (Body-cases res.body) [
      | inl (v, body) ↦ (v, good, body, ok_inj (sym (accepted cast url res v good body) ∙ e))
      | inr (message, body) ↦ cc (sym (unread cast url res message good body) ∙ e)
    ]
    | inr bad ↦ cc (sym (ap (λ f. f.outcome) (reported cast url res bad)) ∙ e)
  ]

  -- `fetchJSON` gives a value exactly for an answer with a status from 200 to 299 whose body
  -- parses, and the value is that body.
  pub fetch_json-ok_iff :
      {A : Type 0} (cast : Json → A) (url : String) (reply : Reply) (a : A)
      → ((fetch_json number_text null_message cast url reply).outcome ≡ ok a) ↔ (
          (res : Response) × (v : Json) × (reply ≡ response res)
          × (is_ok res.status ≡ true)
          × (res.body ≡ parsed v)
          × (cast v ≡ a))
  unfolding fetch_json
  fetch_json-ok_iff cast url (rejected message) a = ((λ e. cc), (λ p. cc (p.2)))
  fetch_json-ok_iff cast url (response res) a = (
    (λ e. let (v, good, body, same) = fetched cast url res a e in (res, v, refl, good, body, same)),
    (λ (r, v, same, good, body, e).
        ap (λ q. (fetch_json number_text null_message cast url q).outcome) same
        ∙ accepted cast url r v good body
        ∙ ap ok e),
  )

  error_message-detail :
      (res : Response) (fields : Fields) (s : String)
      → res.body ≡ parsed (obj fields)
      → member "detail" fields ≡ some (text s)
      → error_message number_text null_message res
        ≡ (if truthy s then s else standard_message number_text null_message res.status)
  unfolding error_message detail_or truthy_json js_text
  error_message-detail res fields s body detail = rw (body, error_message) (rw (detail, detail_or))

  -- An error that the server sends with a text for `detail` has that text for its message, or,
  -- where it is empty, a message with the status; it is logged once.
  pub fetch_json-detail :
      {A : Type 0} (cast : Json → A) (url : String) (res : Response) (fields : Fields) (s : String)
      → is_ok res.status ≡ false
      → res.body ≡ parsed (obj fields)
      → member "detail" fields ≡ some (text s)
      → fetch_json number_text null_message cast url (response res)
        ≡ warned number_text null_message url
            (if truthy s then s else standard_message number_text null_message res.status)
  fetch_json-detail cast url res fields s bad body detail =
      reported cast url res bad
      ∙ ap (warned number_text null_message url) (error_message-detail res fields s body detail)
