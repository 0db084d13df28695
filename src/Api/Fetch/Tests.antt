-- ===== src/Api/Fetch/Tests.antt =====
-- `fetchJSON` on concrete replies.
use zerokey.Base.{◌≡◌, refl, ◌↔◌, String, true, some, Decimal}
use zerokey.Api.Types.{Json, text, obj, bool, end, field}
use zerokey.Runtime.Async.{ok}
use zerokey.Api.Fetch.{Response, response, parsed, is_ok, member, warned, fetch_json}
use zerokey.Api.Fetch.Outcomes.{fetch_json-ok_iff, fetch_json-detail}

abbrev fraction : Decimal → String
fraction d = "0.5"

abbrev same : Json → Json
same v = v

abbrev good : Response
good = record { status = 200; status_text = "OK"; body = parsed (bool true) }

abbrev missing : Response
missing = record {
  status = 404;
  status_text = "Not Found";
  body = parsed (obj (field "detail" (text "no such entry") end));
}

ok_example :
    ((fetch_json fraction "null" same "/api/entries" (response good)).outcome ≡ ok (bool true)) ↔ (
      (res : Response) × (v : Json) × (response good ≡ response res)
      × (is_ok res.status ≡ true)
      × (res.body ≡ parsed v)
      × (v ≡ bool true))
ok_example = fetch_json-ok_iff fraction "null" same "/api/entries" (response good) (bool true)

named : member "detail" (field "detail" (text "no such entry") end) ≡ some (text "no such entry")
unfolding member
named = refl

detail_example :
    fetch_json fraction "null" same "/api/entries/e1" (response missing)
    ≡ warned fraction "null" "/api/entries/e1" "no such entry"
detail_example =
    fetch_json-detail fraction "null" same "/api/entries/e1" missing
      (field "detail" (text "no such entry") end) "no such entry" refl refl named
