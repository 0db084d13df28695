-- ===== src/Workloads/Tests.antt =====
-- The workloads on concrete inputs, with texts for SPIFFE IDs.
use zerokey.Base.{
  ◌≡◌, refl, sym, ap, ◌∙◌, ◌↔◌, inl, inr, String, Bool, true, false, ◌&&◌, none, some, [], ◌∷◌,
  str_eq, eq_iff, Bool-cases, if◌then◌else◌,
}
use zerokey.Base.Text.{strip, has_prefix}
use zerokey.Api.Types.{Fields, text, obj}
use zerokey.Api.Fetch.{member}
use zerokey.Runtime.Async.{Outcome, ok, failed}
use zerokey.Backend.Policy.{evaluate_policy}
use zerokey.Workloads.Identity.{Certificate, SpiffeLibrary, invalid, parse_id, is_authorized}
use zerokey.Base.{Option}
use zerokey.Workloads.Mutual.{
  Url, evaluate_policy-is_authorized, served, exit_code, exit_code-zero_iff,
}

abbrev plain : String → Bool
unfolding has_prefix strip
plain s = has_prefix "spiffe://" s && str_eq (strip s) s

from_string : String → Outcome String
unfolding plain
from_string s = if plain s then ok s else failed "no SPIFFE ID"

ok_text_inj : {a b : String} → Path (Outcome String) (ok a) (ok b) → a ≡ b
ok_text_inj e = cc

read_plain : (s i : String) → from_string s ≡ ok i → (plain s ≡ true) × (s ≡ i)
unfolding from_string
read_plain s i h = elim (Bool-cases (plain s)) [
  | inl good ↦ (good, ok_text_inj (sym (taken good) ∙ h))
  | inr bad ↦ cc (refused bad, h)
]
  where
    taken : plain s ≡ true → from_string s ≡ ok s
    taken e = rw e refl

    refused : plain s ≡ false → from_string s ≡ failed "no SPIFFE ID"
    refused e = rw e refl

both_true : (a b : Bool) → (a && b) ≡ true → (a ≡ true) × (b ≡ true)
both_true true b h = (refl, h)
both_true false b h = cc

both_iff : (a b : Bool) → ((a && b) ≡ true) ↔ ((a ≡ true) × (b ≡ true))
both_iff a b = (both_true a b, λ (p, q). rw (p, q) refl)

plain-strip : (s : String) → plain s ≡ true → strip s ≡ s
unfolding plain
plain-strip s h =
    (eq_iff (strip s) s).0 (both_true (has_prefix "spiffe://" s) (str_eq (strip s) s) h).1

nonempty : (s : String) → plain s ≡ true → str_eq s "" ≡ false
unfolding plain
nonempty s h = elim (Bool-cases (str_eq s "")) [
  | inl empty ↦ cc (ap plain ((eq_iff s "").0 empty), h, not_plain)
  | inr named ↦ named
]
  where
    not_plain : plain "" ≡ false
    not_plain = refl

abbrev certificate : String → Certificate
certificate i = record {
  uris = some (record { scheme = "spiffe"; printed = i }) ∷ [];
  not_after = "2030-01-01T00:00:00Z";
}

abbrev lib : SpiffeLibrary String
lib = record {
  from_string = from_string;
  printed_id = λ i. i;
  is_zero = λ i. str_eq i "";
  same_id = λ i j. str_eq i j;
  authorize_id = λ i j. str_eq j i;
  connects = λ by_server by_client server client. by_server client && by_client server;
  certificates = λ i. certificate i ∷ [];
  trust_domain = λ i. "demo.local";
  quote = λ s. s;
  printed-from_string = λ s i h. sym (read_plain s i h).1;
  strip-from_string = λ s i h. plain-strip s (read_plain s i h).0;
  is_zero-from_string =
      λ s i h. ap (λ t. str_eq t "") (sym (read_plain s i h).1) ∙ nonempty s (read_plain s i h).0;
  printed_id_inj = λ i j e. e;
  same_id_iff = λ i j. eq_iff i j;
  authorize_id_iff = λ i j. eq_iff j i;
  connects_iff =
      λ by_server by_client server client. both_iff (by_server client) (by_client server);
  certificate_of = certificate;
  certificates-first = λ i. refl;
  uris-certificate_of = λ i. refl;
}

abbrev worker : String
worker = "spiffe://demo.local/client-worker"

abbrev backend : String
backend = "spiffe://demo.local/backend-api"

worker_read : parse_id lib worker ≡ ok worker
unfolding parse_id invalid from_string plain has_prefix strip
worker_read = refl

backend_read : parse_id lib backend ≡ ok backend
unfolding parse_id invalid from_string plain has_prefix strip
backend_read = refl

policy_example :
    (evaluate_policy "demo.local" ""
      (record { client_spiffe_id = backend; required_spiffe_id = worker })).allowed
    ≡ is_authorized lib backend worker
policy_example =
    evaluate_policy-is_authorized lib "demo.local" "" backend worker backend worker backend_read
      worker_read

-- Nothing is set.
abbrev unset : String → String
unset key = ""

abbrev server_at : Url
server_at = record {
  scheme = "https";
  host = "backend-api";
  port = "8443";
  path = "/api/secret-data";
}

abbrev read_url : String → Option Url
read_url url = some server_at

abbrev dials : String → String → String → Bool
dials host port listening = str_eq host "backend-api" && str_eq port listening

exit_example :
    ((exit_code lib unset unset read_url dials "" (λ s. none) (λ v. "") backend worker ≡ 0)
      ↔ ((server_at.scheme ≡ "https") × (dials server_at.host server_at.port "8443" ≡ true))
        × ((worker ≡ worker) × (backend ≡ backend)))
    × ((fields : Fields) × (served lib unset unset read_url dials ""
            (λ s. none)
            (λ v. "")
            "/api/secret-data"
            backend
            worker
          ≡ some (obj fields))
        × (member "authenticated_client_spiffe_id" fields ≡ some (text worker)))
exit_example =
    exit_code-zero_iff lib unset unset read_url dials "" (λ s. none) (λ v. "") worker backend
      worker_read backend_read
      (record { scheme = "https"; host = "backend-api"; port = "8443"; path = "/api/secret-data" })
      refl refl backend worker
