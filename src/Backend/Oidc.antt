-- ===== src/Backend/Oidc.antt =====
-- dashboard/backend/app/services/oidc_service.py: the discovery document and the keys of the OIDC
-- provider, with what stands in for them. `get` is the HTTP client: the status of the reply and its
-- parsed body, where it parses, or `none` for an exception.
pub mod Passing
use zerokey.Base.{
  ℕ, String, Bool, false, Option, none, some, List, [], ◌∷◌, template, nat_eq, value_or,
  if◌then◌else◌,
}
use zerokey.Api.Types.{Json, Items, Fields, text, arr, obj, nil, cons, end, field, OidcDiscoveryDoc}
use zerokey.Api.Fetch.{member}
use zerokey.Backend.Schemas.{default, to_str, to_optional_str, to_str_list, ◌>>=◌}

pub record Reply : Type 0 where
  pub status_code : ℕ
  pub body : Option Json

pub record Provider : Type 0 where
  pub internal_url : String
  pub external_url : String
  pub trust_domain : String
  pub get : String → Option Reply

-- The body of a reply with the status 200.
body_of : Option Reply → Option Json
body_of none = none
body_of (some res) = if nat_eq res.status_code 200 then res.body else none

abbrev to_dicts : Items → Option (List Fields)
to_dicts nil = some []
to_dicts (cons (obj fields) rest) = to_dicts rest >>= λ ds. some (fields ∷ ds)
to_dicts (cons _ rest) = none

-- `List[Dict[str, Any]]`
abbrev to_dict_list : Json → Option (List Fields)
to_dict_list (arr items) = to_dicts items
to_dict_list _ = none

-- What is no dictionary, or has a member of another type, raises an exception.
read_keys : Json → Option (List Fields)
unfolding member
read_keys (obj fields) = default [] to_dict_list (member "keys" fields)
read_keys _ = none

module _ (p : Provider) where
  read_doc : Json → Option OidcDiscoveryDoc
  unfolding member
  read_doc (obj fields) = do
    issuer ← default (template ("https://" ∷ p.trust_domain ∷ [])) to_str (member "issuer" fields)
    jwks_uri ← default (template (p.external_url ∷ "/keys" ∷ [])) to_str (member "jwks_uri" fields)
    authorization_endpoint ← default none to_optional_str (member "authorization_endpoint" fields)
    response_types_supported ←
        default ("id_token" ∷ []) to_str_list (member "response_types_supported" fields)
    id_token_signing_alg_values_supported ←
        default ("RS256" ∷ "ES256" ∷ []) to_str_list
          (member "id_token_signing_alg_values_supported" fields)
    some (record {
      issuer = issuer;
      jwks_uri = jwks_uri;
      authorization_endpoint = authorization_endpoint;
      response_types_supported = response_types_supported;
      id_token_signing_alg_values_supported = id_token_signing_alg_values_supported;
    })
  read_doc _ = none

  fallback_doc : OidcDiscoveryDoc
  fallback_doc = record {
    issuer = template ("https://" ∷ p.trust_domain ∷ []);
    jwks_uri = template (p.external_url ∷ "/keys" ∷ []);
    authorization_endpoint = none;
    response_types_supported = "id_token" ∷ [];
    id_token_signing_alg_values_supported = "RS256" ∷ "ES256" ∷ "ES384" ∷ [];
  }

  abbrev pub doc_url : String
  doc_url = template (p.internal_url ∷ "/.well-known/openid-configuration" ∷ [])

  unfoldable pub get_discovery_doc : OidcDiscoveryDoc
  unfolding read_doc body_of fallback_doc
  get_discovery_doc = value_or fallback_doc (body_of (p.get doc_url) >>= read_doc)

  fallback_keys : List Fields
  fallback_keys =
      field "kty" (text "RSA") (
        field "use" (text "sig") (
          field "kid" (text "spire-demo-jwt-key-2026-08") (
            field "alg" (text "RS256") (
              field "n" (text "u1w_mock_spire_rsa_modulus_key_example_base64url_encoded")
                (field "e" (text "AQAB") end)))))
      ∷ []

  abbrev pub keys_url : String
  keys_url = template (p.internal_url ∷ "/keys" ∷ [])

  unfoldable pub get_jwks : List Fields
  unfolding read_keys body_of fallback_keys
  get_jwks = value_or fallback_keys (body_of (p.get keys_url) >>= read_keys)

  answered_200 : Option Reply → Bool
  answered_200 none = false
  answered_200 (some res) = nat_eq res.status_code 200

  unfoldable pub check_health : Bool
  unfolding answered_200
  check_health = answered_200 (p.get doc_url)
