-- ===== src/Backend/Oidc/Passing.antt =====
-- What the provider publishes is passed on.
use zerokey.Base.{◌≡◌, refl, ap, String, true, Option, none, some, List, [], ◌∷◌, value_or}
use zerokey.Api.Types.{Json, Items, Fields, text, arr, obj, nil, cons, end, field, OidcDiscoveryDoc}
use zerokey.Api.Call.{texts}
use zerokey.Api.Fetch.{member}
use zerokey.Backend.Schemas.Reading.{to_strs-texts}
use zerokey.Backend.Oidc.{
  Provider, Reply, get_discovery_doc, doc_url, read_doc, body_of, get_jwks, keys_url, read_keys,
  to_dicts, check_health, answered_200,
}

abbrev endpoint : Option String → Fields → Fields
endpoint none rest = rest
endpoint (some s) rest = field "authorization_endpoint" (text s) rest

-- A document as the provider prints it.
doc_json : OidcDiscoveryDoc → Json
unfolding texts
doc_json d = obj (
    field "issuer" (text d.issuer) (
      field "jwks_uri" (text d.jwks_uri) (
        endpoint d.authorization_endpoint (
          field "response_types_supported" (arr (texts d.response_types_supported)) (
            field "id_token_signing_alg_values_supported"
              (arr (texts d.id_token_signing_alg_values_supported)) end)))))

abbrev found : Json → Reply
found v = record { status_code = 200; body = some v }

dicts : List Fields → Items
dicts [] = nil
dicts (d ∷ ds) = cons (obj d) (dicts ds)

to_dicts-dicts : (ds : List Fields) → to_dicts (dicts ds) ≡ some ds
unfolding dicts
to_dicts-dicts [] = refl
to_dicts-dicts (d ∷ ds) = rw (to_dicts-dicts ds)

module _ (p : Provider) where
  read_doc-doc_json :
      (o : Option String) (d : OidcDiscoveryDoc)
      → d.authorization_endpoint ≡ o
      → read_doc p (doc_json d) ≡ some d
  unfolding read_doc doc_json member
  read_doc-doc_json none d e = rw e (
      rw (
        to_strs-texts d.response_types_supported,
        to_strs-texts d.id_token_signing_alg_values_supported,
      ))
  read_doc-doc_json (some s) d e = rw e (
      rw (
        to_strs-texts d.response_types_supported,
        to_strs-texts d.id_token_signing_alg_values_supported,
      ))

  -- A provider that prints a discovery document with the status 200 counts as healthy, and the
  -- backend passes the document on as it is.
  get_discovery_doc-found :
      (d : OidcDiscoveryDoc)
      → p.get (doc_url p) ≡ some (found (doc_json d))
      → (get_discovery_doc p ≡ d) × (check_health p ≡ true)
  unfolding get_discovery_doc check_health body_of answered_200
  get_discovery_doc-found d e =
      (rw e (ap (value_or _) (read_doc-doc_json d.authorization_endpoint d refl)), rw e refl)

  -- A provider that prints a list of keys with the status 200 has them passed on as they are.
  get_jwks-found :
      (ds : List Fields)
      → p.get (keys_url p) ≡ some (found (obj (field "keys" (arr (dicts ds)) end)))
      → get_jwks p ≡ ds
  unfolding get_jwks body_of read_keys member
  get_jwks-found ds e = rw e (ap (value_or _) (to_dicts-dicts ds))
