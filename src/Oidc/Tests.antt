-- ===== src/Oidc/Tests.antt =====
-- The OIDC page on concrete inputs.
use zerokey.Oidc.Settling.{oidc_settles}
use zerokey.Runtime.World.Settling.{Comes}
use zerokey.Base.{
  ◌++◌, ◌≡◌, refl, pos, String, true, false, none, some, is_some, List, [], ◌∷◌, All,
}
use zerokey.Api.Types.{end, Jwk, OidcDiscoveryDoc, JwksResponse, TrustBundle}
use zerokey.Api.Call.{get_oidc_discovery, get_jwks, get_trust_bundle}
use zerokey.Runtime.Async.{ok, failed}
use zerokey.Runtime.World.{World, Server, Event, act, respond, fire, step, after}
use zerokey.Oidc.{State, Action, refresh, copy_key, init, page}
use zerokey.Oidc.Together.{Together, IsReading, after-Together}
use zerokey.Oidc.Rounds.{backwards, reading_round}

abbrev key_text : Jwk → String
key_text key = key.kid

abbrev discovery : OidcDiscoveryDoc
discovery = record {
  issuer = "https://oidc.local";
  jwks_uri = "https://oidc.local/keys";
  authorization_endpoint = none;
  response_types_supported = "id_token" ∷ [];
  id_token_signing_alg_values_supported = "RS256" ∷ [];
}

abbrev one_key : JwksResponse
one_key = record {
  keys =
      record {
        kty = "RSA";
        kid = "k1";
        usage = "sig";
        alg = "RS256";
        n = none;
        e = none;
        others = end;
      }
      ∷ [];
}

abbrev authorities : TrustBundle
authorities = record {
  trust_domain = "demo.local";
  x509_authorities_count = pos 1;
  x509_authorities_pem = "pem" ∷ [];
  jwt_authorities_count = pos 1;
}

abbrev willing : Server
willing get_oidc_discovery = ok discovery
willing get_jwks = ok one_key
willing get_trust_bundle = ok authorities
willing _ = failed "unknown"

abbrev half : Server
half get_jwks = failed "no route"
half c = willing c

-- The three answers come backwards, and a key is copied.
abbrev read_and_copied : List (Event Action)
read_and_copied =
    respond 0 2 willing ∷ respond 0 1 willing ∷ respond 0 0 willing ∷ act (copy_key 0) ∷ fire 0 ∷ []

-- A second reading fails in the middle.
abbrev read_again : List (Event Action)
read_again =
    respond 0 2 willing
    ∷ respond 0 0 willing
    ∷ respond 0 1 willing
    ∷ act refresh
    ∷ respond 0 1 half
    ∷ []

settled : (after (page key_text) read_and_copied).waiting ≡ []
unfolding after page step
settled = refl

marked :
    is_some
      (after (page key_text) (
        respond 0 2 willing
        ∷ respond 0 1 willing
        ∷ respond 0 0 willing
        ∷ act (copy_key 0)
        ∷ [])).state.copied_key
    ≡ true
unfolding after page step
marked = refl

three_parts_example :
    Together (after (page key_text) read_again).state
    × All IsReading (after (page key_text) read_again).sent
    × ((after (page key_text) read_again).unhandled ≡ [])
three_parts_example = after-Together key_text read_again

abbrev world : World State
world = record { state = init; waiting = []; sent = []; effects = []; unhandled = [] }

reading_example :
    step (page key_text) (respond 0 0 willing) (
      step
        (page key_text)
        (respond 0 1 willing)
        (step (page key_text) (respond 0 2 willing) (step (page key_text) (act refresh) world)))
    ≡ record world {
      state = record init {
        discovery_doc = some discovery;
        jwks = some one_key;
        bundle = some authorities;
        loading = false;
      };
      sent = get_oidc_discovery ∷ get_jwks ∷ get_trust_bundle ∷ [];
    }
reading_example =
    reading_round key_text world backwards willing discovery one_key authorities refl refl refl

oidc_settles_example :
    (more : List (Event Action)) × All (Comes half) more
    × ((after (page key_text) (read_again ++ more)).waiting ≡ [])
    × ((after (page key_text) (read_again ++ more)).state.loading ≡ false)
    × (is_some (after (page key_text) (read_again ++ more)).state.copied_key ≡ false)
oidc_settles_example = oidc_settles key_text half read_again
