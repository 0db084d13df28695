-- ===== src/Oidc.antt =====
-- dashboard/frontend/src/app/oidc/page.tsx: the page of the OIDC discovery document, the published
-- keys and the trust bundle. `stringify key` is the text `JSON.stringify(key, null, 2)`.
pub mod View
pub mod Loading
pub mod Together
pub mod Copying
pub mod Rounds
pub mod Settling
mod Tests
use zerokey.Base.{
  ℕ, pos, String, Bool, true, false, Option, none, some, List, [], ◌∷◌, or_text, template, join,
  get_elem?,
}
use zerokey.Base.Text.{show_ℕ}
use zerokey.Api.Types.{OidcDiscoveryDoc, Jwk, JwksResponse, TrustBundle}
use zerokey.Api.Call.{get_oidc_discovery, get_jwks, get_trust_bundle}
use zerokey.Runtime.Async.{
  Async, Promise, plain, pure, sleep, ◌>>=◌, ◌>>◌, catch, finally, modify, perform, all,
  console_error, write_clipboard,
}
use zerokey.Runtime.World.{Page}

pub record State : Type 0 where
  pub discovery_doc : Option OidcDiscoveryDoc
  pub jwks : Option JwksResponse
  pub bundle : Option TrustBundle
  pub loading : Bool
  pub copied_key : Option String

abbrev pub init : State
init = record {
  discovery_doc = none;
  jwks = none;
  bundle = none;
  loading = true;
  copied_key = none;
}

abbrev set_discovery_doc : Option OidcDiscoveryDoc → State → State
set_discovery_doc v s = record s { discovery_doc = v }

abbrev set_jwks : Option JwksResponse → State → State
set_jwks v s = record s { jwks = v }

abbrev set_bundle : Option TrustBundle → State → State
set_bundle v s = record s { bundle = v }

abbrev set_loading : Bool → State → State
set_loading v s = record s { loading = v }

abbrev set_copied_key : Option String → State → State
set_copied_key v s = record s { copied_key = v }

abbrev pub requests : List Promise
requests = plain get_oidc_discovery ∷ plain get_jwks ∷ plain get_trust_bundle ∷ []

unfoldable pub load_oidc : Async State (Unit {0})
load_oidc =
    finally
      (catch
        (do
          modify (set_loading true)
          (disc_data, (jwks_data, (bundle_data, _))) ← all requests
          modify (set_discovery_doc (some disc_data))
          modify (set_jwks (some jwks_data))
          modify (set_bundle (some bundle_data)))
        (λ message.
          perform (console_error (template ("Failed to fetch OIDC information " ∷ message ∷ [])))))
      (modify (set_loading false))

-- The mark is taken away two seconds later.
unfoldable pub copy_text : String → String → Async State (Unit {0})
copy_text text id = do
  perform (write_clipboard text)
  modify (set_copied_key (some id))
  sleep 2000 (modify (set_copied_key none))

-- `key.kid || String(idx)`
unfoldable pub key_mark : Jwk → ℕ → String
unfolding show_ℕ
key_mark key idx = or_text key.kid (show_ℕ idx)

keys_of : Option JwksResponse → List Jwk
keys_of none = []
keys_of (some jwks) = jwks.keys

-- `bundle?.x509_authorities_pem.join("\n") || ""`
pem_text : Option TrustBundle → String
pem_text none = ""
pem_text (some bundle) = join "\n" bundle.x509_authorities_pem

pub data Action : Type 0 where
  refresh copy_bundle : Action
  copy_key : ℕ → Action

module _ (stringify : Jwk → String) where
  copy_key_at : Option Jwk → ℕ → Async State (Unit {0})
  unfolding copy_text key_mark
  copy_key_at none idx = pure tt
  copy_key_at (some key) idx = copy_text (stringify key) (key_mark key idx)

  unfoldable pub on : Action → State → Async State (Unit {0})
  unfolding load_oidc copy_key_at copy_text keys_of pem_text
  on refresh s = load_oidc
  on copy_bundle s = copy_text (pem_text s.bundle) "bundle"
  on (copy_key idx) s = copy_key_at (get_elem? (keys_of s.jwks) idx) idx

  unfoldable pub page : Page State Action
  unfolding on load_oidc
  page = record { init = init; mount = load_oidc; on = on }
