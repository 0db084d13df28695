-- ===== src/Oidc/View.antt =====
-- dashboard/frontend/src/app/oidc/page.tsx: what the OIDC page shows.
use zerokey.Base.{
  ℕ, suc, String, Bool, false, Option, none, some, List, [], ◌∷◌, or_text, template, join, str_eq,
  length, is_empty, not, if◌then◌else◌,
}
use zerokey.Base.Text.{show_ℕ}
use zerokey.Api.Types.{OidcDiscoveryDoc, Jwk, TrustBundle}
use zerokey.Oidc.{State, key_mark, keys_of}

pub record DiscoveryView : Type 0 where
  pub issuer : String
  pub jwks_uri : String
  pub algorithms : String

pub record KeyView : Type 0 where
  pub alg : String
  pub kid : String
  pub kty : String
  pub usage : String
  pub exponent : String
  pub copied : Bool

pub record Screen : Type 0 where
  pub discovery : Option DiscoveryView
  pub key_count : String
  -- `none` where the page says that no keys came
  pub keys : Option (List KeyView)
  pub bundle_copied : Bool
  pub bundle : Option String

discovery_view : Option OidcDiscoveryDoc → Option DiscoveryView
discovery_view none = none
discovery_view (some doc) = some (record {
  issuer = doc.issuer;
  jwks_uri = doc.jwks_uri;
  algorithms = join ", " doc.id_token_signing_alg_values_supported;
})

abbrev or_empty : Option String → String
or_empty none = ""
or_empty (some s) = s

-- `copiedKey === mark`
abbrev pub is_marked : Option String → String → Bool
is_marked none mark = false
is_marked (some copied) mark = str_eq copied mark

key_view : Option String → Jwk → ℕ → KeyView
unfolding key_mark
key_view copied key idx = record {
  alg = or_text key.alg "RS256";
  kid = template ("kid: " ∷ or_text key.kid "unknown" ∷ []);
  kty = key.kty;
  usage = or_text key.usage "sig";
  exponent = or_text (or_empty key.e) "AQAB";
  copied = is_marked copied (key_mark key idx);
}

key_views : Option String → ℕ → List Jwk → List KeyView
unfolding key_view
key_views copied idx [] = []
key_views copied idx (key ∷ keys) = key_view copied key idx ∷ key_views copied (suc idx) keys

bundle_view : Option TrustBundle → Option String
bundle_view none = none
bundle_view (some bundle) = some (join "\n" bundle.x509_authorities_pem)

unfoldable pub screen : State → Screen
unfolding discovery_view key_views bundle_view keys_of
screen s = record {
  discovery = discovery_view s.discovery_doc;
  key_count = template (show_ℕ (length (keys_of s.jwks)) ∷ " active public key(s)" ∷ []);
  keys =
      if not (is_empty (keys_of s.jwks))
      then some (key_views s.copied_key 0 (keys_of s.jwks))
      else none;
  bundle_copied = is_marked s.copied_key "bundle";
  bundle = bundle_view s.bundle;
}
