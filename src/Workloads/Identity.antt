-- ===== src/Workloads/Identity.antt =====
-- src/app/pkg/spiffe/spiffe.go, and what it and the two programs rely on of the library go-spiffe,
-- whose type of SPIFFE IDs is any type here.
use zerokey.Base.{
  ◌≡◌, refl, ◌↔◌, String, Bool, true, false, ◌||◌, Option, none, some, List, [], ◌∷◌, str_eq,
  template, if◌then◌else◌,
}
use zerokey.Base.Text.{strip}
use zerokey.Runtime.Async.{Outcome, ok, failed}

-- A URI of a certificate, of which a pointer may be nil, and a certificate.
pub record Uri : Type 0 where
  pub scheme : String
  pub printed : String

pub record Certificate : Type 0 where
  pub uris : List (Option Uri)
  pub not_after : String

-- `spiffeid.FromString`, `String`, `IsZero`, the equality of the type, `tlsconfig.AuthorizeID`, and
-- whether two peers whose certificates are valid connect, given their authorizers; `certificates`
-- are those of a workload with this ID. `quote` is the verb `%q`.
pub record SpiffeLibrary (SpiffeId : Type 0) : Type 0 where
  pub from_string : String → Outcome SpiffeId
  pub printed_id : SpiffeId → String
  pub is_zero : SpiffeId → Bool
  pub same_id : SpiffeId → SpiffeId → Bool
  pub authorize_id : SpiffeId → SpiffeId → Bool
  pub connects : (SpiffeId → Bool) → (SpiffeId → Bool) → SpiffeId → SpiffeId → Bool
  pub certificates : SpiffeId → List Certificate
  pub trust_domain : SpiffeId → String
  pub quote : String → String
  -- an ID is printed as the text it was read from, which has no white space, and is not zero
  pub printed-from_string : (s : String) (i : SpiffeId) → from_string s ≡ ok i → printed_id i ≡ s
  pub strip-from_string : (s : String) (i : SpiffeId) → from_string s ≡ ok i → strip s ≡ s
  pub is_zero-from_string : (s : String) (i : SpiffeId) → from_string s ≡ ok i → is_zero i ≡ false
  -- and two IDs that are printed alike are the same
  pub printed_id_inj : (i j : SpiffeId) → printed_id i ≡ printed_id j → i ≡ j
  pub same_id_iff : (i j : SpiffeId) → (same_id i j ≡ true) ↔ (i ≡ j)
  pub authorize_id_iff : (i j : SpiffeId) → (authorize_id i j ≡ true) ↔ (j ≡ i)
  -- over a connection that stands, between workloads whose certificates the bundle of the other one
  -- verifies, the handshake succeeds exactly if each side accepts the other
  pub connects_iff :
      (by_server by_client : SpiffeId → Bool) (server client : SpiffeId)
      → (connects by_server by_client server client ≡ true)
        ↔ ((by_server client ≡ true) × (by_client server ≡ true))
  -- the certificate of a workload has its ID as its one URI
  pub certificate_of : SpiffeId → Certificate
  pub certificates-first : (i : SpiffeId) → certificates i ≡ certificate_of i ∷ []
  pub uris-certificate_of :
      (i : SpiffeId)
      → (certificate_of i).uris ≡ some (record { scheme = "spiffe"; printed = printed_id i }) ∷ []

first_spiffe : List (Option Uri) → Option String
first_spiffe [] = none
first_spiffe (none ∷ rest) = first_spiffe rest
first_spiffe (some uri ∷ rest) =
    let later = first_spiffe rest in if str_eq uri.scheme "spiffe" then some uri.printed else later

first_uri : List (Option Uri) → String
first_uri (some uri ∷ rest) = uri.printed
first_uri _ = "unknown"

unfoldable pub extract_peer_spiffe_id : List Certificate → String
unfolding first_spiffe first_uri
extract_peer_spiffe_id [] = "unknown"
extract_peer_spiffe_id (cert ∷ _) = elim (first_spiffe cert.uris) [
  | some id ↦ id
  | none ↦ first_uri cert.uris
]

-- A certificate with one URI, a SPIFFE ID.
pub extract_peer_spiffe_id-single :
    (cert : Certificate) (id : String) (rest : List Certificate)
    → cert.uris ≡ some (record { scheme = "spiffe"; printed = id }) ∷ []
    → extract_peer_spiffe_id (cert ∷ rest) ≡ id
unfolding extract_peer_spiffe_id first_spiffe
extract_peer_spiffe_id-single cert id rest e = rw e refl

pub record SvidMetadata : Type 0 where
  pub spiffe_id : String
  pub trust_domain : String
  pub expires_at : Option String

module _ {SpiffeId : Type 0} (lib : SpiffeLibrary SpiffeId) where
  unfoldable pub invalid : String → Outcome SpiffeId → Outcome SpiffeId
  invalid uri (ok i) = ok i
  invalid uri (failed err) =
      failed (template ("invalid SPIFFE ID " ∷ lib.quote uri ∷ ": " ∷ err ∷ []))

  unfoldable pub parse_id : String → Outcome SpiffeId
  unfolding invalid
  parse_id uri =
      if str_eq uri ""
      then failed "SPIFFE ID cannot be empty"
      else invalid uri (lib.from_string uri)

  unfoldable pub is_authorized : SpiffeId → SpiffeId → Bool
  is_authorized presented authorized =
      if lib.is_zero presented || lib.is_zero authorized
      then false
      else lib.same_id presented authorized

  abbrev pub new_svid_metadata : SpiffeId → Option Certificate → SvidMetadata
  new_svid_metadata id cert = record {
    spiffe_id = lib.printed_id id;
    trust_domain = lib.trust_domain id;
    expires_at = elim cert [ none ↦ none | some c ↦ some c.not_after ];
  }
