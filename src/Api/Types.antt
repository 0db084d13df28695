-- ===== src/Api/Types.antt =====
-- dashboard/frontend/src/lib/api.ts, the interfaces: what the backend's answers carry. An optional
-- field is an `Option`. A number is an integer where the backend sends an integer, and a `Decimal`
-- where it sends a fraction. The open records (`payload`, the other members of a key) are kept as
-- the JSON values that they are.
use zerokey.Base.{ℤ, Decimal, String, Bool, Option, List}

-- A JSON value. Its arrays and objects are types of the block.
mutual
  pub data Json : Type 0 where
    null : Json
    bool : Bool → Json
    int : ℤ → Json
    decimal : Decimal → Json
    text : String → Json
    arr : Items → Json
    obj : Fields → Json

  pub data Items : Type 0 where
    nil : Items
    cons : Json → Items → Items

  pub data Fields : Type 0 where
    end : Fields
    field : String → Json → Fields → Fields

pub record OverviewSummary : Type 0 where
  pub trust_domain : String
  pub spire_server_healthy : Bool
  pub spire_agent_count : ℤ
  pub workload_entries_count : ℤ
  pub oidc_healthy : Bool
  pub backend_api_healthy : Bool
  pub active_svids : ℤ
  pub system_version : String

pub record WorkloadEntry : Type 0 where
  pub id : String
  pub spiffe_id : String
  pub parent_id : String
  pub selectors : List String
  pub ttl : ℤ
  pub admin : Bool
  pub dns_names : List String
  pub created_at : Option String
  pub expires_at : Option String

pub record CreateEntryPayload : Type 0 where
  pub spiffe_id : String
  pub parent_id : String
  pub selectors : List String
  pub ttl : Option ℤ
  pub admin : Option Bool
  pub dns_names : Option (List String)

pub record NodeAgent : Type 0 where
  pub spiffe_id : String
  pub attested_at : Option String
  pub expires_at : Option String
  pub serial_number : Option String
  pub status : String
  pub selectors : List String

pub record GenerateTokenPayload : Type 0 where
  pub spiffe_id : String
  pub ttl : Option ℤ

pub record GenerateTokenResponse : Type 0 where
  pub token : String
  pub spiffe_id : String
  pub ttl : ℤ
  pub docker_command : String

pub record TrustBundle : Type 0 where
  pub trust_domain : String
  pub x509_authorities_count : ℤ
  pub x509_authorities_pem : List String
  pub jwt_authorities_count : ℤ

pub record OidcDiscoveryDoc : Type 0 where
  pub issuer : String
  pub jwks_uri : String
  pub authorization_endpoint : Option String
  pub response_types_supported : List String
  pub id_token_signing_alg_values_supported : List String

-- One element of `JWKSResponse.keys`; `usage` is its member `use`.
pub record Jwk : Type 0 where
  pub kty : String
  pub kid : String
  pub usage : String
  pub alg : String
  pub n : Option String
  pub e : Option String
  pub others : Fields

pub record JwksResponse : Type 0 where
  pub keys : List Jwk

pub record HandshakeStep : Type 0 where
  pub step_number : ℤ
  pub title : String
  pub actor : String
  pub status : String
  pub details : String
  pub timestamp : String

pub record KeylessTestFlowResponse : Type 0 where
  pub status : String
  pub message : String
  pub client_spiffe_id : String
  pub server_spiffe_id : String
  pub latency_ms : Decimal
  pub status_code : ℤ
  pub timestamp : String
  pub payload : Fields
  pub handshake_steps : List HandshakeStep

pub record PolicyEvaluationResponse : Type 0 where
  pub allowed : Bool
  pub decision_reason : String
  pub client_spiffe_id : String
  pub required_spiffe_id : String
  pub timestamp : String

pub record AuditLogEvent : Type 0 where
  pub id : String
  pub timestamp : String
  pub event_type : String
  pub actor : String
  pub target : String
  pub status : String
  pub details : String

pub record IdentityMetrics : Type 0 where
  pub svid_rotations_total : ℤ
  pub active_trust_domains : ℤ
  pub mtls_handshakes_success_rate : Decimal
  pub average_handshake_latency_ms : Decimal
  pub attestation_rate_per_min : Decimal
  pub recent_policy_denials : ℤ

-- What `createEntry` and `deleteEntry` answer.
pub record CreateEntryAnswer : Type 0 where
  pub status : String
  pub entry_id : String
  pub spiffe_id : String
  pub message : String

pub record DeleteEntryAnswer : Type 0 where
  pub status : String
  pub message : String
