-- ===== src/Backend/App/Casting.antt =====
-- A cast that reads the fields of an answer by their names, for the concrete runs.
pub mod Dumped
use zerokey.Base.{
  ℤ, pos, Decimal, ◌≡◌, refl, sym, ap, ◌∙◌, some_inj, String, Bool, false, Option, none, some, List,
  [], ◌∷◌,
}
use zerokey.Api.Types.{
  Json, Items, Fields, null, bool, int, decimal, text, arr, obj, nil, cons, end, field,
  OverviewSummary, WorkloadEntry, NodeAgent, GenerateTokenResponse, TrustBundle, OidcDiscoveryDoc,
  HandshakeStep, KeylessTestFlowResponse, PolicyEvaluationResponse, AuditLogEvent, IdentityMetrics,
  CreateEntryAnswer, DeleteEntryAnswer,
}
use zerokey.Api.Call
use zerokey.Api.Call.{Call, Answer, texts}
use zerokey.Api.Fetch.{member}
use zerokey.Backend.Socket.{event_json}
use zerokey.Backend.App.Client.{dump}
use zerokey.Backend.App.Dumps.{
  optional_text, items_of, overview_json, entry_json, created_json, deleted_json, agent_json,
  token_json, bundle_json, discovery_json, step_json, flow_json, policy_json, logs_json,
  metrics_json,
}

abbrev as_text : Option Json → String
as_text (some (text s)) = s
as_text _ = ""

abbrev as_optional : Option Json → Option String
as_optional (some (text s)) = some s
as_optional _ = none

abbrev as_int : Option Json → ℤ
as_int (some (int n)) = n
as_int _ = pos 0

abbrev as_bool : Option Json → Bool
as_bool (some (bool b)) = b
as_bool _ = false

abbrev as_decimal : Option Json → Decimal
as_decimal (some (decimal d)) = d
as_decimal _ = record { mantissa = pos 0; scale = 0 }

abbrev as_items : Option Json → Items
as_items (some (arr items)) = items
as_items _ = nil

abbrev as_fields : Option Json → Fields
as_fields (some (obj fields)) = fields
as_fields _ = end

abbrev list_of : {A : Type 0} → (Json → A) → Items → List A
list_of read nil = []
list_of read (cons v rest) = read v ∷ list_of read rest

abbrev strings : Items → List String
strings items = list_of (λ v. as_text (some v)) items

abbrev at : String → Json → Option Json
unfolding member
at name v = member name (as_fields (some v))

overview_of : Json → OverviewSummary
unfolding at
overview_of v = record {
  trust_domain = as_text (at "trust_domain" v);
  spire_server_healthy = as_bool (at "spire_server_healthy" v);
  spire_agent_count = as_int (at "spire_agent_count" v);
  workload_entries_count = as_int (at "workload_entries_count" v);
  oidc_healthy = as_bool (at "oidc_healthy" v);
  backend_api_healthy = as_bool (at "backend_api_healthy" v);
  active_svids = as_int (at "active_svids" v);
  system_version = as_text (at "system_version" v);
}

entry_of : Json → WorkloadEntry
unfolding at
entry_of v = record {
  id = as_text (at "id" v);
  spiffe_id = as_text (at "spiffe_id" v);
  parent_id = as_text (at "parent_id" v);
  selectors = strings (as_items (at "selectors" v));
  ttl = as_int (at "ttl" v);
  admin = as_bool (at "admin" v);
  dns_names = strings (as_items (at "dns_names" v));
  created_at = as_optional (at "created_at" v);
  expires_at = as_optional (at "expires_at" v);
}

created_of : Json → CreateEntryAnswer
unfolding at
created_of v = record {
  status = as_text (at "status" v);
  entry_id = as_text (at "entry_id" v);
  spiffe_id = as_text (at "spiffe_id" v);
  message = as_text (at "message" v);
}

deleted_of : Json → DeleteEntryAnswer
unfolding at
deleted_of v = record { status = as_text (at "status" v); message = as_text (at "message" v) }

agent_of : Json → NodeAgent
unfolding at
agent_of v = record {
  spiffe_id = as_text (at "spiffe_id" v);
  attested_at = as_optional (at "attested_at" v);
  expires_at = as_optional (at "expires_at" v);
  serial_number = as_optional (at "serial_number" v);
  status = as_text (at "status" v);
  selectors = strings (as_items (at "selectors" v));
}

token_of : Json → GenerateTokenResponse
unfolding at
token_of v = record {
  token = as_text (at "token" v);
  spiffe_id = as_text (at "spiffe_id" v);
  ttl = as_int (at "ttl" v);
  docker_command = as_text (at "docker_command" v);
}

bundle_of : Json → TrustBundle
unfolding at
bundle_of v = record {
  trust_domain = as_text (at "trust_domain" v);
  x509_authorities_count = as_int (at "x509_authorities_count" v);
  x509_authorities_pem = strings (as_items (at "x509_authorities_pem" v));
  jwt_authorities_count = as_int (at "jwt_authorities_count" v);
}

discovery_of : Json → OidcDiscoveryDoc
unfolding at
discovery_of v = record {
  issuer = as_text (at "issuer" v);
  jwks_uri = as_text (at "jwks_uri" v);
  authorization_endpoint = as_optional (at "authorization_endpoint" v);
  response_types_supported = strings (as_items (at "response_types_supported" v));
  id_token_signing_alg_values_supported =
      strings (as_items (at "id_token_signing_alg_values_supported" v));
}

step_of : Json → HandshakeStep
unfolding at
step_of v = record {
  step_number = as_int (at "step_number" v);
  title = as_text (at "title" v);
  actor = as_text (at "actor" v);
  status = as_text (at "status" v);
  details = as_text (at "details" v);
  timestamp = as_text (at "timestamp" v);
}

flow_of : Json → KeylessTestFlowResponse
unfolding at
flow_of v = record {
  status = as_text (at "status" v);
  message = as_text (at "message" v);
  client_spiffe_id = as_text (at "client_spiffe_id" v);
  server_spiffe_id = as_text (at "server_spiffe_id" v);
  latency_ms = as_decimal (at "latency_ms" v);
  status_code = as_int (at "status_code" v);
  timestamp = as_text (at "timestamp" v);
  payload = as_fields (at "payload" v);
  handshake_steps = list_of step_of (as_items (at "handshake_steps" v));
}

policy_of : Json → PolicyEvaluationResponse
unfolding at
policy_of v = record {
  allowed = as_bool (at "allowed" v);
  decision_reason = as_text (at "decision_reason" v);
  client_spiffe_id = as_text (at "client_spiffe_id" v);
  required_spiffe_id = as_text (at "required_spiffe_id" v);
  timestamp = as_text (at "timestamp" v);
}

pub event_of : Json → AuditLogEvent
unfolding at
event_of v = record {
  id = as_text (at "id" v);
  timestamp = as_text (at "timestamp" v);
  event_type = as_text (at "event_type" v);
  actor = as_text (at "actor" v);
  target = as_text (at "target" v);
  status = as_text (at "status" v);
  details = as_text (at "details" v);
}

metrics_of : Json → IdentityMetrics
unfolding at
metrics_of v = record {
  svid_rotations_total = as_int (at "svid_rotations_total" v);
  active_trust_domains = as_int (at "active_trust_domains" v);
  mtls_handshakes_success_rate = as_decimal (at "mtls_handshakes_success_rate" v);
  average_handshake_latency_ms = as_decimal (at "average_handshake_latency_ms" v);
  attestation_rate_per_min = as_decimal (at "attestation_rate_per_min" v);
  recent_policy_denials = as_int (at "recent_policy_denials" v);
}

pub cast_of : (c : Call) → Json → Answer c
unfolding overview_of entry_of created_of deleted_of agent_of token_of bundle_of discovery_of
    flow_of policy_of event_of metrics_of
cast_of Call.get_overview v = overview_of v
cast_of Call.get_entries v = list_of entry_of (as_items (some v))
cast_of (Call.create_entry p) v = created_of v
cast_of (Call.delete_entry id) v = deleted_of v
cast_of Call.get_agents v = list_of agent_of (as_items (some v))
cast_of (Call.generate_token p) v = token_of v
cast_of Call.get_trust_bundle v = bundle_of v
cast_of Call.get_oidc_discovery v = discovery_of v
cast_of Call.get_jwks v = record { keys = [] }
cast_of (Call.execute_test_flow simulate) v = flow_of v
cast_of (Call.evaluate_policy caller required) v = policy_of v
cast_of (Call.get_audit_logs limit) v = list_of event_of (as_items (some v))
cast_of Call.get_metrics v = metrics_of v
