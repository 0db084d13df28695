-- ===== src/Backend/App/Dumps.antt =====
-- dashboard/backend/app/models/schemas.py, the answers: the JSON value that the framework sends for
-- each (`model_dump`), where a field without a value is `null`. The keys of the OIDC provider are
-- sent as they came.
use zerokey.Base.{String, Option, none, some, List, [], ◌∷◌}
use zerokey.Api.Types.{
  Json, Items, Fields, null, bool, int, decimal, text, arr, obj, nil, cons, end, field,
  OverviewSummary, WorkloadEntry, NodeAgent, GenerateTokenResponse, TrustBundle, OidcDiscoveryDoc,
  HandshakeStep, KeylessTestFlowResponse, PolicyEvaluationResponse, AuditLogEvent, IdentityMetrics,
  CreateEntryAnswer, DeleteEntryAnswer,
}
use zerokey.Api.Call.{texts}
use zerokey.Backend.Socket.{event_json}

abbrev pub optional_text : Option String → Json
optional_text none = null
optional_text (some s) = text s

abbrev pub text_list : List String → Json
text_list ss = arr (texts ss)

abbrev pub items_of : {A : Type 0} → (A → Json) → List A → Items
items_of dump [] = nil
items_of dump (a ∷ rest) = cons (dump a) (items_of dump rest)

abbrev pub overview_json : OverviewSummary → Json
overview_json v = obj (
    field "trust_domain" (text v.trust_domain) (
      field "spire_server_healthy" (bool v.spire_server_healthy) (
        field "spire_agent_count" (int v.spire_agent_count) (
          field "workload_entries_count" (int v.workload_entries_count) (
            field "oidc_healthy" (bool v.oidc_healthy) (
              field "backend_api_healthy" (bool v.backend_api_healthy) (
                field "active_svids" (int v.active_svids)
                  (field "system_version" (text v.system_version) end))))))))

abbrev pub entry_json : WorkloadEntry → Json
entry_json v = obj (
    field "id" (text v.id) (
      field "spiffe_id" (text v.spiffe_id) (
        field "parent_id" (text v.parent_id) (
          field "selectors" (text_list v.selectors) (
            field "ttl" (int v.ttl) (
              field "admin" (bool v.admin) (
                field "dns_names" (text_list v.dns_names) (
                  field "created_at" (optional_text v.created_at)
                    (field "expires_at" (optional_text v.expires_at) end)))))))))

abbrev pub created_json : CreateEntryAnswer → Json
created_json v = obj (
    field "status" (text v.status) (
      field "entry_id" (text v.entry_id)
        (field "spiffe_id" (text v.spiffe_id) (field "message" (text v.message) end))))

-- The handler's own dictionary.
abbrev pub deleted_json : DeleteEntryAnswer → Json
deleted_json v = obj (field "status" (text v.status) (field "message" (text v.message) end))

abbrev pub agent_json : NodeAgent → Json
agent_json v = obj (
    field "spiffe_id" (text v.spiffe_id) (
      field "attested_at" (optional_text v.attested_at) (
        field "expires_at" (optional_text v.expires_at) (
          field "serial_number" (optional_text v.serial_number)
            (field "status" (text v.status) (field "selectors" (text_list v.selectors) end))))))

abbrev pub token_json : GenerateTokenResponse → Json
token_json v = obj (
    field "token" (text v.token) (
      field "spiffe_id" (text v.spiffe_id)
        (field "ttl" (int v.ttl) (field "docker_command" (text v.docker_command) end))))

abbrev pub bundle_json : TrustBundle → Json
bundle_json v = obj (
    field "trust_domain" (text v.trust_domain) (
      field "x509_authorities_count" (int v.x509_authorities_count) (
        field "x509_authorities_pem" (text_list v.x509_authorities_pem)
          (field "jwt_authorities_count" (int v.jwt_authorities_count) end))))

abbrev pub discovery_json : OidcDiscoveryDoc → Json
discovery_json v = obj (
    field "issuer" (text v.issuer) (
      field "jwks_uri" (text v.jwks_uri) (
        field "authorization_endpoint" (optional_text v.authorization_endpoint) (
          field "response_types_supported" (text_list v.response_types_supported) (
            field "id_token_signing_alg_values_supported"
              (text_list v.id_token_signing_alg_values_supported) end)))))

abbrev pub keys_json : List Fields → Json
keys_json keys = obj (field "keys" (arr (items_of obj keys)) end)

abbrev pub step_json : HandshakeStep → Json
step_json v = obj (
    field "step_number" (int v.step_number) (
      field "title" (text v.title) (
        field "actor" (text v.actor) (
          field "status" (text v.status)
            (field "details" (text v.details) (field "timestamp" (text v.timestamp) end))))))

abbrev pub flow_json : KeylessTestFlowResponse → Json
flow_json v = obj (
    field "status" (text v.status) (
      field "message" (text v.message) (
        field "client_spiffe_id" (text v.client_spiffe_id) (
          field "server_spiffe_id" (text v.server_spiffe_id) (
            field "latency_ms" (decimal v.latency_ms) (
              field "status_code" (int v.status_code) (
                field "timestamp" (text v.timestamp) (
                  field "payload" (obj v.payload) (
                    field "handshake_steps" (arr (items_of step_json v.handshake_steps))
                      end)))))))))

abbrev pub policy_json : PolicyEvaluationResponse → Json
policy_json v = obj (
    field "allowed" (bool v.allowed) (
      field "decision_reason" (text v.decision_reason) (
        field "client_spiffe_id" (text v.client_spiffe_id) (
          field "required_spiffe_id" (text v.required_spiffe_id)
            (field "timestamp" (text v.timestamp) end)))))

abbrev pub logs_json : List AuditLogEvent → Json
logs_json events = arr (items_of event_json events)

abbrev pub metrics_json : IdentityMetrics → Json
metrics_json v = obj (
    field "svid_rotations_total" (int v.svid_rotations_total) (
      field "active_trust_domains" (int v.active_trust_domains) (
        field "mtls_handshakes_success_rate" (decimal v.mtls_handshakes_success_rate) (
          field "average_handshake_latency_ms" (decimal v.average_handshake_latency_ms) (
            field "attestation_rate_per_min" (decimal v.attestation_rate_per_min)
              (field "recent_policy_denials" (int v.recent_policy_denials) end))))))
