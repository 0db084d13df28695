-- ===== src/Api/Call.antt =====
-- dashboard/frontend/src/lib/api.ts, the object `api`: each of its functions with its arguments,
-- the type of its answer, and the request that it hands to `fetchJSON`.
use mathlib.Core.Option
use zerokey.Base.{ℕ, String, Bool, Option, none, some, List, [], ◌∷◌, template}
use zerokey.Base.Text.{show_ℕ}
use zerokey.Api.Types.{
  Json, Items, Fields, bool, int, text, arr, obj, nil, cons, end, field, OverviewSummary,
  WorkloadEntry, CreateEntryPayload, NodeAgent, GenerateTokenPayload, GenerateTokenResponse,
  TrustBundle, OidcDiscoveryDoc, JwksResponse, KeylessTestFlowResponse, PolicyEvaluationResponse,
  AuditLogEvent, IdentityMetrics, CreateEntryAnswer, DeleteEntryAnswer,
}

pub data Call : Type 0 where
  get_overview get_entries : Call
  create_entry : CreateEntryPayload → Call
  delete_entry : String → Call
  get_agents : Call
  generate_token : GenerateTokenPayload → Call
  get_trust_bundle get_oidc_discovery get_jwks : Call
  execute_test_flow : Bool → Call
  evaluate_policy : String → String → Call
  get_audit_logs : ℕ → Call
  get_metrics : Call

-- The type argument of `fetchJSON` in each function.
abbrev pub Answer : Call → Type 0
Answer get_overview = OverviewSummary
Answer get_entries = List WorkloadEntry
Answer (create_entry _) = CreateEntryAnswer
Answer (delete_entry _) = DeleteEntryAnswer
Answer get_agents = List NodeAgent
Answer (generate_token _) = GenerateTokenResponse
Answer get_trust_bundle = TrustBundle
Answer get_oidc_discovery = OidcDiscoveryDoc
Answer get_jwks = JwksResponse
Answer (execute_test_flow _) = KeylessTestFlowResponse
Answer (evaluate_policy _ _) = PolicyEvaluationResponse
Answer (get_audit_logs _) = List AuditLogEvent
Answer get_metrics = IdentityMetrics

pub data Method : Type 0 where
  get post delete : Method

-- `endpoint` and `options` as `fetchJSON` receives them; the body is the value that
-- `JSON.stringify` prints.
pub record Options : Type 0 where
  pub endpoint : String
  pub method : Method
  pub body : Option Json

-- A member that is undefined is left out of the printed object.
abbrev optional : String → Option Json → Fields → Fields
optional name none rest = rest
optional name (some v) rest = field name v rest

unfoldable pub texts : List String → Items
texts [] = nil
texts (s ∷ rest) = cons (text s) (texts rest)

unfoldable pub create_entry_json : CreateEntryPayload → Json
unfolding texts
create_entry_json p = obj (
    field "spiffe_id" (text p.spiffe_id) (
      field "parent_id" (text p.parent_id) (
        field "selectors" (arr (texts p.selectors)) (
          optional "ttl" (Option.map int p.ttl) (
            optional "admin" (Option.map bool p.admin)
              (optional "dns_names" (Option.map (λ names. arr (texts names)) p.dns_names) end))))))

unfoldable pub generate_token_json : GenerateTokenPayload → Json
generate_token_json p =
    obj (field "spiffe_id" (text p.spiffe_id) (optional "ttl" (Option.map int p.ttl) end))

-- A GET has no options.
abbrev plain : String → Options
plain endpoint = record { endpoint = endpoint; method = get; body = none }

abbrev posted : String → Json → Options
posted endpoint body = record { endpoint = endpoint; method = post; body = some body }

unfoldable pub options_of : Call → Options
unfolding show_ℕ create_entry_json generate_token_json
options_of get_overview = plain "/api/overview"
options_of get_entries = plain "/api/entries"
options_of (create_entry payload) = posted "/api/entries" (create_entry_json payload)
options_of (delete_entry entry_id) = record {
  endpoint = template ("/api/entries/" ∷ entry_id ∷ []);
  method = delete;
  body = none;
}
options_of get_agents = plain "/api/agents"
options_of (generate_token payload) = posted "/api/agents/token" (generate_token_json payload)
options_of get_trust_bundle = plain "/api/bundles"
options_of get_oidc_discovery = plain "/api/oidc/discovery"
options_of get_jwks = plain "/api/oidc/keys"
options_of (execute_test_flow simulate_unauthorized) =
    posted "/api/simulator/execute"
      (obj (field "simulate_unauthorized" (bool simulate_unauthorized) end))
options_of (evaluate_policy client_spiffe_id required_spiffe_id) =
    posted "/api/simulator/evaluate-policy" (
      obj (
        field "client_spiffe_id" (text client_spiffe_id)
          (field "required_spiffe_id" (text required_spiffe_id) end)))
options_of (get_audit_logs limit) =
    plain (template ("/api/telemetry/logs?limit=" ∷ show_ℕ limit ∷ []))
options_of get_metrics = plain "/api/telemetry/metrics"
