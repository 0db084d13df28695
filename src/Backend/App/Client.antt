-- ===== src/Backend/App/Client.antt =====
-- The dashboard's client in front of the application: from a call to the value or the error that
-- the page gets. `cast` is the unchecked cast of a parsed body to the type of the call's answer.
pub mod Meant
use Prim.Native.String
use zerokey.Base.{
  ℕ, ◌≤◌, ◌≡◌, refl, ap, ◌∙◌, inl, inr, Decimal, String, true, Option, none, some, Bool-cases,
  truthy, if◌then◌else◌,
}
use zerokey.Base.Text.{show_ℕ}
use zerokey.Api.Types.{Json, text, arr, field, end, CreateEntryPayload, GenerateTokenPayload}
use zerokey.Api.Call.{Call, Answer, options_of}
use zerokey.Api.Fetch.{Reply, Response, response, fetch_json, is_ok, member}
use zerokey.Api.Fetch.Outcomes.{accepted, fetch_json-detail}
use zerokey.Runtime.Async.{Outcome, ok, failed}
use zerokey.Runtime.World.{Server}
use zerokey.Entries.Requests.{IsComplete}
use zerokey.Agents.Requests.{IsAgentCall}
use zerokey.Backend.Events.{EventService, get_logs}
use zerokey.Backend.Routes.{route}
use zerokey.Backend.Routes.Reaching.{IsPlain, Reaches, handler_of, route-options_of}
use zerokey.Backend.Schemas.Reading.{request_of}
use zerokey.Backend.Handlers
use zerokey.Backend.Handlers.{is_spiffe, to_count}
use zerokey.Backend.Handlers.Admission.{entry-IsAdmitted, token-IsAdmitted, token_request_of}
use zerokey.Backend.Handlers.Sent.{flow_of, evaluate_policy-sent, execute_test_flow-sent}
use zerokey.Backend.Handlers.Logs.{logs_limited}
use zerokey.Backend.Spire
use zerokey.Backend.Spire.Listing.{list_entries}
use zerokey.Backend.Spire.Nodes.{list_agents}
use zerokey.Backend.Oidc
use zerokey.Backend.Summary.{get_overview}
use zerokey.Backend.Policy
use zerokey.Backend.App.{
  Environment, app, identity_metrics, answered, exception, entry_response, token_response,
  flow_response, policy_response, logs_response, deletion_response, is_cut,
}
use zerokey.Backend.Flow.{Recorded}
use zerokey.Backend.App.Dumps.{
  overview_json, entry_json, created_json, deleted_json, agent_json, token_json, bundle_json,
  discovery_json, keys_json, flow_json, policy_json, logs_json, metrics_json, items_of,
}

-- The value that is sent for an answer; the keys are sent as they came from their provider.
abbrev pub dump : (c : Call) → Answer c → Option Json
dump Call.get_overview a = some (overview_json a)
dump Call.get_entries a = some (arr (items_of entry_json a))
dump (Call.create_entry p) a = some (created_json a)
dump (Call.delete_entry id) a = some (deleted_json a)
dump Call.get_agents a = some (arr (items_of agent_json a))
dump (Call.generate_token p) a = some (token_json a)
dump Call.get_trust_bundle a = some (bundle_json a)
dump Call.get_oidc_discovery a = some (discovery_json a)
dump Call.get_jwks a = none
dump (Call.execute_test_flow simulate) a = some (flow_json a)
dump (Call.evaluate_policy caller required) a = some (policy_json a)
dump (Call.get_audit_logs limit) a = some (logs_json a)
dump Call.get_metrics a = some (metrics_json a)

-- What the pages send.
abbrev pub IsSound : Call → Type 0
IsSound (Call.delete_entry id) = IsPlain id
IsSound (Call.create_entry p) = IsComplete p
IsSound (Call.generate_token p) = IsAgentCall (Call.generate_token p)
IsSound (Call.get_audit_logs limit) = (1 ≤ limit) × (limit ≤ 100)
IsSound _ = Unit

IsSound-Reaches : (c : Call) → IsSound c → Reaches c
IsSound-Reaches (Call.delete_entry id) h = h
IsSound-Reaches Call.get_overview h = tt
IsSound-Reaches Call.get_entries h = tt
IsSound-Reaches (Call.create_entry p) h = tt
IsSound-Reaches Call.get_agents h = tt
IsSound-Reaches (Call.generate_token p) h = tt
IsSound-Reaches Call.get_trust_bundle h = tt
IsSound-Reaches Call.get_oidc_discovery h = tt
IsSound-Reaches Call.get_jwks h = tt
IsSound-Reaches (Call.execute_test_flow simulate) h = tt
IsSound-Reaches (Call.evaluate_policy caller required) h = tt
IsSound-Reaches (Call.get_audit_logs limit) h = tt
IsSound-Reaches Call.get_metrics h = tt

-- What `fetch` gives of a request.
abbrev pub reply_of : Environment → Option Response → Reply
reply_of env none = env.raised_reply
reply_of env (some r) = response r

module _ (number_text : Decimal → String) (null_message : String)
    (query : String → String → Option String) (cast : (c : Call) → Json → Answer c) where
  -- The application as the pages see it.
  pub client : Environment → EventService → Server
  client env s c =
      (fetch_json number_text null_message (cast c) (options_of c).endpoint
        (reply_of env (app env (route query (options_of c)) s).0)).outcome

  module _ (env : Environment) (s : EventService) where
    -- What the page gets where the request has recorded `r`: the value, or what the client makes of
    -- a request that raised.
    abbrev pub unless_cut : (c : Call) → Recorded → Answer c → Outcome (Answer c)
    unless_cut c r a =
        if is_cut env r s
        then (fetch_json number_text null_message (cast c) (options_of c).endpoint
            env.raised_reply).outcome
        else ok a

    -- What the services give, or the handler's own refusal.
    abbrev pub meant : (c : Call) → Outcome (Answer c)
    meant Call.get_overview =
        ok (get_overview env.host (Oidc.check_health env.provider) env.version)
    meant Call.get_entries = ok (list_entries env.host)
    meant (Call.create_entry p) =
        if is_spiffe p.spiffe_id
        then unless_cut (Call.create_entry p) (Spire.create_entry env.host (request_of p)).1
            (Spire.create_entry env.host (request_of p)).0
        else failed "SPIFFE ID must start with 'spiffe://'"
    meant (Call.delete_entry id) =
        unless_cut (Call.delete_entry id) (Spire.delete_entry env.host id).1
          (Spire.delete_entry env.host id).0
    meant Call.get_agents = ok (list_agents env.host)
    meant (Call.generate_token p) =
        if is_spiffe p.spiffe_id
        then unless_cut (Call.generate_token p)
            (Spire.generate_join_token env.host (token_request_of p)).1
            (Spire.generate_join_token env.host (token_request_of p)).0
        else failed "Agent SPIFFE ID must start with 'spiffe://'"
    meant Call.get_trust_bundle = ok (Spire.get_bundle env.host)
    meant Call.get_oidc_discovery = ok (Oidc.get_discovery_doc env.provider)
    meant Call.get_jwks = ok (cast Call.get_jwks (keys_json (Oidc.get_jwks env.provider)))
    meant (Call.execute_test_flow simulate) =
        unless_cut (Call.execute_test_flow simulate) (flow_of env.surroundings simulate).1
          (flow_of env.surroundings simulate).0
    meant (Call.evaluate_policy caller required) = ok (
        Policy.evaluate_policy env.surroundings.trust_domain env.surroundings.now
          (record { client_spiffe_id = caller; required_spiffe_id = required }))
    meant (Call.get_audit_logs limit) = ok (get_logs limit s)
    meant Call.get_metrics = ok identity_metrics
