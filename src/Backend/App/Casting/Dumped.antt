-- ===== src/Backend/App/Casting/Dumped.antt =====
-- The cast gives back what was sent.
use zerokey.Base.{◌≡◌, refl, sym, ap, ◌∙◌, some_inj, String, Option, none, some, List, [], ◌∷◌}
use zerokey.Api.Types.{
  Json, OverviewSummary, WorkloadEntry, NodeAgent, TrustBundle, OidcDiscoveryDoc, HandshakeStep,
  KeylessTestFlowResponse, AuditLogEvent,
}
use zerokey.Api.Call.{Call, Answer, texts}
use zerokey.Api.Fetch.{member}
use zerokey.Backend.Socket.{event_json}
use zerokey.Backend.App.Client.{dump}
use zerokey.Backend.App.Dumps.{
  optional_text, items_of, overview_json, entry_json, agent_json, bundle_json, discovery_json,
  step_json, flow_json,
}
use zerokey.Backend.App.Casting.{
  as_optional, list_of, strings, at, overview_of, entry_of, created_of, deleted_of, agent_of,
  token_of, bundle_of, discovery_of, step_of, flow_of, policy_of, event_of, metrics_of, cast_of,
}

strings-texts : (ss : List String) → strings (texts ss) ≡ ss
unfolding texts
strings-texts [] = refl
strings-texts (s ∷ ss) = ap (λ r. s ∷ r) (strings-texts ss)

as_optional-optional_text : (o : Option String) → as_optional (some (optional_text o)) ≡ o
as_optional-optional_text none = refl
as_optional-optional_text (some s) = refl

list_of-items_of :
    {A : Type 0} (read : Json → A) (dumped : A → Json)
    → ((a : A) → read (dumped a) ≡ a)
    → (xs : List A) → list_of read (items_of dumped xs) ≡ xs
list_of-items_of read dumped h [] = refl
list_of-items_of read dumped h (x ∷ xs) =
    rw (h x) (ap (λ r. x ∷ r) (list_of-items_of read dumped h xs))

overview_of-overview_json : (a : OverviewSummary) → overview_of (overview_json a) ≡ a
unfolding overview_of at member
overview_of-overview_json a = refl

entry_of-entry_json : (a : WorkloadEntry) → entry_of (entry_json a) ≡ a
unfolding entry_of at member
entry_of-entry_json a =
    rw
      (
        strings-texts a.selectors,
        strings-texts a.dns_names,
        as_optional-optional_text a.created_at,
        as_optional-optional_text a.expires_at,
      )
      refl

agent_of-agent_json : (a : NodeAgent) → agent_of (agent_json a) ≡ a
unfolding agent_of at member
agent_of-agent_json a =
    rw
      (
        as_optional-optional_text a.attested_at,
        as_optional-optional_text a.expires_at,
        as_optional-optional_text a.serial_number,
        strings-texts a.selectors,
      )
      refl

bundle_of-bundle_json : (a : TrustBundle) → bundle_of (bundle_json a) ≡ a
unfolding bundle_of at member
bundle_of-bundle_json a = rw (strings-texts a.x509_authorities_pem) refl

discovery_of-discovery_json : (a : OidcDiscoveryDoc) → discovery_of (discovery_json a) ≡ a
unfolding discovery_of at member
discovery_of-discovery_json a =
    rw
      (
        as_optional-optional_text a.authorization_endpoint,
        strings-texts a.response_types_supported,
        strings-texts a.id_token_signing_alg_values_supported,
      )
      refl

step_of-step_json : (a : HandshakeStep) → step_of (step_json a) ≡ a
unfolding step_of at member
step_of-step_json a = refl

flow_of-flow_json : (a : KeylessTestFlowResponse) → flow_of (flow_json a) ≡ a
unfolding flow_of at member
flow_of-flow_json a =
    rw (list_of-items_of step_of step_json step_of-step_json a.handshake_steps) refl

pub event_of-event_json : (a : AuditLogEvent) → event_of (event_json a) ≡ a
unfolding event_of at member
event_of-event_json a = refl

pub cast_of-dump : (c : Call) (a : Answer c) (v : Json) → dump c a ≡ some v → cast_of c v ≡ a
unfolding cast_of created_of deleted_of token_of policy_of metrics_of at member
cast_of-dump Call.get_overview a v e =
    ap overview_of (sym (some_inj e)) ∙ overview_of-overview_json a
cast_of-dump Call.get_entries a v e =
    ap (cast_of Call.get_entries) (sym (some_inj e))
    ∙ list_of-items_of entry_of entry_json entry_of-entry_json a
cast_of-dump (Call.create_entry p) a v e = ap created_of (sym (some_inj e))
cast_of-dump (Call.delete_entry id) a v e = ap deleted_of (sym (some_inj e))
cast_of-dump Call.get_agents a v e =
    ap (cast_of Call.get_agents) (sym (some_inj e))
    ∙ list_of-items_of agent_of agent_json agent_of-agent_json a
cast_of-dump (Call.generate_token p) a v e = ap token_of (sym (some_inj e))
cast_of-dump Call.get_trust_bundle a v e = ap bundle_of (sym (some_inj e)) ∙ bundle_of-bundle_json a
cast_of-dump Call.get_oidc_discovery a v e =
    ap discovery_of (sym (some_inj e)) ∙ discovery_of-discovery_json a
cast_of-dump Call.get_jwks a v e = cc
cast_of-dump (Call.execute_test_flow simulate) a v e =
    ap flow_of (sym (some_inj e)) ∙ flow_of-flow_json a
cast_of-dump (Call.evaluate_policy caller required) a v e = ap policy_of (sym (some_inj e))
cast_of-dump (Call.get_audit_logs limit) a v e =
    ap (cast_of (Call.get_audit_logs limit)) (sym (some_inj e))
    ∙ list_of-items_of event_of event_json event_of-event_json a
cast_of-dump Call.get_metrics a v e = ap metrics_of (sym (some_inj e))
