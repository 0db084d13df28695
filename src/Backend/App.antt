-- ===== src/Backend/App.antt =====
-- dashboard/backend/app/main.py and app/api: the whole application, from a request to its response
-- and to the audit events after it. What the framework answers by itself is a parameter: `errors`
-- are the objects of a refused validation, `unrouted` is the answer where no route fits, and
-- `raised_reply` is what `fetch` gives where a request raised: the framework answers that with 500
-- outside of its CORS headers, which a browser may refuse.
pub mod Dumps
pub mod Noted
pub mod Client
pub mod Decisions
pub mod Feed
pub mod Removal
pub mod Casting
pub mod Tests
use zerokey.Base.{
  ℕ, ℤ, pos, Decimal, String, Bool, true, false, Option, none, some, List, [], ◌∷◌, if◌then◌else◌,
}
use zerokey.Api.Types.{
  Json, Items, Fields, text, arr, obj, nil, cons, end, field, AuditLogEvent, IdentityMetrics,
  CreateEntryAnswer, GenerateTokenResponse, KeylessTestFlowResponse, PolicyEvaluationResponse,
}
use zerokey.Api.Fetch.{Body, parsed, Response, Reply}
use zerokey.Backend.App.Dumps.{
  overview_json, entry_json, created_json, deleted_json, agent_json, token_json, bundle_json,
  discovery_json, keys_json, flow_json, policy_json, logs_json, metrics_json, items_of,
}
use zerokey.Backend.Schemas.{Lax, CreateEntryRequest, GenerateTokenRequest}
use zerokey.Backend.Events.{EventService, default_max}
use zerokey.Backend.Events.Sending.{Broadcasting, Move, start, moved, turns_left, is_raised}
use zerokey.Backend.Routes.{Route}
use zerokey.Backend.Handlers
use zerokey.Backend.Handlers.{Checked, passed, invalid, refused}
use zerokey.Backend.Spire
use zerokey.Backend.Spire.{Host}
use zerokey.Backend.Spire.Listing.{list_entries}
use zerokey.Backend.Spire.Nodes.{list_agents}
use zerokey.Backend.Oidc
use zerokey.Backend.Oidc.{Provider}
use zerokey.Backend.Summary.{get_overview}
use zerokey.Backend.Flow.{Surroundings, Recorded}

-- What a request meets: the services' surroundings, the settings, the framework, the sockets, what
-- other tasks do while the broadcast of its event waits for them, and the identifier and the time
-- of that event.
pub record Environment : Type 0 where
  pub host : Host
  pub provider : Provider
  pub surroundings : Surroundings
  pub lax : Lax
  pub project_name : String
  pub version : String
  pub reason_phrase : ℕ → String
  pub errors : Option Json → Items
  pub unrouted : Response
  pub raised_reply : Reply
  pub exposition : Body
  pub sends : ℕ → Bool
  pub meanwhile : List Move
  pub event_id : String
  pub event_time : String

-- `GET /api/telemetry/metrics`
abbrev pub identity_metrics : IdentityMetrics
identity_metrics = record {
  svid_rotations_total = pos 42;
  active_trust_domains = pos 1;
  mtls_handshakes_success_rate = record { mantissa = pos 998; scale = 1 };
  average_handshake_latency_ms = record { mantissa = pos 146; scale = 1 };
  attestation_rate_per_min = record { mantissa = pos 52; scale = 1 };
  recent_policy_denials = pos 0;
}

module _ (env : Environment) where
  abbrev pub answered : ℕ → Json → Response
  answered status v = record {
    status = status;
    status_text = env.reason_phrase status;
    body = parsed v;
  }

  -- `HTTPException` with its `detail`, and a request that the schema refuses.
  abbrev pub exception : ℕ → String → Response
  exception status detail = answered status (obj (field "detail" (text detail) end))

  abbrev pub unprocessable : Option Json → Response
  unprocessable body = answered 422 (obj (field "detail" (arr (env.errors body)) end))

  abbrev pub event_of : Recorded → AuditLogEvent
  event_of r = record {
    id = env.event_id;
    timestamp = env.event_time;
    event_type = r.event_type;
    actor = r.actor;
    target = r.target;
    status = r.status;
    details = r.details;
  }

  -- The broadcast of the event: what happens meanwhile, and then the rest of its turns.
  unfoldable pub noting : Recorded → EventService → Broadcasting
  unfolding start moved turns_left
  noting r s =
      let b : Broadcasting =
        moved default_max env.sends env.meanwhile (start default_max (event_of r) s) in
      moved default_max env.sends (turns_left b.flight.left) b

  unfoldable pub noted : Recorded → EventService → EventService
  unfolding noting
  noted r s = (noting r s).service

  -- Whether the broadcast raises, and with it the request that recorded the event.
  unfoldable pub is_cut : Recorded → EventService → Bool
  unfolding noting is_raised
  is_cut r s = is_raised (noting r s).flight.stage

  -- The response of a request that has recorded an event, if it does not raise.
  unfoldable pub recorded_response :
      Recorded → Response → EventService → Option Response × EventService
  unfolding noted is_cut
  recorded_response r response s = (if is_cut r s then none else some response, noted r s)

  entry_response :
      Option Json → Checked CreateEntryRequest → EventService → Option Response × EventService
  unfolding recorded_response Spire.create_entry
  entry_response body (passed req) s =
      let (answer, recorded) = Spire.create_entry env.host req in
      recorded_response recorded (answered 201 (created_json answer)) s
  entry_response body invalid s = (some (unprocessable body), s)
  entry_response body (refused detail) s = (some (exception 422 detail), s)

  token_response :
      Option Json → Checked GenerateTokenRequest → EventService → Option Response × EventService
  unfolding recorded_response Spire.generate_join_token
  token_response body (passed req) s =
      let (answer, recorded) = Spire.generate_join_token env.host req in
      recorded_response recorded (answered 201 (token_json answer)) s
  token_response body invalid s = (some (unprocessable body), s)
  token_response body (refused detail) s = (some (exception 422 detail), s)

  flow_response :
      Option Json
      → Option (KeylessTestFlowResponse × Recorded)
      → EventService
      → Option Response × EventService
  unfolding recorded_response
  flow_response body (some (answer, recorded)) s =
      recorded_response recorded (answered 200 (flow_json answer)) s
  flow_response body none s = (some (unprocessable body), s)

  policy_response : Option Json → Option PolicyEvaluationResponse → Response
  policy_response body (some answer) = answered 200 (policy_json answer)
  policy_response body none = unprocessable body

  logs_response : Option (List AuditLogEvent) → Response
  logs_response (some events) = answered 200 (logs_json events)
  logs_response none = unprocessable none

  deletion_response : String → EventService → Option Response × EventService
  unfolding recorded_response Spire.delete_entry
  deletion_response entry_id s =
      let (answer, recorded) = Spire.delete_entry env.host entry_id in
      recorded_response recorded (answered 200 (deleted_json answer)) s

  -- The response to a request, none if it raises, and the audit events and sockets after it.
  unfoldable pub app : Option Route → EventService → Option Response × EventService
  unfolding entry_response token_response flow_response policy_response logs_response
      deletion_response get_overview list_entries list_agents Spire.get_bundle
      Oidc.get_discovery_doc Oidc.get_jwks Oidc.check_health Handlers.create_entry
      Handlers.generate_join_token Handlers.execute_test_flow Handlers.evaluate_policy
      Handlers.get_audit_logs
  app none s = (some env.unrouted, s)
  app (some Route.get_overview) s = (
    some (
        answered 200
          (overview_json (get_overview env.host (Oidc.check_health env.provider) env.version))),
    s,
  )
  app (some Route.list_entries) s =
      (some (answered 200 (arr (items_of entry_json (list_entries env.host)))), s)
  app (some (Route.create_entry body)) s =
      entry_response body (Handlers.create_entry env.lax body) s
  app (some (Route.delete_entry entry_id)) s = deletion_response entry_id s
  app (some Route.list_agents) s =
      (some (answered 200 (arr (items_of agent_json (list_agents env.host)))), s)
  app (some (Route.generate_join_token body)) s =
      token_response body (Handlers.generate_join_token env.lax body) s
  app (some Route.get_bundle) s = (some (answered 200 (bundle_json (Spire.get_bundle env.host))), s)
  app (some Route.get_discovery) s =
      (some (answered 200 (discovery_json (Oidc.get_discovery_doc env.provider))), s)
  app (some Route.get_keys) s = (some (answered 200 (keys_json (Oidc.get_jwks env.provider))), s)
  app (some (Route.execute_test_flow body)) s =
      flow_response body (Handlers.execute_test_flow env.lax env.surroundings body) s
  app (some (Route.evaluate_policy body)) s = (
    some (
        policy_response body
          (Handlers.evaluate_policy env.surroundings.trust_domain env.surroundings.now body)),
    s,
  )
  app (some (Route.get_audit_logs limit)) s =
      (some (logs_response (Handlers.get_audit_logs env.lax s limit)), s)
  app (some Route.get_metrics) s = (some (answered 200 (metrics_json identity_metrics)), s)
  app (some Route.health_check) s = (
    some (
        answered 200 (
          obj (
            field "status" (text "healthy") (
              field "service" (text env.project_name) (
                field "version" (text env.version)
                  (field "trust_domain" (text env.host.trust_domain) end)))))),
    s,
  )
  app (some Route.prometheus_metrics) s = (
    some (record { status = 200; status_text = env.reason_phrase 200; body = env.exposition }),
    s,
  )
