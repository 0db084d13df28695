-- ===== src/Backend/App/Client/Meant.antt =====
-- What the client gets from the application is what its services give.
use Prim.Native.String
use zerokey.Base.{
  ℕ, ◌≡◌, refl, ap, ◌∙◌, inl, inr, Decimal, String, true, Option, some, Bool-cases, truthy,
}
use zerokey.Base.Text.{show_ℕ}
use zerokey.Api.Types.{Json, text, field, end, CreateEntryPayload, GenerateTokenPayload}
use zerokey.Api.Call.{Call, Answer, options_of}
use zerokey.Api.Fetch.{fetch_json, is_ok, member}
use zerokey.Api.Fetch.Outcomes.{accepted, fetch_json-detail}
use zerokey.Runtime.Async.{ok, failed}
use zerokey.Entries.Requests.{IsComplete}
use zerokey.Agents.Requests.{IsAgentCall}
use zerokey.Backend.Events.{EventService}
use zerokey.Backend.Routes.Reaching.{handler_of, route-options_of}
use zerokey.Backend.Schemas.Reading.{request_of}
use zerokey.Backend.Handlers
use zerokey.Backend.Handlers.{is_spiffe, to_count}
use zerokey.Backend.Handlers.Admission.{entry-IsAdmitted, token-IsAdmitted, token_request_of}
use zerokey.Backend.Handlers.Sent.{flow_of, evaluate_policy-sent, execute_test_flow-sent}
use zerokey.Backend.Handlers.Logs.{logs_limited}
use zerokey.Backend.Spire
use zerokey.Backend.Oidc
use zerokey.Backend.App.{
  Environment, app, answered, exception, entry_response, token_response, flow_response,
  policy_response, logs_response, deletion_response, recorded_response, is_cut,
}
use zerokey.Backend.App.Dumps.{keys_json}
use zerokey.Backend.App.Client.{dump, IsSound, IsSound-Reaches, reply_of, client, unless_cut, meant}
use zerokey.Backend.Flow.{Recorded}

module _ (number_text : Decimal → String) (null_message : String)
    (query : String → String → Option String) (cast : (c : Call) → Json → Answer c)
    (env : Environment) (s : EventService) where
  module _ (casts : (c : Call) (a : Answer c) (v : Json) → dump c a ≡ some v → cast c v ≡ a) where
    got :
        (c : Call) (a : Answer c) (v : Json) (status : ℕ) (url : String)
        → dump c a ≡ some v
        → is_ok status ≡ true
        → (fetch_json number_text null_message
            (cast c)
            url
            (reply_of env (some (answered env status v)))).outcome
          ≡ ok a
    got c a v status url d good =
        accepted number_text null_message (cast c) url (answered env status v) v good refl
        ∙ ap ok (casts c a v d)

    -- The answer after an event has been recorded.
    got_unless_cut :
        (c : Call) (a : Answer c) (v : Json) (status : ℕ) (r : Recorded)
        → dump c a ≡ some v
        → is_ok status ≡ true
        → (fetch_json number_text null_message
            (cast c)
            (options_of c).endpoint
            (reply_of env (recorded_response env r (answered env status v) s).0)).outcome
          ≡ unless_cut number_text null_message query cast env s c r a
    unfolding recorded_response
    got_unless_cut c a v status r d good = elim (Bool-cases (is_cut env r s)) [
      | inl cut ↦ rw cut refl
      | inr whole ↦ rw whole (got c a v status (options_of c).endpoint d good)
    ]

    refusal :
        (c : Call) (url detail : String)
        → truthy detail ≡ true
        → (fetch_json number_text null_message
            (cast c)
            url
            (reply_of env (some (exception env 422 detail)))).outcome
          ≡ failed detail
    unfolding member
    refusal c url detail named =
        ap (λ f. f.outcome)
          (fetch_json-detail number_text null_message (cast c) url (exception env 422 detail)
            (field "detail" (text detail) end) detail refl refl refl)
        ∙ rw named refl

    entry_meant :
        (p : CreateEntryPayload) (body : Option Json)
        → IsComplete p
        → (fetch_json number_text null_message
            (cast (Call.create_entry p))
            (options_of (Call.create_entry p)).endpoint
            (reply_of env
              (entry_response env body
                (Handlers.create_entry env.lax (options_of (Call.create_entry p)).body)
                s).0)).outcome
          ≡ meant number_text null_message query cast env s (Call.create_entry p)
    unfolding entry_response
    entry_meant p body h = elim (Bool-cases (is_spiffe p.spiffe_id)) [
      | inl prefixed ↦
          rw (entry-IsAdmitted env.lax p h, prefixed)
            (got_unless_cut (Call.create_entry p) (Spire.create_entry env.host (request_of p)).0 _
              201 (Spire.create_entry env.host (request_of p)).1 refl refl)
      | inr bare ↦
          rw (entry-IsAdmitted env.lax p h, bare)
            (refusal (Call.create_entry p) (options_of (Call.create_entry p)).endpoint
              "SPIFFE ID must start with 'spiffe://'" refl)
    ]

    token_meant :
        (p : GenerateTokenPayload) (body : Option Json)
        → IsAgentCall (Call.generate_token p)
        → (fetch_json number_text null_message
            (cast (Call.generate_token p))
            (options_of (Call.generate_token p)).endpoint
            (reply_of env
              (token_response env body
                (Handlers.generate_join_token env.lax (options_of (Call.generate_token p)).body)
                s).0)).outcome
          ≡ meant number_text null_message query cast env s (Call.generate_token p)
    unfolding token_response
    token_meant p body h = elim (Bool-cases (is_spiffe p.spiffe_id)) [
      | inl prefixed ↦
          rw (token-IsAdmitted env.lax p h, prefixed)
            (got_unless_cut (Call.generate_token p)
              (Spire.generate_join_token env.host (token_request_of p)).0 _ 201
              (Spire.generate_join_token env.host (token_request_of p)).1 refl refl)
      | inr bare ↦
          rw (token-IsAdmitted env.lax p h, bare)
            (refusal (Call.generate_token p) (options_of (Call.generate_token p)).endpoint
              "Agent SPIFFE ID must start with 'spiffe://'" refl)
    ]

    handled :
        (c : Call)
        → IsSound c
        → (fetch_json number_text null_message
            (cast c)
            (options_of c).endpoint
            (reply_of env (app env (some (handler_of c)) s).0)).outcome
          ≡ meant number_text null_message query cast env s c
    unfolding app handler_of options_of deletion_response flow_response policy_response
        logs_response
    handled Call.get_overview h =
        got Call.get_overview _ _ 200 (options_of Call.get_overview).endpoint refl refl
    handled Call.get_entries h =
        got Call.get_entries _ _ 200 (options_of Call.get_entries).endpoint refl refl
    handled (Call.create_entry p) h = entry_meant p _ h
    handled (Call.delete_entry id) h =
        got_unless_cut (Call.delete_entry id) (Spire.delete_entry env.host id).0 _ 200
          (Spire.delete_entry env.host id).1 refl refl
    handled Call.get_agents h =
        got Call.get_agents _ _ 200 (options_of Call.get_agents).endpoint refl refl
    handled (Call.generate_token p) h = token_meant p _ h
    handled Call.get_trust_bundle h =
        got Call.get_trust_bundle _ _ 200 (options_of Call.get_trust_bundle).endpoint refl refl
    handled Call.get_oidc_discovery h =
        got Call.get_oidc_discovery _ _ 200 (options_of Call.get_oidc_discovery).endpoint refl refl
    handled Call.get_jwks h =
        accepted number_text null_message (cast Call.get_jwks) (options_of Call.get_jwks).endpoint
          (answered env 200 (keys_json (Oidc.get_jwks env.provider))) _ refl refl
    handled (Call.execute_test_flow simulate) h =
        rw (execute_test_flow-sent env.lax env.surroundings simulate) (
          got_unless_cut (Call.execute_test_flow simulate) (flow_of env.surroundings simulate).0 _
            200 (flow_of env.surroundings simulate).1 refl refl)
    handled (Call.evaluate_policy caller required) h =
        rw (evaluate_policy-sent env.surroundings.trust_domain env.surroundings.now caller required)
          (got (Call.evaluate_policy caller required) _ _ 200
            (options_of (Call.evaluate_policy caller required)).endpoint refl refl)
    handled (Call.get_audit_logs limit) (low, high) = rw (logs_limited env.lax s limit low high) (
        got (Call.get_audit_logs limit) _ _ 200 (options_of (Call.get_audit_logs limit)).endpoint
          refl refl)
    handled Call.get_metrics h =
        got Call.get_metrics _ _ 200 (options_of Call.get_metrics).endpoint refl refl

    -- `query` reads the parameter that stands alone in the query, and is a number.
    module _
        (reads : (n : ℕ) → query "limit" (String.◌++◌ "limit=" (show_ℕ n)) ≡ some (show_ℕ n)) where
      -- For each call that a page may send (a complete registration, a token request with its
      -- bounds, a plain identifier, a limit from 1 to 100), and a cast that gives back what was
      -- sent: the client gets what the service behind the handler gives, across the route, the
      -- body, the schema, the status and the parsed answer; only a SPIFFE ID without the prefix is
      -- refused, and then with the handler's own text. Where the broadcast of the event that the
      -- request records is cut by what happens meanwhile, the client gets what `fetchJSON` makes
      -- of a request that raised; no other call can raise.
      pub client-meant :
          (c : Call)
          → IsSound c
          → client number_text null_message query cast env s c
            ≡ meant number_text null_message query cast env s c
      unfolding client
      client-meant c h =
          ap
            (λ r.
              (fetch_json number_text null_message (cast c) (options_of c).endpoint
                (reply_of env (app env r s).0)).outcome)
            (route-options_of query reads c (IsSound-Reaches c h))
          ∙ handled c h
