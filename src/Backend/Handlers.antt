-- ===== src/Backend/Handlers.antt =====
-- dashboard/backend/app/api: what the handlers check and answer before, or instead of, a service.
-- The body and the text of a parameter are what the request carries.
pub mod Admission
pub mod Sent
pub mod Logs
use zerokey.Base.{
  ℕ, ℤ, pos, negsuc, String, Bool, true, false, Option, none, some, List, if◌then◌else◌,
}
use zerokey.Base.Text.{has_prefix}
use zerokey.Api.Types.{
  Json, Fields, text, AuditLogEvent, KeylessTestFlowResponse, PolicyEvaluationResponse,
}
use zerokey.Backend.Schemas.{
  Lax, CreateEntryRequest, GenerateTokenRequest, KeylessTestFlowRequest, create_entry_request,
  generate_token_request, keyless_test_flow_request, policy_evaluation_request, default, within,
  guard, ◌>>=◌,
}
use zerokey.Backend.Events.{EventService, get_logs}
use zerokey.Backend.Policy
use zerokey.Backend.Flow
use zerokey.Backend.Flow.{Surroundings, Recorded}

-- What the service behind the handler gets, or an answer with the status 422: what the schema
-- refuses, and what the handler refuses with its own `detail`.
pub data Checked (A : Type 0) : Type 0 where
  passed : A → Checked A
  invalid : Checked A
  refused : String → Checked A

-- `req.spiffe_id.startswith("spiffe://")`
abbrev pub is_spiffe : String → Bool
unfolding has_prefix
is_spiffe s = has_prefix "spiffe://" s

entry_checked : Option CreateEntryRequest → Checked CreateEntryRequest
unfolding has_prefix
entry_checked none = invalid
entry_checked (some req) =
    if is_spiffe req.spiffe_id then passed req else refused "SPIFFE ID must start with 'spiffe://'"

token_checked : Option GenerateTokenRequest → Checked GenerateTokenRequest
unfolding has_prefix
token_checked none = invalid
token_checked (some req) =
    if is_spiffe req.spiffe_id
    then passed req
    else refused "Agent SPIFFE ID must start with 'spiffe://'"

module _ (lax : Lax) where
  -- A body is required.
  unfoldable pub create_entry : Option Json → Checked CreateEntryRequest
  unfolding entry_checked
  create_entry none = invalid
  create_entry (some body) = entry_checked (create_entry_request lax body)

  unfoldable pub generate_join_token : Option Json → Checked GenerateTokenRequest
  unfolding token_checked
  generate_join_token none = invalid
  generate_join_token (some body) = token_checked (generate_token_request lax body)

  -- Without a body the request is that of the schema's defaults.
  unfoldable pub test_request : Option Json → Option KeylessTestFlowRequest
  test_request none = some (record {
    client_container = some "client-worker";
    target_url = some "https://backend-api:8443/api/secret-data";
    simulate_unauthorized = false;
  })
  test_request (some body) = keyless_test_flow_request lax body

  unfoldable pub execute_test_flow :
      Surroundings → Option Json → Option (KeylessTestFlowResponse × Recorded)
  unfolding test_request
  execute_test_flow s body = test_request body >>= λ req. some (Flow.execute_test_flow s req)

  -- Only a limit that passed gets to the service, and it is at least 1.
  unfoldable pub to_count : ℤ → ℕ
  to_count (pos n) = n
  to_count (negsuc n) = 0

  -- `limit: int = Query(default=50, ge=1, le=100)`
  unfoldable pub get_audit_logs : EventService → Option String → Option (List AuditLogEvent)
  unfolding to_count
  get_audit_logs service none = some (get_logs 50 service)
  get_audit_logs service (some limit) = do
    n ← lax.to_int (text limit)
    _ ← guard (within (pos 1) (pos 100) n)
    some (get_logs (to_count n) service)

unfoldable pub evaluate_policy : String → String → Option Json → Option PolicyEvaluationResponse
evaluate_policy trust_domain now none = none
evaluate_policy trust_domain now (some body) =
    policy_evaluation_request body >>= λ req. some (Policy.evaluate_policy trust_domain now req)
