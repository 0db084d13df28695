-- ===== src/Backend/Policy.antt =====
-- dashboard/backend/app/services/flow_service.py, `evaluate_policy`: the decision on a pair of
-- SPIFFE IDs. `now` is the time as the service prints it.
use zerokey.Base.{String, Bool, [], ◌∷◌, str_eq, template, if◌then◌else◌}
use zerokey.Base.Text.{strip}
use zerokey.Api.Types.{PolicyEvaluationResponse}
use zerokey.Backend.Schemas.{PolicyEvaluationRequest}

reason : String → PolicyEvaluationRequest → Bool → String
reason trust_domain req is_allowed =
    if is_allowed
    then template (
        "Client identity '" ∷ req.client_spiffe_id ∷ "' matches exact authorized SPIFFE ID '"
        ∷ req.required_spiffe_id ∷ "' within trust domain '" ∷ trust_domain ∷ "'." ∷ [])
    else template (
        "Access Denied: Caller SPIFFE ID '" ∷ req.client_spiffe_id
        ∷ "' is not in the backend authorization list (expected: '" ∷ req.required_spiffe_id ∷ "')."
        ∷ [])

is_allowed : PolicyEvaluationRequest → Bool
unfolding strip
is_allowed req = str_eq (strip req.client_spiffe_id) (strip req.required_spiffe_id)

unfoldable pub evaluate_policy :
    String → String → PolicyEvaluationRequest → PolicyEvaluationResponse
unfolding is_allowed reason
evaluate_policy trust_domain now req = record {
  allowed = is_allowed req;
  decision_reason = reason trust_domain req (is_allowed req);
  client_spiffe_id = req.client_spiffe_id;
  required_spiffe_id = req.required_spiffe_id;
  timestamp = now;
}
