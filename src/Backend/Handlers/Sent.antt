-- ===== src/Backend/Handlers/Sent.antt =====
-- The handlers of the playground on what the client sends.
use zerokey.Base.{◌≡◌, refl, String, Bool, some}
use zerokey.Api.Types.{KeylessTestFlowResponse}
use zerokey.Api.Fetch.{member}
use zerokey.Api.Call
use zerokey.Api.Call.{options_of}
use zerokey.Backend.Schemas.{Lax, policy_evaluation_request, keyless_test_flow_request}
use zerokey.Backend.Policy
use zerokey.Backend.Flow
use zerokey.Backend.Flow.{Surroundings, Recorded}
use zerokey.Backend.Handlers.{evaluate_policy, execute_test_flow, test_request}

-- The decision on the two identities that the client sends.
pub evaluate_policy-sent :
    (trust_domain now client required : String)
    → evaluate_policy trust_domain now (options_of (Call.evaluate_policy client required)).body
      ≡ some (
          Policy.evaluate_policy trust_domain now
            (record { client_spiffe_id = client; required_spiffe_id = required }))
unfolding evaluate_policy options_of policy_evaluation_request member
evaluate_policy-sent trust_domain now client required = refl

-- The run for the box of the playground.
unfoldable pub flow_of : Surroundings → Bool → KeylessTestFlowResponse × Recorded
flow_of s simulate = Flow.execute_test_flow s (record {
  client_container = some "client-worker";
  target_url = some "https://backend-api:8443/api/secret-data";
  simulate_unauthorized = simulate;
})

pub execute_test_flow-sent :
    (lax : Lax) (s : Surroundings) (simulate : Bool)
    → execute_test_flow lax s (options_of (Call.execute_test_flow simulate)).body
      ≡ some (flow_of s simulate)
unfolding execute_test_flow options_of test_request keyless_test_flow_request member flow_of
execute_test_flow-sent lax s simulate = rw (lax.to_bool-bool simulate) refl
