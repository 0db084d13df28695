-- ===== src/Playground.antt =====
-- dashboard/frontend/src/app/playground/page.tsx: the page that runs the mTLS test flow and asks
-- the backend for a policy decision.
pub mod View
pub mod Running
pub mod Evaluating
pub mod Requests
pub mod Rounds
pub mod Settling
mod Tests
use zerokey.Base.{
  String, Bool, true, false, not, ◌&&◌, ◌||◌, Option, none, some, List, [], ◌∷◌, truthy, template,
  if◌then◌else◌,
}
use zerokey.Api.Types.{KeylessTestFlowResponse, PolicyEvaluationResponse}
use zerokey.Api.Call.{execute_test_flow, evaluate_policy}
use zerokey.Runtime.Async.{Async, pure, ◌>>=◌, ◌>>◌, catch, finally, modify, perform, fetch, alert}
use zerokey.Runtime.World.{Page}

pub record State : Type 0 where
  pub running : Bool
  pub simulate_unauthorized : Bool
  pub result : Option KeylessTestFlowResponse
  pub candidate_spiffe_id : String
  pub required_spiffe_id : String
  pub policy_result : Option PolicyEvaluationResponse
  pub evaluating_policy : Bool

abbrev pub init : State
init = record {
  running = false;
  simulate_unauthorized = false;
  result = none;
  candidate_spiffe_id = "spiffe://demo.local/client-worker";
  required_spiffe_id = "spiffe://demo.local/client-worker";
  policy_result = none;
  evaluating_policy = false;
}

abbrev set_running : Bool → State → State
set_running v s = record s { running = v }

abbrev set_simulate_unauthorized : Bool → State → State
set_simulate_unauthorized v s = record s { simulate_unauthorized = v }

abbrev set_result : Option KeylessTestFlowResponse → State → State
set_result v s = record s { result = v }

abbrev set_candidate_spiffe_id : String → State → State
set_candidate_spiffe_id v s = record s { candidate_spiffe_id = v }

abbrev set_required_spiffe_id : String → State → State
set_required_spiffe_id v s = record s { required_spiffe_id = v }

abbrev set_policy_result : Option PolicyEvaluationResponse → State → State
set_policy_result v s = record s { policy_result = v }

abbrev set_evaluating_policy : Bool → State → State
set_evaluating_policy v s = record s { evaluating_policy = v }

-- The choice is that of the last rendering.
unfoldable pub handle_execute_test : Bool → Async State (Unit {0})
handle_execute_test simulate_unauthorized =
    finally
      (catch
        (do
          modify (set_running true)
          res ← fetch (execute_test_flow simulate_unauthorized)
          modify (set_result (some res)))
        (λ message. perform (alert (template ("Test execution error: " ∷ message ∷ [])))))
      (modify (set_running false))

-- The two identities are those of the last rendering.
unfoldable pub handle_evaluate_policy : String → String → Async State (Unit {0})
handle_evaluate_policy candidate_spiffe_id required_spiffe_id =
    finally
      (catch
        (do
          modify (set_evaluating_policy true)
          res ← fetch (evaluate_policy candidate_spiffe_id required_spiffe_id)
          modify (set_policy_result (some res)))
        (λ message. perform (alert (template ("Policy evaluation error: " ∷ message ∷ [])))))
      (modify (set_evaluating_policy false))

-- What the browser asks of the policy form before it submits it.
unfoldable pub form_valid : State → Bool
form_valid s = truthy s.candidate_spiffe_id && truthy s.required_spiffe_id

pub data Action : Type 0 where
  execute evaluate : Action
  toggle_unauthorized : Bool → Action
  type_candidate type_required : String → Action

unfoldable pub on : Action → State → Async State (Unit {0})
unfolding handle_execute_test handle_evaluate_policy form_valid
on execute s = if s.running then pure tt else handle_execute_test s.simulate_unauthorized
on evaluate s =
    if s.evaluating_policy || not (form_valid s)
    then pure tt
    else handle_evaluate_policy s.candidate_spiffe_id s.required_spiffe_id
on (toggle_unauthorized v) s = modify (set_simulate_unauthorized v)
on (type_candidate v) s = modify (set_candidate_spiffe_id v)
on (type_required v) s = modify (set_required_spiffe_id v)

unfoldable pub page : Page State Action
unfolding on
page = record { init = init; mount = pure tt; on = on }
