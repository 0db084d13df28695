-- ===== src/Playground/Rounds.antt =====
-- Whole exchanges of the playground with the server, from a moment when nothing waits.
use zerokey.Base.{arith, ◌≡◌, some, true, false, [], ◌∷◌, ◌++◌, template}
use zerokey.Api.Types.{KeylessTestFlowResponse, PolicyEvaluationResponse}
use zerokey.Api.Call.{execute_test_flow, evaluate_policy}
use zerokey.Runtime.Async.{Outcome, ok, failed, alert}
use zerokey.Runtime.World.{World, Server, act, respond, step, run}
use zerokey.Playground.{
  State, execute, evaluate, handle_execute_test, handle_evaluate_policy, form_valid, on, page,
}

abbrev pub at_rest : World State → World State
at_rest w = record w { waiting = [] }

-- A finished run: its answer is shown, or its error is reported and the last answer stays.
abbrev pub executed : Outcome KeylessTestFlowResponse → World State → World State
executed (ok res) w = record w { state = record (w.state) { result = some res } }
executed (failed message) w = record w {
  effects = w.effects ++ alert (template ("Test execution error: " ∷ message ∷ [])) ∷ [];
}

-- When nothing waits, a run that is started while none is on sends the choice of the check box,
-- once. Whatever the server answers, the page shows the answer or reports the error, and a run can
-- be started again.
pub execute_round :
    (w : World State) (server : Server)
    → w.state.running ≡ false
    → step page (respond 0 0 server) (step page (act execute) (at_rest w))
      ≡ executed (server (execute_test_flow w.state.simulate_unauthorized)) (record (at_rest w) {
        sent = w.sent ++ execute_test_flow w.state.simulate_unauthorized ∷ [];
      })
unfolding step page on handle_execute_test run
execute_round w server free = ground arith

-- A decision that has come is shown; an error is reported, and the last decision stays.
abbrev pub decided : Outcome PolicyEvaluationResponse → World State → World State
decided (ok res) w = record w { state = record (w.state) { policy_result = some res } }
decided (failed message) w = record w {
  effects = w.effects ++ alert (template ("Policy evaluation error: " ∷ message ∷ [])) ∷ [];
}

-- When nothing waits, a valid policy form that is submitted while no decision is awaited sends its
-- two identities, once. Whatever the server answers, the page shows the decision or reports the
-- error, and leaves the rest of its state as it was.
pub evaluate_round :
    (w : World State) (server : Server)
    → w.state.evaluating_policy ≡ false
    → form_valid w.state ≡ true
    → step page (respond 0 0 server) (step page (act evaluate) (at_rest w))
      ≡ decided
          (server (evaluate_policy w.state.candidate_spiffe_id w.state.required_spiffe_id))
          (record (at_rest w) {
            sent =
                w.sent
                ++ evaluate_policy w.state.candidate_spiffe_id w.state.required_spiffe_id ∷ [];
          })
unfolding step page on handle_evaluate_policy run
evaluate_round w server free valid = ground arith
