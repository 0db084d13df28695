-- ===== src/Backend/App/Decisions.antt =====
-- The playground in front of the backend: what it shows of a policy decision and of a test run.
use Prim.Native.String
use zerokey.Base.{
  ℕ, str_eq, not, ◌&&◌, ◌≡◌, refl, ap, ◌∙◌, ◌↔◌, eq_iff, String, Bool, true, false, Option, some,
  List, [], ◌∷◌, Decimal,
}
use zerokey.Base.Text.{strip, show_ℕ}
use zerokey.Api.Types.{Json, KeylessTestFlowResponse, PolicyEvaluationResponse}
use zerokey.Api.Call.{Call, Answer, options_of}
use zerokey.Runtime.World.{World, Server, act, respond, step}
use zerokey.Playground
use zerokey.Playground.{State, form_valid, page}
use zerokey.Playground.Rounds.{at_rest, evaluate_round, execute_round}
use zerokey.Playground.View.{StepView, step_view, policy_view, result_view}
use zerokey.Backend.Events.{EventService, default_max, add_log}
use zerokey.Backend.Events.Sending.Ending.{relogged}
use zerokey.Backend.Routes.{route}
use zerokey.Backend.Routes.Reaching.{handler_of, route-options_of}
use zerokey.Backend.Policy
use zerokey.Backend.Flow
use zerokey.Backend.Flow.{Surroundings, Recorded}
use zerokey.Backend.Handlers.Sent.{flow_of, execute_test_flow-sent}
use zerokey.Backend.App.{Environment, app, answered, event_of, flow_response, is_cut}
use zerokey.Backend.App.Dumps.{flow_json}
use zerokey.Backend.App.Noted.{recorded_response-logs}
use zerokey.Backend.App.Client.{client, dump}
use zerokey.Backend.App.Client.Meant.{client-meant}

-- Whether each step that is shown has succeeded.
abbrev pub all_succeeded : List StepView → Bool
all_succeeded [] = true
all_succeeded (v ∷ vs) = v.succeeded && all_succeeded vs

flow_steps :
    (number_text : Decimal → String) (s : Surroundings) (simulate : Bool)
    → ((result_view number_text (flow_of s simulate).0).succeeded ≡ not simulate)
      × (all_succeeded (result_view number_text (flow_of s simulate).0).steps ≡ not simulate)
      × (str_eq (flow_of s simulate).1.status "SUCCESS" ≡ not simulate)
unfolding flow_of Flow.execute_test_flow result_view Flow.refused Flow.accepted Flow.refused_steps
    Flow.accepted_steps step_view
flow_steps number_text s true = (refl, refl, refl)
flow_steps number_text s false = (refl, refl, refl)

module _ (number_text : Decimal → String) (null_message : String)
    (query : String → String → Option String) (cast : (c : Call) → Json → Answer c)
    (casts : (c : Call) (a : Answer c) (v : Json) → dump c a ≡ some v → cast c v ≡ a)
    (reads : (n : ℕ) → query "limit" (String.◌++◌ "limit=" (show_ℕ n)) ≡ some (show_ℕ n))
    (env : Environment) (events : EventService) where
  abbrev backend : Server
  backend = client number_text null_message query cast env events

  -- When nothing waits and the backend answers, a valid form that is submitted while no decision is
  -- awaited ends with a decision on the screen that says "allowed" exactly if the two identities of
  -- the form are equal up to white space at their ends.
  pub shown_decision_iff :
      (w : World State)
      → w.state.evaluating_policy ≡ false
      → form_valid w.state ≡ true
      → (answer : PolicyEvaluationResponse) × ((step page
            (respond 0 0 backend)
            (step page (act Playground.evaluate) (at_rest w))).state.policy_result
          ≡ some answer)
        × ((policy_view answer).allowed ≡ true
            ↔ strip w.state.candidate_spiffe_id ≡ strip w.state.required_spiffe_id)
  unfolding policy_view Policy.evaluate_policy
  shown_decision_iff w free valid = (
    Policy.evaluate_policy env.surroundings.trust_domain env.surroundings.now (record {
      client_spiffe_id = w.state.candidate_spiffe_id;
      required_spiffe_id = w.state.required_spiffe_id;
    }),
    rw
        (
          evaluate_round w backend free valid,
          client-meant number_text null_message query cast env events casts reads
              (Call.evaluate_policy w.state.candidate_spiffe_id w.state.required_spiffe_id) tt,
        )
        refl,
    eq_iff (strip w.state.candidate_spiffe_id) (strip w.state.required_spiffe_id),
  )

  flow_logs :
      (simulate : Bool)
      → (app env (route query (options_of (Call.execute_test_flow simulate))) events).1.audit_logs
        ≡ relogged default_max env.meanwhile (
            add_log default_max
              (event_of env (flow_of env.surroundings simulate).1)
              events.audit_logs)
  unfolding app handler_of options_of flow_response
  flow_logs simulate =
      ap (λ r. (app env r events).1.audit_logs)
        (route-options_of query reads (Call.execute_test_flow simulate) tt)
      ∙ rw (execute_test_flow-sent env.lax env.surroundings simulate) (
          recorded_response-logs env (flow_of env.surroundings simulate).1
            (answered env 200 (flow_json (flow_of env.surroundings simulate).0)) events)

  -- When nothing waits and the backend answers, a run that is started while none is on, and of
  -- which the broadcast of its event is not cut, ends with a result on the screen: a success whose
  -- steps have all succeeded if the box for an unauthorized caller is not checked, else a failure
  -- with a failed step. The event that the backend adds to its log for the run, before those that
  -- others record meanwhile, says the same.
  pub shown_run :
      (w : World State)
      → w.state.running ≡ false
      → is_cut env (flow_of env.surroundings w.state.simulate_unauthorized).1 events ≡ false
      → (run : KeylessTestFlowResponse × Recorded) × ((step page
            (respond 0 0 backend)
            (step page (act Playground.execute) (at_rest w))).state.result
          ≡ some run.0)
        × ((result_view number_text run.0).succeeded ≡ not w.state.simulate_unauthorized)
        × (all_succeeded (result_view number_text run.0).steps ≡ not w.state.simulate_unauthorized)
        × ((app env
              (route query (options_of (Call.execute_test_flow w.state.simulate_unauthorized)))
              events).1.audit_logs
            ≡ relogged default_max env.meanwhile
                (add_log default_max (event_of env run.1) events.audit_logs))
        × (str_eq run.1.status "SUCCESS" ≡ not w.state.simulate_unauthorized)
  shown_run w free whole =
      let (shown, steps, recorded) =
        flow_steps number_text env.surroundings w.state.simulate_unauthorized in
      (
        flow_of env.surroundings w.state.simulate_unauthorized,
        rw
            (
              execute_round w backend free,
              client-meant number_text null_message query cast env events casts reads
                  (Call.execute_test_flow w.state.simulate_unauthorized) tt,
              whole,
            )
            refl,
        shown,
        steps,
        flow_logs w.state.simulate_unauthorized,
        recorded,
      )
