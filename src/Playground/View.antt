-- ===== src/Playground/View.antt =====
-- dashboard/frontend/src/app/playground/page.tsx: what the playground shows. `number_text` prints a
-- fraction.
use mathlib.Core.Option
use zerokey.Base.{
  ℤ, pos, String, Bool, true, Option, List, [], ◌∷◌, map, template, str_eq, if◌then◌else◌, Decimal,
  leb_ℤ, ◌&&◌, arith, ◌≡◌, ◌↔◌,
}
use zerokey.Base.Text.{show_ℤ}
use zerokey.Api.Types.{Fields, HandshakeStep, KeylessTestFlowResponse, PolicyEvaluationResponse}
use zerokey.Playground.{State}

pub record StepView : Type 0 where
  pub label : String
  pub succeeded : Bool
  pub status : String
  pub title : String
  pub details : String
  pub actor : String

pub record ResultView : Type 0 where
  pub succeeded : Bool
  pub heading : String
  pub message : String
  pub latency : String
  pub steps : List StepView
  pub payload : Fields

pub record PolicyView : Type 0 where
  pub allowed : Bool
  pub heading : String
  pub reason : String

pub record Screen : Type 0 where
  pub run_label : String
  pub run_disabled : Bool
  pub result : Option ResultView
  pub evaluate_label : String
  pub evaluate_disabled : Bool
  pub policy : Option PolicyView

-- `n === m`
abbrev pub same_ℤ : ℤ → ℤ → Bool
same_ℤ n m = leb_ℤ n m && leb_ℤ m n

unfoldable pub step_view : HandshakeStep → StepView
step_view step = record {
  label = template ("Step " ∷ show_ℤ step.step_number ∷ []);
  succeeded = str_eq step.status "SUCCESS";
  status = step.status;
  title = step.title;
  details = step.details;
  actor = step.actor;
}

unfoldable pub policy_view : PolicyEvaluationResponse → PolicyView
policy_view policy = record {
  allowed = policy.allowed;
  heading =
      if policy.allowed
      then "POLICY DECISION: ALLOWED (Access Granted)"
      else "POLICY DECISION: DENIED (Access Blocked)";
  reason = policy.decision_reason;
}

module _ (number_text : Decimal → String) where
  unfoldable pub result_view : KeylessTestFlowResponse → ResultView
  unfolding step_view
  result_view result = record {
    succeeded = same_ℤ result.status_code (pos 200);
    heading = template (
        show_ℤ result.status_code
        ∷ " "
        ∷ (if same_ℤ result.status_code (pos 200)
            then "OK — Handshake Successful"
            else "Forbidden — Access Blocked")
        ∷ []);
    message = result.message;
    latency = template (number_text result.latency_ms ∷ "ms" ∷ []);
    steps = map step_view result.handshake_steps;
    payload = result.payload;
  }

  unfoldable pub screen : State → Screen
  unfolding result_view policy_view
  screen s = record {
    run_label = if s.running then "Executing Handshake..." else "Trigger Keyless mTLS Call";
    run_disabled = s.running;
    result = Option.map result_view s.result;
    evaluate_label = if s.evaluating_policy then "Evaluating..." else "Evaluate Policy Decision";
    evaluate_disabled = s.evaluating_policy;
    policy = Option.map policy_view s.policy_result;
  }

  -- The result is shown as a success exactly for the status code 200.
  pub result_view-succeeded_iff :
      (result : KeylessTestFlowResponse)
      → ((result_view result).succeeded ≡ true) ↔ (result.status_code ≡ pos 200)
  unfolding result_view
  result_view-succeeded_iff result = ground arith
