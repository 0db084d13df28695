-- ===== src/Playground/Requests.antt =====
-- What the playground sends to the server.
use zerokey.Base.{
  arith, ◌≡◌, ◌≢◌, String, Bool, false, not, ◌||◌, List, [], eq_iff, All, Bool-cases, inl, inr,
}
use zerokey.Api.Call.{Call, execute_test_flow, evaluate_policy}
use zerokey.Runtime.Async.{Async}
use zerokey.Runtime.World.{Event, after}
use zerokey.Runtime.World.Safety.{Safe, returns, updates, emits, Sound, after-IsSafe}
use zerokey.Runtime.World.Safety.Rules.{Safe-fetch, Safe-if}
use zerokey.Playground.{
  State, Action, execute, evaluate, toggle_unauthorized, type_candidate, type_required,
  handle_execute_test, handle_evaluate_policy, form_valid, on, page,
}

-- The calls that the page may make.
abbrev pub IsFlowCall : Call → Type 0
IsFlowCall (execute_test_flow _) = Unit
IsFlowCall (evaluate_policy candidate required) = (candidate ≢ "") × (required ≢ "")
IsFlowCall _ = ⊥

abbrev Keeps : Async State (Unit {0}) → Type 0
Keeps = Safe (λ _. Unit {0}) IsFlowCall

handle_execute_test-Safe : (simulate : Bool) → Keeps (handle_execute_test simulate)
unfolding handle_execute_test
handle_execute_test-Safe simulate =
    updates (λ s h. h)
      (Safe-fetch tt (λ res. updates (λ s h. h) (updates (λ s h. h) (returns tt)))
        (λ message. emits (updates (λ s h. h) (returns tt))))

handle_evaluate_policy-Safe :
    (candidate required : String)
    → candidate ≢ ""
    → required ≢ ""
    → Keeps (handle_evaluate_policy candidate required)
unfolding handle_evaluate_policy
handle_evaluate_policy-Safe candidate required one two =
    updates (λ s h. h)
      (Safe-fetch (one, two) (λ res. updates (λ s h. h) (updates (λ s h. h) (returns tt)))
        (λ message. emits (updates (λ s h. h) (returns tt))))

valid :
    (s : State)
    → (s.evaluating_policy || not (form_valid s)) ≡ false
    → (s.candidate_spiffe_id ≢ "") × (s.required_spiffe_id ≢ "")
unfolding form_valid
valid s free = ground (arith, eq_iff s.candidate_spiffe_id "", eq_iff s.required_spiffe_id "")

evaluate-Safe : (s : State) → Keeps (on evaluate s)
unfolding on
evaluate-Safe s = elim (Bool-cases (s.evaluating_policy || not (form_valid s))) [
  | inl barred ↦ rw (barred, on) (returns tt)
  | inr free ↦
      let (one, two) = valid s free in
      rw (free, on) (handle_evaluate_policy-Safe s.candidate_spiffe_id s.required_spiffe_id one two)
]

on-Safe : (a : Action) (s : State) → Keeps (on a s)
unfolding on
on-Safe execute s = Safe-if _ (returns tt) (handle_execute_test-Safe s.simulate_unauthorized)
on-Safe evaluate s = evaluate-Safe s
on-Safe (toggle_unauthorized v) s = updates (λ s h. h) (returns tt)
on-Safe (type_candidate v) s = updates (λ s h. h) (returns tt)
on-Safe (type_required v) s = updates (λ s h. h) (returns tt)

sound : Sound (λ _. Unit {0}) IsFlowCall page
unfolding page
sound = record { init = tt; mounts = returns tt; handles = λ a s h. on-Safe a s }

-- After any events, in any order: each call that the page has sent runs the test flow, or asks for
-- a decision on two non-empty identities; and no error has escaped the page's `catch` blocks.
pub sent-IsFlowCall :
    (es : List (Event Action))
    → All IsFlowCall (after page es).sent × ((after page es).unhandled ≡ [])
sent-IsFlowCall es =
    let safe = after-IsSafe (λ _. Unit {0}) IsFlowCall page sound es in (safe.sent, safe.unhandled)
