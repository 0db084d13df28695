-- ===== src/Playground/Evaluating.antt =====
-- The flag `evaluating_policy` of the playground, which bars a second evaluation.
use zerokey.Base.{arith, ◌≤◌, ◌≡◌, refl, String, Bool, true, false, bit, ◌||◌, List, []}
use zerokey.Api.Call.{Call, evaluate_policy}
use zerokey.Runtime.Async.{Async}
use zerokey.Runtime.World.{Event, after, in_flight}
use zerokey.Runtime.World.Flags.{
  Tidy, returns, lowers, spares, emits, Starts, idle, acquires, Disciplined, idle-lowered,
  in_flight-le-flag,
}
use zerokey.Runtime.World.Flags.Rules.{fetches, Starts-if, Starts-test, holding}
use zerokey.Playground.{
  State, Action, execute, evaluate, toggle_unauthorized, type_candidate, type_required,
  handle_execute_test, handle_evaluate_policy, on, page,
}

abbrev pub is_evaluate : Call → Bool
is_evaluate (evaluate_policy _ _) = true
is_evaluate _ = false

abbrev Holds : Bool → Async State (Unit {0}) → Type 0
Holds = Tidy true is_evaluate (λ s. s.evaluating_policy)

abbrev StartsHere : State → Async State (Unit {0}) → Type 0
StartsHere s = Starts true is_evaluate (λ s. s.evaluating_policy) s

handle_evaluate_policy-Starts :
    (candidate required : String) (s : State)
    → s.evaluating_policy ≡ false
    → StartsHere s (handle_evaluate_policy candidate required)
unfolding handle_evaluate_policy
handle_evaluate_policy-Starts candidate required s free =
    acquires free (λ t. refl)
      (fetches holding (λ res. spares (λ s. refl) (lowers (λ e. refl) (λ s. refl) (returns tt)))
        (λ message. emits (lowers (λ e. refl) (λ s. refl) (returns tt))))

handle_execute_test-Tidy : (simulate : Bool) → Holds false (handle_execute_test simulate)
unfolding handle_execute_test
handle_execute_test-Tidy simulate =
    spares (λ s. refl)
      (fetches (λ e. refl) (λ res. spares (λ s. refl) (spares (λ s. refl) (returns tt)))
        (λ message. emits (spares (λ s. refl) (returns tt))))

enabled : (s : State) (b : Bool) → (s.evaluating_policy || b) ≡ false → s.evaluating_policy ≡ false
enabled s b h = ground arith

evaluate-Starts : (s : State) → StartsHere s (on evaluate s)
unfolding on
evaluate-Starts s =
    Starts-test _ (λ barred. idle (returns tt))
      (λ free.
        handle_evaluate_policy-Starts s.candidate_spiffe_id s.required_spiffe_id s
          (enabled s _ free))

on-Starts : (a : Action) (s : State) → StartsHere s (on a s)
unfolding on
on-Starts execute s =
    Starts-if _ (idle (returns tt)) (idle (handle_execute_test-Tidy s.simulate_unauthorized))
on-Starts evaluate s = evaluate-Starts s
on-Starts (toggle_unauthorized v) s = idle (spares (λ s. refl) (returns tt))
on-Starts (type_candidate v) s = idle (spares (λ s. refl) (returns tt))
on-Starts (type_required v) s = idle (spares (λ s. refl) (returns tt))

disciplined : Disciplined true is_evaluate (λ s. s.evaluating_policy) page
unfolding page
disciplined = record {
  held_at_mount = false;
  mounts = returns tt;
  mount_balance = omega arith;
  starts = on-Starts;
}

-- After any events, in any order, at most one such call is on its way to the server, and none while
-- the flag is down.
pub in_flight-le-evaluating :
    (es : List (Event Action))
    → in_flight is_evaluate (after page es).waiting ≤ bit (after page es).state.evaluating_policy
in_flight-le-evaluating es =
    in_flight-le-flag true is_evaluate (λ s. s.evaluating_policy) page disciplined es refl

-- After any events, in any order, the flag is up only while a function of the page waits.
pub evaluating_policy-idle :
    (es : List (Event Action))
    → (after page es).waiting ≡ []
    → (after page es).state.evaluating_policy ≡ false
evaluating_policy-idle es =
    idle-lowered true is_evaluate (λ s. s.evaluating_policy) page disciplined es
