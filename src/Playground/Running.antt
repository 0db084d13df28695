-- ===== src/Playground/Running.antt =====
-- The flag `running` of the playground, which bars a second run.
use zerokey.Base.{arith, ◌≤◌, ◌≡◌, refl, String, Bool, true, false, bit, List, []}
use zerokey.Api.Call.{Call, execute_test_flow}
use zerokey.Runtime.Async.{Async}
use zerokey.Runtime.World.{Event, after, in_flight}
use zerokey.Runtime.World.Flags.{
  Tidy, returns, lowers, spares, emits, Starts, idle, acquires, Disciplined, idle-lowered,
  in_flight-le-flag,
}
use zerokey.Runtime.World.Flags.Rules.{fetches, Starts-if, Starts-test, holding}
use zerokey.Playground.{
  State, Action, execute, evaluate, toggle_unauthorized, type_candidate, type_required,
  handle_execute_test, handle_evaluate_policy, on, page,
}

abbrev pub is_execute : Call → Bool
is_execute (execute_test_flow _) = true
is_execute _ = false

abbrev Holds : Bool → Async State (Unit {0}) → Type 0
Holds = Tidy true is_execute (λ s. s.running)

abbrev StartsHere : State → Async State (Unit {0}) → Type 0
StartsHere s = Starts true is_execute (λ s. s.running) s

handle_execute_test-Starts :
    (simulate : Bool) (s : State) → s.running ≡ false → StartsHere s (handle_execute_test simulate)
unfolding handle_execute_test
handle_execute_test-Starts simulate s free =
    acquires free (λ t. refl)
      (fetches holding (λ res. spares (λ s. refl) (lowers (λ e. refl) (λ s. refl) (returns tt)))
        (λ message. emits (lowers (λ e. refl) (λ s. refl) (returns tt))))

handle_evaluate_policy-Tidy :
    (candidate required : String) → Holds false (handle_evaluate_policy candidate required)
unfolding handle_evaluate_policy
handle_evaluate_policy-Tidy candidate required =
    spares (λ s. refl)
      (fetches (λ e. refl) (λ res. spares (λ s. refl) (spares (λ s. refl) (returns tt)))
        (λ message. emits (spares (λ s. refl) (returns tt))))

execute-Starts : (s : State) → StartsHere s (on execute s)
unfolding on
execute-Starts s =
    Starts-test _ (λ barred. idle (returns tt))
      (λ free. handle_execute_test-Starts s.simulate_unauthorized s free)

on-Starts : (a : Action) (s : State) → StartsHere s (on a s)
unfolding on
on-Starts execute s = execute-Starts s
on-Starts evaluate s =
    Starts-if _ (idle (returns tt))
      (idle (handle_evaluate_policy-Tidy s.candidate_spiffe_id s.required_spiffe_id))
on-Starts (toggle_unauthorized v) s = idle (spares (λ s. refl) (returns tt))
on-Starts (type_candidate v) s = idle (spares (λ s. refl) (returns tt))
on-Starts (type_required v) s = idle (spares (λ s. refl) (returns tt))

disciplined : Disciplined true is_execute (λ s. s.running) page
unfolding page
disciplined = record {
  held_at_mount = false;
  mounts = returns tt;
  mount_balance = omega arith;
  starts = on-Starts;
}

-- After any events, in any order, at most one test run is on its way to the server, and none while
-- the page does not count one as running.
pub in_flight-le-running :
    (es : List (Event Action))
    → in_flight is_execute (after page es).waiting ≤ bit (after page es).state.running
in_flight-le-running es =
    in_flight-le-flag true is_execute (λ s. s.running) page disciplined es refl

-- After any events, in any order, the flag is up only while a function of the page waits.
pub running-idle :
    (es : List (Event Action))
    → (after page es).waiting ≡ []
    → (after page es).state.running ≡ false
running-idle es = idle-lowered true is_execute (λ s. s.running) page disciplined es
