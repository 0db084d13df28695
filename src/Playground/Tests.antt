-- ===== src/Playground/Tests.antt =====
-- The playground on concrete inputs.
use zerokey.Base.{◌≤◌, ◌≡◌, refl, true, false, bit, List, [], ◌∷◌}
use zerokey.Api.Call.{execute_test_flow, evaluate_policy}
use zerokey.Runtime.Async.{ok, failed}
use zerokey.Runtime.World.{World, Server, Event, act, respond, in_flight, step, after}
use zerokey.Playground.{
  form_valid, State, Action, execute, evaluate, toggle_unauthorized, init, page,
}
use zerokey.Playground.Running.{is_execute, in_flight-le-running}

abbrev denying : Server
denying (evaluate_policy candidate required) = ok (record {
  allowed = false;
  decision_reason = "not on the list";
  client_spiffe_id = candidate;
  required_spiffe_id = required;
  timestamp = "";
})
denying _ = failed "no route"

-- Both functions run side by side, and each button is pressed twice.
abbrev pressed : List (Event Action)
pressed =
    act (toggle_unauthorized true) ∷ act execute ∷ act evaluate ∷ act execute ∷ act evaluate ∷ []

-- The later call is answered first.
abbrev answered : List (Event Action)
answered =
    act (toggle_unauthorized true)
    ∷ act execute
    ∷ act evaluate
    ∷ respond 1 0 denying
    ∷ respond 0 0 denying
    ∷ []

sent_twice :
    (after page pressed).sent
    ≡ execute_test_flow true
      ∷ evaluate_policy "spiffe://demo.local/client-worker" "spiffe://demo.local/client-worker"
      ∷ []
unfolding after page step
sent_twice = refl

in_flight_running_example :
    in_flight is_execute (after page pressed).waiting ≤ bit (after page pressed).state.running
in_flight_running_example = in_flight-le-running pressed

abbrev world : World State
world = record { state = init; waiting = []; sent = []; effects = []; unhandled = [] }

valid : form_valid init ≡ true
unfolding form_valid
valid = refl
