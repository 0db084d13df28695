-- ===== src/Overview/Tests.antt =====
-- The overview on concrete inputs.
use zerokey.Base.{◌≡◌, refl, List, [], ◌∷◌}
use zerokey.Api.Call.{get_audit_logs}
use zerokey.Runtime.Async.{ok, failed}
use zerokey.Runtime.World.{World, Server, Event, act, respond, step, after}
use zerokey.Overview.{State, Action, tick, init, page}
use zerokey.Overview.Rounds.{read, tick_round}

-- The overview does not come, and there are no audit events.
abbrev half : Server
half (get_audit_logs limit) = ok []
half _ = failed "no route"

abbrev ticks : List (Event Action)
ticks = respond 0 1 half ∷ act tick ∷ respond 0 0 half ∷ respond 0 0 half ∷ respond 0 1 half ∷ []

settled : (after page ticks).waiting ≡ []
unfolding after page step
settled = refl

abbrev world : World State
world = record { state = init; waiting = []; sent = []; effects = []; unhandled = [] }

tick_example :
    (step page (respond 0 1 half) (step page (respond 0 0 half) (step page (act tick) world))
      ≡ read half world)
    × (step page (respond 0 0 half) (step page (respond 0 1 half) (step page (act tick) world))
        ≡ read half world)
tick_example = tick_round world half
