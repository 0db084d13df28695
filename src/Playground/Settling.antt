-- ===== src/Playground/Settling.antt =====
-- The playground comes to rest.
use zerokey.Base.{◌≡◌, false, List, [], ◌++◌, All}
use zerokey.Runtime.World.{Server, Event, after}
use zerokey.Runtime.World.Settling.{Comes, settles}
use zerokey.Playground.{Action, page}
use zerokey.Playground.Running.{running-idle}
use zerokey.Playground.Evaluating.{evaluating_policy-idle}

-- After any events, in any order, and whatever the server then answers to each call, there are
-- answers after which no function of the page waits, and both its buttons are enabled again.
pub playground_settles :
    (server : Server) (es : List (Event Action))
    → (more : List (Event Action)) × All (Comes server) more
      × ((after page (es ++ more)).waiting ≡ [])
      × ((after page (es ++ more)).state.running ≡ false)
      × ((after page (es ++ more)).state.evaluating_policy ≡ false)
playground_settles server es =
    let (more, comes, rest) = settles page server es in
    (more, comes, rest, running-idle (es ++ more) rest, evaluating_policy-idle (es ++ more) rest)
