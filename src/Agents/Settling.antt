-- ===== src/Agents/Settling.antt =====
-- The page of the agents comes to rest.
use zerokey.Base.{◌≡◌, false, List, [], ◌++◌, All}
use zerokey.Runtime.World.{Server, Event, after}
use zerokey.Runtime.World.Settling.{Comes, settles}
use zerokey.Agents.{Action, page}
use zerokey.Agents.Loading.{agents_loading-idle}
use zerokey.Agents.Copying.{copied-idle}

-- After any events, in any order, and whatever the server then answers to each call, there are
-- answers and firings of timers after which no function of the page waits, the page has stopped
-- loading, and the mark that something was copied is gone.
pub agents_settle :
    (server : Server) (es : List (Event Action))
    → (more : List (Event Action)) × All (Comes server) more
      × ((after page (es ++ more)).waiting ≡ [])
      × ((after page (es ++ more)).state.loading ≡ false)
      × ((after page (es ++ more)).state.copied ≡ false)
agents_settle server es =
    let (more, comes, rest) = settles page server es in
    (more, comes, rest, agents_loading-idle (es ++ more) rest, copied-idle (es ++ more) rest)
