-- ===== src/Header/Tests.antt =====
-- The bar above the pages on concrete events.
use zerokey.Base.{◌≡◌, ◌↔◌, List, [], ◌∷◌}
use zerokey.Runtime.World.{Event, act, after}
use zerokey.Runtime.World.Tracking.Last.{IsUp}
use zerokey.Header.{Action, socket_opens, socket_closes, page, screen}
use zerokey.Header.Status.{connection, status-IsUp_iff}

-- The socket is lost, and comes back.
abbrev returned : List (Event Action)
returned = act socket_opens ∷ act socket_closes ∷ act socket_opens ∷ []

status_example :
    ((screen (after page returned).state).status ≡ "Live Stream Active")
    ↔ IsUp (λ s. s.ws_connected) page connection returned
status_example = status-IsUp_iff returned
