-- ===== src/Oidc/Settling.antt =====
-- The OIDC page comes to rest.
use zerokey.Base.{◌≡◌, String, false, is_some, List, [], ◌++◌, All}
use zerokey.Runtime.World.{Server, Event, after}
use zerokey.Runtime.World.Settling.{Comes, settles}
use zerokey.Api.Types.{Jwk}
use zerokey.Oidc.{Action, page}
use zerokey.Oidc.Loading.{oidc_loading-idle}
use zerokey.Oidc.Copying.{copied_key-idle}

-- After any events, in any order, and whatever the server then answers to each call, there are
-- answers and firings of timers after which no function of the page waits, the page has stopped
-- loading, and no mark of a copy stands.
pub oidc_settles :
    (stringify : Jwk → String) (server : Server) (es : List (Event Action))
    → (more : List (Event Action)) × All (Comes server) more
      × ((after (page stringify) (es ++ more)).waiting ≡ [])
      × ((after (page stringify) (es ++ more)).state.loading ≡ false)
      × (is_some (after (page stringify) (es ++ more)).state.copied_key ≡ false)
oidc_settles stringify server es =
    let (more, comes, rest) = settles (page stringify) server es in
    (
      more,
      comes,
      rest,
      oidc_loading-idle stringify (es ++ more) rest,
      copied_key-idle stringify (es ++ more) rest,
    )
