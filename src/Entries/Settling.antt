-- ===== src/Entries/Settling.antt =====
-- The page of the entries comes to rest.
use zerokey.Base.{◌≡◌, String, false, List, [], ◌++◌, All}
use zerokey.Runtime.World.{Server, Event, after}
use zerokey.Runtime.World.Settling.{Comes, settles}
use zerokey.Entries.{Action, page}
use zerokey.Entries.Loading.{entries_loading-idle}
use zerokey.Entries.Submitting.{submitting-idle}

-- After any events, in any order, and whatever the server then answers to each call, there are
-- answers after which no function of the page waits, the page has stopped loading, and the form is
-- not marked as submitting.
pub entries_settle :
    (to_lower_case : String → String) (server : Server) (es : List (Event Action))
    → (more : List (Event Action)) × All (Comes server) more
      × ((after (page to_lower_case) (es ++ more)).waiting ≡ [])
      × ((after (page to_lower_case) (es ++ more)).state.loading ≡ false)
      × ((after (page to_lower_case) (es ++ more)).state.submitting ≡ false)
entries_settle to_lower_case server es =
    let (more, comes, rest) = settles (page to_lower_case) server es in
    (
      more,
      comes,
      rest,
      entries_loading-idle to_lower_case (es ++ more) rest,
      submitting-idle to_lower_case (es ++ more) rest,
    )
