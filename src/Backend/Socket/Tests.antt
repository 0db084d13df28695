-- ===== src/Backend/Socket/Tests.antt =====
-- Sockets and the page on concrete inputs.
use zerokey.Base.{◌≡◌, refl, ℕ, true, false, Bool, String, Option, none, List, [], ◌∷◌}
use zerokey.Api.Types.{Json, AuditLogEvent}
use zerokey.Runtime.World.{World}
use zerokey.Observability
use zerokey.Backend.App.Casting.{event_of}
use zerokey.Backend.App.Casting.Dumped.{event_of-event_json}
use zerokey.Backend.App.Casting.{cast_of}
use zerokey.Backend.App.Casting.Dumped.{cast_of-dump}
use zerokey.Backend.App.Tests.{env, half}
use zerokey.Backend.App.Feed.{refreshed, feed_newest}
use zerokey.Backend.Tests.{only_parameter, reads_limit}
use zerokey.Backend.Events.{default_max}
use zerokey.Backend.Events.Sending.{resume, start}
use zerokey.Backend.Events.{disconnect}
use zerokey.Backend.Socket.{drops, resumes, break_off, leave, recorded, resumed, go_on, reply}
use zerokey.Backend.Socket.Rounds.{Round, calm, whole, goes, asked, played, Fit}
use zerokey.Backend.Socket.Rounds.Played.{live_logs}
use zerokey.Base.{arith}
use zerokey.Backend.Events.{connect, has}
use zerokey.Backend.Socket.{
  Hub, Happening, accepts, greets, says, records, happen, happened, no_sockets, accept, greet,
}
use zerokey.Backend.Socket.Frames.{frames_for}
use zerokey.Backend.Socket.Serving.{IsServed, happened-IsServed}
use zerokey.Backend.Socket.Live.{heard}

-- Here no text parses.
abbrev unparsed : String → Option Json
unparsed s = none

abbrev mint : AuditLogEvent
mint = record {
  id = "e1";
  timestamp = "t1";
  event_type = "SVID_MINT";
  actor = "spire-server";
  target = "spiffe://demo.local/client-worker";
  status = "SUCCESS";
  details = "";
}

abbrev denial : AuditLogEvent
denial = record mint { id = "e2"; status = "DENIED" }

abbrev all_sent : ℕ → Bool
all_sent socket = true

-- Two sockets come, and one is there no more before an event is recorded; the broadcast of that
-- waits for the other one, while a third comes, so it raises.
abbrev opening : List Happening
opening =
    accepts 1
    ∷ greets 1 true
    ∷ accepts 2
    ∷ drops 2
    ∷ greets 2 false
    ∷ records mint
    ∷ accepts 3
    ∷ resumes 0 [] all_sent
    ∷ greets 3 true
    ∷ []

happened-IsServed_example : IsServed (happened 100 opening (no_sockets [])).0
happened-IsServed_example = happened-IsServed 100 opening []

opened : Hub
unfolding happened happen accept greet break_off leave recorded resumed go_on start resume
opened = (happened 100 opening (no_sockets [])).0

abbrev day : List Round
day =
    whole denial all_sent (goes [] ∷ asked 1 "ping" ∷ goes [] ∷ [])
    ∷ calm (says 1 "ping" true)
    ∷ calm (accepts 4)
    ∷ calm (greets 4 false)
    ∷ whole mint all_sent (goes [] ∷ goes [] ∷ [])
    ∷ []

abbrev world : World Observability.State
world = record { state = Observability.init; waiting = []; sent = []; effects = []; unhandled = [] }

stands : has 1 opened.service.active_connections ≡ true
unfolding opened connect disconnect
stands = refl

day-Fit : Fit 100 1 day opened
unfolding opened connect disconnect
day-Fit = ((refl, omega arith), ((λ e. refl), (tt, ((λ e. e), ((refl, omega arith), tt)))))

live_example :
    heard event_of unparsed (frames_for 1 (played 100 day opened).1) world
    ≡ record world { state = record (world.state) { logs = mint ∷ denial ∷ [] } }
unfolding opened
live_example =
    live_logs event_of unparsed event_of-event_json refl 1 100 day opened
      (happened-IsServed 100 opening []) stands day-Fit world

abbrev before_reading : List Happening
before_reading = records mint ∷ accepts 1 ∷ greets 1 true ∷ []

abbrev after_reading : List Round
after_reading =
    calm (says 1 "ping" true) ∷ calm (accepts 2) ∷ whole mint all_sent (goes [] ∷ goes [] ∷ []) ∷ []

still_stands :
    has 1 (happened default_max before_reading (no_sockets [])).0.service.active_connections ≡ true
unfolding happened happen accept greet connect recorded start
still_stands = refl

after_reading-Fit :
    Fit default_max 1 after_reading (happened default_max before_reading (no_sockets [])).0
unfolding happened happen accept greet reply connect recorded start
after_reading-Fit = ((λ e. refl), (tt, ((refl, omega arith), tt)))

-- An event before the reading, and one after it.
feed_example :
    (heard event_of unparsed
      (frames_for 1
        (played default_max after_reading
          (happened default_max before_reading (no_sockets [])).0).1)
      (refreshed half "null" only_parameter cast_of cast_of-dump reads_limit env event_of unparsed
        event_of-event_json refl
        (happened default_max before_reading (no_sockets [])).0
        world)).state.logs
    ≡ mint ∷ mint ∷ []
feed_example =
    feed_newest half "null" only_parameter cast_of cast_of-dump reads_limit env event_of unparsed
      event_of-event_json refl before_reading after_reading [] 1 world (omega arith) still_stands
      after_reading-Fit
