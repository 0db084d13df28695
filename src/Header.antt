-- ===== src/Header.antt =====
-- dashboard/frontend/src/components/Header.tsx: the bar above every page, with the status of its
-- own WebSocket. A constructor of the socket that throws is the event `socket_throws`.
pub mod Status
mod Tests
use zerokey.Base.{String, Bool, true, false, if◌then◌else◌}
use zerokey.Runtime.Async.{Async, pure, modify}
use zerokey.Runtime.World.{Page}

pub record State : Type 0 where
  pub ws_connected : Bool

abbrev pub init : State
init = record { ws_connected = false }

abbrev set_ws_connected : Bool → State → State
set_ws_connected v s = record s { ws_connected = v }

pub data Action : Type 0 where
  socket_opens socket_closes socket_fails socket_throws : Action

unfoldable pub on : Action → State → Async State (Unit {0})
on socket_opens s = modify (set_ws_connected true)
on socket_closes s = modify (set_ws_connected false)
on socket_fails s = modify (set_ws_connected false)
on socket_throws s = modify (set_ws_connected false)

unfoldable pub page : Page State Action
unfolding on
page = record { init = init; mount = pure tt; on = on }

pub record Screen : Type 0 where
  pub trust_domain : String
  -- whether the light is green
  pub light : Bool
  pub status : String

unfoldable pub screen : State → Screen
screen s = record {
  trust_domain = "demo.local";
  light = s.ws_connected;
  status = if s.ws_connected then "Live Stream Active" else "Polling Mode";
}
