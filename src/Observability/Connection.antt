-- ===== src/Observability/Connection.antt =====
-- The status of the socket on the observability page.
use zerokey.Base.{◌≡◌, refl, ◌↔◌, Bool, true, false, Option, none, some, List, if◌then◌else◌}
use zerokey.Api.Types.{Json, null, bool, int, decimal, text, arr, obj, AuditLogEvent}
use zerokey.Runtime.Async.{Async, ok, failed}
use zerokey.Runtime.World.{Event, after}
use zerokey.Runtime.World.Tracking.{Leaves, returns, updates, emits, awaits, Turns, leaves, sets}
use zerokey.Runtime.World.Tracking.Last.{set_to, IsUp, after-IsUp_iff}
use zerokey.Observability.{
  State, Action, refresh, socket_opens, socket_closes, socket_fails, socket_sends, load_data,
  announce, received, on_message, on, page,
}

abbrev pub connected : State → Bool
connected s = s.ws_connected

-- What an event says of the socket.
abbrev pub connection : Action → Option Bool
connection refresh = none
connection socket_opens = some true
connection socket_closes = some false
connection socket_fails = some false
connection (socket_sends v) = none

Leaves-if :
    (b : Bool) {m n : Async State (Unit {0})}
    → Leaves connected m
    → Leaves connected n
    → Leaves connected (if b then m else n)
Leaves-if true d e = d
Leaves-if false d e = e

load_data-Leaves : Leaves connected load_data
unfolding load_data
load_data-Leaves =
    updates (λ s. refl)
      (awaits (elim [
        | ok (logs, (metrics, u)) ↦
            updates (λ s. refl) (updates (λ s. refl) (updates (λ s. refl) (returns tt)))
        | failed message ↦ emits (updates (λ s. refl) (returns tt))
      ]))

module _ (as_event : Json → AuditLogEvent) where
  announce-Leaves : (v : Option Json) → Leaves connected (announce as_event v)
  unfolding announce
  announce-Leaves none = returns tt
  announce-Leaves (some v) = Leaves-if _ (updates (λ s. refl) (returns tt)) (returns tt)

  on_message-Leaves : (v : Option Json) → Leaves connected (on_message as_event v)
  unfolding on_message received
  on_message-Leaves none = returns tt
  on_message-Leaves (some (obj fields)) = Leaves-if _ (announce-Leaves _) (returns tt)
  on_message-Leaves (some null) = returns tt
  on_message-Leaves (some (bool b)) = returns tt
  on_message-Leaves (some (int n)) = returns tt
  on_message-Leaves (some (decimal d)) = returns tt
  on_message-Leaves (some (text s)) = returns tt
  on_message-Leaves (some (arr items)) = returns tt

  on-Turns :
      (a : Action) (s : State)
      → Turns connected s (on as_event a s) (set_to (connection a) s.ws_connected)
  unfolding on
  on-Turns refresh s = leaves load_data-Leaves refl
  on-Turns socket_opens s = sets refl
  on-Turns socket_closes s = sets refl
  on-Turns socket_fails s = sets refl
  on-Turns (socket_sends v) s = leaves (on_message-Leaves v) refl

  -- After any events, in any order, answers and messages among them, the page counts its socket as
  -- connected exactly if it has opened and since then has neither closed nor failed.
  pub ws_connected-IsUp_iff :
      (es : List (Event Action))
      → ((after (page as_event) es).state.ws_connected ≡ true)
        ↔ IsUp connected (page as_event) connection es
  unfolding page
  ws_connected-IsUp_iff es =
      after-IsUp_iff connected (page as_event) connection on-Turns load_data-Leaves refl es
