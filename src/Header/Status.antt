-- ===== src/Header/Status.antt =====
-- The status of the socket that the bar shows.
use zerokey.Base.{
  ◌≡◌, refl, ◌↔◌, eq_iff, Bool, true, false, Option, some, List, Bool-cases, inl, inr,
}
use zerokey.Runtime.World.{Event, after}
use zerokey.Runtime.World.Tracking.{Turns, sets, returns}
use zerokey.Runtime.World.Tracking.Last.{set_to, IsUp, after-IsUp_iff}
use zerokey.Header.{
  State, Action, socket_opens, socket_closes, socket_fails, socket_throws, on, page, screen,
}

-- What an event says of the socket.
abbrev pub connection : Action → Option Bool
connection socket_opens = some true
connection socket_closes = some false
connection socket_fails = some false
connection socket_throws = some false

on-Turns :
    (a : Action) (s : State)
    → Turns (λ s. s.ws_connected) s (on a s) (set_to (connection a) s.ws_connected)
unfolding on
on-Turns socket_opens s = sets refl
on-Turns socket_closes s = sets refl
on-Turns socket_fails s = sets refl
on-Turns socket_throws s = sets refl

status_iff : (s : State) → ((screen s).status ≡ "Live Stream Active") ↔ (s.ws_connected ≡ true)
unfolding screen
status_iff s = elim (Bool-cases s.ws_connected) [
  | inl up ↦ rw up ((λ h. refl), (λ h. refl))
  | inr down ↦ rw down ((λ h. (eq_iff "Polling Mode" "Live Stream Active").1 h), (λ h. cc h))
]

-- After any events, in any order, the bar says "Live Stream Active" exactly if the socket has
-- opened and since then has neither closed nor failed.
pub status-IsUp_iff :
    (es : List (Event Action))
    → ((screen (after page es).state).status ≡ "Live Stream Active")
      ↔ IsUp (λ s. s.ws_connected) page connection es
unfolding page
status-IsUp_iff es =
    let (to, from) = status_iff (after page es).state in
    let (up, down) =
      after-IsUp_iff (λ s. s.ws_connected) page connection on-Turns (returns tt) refl es in
    (λ h. up (to h), λ h. from (down h))
