-- ===== src/Backend/App/Feed.antt =====
-- The observability page in front of the backend: a reading of the events, and then those that its
-- socket announces.
use Prim.Native.String
use zerokey.Base.{
  arith, ℕ, ◌+◌, ◌≤◌, ◌≡◌, refl, ap, ◌∙◌, Decimal, String, true, Option, none, some, List, length,
  take,
}
use zerokey.Base.Text.{show_ℕ}
use zerokey.Api.Types.{Json, AuditLogEvent}
use zerokey.Api.Call.{Call, Answer}
use zerokey.Runtime.World.{World, Server, act, respond, step}
use zerokey.Observability.{State, refresh, page}
use zerokey.Observability.Rounds.{at_rest, telemetry_round}
use zerokey.Backend.Events.{default_max, get_logs, has}
use zerokey.Backend.Events.History.{take-take}
use zerokey.Backend.Socket.{Hub, Happening, happened, no_sockets, event_json}
use zerokey.Backend.Socket.Frames.{frames_for}
use zerokey.Backend.Socket.Serving.{happened-IsServed}
use zerokey.Backend.Socket.Live.{heard}
use zerokey.Backend.Socket.Rounds.{Round, played, Fit, count, all_rounds, all_rounds-take}
use zerokey.Backend.Socket.Rounds.Played.{live_logs}
use zerokey.Backend.Socket.Kept.{all_recorded, happened-take}
use zerokey.Backend.App.{Environment}
use zerokey.Backend.App.Client.{client, dump}
use zerokey.Backend.App.Client.Meant.{client-meant}

module _ (number_text : Decimal → String) (null_message : String)
    (query : String → String → Option String) (cast : (c : Call) → Json → Answer c)
    (casts : (c : Call) (a : Answer c) (v : Json) → dump c a ≡ some v → cast c v ≡ a)
    (reads : (n : ℕ) → query "limit" (String.◌++◌ "limit=" (show_ℕ n)) ≡ some (show_ℕ n))
    (env : Environment) (as_event : Json → AuditLogEvent) (parse : String → Option Json)
    (announces : (e : AuditLogEvent) → as_event (event_json e) ≡ e)
    (refuses : parse "pong" ≡ none) where
  abbrev pub backend : Hub → Server
  backend h = client number_text null_message query cast env h.service

  -- The page after a reading that the backend answers.
  abbrev pub refreshed : Hub → World State → World State
  refreshed h w = step (page as_event) (respond 0 1 (backend h)) (
      step (page as_event) (respond 0 0 (backend h))
        (step (page as_event) (act refresh) (at_rest w)))

  refreshed-logs : (h : Hub) (w : World State) → (refreshed h w).state.logs ≡ get_logs 30 h.service
  refreshed-logs h w =
      ap (λ v. v.state.logs) (telemetry_round as_event w (backend h)).0
      ∙ rw
          (client-meant number_text null_message query cast env h.service casts reads
            (Call.get_audit_logs 30) (omega arith, omega arith))
          refl

  -- The newest 30 of all events.
  newest :
      (cs : List Happening) (logs : List AuditLogEvent)
      → length logs ≤ default_max
      → get_logs 30 (happened default_max cs (no_sockets logs)).0.service
        ≡ take 30 (all_recorded cs logs)
  unfolding get_logs
  newest cs logs fits =
      ap (take 30) (happened-take default_max cs logs fits)
      ∙ take-take 30 default_max (all_recorded cs logs) (omega arith)

  -- A backend starts with at most 100 events, and anything happens to it. Then a page with a kept
  -- socket reads the events, and nothing happens to the backend until both answers have come. If
  -- from then on nothing cuts the socket off, and no socket comes or goes while the broadcast of an
  -- event waits, whose loop has a turn for each socket, and the broadcasts of before do not go on:
  -- the page shows, after whatever rounds of this kind come next, exactly the newest of all events
  -- ever recorded: the 30 that it has read and each one since, without a gap and without a
  -- repetition. The casts give back what was sent, and "pong" is no JSON.
  pub feed_newest :
      (before : List Happening) (rs : List Round) (logs : List AuditLogEvent) (x : ℕ)
      (w : World State)
      → length logs ≤ default_max
      → has x (happened default_max before (no_sockets logs)).0.service.active_connections ≡ true
      → Fit default_max x rs (happened default_max before (no_sockets logs)).0
      → (heard as_event parse
          (frames_for x (played default_max rs (happened default_max before (no_sockets logs)).0).1)
          (refreshed (happened default_max before (no_sockets logs)).0 w)).state.logs
        ≡ take (count rs + 30) (all_rounds rs (all_recorded before logs))
  feed_newest before rs logs x w fits there fit =
      let h : Hub = (happened default_max before (no_sockets logs)).0 in
      ap (λ v. v.state.logs)
        (live_logs as_event parse announces refuses x default_max rs h
          (happened-IsServed default_max before logs) there fit (refreshed h w))
      ∙ ap (all_rounds rs) (refreshed-logs h w ∙ newest before logs fits)
      ∙ all_rounds-take 30 rs (all_recorded before logs)
