-- ===== src/Backend/Socket/Rounds/Played.antt =====
-- What rounds of the sockets and the broadcasts make of the page.
use zerokey.Base.{
  ℕ, ◌≤◌, ◌≡◌, refl, ap, ◌∙◌, Bool, true, String, Option, none, List, [], ◌∷◌, map, length, keep,
}
use zerokey.Api.Types.{Json, AuditLogEvent}
use zerokey.Runtime.World.{World}
use zerokey.Observability
use zerokey.Backend.Events.{has, add_log}
use zerokey.Backend.Events.Broadcast.{IsDistinct, has_kept}
use zerokey.Backend.Events.Sending.Quiet.{midway}
use zerokey.Backend.Socket.{event_json, Hub, records, happen, happened}
use zerokey.Backend.Socket.Frames.{frames_for, frames_for-append}
use zerokey.Backend.Socket.Serving.{IsServed, happened_from-IsServed}
use zerokey.Backend.Socket.Live.{
  heard, heard_nothing, heard-append, with_logs, happen-IsQuiet, heard-happened,
}
use zerokey.Backend.Socket.Rounds.{
  Beat, beat, goings, Round, calm, whole, steps, played, FitsIn, Fit, add_round, all_rounds, told,
  landing, recorded-landing,
}
use zerokey.Backend.Socket.Rounds.Told.{IsTold, after-IsTold, nothing_heard, flown-IsTold}

module _ (as_event : Json → AuditLogEvent) (parse : String → Option Json)
    (casts : (e : AuditLogEvent) → as_event (event_json e) ≡ e) (refuses : parse "pong" ≡ none)
    (x n : ℕ) where
  -- A whole broadcast.
  whole-IsTold :
      (e : AuditLogEvent) (sends : ℕ → Bool) (bs : List Beat) (h : Hub) (order : List ℕ)
      → h.service.active_connections ≡ order
      → IsDistinct order
      → has x order ≡ true
      → sends x ≡ true
      → length order ≤ goings bs
      → IsTold as_event parse casts refuses x n
          (keep sends order)
          (λ past. e ∷ past)
          (happened n (records e ∷ map (beat sends) bs) h)
  unfolding told
  whole-IsTold e sends bs h [] set apart there reached enough = cc
  whole-IsTold e sends bs h (y ∷ rest) set apart there reached enough =
      let kept : List AuditLogEvent = add_log n e h.service.audit_logs in
      let flying : Hub =
        landing h.phase h.flights e (midway sends kept h.changes (y ∷ rest) [] y rest) in
      let all =
        flown-IsTold as_event parse casts refuses x n e h.flights sends reached kept h.changes
          (y ∷ rest) [] y rest bs h.phase refl apart enough in
      after-IsTold as_event parse casts refuses x n (keep sends (y ∷ rest)) (λ past. e ∷ past)
        (λ past. past) (records e) (map (beat sends) bs) h flying []
        (recorded-landing n e sends h y rest set) (nothing_heard as_event parse casts refuses x n)
        (rw there at all)

  -- The socket is still connected after a round, and the page has what the round recorded.
  round_heard :
      (r : Round) (h : Hub)
      → IsServed h
      → has x h.service.active_connections ≡ true
      → FitsIn x r h
      → (has x (happened n (steps r) h).0.service.active_connections ≡ true)
        × ((w : World Observability.State)
            → heard as_event parse (frames_for x (happened n (steps r) h).1) w
              ≡ with_logs as_event parse casts refuses (add_round r) w)
  unfolding happened
  round_heard (calm c) h served there stays =
      let (still, silent) = happen-IsQuiet as_event parse casts refuses x n c h there stays in
      (
        still,
        λ w.
            heard-happened as_event parse casts refuses x n c [] h w
            ∙ heard_nothing as_event parse (heard as_event parse (frames_for x (happen n c h).1) w)
            ∙ silent w,
      )
  round_heard (whole e sends bs) h served there (reached, enough) =
      let (kept, all) =
        whole-IsTold e sends bs h h.service.active_connections refl served.distinct there reached
          enough in
      (
        ap (λ set. has x set) kept ∙ has_kept x sends h.service.active_connections there reached,
        all,
      )

  -- From a state in which each kept socket is kept once and has a running handler, with a cast that
  -- gives back the event that was sent, and "pong" no JSON: the handlers of any sockets take steps,
  -- between which events are recorded, so that no socket comes or goes while the broadcast of an
  -- event waits (a greeting may succeed and a text be answered meanwhile), its loop has a turn for
  -- each socket, and no older broadcast goes on. Then a page whose socket is kept, and which
  -- nothing cuts off, shows exactly what was recorded since, newest first and each event once, in
  -- front of what it showed before; nothing else of the page changes.
  pub live_logs :
      (rs : List Round) (h : Hub)
      → IsServed h
      → has x h.service.active_connections ≡ true
      → Fit n x rs h
      → (w : World Observability.State)
      → heard as_event parse (frames_for x (played n rs h).1) w
        ≡ record w { state = record (w.state) { logs = all_rounds rs w.state.logs } }
  unfolding played
  live_logs [] h served there fit w = heard_nothing as_event parse w
  live_logs (r ∷ rs) h served there (fits, fit) w =
      let (still, one) = round_heard r h served there fits in
      let (k, frames) = happened n (steps r) h in
      ap (λ fs. heard as_event parse fs w) (frames_for-append x frames (played n rs k).1)
      ∙ heard-append as_event parse (frames_for x frames) (frames_for x (played n rs k).1) w
      ∙ ap (heard as_event parse (frames_for x (played n rs k).1)) (one w)
      ∙ live_logs rs k (happened_from-IsServed n (steps r) h served) still fit
          (with_logs as_event parse casts refuses (add_round r) w)
