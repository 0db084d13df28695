-- ===== src/Backend/Socket/Live.antt =====
-- From a recorded event to the page that shows the events: what is sent to a socket, and what the
-- page makes of it. `parse` is JavaScript's `JSON.parse`, where it gives a value; what `send_json`
-- sends parses to the value that was sent.
use zerokey.Base.{
  arith, ℕ, suc, if◌then◌else◌, nat_eq, ◌≡◌, refl, ap, ◌∙◌, inl, inr, Bool, true, false, not,
  str_eq, String, Option, none, some, List, [], ◌∷◌, ◌++◌, Bool-cases,
}
use zerokey.Api.Types.{Json, AuditLogEvent}
use zerokey.Api.Fetch.{member, truthy_json}
use zerokey.Runtime.World.{World, act, step}
use zerokey.Observability
use zerokey.Observability.{socket_sends, page}
use zerokey.Backend.Events.{connect, disconnect, has}
use zerokey.Backend.Events.Broadcast.{has_kept}
use zerokey.Backend.Socket.{
  Frame, sent_json, sent_text, greeting_message, event_json, audit_message, Phase, absent, greeting,
  receiving, ended, Hub, Happening, accepts, greets, says, drops, records, happen, happened, leave,
  accept, greet, reply, pong, break_off, set_phase, resumes,
}
use zerokey.Backend.Socket.Frames.{frames_for, frames_for-append, has-connect}

-- A step of a handler, in which nothing that is sent to the socket fails, and it does not break
-- off.
abbrev pub Stays : ℕ → Happening → Type 0
Stays x (greets y succeeds) = nat_eq y x ≡ true → succeeds ≡ true
Stays x (says y data_text succeeds) = nat_eq y x ≡ true → succeeds ≡ true
Stays x (drops y) = nat_eq y x ≡ false
Stays x (accepts y) = Unit
Stays x (records e) = ⊥
Stays x (resumes i hint sends) = ⊥

module _ (as_event : Json → AuditLogEvent) (parse : String → Option Json) where
  message : Frame → Option Json
  message (sent_json v) = some v
  message (sent_text s) = parse s

  -- The page gets the frames, in their order.
  pub heard : List Frame → World Observability.State → World Observability.State
  unfolding message
  heard [] w = w
  heard (f ∷ fs) w = heard fs (step (page as_event) (act (socket_sends (message f))) w)

  pub heard_nothing : (w : World Observability.State) → heard [] w ≡ w
  unfolding heard
  heard_nothing w = refl

  pub heard-append :
      (fs gs : List Frame) (w : World Observability.State)
      → heard (fs ++ gs) w ≡ heard gs (heard fs w)
  unfolding heard
  heard-append [] gs w = refl
  heard-append (f ∷ fs) gs w =
      heard-append fs gs (step (page as_event) (act (socket_sends (message f))) w)

  module _ (casts : (e : AuditLogEvent) → as_event (event_json e) ≡ e)
      (refuses : parse "pong" ≡ none) where
    abbrev pub with_logs :
        (List AuditLogEvent → List AuditLogEvent)
        → World Observability.State
        → World Observability.State
    with_logs f w = record w { state = record (w.state) { logs = f w.state.logs } }

    pub heard_event :
        (e : AuditLogEvent) (w : World Observability.State)
        → heard (sent_json (audit_message e) ∷ []) w ≡ with_logs (λ past. e ∷ past) w
    unfolding heard message step page member truthy_json
    heard_event e w = rw (casts e) refl

    pub heard_greeting :
        (w : World Observability.State) → heard (sent_json greeting_message ∷ []) w ≡ w
    unfolding heard message step page member
    heard_greeting w = refl

    pub heard_pong : (w : World Observability.State) → heard (sent_text "pong" ∷ []) w ≡ w
    unfolding heard message step page
    heard_pong w = rw refuses refl

    -- The socket is still connected, and its frames change the page's events by `f` alone.
    abbrev pub IsHeard :
        ℕ → (List AuditLogEvent → List AuditLogEvent) → Hub × List (ℕ × Frame) → Type 0
    IsHeard x f r =
        (has x r.0.service.active_connections ≡ true)
        × ((w : World Observability.State) → heard (frames_for x r.1) w ≡ with_logs f w)

    abbrev pub IsQuiet : ℕ → Hub × List (ℕ × Frame) → Type 0
    IsQuiet x r = IsHeard x (λ past. past) r

    no_frame : (x : ℕ) (h : Hub) → has x h.service.active_connections ≡ true → IsQuiet x (h, [])
    unfolding heard
    no_frame x h there = (there, λ w. refl)

    pub silent_frame :
        (x y : ℕ) (f : Frame) (h : Hub)
        → has x h.service.active_connections ≡ true
        → ((w : World Observability.State) → heard (f ∷ []) w ≡ w)
        → IsQuiet x (h, (y, f) ∷ [])
    unfolding heard
    silent_frame x y f h there silent = elim (Bool-cases (nat_eq x y)) [
      | inl same ↦ rw same (there, silent)
      | inr other ↦ rw other (there, λ w. refl)
    ]

    other_leaves :
        (x y : ℕ) (h : Hub)
        → has x h.service.active_connections ≡ true
        → nat_eq y x ≡ false
        → IsQuiet x (leave y h, [])
    unfolding leave disconnect
    other_leaves x y h there other =
        no_frame x (leave y h)
          (has_kept x (λ c. not (nat_eq y c)) h.service.active_connections there (ap not other))

    succeeds_or_other : (x y : ℕ) → (nat_eq y x ≡ true → false ≡ true) → nat_eq y x ≡ false
    succeeds_or_other x y h = ground (arith, h)

    accept-IsQuiet :
        (x y : ℕ) (p : Phase) (h : Hub)
        → has x h.service.active_connections ≡ true
        → IsQuiet x (accept y p h, [])
    unfolding accept
    accept-IsQuiet x y absent h there =
        no_frame x
          (record (set_phase y greeting h) {
            service = connect y h.service;
            changes = if has y h.service.active_connections then h.changes else suc h.changes;
          })
          (has-connect x y h.service there)
    accept-IsQuiet x y greeting h there = no_frame x h there
    accept-IsQuiet x y receiving h there = no_frame x h there
    accept-IsQuiet x y ended h there = no_frame x h there

    greet-IsQuiet :
        (x y : ℕ) (b : Bool) (p : Phase) (h : Hub)
        → has x h.service.active_connections ≡ true
        → Stays x (greets y b)
        → IsQuiet x (greet y b p h)
    unfolding greet
    greet-IsQuiet x y true greeting h there stays =
        silent_frame x y (sent_json greeting_message) (set_phase y receiving h) there heard_greeting
    greet-IsQuiet x y false greeting h there stays =
        other_leaves x y h there (succeeds_or_other x y stays)
    greet-IsQuiet x y true absent h there stays = no_frame x h there
    greet-IsQuiet x y true receiving h there stays = no_frame x h there
    greet-IsQuiet x y true ended h there stays = no_frame x h there
    greet-IsQuiet x y false absent h there stays = no_frame x h there
    greet-IsQuiet x y false receiving h there stays = no_frame x h there
    greet-IsQuiet x y false ended h there stays = no_frame x h there

    pong-IsQuiet :
        (x y : ℕ) (b : Bool) (h : Hub)
        → has x h.service.active_connections ≡ true
        → Stays x (greets y b)
        → IsQuiet x (pong y b h)
    unfolding pong
    pong-IsQuiet x y true h there stays = silent_frame x y (sent_text "pong") h there heard_pong
    pong-IsQuiet x y false h there stays = other_leaves x y h there (succeeds_or_other x y stays)

    reply-IsQuiet :
        (x y : ℕ) (t : String) (b : Bool) (p : Phase) (h : Hub)
        → has x h.service.active_connections ≡ true
        → Stays x (greets y b)
        → IsQuiet x (reply y t b p h)
    unfolding reply
    reply-IsQuiet x y t b receiving h there stays = elim (Bool-cases (str_eq t "ping")) [
      | inl ping ↦ rw ping (pong-IsQuiet x y b h there stays)
      | inr other ↦ rw other (no_frame x h there)
    ]
    reply-IsQuiet x y t b absent h there stays = no_frame x h there
    reply-IsQuiet x y t b greeting h there stays = no_frame x h there
    reply-IsQuiet x y t b ended h there stays = no_frame x h there

    break_off-IsQuiet :
        (x y : ℕ) (p : Phase) (h : Hub)
        → has x h.service.active_connections ≡ true
        → nat_eq y x ≡ false
        → IsQuiet x (break_off y p h, [])
    unfolding break_off
    break_off-IsQuiet x y receiving h there other = other_leaves x y h there other
    break_off-IsQuiet x y absent h there other = no_frame x h there
    break_off-IsQuiet x y greeting h there other = no_frame x h there
    break_off-IsQuiet x y ended h there other = no_frame x h there

    pub happen-IsQuiet :
        (x max_logs : ℕ) (c : Happening) (h : Hub)
        → has x h.service.active_connections ≡ true
        → Stays x c
        → IsQuiet x (happen max_logs c h)
    unfolding happen
    happen-IsQuiet x n (accepts y) h there stays = accept-IsQuiet x y (h.phase y) h there
    happen-IsQuiet x n (greets y b) h there stays = greet-IsQuiet x y b (h.phase y) h there stays
    happen-IsQuiet x n (says y t b) h there stays = reply-IsQuiet x y t b (h.phase y) h there stays
    happen-IsQuiet x n (drops y) h there stays = break_off-IsQuiet x y (h.phase y) h there stays
    happen-IsQuiet x n (records e) h there stays = absurd stays
    happen-IsQuiet x n (resumes i hint sends) h there stays = absurd stays

    -- What a sequence of steps makes of the page, by its first step.
    pub heard-happened :
        (x n : ℕ) (c : Happening) (cs : List Happening) (h : Hub) (w : World Observability.State)
        → heard (frames_for x (happened n (c ∷ cs) h).1) w
          ≡ heard
              (frames_for x (happened n cs (happen n c h).0).1)
              (heard (frames_for x (happen n c h).1) w)
    unfolding happened
    heard-happened x n c cs h w =
        ap (λ fs. heard fs w)
          (frames_for-append x (happen n c h).1 (happened n cs (happen n c h).0).1)
        ∙ heard-append (frames_for x (happen n c h).1)
            (frames_for x (happened n cs (happen n c h).0).1) w
