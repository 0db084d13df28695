-- ===== src/Backend/Socket/Kept.antt =====
-- The kept events, whatever the sockets do.
use zerokey.Base.{
  ℕ, ◌≤◌, ◌≡◌, refl, sym, ap, ◌∙◌, inl, inr, Bool, true, false, String, List, [], ◌∷◌, Option, none,
  some, get_elem?, length, take, str_eq, Bool-cases,
}
use zerokey.Api.Types.{AuditLogEvent}
use zerokey.Backend.Events.{disconnect}
use zerokey.Backend.Events.Sending.{Flight}
use zerokey.Backend.Events.Sending.Ending.{start-logs}
use zerokey.Backend.Events.History.{add_log-take, take-cons-take, length-take, take_short}
use zerokey.Backend.Events.Sending.Kept.{connect-logs, resume-logs}
use zerokey.Backend.Socket.{
  Phase, absent, greeting, receiving, ended, Hub, Happening, accepts, greets, says, drops, records,
  resumes, happen, happened, leave, accept, greet, reply, pong, break_off, recorded, resumed, go_on,
  no_sockets,
}

accept-logs :
    (x : ℕ) (p : Phase) (h : Hub) → (accept x p h).service.audit_logs ≡ h.service.audit_logs
unfolding accept
accept-logs x absent h = connect-logs x h.service
accept-logs x greeting h = refl
accept-logs x receiving h = refl
accept-logs x ended h = refl

greet-logs :
    (x : ℕ) (b : Bool) (p : Phase) (h : Hub)
    → (greet x b p h).0.service.audit_logs ≡ h.service.audit_logs
unfolding greet leave disconnect
greet-logs x true greeting h = refl
greet-logs x false greeting h = refl
greet-logs x true absent h = refl
greet-logs x true receiving h = refl
greet-logs x true ended h = refl
greet-logs x false absent h = refl
greet-logs x false receiving h = refl
greet-logs x false ended h = refl

pong-logs : (x : ℕ) (b : Bool) (h : Hub) → (pong x b h).0.service.audit_logs ≡ h.service.audit_logs
unfolding pong leave disconnect
pong-logs x true h = refl
pong-logs x false h = refl

reply-logs :
    (x : ℕ) (t : String) (b : Bool) (p : Phase) (h : Hub)
    → (reply x t b p h).0.service.audit_logs ≡ h.service.audit_logs
unfolding reply
reply-logs x t b receiving h = elim (Bool-cases (str_eq t "ping")) [
  | inl ping ↦ rw ping (pong-logs x b h)
  | inr other ↦ rw other refl
]
reply-logs x t b absent h = refl
reply-logs x t b greeting h = refl
reply-logs x t b ended h = refl

break_off-logs :
    (x : ℕ) (p : Phase) (h : Hub) → (break_off x p h).service.audit_logs ≡ h.service.audit_logs
unfolding break_off leave disconnect
break_off-logs x receiving h = refl
break_off-logs x absent h = refl
break_off-logs x greeting h = refl
break_off-logs x ended h = refl

resumed-logs :
    (i : ℕ) (hint : List ℕ) (sends : ℕ → Bool) (f : Option (AuditLogEvent × Flight)) (h : Hub)
    → (resumed i hint sends f h).0.service.audit_logs ≡ h.service.audit_logs
unfolding resumed go_on
resumed-logs i hint sends none h = refl
resumed-logs i hint sends (some (e, f)) h =
    resume-logs sends hint f.stage (record { service = h.service; changes = h.changes; flight = f })

-- What is recorded, on top of `past`, newest first.
abbrev pub add_recorded : Happening → List AuditLogEvent → List AuditLogEvent
add_recorded (records e) past = e ∷ past
add_recorded _ past = past

abbrev pub all_recorded : List Happening → List AuditLogEvent → List AuditLogEvent
all_recorded [] past = past
all_recorded (c ∷ cs) past = all_recorded cs (add_recorded c past)

happen-take :
    (n : ℕ) (c : Happening) (h : Hub) (past : List AuditLogEvent)
    → h.service.audit_logs ≡ take n past
    → (happen n c h).0.service.audit_logs ≡ take n (add_recorded c past)
unfolding happen recorded
happen-take n (accepts x) h past e = accept-logs x (h.phase x) h ∙ e
happen-take n (greets x b) h past e = greet-logs x b (h.phase x) h ∙ e
happen-take n (says x t b) h past e = reply-logs x t b (h.phase x) h ∙ e
happen-take n (drops x) h past e = break_off-logs x (h.phase x) h ∙ e
happen-take n (records f) h past e =
    start-logs n f h.service
    ∙ add_log-take n f h.service.audit_logs (rw e (length-take n past))
    ∙ ap (λ logs. take n (f ∷ logs)) e
    ∙ take-cons-take n f past
happen-take n (resumes i hint sends) h past e =
    resumed-logs i hint sends (get_elem? h.flights i) h ∙ e

happened_from-take :
    (n : ℕ) (cs : List Happening) (h : Hub) (past : List AuditLogEvent)
    → h.service.audit_logs ≡ take n past
    → (happened n cs h).0.service.audit_logs ≡ take n (all_recorded cs past)
unfolding happened
happened_from-take n [] h past e = e
happened_from-take n (c ∷ cs) h past e =
    happened_from-take n cs (happen n c h).0 (add_recorded c past) (happen-take n c h past e)

-- The service keeps the newest of all events.
pub happened-take :
    (n : ℕ) (cs : List Happening) (logs : List AuditLogEvent)
    → length logs ≤ n
    → (happened n cs (no_sockets logs)).0.service.audit_logs ≡ take n (all_recorded cs logs)
happened-take n cs logs fits =
    happened_from-take n cs (no_sockets logs) logs (sym (take_short n logs fits))
