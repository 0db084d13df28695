-- ===== src/Backend/Socket/Serving.antt =====
-- The set of the connections against the handlers.
use zerokey.Base.{
  arith, ℕ, suc, nat_eq, ◌≡◌, refl, inl, inr, Bool, true, false, not, str_eq, String, Option, none,
  some, get_elem?, if◌then◌else◌, List, [], ◌∷◌, In, In-keep_iff, Bool-cases,
}
use zerokey.Api.Types.{AuditLogEvent}
use zerokey.Backend.Events.{connect, disconnect, has}
use zerokey.Backend.Events.Sending.{Flight}
use zerokey.Backend.Events.Sending.Thinned.{Thinned, resume-Thinned, start-Thinned}
use zerokey.Backend.Events.Broadcast.{nat_eq-same, IsDistinct, keep-IsDistinct}
use zerokey.Backend.Socket.{
  Phase, absent, greeting, receiving, ended, Hub, Happening, accepts, greets, says, drops, records,
  resumes, happen, happened, leave, accept, greet, reply, pong, break_off, recorded, resumed, go_on,
  no_sockets, set_phase,
}

-- The handler has connected the socket, and has not come to its end.
abbrev pub IsRunning : Phase → Type 0
IsRunning greeting = Unit
IsRunning receiving = Unit
IsRunning _ = ⊥

-- No socket stands twice in the set, and each that stands there has a handler that runs.
pub record IsServed (h : Hub) : Type 0 where
  pub distinct : IsDistinct h.service.active_connections
  pub running : (x : ℕ) → In x h.service.active_connections → IsRunning (h.phase x)

nat_eq-other : (x y : ℕ) → not (nat_eq x y) ≡ true → nat_eq y x ≡ false
nat_eq-other x y h = ground arith

same_phase :
    (h : Hub) (x : ℕ) (p : Phase) (y : ℕ)
    → IsRunning p
    → IsRunning (h.phase y)
    → IsRunning ((set_phase x p h).phase y)
same_phase h x p y good old = elim (Bool-cases (nat_eq y x)) [
  | inl same ↦ rw same good
  | inr other ↦ rw other old
]

leave-IsServed : (x : ℕ) (h : Hub) → IsServed h → IsServed (leave x h)
unfolding leave disconnect
leave-IsServed x h served = record {
  distinct = keep-IsDistinct _ h.service.active_connections served.distinct;
  running = λ y i.
      let (there, other) = (In-keep_iff _ y h.service.active_connections).0 i in
      rw (nat_eq-other x y other) (served.running y there);
}

connect-IsServed :
    (x : ℕ) (h : Hub)
    → IsServed h
    → IsServed (record (set_phase x greeting h) {
      service = connect x h.service;
      changes = if has x h.service.active_connections then h.changes else suc h.changes;
    })
unfolding connect
connect-IsServed x h served = elim (Bool-cases (has x h.service.active_connections)) [
  | inl old ↦ rw old (record {
    distinct = served.distinct;
    running = λ y i. same_phase h x greeting y tt (served.running y i);
  })
  | inr new ↦ rw new (record {
    distinct = (new, served.distinct);
    running = λ y i. elim i [
      | inl e ↦ rw (e, nat_eq-same x) tt
      | inr there ↦ same_phase h x greeting y tt (served.running y there)
    ];
  })
]

accept-IsServed : (x : ℕ) (p : Phase) (h : Hub) → IsServed h → IsServed (accept x p h)
unfolding accept
accept-IsServed x absent h served = connect-IsServed x h served
accept-IsServed x greeting h served = served
accept-IsServed x receiving h served = served
accept-IsServed x ended h served = served

greet-IsServed : (x : ℕ) (b : Bool) (p : Phase) (h : Hub) → IsServed h → IsServed (greet x b p h).0
unfolding greet
greet-IsServed x true greeting h served = record {
  distinct = served.distinct;
  running = λ y i. same_phase h x receiving y tt (served.running y i);
}
greet-IsServed x false greeting h served = leave-IsServed x h served
greet-IsServed x true absent h served = served
greet-IsServed x true receiving h served = served
greet-IsServed x true ended h served = served
greet-IsServed x false absent h served = served
greet-IsServed x false receiving h served = served
greet-IsServed x false ended h served = served

pong-IsServed : (x : ℕ) (b : Bool) (h : Hub) → IsServed h → IsServed (pong x b h).0
unfolding pong
pong-IsServed x true h served = served
pong-IsServed x false h served = leave-IsServed x h served

reply-IsServed :
    (x : ℕ) (t : String) (b : Bool) (p : Phase) (h : Hub)
    → IsServed h
    → IsServed (reply x t b p h).0
unfolding reply
reply-IsServed x t b receiving h served = elim (Bool-cases (str_eq t "ping")) [
  | inl ping ↦ rw ping (pong-IsServed x b h served)
  | inr other ↦ rw other served
]
reply-IsServed x t b absent h served = served
reply-IsServed x t b greeting h served = served
reply-IsServed x t b ended h served = served

break_off-IsServed : (x : ℕ) (p : Phase) (h : Hub) → IsServed h → IsServed (break_off x p h)
unfolding break_off
break_off-IsServed x receiving h served = leave-IsServed x h served
break_off-IsServed x absent h served = served
break_off-IsServed x greeting h served = served
break_off-IsServed x ended h served = served

thin-IsServed :
    (h k : Hub)
    → IsServed h
    → Thinned h.service.active_connections k.service.active_connections
    → ((x : ℕ) → k.phase x ≡ h.phase x)
    → IsServed k
thin-IsServed h k served (inl e) same = record {
  distinct = rw e served.distinct;
  running = λ y i. rw (same y) (served.running y (rw e at i));
}
thin-IsServed h k served (inr (p, e)) same = record {
  distinct = rw e (keep-IsDistinct p h.service.active_connections served.distinct);
  running = λ y i.
      rw (same y)
        (served.running y ((In-keep_iff p y h.service.active_connections).0 (rw e at i)).0);
}

resumed-IsServed :
    (i : ℕ) (hint : List ℕ) (sends : ℕ → Bool) (f : Option (AuditLogEvent × Flight)) (h : Hub)
    → IsServed h
    → IsServed (resumed i hint sends f h).0
unfolding resumed go_on
resumed-IsServed i hint sends none h served = served
resumed-IsServed i hint sends (some (e, f)) h served =
    thin-IsServed h (resumed i hint sends (some (e, f)) h).0 served
      (resume-Thinned sends hint f.stage
        (record { service = h.service; changes = h.changes; flight = f }))
      (λ x. refl)

pub happen-IsServed :
    (max_logs : ℕ) (c : Happening) (h : Hub) → IsServed h → IsServed (happen max_logs c h).0
unfolding happen recorded
happen-IsServed n (accepts x) h served = accept-IsServed x (h.phase x) h served
happen-IsServed n (greets x b) h served = greet-IsServed x b (h.phase x) h served
happen-IsServed n (says x t b) h served = reply-IsServed x t b (h.phase x) h served
happen-IsServed n (drops x) h served = break_off-IsServed x (h.phase x) h served
happen-IsServed n (records e) h served =
    thin-IsServed h (recorded n e h) served (start-Thinned n e h.service) (λ x. refl)
happen-IsServed n (resumes i hint sends) h served =
    resumed-IsServed i hint sends (get_elem? h.flights i) h served

pub happened_from-IsServed :
    (max_logs : ℕ) (cs : List Happening) (h : Hub)
    → IsServed h
    → IsServed (happened max_logs cs h).0
unfolding happened
happened_from-IsServed n [] h served = served
happened_from-IsServed n (c ∷ cs) h served =
    happened_from-IsServed n cs (happen n c h).0 (happen-IsServed n c h served)

-- Whatever sockets come, talk and go, in any order and while events are recorded and their
-- broadcasts wait, go on and end or raise: no socket stands twice in the set, and each socket that
-- stands there has a handler that still runs: a handler that ends has taken its socket out.
pub happened-IsServed :
    (max_logs : ℕ) (cs : List Happening) (logs : List AuditLogEvent)
    → IsServed (happened max_logs cs (no_sockets logs)).0
happened-IsServed n cs logs =
    happened_from-IsServed n cs (no_sockets logs)
      (record { distinct = tt; running = λ y i. absurd i })
