-- ===== src/Backend/Socket/Rounds.antt =====
-- The sockets and the broadcasts in rounds: a step of a handler, or a whole broadcast, during whose
-- waiting no socket comes or goes.
pub mod Told
pub mod Played
use mathlib.Core.List.{append_assoc}
use zerokey.Base.{
  arith, ◌+◌, take, ℕ, suc, nat_eq, ◌≤◌, ◌≡◌, refl, sym, ap, ◌∙◌, inl, inr, Bool, true, false,
  String, Option, none, str_eq, List, [], ◌∷◌, ◌++◌, map, length, keep, Bool-cases, if◌then◌else◌,
}
use zerokey.Api.Types.{Json, AuditLogEvent}
use zerokey.Runtime.World.{World}
use zerokey.Observability
use zerokey.Backend.Events.{EventService, has, add_log}
use zerokey.Backend.Events.Broadcast.{IsDistinct, has_kept, same_number}
use zerokey.Backend.Events.Sending.{
  Stage, sending, finished, Flight, Broadcasting, resume, start, next,
}
use zerokey.Backend.Events.Sending.Quiet.{
  midway, turn, next-midway, last_turn, IsOver, begin-midway,
}
use zerokey.Backend.Socket.{
  Frame, sent_json, sent_text, greeting_message, event_json, audit_message, Phase, absent, greeting,
  receiving, ended, Hub, Happening, greets, says, records, resumes, happen, happened, greet, reply,
  pong, recorded, resumed, go_on, replace, delivered, set_phase,
}
use zerokey.Backend.Socket.Frames.{frames_for}
use zerokey.Backend.Socket.Serving.{IsServed, happened_from-IsServed}
use zerokey.Backend.Socket.Live.{
  Stays, heard, heard_nothing, with_logs, heard_event, heard_greeting, heard_pong, happen-IsQuiet,
  heard-happened,
}

-- What may happen during a broadcast: its loop goes on, a greeting succeeds, or a text comes, whose
-- answer succeeds.
pub data Beat : Type 0 where
  goes : List ℕ → Beat
  greeted : ℕ → Beat
  asked : ℕ → String → Beat

abbrev pub beat : (ℕ → Bool) → Beat → Happening
beat sends (goes hint) = resumes 0 hint sends
beat sends (greeted y) = greets y true
beat sends (asked y data_text) = says y data_text true

-- How often the loop goes on.
abbrev pub goings : List Beat → ℕ
goings [] = 0
goings (goes hint ∷ bs) = suc (goings bs)
goings (_ ∷ bs) = goings bs

pub data Round : Type 0 where
  calm : Happening → Round
  whole : AuditLogEvent → (ℕ → Bool) → List Beat → Round

abbrev pub steps : Round → List Happening
steps (calm c) = c ∷ []
steps (whole e sends bs) = records e ∷ map (beat sends) bs

-- All rounds, in their order.
unfoldable pub played : ℕ → List Round → Hub → Hub × List (ℕ × Frame)
unfolding happened
played n [] h = (h, [])
played n (r ∷ rs) h =
    let (h2, frames) = happened n (steps r) h in
    let (h3, more) = played n rs h2 in (h3, frames ++ more)

-- Nothing cuts the socket off, and each broadcast has as many turns as there are sockets.
abbrev pub FitsIn : ℕ → Round → Hub → Type 0
FitsIn x (calm c) h = Stays x c
FitsIn x (whole e sends bs) h = (sends x ≡ true) × (length h.service.active_connections ≤ goings bs)

abbrev pub Fit : ℕ → ℕ → List Round → Hub → Type 0
unfolding happened
Fit n x [] h = Unit
Fit n x (r ∷ rs) h = FitsIn x r h × Fit n x rs (happened n (steps r) h).0

-- What the rounds record, on top of `past`, newest first.
abbrev pub add_round : Round → List AuditLogEvent → List AuditLogEvent
add_round (calm c) past = past
add_round (whole e sends bs) past = e ∷ past

abbrev pub all_rounds : List Round → List AuditLogEvent → List AuditLogEvent
all_rounds [] past = past
all_rounds (r ∷ rs) past = all_rounds rs (add_round r past)

-- How many events are recorded.
abbrev pub count : List Round → ℕ
count [] = 0
count (calm c ∷ rs) = count rs
count (whole e sends bs ∷ rs) = suc (count rs)

pub all_rounds-take :
    (k : ℕ) (rs : List Round) (past : List AuditLogEvent)
    → all_rounds rs (take k past) ≡ take (count rs + k) (all_rounds rs past)
all_rounds-take k [] past = ap (λ n. take n past) (omega arith)
all_rounds-take k (calm c ∷ rs) past = all_rounds-take k rs past
all_rounds-take k (whole e sends bs ∷ rs) past =
    all_rounds-take (suc k) rs (e ∷ past)
    ∙ ap (λ n. take n (all_rounds rs (e ∷ past))) (omega arith)

pub told : Bool → AuditLogEvent → List AuditLogEvent → List AuditLogEvent
told true e past = e ∷ past
told false e past = past

-- A hub whose newest broadcast is `b`.
abbrev pub landing :
    (ℕ → Phase) → List (AuditLogEvent × Flight) → AuditLogEvent → Broadcasting → Hub
landing phases others e b = record {
  service = b.service;
  changes = b.changes;
  phase = phases;
  flights = (e, b.flight) ∷ others;
}

module _ (n : ℕ) (e : AuditLogEvent) (others : List (AuditLogEvent × Flight))
    (sends : ℕ → Bool) where
  pub resumed-landing :
      (hint : List ℕ) (phases : ℕ → Phase) (b : Broadcasting)
      → happen n (resumes 0 hint sends) (landing phases others e b) ≡ (
        landing phases others e (resume sends hint b.flight.stage b),
        delivered sends e b.flight.stage,
      )
  unfolding happen resumed go_on replace
  resumed-landing hint phases b = refl

  pub over-landing :
      (hint : List ℕ) (phases : ℕ → Phase) (b : Broadcasting)
      → b.flight.stage ≡ finished
      → happen n (resumes 0 hint sends) (landing phases others e b)
        ≡ (landing phases others e b, [])
  unfolding resume delivered
  over-landing hint phases b over =
      resumed-landing hint phases b
      ∙ ap (λ stage. (landing phases others e (resume sends hint stage b), delivered sends e stage))
          over

pub recorded-landing :
    (n : ℕ) (e : AuditLogEvent) (sends : ℕ → Bool) (h : Hub) (y : ℕ) (rest : List ℕ)
    → h.service.active_connections ≡ y ∷ rest
    → happen n (records e) h ≡ (
      landing h.phase h.flights e
          (midway sends (add_log n e h.service.audit_logs) h.changes (y ∷ rest) [] y rest),
      [],
    )
unfolding happen recorded start
recorded-landing n e sends h y rest order =
    ap
      (λ b. (
        record h {
          service = b.service;
          flights = (e, record (b.flight) { seen = h.changes }) ∷ h.flights;
        },
        [],
      ))
      (started ∙ begin-midway sends n (add_log n e h.service.audit_logs) y rest)
  where
    started :
        start n e h.service
        ≡ start n e (record { active_connections = y ∷ rest; audit_logs = h.service.audit_logs })
    started =
        ap
          (λ set.
            start n e (record { active_connections = set; audit_logs = h.service.audit_logs }))
          order
