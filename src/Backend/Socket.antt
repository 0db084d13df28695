-- ===== src/Backend/Socket.antt =====
-- dashboard/backend/app/api/ws.py, `websocket_events`: one handler for each socket, and what it
-- sends. The handlers and the broadcasts of the events that are recorded meanwhile take turns in
-- any order; a step is what one of them does up to its next `await`.
pub mod Serving
pub mod Frames
pub mod Live
pub mod Rounds
pub mod Kept
mod Tests
use zerokey.Base.{
  ℕ, zero, suc, nat_eq, str_eq, Bool, true, false, String, Option, none, some, List, [], ◌∷◌, ◌++◌,
  get_elem?, if◌then◌else◌,
}
use zerokey.Api.Types.{Json, Fields, text, obj, end, field, AuditLogEvent}
use zerokey.Backend.Events.{EventService, has, connect, disconnect}
use zerokey.Backend.Events.Sending.{
  Stage, sending, finished, raised, Flight, Broadcasting, resume, start,
}

-- What `send_json` and `send_text` send.
pub data Frame : Type 0 where
  sent_json : Json → Frame
  sent_text : String → Frame

abbrev pub greeting_message : Json
greeting_message = obj (
    field "type" (text "CONNECTION_ESTABLISHED")
      (field "message" (text "Connected to ZeroKey live identity stream") end))

-- `event.model_dump()`
abbrev pub event_json : AuditLogEvent → Json
event_json e = obj (
    field "id" (text e.id) (
      field "timestamp" (text e.timestamp) (
        field "event_type" (text e.event_type) (
          field "actor" (text e.actor) (
            field "target" (text e.target)
              (field "status" (text e.status) (field "details" (text e.details) end)))))))

-- The payload of the broadcast.
abbrev pub audit_message : AuditLogEvent → Json
audit_message e = obj (field "type" (text "AUDIT_EVENT") (field "event" (event_json e) end))

-- Where the handler of a socket stands: not called yet, sending the greeting, waiting for a text,
-- or at its end.
pub data Phase : Type 0 where
  absent greeting receiving ended : Phase

-- The service, how often its set was changed, the handlers, and the broadcasts, newest first, each
-- with its event.
pub record Hub : Type 0 where
  pub service : EventService
  pub changes : ℕ
  pub phase : ℕ → Phase
  pub flights : List (AuditLogEvent × Flight)

abbrev pub set_phase : ℕ → Phase → Hub → Hub
set_phase socket p h = record h {
  phase = λ other. if nat_eq other socket then p else h.phase other;
}

-- A socket is accepted, its greeting succeeds or fails, it sends a text and an answer to that would
-- succeed or fail, or it breaks off; an event is recorded; or the broadcast at a place of the list
-- goes on, where `hint` names what its loop comes to if the set was changed, and `sends` says which
-- sockets can be written to.
pub data Happening : Type 0 where
  accepts : ℕ → Happening
  greets : ℕ → Bool → Happening
  says : ℕ → String → Bool → Happening
  drops : ℕ → Happening
  records : AuditLogEvent → Happening
  resumes : ℕ → List ℕ → (ℕ → Bool) → Happening

-- Both `except` clauses.
unfoldable pub leave : ℕ → Hub → Hub
unfolding disconnect
leave socket h = record (set_phase socket ended h) {
  service = disconnect socket h.service;
  changes = if has socket h.service.active_connections then suc h.changes else h.changes;
}

accept : ℕ → Phase → Hub → Hub
unfolding connect
accept socket absent h = record (set_phase socket greeting h) {
  service = connect socket h.service;
  changes = if has socket h.service.active_connections then h.changes else suc h.changes;
}
accept socket _ h = h

greet : ℕ → Bool → Phase → Hub → Hub × List (ℕ × Frame)
unfolding leave
greet socket true greeting h =
    (set_phase socket receiving h, (socket, sent_json greeting_message) ∷ [])
greet socket false greeting h = (leave socket h, [])
greet socket _ _ h = (h, [])

pong : ℕ → Bool → Hub → Hub × List (ℕ × Frame)
unfolding leave
pong socket true h = (h, (socket, sent_text "pong") ∷ [])
pong socket false h = (leave socket h, [])

reply : ℕ → String → Bool → Phase → Hub → Hub × List (ℕ × Frame)
unfolding pong
reply socket data_text succeeds receiving h =
    if str_eq data_text "ping" then pong socket succeeds h else (h, [])
reply socket data_text succeeds _ h = (h, [])

break_off : ℕ → Phase → Hub → Hub
unfolding leave
break_off socket receiving h = leave socket h
break_off socket _ h = h

-- `record_event` up to the first `await` of its broadcast, whose loop looks at the set as it is.
recorded : ℕ → AuditLogEvent → Hub → Hub
unfolding start
recorded max_logs e h =
    let b : Broadcasting = start max_logs e h.service in
    record h {
      service = b.service;
      flights = (e, record (b.flight) { seen = h.changes }) ∷ h.flights;
    }

-- The frame of a socket that could be written to.
pub delivered : (ℕ → Bool) → AuditLogEvent → Stage → List (ℕ × Frame)
delivered sends e (sending socket) =
    if sends socket then (socket, sent_json (audit_message e)) ∷ [] else []
delivered sends e finished = []
delivered sends e raised = []

-- The broadcast of `e` goes on.
go_on : List ℕ → (ℕ → Bool) → AuditLogEvent → Flight → Hub → Broadcasting
unfolding resume
go_on hint sends e f h =
    resume sends hint f.stage (record { service = h.service; changes = h.changes; flight = f })

replace :
    ℕ → (AuditLogEvent × Flight) → List (AuditLogEvent × Flight) → List (AuditLogEvent × Flight)
replace i f [] = []
replace zero f (g ∷ gs) = f ∷ gs
replace (suc i) f (g ∷ gs) = g ∷ replace i f gs

resumed : ℕ → List ℕ → (ℕ → Bool) → Option (AuditLogEvent × Flight) → Hub → Hub × List (ℕ × Frame)
unfolding go_on delivered replace
resumed i hint sends none h = (h, [])
resumed i hint sends (some (e, f)) h =
    let b : Broadcasting = go_on hint sends e f h in
    (
      record h {
        service = b.service;
        changes = b.changes;
        flights = replace i (e, b.flight) h.flights;
      },
      delivered sends e f.stage,
    )

-- The step, and the frames that it sends, each with its socket.
unfoldable pub happen : ℕ → Happening → Hub → Hub × List (ℕ × Frame)
unfolding accept greet reply break_off recorded resumed
happen max_logs (accepts socket) h = (accept socket (h.phase socket) h, [])
happen max_logs (greets socket succeeds) h = greet socket succeeds (h.phase socket) h
happen max_logs (says socket data_text succeeds) h =
    reply socket data_text succeeds (h.phase socket) h
happen max_logs (drops socket) h = (break_off socket (h.phase socket) h, [])
happen max_logs (records e) h = (recorded max_logs e h, [])
happen max_logs (resumes i hint sends) h = resumed i hint sends (get_elem? h.flights i) h

-- All steps, in their order.
unfoldable pub happened : ℕ → List Happening → Hub → Hub × List (ℕ × Frame)
unfolding happen
happened max_logs [] h = (h, [])
happened max_logs (c ∷ cs) h =
    let (h2, frames) = happen max_logs c h in
    let (h3, more) = happened max_logs cs h2 in (h3, frames ++ more)

-- Before the first socket.
abbrev pub no_sockets : List AuditLogEvent → Hub
no_sockets logs = record {
  service = record { active_connections = []; audit_logs = logs };
  changes = 0;
  phase = λ socket. absent;
  flights = [];
}
