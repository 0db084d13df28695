-- ===== src/Backend/Events/Sending.antt =====
-- `EventService.record_event` with what other tasks do while its broadcast waits for a socket. The
-- set of the connections is the one that the loop runs over, as Python has it: at each turn the
-- loop raises an error if the set has another size than at its start; if it was changed and has
-- that size, the loop goes on with any members, which `hint` names; else with the ones that it has
-- still to come to.
pub mod Kept
pub mod Ending
pub mod Thinned
mod Failing
pub mod Quiet
pub mod Midway
pub mod Cut
mod Tests
use zerokey.Base.{
  ℕ, zero, suc, ◌+◌, nat_eq, length, not, Bool, true, false, List, [], ◌∷◌, ◌++◌, keep,
  if◌then◌else◌,
}
use zerokey.Api.Types.{AuditLogEvent}
use zerokey.Backend.Events.{EventService, has, add_log, connect, disconnect}

-- The loop waits for a socket, or the broadcast is over, by its end or by an error.
pub data Stage : Type 0 where
  sending : ℕ → Stage
  finished raised : Stage

-- The loop: where it is, the sockets it has still to come to, the size of the set at its start, and
-- how often the set had been changed when it last looked; the sockets that got the message, and
-- `dead_connections`.
pub record Flight : Type 0 where
  pub stage : Stage
  pub left : List ℕ
  pub size : ℕ
  pub seen : ℕ
  pub reached : List ℕ
  pub dead : List ℕ

-- The service, how often its set was changed, and the loop.
pub record Broadcasting : Type 0 where
  pub service : EventService
  pub changes : ℕ
  pub flight : Flight

abbrev pub set_stage : Stage → Broadcasting → Broadcasting
set_stage stage b = record b { flight = record (b.flight) { stage = stage } }

-- The loop has a next socket; or it is over, and the dead connections are taken out.
pub next : List ℕ → Broadcasting → Broadcasting
next (x ∷ rest) b = record b {
  flight = record (b.flight) { stage = sending x; left = rest; seen = b.changes };
}
next [] b = record (set_stage finished b) {
  service = record (b.service) {
    active_connections = keep (λ c. not (has c b.flight.dead)) b.service.active_connections;
  };
  changes = suc b.changes;
}

look : List ℕ → Broadcasting → Broadcasting
unfolding next
look hint b =
    if nat_eq (length b.service.active_connections) b.flight.size
    then next (if nat_eq b.changes b.flight.seen then b.flight.left else hint) b
    else set_stage raised b

-- `send_json` has succeeded or not.
abbrev pub answered : (ℕ → Bool) → ℕ → Broadcasting → Broadcasting
answered sends x b = record b {
  flight = record (b.flight) {
    reached = if sends x then b.flight.reached ++ x ∷ [] else b.flight.reached;
    dead = if sends x then b.flight.dead else b.flight.dead ++ x ∷ [];
  };
}

-- The loop goes on up to the next `await`.
unfoldable pub resume : (ℕ → Bool) → List ℕ → Stage → Broadcasting → Broadcasting
unfolding look
resume sends hint (sending x) b = look hint (answered sends x b)
resume sends hint finished b = b
resume sends hint raised b = b

-- Before the loop looks at the set for the first time.
abbrev pub unlooked : List ℕ → EventService → Broadcasting
unlooked connections service = record {
  service = service;
  changes = 0;
  flight = record {
    stage = finished;
    left = connections;
    size = length connections;
    seen = 0;
    reached = [];
    dead = [];
  };
}

-- The broadcast up to its first `await`; without connections it has none.
pub begin : List ℕ → EventService → Broadcasting
unfolding look
begin [] service = unlooked [] service
begin connections service = look [] (unlooked connections service)

-- `record_event` up to the first `await` of its broadcast.
unfoldable pub start : ℕ → AuditLogEvent → EventService → Broadcasting
unfolding begin add_log
start max_logs e s =
    begin s.active_connections (record s { audit_logs = add_log max_logs e s.audit_logs })

-- The loop goes on; or another task adds a socket, takes one out, or records an event.
pub data Move : Type 0 where
  resumes : List ℕ → Move
  joins leaves : ℕ → Move
  logs : AuditLogEvent → Move

module _ (max_logs : ℕ) (sends : ℕ → Bool) where
  unfoldable pub move : Move → Broadcasting → Broadcasting
  unfolding resume connect disconnect add_log
  move (resumes hint) b = resume sends hint b.flight.stage b
  move (joins x) b = record b {
    service = connect x b.service;
    changes = if has x b.service.active_connections then b.changes else suc b.changes;
  }
  move (leaves x) b = record b {
    service = disconnect x b.service;
    changes = if has x b.service.active_connections then suc b.changes else b.changes;
  }
  move (logs e) b = record b {
    service = record (b.service) { audit_logs = add_log max_logs e b.service.audit_logs };
  }

  unfoldable pub moved : List Move → Broadcasting → Broadcasting
  unfolding move
  moved [] b = b
  moved (m ∷ ms) b = moved ms (move m b)

-- Turns that end the loop: one for each socket to come, and one for the socket that is waited for.
unfoldable pub turns_left : List ℕ → List Move
turns_left [] = resumes [] ∷ []
turns_left (x ∷ left) = resumes [] ∷ turns_left left

unfoldable pub is_raised : Stage → Bool
is_raised raised = true
is_raised finished = false
is_raised (sending x) = false
