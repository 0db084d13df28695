-- ===== src/Backend/Events.antt =====
-- dashboard/backend/app/services/event_service.py: the audit events, newest first and at most
-- `max_logs` of them, and the WebSockets to which they are broadcast. A socket is a number.
pub mod History
pub mod Broadcast
pub mod Sending
use zerokey.Base.{
  ℕ, suc, ltb, leb, nat_eq, Bool, true, false, not, String, List, [], ◌∷◌, ◌++◌, length, take, any,
  keep, if◌then◌else◌,
}
use zerokey.Api.Types.{AuditLogEvent}

pub record EventService : Type 0 where
  pub active_connections : List ℕ
  pub audit_logs : List AuditLogEvent

-- `max_logs: int = 100`
abbrev pub default_max : ℕ
default_max = 100

-- `list.pop()`
drop_last : List AuditLogEvent → List AuditLogEvent
drop_last [] = []
drop_last (e ∷ []) = []
drop_last (e ∷ f ∷ rest) = e ∷ drop_last (f ∷ rest)

abbrev event : String → String → String → String → String → String → String → AuditLogEvent
event id timestamp event_type actor target status details = record {
  id = id;
  timestamp = timestamp;
  event_type = event_type;
  actor = actor;
  target = target;
  status = status;
  details = details;
}

-- The events of the start; the identifiers are four fresh ones.
abbrev pub initial_events : String → String → String → String → String → List AuditLogEvent
initial_events now id0 id1 id2 id3 =
    event id0 now "SYSTEM_BOOT" "spire-server" "demo.local" "SUCCESS"
      "SPIRE Server initialized Root Certificate Authority and SQLite datastore"
    ∷ event id1 now "NODE_ATTESTATION" "spire-agent" "spiffe://demo.local/node/agent" "SUCCESS"
        "Node attested via join_token plugin and Docker socket inspection"
    ∷ event id2 now "SVID_MINT" "spire-server" "spiffe://demo.local/backend-api" "SUCCESS"
        "Issued X.509 SVID (TTL: 3600s, Selector: docker:label:workload:backend-api)"
    ∷ event id3 now "SVID_MINT" "spire-server" "spiffe://demo.local/client-worker" "SUCCESS"
        "Issued X.509 SVID (TTL: 3600s, Selector: docker:label:workload:client-worker)"
    ∷ []

-- The part of `record_event` under the lock.
unfoldable pub add_log : ℕ → AuditLogEvent → List AuditLogEvent → List AuditLogEvent
unfolding drop_last
add_log max_logs e logs =
    if ltb max_logs (length (e ∷ logs)) then drop_last (e ∷ logs) else e ∷ logs

abbrev pub has : ℕ → List ℕ → Bool
has socket sockets = any (nat_eq socket) sockets

-- A set holds a socket once.
unfoldable pub connect : ℕ → EventService → EventService
connect socket s =
    if has socket s.active_connections
    then s
    else record s { active_connections = socket ∷ s.active_connections }

unfoldable pub disconnect : ℕ → EventService → EventService
disconnect socket s = record s {
  active_connections = keep (λ c. not (nat_eq socket c)) s.active_connections;
}

-- `sends socket` says whether sending to the socket succeeds. The result is the service without the
-- dead connections, and the sockets that got the message.
unfoldable pub broadcast : (ℕ → Bool) → EventService → EventService × List ℕ
broadcast sends s = (
  record s { active_connections = keep sends s.active_connections },
  keep sends s.active_connections,
)

unfoldable pub record_event : ℕ → (ℕ → Bool) → AuditLogEvent → EventService → EventService × List ℕ
unfolding add_log broadcast
record_event max_logs sends e s =
    broadcast sends (record s { audit_logs = add_log max_logs e s.audit_logs })

unfoldable pub get_logs : ℕ → EventService → List AuditLogEvent
get_logs limit s = take limit s.audit_logs
