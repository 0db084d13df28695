-- ===== src/Backend/Events/Sending/Tests.antt =====
-- A broadcast on concrete inputs.
use zerokey.Base.{ℕ, arith, nat_eq, not, ◌≡◌, refl, Bool, List, [], ◌∷◌}
use zerokey.Api.Types.{AuditLogEvent}
use zerokey.Backend.Events.{EventService, broadcast, record_event}
use zerokey.Backend.Events.Sending.{
  Move, resumes, joins, leaves, logs, start, moved, finished, raised,
}
use zerokey.Backend.Events.Sending.Kept.{moved-history}
use zerokey.Backend.Events.Sending.{Broadcasting}
use zerokey.Backend.Events.Sending.Quiet.{moved-broadcast}
use zerokey.Backend.Events.Sending.Cut.{moved-cut}

abbrev event_of : AuditLogEvent
event_of = record {
  id = "e1";
  timestamp = "t1";
  event_type = "SVID_MINT";
  actor = "spire-server";
  target = "spiffe://demo.local/client-worker";
  status = "SUCCESS";
  details = "";
}

abbrev other_event : AuditLogEvent
other_event = record event_of { id = "e2" }

abbrev service : EventService
service = record { active_connections = 1 ∷ 2 ∷ 3 ∷ []; audit_logs = [] }

-- The second socket fails.
abbrev but_second : ℕ → Bool
but_second x = not (nat_eq x 2)

abbrev undisturbed : List Move
undisturbed = resumes [] ∷ logs other_event ∷ resumes [] ∷ resumes [] ∷ []

abbrev turbulent : List Move
turbulent = resumes [] ∷ leaves 3 ∷ joins 9 ∷ resumes [] ∷ logs other_event ∷ []

history_example :
    (moved 100 but_second turbulent (start 100 event_of service)).service.audit_logs
    ≡ other_event ∷ event_of ∷ []
history_example = moved-history 100 but_second turbulent event_of service (omega arith)

quiet_example :
    ((moved 100 but_second undisturbed (start 100 event_of service)).flight.stage ≡ finished)
    × ((moved 100 but_second undisturbed (start 100 event_of service)).flight.reached ≡ 1 ∷ 3 ∷ [])
    × ((moved 100 but_second undisturbed (start 100 event_of service)).service.active_connections
        ≡ 1 ∷ 3 ∷ [])
unfolding record_event broadcast
quiet_example =
    moved-broadcast but_second 100 undisturbed event_of service (tt, (tt, (tt, (tt, tt))))
      (omega arith)

-- The third socket gets nothing, and the second one stays in the set.
cut_example :
    ((moved 100 but_second
        (resumes [] ∷ joins 9 ∷ resumes [] ∷ [])
        (start 100 event_of service)).flight.stage
      ≡ raised)
    × ((moved 100 but_second
          (resumes [] ∷ joins 9 ∷ resumes [] ∷ [])
          (start 100 event_of service)).flight.reached
        ≡ 1 ∷ [])
    × ((moved 100 but_second
          (resumes [] ∷ joins 9 ∷ resumes [] ∷ [])
          (start 100 event_of service)).service.active_connections
        ≡ 9 ∷ 1 ∷ 2 ∷ 3 ∷ [])
cut_example =
    moved-cut 100 but_second (resumes [] ∷ []) (resumes [] ∷ []) 9 event_of service (tt, tt)
      (omega arith) refl (tt, tt) (omega arith)

-- The set has another member and its old size.
abbrev disturbed : Broadcasting
unfolding moved start
disturbed = moved 100 but_second (resumes [] ∷ leaves 3 ∷ joins 9 ∷ []) (start 100 event_of service)
