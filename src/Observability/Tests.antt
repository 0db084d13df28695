-- ===== src/Observability/Tests.antt =====
-- The observability page on concrete inputs.
use zerokey.Base.{◌≡◌, refl, none, some, List, [], ◌∷◌}
use zerokey.Api.Types.{Json, text, obj, end, field, AuditLogEvent}
use zerokey.Api.Call.{get_audit_logs}
use zerokey.Api.Fetch.{member, truthy_json}
use zerokey.Runtime.Async.{ok, failed}
use zerokey.Runtime.World.{World, Server, Event, act, respond, step, after}
use zerokey.Observability.{State, Action, socket_opens, socket_sends, init, page}
use zerokey.Observability.Stream.{Shown, socket_sends-Shown}

abbrev denial : AuditLogEvent
denial = record {
  id = "a1";
  timestamp = "";
  event_type = "POLICY";
  actor = "client";
  target = "backend";
  status = "DENIED";
  details = "";
}

abbrev as_denial : Json → AuditLogEvent
as_denial v = denial

abbrev announcement : Json
announcement =
    obj (field "type" (text "AUDIT_EVENT") (field "event" (obj (field "id" (text "a1") end)) end))

abbrev half : Server
half (get_audit_logs limit) = ok []
half _ = failed "no route"

abbrev telemetry : List (Event Action)
telemetry =
    respond 0 1 half
    ∷ act socket_opens
    ∷ respond 0 0 half
    ∷ act (socket_sends none)
    ∷ act (socket_sends (some announcement))
    ∷ []

settled : (after (page as_denial) telemetry).waiting ≡ []
unfolding after page step member truthy_json
settled = refl

-- Of the two messages, one announces an event.
announced : (after (page as_denial) telemetry).state.logs ≡ denial ∷ []
unfolding after page step member truthy_json
announced = refl

abbrev world : World State
world = record { state = init; waiting = []; sent = []; effects = []; unhandled = [] }

message_example : Shown as_denial (some announcement) world
message_example = socket_sends-Shown as_denial world (some announcement)
