-- ===== src/Backend/App/Noted.antt =====
-- dashboard/backend/app/services/event_service.py, `record_event` in a request: how its broadcast
-- ends, and what is in the log after it.
use zerokey.Base.{◌≡◌, ap, ◌∙◌}
use zerokey.Api.Fetch.{Response}
use zerokey.Backend.Events.{EventService, default_max, add_log}
use zerokey.Backend.Events.Sending.{Broadcasting, start, moved, turns_left}
use zerokey.Backend.Events.Sending.Ending.{relogged, moved-logs, relogged-turns_left, start-logs}
use zerokey.Backend.Flow.{Recorded}
use zerokey.Backend.App.{Environment, event_of, noting, noted, recorded_response}

-- The log has the event, and then what other tasks record meanwhile, also if the request raises.
pub recorded_response-logs :
    (env : Environment) (r : Recorded) (response : Response) (s : EventService)
    → (recorded_response env r response s).1.audit_logs
      ≡ relogged default_max env.meanwhile (add_log default_max (event_of env r) s.audit_logs)
unfolding recorded_response noted noting
recorded_response-logs env r response s =
    let b : Broadcasting =
      moved default_max env.sends env.meanwhile (start default_max (event_of env r) s) in
    moved-logs default_max env.sends (turns_left b.flight.left) b
    ∙ relogged-turns_left default_max env.sends b.flight.left b.service.audit_logs
    ∙ moved-logs default_max env.sends env.meanwhile (start default_max (event_of env r) s)
    ∙ ap (relogged default_max env.meanwhile) (start-logs default_max (event_of env r) s)
