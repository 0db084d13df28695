-- ===== src/Backend/Handlers/Logs.antt =====
-- A reading of the audit events, from the call of the client to the history of the service.
use Prim.Native.String
use zerokey.Base.{arith, ℕ, ◌≤◌, ◌≡◌, ap, ◌∙◌, String, Option, none, some, List, take, length}
use zerokey.Base.Text.{show_ℕ}
use zerokey.Api.Types.{AuditLogEvent}
use zerokey.Api.Call.{Call, options_of}
use zerokey.Backend.Schemas.{Lax}
use zerokey.Backend.Events.{EventService, default_max, get_logs}
use zerokey.Backend.Events.History.{Recording, record_all, history, get_logs-history}
use zerokey.Backend.Routes.{Route, route}
use zerokey.Backend.Routes.Reaching.{route-options_of, handler_of}
use zerokey.Backend.Handlers.{get_audit_logs, to_count}

module _ (lax : Lax) where
  -- What the backend answers where the route leads to the audit events.
  unfoldable pub answer_logs : EventService → Option Route → Option (List AuditLogEvent)
  answer_logs service (some (Route.get_audit_logs limit)) = get_audit_logs lax service limit
  answer_logs service _ = none

  pub logs_limited :
      (service : EventService) (n : ℕ)
      → 1 ≤ n
      → n ≤ 100
      → get_audit_logs lax service (some (show_ℕ n)) ≡ some (get_logs n service)
  unfolding get_audit_logs to_count
  logs_limited service n low high = rw (lax.to_int-text n) (ground arith)

  -- `query` reads the parameter that stands alone in the query, and is a number.
  module _ (query : String → String → Option String)
      (reads : (n : ℕ) → query "limit" (String.◌++◌ "limit=" (show_ℕ n)) ≡ some (show_ℕ n)) where
    -- A service that keeps 100 events, and starts with at most so many, answers the client's call
    -- for the last `n` events, with `n` from 1 to 100, after anything was recorded: its answer is
    -- the newest `n` of all events ever recorded, newest first.
    pub answer_logs-history :
        (rs : List Recording) (s : EventService) (n : ℕ)
        → length s.audit_logs ≤ default_max
        → 1 ≤ n
        → n ≤ default_max
        → answer_logs
            (record_all default_max rs s)
            (route query (options_of (Call.get_audit_logs n)))
          ≡ some (take n (history rs s.audit_logs))
    unfolding answer_logs handler_of
    answer_logs-history rs s n fits low high =
        rw (route-options_of query reads (Call.get_audit_logs n) tt, handler_of)
          (logs_limited (record_all default_max rs s) n low high
            ∙ ap some (get_logs-history default_max rs s fits n high))
