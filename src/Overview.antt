-- ===== src/Overview.antt =====
-- dashboard/frontend/src/app/page.tsx: the overview. It reads the state of the cluster and the last
-- five audit events together, at first, at each refresh, and every ten seconds.
pub mod View
pub mod Loading
pub mod Rounds
mod Tests
use zerokey.Base.{pos, String, Bool, true, false, Option, none, some, List, [], ◌∷◌, or_text}
use zerokey.Api.Types.{OverviewSummary, AuditLogEvent}
use zerokey.Api.Call.{get_overview, get_audit_logs}
use zerokey.Runtime.Async.{Async, Promise, ◌>>=◌, ◌>>◌, catch, finally, modify, all}
use zerokey.Runtime.World.{Page}

pub record State : Type 0 where
  pub overview : Option OverviewSummary
  pub recent_logs : List AuditLogEvent
  pub loading : Bool
  pub error : Option String

abbrev pub init : State
init = record { overview = none; recent_logs = []; loading = true; error = none }

abbrev set_overview : Option OverviewSummary → State → State
set_overview v s = record s { overview = v }

abbrev set_recent_logs : List AuditLogEvent → State → State
set_recent_logs v s = record s { recent_logs = v }

abbrev set_loading : Bool → State → State
set_loading v s = record s { loading = v }

abbrev set_error : Option String → State → State
set_error v s = record s { error = v }

-- The values that stand in for an overview that does not come.
abbrev pub fallback : OverviewSummary
fallback = record {
  trust_domain = "demo.local";
  spire_server_healthy = true;
  spire_agent_count = pos 1;
  workload_entries_count = pos 2;
  oidc_healthy = true;
  backend_api_healthy = true;
  active_svids = pos 3;
  system_version = "1.0.0";
}

abbrev pub requests : List Promise
requests =
    record { call = get_overview; recover = some fallback }
    ∷ record { call = get_audit_logs 5; recover = some [] }
    ∷ []

unfoldable pub load_data : Async State (Unit {0})
load_data =
    finally
      (catch
        (do
          modify (set_loading true)
          modify (set_error none)
          (overview_data, (logs_data, _)) ← all requests
          modify (set_overview (some overview_data))
          modify (set_recent_logs logs_data))
        (λ message. modify (set_error (some (or_text message "Failed to load cluster state")))))
      (modify (set_loading false))

-- The button of the topology graph, and one firing of the interval.
pub data Action : Type 0 where
  refresh tick : Action

unfoldable pub on : Action → State → Async State (Unit {0})
unfolding load_data
on refresh s = load_data
on tick s = load_data

unfoldable pub page : Page State Action
unfolding on load_data
page = record { init = init; mount = load_data; on = on }
