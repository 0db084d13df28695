-- ===== src/Observability.antt =====
-- dashboard/frontend/src/app/observability/page.tsx: the metrics and the audit events, which are
-- read together, and the WebSocket that announces new events. `as_event` is the cast of an
-- announced value to an audit event, which is unchecked.
pub mod View
pub mod Loading
pub mod Rounds
pub mod Stream
pub mod Connection
mod Tests
use zerokey.Base.{
  pos, String, Bool, true, false, Option, none, some, List, [], ◌∷◌, template, str_eq,
  if◌then◌else◌, ◌&&◌,
}
use zerokey.Api.Types.{
  Json, null, bool, int, decimal, text, arr, obj, Fields, AuditLogEvent, IdentityMetrics,
}
use zerokey.Api.Call.{get_audit_logs, get_metrics}
use zerokey.Api.Fetch.{member, truthy_json}
use zerokey.Runtime.Async.{
  Async, Promise, pure, ◌>>=◌, ◌>>◌, catch, finally, modify, perform, all, console_error,
}
use zerokey.Runtime.World.{Page}

pub record State : Type 0 where
  pub logs : List AuditLogEvent
  pub metrics : Option IdentityMetrics
  pub loading : Bool
  pub ws_connected : Bool

abbrev pub init : State
init = record { logs = []; metrics = none; loading = true; ws_connected = false }

abbrev set_logs : (List AuditLogEvent → List AuditLogEvent) → State → State
set_logs f s = record s { logs = f s.logs }

abbrev set_metrics : Option IdentityMetrics → State → State
set_metrics v s = record s { metrics = v }

abbrev set_loading : Bool → State → State
set_loading v s = record s { loading = v }

abbrev set_ws_connected : Bool → State → State
set_ws_connected v s = record s { ws_connected = v }

-- The values that stand in for metrics that do not come.
abbrev pub fallback : IdentityMetrics
fallback = record {
  svid_rotations_total = pos 42;
  active_trust_domains = pos 1;
  mtls_handshakes_success_rate = record { mantissa = pos 998; scale = 1 };
  average_handshake_latency_ms = record { mantissa = pos 146; scale = 1 };
  attestation_rate_per_min = record { mantissa = pos 52; scale = 1 };
  recent_policy_denials = pos 0;
}

abbrev pub requests : List Promise
requests =
    record { call = get_audit_logs 30; recover = some [] }
    ∷ record { call = get_metrics; recover = some fallback }
    ∷ []

unfoldable pub load_data : Async State (Unit {0})
load_data =
    finally
      (catch
        (do
          modify (set_loading true)
          (logs_data, (metrics_data, _)) ← all requests
          modify (set_logs (λ _. logs_data))
          modify (set_metrics (some metrics_data)))
        (λ message.
          perform (console_error (template ("Failed to load telemetry " ∷ message ∷ [])))))
      (modify (set_loading false))

is_text : Option Json → String → Bool
is_text (some (text s)) expected = str_eq s expected
is_text _ expected = false

-- `ws.onmessage` of the button, the socket, and the data of a message, where it parses.
pub data Action : Type 0 where
  refresh socket_opens socket_closes socket_fails : Action
  socket_sends : Option Json → Action

module _ (as_event : Json → AuditLogEvent) where
  announce : Option Json → Async State (Unit {0})
  announce none = pure tt
  announce (some v) =
      if truthy_json v then modify (set_logs (λ prev. as_event v ∷ prev)) else pure tt

  received : Json → Async State (Unit {0})
  unfolding announce is_text
  received (obj fields) =
      if is_text (member "type" fields) "AUDIT_EVENT"
      then announce (member "event" fields)
      else pure tt
  received _ = pure tt

  -- A text that does not parse is left out, and so is `null`, whose member cannot be read.
  unfoldable pub on_message : Option Json → Async State (Unit {0})
  unfolding received
  on_message none = pure tt
  on_message (some v) = received v

  unfoldable pub on : Action → State → Async State (Unit {0})
  unfolding load_data on_message
  on refresh s = load_data
  on socket_opens s = modify (set_ws_connected true)
  on socket_closes s = modify (set_ws_connected false)
  on socket_fails s = modify (set_ws_connected false)
  on (socket_sends v) s = on_message v

  unfoldable pub page : Page State Action
  unfolding on load_data
  page = record { init = init; mount = load_data; on = on }
