-- ===== src/Audit.antt =====
-- How an audit event is shown: dashboard/frontend/src/app/page.tsx and
-- dashboard/frontend/src/app/observability/page.tsx do it alike. `local_time` is the text of a
-- timestamp, `new Date(timestamp).toLocaleTimeString()`.
use zerokey.Base.{String, Bool, List, map, template, str_eq, is_empty, if◌then◌else◌, ◌∷◌, []}
use zerokey.Api.Types.{AuditLogEvent}

pub record LogRow : Type 0 where
  pub badge : String
  pub succeeded : Bool
  pub details : String
  pub parties : String
  pub time : String

pub data Feed : Type 0 where
  message : String → Feed
  rows : List LogRow → Feed

module _ (local_time : String → String) where
  unfoldable pub row_of : AuditLogEvent → LogRow
  row_of log = record {
    badge = log.event_type;
    succeeded = str_eq log.status "SUCCESS";
    details = log.details;
    parties = template ("Actor: " ∷ log.actor ∷ " ➔ Target: " ∷ log.target ∷ []);
    time = local_time log.timestamp;
  }

  -- The events, or a text where there are none.
  unfoldable pub feed : String → List AuditLogEvent → Feed
  unfolding row_of
  feed standard logs = if is_empty logs then message standard else rows (map row_of logs)
