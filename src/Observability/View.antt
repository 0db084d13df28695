-- ===== src/Observability/View.antt =====
-- dashboard/frontend/src/app/observability/page.tsx: what the page shows. `number_text` prints a
-- fraction.
use zerokey.Base.{String, Option, none, some, [], ◌∷◌, template, length, if◌then◌else◌, Decimal}
use zerokey.Base.Text.{show_ℕ, show_ℤ}
use zerokey.Api.Types.{IdentityMetrics}
use zerokey.Audit.{Feed, feed}
use zerokey.Observability.{State}

pub record Gauges : Type 0 where
  pub success_rate : String
  pub latency : String
  pub rotations : String
  pub denials : String

pub record Screen : Type 0 where
  pub socket : String
  pub gauges : Option Gauges
  pub count : String
  pub events : Feed

module _ (number_text : Decimal → String) (local_time : String → String) where
  gauges_of : Option IdentityMetrics → Option Gauges
  gauges_of none = none
  gauges_of (some metrics) = some (record {
    success_rate = template (number_text metrics.mtls_handshakes_success_rate ∷ "%" ∷ []);
    latency = template (number_text metrics.average_handshake_latency_ms ∷ "ms" ∷ []);
    rotations = show_ℤ metrics.svid_rotations_total;
    denials = show_ℤ metrics.recent_policy_denials;
  })

  unfoldable pub screen : State → Screen
  unfolding gauges_of feed
  screen s = record {
    socket = if s.ws_connected then "Live Socket Active" else "Polling Stream";
    gauges = gauges_of s.metrics;
    count = template ("Showing last " ∷ show_ℕ (length s.logs) ∷ " events" ∷ []);
    events = feed local_time "Waiting for audit events..." s.logs;
  }
