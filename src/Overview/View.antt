-- ===== src/Overview/View.antt =====
-- dashboard/frontend/src/app/page.tsx: what the overview shows.
use zerokey.Base.{ℤ, String, Option, none, some}
use zerokey.Base.Text.{show_ℤ}
use zerokey.Api.Types.{OverviewSummary}
use zerokey.Audit.{Feed, feed}
use zerokey.Overview.{State}

pub record Screen : Type 0 where
  pub active_svids : String
  pub agents : String
  pub workloads : String
  pub recent : Feed

count_text : Option OverviewSummary → (OverviewSummary → ℤ) → String
count_text none count = "—"
count_text (some overview) count = show_ℤ (count overview)

module _ (local_time : String → String) where
  unfoldable pub screen : State → Screen
  unfolding count_text feed
  screen s = record {
    active_svids = count_text s.overview (λ o. o.active_svids);
    agents = count_text s.overview (λ o. o.spire_agent_count);
    workloads = count_text s.overview (λ o. o.workload_entries_count);
    recent = feed local_time "No recent events recorded yet." s.recent_logs;
  }
