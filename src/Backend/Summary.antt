-- ===== src/Backend/Summary.antt =====
-- dashboard/backend/app/api/overview.py: the summary for the overview page. `oidc_healthy` says
-- whether the OIDC provider answered, and `version` is a setting.
use zerokey.Base.{arith, pos, ◌+◌, ◌≤◌, ◌≡◌, refl, ◌↔◌, String, Bool, true, some, length, All}
use zerokey.Api.Types.{OverviewSummary}
use zerokey.Topology.{nodes}
use zerokey.Topology.Health.{nodes_healthy_iff}
use zerokey.Backend.Spire.{Host, check_health}
use zerokey.Backend.Spire.Listing.{list_entries}
use zerokey.Backend.Spire.Nodes.{list_agents}

module _ (host : Host) (oidc_healthy : Bool) (version : String) where
  unfoldable pub get_overview : OverviewSummary
  unfolding check_health list_entries list_agents
  get_overview = record {
    trust_domain = host.trust_domain;
    spire_server_healthy = check_health host;
    spire_agent_count = pos (length (list_agents host));
    workload_entries_count = pos (length (list_entries host));
    oidc_healthy = oidc_healthy;
    backend_api_healthy = true;
    active_svids = pos (length (list_entries host) + length (list_agents host));
    system_version = version;
  }

  -- With the summary that the backend gives, the status that the topology computes for each of its
  -- five nodes is "healthy" exactly if the SPIRE server passes its health check, at least one agent
  -- is listed, and the OIDC provider answered. The graph does not show this status: its lights and
  -- texts are fixed.
  pub get_overview-healthy_iff :
      All (λ n. n.status ≡ "healthy") (nodes (some get_overview))
      ↔ ((check_health host ≡ true) × (1 ≤ length (list_agents host)) × (oidc_healthy ≡ true))
  unfolding get_overview
  get_overview-healthy_iff =
      let (to, from) = nodes_healthy_iff get_overview in
      (
        (λ shown. let (server, agents, backend, oidc) = to shown in (server, ground arith, oidc)),
        (λ (server, agents, oidc). from (server, ground arith, refl, oidc)),
      )
