-- ===== src/Topology/Health.antt =====
-- The status of the nodes of the topology graph.
use zerokey.Base.{
  eq_iff, arith, ◌≡◌, refl, ◌↔◌, ℤ, pos, negsuc, ◌≤ℤ◌, ltb_ℤ, Bool, true, false, some, All,
}
use zerokey.Api.Types.{OverviewSummary}
use zerokey.Topology.{health, nodes}

health_iff : (b : Bool) → (health b ≡ "healthy") ↔ (b ≡ true)
unfolding health
health_iff true = ((λ e. refl), (λ e. refl))
health_iff false = ((λ e. (eq_iff "offline" "healthy").1 e), (λ e. cc))

positive_iff : (z : ℤ) → (ltb_ℤ (pos 0) z ≡ true) ↔ (pos 1 ≤ℤ z)
positive_iff (pos n) = ground arith
positive_iff (negsuc n) = ground arith

-- With an overview, the status of all five nodes is "healthy" exactly if the server, the backend
-- and the OIDC provider are healthy and there is an agent.
pub nodes_healthy_iff :
    (overview : OverviewSummary)
    → All (λ n. n.status ≡ "healthy") (nodes (some overview)) ↔ (
        (overview.spire_server_healthy ≡ true)
        × (pos 1 ≤ℤ overview.spire_agent_count)
        × (overview.backend_api_healthy ≡ true)
        × (overview.oidc_healthy ≡ true))
unfolding nodes
nodes_healthy_iff overview = (
  (λ (server, (agent, (backend, (client, (oidc, end))))). (
    (health_iff _).0 server,
    (positive_iff _).0 ((health_iff _).0 agent),
    (health_iff _).0 backend,
    (health_iff _).0 oidc,
  )),
  (λ (server, agent, backend, oidc). (
    (health_iff _).1 server,
    (
      (health_iff _).1 ((positive_iff _).1 agent),
      ((health_iff _).1 backend, (refl, ((health_iff _).1 oidc, tt))),
    ),
  )),
)
