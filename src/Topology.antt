-- ===== src/Topology.antt =====
-- dashboard/frontend/src/components/TopologyGraph.tsx: the graph of the overview. Its nodes are
-- computed from the overview, and one of them is selected, whose details are shown below.
pub mod Selection
pub mod Health
mod Tests
use zerokey.Base.{
  ℤ, pos, ltb_ℤ, nat_eq, String, Bool, true, false, Option, none, some, List, [], ◌∷◌, map, str_eq,
  if◌then◌else◌,
}
use Prim.Native.Char.{code}
use Prim.Native.String
use zerokey.Api.Types.{OverviewSummary}

pub record Node : Type 0 where
  pub id : String
  pub title : String
  pub role : String
  pub spiffe_id : String
  pub status : String
  pub description : String
  pub details : List (String × String)

-- `overview?.part`, as a test: false where there is no overview.
abbrev part : (OverviewSummary → Bool) → Option OverviewSummary → Bool
part f none = false
part f (some overview) = f overview

-- `overview?.spire_agent_count ?? 0`
abbrev agent_count : Option OverviewSummary → ℤ
agent_count none = pos 0
agent_count (some overview) = overview.spire_agent_count

pub health : Bool → String
health b = if b then "healthy" else "offline"

unfoldable pub server_node : Option OverviewSummary → Node
unfolding health
server_node overview = record {
  id = "server";
  title = "SPIRE Server (CA)";
  role = "Certificate Authority & SQLite Datastore";
  spiffe_id = "spiffe://demo.local/spire/server";
  status = health (part (λ o. o.spire_server_healthy) overview);
  description =
      "Issues X.509 SVIDs, signs JWT tokens, verifies agent attestation, and maintains the authoritative SPIFFE ID registration database.";
  details =
      ("Port", "8081 (gRPC mTLS)")
      ∷ ("Socket", "/run/spire/server-sockets/api.sock")
      ∷ ("CA_TTL", "168h")
      ∷ ("Default_SVID_TTL", "1h")
      ∷ [];
}

unfoldable pub agent_node : Option OverviewSummary → Node
unfolding health
agent_node overview = record {
  id = "agent";
  title = "SPIRE Node Agent";
  role = "Workload Attestor & Workload API Provider";
  spiffe_id = "spiffe://demo.local/node/agent";
  status = health (ltb_ℤ (pos 0) (agent_count overview));
  description =
      "Runs on host daemon. Attests calling container processes using Docker socket labels, cgroups, and delivers in-memory SVIDs over unix socket.";
  details =
      ("Workload_Socket", "/run/spire/sockets/agent.sock")
      ∷ ("Attestor", "Docker Labels & cgroup inspect")
      ∷ ("Trust_Domain", "demo.local")
      ∷ [];
}

unfoldable pub backend_node : Option OverviewSummary → Node
unfolding health
backend_node overview = record {
  id = "backend";
  title = "Backend API Workload";
  role = "Protected mTLS Service (Go)";
  spiffe_id = "spiffe://demo.local/backend-api";
  status = health (part (λ o. o.backend_api_healthy) overview);
  description =
      "Accepts mutual TLS connections on port 8443. Dynamically validates client peer X.509 SVID against authorized client SPIFFE ID.";
  details =
      ("Port", "8443 (mTLS HTTPS)")
      ∷ ("Selector", "docker:label:workload:backend-api")
      ∷ ("Allowed_Peer", "spiffe://demo.local/client-worker")
      ∷ [];
}

abbrev pub client_node : Node
client_node = record {
  id = "client";
  title = "Client Worker Workload";
  role = "Keyless mTLS Caller (Go)";
  spiffe_id = "spiffe://demo.local/client-worker";
  status = "healthy";
  description =
      "Fetches in-memory X.509 SVID from SPIFFE Workload API and executes keyless authenticated requests to protected backend routes without static keys.";
  details =
      ("Selector", "docker:label:workload:client-worker")
      ∷ ("Target_URL", "https://backend-api:8443/api/secret-data")
      ∷ ("Rotation", "Automatic in background via go-spiffe/v2")
      ∷ [];
}

unfoldable pub oidc_node : Option OverviewSummary → Node
unfolding health
oidc_node overview = record {
  id = "oidc";
  title = "SPIRE OIDC Provider";
  role = "Federated Discovery & JWKS";
  spiffe_id = "spiffe://demo.local/oidc-provider";
  status = health (part (λ o. o.oidc_healthy) overview);
  description =
      "Publishes standard OpenID Connect discovery endpoints and JSON Web Key Sets (JWKS) for multi-cloud federated verification.";
  details =
      ("Port", "8088 (Host) -> 8080 (Internal)")
      ∷ ("Discovery", "/.well-known/openid-configuration")
      ∷ ("JWKS", "/keys")
      ∷ [];
}

unfoldable pub nodes : Option OverviewSummary → List Node
unfolding server_node agent_node backend_node oidc_node
nodes overview =
    server_node overview
    ∷ agent_node overview
    ∷ backend_node overview
    ∷ client_node
    ∷ oidc_node overview
    ∷ []

unfoldable pub find : (Node → Bool) → List Node → Option Node
find p [] = none
find p (n ∷ ns) = let rest = find p ns in if p n then some n else rest

abbrev or_first : Option Node → Node → Node
or_first none first = first
or_first (some n) first = n

-- `nodes.find((n) => n.id === selectedNode) || nodes[0]`; the first node is the server.
unfoldable pub active_node : Option OverviewSummary → String → Node
unfolding nodes find
active_node overview selected =
    or_first (find (λ n. str_eq n.id selected) (nodes overview)) (server_node overview)

-- The clicks on the five nodes, and the selection after them.
pub data Click : Type 0 where
  click_server click_oidc click_agent click_backend click_client : Click

unfoldable pub selected_by : Click → String
selected_by click_server = "server"
selected_by click_oidc = "oidc"
selected_by click_agent = "agent"
selected_by click_backend = "backend"
selected_by click_client = "client"

-- The selection after some clicks.
unfoldable pub clicked : String → List Click → String
unfolding selected_by
clicked now [] = now
clicked now (c ∷ cs) = clicked (selected_by c) cs

-- The five cards that can be clicked. Their light is always green.
pub record Card : Type 0 where
  pub id : String
  pub title : String
  pub subtitle : String
  pub address : String
  pub highlighted : Bool

card : String → String → String → String → String → Card
card id title subtitle address selected = record {
  id = id;
  title = title;
  subtitle = subtitle;
  address = address;
  highlighted = str_eq selected id;
}

unfoldable pub cards : String → List Card
unfolding card
cards selected =
    card "server" "SPIRE Server" "Root CA & Datastore" "spiffe://demo.local/spire/server" selected
    ∷ card "oidc" "OIDC Provider" "Discovery & JWKS" "http://localhost:8088/keys" selected
    ∷ card "agent" "SPIRE Node Agent" "Docker Attestor Daemon"
        "unix:///run/spire/sockets/agent.sock" selected
    ∷ card "backend" "backend-api" "mTLS Protected Server (:8443)" "spiffe://demo.local/backend-api"
        selected
    ∷ card "client" "client-worker" "mTLS Dynamic Client" "spiffe://demo.local/client-worker"
        selected
    ∷ []

-- `key.replace(/_/g, " ")`
unfoldable pub spaced : String → String
spaced String.[] = String.[]
spaced (String.◌∷◌ c s) = String.◌∷◌ (if nat_eq (code c) b'_' then " " else c) (spaced s)

pub record Drawer : Type 0 where
  pub title : String
  pub badge : String
  pub spiffe_id : String
  pub description : String
  pub details : List (String × String)

-- The details of the active node.
unfoldable pub drawer : Node → Drawer
unfolding spaced
drawer node = record {
  title = node.title;
  badge = "ONLINE";
  spiffe_id = node.spiffe_id;
  description = node.description;
  details = map (λ (key, value). (spaced key, value)) node.details;
}
