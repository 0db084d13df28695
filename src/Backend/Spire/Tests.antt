-- ===== src/Backend/Spire/Tests.antt =====
-- The command line of the SPIRE server on concrete inputs.
use zerokey.Base.{◌≡◌, pos, String, true, false, none, some, [], ◌∷◌, str_eq, if◌then◌else◌}
use zerokey.Base.Text.{parse_int}
use zerokey.Api.Types.{WorkloadEntry}
use zerokey.Backend.Schemas.{CreateEntryRequest}
use zerokey.Backend.Spire.{Host, create_args}
use zerokey.Backend.Spire.Flags.{read_args, read_args-create_args}
use zerokey.Base.{◌↔◌, ◌≤◌, length, All}
use zerokey.Topology.{nodes}
use zerokey.Backend.Spire.{check_health}
use zerokey.Backend.Spire.Nodes.{list_agents}
use zerokey.Backend.Summary.{get_overview, get_overview-healthy_iff}

-- The keys of the listing in small letters.
abbrev lower_key : String → String
lower_key s =
    if str_eq s "Entry ID"
    then "entry id"
    else if str_eq s "SPIFFE ID"
    then "spiffe id"
    else if str_eq s "Parent ID"
    then "parent id"
    else if str_eq s "X509-SVID TTL"
    then "x509-svid ttl"
    else if str_eq s "Selector"
    then "selector"
    else if str_eq s "DNS name"
    then "dns name"
    else if str_eq s "Admin"
    then "admin"
    else s

-- Every command fails.
abbrev pub broken : Host
broken = record {
  container_name = "spire-server";
  trust_domain = "demo.local";
  run = λ args. none;
  socket_exists = false;
  random_hex = "00";
  now = "";
  repr = λ ss. "";
  lower = lower_key;
  to_int = λ s. parse_int s;
}

-- Texts that look like flags are carried as well.
abbrev odd_request : CreateEntryRequest
odd_request = record {
  spiffe_id = "spiffe://demo.local/-admin";
  parent_id = "-dns";
  selectors = "-admin" ∷ "unix:uid:0" ∷ [];
  ttl = pos 60;
  admin = true;
  dns_names = "-selector" ∷ [];
}

args_example : read_args (create_args odd_request) ≡ some odd_request
args_example = read_args-create_args odd_request

abbrev pub worker : WorkloadEntry
worker = record {
  id = "e-1";
  spiffe_id = "spiffe://demo.local/worker";
  parent_id = "spiffe://demo.local/node/agent";
  selectors = "unix:uid:0" ∷ "docker:label:a:b" ∷ [];
  ttl = pos 600;
  admin = true;
  dns_names = "worker" ∷ [];
  created_at = none;
  expires_at = none;
}

overview_example :
    All (λ n. n.status ≡ "healthy") (nodes (some (get_overview broken true "1.0.0")))
    ↔ ((check_health broken ≡ true) × (1 ≤ length (list_agents broken)) × (true ≡ true))
overview_example = get_overview-healthy_iff broken true "1.0.0"
