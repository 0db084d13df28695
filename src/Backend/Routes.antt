-- ===== src/Backend/Routes.antt =====
-- dashboard/backend/app/api: which handler a request reaches, by its method and its path. A path is
-- taken as it stands; the escapes that the web framework decodes do not occur in a plain text.
-- `query` is the framework's reading of a parameter of the query, by its name.
pub mod Reaching
use Prim.Native.Char.{code}
use Prim.Native.String
use zerokey.Base.{
  nat_eq, leb, str_eq, String, Bool, true, false, not, ◌&&◌, ◌||◌, Option, none, some, List,
  if◌then◌else◌, truthy,
}
use zerokey.Api.Types.{Json}
use zerokey.Api.Call.{Method, get, post, delete, Options}

pub data Route : Type 0 where
  get_overview list_entries : Route
  create_entry : Option Json → Route
  delete_entry : String → Route
  list_agents : Route
  generate_join_token : Option Json → Route
  get_bundle get_discovery get_keys : Route
  execute_test_flow evaluate_policy : Option Json → Route
  -- with the text of `limit`, where the query has one
  get_audit_logs : Option String → Route
  get_metrics health_check prometheus_metrics : Route

-- The part before the first "?", and the part behind it.
unfoldable pub path_of : String → String
path_of String.[] = String.[]
path_of (String.◌∷◌ c s) =
    let rest = path_of s in if nat_eq (code c) b'?' then String.[] else String.◌∷◌ c rest

unfoldable pub query_of : String → String
query_of String.[] = String.[]
query_of (String.◌∷◌ c s) = let rest = query_of s in if nat_eq (code c) b'?' then s else rest

-- What follows a prefix.
unfoldable pub after_prefix : String → String → Option String
after_prefix String.[] s = some s
after_prefix (String.◌∷◌ d t) String.[] = none
after_prefix (String.◌∷◌ d t) (String.◌∷◌ c s) =
    let rest = after_prefix t s in if nat_eq (code d) (code c) then rest else none

unfoldable pub has_slash : String → Bool
has_slash String.[] = false
has_slash (String.◌∷◌ c s) = nat_eq (code c) b'/' || has_slash s

-- A parameter of a path is one part of it, and not empty.
delete_route : Option String → Option Route
unfolding has_slash
delete_route none = none
delete_route (some entry_id) =
    if truthy entry_id && not (has_slash entry_id) then some (delete_entry entry_id) else none

module _ (query : String → String → Option String) where
  get_route : String → String → Option Route
  get_route path q =
      if str_eq path "/api/overview"
      then some get_overview
      else if str_eq path "/api/entries"
      then some list_entries
      else if str_eq path "/api/agents"
      then some list_agents
      else if str_eq path "/api/bundles"
      then some get_bundle
      else if str_eq path "/api/oidc/discovery"
      then some get_discovery
      else if str_eq path "/api/oidc/keys"
      then some get_keys
      else if str_eq path "/api/telemetry/logs"
      then some (get_audit_logs (query "limit" q))
      else if str_eq path "/api/telemetry/metrics"
      then some get_metrics
      else if str_eq path "/health"
      then some health_check
      else if str_eq path "/metrics"
      then some prometheus_metrics
      else none

  post_route : String → Option Json → Option Route
  post_route path body =
      if str_eq path "/api/entries"
      then some (create_entry body)
      else if str_eq path "/api/agents/token"
      then some (generate_join_token body)
      else if str_eq path "/api/simulator/execute"
      then some (execute_test_flow body)
      else if str_eq path "/api/simulator/evaluate-policy"
      then some (evaluate_policy body)
      else none

  route_by : Method → String → Option Json → Option Route
  unfolding get_route post_route delete_route path_of query_of after_prefix
  route_by get endpoint body = get_route (path_of endpoint) (query_of endpoint)
  route_by post endpoint body = post_route (path_of endpoint) body
  route_by delete endpoint body = delete_route (after_prefix "/api/entries/" (path_of endpoint))

  -- `none` is an answer with the status 404 or 405.
  unfoldable pub route : Options → Option Route
  unfolding route_by
  route options = route_by options.method options.endpoint options.body
