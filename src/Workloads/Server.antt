-- ===== src/Workloads/Server.antt =====
-- src/app/pkg/server/handler.go: the handlers and the routes of the server. `now` is the time as it
-- is printed, which the two calls of the clock in one answer give alike; the certificates are those
-- that the peer presented, `none` without TLS.
use zerokey.Base.{String, Option, none, some, List, [], ◌∷◌, str_eq, if◌then◌else◌}
use zerokey.Api.Types.{Json, Fields, text, obj, end, field}
use zerokey.Workloads.Identity.{Certificate, extract_peer_spiffe_id}

abbrev pub health_handler : String → String → Json
health_handler server_spiffe_id now = obj (
    field "status" (text "healthy")
      (field "server_spiffe_id" (text server_spiffe_id) (field "timestamp" (text now) end)))

-- The ID of the peer, where it presented a certificate.
unfoldable pub client_id : Option (List Certificate) → String
unfolding extract_peer_spiffe_id
client_id none = "unknown"
client_id (some []) = "unknown"
client_id (some (cert ∷ rest)) = extract_peer_spiffe_id (cert ∷ rest)

abbrev protected_payload : String → Json
protected_payload now = obj (
    field "secret_vault_token" (text "dynamic-keyless-token-xyz-7890") (
      field "access_granted_at" (text now) (
        field "environment" (text "production-demo")
          (field "identity_provider" (text "SPIRE Node & Workload Attestor") end))))

unfoldable pub secret_data_response : String → String → Option (List Certificate) → Fields
unfolding client_id
secret_data_response server_spiffe_id now peers = field "status" (text "success") (
    field "message" (text "Keyless Authentication Successful via SPIRE/SPIFFE mTLS!") (
      field "authenticated_client_spiffe_id" (text (client_id peers)) (
        field "server_spiffe_id" (text server_spiffe_id)
          (field "timestamp" (text now) (field "protected_payload" (protected_payload now) end)))))

abbrev pub secret_data_handler : String → String → Option (List Certificate) → Json
secret_data_handler server_spiffe_id now peers =
    obj (secret_data_response server_spiffe_id now peers)

-- The body of the answer with the status 200; `none` is the library's answer with the status 404.
unfoldable pub new_mux : String → String → String → Option (List Certificate) → Option Json
new_mux server_spiffe_id now path peers =
    if str_eq path "/api/health"
    then some (health_handler server_spiffe_id now)
    else if str_eq path "/api/secret-data"
    then some (secret_data_handler server_spiffe_id now peers)
    else none
