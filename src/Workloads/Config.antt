-- ===== src/Workloads/Config.antt =====
-- src/app/pkg/config/config.go. `getenv` is `os.Getenv`, which gives the empty text for a variable
-- that is not set.
use zerokey.Base.{String, Bool, ◌||◌, truthy, str_eq, if◌then◌else◌}

pub record ServerConfig : Type 0 where
  pub socket_path : String
  pub port : String
  pub allowed_client_uri : String

pub record ClientConfig : Type 0 where
  pub socket_path : String
  pub server_url : String
  pub expected_server_id : String
  pub run_once : Bool

module _ (getenv : String → String) where
  abbrev pub get_env : String → String → String
  get_env key fallback = if truthy (getenv key) then getenv key else fallback

  abbrev pub load_server_config : ServerConfig
  load_server_config = record {
    socket_path = get_env "SPIFFE_ENDPOINT_SOCKET" "unix:///run/spire/sockets/agent.sock";
    port = get_env "PORT" "8443";
    allowed_client_uri = get_env "ALLOWED_CLIENT_SPIFFE_ID" "spiffe://demo.local/client-worker";
  }

  abbrev pub load_client_config : Bool → ClientConfig
  load_client_config run_once_flag = record {
    socket_path = get_env "SPIFFE_ENDPOINT_SOCKET" "unix:///run/spire/sockets/agent.sock";
    server_url = get_env "SERVER_URL" "https://backend-api:8443/api/secret-data";
    expected_server_id = get_env "EXPECTED_SERVER_SPIFFE_ID" "spiffe://demo.local/backend-api";
    run_once = run_once_flag || str_eq (get_env "RUN_ONCE" "false") "true";
  }
