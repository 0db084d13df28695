-- ===== src/Backend/Spire.antt =====
-- dashboard/backend/app/services/spire_service.py: the command line of the SPIRE server, by which
-- the backend registers, deletes and lists entries, lists agents, mints tokens and reads the
-- bundle.
pub mod Listing
pub mod Nodes
pub mod Flags
pub mod Tests
use Prim.Native.Char.{code}
use Prim.Native.String
use zerokey.Base.{
  ℕ, ℤ, pos, String, Bool, true, false, ◌&&◌, ◌||◌, Option, none, some, List, [], ◌∷◌, ◌++◌, nat_eq,
  leb, length, template, truthy, str_eq, if◌then◌else◌, value_or,
}
use zerokey.Base.Text.{is_space, trim_start, strip, includes, show_ℤ}
use zerokey.Api.Types.{CreateEntryAnswer, GenerateTokenResponse, TrustBundle, DeleteEntryAnswer}
use zerokey.Backend.Schemas.{CreateEntryRequest, GenerateTokenRequest}
use zerokey.Backend.Patterns.{entry_match, token_match, last_part}
use zerokey.Backend.Flow.{Recorded, is_zero}

pub record Ran : Type 0 where
  pub returncode : ℤ
  pub stdout : String

-- What the service meets: its settings, what a run of a command gives (`none` for an exception),
-- the file system, a fresh name, the time, and functions of Python's library.
pub record Host : Type 0 where
  pub container_name : String
  pub trust_domain : String
  pub run : List String → Option Ran
  pub socket_exists : Bool
  pub random_hex : String
  pub now : String
  pub repr : List String → String
  pub lower : String → String
  pub to_int : String → Option ℤ

abbrev flagged : String → List String → List String
flagged flag [] = []
flagged flag (v ∷ vs) = flag ∷ v ∷ flagged flag vs

unfoldable pub create_args : CreateEntryRequest → List String
create_args req =
    "entry"
    ∷ "create"
    ∷ "-spiffeID"
    ∷ req.spiffe_id
    ∷ "-parentID"
    ∷ req.parent_id
    ∷ "-ttl"
    ∷ show_ℤ req.ttl
    ∷ (flagged "-selector" req.selectors
        ++ (flagged "-dns" req.dns_names ++ (if req.admin then "-admin" ∷ [] else [])))

module _ (host : Host) where
  -- A run that throws counts as a failed one without output.
  unfoldable pub exec_command : List String → Ran
  exec_command cmd_args =
      value_or (record { returncode = pos 1; stdout = "" })
        (host.run (
          "docker"
          ∷ "exec"
          ∷ host.container_name
          ∷ "/opt/spire/bin/spire-server"
          ∷ (cmd_args ++ ("-socketPath" ∷ "/run/spire/server-sockets/api.sock" ∷ []))))

  unfoldable pub check_health : Bool
  unfolding exec_command is_zero includes
  check_health =
      let ran = exec_command ("healthcheck" ∷ []) in
      (is_zero ran.returncode && includes ran.stdout "Server is healthy") || host.socket_exists

  created_id : CreateEntryRequest → Ran → String
  unfolding entry_match last_part
  created_id req ran =
      value_or (template ("generated-" ∷ last_part req.spiffe_id ∷ [])) (entry_match ran.stdout)

  -- The answer, and the event that is recorded.
  created : CreateEntryRequest → Ran → CreateEntryAnswer × Recorded
  unfolding created_id is_zero strip
  created req ran = (
    record {
      status = if is_zero ran.returncode then "success" else "simulated";
      entry_id = created_id req ran;
      spiffe_id = req.spiffe_id;
      message =
          if truthy (strip ran.stdout)
          then strip ran.stdout
          else template ("Entry " ∷ req.spiffe_id ∷ " registered successfully" ∷ []);
    },
    record {
      event_type = "ENTRY_CREATE";
      actor = "dashboard-admin";
      target = req.spiffe_id;
      status = if is_zero ran.returncode then "SUCCESS" else "FAILED";
      details = template (
          "Created registration entry "
          ∷ created_id req ran
          ∷ " with selectors "
          ∷ host.repr req.selectors
          ∷ []);
    },
  )

  unfoldable pub create_entry : CreateEntryRequest → CreateEntryAnswer × Recorded
  unfolding created create_args exec_command
  create_entry req = created req (exec_command (create_args req))

  -- The service returns `True` whatever the command gave, and the handler answers the same.
  unfoldable pub delete_entry : String → DeleteEntryAnswer × Recorded
  unfolding exec_command is_zero
  delete_entry entry_id = (
    record {
      status = "success";
      message = template ("Entry " ∷ entry_id ∷ " deleted successfully" ∷ []);
    },
    record {
      event_type = "ENTRY_DELETE";
      actor = "dashboard-admin";
      target = entry_id;
      status =
          if is_zero (exec_command ("entry" ∷ "delete" ∷ "-entryID" ∷ entry_id ∷ [])).returncode
          then "SUCCESS"
          else "ATTEMPTED";
      details = template ("Deleted workload entry ID " ∷ entry_id ∷ []);
    },
  )

  minted : GenerateTokenRequest → String → GenerateTokenResponse × Recorded
  minted req token = (
    record {
      token = token;
      spiffe_id = req.spiffe_id;
      ttl = req.ttl;
      docker_command = template (
          "docker run -d --name spire-agent -e JOIN_TOKEN=" ∷ token
          ∷ " ghcr.io/spiffe/spire-agent:1.9.0" ∷ []);
    },
    record {
      event_type = "JOIN_TOKEN_MINT";
      actor = "dashboard-admin";
      target = req.spiffe_id;
      status = "SUCCESS";
      details = template (
          "Generated join token for node identity "
          ∷ req.spiffe_id
          ∷ " (TTL: "
          ∷ show_ℤ req.ttl
          ∷ "s)"
          ∷ []);
    },
  )

  unfoldable pub generate_join_token : GenerateTokenRequest → GenerateTokenResponse × Recorded
  unfolding minted exec_command token_match
  generate_join_token req = minted req (
      value_or (template ("mock-join-token-" ∷ host.random_hex ∷ [])) (
        token_match
          (exec_command (
            "token"
            ∷ "generate"
            ∷ "-spiffeID"
            ∷ req.spiffe_id
            ∷ "-ttl"
            ∷ show_ℤ req.ttl
            ∷ [])).stdout))

  bundle_pem : Ran → String
  unfolding is_zero includes strip
  bundle_pem ran =
      if is_zero ran.returncode && includes ran.stdout "-----BEGIN CERTIFICATE-----"
      then strip ran.stdout
      else "-----BEGIN CERTIFICATE-----\nMIIBojCCAUqgAwIBAgIU...\n-----END CERTIFICATE-----"

  unfoldable pub get_bundle : TrustBundle
  unfolding bundle_pem exec_command
  get_bundle = record {
    trust_domain = host.trust_domain;
    x509_authorities_count = pos 1;
    x509_authorities_pem = bundle_pem (exec_command ("bundle" ∷ "show" ∷ [])) ∷ [];
    jwt_authorities_count = pos 1;
  }
