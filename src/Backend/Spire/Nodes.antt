-- ===== src/Backend/Spire/Nodes.antt =====
-- services/spire_service.py, `list_agents`: the agents that the backend reads from the output of
-- the command line.
use Prim.Native.String
use zerokey.Base.{
  value_or, String, Option, none, some, List, [], ◌∷◌, ◌++◌, template, truthy, str_eq,
  if◌then◌else◌,
}
use zerokey.Base.Text.{strip}
use zerokey.Base.Text.Split.{split, splitlines, key_value}
use zerokey.Api.Types.{NodeAgent}
use zerokey.Backend.Flow.{is_zero}
use zerokey.Backend.Spire.{Ran, Host, exec_command}
use zerokey.Backend.Spire.Listing.{over_lines, appended}

pub record AgentDict : Type 0 where
  pub spiffe_id : Option String
  pub serial_number : Option String
  pub expires_at : Option String
  pub selectors : List String

abbrev pub empty_agent : AgentDict
empty_agent = record { spiffe_id = none; serial_number = none; expires_at = none; selectors = [] }

module _ (host : Host) where
  set_agent : String → String → AgentDict → AgentDict
  set_agent k v d =
      if str_eq k "spiffe id"
      then record d { spiffe_id = some v }
      else if str_eq k "serial number"
      then record d { serial_number = some v }
      else if str_eq k "expiration time"
      then record d { expires_at = some v }
      else if str_eq k "attestation type"
      then record d { selectors = d.selectors ++ template ("type:" ∷ v ∷ []) ∷ [] }
      else d

  abbrev set_agent_by : AgentDict → Option (String × String) → AgentDict
  set_agent_by d none = d
  set_agent_by d (some (k, v)) = set_agent (host.lower (strip k)) (strip v) d

  agent_line : AgentDict → String → AgentDict
  unfolding set_agent key_value strip
  agent_line d line = set_agent_by d (key_value line)

  agent_by : AgentDict → Option String → Option NodeAgent
  agent_by d none = none
  agent_by d (some spiffe_id) = some (record {
    spiffe_id = spiffe_id;
    attested_at = none;
    expires_at = d.expires_at;
    serial_number = some (value_or "unknown" d.serial_number);
    status = "attested";
    selectors = d.selectors;
  })

  abbrev agent_of : AgentDict → Option NodeAgent
  unfolding agent_by
  agent_of d = agent_by d d.spiffe_id

  agents_of : List String → List NodeAgent
  unfolding strip splitlines agent_line agent_by
  agents_of [] = []
  agents_of (raw ∷ raws) =
      let rest = agents_of raws in
      if truthy (strip raw)
      then appended
          (agent_of (over_lines agent_line empty_agent (splitlines (String.◌++◌ "SPIFFE ID" raw))))
          rest
      else rest

  demo_agents : List NodeAgent
  demo_agents =
      record {
        spiffe_id = template ("spiffe://" ∷ host.trust_domain ∷ "/node/agent" ∷ []);
        attested_at = some host.now;
        expires_at = none;
        serial_number = some "83940182947192";
        status = "attested";
        selectors = "docker:label:workload:spire-agent" ∷ [];
      }
      ∷ []

  read_agents : Ran → List NodeAgent
  unfolding agents_of split is_zero demo_agents
  read_agents ran =
      if is_zero ran.returncode
      then if truthy ran.stdout then agents_of (split "SPIFFE ID" ran.stdout) else demo_agents
      else demo_agents

  unfoldable pub list_agents : List NodeAgent
  unfolding read_agents exec_command
  list_agents = read_agents (exec_command host ("agent" ∷ "list" ∷ []))
