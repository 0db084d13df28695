-- ===== src/Agents/View.antt =====
-- dashboard/frontend/src/app/agents/page.tsx: what the page of the agents shows.
use zerokey.Base.{String, Bool, Option, none, some, List, map, or_text, is_empty, if◌then◌else◌}
use zerokey.Base.Text.{show_ℤ}
use zerokey.Api.Types.{NodeAgent, GenerateTokenResponse}
use zerokey.Agents.{State}

pub record Card : Type 0 where
  pub spiffe_id : String
  pub badge : String
  pub serial : String
  pub plugin : String
  pub socket : String

pub data Grid : Type 0 where
  message : String → Grid
  cards : List Card → Grid

pub data Modal : Type 0 where
  closed : Modal
  -- the identity, the lifetime, whether the button is disabled, and its label
  form : String → String → Bool → String → Modal
  -- the identity, the token, whether it shows the mark "copied", and the command
  token : String → String → Bool → String → Modal

pub record Screen : Type 0 where
  pub grid : Grid
  pub modal : Modal

abbrev or_empty : Option String → String
or_empty none = ""
or_empty (some s) = s

pub card_of : NodeAgent → Card
card_of agent = record {
  spiffe_id = agent.spiffe_id;
  badge = "ATTESTED";
  serial = or_text (or_empty agent.serial_number) "83940182947192";
  plugin = "join_token (Docker)";
  socket = "Workload Socket: /run/spire/sockets/agent.sock";
}

pub grid_of : Bool → List NodeAgent → Grid
unfolding card_of
grid_of loading agents =
    if loading
    then message "Loading attested node agents..."
    else if is_empty agents
    then message "No active node agents found. Run 'make bootstrap' or mint a join token below."
    else cards (map card_of agents)

modal_of : Option GenerateTokenResponse → State → Modal
modal_of none s =
    form s.token_spiffe_id (show_ℤ s.token_ttl) s.submitting
      (if s.submitting then "Minting Token..." else "Generate One-Time Token")
modal_of (some minted) s = token minted.spiffe_id minted.token s.copied minted.docker_command

unfoldable pub screen : State → Screen
unfolding grid_of modal_of
screen s = record {
  grid = grid_of s.loading s.agents;
  modal = if s.is_modal_open then modal_of s.minted_token s else closed;
}
