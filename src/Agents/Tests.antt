-- ===== src/Agents/Tests.antt =====
-- The page of the agents on concrete inputs.
use zerokey.Agents.Settling.{agents_settle}
use zerokey.Runtime.World.Settling.{Comes}
use zerokey.Base.{◌++◌, ◌≡◌, refl, pos, true, false, some, List, [], ◌∷◌, All}
use zerokey.Api.Call.{get_agents, generate_token}
use zerokey.Runtime.Async.{ok, failed}
use zerokey.Runtime.World.{World, Server, Event, act, respond, fire, step, after}
use zerokey.Agents.{State, init, Action, open_modal, mint, copy_token, form_valid, page}
use zerokey.Agents.Rounds.{asked, minted, mint_round}
use zerokey.Agents.Requests.{IsAgentCall, sent-IsAgentCall}

abbrev willing : Server
willing get_agents = ok []
willing (generate_token p) = ok (record {
  token = "t-1";
  spiffe_id = p.spiffe_id;
  ttl = pos 600;
  docker_command = "docker run";
})
willing _ = failed "unknown"

-- The form is opened, and submitted twice.
abbrev minted_twice : List (Event Action)
minted_twice = respond 0 0 willing ∷ act open_modal ∷ act mint ∷ act mint ∷ []

-- The token comes, and is copied; the timer fires.
abbrev token_copied : List (Event Action)
token_copied =
    respond 0 0 willing
    ∷ act open_modal
    ∷ act mint
    ∷ respond 0 0 willing
    ∷ act copy_token
    ∷ fire 0
    ∷ []

settled : (after page token_copied).waiting ≡ []
unfolding after page step form_valid
settled = refl

minted_once :
    (after page minted_twice).sent
    ≡ get_agents
      ∷ generate_token
          (record { spiffe_id = "spiffe://demo.local/node/agent-new"; ttl = some (pos 600) })
      ∷ []
unfolding after page step form_valid
minted_once = refl

agent_calls_example :
    All IsAgentCall (after page minted_twice).sent × ((after page minted_twice).unhandled ≡ [])
agent_calls_example = sent-IsAgentCall minted_twice

-- A page whose form is open.
abbrev world : World State
world = record {
  state = record init { loading = false; is_modal_open = true };
  waiting = [];
  sent = get_agents ∷ [];
  effects = [];
  unhandled = [];
}

valid : form_valid world.state ≡ true
unfolding form_valid
valid = refl

mint_example :
    step page (respond 0 0 willing) (step page (act mint) world)
    ≡ minted
        (willing (generate_token (asked world.state)))
        (record world { sent = get_agents ∷ generate_token (asked world.state) ∷ [] })
mint_example = mint_round world refl refl refl valid willing

agents_settle_example :
    (more : List (Event Action)) × All (Comes willing) more
    × ((after page (minted_twice ++ more)).waiting ≡ [])
    × ((after page (minted_twice ++ more)).state.loading ≡ false)
    × ((after page (minted_twice ++ more)).state.copied ≡ false)
agents_settle_example = agents_settle willing minted_twice
