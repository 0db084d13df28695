-- ===== src/Agents.antt =====
-- dashboard/frontend/src/app/agents/page.tsx: the page of the node agents, with the form that mints
-- a join token.
pub mod View
pub mod Loading
pub mod Minting
pub mod Copying
pub mod Requests
pub mod Rounds
pub mod Settling
mod Tests
use zerokey.Base.{
  ℕ, zero, ℤ, pos, leb_ℤ, String, Bool, true, false, not, ◌&&◌, ◌||◌, Option, none, some, List, [],
  truthy, template, ◌∷◌, if◌then◌else◌, is_some,
}
use zerokey.Base.Text.{parse_int_or}
use zerokey.Api.Types.{NodeAgent, GenerateTokenPayload, GenerateTokenResponse}
use zerokey.Api.Call.{get_agents, generate_token}
use zerokey.Runtime.Async.{
  Async, pure, sleep, ◌>>=◌, ◌>>◌, catch, finally, modify, perform, fetch, alert, console_error,
  write_clipboard,
}
use zerokey.Runtime.World.{Page}

pub record State : Type 0 where
  pub agents : List NodeAgent
  pub loading : Bool
  pub is_modal_open : Bool
  pub token_spiffe_id : String
  pub token_ttl : ℤ
  pub minted_token : Option GenerateTokenResponse
  pub copied : Bool
  pub submitting : Bool

abbrev pub init : State
init = record {
  agents = [];
  loading = true;
  is_modal_open = false;
  token_spiffe_id = "spiffe://demo.local/node/agent-new";
  token_ttl = pos 600;
  minted_token = none;
  copied = false;
  submitting = false;
}

abbrev set_agents : List NodeAgent → State → State
set_agents v s = record s { agents = v }

abbrev set_loading : Bool → State → State
set_loading v s = record s { loading = v }

abbrev set_is_modal_open : Bool → State → State
set_is_modal_open v s = record s { is_modal_open = v }

abbrev set_token_spiffe_id : String → State → State
set_token_spiffe_id v s = record s { token_spiffe_id = v }

abbrev set_token_ttl : ℤ → State → State
set_token_ttl v s = record s { token_ttl = v }

abbrev set_minted_token : Option GenerateTokenResponse → State → State
set_minted_token v s = record s { minted_token = v }

abbrev set_copied : Bool → State → State
set_copied v s = record s { copied = v }

abbrev set_submitting : Bool → State → State
set_submitting v s = record s { submitting = v }

unfoldable pub load_agents : Async State (Unit {0})
load_agents =
    finally
      (catch (do modify (set_loading true); agents ← fetch get_agents; modify (set_agents agents))
        (λ message. perform (console_error (template ("Failed to load agents " ∷ message ∷ [])))))
      (modify (set_loading false))

-- The identity and the lifetime are those of the last rendering.
unfoldable pub handle_mint_token : String → ℤ → Async State (Unit {0})
handle_mint_token token_spiffe_id token_ttl =
    finally
      (catch
        (do
          modify (set_submitting true)
          res ←
              fetch (generate_token (record { spiffe_id = token_spiffe_id; ttl = some token_ttl }))
          modify (set_minted_token (some res)))
        (λ message. perform (alert (template ("Error minting token: " ∷ message ∷ [])))))
      (modify (set_submitting false))

-- The mark is taken away two seconds later.
unfoldable pub copy_to_clipboard : String → Async State (Unit {0})
copy_to_clipboard text = do
  perform (write_clipboard text)
  modify (set_copied true)
  sleep 2000 (modify (set_copied false))

-- `parseInt(value) || 600`
unfoldable pub ttl_input : String → ℤ
ttl_input value = parse_int_or value 600

-- What the browser asks of the form before it submits it.
unfoldable pub form_valid : State → Bool
form_valid s =
    truthy s.token_spiffe_id && leb_ℤ (pos 60) s.token_ttl && leb_ℤ s.token_ttl (pos 3600)

pub data Action : Type 0 where
  refresh open_modal close_modal mint copy_token copy_command : Action
  type_spiffe_id type_ttl : String → Action

-- The form is there until a token is minted, and then the token, with its two buttons.
in_form : Action → State → Async State (Unit {0})
unfolding form_valid handle_mint_token ttl_input
in_form (type_spiffe_id v) s = modify (set_token_spiffe_id v)
in_form (type_ttl v) s = modify (set_token_ttl (ttl_input v))
in_form mint s =
    if s.submitting || not (form_valid s)
    then pure tt
    else handle_mint_token s.token_spiffe_id s.token_ttl
in_form _ s = pure tt

with_token : Action → GenerateTokenResponse → Async State (Unit {0})
unfolding copy_to_clipboard
with_token copy_token minted = copy_to_clipboard minted.token
with_token copy_command minted = copy_to_clipboard minted.docker_command
with_token _ minted = pure tt

in_modal : Action → Option GenerateTokenResponse → State → Async State (Unit {0})
unfolding in_form with_token
in_modal a none s = in_form a s
in_modal a (some minted) s = with_token a minted

unfoldable pub on : Action → State → Async State (Unit {0})
unfolding in_modal load_agents
on refresh s = load_agents
on open_modal s = do modify (set_minted_token none); modify (set_is_modal_open true)
on close_modal s = if s.is_modal_open then modify (set_is_modal_open false) else pure tt
on a s = if s.is_modal_open then in_modal a s.minted_token s else pure tt

unfoldable pub page : Page State Action
unfolding on load_agents
page = record { init = init; mount = load_agents; on = on }
