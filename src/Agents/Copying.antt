-- ===== src/Agents/Copying.antt =====
-- The mark `copied` of the page of the agents.
use zerokey.Base.{arith, ◌≡◌, refl, ℤ, String, Option, none, some, Bool, false, List, []}
use zerokey.Api.Types.{GenerateTokenResponse}
use zerokey.Runtime.Async.{Async}
use zerokey.Runtime.World.{Event, after}
use zerokey.Runtime.World.Flags.{
  Tidy, returns, raises, lowers, spares, emits, sleeps, idle, Disciplined, idle-lowered,
}
use zerokey.Runtime.World.Flags.Rules.{no_call, fetches, Tidy-if}
use zerokey.Agents.{
  State, Action, refresh, open_modal, close_modal, mint, copy_token, copy_command, type_spiffe_id,
  type_ttl, load_agents, handle_mint_token, copy_to_clipboard, in_form, with_token, in_modal, on,
  page,
}

abbrev Marks : Bool → Async State (Unit {0}) → Type 0
Marks = Tidy false no_call (λ s. s.copied)

load_agents-Tidy : Marks false load_agents
unfolding load_agents
load_agents-Tidy =
    spares (λ s. refl)
      (fetches (λ e. refl) (λ agents. spares (λ s. refl) (spares (λ s. refl) (returns tt)))
        (λ message. emits (spares (λ s. refl) (returns tt))))

handle_mint_token-Tidy : (id : String) (ttl : ℤ) → Marks false (handle_mint_token id ttl)
unfolding handle_mint_token
handle_mint_token-Tidy id ttl =
    spares (λ s. refl)
      (fetches (λ e. refl) (λ res. spares (λ s. refl) (spares (λ s. refl) (returns tt)))
        (λ message. emits (spares (λ s. refl) (returns tt))))

copy_to_clipboard-Tidy : (text : String) → Marks false (copy_to_clipboard text)
unfolding copy_to_clipboard
copy_to_clipboard-Tidy text =
    emits (raises (λ e. cc) (λ s. refl) (sleeps (lowers (λ e. cc) (λ s. refl) (returns tt))))

with_token-Tidy : (a : Action) (minted : GenerateTokenResponse) → Marks false (with_token a minted)
unfolding with_token
with_token-Tidy copy_token minted = copy_to_clipboard-Tidy minted.token
with_token-Tidy copy_command minted = copy_to_clipboard-Tidy minted.docker_command
with_token-Tidy _ minted = returns tt

in_form-Tidy : (a : Action) (s : State) → Marks false (in_form a s)
unfolding in_form
in_form-Tidy (type_spiffe_id v) s = spares (λ s. refl) (returns tt)
in_form-Tidy (type_ttl v) s = spares (λ s. refl) (returns tt)
in_form-Tidy mint s = Tidy-if _ (returns tt) (handle_mint_token-Tidy s.token_spiffe_id s.token_ttl)
in_form-Tidy _ s = returns tt

in_modal-Tidy :
    (a : Action) (minted : Option GenerateTokenResponse) (s : State)
    → Marks false (in_modal a minted s)
unfolding in_modal
in_modal-Tidy a none s = in_form-Tidy a s
in_modal-Tidy a (some minted) s = with_token-Tidy a minted

on-Tidy : (a : Action) (s : State) → Marks false (on a s)
unfolding on
on-Tidy refresh s = load_agents-Tidy
on-Tidy open_modal s = spares (λ s. refl) (spares (λ s. refl) (returns tt))
on-Tidy close_modal s = Tidy-if _ (spares (λ s. refl) (returns tt)) (returns tt)
on-Tidy a s = Tidy-if _ (in_modal-Tidy a s.minted_token s) (returns tt)

disciplined : Disciplined false no_call (λ s. s.copied) page
unfolding page
disciplined = record {
  held_at_mount = false;
  mounts = load_agents-Tidy;
  mount_balance = omega arith;
  starts = λ a s. idle (on-Tidy a s);
}

-- After any events, in any order, the mark that something was copied stands only while a timer that
-- takes it away has still to fire, or an answer to come.
pub copied-idle :
    (es : List (Event Action)) → (after page es).waiting ≡ [] → (after page es).state.copied ≡ false
copied-idle es = idle-lowered false no_call (λ s. s.copied) page disciplined es
