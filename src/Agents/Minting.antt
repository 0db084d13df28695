-- ===== src/Agents/Minting.antt =====
-- The flag `submitting` of the page of the agents, which bars a second submission.
use zerokey.Base.{
  arith, ◌≤◌, ◌≡◌, refl, ℤ, String, Option, none, some, Bool, true, false, bit, not, ◌||◌, List,
  Bool-cases, inl, inr,
}
use zerokey.Api.Types.{GenerateTokenResponse}
use zerokey.Api.Call.{Call, generate_token}
use zerokey.Runtime.Async.{Async}
use zerokey.Runtime.World.{Event, after, in_flight}
use zerokey.Runtime.World.Flags.{
  Tidy, returns, lowers, spares, emits, sleeps, Starts, idle, acquires, Disciplined,
  in_flight-le-flag,
}
use zerokey.Runtime.World.Flags.Rules.{Starts-if, fetches, holding}
use zerokey.Agents.{
  State, Action, refresh, open_modal, close_modal, mint, copy_token, copy_command, type_spiffe_id,
  type_ttl, load_agents, handle_mint_token, copy_to_clipboard, form_valid, in_form, with_token,
  in_modal, on, page,
}

abbrev pub is_generate : Call → Bool
is_generate (generate_token _) = true
is_generate _ = false

abbrev Mints : Bool → Async State (Unit {0}) → Type 0
Mints = Tidy true is_generate (λ s. s.submitting)

abbrev StartsHere : State → Async State (Unit {0}) → Type 0
StartsHere s = Starts true is_generate (λ s. s.submitting) s

load_agents-Tidy : Mints false load_agents
unfolding load_agents
load_agents-Tidy =
    spares (λ s. refl)
      (fetches (λ e. refl) (λ agents. spares (λ s. refl) (spares (λ s. refl) (returns tt)))
        (λ message. emits (spares (λ s. refl) (returns tt))))

copy_to_clipboard-Tidy : (text : String) → Mints false (copy_to_clipboard text)
unfolding copy_to_clipboard
copy_to_clipboard-Tidy text = emits (spares (λ s. refl) (sleeps (spares (λ s. refl) (returns tt))))

handle_mint_token-Starts :
    (id : String) (ttl : ℤ) (s : State)
    → s.submitting ≡ false
    → StartsHere s (handle_mint_token id ttl)
unfolding handle_mint_token
handle_mint_token-Starts id ttl s free =
    acquires free (λ t. refl)
      (fetches holding (λ res. spares (λ s. refl) (lowers (λ e. refl) (λ s. refl) (returns tt)))
        (λ message. emits (lowers (λ e. refl) (λ s. refl) (returns tt))))

mint-Starts : (s : State) → StartsHere s (in_form mint s)
unfolding in_form
mint-Starts s = elim (Bool-cases (s.submitting || not (form_valid s))) [
  | inl barred ↦ rw (barred, in_form) (idle (returns tt))
  | inr free ↦
      rw (free, in_form) (handle_mint_token-Starts s.token_spiffe_id s.token_ttl s (ground arith))
]

in_form-Starts : (a : Action) (s : State) → StartsHere s (in_form a s)
unfolding in_form
in_form-Starts (type_spiffe_id v) s = idle (spares (λ s. refl) (returns tt))
in_form-Starts (type_ttl v) s = idle (spares (λ s. refl) (returns tt))
in_form-Starts mint s = mint-Starts s
in_form-Starts _ s = idle (returns tt)

with_token-Tidy : (a : Action) (minted : GenerateTokenResponse) → Mints false (with_token a minted)
unfolding with_token
with_token-Tidy copy_token minted = copy_to_clipboard-Tidy minted.token
with_token-Tidy copy_command minted = copy_to_clipboard-Tidy minted.docker_command
with_token-Tidy _ minted = returns tt

in_modal-Starts :
    (a : Action) (minted : Option GenerateTokenResponse) (s : State)
    → StartsHere s (in_modal a minted s)
unfolding in_modal
in_modal-Starts a none s = in_form-Starts a s
in_modal-Starts a (some minted) s = idle (with_token-Tidy a minted)

on-Starts : (a : Action) (s : State) → StartsHere s (on a s)
unfolding on
on-Starts refresh s = idle load_agents-Tidy
on-Starts open_modal s = idle (spares (λ s. refl) (spares (λ s. refl) (returns tt)))
on-Starts close_modal s = Starts-if _ (idle (spares (λ s. refl) (returns tt))) (idle (returns tt))
on-Starts a s = Starts-if _ (in_modal-Starts a s.minted_token s) (idle (returns tt))

disciplined : Disciplined true is_generate (λ s. s.submitting) page
unfolding page
disciplined = record {
  held_at_mount = false;
  mounts = load_agents-Tidy;
  mount_balance = omega arith;
  starts = on-Starts;
}

-- After any events, in any order, at most one request for a token is on its way to the server, and
-- none while the form is not marked as submitting.
pub in_flight-le-minting :
    (es : List (Event Action))
    → in_flight is_generate (after page es).waiting ≤ bit (after page es).state.submitting
in_flight-le-minting es =
    in_flight-le-flag true is_generate (λ s. s.submitting) page disciplined es refl
