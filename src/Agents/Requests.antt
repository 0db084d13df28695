-- ===== src/Agents/Requests.antt =====
-- What the page of the agents sends to the server.
use zerokey.Base.{
  arith, ◌≡◌, ◌≢◌, refl, ℤ, pos, ◌≤ℤ◌, String, Option, none, some, false, not, ◌||◌, List, [],
  eq_iff, All, Bool-cases, inl, inr,
}
use zerokey.Api.Types.{GenerateTokenResponse}
use zerokey.Api.Call.{Call, get_agents, generate_token}
use zerokey.Runtime.Async.{Async}
use zerokey.Runtime.World.{Event, after}
use zerokey.Runtime.World.Safety.{Safe, returns, updates, emits, sleeps, Sound, after-IsSafe}
use zerokey.Runtime.World.Safety.Rules.{Safe-fetch, Safe-if}
use zerokey.Agents.{
  State, Action, refresh, open_modal, close_modal, mint, copy_token, copy_command, type_spiffe_id,
  type_ttl, load_agents, handle_mint_token, copy_to_clipboard, form_valid, in_form, with_token,
  in_modal, on, page,
}

-- The calls that the page may make: a token is asked for an identity, and lasts from one minute to
-- one hour.
abbrev pub IsAgentCall : Call → Type 0
IsAgentCall get_agents = Unit
IsAgentCall (generate_token p) =
    (p.spiffe_id ≢ "") × ((n : ℤ) × (p.ttl ≡ some n) × (pos 60 ≤ℤ n) × (n ≤ℤ pos 3600))
IsAgentCall _ = ⊥

abbrev Keeps : Async State (Unit {0}) → Type 0
Keeps = Safe (λ _. Unit {0}) IsAgentCall

load_agents-Safe : Keeps load_agents
unfolding load_agents
load_agents-Safe =
    updates (λ s h. h)
      (Safe-fetch tt (λ agents. updates (λ s h. h) (updates (λ s h. h) (returns tt)))
        (λ message. emits (updates (λ s h. h) (returns tt))))

handle_mint_token-Safe :
    (id : String) (ttl : ℤ)
    → id ≢ ""
    → pos 60 ≤ℤ ttl
    → ttl ≤ℤ pos 3600
    → Keeps (handle_mint_token id ttl)
unfolding handle_mint_token
handle_mint_token-Safe id ttl named low high =
    updates (λ s h. h)
      (Safe-fetch (named, (ttl, refl, low, high))
        (λ res. updates (λ s h. h) (updates (λ s h. h) (returns tt)))
        (λ message. emits (updates (λ s h. h) (returns tt))))

valid :
    (s : State)
    → (s.submitting || not (form_valid s)) ≡ false
    → (s.token_spiffe_id ≢ "") × (pos 60 ≤ℤ s.token_ttl) × (s.token_ttl ≤ℤ pos 3600)
unfolding form_valid
valid s free = ground (arith, eq_iff s.token_spiffe_id "")

mint-Safe : (s : State) → Keeps (in_form mint s)
unfolding in_form
mint-Safe s = elim (Bool-cases (s.submitting || not (form_valid s))) [
  | inl barred ↦ rw (barred, in_form) (returns tt)
  | inr free ↦
      let (named, low, high) = valid s free in
      rw (free, in_form) (handle_mint_token-Safe s.token_spiffe_id s.token_ttl named low high)
]

in_form-Safe : (a : Action) (s : State) → Keeps (in_form a s)
unfolding in_form
in_form-Safe (type_spiffe_id v) s = updates (λ s h. h) (returns tt)
in_form-Safe (type_ttl v) s = updates (λ s h. h) (returns tt)
in_form-Safe mint s = mint-Safe s
in_form-Safe _ s = returns tt

copy_to_clipboard-Safe : (text : String) → Keeps (copy_to_clipboard text)
unfolding copy_to_clipboard
copy_to_clipboard-Safe text = emits (updates (λ s h. h) (sleeps (updates (λ s h. h) (returns tt))))

in_modal-Safe :
    (a : Action) (minted : Option GenerateTokenResponse) (s : State) → Keeps (in_modal a minted s)
unfolding in_modal with_token
in_modal-Safe a none s = in_form-Safe a s
in_modal-Safe copy_token (some minted) s = copy_to_clipboard-Safe minted.token
in_modal-Safe copy_command (some minted) s = copy_to_clipboard-Safe minted.docker_command
in_modal-Safe _ (some minted) s = returns tt

on-Safe : (a : Action) (s : State) → Keeps (on a s)
unfolding on
on-Safe refresh s = load_agents-Safe
on-Safe open_modal s = updates (λ s h. h) (updates (λ s h. h) (returns tt))
on-Safe close_modal s = Safe-if _ (updates (λ s h. h) (returns tt)) (returns tt)
on-Safe a s = Safe-if _ (in_modal-Safe a s.minted_token s) (returns tt)

sound : Sound (λ _. Unit {0}) IsAgentCall page
unfolding page
sound = record { init = tt; mounts = load_agents-Safe; handles = λ a s h. on-Safe a s }

-- After any events, in any order: each call that the page has sent reads the agents, or asks for a
-- token for a non-empty identity with a lifetime from 60 to 3600 seconds; and no error has escaped
-- the page's `catch` blocks.
pub sent-IsAgentCall :
    (es : List (Event Action))
    → All IsAgentCall (after page es).sent × ((after page es).unhandled ≡ [])
sent-IsAgentCall es =
    let safe = after-IsSafe (λ _. Unit {0}) IsAgentCall page sound es in (safe.sent, safe.unhandled)
