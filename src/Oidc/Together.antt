-- ===== src/Oidc/Together.antt =====
-- The three parts of the OIDC page come and stay together.
use zerokey.Base.{ℕ, ◌≡◌, refl, String, Option, none, some, is_some, List, [], All}
use zerokey.Api.Types.{Jwk}
use zerokey.Api.Call.{Call, get_oidc_discovery, get_jwks, get_trust_bundle}
use zerokey.Runtime.Async.{Async, ok, failed}
use zerokey.Runtime.World.{Event, after}
use zerokey.Runtime.World.Safety.{
  Safe, returns, updates, batches, emits, awaits, sleeps, Sound, after-IsSafe,
}
use zerokey.Oidc.{
  State, Action, refresh, copy_bundle, copy_key, load_oidc, copy_text, copy_key_at, on, page,
}

-- All three parts are there, or none is.
abbrev pub Together : State → Type 0
Together s = (is_some s.discovery_doc ≡ is_some s.jwks) × (is_some s.jwks ≡ is_some s.bundle)

abbrev pub IsReading : Call → Type 0
IsReading get_oidc_discovery = Unit
IsReading get_jwks = Unit
IsReading get_trust_bundle = Unit
IsReading _ = ⊥

abbrev Keeps : Async State (Unit {0}) → Type 0
Keeps = Safe Together IsReading

load_oidc-Safe : Keeps load_oidc
unfolding load_oidc
load_oidc-Safe =
    updates (λ s h. h)
      (awaits (tt, (tt, (tt, tt)))
        (elim [
          | ok (disc, (jwks, (bundle, u))) ↦
              batches (λ s h. (refl, refl)) (updates (λ s h. h) (returns tt))
          | failed message ↦ emits (updates (λ s h. h) (returns tt))
        ]))

copy_text-Safe : (text id : String) → Keeps (copy_text text id)
unfolding copy_text
copy_text-Safe text id = emits (updates (λ s h. h) (sleeps (updates (λ s h. h) (returns tt))))

module _ (stringify : Jwk → String) where
  copy_key_at-Safe : (key : Option Jwk) (idx : ℕ) → Keeps (copy_key_at stringify key idx)
  unfolding copy_key_at
  copy_key_at-Safe none idx = returns tt
  copy_key_at-Safe (some key) idx = copy_text-Safe _ _

  on-Safe : (a : Action) (s : State) → Keeps (on stringify a s)
  unfolding on
  on-Safe refresh s = load_oidc-Safe
  on-Safe copy_bundle s = copy_text-Safe _ "bundle"
  on-Safe (copy_key idx) s = copy_key_at-Safe _ idx

  sound : Sound Together IsReading (page stringify)
  unfolding page
  sound = record { init = (refl, refl); mounts = load_oidc-Safe; handles = λ a s h. on-Safe a s }

  -- After any events, in any order, the page has all of the discovery document, the keys and the
  -- trust bundle, or none of them; it has sent readings of these three only; and no error has
  -- escaped its `catch` blocks.
  pub after-Together :
      (es : List (Event Action))
      → Together (after (page stringify) es).state
        × All IsReading (after (page stringify) es).sent
        × ((after (page stringify) es).unhandled ≡ [])
  after-Together es =
      let safe = after-IsSafe Together IsReading (page stringify) sound es in
      (safe.state, safe.sent, safe.unhandled)
