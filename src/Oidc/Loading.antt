-- ===== src/Oidc/Loading.antt =====
-- The flag `loading` of the OIDC page.
use zerokey.Base.{arith, ℕ, ◌≡◌, refl, String, Option, none, some, Bool, true, false, List, []}
use zerokey.Api.Types.{Jwk}
use zerokey.Runtime.Async.{Async, ok, failed}
use zerokey.Runtime.World.{Event, after}
use zerokey.Runtime.World.Flags.{
  Tidy, returns, raises, lowers, spares, emits, awaits, sleeps, idle, Disciplined, idle-lowered,
}
use zerokey.Runtime.World.Flags.Rules.{no_call, holding}
use zerokey.Oidc.{
  State, Action, refresh, copy_bundle, copy_key, load_oidc, copy_text, copy_key_at, on, page,
}

abbrev Loads : Bool → Async State (Unit {0}) → Type 0
Loads = Tidy false no_call (λ s. s.loading)

load_oidc-Tidy : {held : Bool} → Loads held load_oidc
unfolding load_oidc
load_oidc-Tidy =
    raises (λ e. cc) (λ s. refl)
      (awaits holding (elim [
        | ok (disc, (jwks, (bundle, u))) ↦
            spares (λ s. refl)
              (spares (λ s. refl) (spares (λ s. refl) (lowers (λ e. cc) (λ s. refl) (returns tt))))
        | failed message ↦ emits (lowers (λ e. cc) (λ s. refl) (returns tt))
      ]))

copy_text-Tidy : (text id : String) → Loads false (copy_text text id)
unfolding copy_text
copy_text-Tidy text id = emits (spares (λ s. refl) (sleeps (spares (λ s. refl) (returns tt))))

module _ (stringify : Jwk → String) where
  copy_key_at-Tidy : (key : Option Jwk) (idx : ℕ) → Loads false (copy_key_at stringify key idx)
  unfolding copy_key_at
  copy_key_at-Tidy none idx = returns tt
  copy_key_at-Tidy (some key) idx = copy_text-Tidy _ _

  on-Tidy : (a : Action) (s : State) → Loads false (on stringify a s)
  unfolding on
  on-Tidy refresh s = load_oidc-Tidy
  on-Tidy copy_bundle s = copy_text-Tidy _ "bundle"
  on-Tidy (copy_key idx) s = copy_key_at-Tidy _ idx

  disciplined : Disciplined false no_call (λ s. s.loading) (page stringify)
  unfolding page
  disciplined = record {
    held_at_mount = true;
    mounts = load_oidc-Tidy;
    mount_balance = omega arith;
    starts = λ a s. idle (on-Tidy a s);
  }

  -- After any events, in any order, the page is marked as loading only while one of its functions
  -- waits.
  pub oidc_loading-idle :
      (es : List (Event Action))
      → (after (page stringify) es).waiting ≡ []
      → (after (page stringify) es).state.loading ≡ false
  oidc_loading-idle es = idle-lowered false no_call (λ s. s.loading) (page stringify) disciplined es
