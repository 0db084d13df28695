-- ===== src/Oidc/Copying.antt =====
-- The mark `copied_key` of the OIDC page.
use zerokey.Base.{arith, ℕ, ◌≡◌, refl, String, Option, none, some, is_some, Bool, false, List, []}
use zerokey.Api.Types.{Jwk}
use zerokey.Runtime.Async.{Async, ok, failed}
use zerokey.Runtime.World.{Event, after}
use zerokey.Runtime.World.Flags.{
  Tidy, returns, raises, lowers, spares, emits, awaits, sleeps, idle, Disciplined, idle-lowered,
}
use zerokey.Runtime.World.Flags.Rules.{no_call}
use zerokey.Oidc.{
  State, Action, refresh, copy_bundle, copy_key, load_oidc, copy_text, copy_key_at, on, page,
}

abbrev Marks : Bool → Async State (Unit {0}) → Type 0
Marks = Tidy false no_call (λ s. is_some s.copied_key)

load_oidc-Tidy : Marks false load_oidc
unfolding load_oidc
load_oidc-Tidy =
    spares (λ s. refl)
      (awaits (λ e. (refl, (refl, (refl, tt))))
        (elim [
          | ok (disc, (jwks, (bundle, u))) ↦
              spares (λ s. refl)
                (spares (λ s. refl) (spares (λ s. refl) (spares (λ s. refl) (returns tt))))
          | failed message ↦ emits (spares (λ s. refl) (returns tt))
        ]))

copy_text-Tidy : (text id : String) → Marks false (copy_text text id)
unfolding copy_text
copy_text-Tidy text id =
    emits (raises (λ e. cc) (λ s. refl) (sleeps (lowers (λ e. cc) (λ s. refl) (returns tt))))

module _ (stringify : Jwk → String) where
  copy_key_at-Tidy : (key : Option Jwk) (idx : ℕ) → Marks false (copy_key_at stringify key idx)
  unfolding copy_key_at
  copy_key_at-Tidy none idx = returns tt
  copy_key_at-Tidy (some key) idx = copy_text-Tidy _ _

  on-Tidy : (a : Action) (s : State) → Marks false (on stringify a s)
  unfolding on
  on-Tidy refresh s = load_oidc-Tidy
  on-Tidy copy_bundle s = copy_text-Tidy _ "bundle"
  on-Tidy (copy_key idx) s = copy_key_at-Tidy _ idx

  disciplined : Disciplined false no_call (λ s. is_some s.copied_key) (page stringify)
  unfolding page
  disciplined = record {
    held_at_mount = false;
    mounts = load_oidc-Tidy;
    mount_balance = omega arith;
    starts = λ a s. idle (on-Tidy a s);
  }

  -- After any events, in any order, a "copied" mark stands only while a function of the page waits,
  -- so it goes when the timers have fired and the answers have come.
  pub copied_key-idle :
      (es : List (Event Action))
      → (after (page stringify) es).waiting ≡ []
      → is_some (after (page stringify) es).state.copied_key ≡ false
  copied_key-idle es =
      idle-lowered false no_call (λ s. is_some s.copied_key) (page stringify) disciplined es
