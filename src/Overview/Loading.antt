-- ===== src/Overview/Loading.antt =====
-- The flag `loading` of the overview.
use zerokey.Base.{arith, ◌≡◌, refl, Bool, true, false, List, []}
use zerokey.Runtime.Async.{Async, ok, failed}
use zerokey.Runtime.World.{Event, after}
use zerokey.Runtime.World.Flags.{
  Tidy, returns, raises, lowers, spares, awaits, idle, Disciplined, idle-lowered,
}
use zerokey.Runtime.World.Flags.Rules.{no_call, holding}
use zerokey.Overview.{State, Action, refresh, tick, load_data, on, page}

abbrev Loads : Bool → Async State (Unit {0}) → Type 0
Loads = Tidy false no_call (λ s. s.loading)

load_data-Tidy : {held : Bool} → Loads held load_data
unfolding load_data
load_data-Tidy =
    raises (λ e. cc) (λ s. refl)
      (spares (λ s. refl)
        (awaits holding (elim [
          | ok (overview, (logs, u)) ↦
              spares (λ s. refl) (spares (λ s. refl) (lowers (λ e. cc) (λ s. refl) (returns tt)))
          | failed message ↦ spares (λ s. refl) (lowers (λ e. cc) (λ s. refl) (returns tt))
        ])))

on-Tidy : (a : Action) (s : State) → Loads false (on a s)
unfolding on
on-Tidy refresh s = load_data-Tidy
on-Tidy tick s = load_data-Tidy

disciplined : Disciplined false no_call (λ s. s.loading) page
unfolding page
disciplined = record {
  held_at_mount = true;
  mounts = load_data-Tidy;
  mount_balance = omega arith;
  starts = λ a s. idle (on-Tidy a s);
}

-- After any events, in any order, the page is marked as loading only while one of its functions
-- waits.
pub overview_loading-idle :
    (es : List (Event Action))
    → (after page es).waiting ≡ []
    → (after page es).state.loading ≡ false
overview_loading-idle es = idle-lowered false no_call (λ s. s.loading) page disciplined es
