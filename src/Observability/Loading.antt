-- ===== src/Observability/Loading.antt =====
-- The flag `loading` of the observability page.
use zerokey.Base.{arith, ◌≡◌, refl, Bool, true, false, Option, none, some, List, []}
use zerokey.Api.Types.{Json, obj, AuditLogEvent}
use zerokey.Runtime.Async.{Async, ok, failed}
use zerokey.Runtime.World.{Event, after}
use zerokey.Runtime.World.Flags.{
  Tidy, returns, raises, lowers, spares, emits, awaits, idle, Disciplined, idle-lowered,
}
use zerokey.Runtime.World.Flags.Rules.{no_call, holding, Tidy-if}
use zerokey.Observability.{
  State, Action, refresh, socket_opens, socket_closes, socket_fails, socket_sends, load_data,
  announce, received, on_message, on, page,
}

abbrev Loads : Bool → Async State (Unit {0}) → Type 0
Loads = Tidy false no_call (λ s. s.loading)

load_data-Tidy : {held : Bool} → Loads held load_data
unfolding load_data
load_data-Tidy =
    raises (λ e. cc) (λ s. refl)
      (awaits holding (elim [
        | ok (logs, (metrics, u)) ↦
            spares (λ s. refl) (spares (λ s. refl) (lowers (λ e. cc) (λ s. refl) (returns tt)))
        | failed message ↦ emits (lowers (λ e. cc) (λ s. refl) (returns tt))
      ]))

module _ (as_event : Json → AuditLogEvent) where
  announce-Tidy : (v : Option Json) → Loads false (announce as_event v)
  unfolding announce
  announce-Tidy none = returns tt
  announce-Tidy (some v) = Tidy-if _ (spares (λ s. refl) (returns tt)) (returns tt)

  received-Tidy : (v : Json) → Loads false (received as_event v)
  unfolding received
  received-Tidy (obj fields) = Tidy-if _ (announce-Tidy _) (returns tt)
  received-Tidy _ = returns tt

  on_message-Tidy : (v : Option Json) → Loads false (on_message as_event v)
  unfolding on_message
  on_message-Tidy none = returns tt
  on_message-Tidy (some v) = received-Tidy v

  on-Tidy : (a : Action) (s : State) → Loads false (on as_event a s)
  unfolding on
  on-Tidy refresh s = load_data-Tidy
  on-Tidy socket_opens s = spares (λ s. refl) (returns tt)
  on-Tidy socket_closes s = spares (λ s. refl) (returns tt)
  on-Tidy socket_fails s = spares (λ s. refl) (returns tt)
  on-Tidy (socket_sends v) s = on_message-Tidy v

  disciplined : Disciplined false no_call (λ s. s.loading) (page as_event)
  unfolding page
  disciplined = record {
    held_at_mount = true;
    mounts = load_data-Tidy;
    mount_balance = omega arith;
    starts = λ a s. idle (on-Tidy a s);
  }

  -- After any events, in any order, the page is marked as loading only while one of its functions
  -- waits.
  pub telemetry_loading-idle :
      (es : List (Event Action))
      → (after (page as_event) es).waiting ≡ []
      → (after (page as_event) es).state.loading ≡ false
  telemetry_loading-idle es =
      idle-lowered false no_call (λ s. s.loading) (page as_event) disciplined es
