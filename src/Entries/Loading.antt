-- ===== src/Entries/Loading.antt =====
-- The flag `loading` of the page of the entries.
use zerokey.Base.{arith, ◌≡◌, refl, String, Option, none, some, Bool, true, false, List, []}
use zerokey.Api.Types.{WorkloadEntry, CreateEntryPayload}
use zerokey.Runtime.Async.{Async}
use zerokey.Runtime.World.{Event, after}
use zerokey.Runtime.World.Flags.{
  Tidy, returns, raises, lowers, spares, emits, Starts, idle, Disciplined, idle-lowered,
}
use zerokey.Runtime.World.Flags.Rules.{no_call, fetches, Tidy-if, holding, Tidy-catch, Tidy-finally}
use zerokey.Entries.{
  delete_row, add_selector, refresh, open_modal, close_modal, clear_search, add, submit,
  type_search, type_selector, type_spiffe_id, type_parent_id, type_ttl, type_dns_name, click_delete,
  click_remove_selector, State, Action, load_entries, handle_create, handle_delete, in_form, on,
  page,
}

abbrev Loads : Bool → Async State (Unit {0}) → Type 0
Loads = Tidy false no_call (λ s. s.loading)

load_entries-Tidy : {held : Bool} → Loads held load_entries
unfolding load_entries
load_entries-Tidy =
    raises (λ e. cc) (λ s. refl)
      (spares (λ s. refl)
        (fetches holding (λ entries. spares (λ s. refl) (lowers (λ e. cc) (λ s. refl) (returns tt)))
          (λ message. spares (λ s. refl) (lowers (λ e. cc) (λ s. refl) (returns tt)))))

handle_create-Tidy : (form : CreateEntryPayload) → Loads false (handle_create form)
unfolding handle_create
handle_create-Tidy form =
    spares (λ s. refl)
      (fetches (λ e. refl)
        (λ answer.
          spares (λ s. refl)
            (Tidy-finally (Tidy-catch load_entries-Tidy (λ m. emits (returns tt)))
              (spares (λ s. refl) (returns tt))))
        (λ message. emits (spares (λ s. refl) (returns tt))))

handle_delete-Tidy : (id : String) (confirmed : Bool) → Loads false (handle_delete id confirmed)
unfolding handle_delete
handle_delete-Tidy id false = returns tt
handle_delete-Tidy id true =
    fetches (λ e. refl) (λ answer. Tidy-catch load_entries-Tidy (λ m. emits (returns tt)))
      (λ message. emits (returns tt))

delete_row-Tidy :
    (row : Option WorkloadEntry) (confirmed : Bool) → Loads false (delete_row row confirmed)
unfolding delete_row
delete_row-Tidy none confirmed = returns tt
delete_row-Tidy (some entry) confirmed = handle_delete-Tidy entry.id confirmed

add_selector-loading : (s : State) → (add_selector s).loading ≡ s.loading
unfolding add_selector
add_selector-loading s = ground arith

in_form-Tidy : (a : Action) (s : State) → Loads false (in_form a s)
unfolding in_form
in_form-Tidy submit s = Tidy-if _ (returns tt) (handle_create-Tidy s.form_data)
in_form-Tidy add s = spares add_selector-loading (returns tt)
in_form-Tidy close_modal s = spares (λ s. refl) (returns tt)
in_form-Tidy (type_selector v) s = spares (λ s. refl) (returns tt)
in_form-Tidy (type_spiffe_id v) s = spares (λ s. refl) (returns tt)
in_form-Tidy (type_parent_id v) s = spares (λ s. refl) (returns tt)
in_form-Tidy (type_ttl v) s = spares (λ s. refl) (returns tt)
in_form-Tidy (type_dns_name v) s = spares (λ s. refl) (returns tt)
in_form-Tidy (click_remove_selector idx) s = spares (λ s. refl) (returns tt)
in_form-Tidy _ s = returns tt

module _ (to_lower_case : String → String) where
  on-Starts :
      (a : Action) (s : State) → Starts false no_call (λ s. s.loading) s (on to_lower_case a s)
  unfolding on
  on-Starts refresh s = idle load_entries-Tidy
  on-Starts open_modal s = idle (spares (λ s. refl) (returns tt))
  on-Starts clear_search s = idle (Tidy-if _ (spares (λ s. refl) (returns tt)) (returns tt))
  on-Starts (type_search v) s = idle (spares (λ s. refl) (returns tt))
  on-Starts (click_delete row confirmed) s = idle (delete_row-Tidy _ confirmed)
  on-Starts a s = idle (Tidy-if _ (in_form-Tidy a s) (returns tt))

  disciplined : Disciplined false no_call (λ s. s.loading) (page to_lower_case)
  unfolding page
  disciplined = record {
    held_at_mount = true;
    mounts = load_entries-Tidy;
    mount_balance = omega arith;
    starts = on-Starts;
  }

  -- After any events, in any order, the page shows "Loading …" only while one of its functions
  -- waits for the server.
  pub entries_loading-idle :
      (es : List (Event Action))
      → (after (page to_lower_case) es).waiting ≡ []
      → (after (page to_lower_case) es).state.loading ≡ false
  entries_loading-idle es =
      idle-lowered false no_call (λ s. s.loading) (page to_lower_case) disciplined es
