-- ===== src/Entries/Submitting.antt =====
-- The flag `submitting` of the page of the entries, which bars a second submission.
use zerokey.Base.{
  arith, List, [], ◌≤◌, ◌≡◌, refl, String, Option, none, some, Bool, true, false, bit, not, ◌||◌,
  Bool-cases, inl, inr,
}
use zerokey.Api.Types.{WorkloadEntry, CreateEntryPayload}
use zerokey.Api.Call.{Call, create_entry}
use zerokey.Runtime.Async.{Async}
use zerokey.Runtime.World.{Event, after, in_flight}
use zerokey.Runtime.World.Flags.{
  Tidy, returns, lowers, spares, emits, Starts, idle, acquires, Disciplined, idle-lowered,
  in_flight-le-flag,
}
use zerokey.Runtime.World.Flags.Rules.{Starts-if, fetches, Tidy-if, holding, Tidy-catch}
use zerokey.Entries.{
  delete_row, add_selector, refresh, open_modal, close_modal, clear_search, add, submit,
  type_search, type_selector, type_spiffe_id, type_parent_id, type_ttl, type_dns_name, click_delete,
  click_remove_selector, State, Action, load_entries, handle_create, handle_delete, in_form, on,
  page, submit_disabled, form_valid,
}

abbrev pub is_create : Call → Bool
is_create (create_entry _) = true
is_create _ = false

abbrev Submits : Bool → Async State (Unit {0}) → Type 0
Submits = Tidy true is_create (λ s. s.submitting)

-- Loading neither needs nor changes the flag, whoever holds it.
load_entries-Tidy : Submits false load_entries
unfolding load_entries
load_entries-Tidy =
    spares (λ s. refl)
      (spares (λ s. refl)
        (fetches (λ e. refl) (λ entries. spares (λ s. refl) (spares (λ s. refl) (returns tt)))
          (λ message. spares (λ s. refl) (spares (λ s. refl) (returns tt)))))

-- What follows the first `setSubmitting(true)`.
handle_create-Starts :
    (form : CreateEntryPayload) (s : State)
    → s.submitting ≡ false
    → Starts true is_create (λ s. s.submitting) s (handle_create form)
unfolding handle_create load_entries
handle_create-Starts form s free =
    acquires free (λ t. refl)
      (fetches holding
        (λ answer.
          spares (λ s. refl)
            (spares (λ s. refl)
              (spares (λ s. refl)
                (fetches holding
                  (λ entries.
                    spares (λ s. refl)
                      (spares (λ s. refl) (lowers (λ e. refl) (λ s. refl) (returns tt))))
                  (λ message.
                    spares (λ s. refl)
                      (spares (λ s. refl) (lowers (λ e. refl) (λ s. refl) (returns tt))))))))
        (λ message. emits (lowers (λ e. refl) (λ s. refl) (returns tt))))

handle_delete-Tidy : (id : String) (confirmed : Bool) → Submits false (handle_delete id confirmed)
unfolding handle_delete
handle_delete-Tidy id false = returns tt
handle_delete-Tidy id true =
    fetches (λ e. refl) (λ answer. Tidy-catch load_entries-Tidy (λ m. emits (returns tt)))
      (λ message. emits (returns tt))

delete_row-Tidy :
    (row : Option WorkloadEntry) (confirmed : Bool) → Submits false (delete_row row confirmed)
unfolding delete_row
delete_row-Tidy none confirmed = returns tt
delete_row-Tidy (some entry) confirmed = handle_delete-Tidy entry.id confirmed

add_selector-submitting : (s : State) → (add_selector s).submitting ≡ s.submitting
unfolding add_selector
add_selector-submitting s = ground arith

abbrev StartsHere : State → Async State (Unit {0}) → Type 0
StartsHere s = Starts true is_create (λ s. s.submitting) s

-- The button is enabled only while nothing is submitted.
enabled-submitting :
    (s : State) (b : Bool) → (submit_disabled s || b) ≡ false → s.submitting ≡ false
unfolding submit_disabled
enabled-submitting s b h = ground arith

submit-Starts : (s : State) → StartsHere s (in_form submit s)
unfolding in_form
submit-Starts s = elim (Bool-cases (submit_disabled s || not (form_valid s.form_data))) [
  | inl barred ↦ rw (barred, in_form) (idle (returns tt))
  | inr free ↦ rw (free, in_form) (handle_create-Starts s.form_data s (enabled-submitting s _ free))
]

in_form-Starts : (a : Action) (s : State) → StartsHere s (in_form a s)
unfolding in_form
in_form-Starts submit s = submit-Starts s
in_form-Starts add s = idle (spares add_selector-submitting (returns tt))
in_form-Starts close_modal s = idle (spares (λ s. refl) (returns tt))
in_form-Starts (type_selector v) s = idle (spares (λ s. refl) (returns tt))
in_form-Starts (type_spiffe_id v) s = idle (spares (λ s. refl) (returns tt))
in_form-Starts (type_parent_id v) s = idle (spares (λ s. refl) (returns tt))
in_form-Starts (type_ttl v) s = idle (spares (λ s. refl) (returns tt))
in_form-Starts (type_dns_name v) s = idle (spares (λ s. refl) (returns tt))
in_form-Starts (click_remove_selector idx) s = idle (spares (λ s. refl) (returns tt))
in_form-Starts _ s = idle (returns tt)

module _ (to_lower_case : String → String) where
  on-Starts : (a : Action) (s : State) → StartsHere s (on to_lower_case a s)
  unfolding on
  on-Starts refresh s = idle load_entries-Tidy
  on-Starts open_modal s = idle (spares (λ s. refl) (returns tt))
  on-Starts clear_search s = idle (Tidy-if _ (spares (λ s. refl) (returns tt)) (returns tt))
  on-Starts (type_search v) s = idle (spares (λ s. refl) (returns tt))
  on-Starts (click_delete row confirmed) s = idle (delete_row-Tidy _ confirmed)
  on-Starts a s = Starts-if _ (in_form-Starts a s) (idle (returns tt))

  disciplined : Disciplined true is_create (λ s. s.submitting) (page to_lower_case)
  unfolding page
  disciplined = record {
    held_at_mount = false;
    mounts = load_entries-Tidy;
    mount_balance = omega arith;
    starts = on-Starts;
  }

  -- After any events, in any order, at most one registration is on its way to the server, and none
  -- while the form is not marked as submitting.
  pub in_flight-le-submitting :
      (es : List (Event Action))
      → in_flight is_create (after (page to_lower_case) es).waiting
        ≤ bit (after (page to_lower_case) es).state.submitting
  in_flight-le-submitting es =
      in_flight-le-flag true is_create (λ s. s.submitting) (page to_lower_case) disciplined es refl

  -- After any events, in any order, the form is marked as submitting only while one of the page's
  -- functions waits for the server.
  pub submitting-idle :
      (es : List (Event Action))
      → (after (page to_lower_case) es).waiting ≡ []
      → (after (page to_lower_case) es).state.submitting ≡ false
  submitting-idle es =
      idle-lowered true is_create (λ s. s.submitting) (page to_lower_case) disciplined es
