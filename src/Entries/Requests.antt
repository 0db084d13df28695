-- ===== src/Entries/Requests.antt =====
-- What the page of the entries sends to the server.
use zerokey.Base.{
  arith, ℕ, ℤ, pos, ◌≤ℤ◌, ◌≡◌, ◌≢◌, refl, String, Option, none, some, Bool, true, false, List, [],
  not, ◌||◌, truthy, eq_iff, Bool-cases, inl, inr, All, All-append, All-keep_indexed, nat_eq,
}
use zerokey.Base.Text.{trim}
use zerokey.Base.Text.Trim.{trim_idem}
use zerokey.Api.Types.{WorkloadEntry, CreateEntryPayload}
use zerokey.Api.Call.{Call, get_entries, create_entry, delete_entry}
use zerokey.Runtime.Async.{Async}
use zerokey.Runtime.World.{Event, after}
use zerokey.Runtime.World.Safety.{Safe, returns, updates, emits, Sound, after-IsSafe}
use zerokey.Runtime.World.Safety.Rules.{Safe-fetch, Safe-catch, Safe-finally, Safe-if}
use zerokey.Entries.{
  delete_row, add_selector, remove_selector, refresh, open_modal, close_modal, clear_search, add,
  submit, type_search, type_selector, type_spiffe_id, type_parent_id, type_ttl, type_dns_name,
  click_delete, click_remove_selector, State, Action, load_entries, handle_create, handle_delete,
  in_form, on, page, submit_disabled, form_valid,
}

-- A selector with text in it, and no white space at its ends.
abbrev pub IsSelector : String → Type 0
IsSelector s = (trim s ≡ s) × (s ≢ "")

-- A registration that the server can use.
pub record IsComplete (form : CreateEntryPayload) : Type 0 where
  pub spiffe_id : form.spiffe_id ≢ ""
  pub parent_id : form.parent_id ≢ ""
  pub some_selector : form.selectors ≢ []
  pub selectors : All IsSelector form.selectors
  pub ttl : (n : ℤ) → form.ttl ≡ some n → (pos 60 ≤ℤ n) × (n ≤ℤ pos 86400)

-- The calls that the page may make.
abbrev pub IsEntryCall : Call → Type 0
IsEntryCall get_entries = Unit
IsEntryCall (create_entry form) = IsComplete form
IsEntryCall (delete_entry _) = Unit
IsEntryCall _ = ⊥

abbrev pub CleanForm : State → Type 0
CleanForm s = All IsSelector s.form_data.selectors

abbrev Keeps : Async State (Unit {0}) → Type 0
Keeps = Safe CleanForm IsEntryCall

load_entries-Safe : Keeps load_entries
unfolding load_entries
load_entries-Safe =
    updates (λ s h. h)
      (updates (λ s h. h)
        (Safe-fetch tt (λ entries. updates (λ s h. h) (updates (λ s h. h) (returns tt)))
          (λ message. updates (λ s h. h) (updates (λ s h. h) (returns tt)))))

handle_create-Safe : (form : CreateEntryPayload) → IsComplete form → Keeps (handle_create form)
unfolding handle_create
handle_create-Safe form complete =
    updates (λ s h. h)
      (Safe-fetch complete
        (λ answer.
          updates (λ s h. h)
            (Safe-finally (Safe-catch _ load_entries-Safe) (updates (λ s h. h) (returns tt))))
        (λ message. emits (updates (λ s h. h) (returns tt))))

handle_delete-Safe : (id : String) (confirmed : Bool) → Keeps (handle_delete id confirmed)
unfolding handle_delete
handle_delete-Safe id false = returns tt
handle_delete-Safe id true =
    Safe-fetch tt (λ answer. Safe-catch _ load_entries-Safe) (λ message. emits (returns tt))

delete_row-Safe : (row : Option WorkloadEntry) (confirmed : Bool) → Keeps (delete_row row confirmed)
unfolding delete_row
delete_row-Safe none confirmed = returns tt
delete_row-Safe (some entry) confirmed = handle_delete-Safe entry.id confirmed

truthy-ne : (s : String) → truthy s ≡ true → s ≢ ""
truthy-ne s h = ground (arith, eq_iff s "")

add_selector-CleanForm : (s : State) → CleanForm s → CleanForm (add_selector s)
unfolding add_selector
add_selector-CleanForm s h = elim (Bool-cases (truthy (trim s.selector_input))) [
  | inl full ↦
      rw full (All-append IsSelector _ _ h ((trim_idem s.selector_input, truthy-ne _ full), tt))
  | inr blank ↦ rw blank h
]

remove_selector-clean :
    (idx : ℕ) (form : CreateEntryPayload)
    → All IsSelector form.selectors
    → All IsSelector (remove_selector idx form).selectors
unfolding remove_selector
remove_selector-clean idx form h =
    All-keep_indexed IsSelector (λ _ i. not (nat_eq i idx)) 0 form.selectors h

pub form_valid-IsComplete :
    (s : State)
    → CleanForm s
    → (submit_disabled s || not (form_valid s.form_data)) ≡ false
    → IsComplete s.form_data
unfolding form_valid submit_disabled
form_valid-IsComplete s clean free = record {
  spiffe_id = truthy-ne _ (ground arith);
  parent_id = truthy-ne _ (ground arith);
  some_selector = ground arith;
  selectors = clean;
  ttl = λ n e. ground arith;
}

submit-Safe : (s : State) → CleanForm s → Keeps (in_form submit s)
unfolding in_form
submit-Safe s h = elim (Bool-cases (submit_disabled s || not (form_valid s.form_data))) [
  | inl barred ↦ rw (barred, in_form) (returns tt)
  | inr free ↦ rw (free, in_form) (handle_create-Safe s.form_data (form_valid-IsComplete s h free))
]

in_form-Safe : (a : Action) (s : State) → CleanForm s → Keeps (in_form a s)
unfolding in_form
in_form-Safe submit s h = submit-Safe s h
in_form-Safe add s h = updates add_selector-CleanForm (returns tt)
in_form-Safe (click_remove_selector idx) s h =
    updates (λ t k. remove_selector-clean idx t.form_data k) (returns tt)
in_form-Safe close_modal s h = updates (λ t k. k) (returns tt)
in_form-Safe (type_selector v) s h = updates (λ t k. k) (returns tt)
in_form-Safe (type_spiffe_id v) s h = updates (λ t k. k) (returns tt)
in_form-Safe (type_parent_id v) s h = updates (λ t k. k) (returns tt)
in_form-Safe (type_ttl v) s h = updates (λ t k. k) (returns tt)
in_form-Safe (type_dns_name v) s h = updates (λ t k. k) (returns tt)
in_form-Safe _ s h = returns tt

module _ (to_lower_case : String → String) where
  on-Safe : (a : Action) (s : State) → CleanForm s → Keeps (on to_lower_case a s)
  unfolding on
  on-Safe refresh s h = load_entries-Safe
  on-Safe open_modal s h = updates (λ t k. k) (returns tt)
  on-Safe clear_search s h = Safe-if _ (updates (λ t k. k) (returns tt)) (returns tt)
  on-Safe (type_search v) s h = updates (λ t k. k) (returns tt)
  on-Safe (click_delete row confirmed) s h = delete_row-Safe _ confirmed
  on-Safe a s h = Safe-if _ (in_form-Safe a s h) (returns tt)

  sound : Sound CleanForm IsEntryCall (page to_lower_case)
  unfolding page trim
  sound = record {
    init = ((refl, truthy-ne _ refl), tt);
    mounts = load_entries-Safe;
    handles = on-Safe;
  }

  -- After any events, in any order: each call that the page has sent reads the entries, deletes
  -- one, or registers a complete one, with both SPIFFE IDs, at least one selector, no blank or
  -- untrimmed selector, and a lifetime that is absent or from 60 to 86400 seconds.
  pub sent-IsEntryCall :
      (es : List (Event Action)) → All IsEntryCall (after (page to_lower_case) es).sent
  sent-IsEntryCall es = (after-IsSafe CleanForm IsEntryCall (page to_lower_case) sound es).sent

  -- After any events, in any order, no error has escaped the page's `catch` blocks.
  pub unhandled-nil : (es : List (Event Action)) → (after (page to_lower_case) es).unhandled ≡ []
  unhandled-nil es = (after-IsSafe CleanForm IsEntryCall (page to_lower_case) sound es).unhandled
