-- ===== src/Entries.antt =====
-- dashboard/frontend/src/app/entries/page.tsx: the state of the page, its functions, and its
-- handler of each event. The texts of the form are checked by the browser as their inputs ask
-- (`required`, `min`, `max`) before the form is submitted. `to_lower_case` is JavaScript's.
pub mod View
pub mod Search
pub mod Form
pub mod Loading
pub mod Submitting
pub mod Requests
pub mod Rounds
pub mod Settling
mod Tests
use zerokey.Base.{
  ℕ, zero, ℤ, pos, leb_ℤ, String, Bool, true, false, not, ◌&&◌, ◌||◌, Option, none, some, List, [],
  ◌∷◌, ◌++◌, truthy, or_text, template, if◌then◌else◌, any, keep, is_empty, get_elem?, keep_indexed,
  nat_eq,
}
use zerokey.Base.Text.{trim, includes, parse_int_or}
use zerokey.Api.Types.{WorkloadEntry, CreateEntryPayload}
use zerokey.Api.Call.{get_entries, create_entry, delete_entry}
use zerokey.Runtime.Async.{Async, pure, ◌>>=◌, ◌>>◌, catch, finally, modify, perform, fetch, alert}
use zerokey.Runtime.World.{Page}

pub record State : Type 0 where
  pub entries : List WorkloadEntry
  pub search : String
  pub loading : Bool
  pub is_modal_open : Bool
  pub submitting : Bool
  pub error : Option String
  pub form_data : CreateEntryPayload
  pub selector_input : String

abbrev pub first_form : CreateEntryPayload
first_form = record {
  spiffe_id = "spiffe://demo.local/custom-worker";
  parent_id = "spiffe://demo.local/node/agent";
  selectors = "docker:label:workload:custom-worker" ∷ [];
  ttl = some (pos 3600);
  admin = some false;
  dns_names = some ("custom-worker" ∷ []);
}

abbrev pub init : State
init = record {
  entries = [];
  search = "";
  loading = true;
  is_modal_open = false;
  submitting = false;
  error = none;
  form_data = first_form;
  selector_input = "";
}

-- The setters.
abbrev set_entries : List WorkloadEntry → State → State
set_entries v s = record s { entries = v }

abbrev set_search : String → State → State
set_search v s = record s { search = v }

abbrev set_loading : Bool → State → State
set_loading v s = record s { loading = v }

abbrev set_is_modal_open : Bool → State → State
set_is_modal_open v s = record s { is_modal_open = v }

abbrev set_submitting : Bool → State → State
set_submitting v s = record s { submitting = v }

abbrev set_error : Option String → State → State
set_error v s = record s { error = v }

abbrev set_form_data : CreateEntryPayload → State → State
set_form_data v s = record s { form_data = v }

abbrev set_selector_input : String → State → State
set_selector_input v s = record s { selector_input = v }

unfoldable pub load_entries : Async State (Unit {0})
load_entries =
    finally
      (catch
        (do
          modify (set_loading true)
          modify (set_error none)
          entries ← fetch get_entries
          modify (set_entries entries))
        (λ message.
          modify (set_error (some (or_text message "Failed to load SPIFFE workload entries")))))
      (modify (set_loading false))

-- `form` is the form when the handler was created, at the last rendering.
unfoldable pub handle_create : CreateEntryPayload → Async State (Unit {0})
handle_create form =
    finally
      (catch
        (do
          modify (set_submitting true)
          _ ← fetch (create_entry form)
          modify (set_is_modal_open false)
          load_entries)
        (λ message. perform (alert (template ("Error creating entry: " ∷ message ∷ [])))))
      (modify (set_submitting false))

-- `confirmed` is the user's answer to `confirm`.
unfoldable pub handle_delete : String → Bool → Async State (Unit {0})
handle_delete entry_id confirmed =
    if not confirmed
    then pure tt
    else catch (do _ ← fetch (delete_entry entry_id); load_entries)
        (λ message. perform (alert (template ("Failed to delete entry: " ∷ message ∷ []))))

module _ (to_lower_case : String → String) where
  matches_search : String → WorkloadEntry → Bool
  matches_search search entry =
      includes (to_lower_case entry.spiffe_id) (to_lower_case search)
      || (any (λ s. includes (to_lower_case s) (to_lower_case search)) entry.selectors
          || includes (to_lower_case entry.id) (to_lower_case search))

  unfoldable pub filtered_entries : State → List WorkloadEntry
  unfolding matches_search
  filtered_entries s = keep (matches_search s.search) s.entries

  -- The rows on the screen: none while the page loads.
  unfoldable pub shown_entries : State → List WorkloadEntry
  unfolding filtered_entries
  shown_entries s = if s.loading then [] else filtered_entries s

-- The "×" at a selector of the form.
unfoldable pub remove_selector : ℕ → CreateEntryPayload → CreateEntryPayload
remove_selector idx form = record form {
  selectors = keep_indexed (λ _ i. not (nat_eq i idx)) 0 form.selectors;
}

-- The button "Add".
unfoldable pub add_selector : State → State
unfolding trim
add_selector s =
    if truthy (trim s.selector_input)
    then record s {
      form_data = record (s.form_data) {
        selectors = s.form_data.selectors ++ trim s.selector_input ∷ [];
      };
      selector_input = "";
    }
    else s

ttl_valid : Option ℤ → Bool
ttl_valid none = true
ttl_valid (some n) = leb_ℤ (pos 60) n && leb_ℤ n (pos 86400)

-- What the browser asks of the form before it submits it.
unfoldable pub form_valid : CreateEntryPayload → Bool
unfolding ttl_valid
form_valid form = truthy form.spiffe_id && truthy form.parent_id && ttl_valid form.ttl

-- `disabled` of the submit button.
unfoldable pub submit_disabled : State → Bool
submit_disabled s = s.submitting || is_empty s.form_data.selectors

-- What the user can do. Rows and selectors are named by their position on the screen.
pub data Action : Type 0 where
  refresh open_modal close_modal clear_search add submit : Action
  type_search type_selector type_spiffe_id type_parent_id type_ttl type_dns_name : String → Action
  click_delete : ℕ → Bool → Action
  click_remove_selector : ℕ → Action

abbrev set_form : (CreateEntryPayload → CreateEntryPayload) → State → State
set_form f s = set_form_data (f s.form_data) s

-- An event inside the form, which is there only while the modal is open.
unfoldable pub in_form : Action → State → Async State (Unit {0})
unfolding handle_create add_selector remove_selector form_valid submit_disabled parse_int_or
in_form close_modal s = modify (set_is_modal_open false)
in_form add s = modify add_selector
in_form (type_selector v) s = modify (set_selector_input v)
in_form (type_spiffe_id v) s = modify (set_form (λ form. record form { spiffe_id = v }))
in_form (type_parent_id v) s = modify (set_form (λ form. record form { parent_id = v }))
in_form (type_ttl v) s =
    modify (set_form (λ form. record form { ttl = some (parse_int_or v 3600) }))
in_form (type_dns_name v) s = modify (set_form (λ form. record form { dns_names = some (v ∷ []) }))
in_form (click_remove_selector idx) s = modify (set_form (remove_selector idx))
in_form submit s =
    if submit_disabled s || not (form_valid s.form_data) then pure tt else handle_create s.form_data
in_form _ s = pure tt

delete_row : Option WorkloadEntry → Bool → Async State (Unit {0})
unfolding handle_delete
delete_row none confirmed = pure tt
delete_row (some entry) confirmed = handle_delete entry.id confirmed

module _ (to_lower_case : String → String) where
  unfoldable pub on : Action → State → Async State (Unit {0})
  unfolding delete_row in_form load_entries shown_entries
  on refresh s = load_entries
  on open_modal s = modify (set_is_modal_open true)
  on clear_search s = if truthy s.search then modify (set_search "") else pure tt
  on (type_search v) s = modify (set_search v)
  on (click_delete row confirmed) s =
      delete_row (get_elem? (shown_entries to_lower_case s) row) confirmed
  on a s = if s.is_modal_open then in_form a s else pure tt

  unfoldable pub page : Page State Action
  unfolding on load_entries
  page = record { init = init; mount = load_entries; on = on }
