-- ===== src/Entries/View.antt =====
-- dashboard/frontend/src/app/entries/page.tsx: what the page shows, as the texts and the controls
-- of its table and of its form.
pub mod Display
use zerokey.Base.{
  ℤ, String, Bool, true, false, not, Option, none, some, List, [], ◌∷◌, map, truthy, template, join,
  is_empty, if◌then◌else◌,
}
use zerokey.Base.Text.{show_ℤ}
use zerokey.Api.Types.{WorkloadEntry, CreateEntryPayload}
use zerokey.Entries.{State, filtered_entries, submit_disabled}

pub record Row : Type 0 where
  pub spiffe_id : String
  -- the line below it, where the entry has names
  pub dns : Option String
  pub parent_id : String
  pub selectors : List String
  pub ttl : String
  pub id : String

pub data Table : Type 0 where
  message : String → Table
  rows : List Row → Table

pub record FormView : Type 0 where
  pub spiffe_id : String
  pub parent_id : String
  pub selectors : List String
  pub selector_input : String
  -- the text of the number input, empty for an absent lifetime
  pub ttl : String
  pub dns_name : String
  pub submit_disabled : Bool
  pub submit_label : String

pub record Screen : Type 0 where
  pub search : String
  pub clear_button : Bool
  pub table : Table
  pub form : Option FormView

pub row_of : WorkloadEntry → Row
row_of entry = record {
  spiffe_id = entry.spiffe_id;
  dns =
      if not (is_empty entry.dns_names)
      then some (template ("DNS: " ∷ join ", " entry.dns_names ∷ []))
      else none;
  parent_id = entry.parent_id;
  selectors = entry.selectors;
  ttl = template (show_ℤ entry.ttl ∷ "s" ∷ []);
  id = entry.id;
}

first_name : Option (List String) → String
first_name none = ""
first_name (some []) = ""
first_name (some (name ∷ _)) = name

ttl_text : Option ℤ → String
ttl_text none = ""
ttl_text (some n) = show_ℤ n

-- The modal.
unfoldable pub form_view : State → FormView
unfolding first_name ttl_text submit_disabled
form_view s = record {
  spiffe_id = s.form_data.spiffe_id;
  parent_id = s.form_data.parent_id;
  selectors = s.form_data.selectors;
  selector_input = s.selector_input;
  ttl = ttl_text s.form_data.ttl;
  dns_name = first_name s.form_data.dns_names;
  submit_disabled = submit_disabled s;
  submit_label = if s.submitting then "Registering..." else "Create SPIFFE Entry";
}

table_of : Bool → List WorkloadEntry → Table
table_of loading filtered =
    if loading
    then message "Loading SPIRE registration entries..."
    else if is_empty filtered
    then message "No workload entries match your search criteria."
    else rows (map row_of filtered)

unfoldable pub screen : (String → String) → State → Screen
unfolding table_of row_of form_view filtered_entries
screen to_lower_case s = record {
  search = s.search;
  clear_button = truthy s.search;
  table = table_of s.loading (filtered_entries to_lower_case s);
  form = if s.is_modal_open then some (form_view s) else none;
}
