-- ===== src/Entries/View/Display.antt =====
-- What the screen of the page of the entries shows against the page's state.
use zerokey.Base.{
  arith, ℕ, zero, suc, ◌≡◌, ◌≢◌, ap, ℤ, pos, String, Bool, some, List, [], ◌∷◌, map, get_elem?,
  if◌then◌else◌,
}
use zerokey.Base.Text.{parse_int_or}
use zerokey.Base.Text.Numbers.{parse_int_or-show_ℤ}
use zerokey.Api.Types.{WorkloadEntry}
use zerokey.Entries.{State, filtered_entries, shown_entries}
use zerokey.Entries.View.{Row, rows, row_of, table_of, screen, form_view, ttl_text}

get_elem?-map :
    {A B : Type 0} (f : A → B) (xs : List A) (i : ℕ) (a : A)
    → get_elem? xs i ≡ some a
    → get_elem? (map f xs) i ≡ some (f a)
get_elem?-map f [] i a e = cc
get_elem?-map f (x ∷ xs) zero a e = cc
get_elem?-map f (x ∷ xs) (suc i) a e = get_elem?-map f xs i a e

table_of-rows :
    (loading : Bool) (filtered : List WorkloadEntry) (rs : List Row)
    → table_of loading filtered ≡ rows rs
    → rs ≡ map row_of (if loading then [] else filtered)
unfolding table_of
table_of-rows loading filtered rs e = ground arith

-- Where the table shows rows, each stands for the entry at the same position among the shown
-- entries, so a click on its button acts on the entry that it shows.
pub screen-row :
    (to_lower_case : String → String) (s : State) (rs : List Row) (i : ℕ) (entry : WorkloadEntry)
    → (screen to_lower_case s).table ≡ rows rs
    → get_elem? (shown_entries to_lower_case s) i ≡ some entry
    → get_elem? rs i ≡ some (row_of entry)
unfolding screen shown_entries
screen-row to_lower_case s rs i entry e shown =
    rw (table_of-rows s.loading (filtered_entries to_lower_case s) rs e)
      (get_elem?-map row_of _ i entry shown)

-- The lifetime that the form shows is the one that it would store if it were typed again.
pub ttl-shown :
    (s : State) (n : ℤ)
    → s.form_data.ttl ≡ some n
    → n ≢ pos 0
    → some (parse_int_or (form_view s).ttl 3600) ≡ s.form_data.ttl
unfolding form_view
ttl-shown s n e h = rw (e, ttl_text) (ap some (parse_int_or-show_ℤ n 3600 h))
