-- ===== src/Entries/Rounds.antt =====
-- Whole exchanges of the page of the entries with the server, from a moment when nothing waits.
use zerokey.Base.{
  arith, ℕ, ◌≡◌, String, none, some, true, false, not, ◌||◌, List, [], ◌∷◌, ◌++◌, or_text, template,
  get_elem?,
}
use mathlib.Core.List.{append_assoc}
use zerokey.Api.Types.{WorkloadEntry}
use zerokey.Api.Call.{Answer, get_entries, create_entry, delete_entry}
use zerokey.Runtime.Async.{Outcome, ok, failed, alert}
use zerokey.Runtime.World.{World, Server, act, respond, step, run}
use zerokey.Entries.{
  State, refresh, submit, click_delete, load_entries, handle_create, handle_delete, in_form, on,
  page, submit_disabled, form_valid, shown_entries, delete_row,
}

-- The state after a reading of the entries.
abbrev pub loaded : Outcome (List WorkloadEntry) → State → State
loaded (ok entries) s = record s { entries = entries; loading = false; error = none }
loaded (failed message) s = record s {
  loading = false;
  error = some (or_text message "Failed to load SPIFFE workload entries");
}

abbrev pub at_rest : World State → World State
at_rest w = record w { waiting = [] }

module _ (to_lower_case : String → String) (w : World State) where
  -- When nothing waits, a refresh asks for the entries once. An answer replaces the entries on the
  -- page and clears the error; an error keeps the entries, and is shown, by its message or by a
  -- standard one. In both cases the page stops loading, and nothing else of it changes.
  pub refresh_round :
      (server : Server)
      → step
          (page to_lower_case)
          (respond 0 0 server)
          (step (page to_lower_case) (act refresh) (at_rest w))
        ≡ record (at_rest w) {
          state = loaded (server get_entries) w.state;
          sent = w.sent ++ get_entries ∷ [];
        }
  unfolding step page on load_entries run
  refresh_round server = ground arith

  module _ (opened : w.state.is_modal_open ≡ true)
      (free : (submit_disabled w.state || not (form_valid w.state.form_data)) ≡ false) where
    submitted : World State
    submitted = step (page to_lower_case) (act submit) (at_rest w)

    -- Submitting sends the form once, as it stands.
    submitted-run : submitted ≡ run (handle_create w.state.form_data) (at_rest w)
    unfolding submitted step page on in_form
    submitted-run = ground arith

    -- When nothing waits, and the form is open, valid and its button enabled, submitting sends the
    -- form once. If the server refuses it, the error is reported by an alert; the form stays open
    -- with its contents, the entries stay as they are, and nothing is marked as submitting.
    pub refused_round :
        (server : Server) (message : String)
        → server (create_entry w.state.form_data) ≡ failed message
        → step
            (page to_lower_case)
            (respond 0 0 server)
            (step (page to_lower_case) (act submit) (at_rest w))
          ≡ record (at_rest w) {
            state = record (w.state) { submitting = false };
            sent = w.sent ++ create_entry w.state.form_data ∷ [];
            effects = w.effects ++ alert (template ("Error creating entry: " ∷ message ∷ [])) ∷ [];
          }
    unfolding step page handle_create run submitted
    refused_round server message h = rw (submitted-run) (ground arith)

    -- When nothing waits, and the form is open, valid and its button enabled, submitting sends the
    -- form once. If the server accepts it, the form is closed and the entries are read again, once;
    -- when that reading is answered too, with the entries or an error, the page has its outcome,
    -- and nothing is marked as submitting.
    pub accepted_round :
        (server later : Server) (answer : Answer (create_entry w.state.form_data))
        → server (create_entry w.state.form_data) ≡ ok answer
        → step (page to_lower_case) (respond 0 0 later) (
            step
              (page to_lower_case)
              (respond 0 0 server)
              (step (page to_lower_case) (act submit) (at_rest w)))
          ≡ record (at_rest w) {
            state =
                loaded
                  (later get_entries)
                  (record (w.state) { is_modal_open = false; submitting = false });
            sent = w.sent ++ create_entry w.state.form_data ∷ get_entries ∷ [];
          }
    unfolding step page handle_create load_entries run submitted
    accepted_round server later answer h = rw (submitted-run) (
        ground
          (arith, append_assoc w.sent (create_entry w.state.form_data ∷ []) (get_entries ∷ [])))

  module _ (row : ℕ) (entry : WorkloadEntry)
      (shown : get_elem? (shown_entries to_lower_case w.state) row ≡ some entry) where
    confirmed-run :
        step (page to_lower_case) (act (click_delete row true)) (at_rest w)
        ≡ run (handle_delete entry.id true) (at_rest w)
    unfolding step page on delete_row
    confirmed-run = rw (shown, delete_row)

    -- When nothing waits, a confirmed deletion sends one call, which names the entry of the clicked
    -- row. If the server refuses it, the error is reported by an alert, and the state of the page
    -- stays as it is.
    pub refused_deletion :
        (server : Server) (message : String)
        → server (delete_entry entry.id) ≡ failed message
        → step
            (page to_lower_case)
            (respond 0 0 server)
            (step (page to_lower_case) (act (click_delete row true)) (at_rest w))
          ≡ record (at_rest w) {
            sent = w.sent ++ delete_entry entry.id ∷ [];
            effects =
                w.effects ++ alert (template ("Failed to delete entry: " ∷ message ∷ [])) ∷ [];
          }
    unfolding step page handle_delete run
    refused_deletion server message h = rw confirmed-run (ground arith)

    -- When nothing waits, a confirmed deletion sends one call, which names the entry of the clicked
    -- row. If the server accepts it, the page reads the entries again, once, and when that reading
    -- is answered, with the entries or an error, has its outcome.
    pub deletion_round :
        (server later : Server) (answer : Answer (delete_entry entry.id))
        → server (delete_entry entry.id) ≡ ok answer
        → step (page to_lower_case) (respond 0 0 later) (
            step
              (page to_lower_case)
              (respond 0 0 server)
              (step (page to_lower_case) (act (click_delete row true)) (at_rest w)))
          ≡ record (at_rest w) {
            state = loaded (later get_entries) w.state;
            sent = w.sent ++ delete_entry entry.id ∷ get_entries ∷ [];
          }
    unfolding step page handle_delete load_entries run
    deletion_round server later answer h =
        rw confirmed-run
          (ground (arith, append_assoc w.sent (delete_entry entry.id ∷ []) (get_entries ∷ [])))
