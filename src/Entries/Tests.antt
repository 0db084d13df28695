-- ===== src/Entries/Tests.antt =====
-- The page of the entries on concrete inputs.
use zerokey.Entries.Settling.{entries_settle}
use zerokey.Runtime.World.Settling.{Comes}
use zerokey.Base.{
  ◌++◌, ◌≤◌, ◌≡◌, refl, not, ◌||◌, ◌↔◌, pos, String, true, false, bit, none, some, List, [], ◌∷◌,
  All, In, get_elem?,
}
use zerokey.Base.Text.{includes}
use zerokey.Api.Types.{WorkloadEntry}
use zerokey.Api.Call.{get_entries, create_entry, delete_entry}
use zerokey.Runtime.Async.{ok, failed}
use zerokey.Runtime.World.{World, Server, Event, act, respond, in_flight, step, after}
use zerokey.Entries.{
  State, Action, open_modal, submit, click_delete, init, first_form, form_valid, submit_disabled,
  page, filtered_entries, shown_entries,
}
use zerokey.Entries.Search.{Matches, filtered_entries_iff}
use zerokey.Entries.Submitting.{is_create, in_flight-le-submitting}
use zerokey.Entries.Requests.{IsEntryCall, sent-IsEntryCall}
use zerokey.Entries.Rounds.{loaded, accepted_round, deletion_round}
use zerokey.Entries.View.{row_of, rows, screen}

-- These texts have no upper case.
abbrev lower : String → String
lower s = s

abbrev worker : WorkloadEntry
worker = record {
  id = "e1";
  spiffe_id = "spiffe://demo.local/worker";
  parent_id = "spiffe://demo.local/node/agent";
  selectors = "unix:uid:1000" ∷ [];
  ttl = pos 3600;
  admin = false;
  dns_names = [];
  created_at = none;
  expires_at = none;
}

abbrev willing : Server
willing get_entries = ok (worker ∷ [])
willing (create_entry form) =
    ok (record { status = "success"; entry_id = "e2"; spiffe_id = form.spiffe_id; message = "" })
willing (delete_entry id) = ok (record { status = "success"; message = "" })
willing _ = failed "unknown"

abbrev refusing : Server
refusing c = failed "no route"

-- A page that has read its entries, its form open.
abbrev ready : State
ready = record init { entries = worker ∷ []; loading = false; is_modal_open = true }

abbrev world : World State
world = record {
  state = ready;
  waiting = [];
  sent = get_entries ∷ [];
  effects = [];
  unhandled = [];
}

-- The first reading is answered, the form is opened, and submitted twice.
abbrev submitted_twice : List (Event Action)
submitted_twice = respond 0 0 willing ∷ act open_modal ∷ act submit ∷ act submit ∷ []

-- Both the registration and the reading that follows it are answered.
abbrev registered : List (Event Action)
registered =
    respond 0 0 willing
    ∷ act open_modal
    ∷ act submit
    ∷ respond 0 0 willing
    ∷ respond 0 0 refusing
    ∷ []

settled : (after (page lower) registered).waiting ≡ []
unfolding after page step
settled = refl

-- The second click sends nothing.
sent_once : (after (page lower) submitted_twice).sent ≡ get_entries ∷ create_entry first_form ∷ []
unfolding after page step
sent_once = refl

in_flight_example :
    in_flight is_create (after (page lower) submitted_twice).waiting
    ≤ bit (after (page lower) submitted_twice).state.submitting
in_flight_example = in_flight-le-submitting lower submitted_twice

sent_example : All IsEntryCall (after (page lower) registered).sent
sent_example = sent-IsEntryCall lower registered

unlocked : (submit_disabled ready || not (form_valid first_form)) ≡ false
unfolding submit_disabled form_valid
unlocked = refl

first_row : get_elem? (shown_entries lower ready) 0 ≡ some worker
unfolding shown_entries includes
first_row = refl

accepted_example :
    step
      (page lower)
      (respond 0 0 willing)
      (step (page lower) (respond 0 0 willing) (step (page lower) (act submit) world))
    ≡ record world {
      state =
          loaded (willing get_entries) (record ready { is_modal_open = false; submitting = false });
      sent = get_entries ∷ create_entry first_form ∷ get_entries ∷ [];
    }
accepted_example = accepted_round lower world refl unlocked willing willing _ refl

deletion_example :
    step (page lower) (respond 0 0 willing) (
      step (page lower) (respond 0 0 willing) (step (page lower) (act (click_delete 0 true)) world))
    ≡ record world {
      state = loaded (willing get_entries) ready;
      sent = get_entries ∷ delete_entry "e1" ∷ get_entries ∷ [];
    }
deletion_example = deletion_round lower world 0 worker first_row willing willing _ refl

abbrev searching : State
searching = record ready { search = "uid:10" }

filtered_example :
    In worker (filtered_entries lower searching)
    ↔ (In worker (worker ∷ []) × Matches lower "uid:10" worker)
filtered_example = filtered_entries_iff lower searching worker

-- The search text stands in the selector.
found : filtered_entries lower searching ≡ worker ∷ []
unfolding filtered_entries includes
found = refl

table_of_ready : (screen lower ready).table ≡ rows (row_of worker ∷ [])
unfolding screen includes
table_of_ready = refl

settle_example :
    (more : List (Event Action)) × All (Comes refusing) more
    × ((after (page lower) (submitted_twice ++ more)).waiting ≡ [])
    × ((after (page lower) (submitted_twice ++ more)).state.loading ≡ false)
    × ((after (page lower) (submitted_twice ++ more)).state.submitting ≡ false)
settle_example = entries_settle lower refusing submitted_twice
