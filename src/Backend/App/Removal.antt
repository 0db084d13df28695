-- ===== src/Backend/App/Removal.antt =====
-- A deletion from the row of the page to the command line of the SPIRE server, and the listing back
-- to the page.
use Prim.Native.String
use zerokey.Base.{
  ℕ, ◌≡◌, refl, ap, ◌∙◌, inl, inr, Decimal, String, Bool, true, false, Option, none, some, [], ◌∷◌,
  str_eq, get_elem?, Bool-cases,
}
use zerokey.Base.Text.{show_ℕ}
use zerokey.Api.Types.{Json, WorkloadEntry}
use zerokey.Api.Call.{Call, Answer, options_of}
use zerokey.Runtime.World.{World, Server, act, respond, step}
use zerokey.Entries.{State, click_delete, page, shown_entries}
use zerokey.Entries.Rounds.{at_rest, loaded, deletion_round}
use zerokey.Backend.Events.{EventService, default_max, add_log}
use zerokey.Backend.Events.Sending.Ending.{relogged}
use zerokey.Backend.Routes.{route}
use zerokey.Backend.Routes.Reaching.{IsPlain, handler_of, route-options_of}
use zerokey.Backend.Spire
use zerokey.Backend.Spire.{Host, exec_command}
use zerokey.Backend.Spire.Listing.{list_entries}
use zerokey.Backend.Flow.{is_zero}
use zerokey.Backend.App.{Environment, app, answered, event_of, deletion_response, is_cut}
use zerokey.Backend.App.Dumps.{deleted_json}
use zerokey.Backend.App.Noted.{recorded_response-logs}
use zerokey.Backend.App.Client.{client, dump}
use zerokey.Backend.App.Client.Meant.{client-meant}

-- Whether the command that deletes the entry succeeds.
abbrev pub deletes : Host → String → Bool
deletes host entry_id =
    is_zero (exec_command host ("entry" ∷ "delete" ∷ "-entryID" ∷ entry_id ∷ [])).returncode

recorded-deletes :
    (host : Host) (entry_id : String)
    → str_eq (Spire.delete_entry host entry_id).1.status "SUCCESS" ≡ deletes host entry_id
unfolding Spire.delete_entry
recorded-deletes host entry_id = elim (Bool-cases (deletes host entry_id)) [
  | inl good ↦ rw good refl
  | inr bad ↦ rw bad refl
]

module _ (number_text : Decimal → String) (null_message : String)
    (query : String → String → Option String) (cast : (c : Call) → Json → Answer c)
    (casts : (c : Call) (a : Answer c) (v : Json) → dump c a ≡ some v → cast c v ≡ a)
    (reads : (n : ℕ) → query "limit" (String.◌++◌ "limit=" (show_ℕ n)) ≡ some (show_ℕ n)) where
  abbrev backend : Environment → EventService → Server
  backend env s = client number_text null_message query cast env s

  deletion_logs :
      (env : Environment) (s : EventService) (id : String)
      → IsPlain id
      → (app env (route query (options_of (Call.delete_entry id))) s).1.audit_logs
        ≡ relogged default_max env.meanwhile
            (add_log default_max (event_of env (Spire.delete_entry env.host id).1) s.audit_logs)
  unfolding app handler_of deletion_response
  deletion_logs env s id plain =
      ap (λ r. (app env r s).1.audit_logs)
        (route-options_of query reads (Call.delete_entry id) plain)
      ∙ recorded_response-logs env (Spire.delete_entry env.host id).1
          (answered env 200 (deleted_json (Spire.delete_entry env.host id).0)) s

  module _ (to_lower_case : String → String) (w : World State) (row : ℕ) (entry : WorkloadEntry)
      (shown : get_elem? (shown_entries to_lower_case w.state) row ≡ some entry)
      (plain : IsPlain entry.id) (env later : Environment) (s t : EventService)
      (whole : is_cut env (Spire.delete_entry env.host entry.id).1 s ≡ false) where
    -- When nothing waits, and the deletion of a shown row, whose identifier consists of letters,
    -- digits and "-", is confirmed, and the broadcast of its event is not cut: once the backend has
    -- answered the deletion and the reading that follows, the entries of the page are those that
    -- the backend then lists, and it has no error, whether the command that deletes the entry
    -- succeeded or not; the search is as before, so the rows are those of them that it keeps. Only
    -- the event that the backend adds to its log, before those that others record meanwhile, says
    -- whether the command succeeded.
    pub deletion_served :
        ((step (page to_lower_case) (respond 0 0 (backend later t)) (
            step
              (page to_lower_case)
              (respond 0 0 (backend env s))
              (step (page to_lower_case) (act (click_delete row true)) (at_rest w)))).state
          ≡ record (w.state) { entries = list_entries later.host; loading = false; error = none })
        × ((app env (route query (options_of (Call.delete_entry entry.id))) s).1.audit_logs
            ≡ relogged default_max env.meanwhile (
                add_log default_max
                  (event_of env (Spire.delete_entry env.host entry.id).1)
                  s.audit_logs))
        × (str_eq (Spire.delete_entry env.host entry.id).1.status "SUCCESS"
            ≡ deletes env.host entry.id)
    deletion_served = (
      ap (λ v. v.state)
            (deletion_round to_lower_case w row entry shown (backend env s) (backend later t)
              (Spire.delete_entry env.host entry.id).0
              (client-meant number_text null_message query cast env s casts reads
                  (Call.delete_entry entry.id) plain
                ∙ rw whole refl))
          ∙ ap (λ o. loaded o w.state)
              (client-meant number_text null_message query cast later t casts reads Call.get_entries
                tt),
      deletion_logs env s entry.id plain,
      recorded-deletes env.host entry.id,
    )
