-- ===== src/Backend/App/Tests.antt =====
-- The application on concrete inputs.

use zerokey.Base.{
  arith, ◌≡◌, ◌↔◌, refl, pos, not, str_eq, String, true, false, none, some, [], ◌∷◌, Decimal,
}
use zerokey.Base.Text.{includes, has_prefix, strip}
use zerokey.Api.Types.{nil, KeylessTestFlowResponse, PolicyEvaluationResponse}
use zerokey.Api.Call.{Call, options_of}
use zerokey.Api.Fetch.{unparsable, response}
use zerokey.Runtime.Async.{failed}
use zerokey.Runtime.World.{World, act, respond, step}
use zerokey.Entries
use zerokey.Entries.{click_delete, shown_entries, filtered_entries, State, page, form_valid}
use zerokey.Playground
use zerokey.Playground.Rounds.{at_rest}
use zerokey.Playground.View.{policy_view, result_view}
use zerokey.Backend.Spire
use zerokey.Backend.Spire.{Host, exec_command}
use zerokey.Backend.Spire.Tests.{broken, worker}
use zerokey.Backend.Events.{default_max, add_log}
use zerokey.Backend.Flow.{Surroundings, Recorded}
use zerokey.Backend.Oidc.{Provider}
use zerokey.Backend.Routes.{route}
use zerokey.Backend.Routes.Reaching.{IsPlain, is_id_char}
use zerokey.Backend.Spire.Listing.{list_entries}
use zerokey.Base.{get_elem?}
use zerokey.Backend.App.Removal.{deletes, deletion_served}
use zerokey.Backend.Tests.{plain_lax, only_parameter, reads_limit, service}
use zerokey.Backend.App.{Environment, app, event_of, is_cut, noting}
use zerokey.Backend.Events.Sending.{is_raised, start, moved, turns_left}
use zerokey.Backend.Events.Sending.Ending.{relogged}
use zerokey.Backend.Handlers.Sent.{flow_of}
use zerokey.Backend.App.Casting.{cast_of}
use zerokey.Backend.App.Casting.Dumped.{cast_of-dump}
use zerokey.Backend.App.Client.{client}
use zerokey.Backend.App.Client.Meant.{client-meant}
use zerokey.Backend.App.Decisions.{all_succeeded, shown_decision_iff, shown_run}

abbrev surroundings : Surroundings
surroundings = record {
  trust_domain = "demo.local";
  now = "";
  latency = record { mantissa = pos 5; scale = 1 };
  latency_text = "0.5";
  run_client = none;
  payload = λ s. none;
}

-- The provider of the keys does not answer.
abbrev silent : Provider
silent = record {
  internal_url = "http://oidc:8080";
  external_url = "http://localhost:8088";
  trust_domain = "demo.local";
  get = λ url. none;
}

abbrev pub env : Environment
env = record {
  host = broken;
  provider = silent;
  surroundings = surroundings;
  lax = plain_lax;
  project_name = "ZeroKey";
  version = "1.0.0";
  reason_phrase = λ status. "";
  errors = λ body. nil;
  raised_reply =
      response
        (record { status = 500; status_text = "Internal Server Error"; body = unparsable "" });
  unrouted = record { status = 404; status_text = ""; body = unparsable "" };
  exposition = unparsable "";
  sends = λ socket. true;
  meanwhile = [];
  event_id = "a9";
  event_time = "";
}

-- The command for the listing prints no entry.
abbrev listing_host : Host
listing_host = record broken {
  run = λ args. some (record { returncode = pos 0; stdout = "Found 0 entries" });
}

abbrev listing : Environment
listing = record env { host = listing_host }

abbrev pub half : Decimal → String
half d = "0.5"

-- The form is open, as it first is.
abbrev open_form : State
open_form = record Entries.init { is_modal_open = true }

abbrev world : World State
world = record { state = open_form; waiting = []; sent = []; effects = []; unhandled = [] }

deletion_whole : is_cut env (Spire.delete_entry broken "e-1").1 service ≡ false
unfolding is_cut noting is_raised start moved turns_left Spire.delete_entry
deletion_whole = refl

run_whole : is_cut env (flow_of surroundings false).1 service ≡ false
unfolding is_cut noting is_raised start moved turns_left flow_of
run_whole = refl

-- A call that is refused.
meant_example :
    client half "null" only_parameter cast_of env service
      (Call.generate_token (record { spiffe_id = "demo.local/node"; ttl = some (pos 600) }))
    ≡ failed "Agent SPIFFE ID must start with 'spiffe://'"
unfolding has_prefix
meant_example =
    client-meant half "null" only_parameter cast_of env service cast_of-dump reads_limit
      (Call.generate_token (record { spiffe_id = "demo.local/node"; ttl = some (pos 600) }))
      ((λ e. cc e), (pos 600, refl, omega arith, omega arith))

abbrev playground : World Playground.State
playground = record {
  state = Playground.init;
  waiting = [];
  sent = [];
  effects = [];
  unhandled = [];
}

valid : Playground.form_valid Playground.init ≡ true
unfolding Playground.form_valid
valid = refl

decision_example :
    (shown : PolicyEvaluationResponse) × ((step Playground.page
        (respond 0 0 (client half "null" only_parameter cast_of env service))
        (step Playground.page (act Playground.evaluate) (at_rest playground))).state.policy_result
      ≡ some shown)
    × ((policy_view shown).allowed ≡ true
        ↔ strip "spiffe://demo.local/client-worker" ≡ strip "spiffe://demo.local/client-worker")
decision_example =
    shown_decision_iff half "null" only_parameter cast_of cast_of-dump reads_limit env service
      playground refl valid

run_example :
    (run : KeylessTestFlowResponse × Recorded) × ((step Playground.page
        (respond 0 0 (client half "null" only_parameter cast_of env service))
        (step Playground.page (act Playground.execute) (at_rest playground))).state.result
      ≡ some run.0)
    × ((result_view half run.0).succeeded ≡ not false)
    × (all_succeeded (result_view half run.0).steps ≡ not false)
    × ((app env
          (route only_parameter (options_of (Call.execute_test_flow false)))
          service).1.audit_logs
        ≡ relogged default_max env.meanwhile
            (add_log default_max (event_of env run.1) service.audit_logs))
    × (str_eq run.1.status "SUCCESS" ≡ not false)
run_example =
    shown_run half "null" only_parameter cast_of cast_of-dump reads_limit env service playground
      refl run_whole

-- The page shows the entry that is to be deleted.
abbrev listed_page : World State
listed_page = record world {
  state = record Entries.init { entries = worker ∷ []; loading = false };
}

first_row : get_elem? (shown_entries (λ s. s) listed_page.state) 0 ≡ some worker
unfolding shown_entries filtered_entries includes
first_row = refl

worker-IsPlain : IsPlain worker.id
unfolding is_id_char
worker-IsPlain = ((λ e. cc e), refl)

-- The command fails, and the entry is still listed.
removal_example :
    ((step
        (page (λ s. s))
        (respond 0 0 (client half "null" only_parameter cast_of listing service))
        (step
          (page (λ s. s))
          (respond 0 0 (client half "null" only_parameter cast_of env service))
          (step (page (λ s. s)) (act (click_delete 0 true)) listed_page))).state
      ≡ record (listed_page.state) {
        entries = list_entries listing_host;
        loading = false;
        error = none;
      })
    × ((app env (route only_parameter (options_of (Call.delete_entry "e-1"))) service).1.audit_logs
        ≡ relogged default_max env.meanwhile (
            add_log default_max
              (event_of env (Spire.delete_entry broken "e-1").1)
              service.audit_logs))
    × (str_eq (Spire.delete_entry broken "e-1").1.status "SUCCESS" ≡ deletes broken "e-1")
removal_example =
    deletion_served half "null" only_parameter cast_of cast_of-dump reads_limit (λ s. s) listed_page
      0 worker first_row worker-IsPlain env listing service service deletion_whole
