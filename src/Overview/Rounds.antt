-- ===== src/Overview/Rounds.antt =====
-- A whole reading of the overview, from a moment when nothing waits: `Promise.all` of two calls,
-- each with a value that stands in for its error.
use zerokey.Base.{arith, ◌≡◌, refl, none, some, false, List, [], ◌∷◌, ◌++◌}
use zerokey.Api.Types.{OverviewSummary, AuditLogEvent}
use zerokey.Api.Call.{get_overview, get_audit_logs}
use zerokey.Runtime.Async.{Outcome, ok, failed}
use zerokey.Runtime.World.{World, Server, act, respond, step, run}
use zerokey.Overview.{State, tick, fallback, load_data, on, page}

abbrev pub at_rest : World State → World State
at_rest w = record w { waiting = [] }

-- The value of a settled promise, or the one that stands in.
abbrev pub value_or : {A : Type 0} → Outcome A → A → A
value_or (ok a) standard = a
value_or (failed message) standard = standard

-- The world when both answers have come.
abbrev pub read : Server → World State → World State
read server w = record w {
  state = record (w.state) {
    overview = some (value_or (server get_overview) fallback);
    recent_logs = value_or (server (get_audit_logs 5)) [];
    loading = false;
    error = none;
  };
  sent = w.sent ++ get_overview ∷ get_audit_logs 5 ∷ [];
  waiting = [];
}

module _ (w : World State) (server : Server) where
  settled :
      (a : Outcome OverviewSummary) (b : Outcome (List AuditLogEvent))
      → server get_overview ≡ a
      → server (get_audit_logs 5) ≡ b
      → (step page
            (respond 0 1 server)
            (step page (respond 0 0 server) (step page (act tick) (at_rest w)))
          ≡ read server w)
        × (step page
              (respond 0 0 server)
              (step page (respond 0 1 server) (step page (act tick) (at_rest w)))
            ≡ read server w)
  unfolding step page on load_data run
  settled (ok a) (ok b) e f = (ground arith, ground arith)
  settled (ok a) (failed m) e f = (ground arith, ground arith)
  settled (failed m) (ok b) e f = (ground arith, ground arith)
  settled (failed m) (failed n) e f = (ground arith, ground arith)

  -- When nothing waits, a firing of the interval sends two calls. Whatever the server answers to
  -- the two calls, and in either order, each part of the page is its answer, or what stands in for
  -- an error; the page stops loading, and shows no error.
  pub tick_round :
      (step page
          (respond 0 1 server)
          (step page (respond 0 0 server) (step page (act tick) (at_rest w)))
        ≡ read server w)
      × (step page
            (respond 0 0 server)
            (step page (respond 0 1 server) (step page (act tick) (at_rest w)))
          ≡ read server w)
  tick_round = settled (server get_overview) (server (get_audit_logs 5)) refl refl
