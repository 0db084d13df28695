-- ===== src/Observability/Rounds.antt =====
-- A whole reading of the telemetry, from a moment when nothing waits: `Promise.all` of two calls,
-- each with a value that stands in for its error.
use zerokey.Base.{arith, ◌≡◌, refl, some, false, List, [], ◌∷◌, ◌++◌}
use zerokey.Api.Types.{Json, AuditLogEvent, IdentityMetrics}
use zerokey.Api.Call.{get_audit_logs, get_metrics}
use zerokey.Runtime.Async.{Outcome, ok, failed}
use zerokey.Runtime.World.{World, Server, act, respond, step, run}
use zerokey.Observability.{State, refresh, fallback, load_data, on, page}

abbrev pub at_rest : World State → World State
at_rest w = record w { waiting = [] }

-- The value of a settled promise, or the one that stands in.
abbrev pub value_or : {A : Type 0} → Outcome A → A → A
value_or (ok a) standard = a
value_or (failed message) standard = standard

-- The world when both answers have come.
abbrev pub read : Server → World State → World State
read server w = record w {
  state = record (w.state) {
    logs = value_or (server (get_audit_logs 30)) [];
    metrics = some (value_or (server get_metrics) fallback);
    loading = false;
  };
  sent = w.sent ++ get_audit_logs 30 ∷ get_metrics ∷ [];
  waiting = [];
}

module _ (as_event : Json → AuditLogEvent) (w : World State) (server : Server) where
  settled :
      (a : Outcome (List AuditLogEvent)) (b : Outcome IdentityMetrics)
      → server (get_audit_logs 30) ≡ a
      → server get_metrics ≡ b
      → (step (page as_event) (respond 0 1 server) (
            step
              (page as_event)
              (respond 0 0 server)
              (step (page as_event) (act refresh) (at_rest w)))
          ≡ read server w)
        × (step (page as_event) (respond 0 0 server) (
              step
                (page as_event)
                (respond 0 1 server)
                (step (page as_event) (act refresh) (at_rest w)))
            ≡ read server w)
  unfolding step page on load_data run
  settled (ok a) (ok b) e f = (ground arith, ground arith)
  settled (ok a) (failed m) e f = (ground arith, ground arith)
  settled (failed m) (ok b) e f = (ground arith, ground arith)
  settled (failed m) (failed n) e f = (ground arith, ground arith)

  -- When nothing waits, a refresh sends two calls. Whatever the server answers to the two calls,
  -- and in either order, the events and the metrics of the page are its answers, or what stands in
  -- for an error; the page stops loading, and the state of the socket stays as it is.
  pub telemetry_round :
      (step (page as_event) (respond 0 1 server) (
          step
            (page as_event)
            (respond 0 0 server)
            (step (page as_event) (act refresh) (at_rest w)))
        ≡ read server w)
      × (step (page as_event) (respond 0 0 server) (
            step
              (page as_event)
              (respond 0 1 server)
              (step (page as_event) (act refresh) (at_rest w)))
          ≡ read server w)
  telemetry_round = settled (server (get_audit_logs 30)) (server get_metrics) refl refl
