-- ===== src/Workloads/Client.antt =====
-- src/app/pkg/client/client.go and src/app/cmd/client/main.go: one request, and the loop of them.
-- `indent` is `json.Indent`, where the text parses. The log lines are left out, since they go to
-- standard error.
use zerokey.Base.{
  ℕ, nat_eq, String, Bool, true, false, Option, none, some, List, [], ◌∷◌, template, value_or,
  if◌then◌else◌,
}

-- What becomes of a request: it cannot be built or sent, its answer cannot be read, or its answer
-- has this status and this body.
pub data Reply : Type 0 where
  unbuilt unsent unread : String → Reply
  replied : ℕ → String → Reply

-- The three results, and the lines on standard output.
pub record Executed : Type 0 where
  pub success : Bool
  pub body : String
  pub error : Option String
  pub printed : List String

-- A tick of the interval, with what becomes of its request, or the end of the context.
pub data Signal : Type 0 where
  tick : Reply → Signal
  done : Signal

abbrev failure : String → String → Executed
failure what err = record {
  success = false;
  body = "";
  error = some (template (what ∷ err ∷ []));
  printed = [];
}

module _ (indent : String → Option String) where
  abbrev format_indented_json : String → String
  format_indented_json raw = value_or raw (indent raw)

  unfoldable pub execute_request : Reply → Executed
  execute_request (unbuilt err) = failure "build request failed: " err
  execute_request (unsent err) = failure "request execution failed: " err
  execute_request (unread err) = failure "read response body failed: " err
  execute_request (replied status body) = record {
    success = nat_eq status 200;
    body = body;
    error = none;
    printed =
        "   ┌────────────────────────────────────────────────────────"
        ∷ template ("   │ " ∷ format_indented_json body ∷ [])
        ∷ "   └────────────────────────────────────────────────────────"
        ∷ [];
  }

  -- With `-once`, the exit code of the program.
  unfoldable pub run_once_code : Reply → ℕ
  unfolding execute_request
  run_once_code reply = if (execute_request reply).success then 0 else 1

  -- The requests of the loop, and whether it has ended.
  run_signals : List Signal → List Executed × Bool
  unfolding execute_request
  run_signals [] = ([], false)
  run_signals (done ∷ signals) = ([], true)
  run_signals (tick reply ∷ signals) =
      let (executed, ended) = run_signals signals in (execute_request reply ∷ executed, ended)

  unfoldable pub run_daemon : Reply → List Signal → List Executed × Bool
  unfolding run_signals execute_request
  run_daemon first signals =
      let (executed, ended) = run_signals signals in (execute_request first ∷ executed, ended)
