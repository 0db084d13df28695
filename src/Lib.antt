-- ===== src/Lib.antt =====
-- ZeroKey's dashboard, dashboard/frontend: the pages by which an operator registers SPIFFE workload
-- entries, mints join tokens, runs the mTLS test flow and reads the OIDC documents. Each page keeps
-- its state in React hooks, and its handlers are asynchronous functions that call the backend by
-- the client in src/lib/api.ts. What makes them hard is what happens between a call and its answer.
-- On the other side of the calls stands the backend, dashboard/backend, in Python; app holds the two
-- workloads in Go whose meeting the dashboard shows.
--
-- The parts, by file (paths from dashboard/frontend/src, those of Backend from
-- dashboard/backend/app, those of Workloads from app):
--   Base, Base/*           shared names, Boolean tests, lists, integers
--   Base/Text, Base/Text/* what the pages use of JavaScript's strings: `trim`, `includes`, the
--                          decimal text of an integer, `parseInt`; Base/Text/Split is what the
--                          backend uses of Python's: `split`, `splitlines`, and a line with a colon
--   Api/Types              lib/api.ts, the interfaces, field by field
--   Api/Call               lib/api.ts, the object `api`: `Call` has a constructor for each function,
--                          `Answer` is the type argument of its `fetchJSON`, and `options_of` is the
--                          request
--   Api/Fetch              lib/api.ts, `fetchJSON`: `fetch_json`
--   Runtime/Async          an `async` function as data: `await` of one promise or of `Promise.all`,
--                          `try`/`catch`/`finally`, a state setter, an effect, a timer
--   Runtime/World          a running page: its state, the functions that wait, the calls sent, the
--                          effects; `step` is one event of the browser, `after` any sequence of them
--   Runtime/World/Flags    what a flag such as `loading` says of the functions that wait
--   Runtime/World/Safety   what every state and every call of a page satisfies
--   Runtime/World/Tracking how a part of a page's state follows from its events
--   Runtime/World/Settling the answers and timers after which nothing of a page waits
--   Entries, Entries/*     app/entries/page.tsx: `load_entries` is `loadEntries`, `handle_create` is
--                          `handleCreate`, `handle_delete` is `handleDelete`, `filtered_entries` is
--                          `filteredEntries`; `on` and `in_form` are the handlers of the inputs and
--                          buttons; Entries/View is the table and the modal
--   Agents, Agents/*       app/agents/page.tsx: `loadAgents`, `handleMintToken`, `copyToClipboard`
--   Playground, …/*        app/playground/page.tsx: `handleExecuteTest`, `handleEvaluatePolicy`
--   Oidc, Oidc/*           app/oidc/page.tsx: `loadOIDC`, `copyText`
--   Overview, Overview/*   app/page.tsx: `loadData`; a firing of its interval is the event `tick`
--   Observability, …/*     app/observability/page.tsx: `loadData`, `ws.onmessage`
--   Audit                  the rows of audit events, which these two pages show alike
--   Topology, Topology/*   components/TopologyGraph.tsx: `nodes`, `activeNode`, the clicks,
--                          the cards and the details
--   Header, Header/Status  components/Header.tsx: the status of the socket
--   Navbar                 components/Navbar.tsx: the items and the marked one
--   Backend/Events         services/event_service.py, `EventService`: the audit events and the
--                          sockets; Events/History compares it with a list that forgets nothing;
--                          Events/Sending is a broadcast turn by turn, with what other tasks do to
--                          the set of the sockets between two turns of its loop
--   Backend/Socket         api/ws.py, `websocket_events`: the handlers of the sockets and the
--                          broadcasts, one step at a time, and what they send; Socket/Rounds follows
--                          an event to the page
--   Backend/Schemas        models/schemas.py, the requests; Schemas/Reading reads what the client
--                          prints
--   Backend/Routes         the routes of api/*.py and main.py; Routes/Reaching follows each call of
--                          the client to its handler
--   Backend/Handlers       what the handlers of api/*.py check before a service is asked
--   Backend/App            main.py: every route to its response and to the events it records, with
--                          what other tasks do while the broadcast of an event waits;
--                          App/Dumps are the answers of models/schemas.py as JSON values; App/Client
--                          puts the client, the routes, the handlers and the services together, and
--                          App/Decisions, App/Feed and App/Removal the playground, the observability
--                          page and the page of the entries in front of them; App/Casting is a cast
--                          for the concrete runs
--   Backend/Spire          services/spire_service.py: the commands and their arguments;
--                          Patterns are its regular expressions, Spire/Listing and Spire/Nodes read
--                          the entries and the agents from the output of the commands,
--                          Spire/Flags describes the arguments on their own
--   Backend/Registration   a registration from the page to the command, and the listing back
--   Backend/Oidc           services/oidc_service.py; Oidc/Passing follows what the provider prints
--   Backend/Summary        api/overview.py
--   Backend/Rotation       main.py, `_telemetry_background_loop`: the countdown of a lifetime
--   Backend/Metrics        main.py, `prometheus_http_middleware`: the counter of the requests
--   Backend/Policy, Flow   services/flow_service.py: `evaluate_policy`, `execute_test_flow`
--   Workloads/Config       pkg/config/config.go
--   Workloads/Identity     pkg/spiffe/spiffe.go, and the library go-spiffe as `SpiffeLibrary`
--   Workloads/Server       pkg/server/handler.go
--   Workloads/Client       pkg/client/client.go
--   Workloads/Mutual       cmd/server/main.go and cmd/client/main.go: the two programs and the
--                          connection between them
--
-- How a page runs. A handler is given the state of the last rendering and runs up to its first
-- `await`; the answers of the waiting functions and the timers come as later events, in any order
-- and interleaved with those of the user. A page renders between two events, so the handler of an
-- event sees every earlier change of the state. A disabled button and a form that the browser finds
-- invalid start nothing. An answer comes from `Server`, which gives each call a value or an error;
-- it may be another one at each event.
--
-- Parameters, since their code is not in the repository: `to_lower_case` (JavaScript's
-- `toLowerCase`), `stringify` (`JSON.stringify` of a key), `number_text` (the text of a fraction),
-- `local_time` (`toLocaleTimeString` of a timestamp), `null_message` (the message of the error that
-- reading a member of `null` throws), and the casts of a parsed body and of an announced event
-- (`cast`, `as_event`) to their types, which are unchecked in TypeScript: of them a theorem asks at
-- most that they give back what was sent; `parse` (`JSON.parse`). On the side of the backend: `Lax`
-- (what pydantic takes for an integer or a truth value, with what it promises of a value that
-- stands as it is declared), `query` (the framework's reading of a parameter of the query), `sends`
-- (whether a socket can be written to), `Environment` (what a request meets: the settings, the
-- errors of a refused validation, the answers where no route fits and where a request raises, the
-- phrase of a status, and what other tasks do while its broadcast waits), `Surroundings` (the time,
-- the trust domain, the run of the client container, and what the regular expression and the JSON
-- parser find in its output), `Host` (the run of a command, the settings and the file system, and
-- Python's `lower`, `int` and `repr`), and `Provider` (the HTTP client and the settings of the OIDC
-- service). For the workloads: `SpiffeLibrary` (the SPIFFE IDs and the connection of the library
-- go-spiffe, with what it documents of them), `getenv`, `url_of`, `reaches`, `indent` and `print`
-- (the environment, the parts of a URL, the network, `json.Indent` and the JSON encoder).
--
-- Bounds and fuel. Numbers are integers of any size, where JavaScript rounds above 2 ^ 53. The text
-- of a natural number n is made with n + 1 steps of fuel, one for each digit, and n has at most n +
-- 1 digits. After what happens meanwhile, the broadcast of a request's event has a turn for each
-- socket that is still to come and one for the socket that it waits for, and no turn of an
-- undisturbed loop adds a socket to those.
--
-- Not modelled: the styles, icons and fixed texts of the pages; a failing clipboard; an answer that
-- comes after the page was left; the headers and the base of the URL in `fetchJSON`; of the backend
-- the other metrics, which nothing reads, and, but for the broadcast of its event, what other
-- requests do between two steps of one; of the workloads the waiting for the agent, the shutdown
-- and the log; the configuration of the deployment.
pub mod Base
pub mod Api
pub mod Runtime
pub mod Entries
pub mod Agents
pub mod Playground
pub mod Oidc
pub mod Overview
pub mod Observability
pub mod Audit
pub mod Topology
pub mod Header
pub mod Navbar
pub mod Backend
pub mod Workloads
