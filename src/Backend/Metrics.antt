-- ===== src/Backend/Metrics.antt =====
-- dashboard/backend/app/main.py, `prometheus_http_middleware`: what is counted of the requests. The
-- counter of the library has a number for each of its labels, which `inc` raises by one; the
-- histogram of the durations is left out. A request that raises is not counted, since the
-- middleware does not come to its `inc`.
mod Tests
use zerokey.Base.{
  arith, ℕ, zero, suc, ◌+◌, ◌≡◌, refl, sym, ap, ◌∙◌, inl, inr, String, Bool, true, false, not, ◌&&◌,
  Option, none, some, List, [], ◌∷◌, str_eq, eq_iff, Bool-cases, bit, if◌then◌else◌,
}
use zerokey.Base.Text.{show_ℕ}
use zerokey.Api.Fetch.{Response}
use zerokey.Api.Call.{Method, get, post, delete, Options}
use zerokey.Backend.Events.{EventService}
use zerokey.Backend.Routes.{path_of, route}
use zerokey.Backend.App.{Environment, app}

pub record Labels : Type 0 where
  pub method : String
  pub path : String
  pub status_code : String

abbrev pub same_labels : Labels → Labels → Bool
same_labels l m =
    str_eq l.method m.method && str_eq l.path m.path && str_eq l.status_code m.status_code

abbrev pub Counter : Type 0
Counter = List (Labels × ℕ)

-- `counter.labels(…).inc()`
unfoldable pub inc : Labels → Counter → Counter
inc l [] = (l, 1) ∷ []
inc l ((m, n) ∷ rest) =
    let later = inc l rest in if same_labels l m then (m, suc n) ∷ rest else (m, n) ∷ later

-- The number of the labels, 0 before the first `inc`.
unfoldable pub value : Labels → Counter → ℕ
value l [] = 0
value l ((m, n) ∷ rest) = let later = value l rest in if same_labels l m then n else later

abbrev method_text : Method → String
method_text get = "GET"
method_text post = "POST"
method_text delete = "DELETE"

abbrev pub labels_of : Options → Response → Labels
unfolding show_ℕ path_of
labels_of request response = record {
  method = method_text request.method;
  path = path_of request.endpoint;
  status_code = show_ℕ response.status;
}

-- The metrics' own path is not counted.
abbrev pub is_counted : Options → Bool
unfolding path_of
is_counted request = not (str_eq (path_of request.endpoint) "/metrics")

unfoldable pub prometheus_http_middleware : Options → Option Response → Counter → Counter
unfolding labels_of is_counted inc
prometheus_http_middleware request none counter = counter
prometheus_http_middleware request (some response) counter =
    if is_counted request then inc (labels_of request response) counter else counter

-- A request and what it meets.
abbrev pub Request : Type 0
Request = Options × Environment

module _ (query : String → String → Option String) where
  -- The requests and their responses, none where one raises; the service and the counter after
  -- them.
  unfoldable pub handled :
      List Request
      → EventService
      → Counter
      → List (Options × Option Response) × (EventService × Counter)
  unfolding app prometheus_http_middleware
  handled [] s counter = ([], (s, counter))
  handled ((request, env) ∷ rest) s counter =
      let (response, after) = app env (route query request) s in
      let (exchanges, ended) =
        handled rest after (prometheus_http_middleware request response counter) in
      ((request, response) ∷ exchanges, ended)

-- A description of what is to be counted, apart from the code: `GET`, `POST` or `DELETE`, the path
-- of the request as it stands, and the digits of the status of a response that was given.
abbrev verb_is : Method → String → Bool
verb_is get s = str_eq s "GET"
verb_is post s = str_eq s "POST"
verb_is delete s = str_eq s "DELETE"

abbrev pub is_of : Labels → Options → Option Response → Bool
is_of l request none = false
is_of l request (some response) =
    not (str_eq (path_of request.endpoint) "/metrics")
    && (verb_is request.method l.method
        && (str_eq l.path (path_of request.endpoint)
            && str_eq l.status_code (show_ℕ response.status)))

-- How many of the exchanges are to be counted under these labels.
abbrev pub tally : Labels → List (Options × Option Response) → ℕ
tally l [] = 0
tally l ((request, response) ∷ rest) = bit (is_of l request response) + tally l rest

same_labels-true : (l m : Labels) → same_labels l m ≡ true → l ≡ m
same_labels-true l m h =
    let (named, codes) =
      both (str_eq l.method m.method && str_eq l.path m.path) (str_eq l.status_code m.status_code)
        h in
    let (methods, paths) = both (str_eq l.method m.method) (str_eq l.path m.path) named in
    alike ((eq_iff l.method m.method).0 methods) ((eq_iff l.path m.path).0 paths)
      ((eq_iff l.status_code m.status_code).0 codes)
  where
    both : (a b : Bool) → (a && b) ≡ true → (a ≡ true) × (b ≡ true)
    both true b e = (refl, e)
    both false b e = cc

    alike : l.method ≡ m.method → l.path ≡ m.path → l.status_code ≡ m.status_code → l ≡ m
    alike e f g = λ i. record { method = e i; path = f i; status_code = g i }

-- An `inc` raises the number of its labels alone.
value-inc : (l m : Labels) (c : Counter) → value l (inc m c) ≡ bit (same_labels l m) + value l c
unfolding value inc
value-inc l m [] = elim (Bool-cases (same_labels l m)) [
  | inl e ↦ rw e (omega arith)
  | inr e ↦ rw e (omega arith)
]
value-inc l m ((k, n) ∷ c) = elim (Bool-cases (same_labels m k)) [
  | inl here ↦
      rw here (rw (ap (same_labels l) (same_labels-true m k here)) (raised (same_labels l k)))
  | inr there ↦ rw there (elim (Bool-cases (same_labels l k)) [
    | inl first ↦ rw first (elim (Bool-cases (same_labels l m)) [
      | inl same ↦ cc (ap (λ v. same_labels v k) (same_labels-true l m same), first, there)
      | inr other ↦ rw other (omega arith)
    ])
    | inr later ↦ rw later (value-inc l m c)
  ])
]
  where
    raised : (b : Bool) → (if b then suc n else value l c) ≡ bit b + (if b then n else value l c)
    raised true = omega arith
    raised false = omega arith

and_assoc : (a b c : Bool) → ((a && b) && c) ≡ (a && (b && c))
and_assoc true b c = refl
and_assoc false b c = refl

same_labels-labels_of :
    (l : Labels) (request : Options) (response : Response)
    → same_labels l (labels_of request response) ≡ (
        verb_is request.method l.method
        && (str_eq l.path (path_of request.endpoint)
            && str_eq l.status_code (show_ℕ response.status)))
unfolding labels_of
same_labels-labels_of l request response =
    and_assoc (str_eq l.method (method_text request.method))
      (str_eq l.path (path_of request.endpoint)) (str_eq l.status_code (show_ℕ response.status))
    ∙ ap
        (λ b.
          b
          && (str_eq l.path (path_of request.endpoint)
              && str_eq l.status_code (show_ℕ response.status)))
        (spoken request.method)
  where
    spoken : (m : Method) → str_eq l.method (method_text m) ≡ verb_is m l.method
    spoken get = refl
    spoken post = refl
    spoken delete = refl

value-prometheus_http_middleware :
    (l : Labels) (request : Options) (response : Option Response) (c : Counter)
    → value l (prometheus_http_middleware request response c)
      ≡ bit (is_of l request response) + value l c
unfolding prometheus_http_middleware
value-prometheus_http_middleware l request none c = omega arith
value-prometheus_http_middleware l request (some response) c =
    elim (Bool-cases (is_counted request)) [
      | inl counted ↦
          rw (counted, sym (same_labels-labels_of l request response))
            (value-inc l (labels_of request response) c)
      | inr skipped ↦ rw skipped (omega arith)
    ]

-- After any requests, to any routes, the counter has risen for each of its labels by exactly the
-- number of the exchanges with that method, that path as it stands and that status; a request that
-- raises, which is answered with 500, is not counted, nor one for the metrics themselves.
pub value-handled :
    (query : String → String → Option String) (requests : List Request) (s : EventService)
    (counter : Counter) (l : Labels)
    → value l (handled query requests s counter).1.1
      ≡ value l counter + tally l (handled query requests s counter).0
unfolding handled
value-handled query [] s counter l = omega arith
value-handled query ((request, env) ∷ rest) s counter l =
    let (response, after) = app env (route query request) s in
    let next : Counter = prometheus_http_middleware request response counter in
    let rest_of = value-handled query rest after next l in
    let first = value-prometheus_http_middleware l request response counter in
    omega (arith, rest_of, first)
