-- ===== src/Runtime/World.antt =====
-- The running page: its state, the functions that wait, and what it has sent out. An event of the
-- browser starts a handler, answers one promise of a waiting function, or fires a timer.
mod Rule
mod Holders
mod Answering
mod Balance
pub mod Tracking
pub mod Settling
pub mod Flags
pub mod Safety
use zerokey.Base.{
  ℕ, zero, suc, ◌+◌, Bool, false, bit, any, String, Option, none, some, List, [], ◌∷◌, ◌++◌, map,
  get_elem?, remove_at,
}
use zerokey.Api.Call.{Call, Answer}
use zerokey.Runtime.Async.{
  Outcome, ok, failed, Promise, Results, Effect, Async, pure, throw, update, emit, await, sleep,
}

-- The answers that have come so far.
abbrev pub Partial : List Promise → Type 0
Partial [] = Unit
Partial (p ∷ ps) = Option (Answer p.call) × Partial ps

abbrev pub unanswered : (ps : List Promise) → Partial ps
unanswered [] = tt
unanswered (p ∷ ps) = (none, unanswered ps)

-- How the other side answers each call when it is asked.
abbrev pub Server : Type 0
Server = (c : Call) → Outcome (Answer c)

-- The settled value of one promise, after its `.catch`.
abbrev pub recovered : (p : Promise) → Outcome (Answer p.call) → Outcome (Answer p.call)
recovered p (ok a) = ok a
recovered p (failed message) = elim p.recover [ none ↦ failed message | some a ↦ ok a ]

abbrev pub fill : {A B : Type 0} → Outcome A → B → Outcome (Option A × B)
fill (ok a) rest = ok (some a, rest)
fill (failed message) rest = failed message

abbrev pub beside : {A B : Type 0} → A → Outcome B → Outcome (A × B)
beside a (ok b) = ok (a, b)
beside a (failed message) = failed message

-- The server answers the promise at a position; one that has settled stays as it is. A rejection
-- rejects the whole.
pub answer : (ps : List Promise) → Partial ps → ℕ → Server → Outcome (Partial ps)
answer [] have j server = ok have
answer (p ∷ ps) (none, have) zero server = fill (recovered p (server p.call)) have
answer (p ∷ ps) (some a, have) zero server = ok (some a, have)
answer (p ∷ ps) (here, have) (suc j) server = beside here (answer ps have j server)

abbrev pub both : {A B : Type 0} → Option A → Option B → Option (A × B)
both none b = none
both (some a) none = none
both (some a) (some b) = some (a, b)

-- All the values, once none is missing.
pub complete : (ps : List Promise) → Partial ps → Option (Results ps)
complete [] have = some tt
complete (p ∷ ps) (here, have) = both here (complete ps have)

pub data Waiting (S : Type 0) : Type 0 where
  on_answers :
      (ps : List Promise) → Partial ps → (Outcome (Results ps) → Async S (Unit {0})) → Waiting S
  on_timer : ℕ → Async S (Unit {0}) → Waiting S

pub record World (S : Type 0) : Type 0 where
  pub state : S
  pub waiting : List (Waiting S)
  pub sent : List Call
  pub effects : List Effect
  -- the errors that no `catch` took
  pub unhandled : List String

-- Whether a waiting function has a call of a kind open, and how many have.
abbrev pub opens : {S : Type 0} → (Call → Bool) → Waiting S → Bool
opens kind (on_answers ps have k) = any (λ p. kind p.call) ps
opens kind (on_timer ms m) = false

abbrev pub in_flight : {S : Type 0} → (Call → Bool) → List (Waiting S) → ℕ
in_flight kind [] = 0
in_flight kind (t ∷ ts) = bit (opens kind t) + in_flight kind ts

module _ {S : Type 0} where
  -- A function runs until it ends or waits.
  unfoldable pub run : Async S (Unit {0}) → World S → World S
  run (pure _) w = w
  run (throw message) w = record w { unhandled = w.unhandled ++ message ∷ [] }
  run (update f m) w = run m (record w { state = f w.state })
  run (emit e m) w = run m (record w { effects = w.effects ++ e ∷ [] })
  run (await ps k) w = record w {
    waiting = w.waiting ++ on_answers ps (unanswered ps) k ∷ [];
    sent = w.sent ++ map (λ p. p.call) ps;
  }
  run (sleep ms m) w = record w { waiting = w.waiting ++ on_timer ms m ∷ [] }

  -- The function at position `i` has stopped waiting, and goes on as `m`.
  unfoldable pub resume : ℕ → Async S (Unit {0}) → World S → World S
  unfolding run
  resume i m w = run m (record w { waiting = remove_at i w.waiting })

  -- The function at position `i` goes on waiting, with more answers.
  unfoldable pub keep_waiting : ℕ → Waiting S → World S → World S
  keep_waiting i t w = record w { waiting = remove_at i w.waiting ++ t ∷ [] }

  after_answer :
      ℕ
      → (ps : List Promise) → (Outcome (Results ps) → Async S (Unit {0}))
      → Outcome (Partial ps)
      → World S
      → World S
  unfolding resume keep_waiting complete
  after_answer i ps k (failed message) w = resume i (k (failed message)) w
  after_answer i ps k (ok have) w = elim (complete ps have) [
    | none ↦ keep_waiting i (on_answers ps have k) w
    | some results ↦ resume i (k (ok results)) w
  ]

  respond_to : Option (Waiting S) → ℕ → ℕ → Server → World S → World S
  unfolding answer after_answer
  respond_to none i j server w = w
  respond_to (some (on_timer ms m)) i j server w = w
  respond_to (some (on_answers ps have k)) i j server w =
      after_answer i ps k (answer ps have j server) w

  fire_at : Option (Waiting S) → ℕ → World S → World S
  unfolding resume
  fire_at none i w = w
  fire_at (some (on_answers ps have k)) i w = w
  fire_at (some (on_timer ms m)) i w = resume i m w

-- A page: its first state, the effect of its mounting, and its handler of each event of the user,
-- which sees the state that was last rendered.
pub record Page (S E : Type 0) : Type 0 where
  pub init : S
  pub mount : Async S (Unit {0})
  pub on : E → S → Async S (Unit {0})

pub data Event (E : Type 0) : Type 0 where
  act : E → Event E
  -- the server answers promise `j` of the function that waits at position `i`
  respond : (i j : ℕ) → Server → Event E
  -- the timer at position `i` fires
  fire : (i : ℕ) → Event E

module _ {S E : Type 0} (page : Page S E) where
  unfoldable pub start : World S
  unfolding run
  start =
      run page.mount
        (record { state = page.init; waiting = []; sent = []; effects = []; unhandled = [] })

  unfoldable pub step : Event E → World S → World S
  unfolding respond_to fire_at run
  step (act e) w = run (page.on e w.state) w
  step (respond i j server) w = respond_to (get_elem? w.waiting i) i j server w
  step (fire i) w = fire_at (get_elem? w.waiting i) i w

  pub run_from : World S → List (Event E) → World S
  run_from w [] = w
  run_from w (e ∷ es) = run_from (step e w) es

  -- The page after any events, in any order.
  unfoldable pub after : List (Event E) → World S
  unfolding run_from start
  after es = run_from start es
