-- ===== src/Runtime/World/Rule.antt =====
-- An invariant of the running page, from what it has to survive: a handler starts, a waiting
-- function goes on or gets one more answer, a timer fires.
use zerokey.Base.{
  ℕ, ◌≡◌, refl, Option, none, some, List, [], ◌∷◌, get_elem?, Option-cases, inl, inr,
}
use zerokey.Runtime.Async.{Outcome, ok, failed, Promise, Results, Async}
use zerokey.Runtime.World.{
  Partial, Server, answer, complete, Waiting, on_answers, on_timer, World, run, resume,
  keep_waiting, after_answer, respond_to, fire_at, Page, Event, act, respond, fire, start, step,
  run_from, after,
}

module _ {S : Type 0} (I : World S → Type 0) (w : World S) where
  pub record Survives : Type 0 where
    pub same : I w
    pub goes_on :
        (i : ℕ) (ps : List Promise) (have : Partial ps)
        (k : Outcome (Results ps) → Async S (Unit {0})) (o : Outcome (Results ps))
        → get_elem? w.waiting i ≡ some (on_answers ps have k)
        → I (resume i (k o) w)
    pub waits_on :
        (i : ℕ) (ps : List Promise) (have more : Partial ps)
        (k : Outcome (Results ps) → Async S (Unit {0}))
        → get_elem? w.waiting i ≡ some (on_answers ps have k)
        → I (keep_waiting i (on_answers ps more k) w)
    pub fires :
        (i ms : ℕ) (m : Async S (Unit {0}))
        → get_elem? w.waiting i ≡ some (on_timer ms m)
        → I (resume i m w)

module _ {S : Type 0} (I : World S → Type 0) (w : World S) (h : Survives I w) where
  after_answer-rule :
      (i : ℕ) (ps : List Promise) (have : Partial ps)
      (k : Outcome (Results ps) → Async S (Unit {0})) (o : Outcome (Partial ps))
      → get_elem? w.waiting i ≡ some (on_answers ps have k)
      → I (after_answer i ps k o w)
  unfolding after_answer
  after_answer-rule i ps have k (failed message) e = h.goes_on i ps have k (failed message) e
  after_answer-rule i ps have k (ok more) e = elim (Option-cases (complete ps more)) [
    | inl missing ↦ rw (missing, after_answer) (h.waits_on i ps have more k e)
    | inr (results, full) ↦ rw (full, after_answer) (h.goes_on i ps have k (ok results) e)
  ]

  respond_to-rule :
      (t : Option (Waiting S)) (i j : ℕ) (server : Server)
      → get_elem? w.waiting i ≡ t
      → I (respond_to t i j server w)
  unfolding respond_to
  respond_to-rule none i j server e = h.same
  respond_to-rule (some (on_timer ms m)) i j server e = h.same
  respond_to-rule (some (on_answers ps have k)) i j server e =
      after_answer-rule i ps have k (answer ps have j server) e

  fire_at-rule : (t : Option (Waiting S)) (i : ℕ) → get_elem? w.waiting i ≡ t → I (fire_at t i w)
  unfolding fire_at
  fire_at-rule none i e = h.same
  fire_at-rule (some (on_answers ps have k)) i e = h.same
  fire_at-rule (some (on_timer ms m)) i e = h.fires i ms m e

module _ {S E : Type 0} (page : Page S E) (I : World S → Type 0) where
  -- An answer keeps what survives it, and so does a timer.
  pub respond-rule :
      (w : World S)
      → Survives I w
      → (i j : ℕ) (server : Server) → I (step page (respond i j server) w)
  unfolding step
  respond-rule w h i j server = respond_to-rule I w h _ i j server refl

  pub fire-rule : (w : World S) → Survives I w → (i : ℕ) → I (step page (fire i) w)
  unfolding step
  fire-rule w h i = fire_at-rule I w h _ i refl

  pub step-rule :
      (w : World S)
      → Survives I w
      → ((e : E) → I (run (page.on e w.state) w))
      → (e : Event E) → I (step page e w)
  unfolding step
  step-rule w h acts (act e) = acts e
  step-rule w h acts (respond i j server) = respond-rule w h i j server
  step-rule w h acts (fire i) = fire-rule w h i

  run_from-rule :
      ((w : World S) → I w → (e : Event E) → I (step page e w))
      → (w : World S) → I w
      → (es : List (Event E)) → I (run_from page w es)
  unfolding run_from
  run_from-rule keeps w h [] = h
  run_from-rule keeps w h (e ∷ es) = run_from-rule keeps (step page e w) (keeps w h e) es

  -- What holds after mounting and survives each event holds after any events.
  pub after-rule :
      I (start page)
      → ((w : World S) → I w → (e : Event E) → I (step page e w))
      → (es : List (Event E)) → I (after page es)
  unfolding after
  after-rule first keeps es = run_from-rule keeps (start page) first es
