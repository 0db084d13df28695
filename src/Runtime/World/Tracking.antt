-- ===== src/Runtime/World/Tracking.antt =====
-- A part of the state that only some events of the user set, at once: its value after any events is
-- read off the events.
pub mod Last
use mathlib.Core.Path.{subst}
use zerokey.Base.{
  ℕ, ◌≡◌, refl, ap, sym, ◌∙◌, ◌⊎◌, inl, inr, String, Option, some, List, [], ◌∷◌, ◌++◌, get_elem?,
  remove_at, All, All-append, All-remove_at, All-get_elem?, Bool, true, false, if◌then◌else◌,
}
use zerokey.Runtime.Async.{
  Outcome, Promise, Results, Effect, Async, pure, throw, update, emit, await, sleep,
}
use zerokey.Runtime.World.{
  Waiting, on_answers, on_timer, World, run, resume, keep_waiting, Page, Event, act, respond, fire,
  start, step, run_from, after,
}
use zerokey.Runtime.World.Rule.{Survives, respond-rule, fire-rule}

module _ {S B : Type 0} (part : S → B) where
  -- A function that never changes the part, whatever answers it gets.
  pub data Leaves : Async S (Unit {0}) → Type 0 where
    returns : (u : Unit {0}) → Leaves (pure u)
    throws : (message : String) → Leaves (throw message)
    updates :
        {f : S → S} {m : Async S (Unit {0})}
        → ((s : S) → part (f s) ≡ part s)
        → Leaves m
        → Leaves (update f m)
    emits : {e : Effect} {m : Async S (Unit {0})} → Leaves m → Leaves (emit e m)
    awaits :
        {ps : List Promise} {k : Outcome (Results ps) → Async S (Unit {0})}
        → ((o : Outcome (Results ps)) → Leaves (k o))
        → Leaves (await ps k)
    sleeps : {ms : ℕ} {m : Async S (Unit {0})} → Leaves m → Leaves (sleep ms m)

  abbrev LeavesWaiting : Waiting S → Type 0
  LeavesWaiting (on_answers ps have k) = (o : Outcome (Results ps)) → Leaves (k o)
  LeavesWaiting (on_timer ms m) = Leaves m

  -- The part has this value, and no waiting function changes it.
  pub record Has (b : B) (w : World S) : Type 0 where
    pub value : part w.state ≡ b
    pub waiting : All LeavesWaiting w.waiting

  run-Has : {m : Async S (Unit {0})} {b : B} → Leaves m → (w : World S) → Has b w → Has b (run m w)
  unfolding run
  run-Has (returns u) w h = h
  run-Has (throws message) w h = record { value = h.value; waiting = h.waiting }
  run-Has (updates {f} same d) w h =
      run-Has d (record w { state = f w.state })
        (record { value = same w.state ∙ h.value; waiting = h.waiting })
  run-Has (emits {e} d) w h =
      run-Has d (record w { effects = w.effects ++ e ∷ [] })
        (record { value = h.value; waiting = h.waiting })
  run-Has (awaits {ps} d) w h = record {
    value = h.value;
    waiting = All-append LeavesWaiting w.waiting _ h.waiting (d, tt);
  }
  run-Has (sleeps d) w h = record {
    value = h.value;
    waiting = All-append LeavesWaiting w.waiting _ h.waiting (d, tt);
  }

  resume-Has :
      {b : B} (w : World S)
      → Has b w
      → (i : ℕ) (m : Async S (Unit {0})) → Leaves m
      → Has b (resume i m w)
  unfolding resume
  resume-Has w h i m d =
      run-Has d (record w { waiting = remove_at i w.waiting })
        (record { value = h.value; waiting = All-remove_at LeavesWaiting i w.waiting h.waiting })

  Has-Survives : {b : B} (w : World S) → Has b w → Survives (Has b) w
  unfolding keep_waiting
  Has-Survives w h = record {
    same = h;
    goes_on = λ i ps have k o e.
        resume-Has w h i (k o) (All-get_elem? LeavesWaiting w.waiting i h.waiting e o);
    waits_on = λ i ps have more k e. record {
      value = h.value;
      waiting =
          All-append LeavesWaiting _ _ (All-remove_at LeavesWaiting i w.waiting h.waiting)
            (All-get_elem? LeavesWaiting w.waiting i h.waiting e, tt);
    };
    fires = λ i ms m e. resume-Has w h i m (All-get_elem? LeavesWaiting w.waiting i h.waiting e);
  }

  -- What a handler does to the part: nothing at any time, or one setting at once.
  pub data Turns (s : S) : Async S (Unit {0}) → B → Type 0 where
    leaves : {m : Async S (Unit {0})} → Leaves m → {b : B} → b ≡ part s → Turns s m b
    sets : {f : S → S} {b : B} → part (f s) ≡ b → Turns s (update f (pure tt)) b

  run-Turns :
      {m : Async S (Unit {0})} {b c : B} (w : World S)
      → Has b w
      → Turns w.state m c
      → Has c (run m w)
  unfolding run
  run-Turns w h (leaves d e) = run-Has d w (record { value = sym e; waiting = h.waiting })
  run-Turns w h (sets e) = record { value = e; waiting = h.waiting }

module _ {S B E : Type 0} (part : S → B) (page : Page S E) (turn : E → B → B) where
  -- The value after the events, by those of the user alone.
  unfoldable pub turned : B → List (Event E) → B
  turned b [] = b
  turned b (act e ∷ es) = turned (turn e b) es
  turned b (respond i j server ∷ es) = turned b es
  turned b (fire i ∷ es) = turned b es

  module _ (handles : (e : E) (s : S) → Turns part s (page.on e s) (turn e (part s))) where
    run_from-turned :
        (w : World S) (b : B) (es : List (Event E))
        → Has part b w
        → Has part (turned b es) (run_from page w es)
    unfolding turned run_from step
    run_from-turned w b [] h = h
    run_from-turned w b (act e ∷ es) h = run_from-turned (step page (act e) w) (turn e b) es (
        run-Turns part w h (
          subst (λ c. Turns part w.state (page.on e w.state) (turn e c)) h.value
            (handles e w.state)))
    run_from-turned w b (respond i j server ∷ es) h =
        run_from-turned (step page (respond i j server) w) b es
          (respond-rule page (Has part b) w (Has-Survives part w h) i j server)
    run_from-turned w b (fire i ∷ es) h =
        run_from-turned (step page (fire i) w) b es
          (fire-rule page (Has part b) w (Has-Survives part w h) i)

    -- After any events the part has the value to which the user's events turned it.
    pub after-turned :
        Leaves part page.mount
        → (es : List (Event E)) → part (after page es).state ≡ turned (part page.init) es
    unfolding after start
    after-turned mounts es =
        (run_from-turned (start page) (part page.init) es
          (run-Has part mounts _ (record { value = refl; waiting = tt }))).value
