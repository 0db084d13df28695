-- ===== src/Runtime/World/Safety.antt =====
-- What holds of the state, of all calls that are sent, and of the errors, whatever the events.
pub mod Rules
use zerokey.Base.{
  ℕ, ◌≡◌, refl, Option, some, List, [], ◌∷◌, ◌++◌, map, get_elem?, remove_at, All, All-append,
  All-remove_at, All-get_elem?,
}
use zerokey.Api.Call.{Call}
use zerokey.Runtime.Async.{
  Outcome, Promise, Results, Effect, Async, pure, update, emit, await, sleep,
}
use zerokey.Runtime.World.{
  Waiting, on_answers, on_timer, World, run, resume, keep_waiting, Page, Event, start, after,
}
use zerokey.Runtime.World.Rule.{Survives, step-rule, after-rule}

module _ {S : Type 0} (P : S → Type 0) (Q : Call → Type 0) where
  -- A function that throws nothing, keeps `P` whatever answers it gets and whatever other functions
  -- do while it waits, and sends only calls with `Q`.
  pub data Safe : Async S (Unit {0}) → Type 0 where
    returns : (u : Unit {0}) → Safe (pure u)
    updates :
        {f : S → S} {m : Async S (Unit {0})}
        → ((s : S) → P s → P (f s))
        → Safe m
        → Safe (update f m)
    -- three settings with no `await` between them, which are rendered together
    batches :
        {f g h : S → S} {m : Async S (Unit {0})}
        → ((s : S) → P s → P (h (g (f s))))
        → Safe m
        → Safe (update f (update g (update h m)))
    emits : {e : Effect} {m : Async S (Unit {0})} → Safe m → Safe (emit e m)
    awaits :
        {ps : List Promise} {k : Outcome (Results ps) → Async S (Unit {0})}
        → All (λ p. Q p.call) ps
        → ((o : Outcome (Results ps)) → Safe (k o))
        → Safe (await ps k)
    sleeps : {ms : ℕ} {m : Async S (Unit {0})} → Safe m → Safe (sleep ms m)

  abbrev SafeWaiting : Waiting S → Type 0
  SafeWaiting (on_answers ps have k) = (o : Outcome (Results ps)) → Safe (k o)
  SafeWaiting (on_timer ms m) = Safe m

  pub record IsSafe (w : World S) : Type 0 where
    pub state : P w.state
    pub waiting : All SafeWaiting w.waiting
    pub sent : All Q w.sent
    pub unhandled : w.unhandled ≡ []

  All-calls : (ps : List Promise) → All (λ p. Q p.call) ps → All Q (map (λ p. p.call) ps)
  All-calls [] h = tt
  All-calls (p ∷ ps) h = (h.0, All-calls ps h.1)

  run-IsSafe : {m : Async S (Unit {0})} → Safe m → (w : World S) → IsSafe w → IsSafe (run m w)
  unfolding run
  run-IsSafe (returns u) w s = s
  run-IsSafe (updates {f} keeps d) w s =
      run-IsSafe d (record w { state = f w.state })
        (record {
          state = keeps w.state s.state;
          waiting = s.waiting;
          sent = s.sent;
          unhandled = s.unhandled;
        })
  run-IsSafe (batches {f} {g} {h} keeps d) w s =
      run-IsSafe d (record w { state = h (g (f w.state)) })
        (record {
          state = keeps w.state s.state;
          waiting = s.waiting;
          sent = s.sent;
          unhandled = s.unhandled;
        })
  run-IsSafe (emits {e} d) w s =
      run-IsSafe d (record w { effects = w.effects ++ e ∷ [] })
        (record { state = s.state; waiting = s.waiting; sent = s.sent; unhandled = s.unhandled })
  run-IsSafe (awaits {ps} q d) w s = record {
    state = s.state;
    waiting = All-append SafeWaiting w.waiting _ s.waiting (d, tt);
    sent = All-append Q w.sent _ s.sent (All-calls ps q);
    unhandled = s.unhandled;
  }
  run-IsSafe (sleeps d) w s = record {
    state = s.state;
    waiting = All-append SafeWaiting w.waiting _ s.waiting (d, tt);
    sent = s.sent;
    unhandled = s.unhandled;
  }

  resume-IsSafe :
      (w : World S) → IsSafe w → (i : ℕ) (m : Async S (Unit {0})) → Safe m → IsSafe (resume i m w)
  unfolding resume
  resume-IsSafe w s i m d =
      run-IsSafe d (record w { waiting = remove_at i w.waiting })
        (record {
          state = s.state;
          waiting = All-remove_at SafeWaiting i w.waiting s.waiting;
          sent = s.sent;
          unhandled = s.unhandled;
        })

  IsSafe-Survives : (w : World S) → IsSafe w → Survives IsSafe w
  unfolding keep_waiting
  IsSafe-Survives w s = record {
    same = s;
    goes_on = λ i ps have k o e.
        resume-IsSafe w s i (k o) (All-get_elem? SafeWaiting w.waiting i s.waiting e o);
    waits_on = λ i ps have more k e. record {
      state = s.state;
      waiting =
          All-append SafeWaiting _ _ (All-remove_at SafeWaiting i w.waiting s.waiting)
            (All-get_elem? SafeWaiting w.waiting i s.waiting e, tt);
      sent = s.sent;
      unhandled = s.unhandled;
    };
    fires = λ i ms m e. resume-IsSafe w s i m (All-get_elem? SafeWaiting w.waiting i s.waiting e);
  }

  pub record Sound {E : Type 0} (page : Page S E) : Type 0 where
    pub init : P page.init
    pub mounts : Safe page.mount
    pub handles : (e : E) (s : S) → P s → Safe (page.on e s)

  pub after-IsSafe :
      {E : Type 0} (page : Page S E) → Sound page → (es : List (Event E)) → IsSafe (after page es)
  unfolding start
  after-IsSafe page h =
      after-rule page IsSafe
        (run-IsSafe h.mounts _
          (record { state = h.init; waiting = tt; sent = tt; unhandled = refl }))
        (λ w s.
          step-rule page IsSafe w (IsSafe-Survives w s)
            (λ e. run-IsSafe (h.handles e w.state s.state) w s))
