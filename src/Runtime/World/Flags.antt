-- ===== src/Runtime/World/Flags.antt =====
-- A Boolean flag of a page that its functions raise before they wait and lower when they end, as
-- `setLoading(true) … finally { setLoading(false) }` does. Where the flag also bars a second start
-- (`strict`), it counts the functions that hold it.
pub mod Rules
use mathlib.Core.Path.{subst}
use zerokey.Base.{
  bit, ℕ, ◌+◌, ◌≤◌, ◌≡◌, refl, Bool, String, true, false, Option, none, some, List, [], ◌∷◌, ◌++◌,
  arith, get_elem?, remove_at, All, any, Option-cases, inl, inr, if◌then◌else◌,
}
use zerokey.Api.Call.{Call}
use zerokey.Runtime.Async.{
  Outcome, ok, failed, Promise, Results, Effect, Async, pure, throw, update, emit, await, sleep,
}
use zerokey.Runtime.World.{
  Waiting, on_answers, on_timer, opens, in_flight, World, run, resume, keep_waiting, Page, Event,
  start, step, after,
}
use zerokey.Runtime.World.Rule.{Survives, step-rule, after-rule}
use zerokey.Runtime.World.Holders.{
  count, count-append, Paired, Paired-append, Paired-take, Paired-nil,
}
use zerokey.Runtime.World.Balance.{
  Balance, no_holders_lem, bit-le-one, lowest-Balance, idle-Balance, acquired-Balance,
  raised-Balance, lowered-Balance,
}

module _ {S : Type 0} (strict : Bool) (guarded : Call → Bool) (flag : S → Bool) where
  -- `Tidy held m`: a function that now holds the flag, or does not, ends without holding it,
  -- whatever answers it gets, and has guarded calls open only while it holds it.
  pub data Tidy : Bool → Async S (Unit {0}) → Type 0 where
    returns : (u : Unit {0}) → Tidy false (pure u)
    throws : (message : String) → Tidy false (throw message)
    raises :
        {held : Bool} {f : S → S} {m : Async S (Unit {0})}
        → (strict ≡ true → held ≡ true)
        → ((s : S) → flag (f s) ≡ true)
        → Tidy true m
        → Tidy held (update f m)
    lowers :
        {held : Bool} {f : S → S} {m : Async S (Unit {0})}
        → (strict ≡ true → held ≡ true)
        → ((s : S) → flag (f s) ≡ false)
        → Tidy false m
        → Tidy held (update f m)
    spares :
        {held : Bool} {f : S → S} {m : Async S (Unit {0})}
        → ((s : S) → flag (f s) ≡ flag s)
        → Tidy held m
        → Tidy held (update f m)
    emits : {held : Bool} {e : Effect} {m : Async S (Unit {0})} → Tidy held m → Tidy held (emit e m)
    awaits :
        {held : Bool} {ps : List Promise} {k : Outcome (Results ps) → Async S (Unit {0})}
        → (held ≡ false → All (λ p. guarded p.call ≡ false) ps)
        → ((o : Outcome (Results ps)) → Tidy held (k o))
        → Tidy held (await ps k)
    sleeps : {held : Bool} {ms : ℕ} {m : Async S (Unit {0})} → Tidy held m → Tidy held (sleep ms m)

  abbrev pub TidyWaiting : Bool → Waiting S → Type 0
  TidyWaiting held (on_answers ps have k) =
      (held ≡ false → All (λ p. guarded p.call ≡ false) ps)
      × ((o : Outcome (Results ps)) → Tidy held (k o))
  TidyWaiting held (on_timer ms m) = Tidy held m

  pub record Balanced (w : World S) : Type 0 where
    pub marks : List Bool
    pub tidy : Paired TidyWaiting marks w.waiting
    pub balance : Balance strict (count marks) (flag w.state)

  -- A handler that may start in a state: it holds nothing, or it raises the flag where it is down.
  pub data Starts (s : S) : Async S (Unit {0}) → Type 0 where
    idle : {m : Async S (Unit {0})} → Tidy false m → Starts s m
    acquires :
        {f : S → S} {m : Async S (Unit {0})}
        → flag s ≡ false
        → ((t : S) → flag (f t) ≡ true)
        → Tidy true m
        → Starts s (update f m)

  run-Balanced :
      {held : Bool} {m : Async S (Unit {0})}
      → Tidy held m
      → (w : World S) (hs : List Bool) → Paired TidyWaiting hs w.waiting
      → Balance strict (count hs + bit held) (flag w.state)
      → Balanced (run m w)
  unfolding run
  run-Balanced (returns u) w hs p b = record {
    marks = hs;
    tidy = p;
    balance = lowest-Balance strict _ _ b;
  }
  run-Balanced (throws message) w hs p b = record {
    marks = hs;
    tidy = p;
    balance = lowest-Balance strict _ _ b;
  }
  run-Balanced (raises {held} {f} h up d) w hs p b =
      run-Balanced d (record w { state = f w.state }) hs p
        (raised-Balance strict (count hs) held (flag w.state) _ h (up w.state) b)
  run-Balanced (lowers {held} {f} h down d) w hs p b =
      run-Balanced d (record w { state = f w.state }) hs p
        (lowered-Balance strict (count hs) held (flag w.state) _ h (down w.state) b)
  run-Balanced (spares {held} {f} eq d) w hs p b =
      run-Balanced d (record w { state = f w.state }) hs p (rw (eq w.state) b)
  run-Balanced (emits {e} d) w hs p b =
      run-Balanced d (record w { effects = w.effects ++ e ∷ [] }) hs p b
  run-Balanced (awaits {held} free d) w hs p b = record {
    marks = hs ++ held ∷ [];
    tidy = Paired-append TidyWaiting hs w.waiting p (free, d);
    balance = rw (count-append hs held) b;
  }
  run-Balanced (sleeps {held} d) w hs p b = record {
    marks = hs ++ held ∷ [];
    tidy = Paired-append TidyWaiting hs w.waiting p d;
    balance = rw (count-append hs held) b;
  }

  -- A function that goes on takes its mark along.
  resume-Balanced :
      (w : World S)
      → Balanced w
      → (i : ℕ) (t : Waiting S) (m : Async S (Unit {0})) → get_elem? w.waiting i ≡ some t
      → ((held : Bool) → TidyWaiting held t → Tidy held m)
      → Balanced (resume i m w)
  unfolding resume
  resume-Balanced w b i t m e d =
      let (held, r, p, c) = Paired-take TidyWaiting b.marks w.waiting i t b.tidy e in
      run-Balanced (d held r) (record w { waiting = remove_at i w.waiting }) (remove_at i b.marks) p
        (rw (← c) b.balance)

  keep_waiting-Balanced :
      (w : World S)
      → Balanced w
      → (i : ℕ) (t u : Waiting S) → get_elem? w.waiting i ≡ some t
      → ((held : Bool) → TidyWaiting held t → TidyWaiting held u)
      → Balanced (keep_waiting i u w)
  unfolding keep_waiting
  keep_waiting-Balanced w b i t u e d =
      let (held, r, p, c) = Paired-take TidyWaiting b.marks w.waiting i t b.tidy e in
      record {
        marks = remove_at i b.marks ++ held ∷ [];
        tidy = Paired-append TidyWaiting _ _ p (d held r);
        balance = rw (count-append (remove_at i b.marks) held, ← c) b.balance;
      }

  Balanced-Survives : (w : World S) → Balanced w → Survives Balanced w
  Balanced-Survives w b = record {
    same = b;
    goes_on = λ i ps have k o e. resume-Balanced w b i _ (k o) e (λ held r. r.1 o);
    waits_on =
        λ i ps have more k e. keep_waiting-Balanced w b i _ (on_answers ps more k) e (λ held r. r);
    fires = λ i ms m e. resume-Balanced w b i _ m e (λ held r. r);
  }

  Starts-Balanced :
      (w : World S) → Balanced w → (m : Async S (Unit {0})) → Starts w.state m → Balanced (run m w)
  unfolding run
  Starts-Balanced w b m (idle d) =
      run-Balanced d w b.marks b.tidy (idle-Balance strict _ _ b.balance)
  Starts-Balanced w b m (acquires {f} down up d) =
      run-Balanced d (record w { state = f w.state }) b.marks b.tidy
        (acquired-Balance strict _ _ _ down (up w.state) b.balance)

  opens_of_free :
      (ps : List Promise)
      → All (λ p. guarded p.call ≡ false) ps
      → any (λ p. guarded p.call) ps ≡ false
  opens_of_free [] h = refl
  opens_of_free (p ∷ ps) h = rw (h.0) (opens_of_free ps h.1)

  opens-le-held :
      (held : Bool) (t : Waiting S) → TidyWaiting held t → bit (opens guarded t) ≤ bit held
  opens-le-held true (on_answers ps have k) r = bit-le-one _
  opens-le-held false (on_answers ps have k) r = rw (opens_of_free ps (r.0 refl)) (omega arith)
  opens-le-held held (on_timer ms m) r = omega arith

  Paired-in_flight :
      (hs : List Bool) (ts : List (Waiting S))
      → Paired TidyWaiting hs ts
      → in_flight guarded ts ≤ count hs
  Paired-in_flight [] [] p = omega arith
  Paired-in_flight (h ∷ hs) (t ∷ ts) p =
      omega (arith, opens-le-held h t p.0, Paired-in_flight hs ts p.1)
  Paired-in_flight [] (_ ∷ _) p = absurd p
  Paired-in_flight (_ ∷ _) [] p = absurd p

  -- A page whose handlers all keep the flag tidy.
  pub record Disciplined {E : Type 0} (page : Page S E) : Type 0 where
    pub held_at_mount : Bool
    pub mounts : Tidy held_at_mount page.mount
    pub mount_balance : Balance strict (0 + bit held_at_mount) (flag page.init)
    pub starts : (e : E) (s : S) → Starts s (page.on e s)

  module _ {E : Type 0} (page : Page S E) (d : Disciplined page) where
    pub after-Balanced : (es : List (Event E)) → Balanced (after page es)
    unfolding start
    after-Balanced =
        after-rule page Balanced (run-Balanced d.mounts _ [] tt d.mount_balance) (λ w b.
          step-rule page Balanced w (Balanced-Survives w b)
            (λ e. Starts-Balanced w b _ (d.starts e w.state)))

    -- When nothing waits, the flag is down.
    pub idle-lowered :
        (es : List (Event E)) → (after page es).waiting ≡ [] → flag (after page es).state ≡ false
    idle-lowered es e =
        let b = after-Balanced es in
        no_holders_lem strict (count b.marks) _ b.balance
          (Paired-nil TidyWaiting b.marks _ b.tidy e)

    -- At most one guarded call is open, and only while the flag is up.
    pub in_flight-le-flag :
        (es : List (Event E))
        → strict ≡ true
        → in_flight guarded (after page es).waiting ≤ bit (flag (after page es).state)
    in_flight-le-flag es e =
        let b = after-Balanced es in
        let n = subst (λ s. Balance s (count b.marks) (flag (after page es).state)) e b.balance in
        omega (arith, n, Paired-in_flight b.marks _ b.tidy)
