-- ===== src/Runtime/World/Settling.antt =====
-- A page comes to rest: the server can answer, and the timers can fire, until nothing waits.
use zerokey.Base.{
  arith, ℕ, zero, suc, ◌≡◌, refl, ap, ◌∙◌, ◌⊎◌, inl, inr, some, List, [], ◌∷◌, ◌++◌, get_elem?,
  remove_at, length, length-append, All, All-append, Option-cases,
}
use zerokey.Runtime.Async.{
  Outcome, ok, failed, Promise, Results, Async, pure, throw, update, emit, await, sleep,
}
use zerokey.Runtime.World.{
  Partial, unanswered, Server, answer, complete, Waiting, on_answers, on_timer, World, run, resume,
  keep_waiting, after_answer, respond_to, fire_at, Page, Event, act, respond, fire, step, run_from,
  start, after,
}
use zerokey.Runtime.World.Answering.{missing, answer-complete, Advances, some-Advances}

module _ {A : Type 0} where
  get_elem?-last : (ts : List A) (t : A) → get_elem? (ts ++ t ∷ []) (length ts) ≡ some t
  get_elem?-last [] t = refl
  get_elem?-last (s ∷ ts) t = get_elem?-last ts t

  remove_at-last : (ts : List A) (t : A) → remove_at (length ts) (ts ++ t ∷ []) ≡ ts
  remove_at-last [] t = refl
  remove_at-last (s ∷ ts) t = ap (λ r. s ∷ r) (remove_at-last ts t)

  -- A list is empty, or has a last element.
  last-cases : (ts : List A) → (ts ≡ []) ⊎ ((us : List A) × (t : A) × (ts ≡ us ++ t ∷ []))
  last-cases [] = inl refl
  last-cases (s ∷ ts) = elim (last-cases ts) [
    | inl e ↦ inr ([], s, ap (λ r. s ∷ r) e)
    | inr (us, t, e) ↦ inr (s ∷ us, t, ap (λ r. s ∷ r) e)
  ]

-- An answer of this server, or a timer: what comes without the user.
abbrev pub Comes : {E : Type 0} → Server → Event E → Type 0
Comes server (act e) = ⊥
Comes server (respond i j other) = other ≡ server
Comes server (fire i) = Unit

module _ {S E : Type 0} (page : Page S E) (server : Server) where
  -- Answers and timers lead from a world to one where exactly `ts` wait.
  abbrev pub Leads : List (Waiting S) → World S → Type 0
  Leads ts w = (es : List (Event E)) × All (Comes server) es × ((run_from page w es).waiting ≡ ts)

  run_from-append :
      (w : World S) (es fs : List (Event E))
      → run_from page w (es ++ fs) ≡ run_from page (run_from page w es) fs
  unfolding run_from
  run_from-append w [] fs = refl
  run_from-append w (e ∷ es) fs = run_from-append (step page e w) es fs

  here : (ts : List (Waiting S)) (w : World S) → w.waiting ≡ ts → Leads ts w
  unfolding run_from
  here ts w e = ([], tt, e)

  first :
      (e : Event E)
      → Comes server e
      → (ts : List (Waiting S)) (w v : World S) → step page e w ≡ v
      → Leads ts v
      → Leads ts w
  unfolding run_from
  first e c ts w v same (es, cs, h) =
      (e ∷ es, (c, cs), ap (λ u. (run_from page u es).waiting) same ∙ h)

  module _ (ts : List (Waiting S)) where
    Continues : Async S (Unit {0}) → Type 0
    Continues m = (w : World S) → w.waiting ≡ ts → Leads ts (run m w)

    -- The last function goes on, and leaves the others waiting.
    released :
        (t : Waiting S) (m : Async S (Unit {0})) (w : World S)
        → Continues m
        → w.waiting ≡ ts ++ t ∷ []
        → Leads ts (resume (length ts) m w)
    unfolding Continues resume
    released t m w goes e =
        goes (record w { waiting = remove_at (length ts) w.waiting })
          (ap (remove_at (length ts)) e ∙ remove_at-last ts t)

    -- What an event does to the function that waits last.
    responds :
        (ps : List Promise) (have : Partial ps) (k : Outcome (Results ps) → Async S (Unit {0}))
        (w : World S) (j : ℕ)
        → w.waiting ≡ ts ++ on_answers ps have k ∷ []
        → step page (respond (length ts) j server) w
          ≡ after_answer (length ts) ps k (answer ps have j server) w
    unfolding step respond_to
    responds ps have k w j e =
        ap (λ t. respond_to t (length ts) j server w)
          (ap (λ ws. get_elem? ws (length ts)) e ∙ get_elem?-last ts (on_answers ps have k))

    fires :
        (ms : ℕ) (m : Async S (Unit {0})) (w : World S)
        → w.waiting ≡ ts ++ on_timer ms m ∷ []
        → step page (fire (length ts)) w ≡ resume (length ts) m w
    unfolding step fire_at
    fires ms m w e =
        ap (λ t. fire_at t (length ts) w)
          (ap (λ ws. get_elem? ws (length ts)) e ∙ get_elem?-last ts (on_timer ms m))

    -- After one answer more, the function goes on, or waits on as the last one.
    went_on :
        (ps : List Promise) (have more : Partial ps) (k : Outcome (Results ps) → Async S (Unit {0}))
        → ((o : Outcome (Results ps)) → Continues (k o))
        → ((v : World S) → v.waiting ≡ ts ++ on_answers ps more k ∷ [] → Leads ts v)
        → (w : World S) → w.waiting ≡ ts ++ on_answers ps have k ∷ []
        → Leads ts (after_answer (length ts) ps k (ok more) w)
    unfolding after_answer keep_waiting
    went_on ps have more k goes again w e = elim (Option-cases (complete ps more)) [
      | inr (r, full) ↦ rw (full, after_answer) (released _ (k (ok r)) w (goes (ok r)) e)
      | inl lacking ↦
          rw (lacking, after_answer)
            (again (keep_waiting (length ts) (on_answers ps more k) w) (
              ap (λ ws. ws ++ on_answers ps more k ∷ [])
                (ap (remove_at (length ts)) e ∙ remove_at-last ts (on_answers ps have k))))
    ]

    -- One event brings an answer to the last function; `again` is what follows if it waits on.
    advanced :
        (ps : List Promise) (have : Partial ps) (k : Outcome (Results ps) → Async S (Unit {0}))
        → ((o : Outcome (Results ps)) → Continues (k o))
        → ((more : Partial ps)
            → missing ps have ≡ suc (missing ps more)
            → (v : World S) → v.waiting ≡ ts ++ on_answers ps more k ∷ []
            → Leads ts v)
        → (j : ℕ) → Advances ps have server j
        → (w : World S) → w.waiting ≡ ts ++ on_answers ps have k ∷ []
        → Leads ts w
    unfolding after_answer Advances
    advanced ps have k goes again j (inl (message, fails)) w e =
        first (respond (length ts) j server) refl ts w _
          (responds ps have k w j e ∙ ap (λ o. after_answer (length ts) ps k o w) fails)
          (released _ (k (failed message)) w (goes (failed message)) e)
    advanced ps have k goes again j (inr (more, comes, fewer)) w e =
        first (respond (length ts) j server) refl ts w _
          (responds ps have k w j e ∙ ap (λ o. after_answer (length ts) ps k o w) comes)
          (went_on ps have more k goes (again more fewer) w e)

    complete-Leads :
        (ps : List Promise) (have : Partial ps) (k : Outcome (Results ps) → Async S (Unit {0}))
        (r : Results ps)
        → ((o : Outcome (Results ps)) → Continues (k o))
        → complete ps have ≡ some r
        → (w : World S) → w.waiting ≡ ts ++ on_answers ps have k ∷ []
        → Leads ts w
    unfolding after_answer
    complete-Leads ps have k r goes full w e =
        first (respond (length ts) 0 server) refl ts w _
          (responds ps have k w 0 e
            ∙ ap (λ o. after_answer (length ts) ps k o w) (answer-complete ps have r server full))
          (rw (full, after_answer) (released _ (k (ok r)) w (goes (ok r)) e))

    -- Answers to the last function let it go on, and leave the others waiting.
    answered :
        (n : ℕ) (ps : List Promise) (have : Partial ps)
        (k : Outcome (Results ps) → Async S (Unit {0}))
        → ((o : Outcome (Results ps)) → Continues (k o))
        → missing ps have ≡ n
        → (w : World S) → w.waiting ≡ ts ++ on_answers ps have k ∷ []
        → Leads ts w
    answered zero ps have k goes size w e = elim (Option-cases (complete ps have)) [
      | inr (r, full) ↦ complete-Leads ps have k r goes full w e
      | inl lacking ↦
          let (j, d) = some-Advances ps have server lacking in
          advanced ps have k goes (λ more fewer. cc (size, fewer)) j d w e
    ]
    answered (suc n) ps have k goes size w e = elim (Option-cases (complete ps have)) [
      | inr (r, full) ↦ complete-Leads ps have k r goes full w e
      | inl lacking ↦
          let (j, d) = some-Advances ps have server lacking in
          advanced ps have k goes
            (λ more fewer. answered n ps more k goes (omega (arith, size, fewer))) j d w e
    ]

    run-Leads : (m : Async S (Unit {0})) → Continues m
    unfolding Continues run
    run-Leads (pure u) w e = here ts w e
    run-Leads (throw message) w e = here ts _ e
    run-Leads (update f m) w e = run-Leads m (record w { state = f w.state }) e
    run-Leads (emit x m) w e = run-Leads m (record w { effects = w.effects ++ x ∷ [] }) e
    run-Leads (await ps k) w e =
        answered _ ps (unanswered ps) k (λ o. run-Leads (k o)) refl _
          (ap (λ ws. ws ++ on_answers ps (unanswered ps) k ∷ []) e)
    run-Leads (sleep ms m) w e =
        first (fire (length ts)) tt ts _ _ (fires ms m _ (ap (λ ws. ws ++ on_timer ms m ∷ []) e))
          (released _ m _ (run-Leads m) (ap (λ ws. ws ++ on_timer ms m ∷ []) e))

    -- Whatever the last function waits for, it comes, and leaves the others waiting.
    last-Leads : (t : Waiting S) (w : World S) → w.waiting ≡ ts ++ t ∷ [] → Leads ts w
    last-Leads (on_answers ps have k) w e = answered _ ps have k (λ o. run-Leads (k o)) refl w e
    last-Leads (on_timer ms m) w e =
        first (fire (length ts)) tt ts w _ (fires ms m w e) (released _ m w (run-Leads m) e)

  chained :
      (ts : List (Waiting S)) (w : World S) (es : List (Event E))
      → All (Comes server) es
      → Leads ts (run_from page w es)
      → Leads ts w
  chained ts w es cs (fs, ds, h) = (
    es ++ fs,
    All-append (Comes server) es fs cs ds,
    ap (λ v. v.waiting) (run_from-append w es fs) ∙ h,
  )

  -- Function by function from the last, the page comes to rest.
  rests-within : (n : ℕ) (w : World S) → length w.waiting ≡ n → Leads [] w
  rests-within zero w size = elim (last-cases w.waiting) [
    | inl e ↦ here [] w e
    | inr (us, t, e) ↦ absurd (omega (arith, size, ap length e, length-append us (t ∷ [])))
  ]
  rests-within (suc n) w size = elim (last-cases w.waiting) [
    | inl e ↦ here [] w e
    | inr (us, t, e) ↦
        let (es, cs, h) = last-Leads us t w e in
        chained [] w es cs (
          rests-within n (run_from page w es)
            (omega (arith, size, ap length e, ap length h, length-append us (t ∷ []))))
  ]

  -- After any events, whatever the server then answers, there are answers and timers after which
  -- nothing waits.
  pub settles :
      (es : List (Event E))
      → (more : List (Event E)) × All (Comes server) more × ((after page (es ++ more)).waiting ≡ [])
  unfolding after
  settles es =
      let (more, cs, h) = rests-within _ (after page es) refl in
      (more, cs, ap (λ v. v.waiting) (run_from-append (start page) es more) ∙ h)
