-- ===== src/Runtime/World/Safety/Rules.antt =====
-- `try` blocks, tests and single calls in functions that are safe.
use zerokey.Base.{String, Bool, true, false, [], ◌∷◌, if◌then◌else◌}
use zerokey.Api.Call.{Call, Answer}
use zerokey.Runtime.Async.{Outcome, ok, failed, Results, plain, Async, await, ◌>>◌, catch, finally}
use zerokey.Runtime.World.Safety.{Safe, returns, updates, batches, emits, awaits, sleeps}

module _ {S : Type 0} {P : S → Type 0} {Q : Call → Type 0} where
  pub Safe-then : {m n : Async S (Unit {0})} → Safe P Q m → Safe P Q n → Safe P Q (m >> n)
  Safe-then (returns u) e = e
  Safe-then (updates h d) e = updates h (Safe-then d e)
  Safe-then (batches h d) e = batches h (Safe-then d e)
  Safe-then (emits d) e = emits (Safe-then d e)
  Safe-then (awaits q d) e = awaits q (λ o. Safe-then (d o) e)
  Safe-then (sleeps d) e = sleeps (Safe-then d e)

  -- A safe function throws nothing, so its handler is never called.
  pub Safe-catch :
      {m : Async S (Unit {0})} (handler : String → Async S (Unit {0}))
      → Safe P Q m
      → Safe P Q (catch m handler)
  Safe-catch handler (returns u) = returns u
  Safe-catch handler (updates h d) = updates h (Safe-catch handler d)
  Safe-catch handler (batches h d) = batches h (Safe-catch handler d)
  Safe-catch handler (emits d) = emits (Safe-catch handler d)
  Safe-catch handler (awaits q d) = awaits q (λ o. Safe-catch handler (d o))
  Safe-catch handler (sleeps d) = sleeps (Safe-catch handler d)

  pub Safe-finally :
      {m last : Async S (Unit {0})} → Safe P Q m → Safe P Q last → Safe P Q (finally m last)
  Safe-finally (returns u) e = Safe-then e (returns u)
  Safe-finally (updates h d) e = updates h (Safe-finally d e)
  Safe-finally (batches h d) e = batches h (Safe-finally d e)
  Safe-finally (emits d) e = emits (Safe-finally d e)
  Safe-finally (awaits q d) e = awaits q (λ o. Safe-finally (d o) e)
  Safe-finally (sleeps d) e = sleeps (Safe-finally d e)

  pub Safe-if :
      (b : Bool) {m n : Async S (Unit {0})}
      → Safe P Q m
      → Safe P Q n
      → Safe P Q (if b then m else n)
  Safe-if true d e = d
  Safe-if false d e = e

  -- One call, by what follows an answer and an error.
  pub Safe-fetch :
      {c : Call} {k : Outcome (Results (plain c ∷ [])) → Async S (Unit {0})}
      → Q c
      → ((a : Answer c) → Safe P Q (k (ok (a, tt))))
      → ((message : String) → Safe P Q (k (failed message)))
      → Safe P Q (await (plain c ∷ []) k)
  Safe-fetch q answered refused =
      awaits (q, tt) (elim [ ok (a, tt) ↦ answered a | failed message ↦ refused message ])
