-- ===== src/Runtime/World/Flags/Rules.antt =====
-- `try` blocks and sequences of functions that keep a flag tidy.
use zerokey.Base.{refl, ◌≡◌, String, Bool, true, false, [], ◌∷◌, if◌then◌else◌}
use zerokey.Api.Call.{Call, Answer}
use zerokey.Runtime.Async.{Outcome, ok, failed, Results, plain, await, Async, ◌>>◌, catch, finally}
use zerokey.Runtime.World.Flags.{
  Tidy, returns, throws, raises, lowers, spares, emits, awaits, sleeps, Starts,
}

-- A function that holds the flag opens any call.
pub holding : {P : Type 0} → true ≡ false → P
holding e = absurd (true≢false e)
  where
    true≢false : true ≡ false → ⊥
    true≢false h = cc

module _ {S : Type 0} {strict : Bool} {guarded : Call → Bool} {flag : S → Bool} where
  pub Tidy-then :
      {held : Bool} {m n : Async S (Unit {0})}
      → Tidy strict guarded flag held m
      → Tidy strict guarded flag false n
      → Tidy strict guarded flag held (m >> n)
  Tidy-then (returns u) d = d
  Tidy-then (throws message) d = throws message
  Tidy-then (raises h up r) d = raises h up (Tidy-then r d)
  Tidy-then (lowers h down r) d = lowers h down (Tidy-then r d)
  Tidy-then (spares eq r) d = spares eq (Tidy-then r d)
  Tidy-then (emits r) d = emits (Tidy-then r d)
  Tidy-then (awaits free r) d = awaits free (λ o. Tidy-then (r o) d)
  Tidy-then (sleeps r) d = sleeps (Tidy-then r d)

  pub Tidy-catch :
      {held : Bool} {m : Async S (Unit {0})} {handler : String → Async S (Unit {0})}
      → Tidy strict guarded flag held m
      → ((message : String) → Tidy strict guarded flag false (handler message))
      → Tidy strict guarded flag held (catch m handler)
  Tidy-catch (returns u) d = returns u
  Tidy-catch (throws message) d = d message
  Tidy-catch (raises h up r) d = raises h up (Tidy-catch r d)
  Tidy-catch (lowers h down r) d = lowers h down (Tidy-catch r d)
  Tidy-catch (spares eq r) d = spares eq (Tidy-catch r d)
  Tidy-catch (emits r) d = emits (Tidy-catch r d)
  Tidy-catch (awaits free r) d = awaits free (λ o. Tidy-catch (r o) d)
  Tidy-catch (sleeps r) d = sleeps (Tidy-catch r d)

  pub Tidy-finally :
      {held : Bool} {m last : Async S (Unit {0})}
      → Tidy strict guarded flag held m
      → Tidy strict guarded flag false last
      → Tidy strict guarded flag held (finally m last)
  Tidy-finally (returns u) d = Tidy-then d (returns u)
  Tidy-finally (throws message) d = Tidy-then d (throws message)
  Tidy-finally (raises h up r) d = raises h up (Tidy-finally r d)
  Tidy-finally (lowers h down r) d = lowers h down (Tidy-finally r d)
  Tidy-finally (spares eq r) d = spares eq (Tidy-finally r d)
  Tidy-finally (emits r) d = emits (Tidy-finally r d)
  Tidy-finally (awaits free r) d = awaits free (λ o. Tidy-finally (r o) d)
  Tidy-finally (sleeps r) d = sleeps (Tidy-finally r d)

  -- One call, by what follows an answer and an error.
  pub fetches :
      {held : Bool} {c : Call} {k : Outcome (Results (plain c ∷ [])) → Async S (Unit {0})}
      → (held ≡ false → guarded c ≡ false)
      → ((a : Answer c) → Tidy strict guarded flag held (k (ok (a, tt))))
      → ((message : String) → Tidy strict guarded flag held (k (failed message)))
      → Tidy strict guarded flag held (await (plain c ∷ []) k)
  fetches free answered refused =
      awaits (λ e. (free e, tt))
        (elim [ ok (a, tt) ↦ answered a | failed message ↦ refused message ])

  pub Tidy-if :
      {held : Bool} (b : Bool) {m n : Async S (Unit {0})}
      → Tidy strict guarded flag held m
      → Tidy strict guarded flag held n
      → Tidy strict guarded flag held (if b then m else n)
  Tidy-if true d e = d
  Tidy-if false d e = e

  pub Starts-if :
      (b : Bool) {s : S} {m n : Async S (Unit {0})}
      → Starts strict guarded flag s m
      → Starts strict guarded flag s n
      → Starts strict guarded flag s (if b then m else n)
  Starts-if true d e = d
  Starts-if false d e = e

  -- The same, where a branch needs its test.
  pub Starts-test :
      (b : Bool) {s : S} {m n : Async S (Unit {0})}
      → (b ≡ true → Starts strict guarded flag s m)
      → (b ≡ false → Starts strict guarded flag s n)
      → Starts strict guarded flag s (if b then m else n)
  Starts-test true d e = d refl
  Starts-test false d e = e refl

-- For a flag that guards no call.
abbrev pub no_call : Call → Bool
no_call _ = false
