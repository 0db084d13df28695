-- ===== src/Runtime/Async.antt =====
-- Asynchronous functions as data: `Async S A` is the body of an `async` function of a page with
-- state `S`, which returns an `A` or throws an error with a message.
use zerokey.Base.{ℕ, String, Option, none, List, [], ◌∷◌}
use zerokey.Api.Call.{Call, Answer}

-- What a promise settles with: a value, or an error with its message.
pub data Outcome {ℓ} (A : Type ℓ) : Type ℓ where
  ok : A → Outcome A
  failed : String → Outcome A

-- A promise of the API; `recover` is the value of its `.catch(() => value)`, where it has one.
pub record Promise : Type 0 where
  pub call : Call
  pub recover : Option (Answer call)

abbrev pub plain : Call → Promise
plain c = record { call = c; recover = none }

-- The values of `await Promise.all(promises)`.
abbrev pub Results : List Promise → Type 0
Results [] = Unit
Results (p ∷ ps) = Answer p.call × Results ps

pub data Effect : Type 0 where
  alert console_error write_clipboard : String → Effect

pub data Async (S A : Type 0) : Type 0 where
  pure : A → Async S A
  throw : String → Async S A
  -- a call of a state setter
  update : (S → S) → Async S A → Async S A
  emit : Effect → Async S A → Async S A
  -- `await Promise.all(promises)`; one promise alone is awaited in the same way
  await : (promises : List Promise) → (Outcome (Results promises) → Async S A) → Async S A
  -- what follows runs when a timer of so many milliseconds fires
  sleep : ℕ → Async S A → Async S A

module _ {S : Type 0} where
  infixl 5 ◌>>=◌ ◌>>◌
  abbrev pub ◌>>=◌ : {A B : Type 0} → Async S A → (A → Async S B) → Async S B
  pure a >>= f = f a
  throw message >>= f = throw message
  update g m >>= f = update g (m >>= f)
  emit e m >>= f = emit e (m >>= f)
  await ps k >>= f = await ps (λ o. k o >>= f)
  sleep ms m >>= f = sleep ms (m >>= f)

  abbrev pub ◌>>◌ : {B : Type 0} → Async S (Unit {0}) → Async S B → Async S B
  m >> n = m >>= λ _. n

  -- `try { m } catch (err) { handler(err.message) }`
  abbrev pub catch : {A : Type 0} → Async S A → (String → Async S A) → Async S A
  catch (pure a) handler = pure a
  catch (throw message) handler = handler message
  catch (update g m) handler = update g (catch m handler)
  catch (emit e m) handler = emit e (catch m handler)
  catch (await ps k) handler = await ps (λ o. catch (k o) handler)
  catch (sleep ms m) handler = sleep ms (catch m handler)

  -- `try { m } finally { last }`
  abbrev pub finally : {A : Type 0} → Async S A → Async S (Unit {0}) → Async S A
  finally (pure a) last = last >> pure a
  finally (throw message) last = last >> throw message
  finally (update g m) last = update g (finally m last)
  finally (emit e m) last = emit e (finally m last)
  finally (await ps k) last = await ps (λ o. finally (k o) last)
  finally (sleep ms m) last = sleep ms (finally m last)

  -- A statement that sets state.
  abbrev pub modify : (S → S) → Async S (Unit {0})
  modify f = update f (pure tt)

  abbrev pub perform : Effect → Async S (Unit {0})
  perform e = emit e (pure tt)

  abbrev settled : {A : Type 0} → Outcome A → Async S A
  settled (ok a) = pure a
  settled (failed message) = throw message

  abbrev pub all : (promises : List Promise) → Async S (Results promises)
  all promises = await promises settled

  abbrev only : {A : Type 0} → Outcome (A × Unit {0}) → Async S A
  only (ok (a, _)) = pure a
  only (failed message) = throw message

  -- `await api.call(…)`
  abbrev pub fetch : (c : Call) → Async S (Answer c)
  fetch c = await (plain c ∷ []) only
