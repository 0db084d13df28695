-- ===== src/Runtime/World/Answering.antt =====
-- The promises of one `await`, which are answered one by one.
use zerokey.Base.{ℕ, suc, ◌≡◌, refl, ap, ◌⊎◌, inl, inr, Option, none, some, String, List, [], ◌∷◌}
use zerokey.Runtime.Async.{Outcome, ok, failed, Promise, Results}
use zerokey.Runtime.World.{Partial, Server, recovered, fill, beside, answer, both, complete}

-- How many answers have still to come.
unfoldable pub missing : (ps : List Promise) → Partial ps → ℕ
missing [] have = 0
missing (p ∷ ps) (none, have) = suc (missing ps have)
missing (p ∷ ps) (some a, have) = missing ps have

both-none : {A B : Type 0} (a : A) (b : Option B) → both (some a) b ≡ none → b ≡ none
both-none a none e = refl
both-none a (some b) e = cc

-- An answer to a promise that has settled changes nothing.
pub answer-complete :
    (ps : List Promise) (have : Partial ps) (r : Results ps) (server : Server)
    → complete ps have ≡ some r
    → answer ps have 0 server ≡ ok have
unfolding answer complete
answer-complete [] have r server e = refl
answer-complete (p ∷ ps) (none, have) r server e = cc
answer-complete (p ∷ ps) (some a, have) r server e = refl

-- What the answer at a position brings: a failure, or one answer more.
unfoldable pub Advances : (ps : List Promise) → Partial ps → Server → ℕ → Type 0
Advances ps have server j =
    ((message : String) × (answer ps have j server ≡ failed message))
    ⊎ ((more : Partial ps) × (answer ps have j server ≡ ok more)
        × (missing ps have ≡ suc (missing ps more)))

fill-Advances :
    (p : Promise) (ps : List Promise) (have : Partial ps) (server : Server) (o : Outcome _)
    → recovered p (server p.call) ≡ o
    → Advances (p ∷ ps) (none, have) server 0
unfolding Advances answer missing
fill-Advances p ps have server (ok a) e = inr ((some a, have), ap (λ o. fill o have) e, refl)
fill-Advances p ps have server (failed message) e = inl (message, ap (λ o. fill o have) e)

beside-Advances :
    (p : Promise) (ps : List Promise) (a : _) (have : Partial ps) (server : Server) (j : ℕ)
    → Advances ps have server j
    → Advances (p ∷ ps) (some a, have) server (suc j)
unfolding Advances answer missing
beside-Advances p ps a have server j (inl (message, e)) = inl (message, ap (beside (some a)) e)
beside-Advances p ps a have server j (inr (more, e, n)) =
    inr ((some a, more), ap (beside (some a)) e, n)

-- Some position brings an answer, as long as one is missing.
pub some-Advances :
    (ps : List Promise) (have : Partial ps) (server : Server)
    → complete ps have ≡ none
    → (j : ℕ) × Advances ps have server j
unfolding complete
some-Advances [] have server e = cc
some-Advances (p ∷ ps) (none, have) server e = (0, fill-Advances p ps have server _ refl)
some-Advances (p ∷ ps) (some a, have) server e =
    let (j, d) = some-Advances ps have server (both-none a _ e) in
    (suc j, beside-Advances p ps a have server j d)
