-- ===== src/Oidc/Rounds.antt =====
-- A whole reading of the OIDC page, from a moment when nothing waits: `Promise.all` of three calls,
-- answered in any order.
use zerokey.Base.{arith, ℕ, zero, suc, ◌≡◌, String, some, false, [], ◌∷◌, ◌++◌, template}
use zerokey.Api.Types.{Jwk, OidcDiscoveryDoc, JwksResponse, TrustBundle}
use zerokey.Api.Call.{get_oidc_discovery, get_jwks, get_trust_bundle}
use zerokey.Runtime.Async.{ok, failed, console_error}
use zerokey.Runtime.World.{World, Server, act, respond, step, run}
use zerokey.Oidc.{State, refresh, load_oidc, on, page}

abbrev pub at_rest : World State → World State
at_rest w = record w { waiting = [] }

-- The orders in which three promises can be answered.
pub data Order : ℕ → ℕ → ℕ → Type 0 where
  in_turn : Order 0 1 2
  last_first : Order 0 2 1
  jwks_first : Order 1 0 2
  jwks_bundle : Order 1 2 0
  bundle_first : Order 2 0 1
  backwards : Order 2 1 0

-- The server refuses the call at a position of the three.
abbrev pub Refuses : ℕ → Server → String → Type 0
Refuses zero server message = server get_oidc_discovery ≡ failed message
Refuses (suc zero) server message = server get_jwks ≡ failed message
Refuses (suc (suc zero)) server message = server get_trust_bundle ≡ failed message
Refuses _ server message = ⊥

module _ (stringify : Jwk → String) (w : World State) where
  -- When nothing waits, and the server answers each of the three calls of a refresh with a value,
  -- then in whatever order the answers come, the page has all three, stops loading, and has sent
  -- each call once.
  pub reading_round :
      {i j k : ℕ} (order : Order i j k) (server : Server) (disc : OidcDiscoveryDoc)
      (jwks : JwksResponse) (bundle : TrustBundle)
      → server get_oidc_discovery ≡ ok disc
      → server get_jwks ≡ ok jwks
      → server get_trust_bundle ≡ ok bundle
      → step (page stringify) (respond 0 k server) (
          step (page stringify) (respond 0 j server) (
            step
              (page stringify)
              (respond 0 i server)
              (step (page stringify) (act refresh) (at_rest w))))
        ≡ record (at_rest w) {
          state = record (w.state) {
            discovery_doc = some disc;
            jwks = some jwks;
            bundle = some bundle;
            loading = false;
          };
          sent = w.sent ++ get_oidc_discovery ∷ get_jwks ∷ get_trust_bundle ∷ [];
        }
  unfolding step page on load_oidc run
  reading_round in_turn server disc jwks bundle d j b = ground arith
  reading_round last_first server disc jwks bundle d j b = ground arith
  reading_round jwks_first server disc jwks bundle d j b = ground arith
  reading_round jwks_bundle server disc jwks bundle d j b = ground arith
  reading_round bundle_first server disc jwks bundle d j b = ground arith
  reading_round backwards server disc jwks bundle d j b = ground arith

  -- When nothing waits, one refusal is enough: whichever of the three calls is answered first and
  -- refused, the page keeps what it had, stops loading at once, and writes the error to the
  -- console.
  pub refused_reading :
      (i : ℕ) (server : Server) (message : String)
      → Refuses i server message
      → step (page stringify) (respond 0 i server) (step (page stringify) (act refresh) (at_rest w))
        ≡ record (at_rest w) {
          state = record (w.state) { loading = false };
          sent = w.sent ++ get_oidc_discovery ∷ get_jwks ∷ get_trust_bundle ∷ [];
          effects =
              w.effects
              ++ console_error (template ("Failed to fetch OIDC information " ∷ message ∷ [])) ∷ [];
        }
  unfolding step page on load_oidc run
  refused_reading zero server message h = ground arith
  refused_reading (suc zero) server message h = ground arith
  refused_reading (suc (suc zero)) server message h = ground arith
  refused_reading (suc (suc (suc i))) server message h = absurd h
