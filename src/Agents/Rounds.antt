-- ===== src/Agents/Rounds.antt =====
-- A whole exchange of the form of the join tokens with the server, from a moment when nothing
-- waits.
use zerokey.Base.{arith, ◌≡◌, refl, none, some, true, false, [], ◌∷◌, ◌++◌, template}
use zerokey.Api.Types.{GenerateTokenPayload, GenerateTokenResponse}
use zerokey.Api.Call.{generate_token}
use zerokey.Runtime.Async.{Outcome, ok, failed, alert}
use zerokey.Runtime.World.{World, Server, act, respond, step, run}
use zerokey.Agents.{State, mint, form_valid, handle_mint_token, in_form, in_modal, on, page}

abbrev pub at_rest : World State → World State
at_rest w = record w { waiting = [] }

-- What the form asks for.
abbrev pub asked : State → GenerateTokenPayload
asked s = record { spiffe_id = s.token_spiffe_id; ttl = some s.token_ttl }

-- The end of an exchange: the token takes the place of the form, or the error is reported and the
-- form stays.
abbrev pub minted : Outcome GenerateTokenResponse → World State → World State
minted (ok res) w = record w { state = record (w.state) { minted_token = some res } }
minted (failed message) w = record w {
  effects = w.effects ++ alert (template ("Error minting token: " ∷ message ∷ [])) ∷ [];
}

module _ (w : World State) (opened : w.state.is_modal_open ≡ true)
    (fresh : w.state.minted_token ≡ none) (free : w.state.submitting ≡ false)
    (valid : form_valid w.state ≡ true) where
  submitted-run :
      step page (act mint) (at_rest w)
      ≡ run (handle_mint_token w.state.token_spiffe_id w.state.token_ttl) (at_rest w)
  unfolding step page on in_modal in_form
  submitted-run = rw (opened, fresh, free, valid) refl

  -- When nothing waits, and the form is open, valid and its button enabled, submitting it asks for
  -- a token once, with its identity and its lifetime. Whatever the server answers, the token is
  -- shown or the error is reported, and nothing is marked as on its way.
  pub mint_round :
      (server : Server)
      → step page (respond 0 0 server) (step page (act mint) (at_rest w))
        ≡ minted
            (server (generate_token (asked w.state)))
            (record (at_rest w) { sent = w.sent ++ generate_token (asked w.state) ∷ [] })
  unfolding step page handle_mint_token run
  mint_round server = rw (submitted-run) (ground arith)
