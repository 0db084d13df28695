-- ===== src/Backend/Handlers/Admission.antt =====
-- The forms of the dashboard against the checks of the backend.
use zerokey.Base.{
  value_or, arith, ℤ, pos, ◌≤ℤ◌, ◌≡◌, ◌≢◌, refl, String, true, ◌&&◌, Option, none, some, List, [],
  ◌∷◌, All, if◌then◌else◌,
}
use zerokey.Api.Types.{CreateEntryPayload, GenerateTokenPayload}
use zerokey.Api.Fetch.{member}
use zerokey.Api.Call.{Call, options_of, generate_token_json}
use zerokey.Runtime.World.{Event, after}
use zerokey.Entries
use zerokey.Entries.Requests.{IsComplete, IsEntryCall, sent-IsEntryCall}
use zerokey.Agents
use zerokey.Agents.Requests.{IsAgentCall, sent-IsAgentCall}
use zerokey.Backend.Schemas.{Lax, GenerateTokenRequest, generate_token_request, within, some_item}
use zerokey.Backend.Schemas.Reading.{
  is_accepted, request_of, create_entry_request-create_entry_json,
}
use zerokey.Backend.Handlers.{
  passed, refused, is_spiffe, create_entry, generate_join_token, entry_checked, token_checked,
}

All-weaken :
    {A : Type 0} {P Q : A → Type 0} (f : (a : A) → P a → Q a) (xs : List A) → All P xs → All Q xs
All-weaken f [] h = tt
All-weaken f (x ∷ xs) (p, h) = (f x p, All-weaken f xs h)

-- The request that a payload for a token stands for.
abbrev pub token_request_of : GenerateTokenPayload → GenerateTokenRequest
token_request_of p = record { spiffe_id = p.spiffe_id; ttl = value_or (pos 600) p.ttl }

within_lem : (a b n : ℤ) → a ≤ℤ n → n ≤ℤ b → within a b n ≡ true
within_lem a b n low high = ground arith

accepted_by :
    (ss : List String) (ttl : Option ℤ)
    → ss ≢ []
    → ((n : ℤ) → ttl ≡ some n → pos 60 ≤ℤ n)
    → ((n : ℤ) → ttl ≡ some n → n ≤ℤ pos 86400)
    → (some_item ss && within (pos 60) (pos 86400) (value_or (pos 3600) ttl)) ≡ true
accepted_by [] ttl filled low high = absurd (filled refl)
accepted_by (_ ∷ _) none filled low high = refl
accepted_by (_ ∷ _) (some n) filled low high = ground (arith, low n refl, high n refl)

IsComplete-accepted : (p : CreateEntryPayload) → IsComplete p → is_accepted p ≡ true
IsComplete-accepted p h =
    accepted_by p.selectors p.ttl h.some_selector (λ n e. (h.ttl n e).0) (λ n e. (h.ttl n e).1)

module _ (lax : Lax) where
  -- The backend passes the call on as it is meant, unless its SPIFFE ID lacks the prefix.
  abbrev pub IsAdmitted : Call → Type 0
  IsAdmitted (Call.create_entry p) = create_entry lax (options_of (Call.create_entry p)).body ≡ (
      if is_spiffe p.spiffe_id
      then passed (request_of p)
      else refused "SPIFFE ID must start with 'spiffe://'")
  IsAdmitted (Call.generate_token p) =
      generate_join_token lax (options_of (Call.generate_token p)).body ≡ (
        if is_spiffe p.spiffe_id
        then passed (token_request_of p)
        else refused "Agent SPIFFE ID must start with 'spiffe://'")
  IsAdmitted _ = Unit

  pub entry-IsAdmitted : (p : CreateEntryPayload) → IsComplete p → IsAdmitted (Call.create_entry p)
  unfolding create_entry options_of entry_checked
  entry-IsAdmitted p h =
      rw (create_entry_request-create_entry_json lax p, IsComplete-accepted p h, entry_checked) refl

  pub token-IsAdmitted :
      (p : GenerateTokenPayload)
      → IsAgentCall (Call.generate_token p)
      → IsAdmitted (Call.generate_token p)
  unfolding generate_join_token options_of token_checked generate_token_json generate_token_request
      member
  token-IsAdmitted p (named, (n, set, low, high)) =
      rw (set, lax.to_int-int n, within_lem (pos 60) (pos 3600) n low high, token_checked) refl

  entry_call : (c : Call) → IsEntryCall c → IsAdmitted c
  entry_call (Call.create_entry p) h = entry-IsAdmitted p h
  entry_call (Call.generate_token p) h = absurd h
  entry_call _ h = tt

  agent_call : (c : Call) → IsAgentCall c → IsAdmitted c
  agent_call (Call.generate_token p) h = token-IsAdmitted p h
  agent_call (Call.create_entry p) h = absurd h
  agent_call _ h = tt

  -- After any events, in any order, each registration that the page of the entries has sent is one
  -- that the backend passes on to the SPIRE server as it is meant, unless its SPIFFE ID does not
  -- start with "spiffe://": no other check of the backend refuses it.
  pub entries_sent-IsAdmitted :
      (to_lower_case : String → String) (es : List (Event Entries.Action))
      → All IsAdmitted (after (Entries.page to_lower_case) es).sent
  entries_sent-IsAdmitted to_lower_case es =
      All-weaken entry_call (after (Entries.page to_lower_case) es).sent
        (sent-IsEntryCall to_lower_case es)

  -- After any events, in any order, each request for a token that the page of the agents has sent
  -- is one that the backend passes on as it is meant, unless its SPIFFE ID does not start with
  -- "spiffe://".
  pub agents_sent-IsAdmitted :
      (es : List (Event Agents.Action)) → All IsAdmitted (after Agents.page es).sent
  agents_sent-IsAdmitted es =
      All-weaken agent_call (after Agents.page es).sent (sent-IsAgentCall es).0
