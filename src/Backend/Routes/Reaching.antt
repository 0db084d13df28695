-- ===== src/Backend/Routes/Reaching.antt =====
-- Each function of the dashboard's client reaches the handler that is meant for it.
use Prim.Native.Char.{code}
use Prim.Native.String
use package.text.Mathlib.TextLemmas.{nil-append, cons-append, append-nil, append_assoc}
use zerokey.Base.{
  ℕ, arith, ◌≡◌, ◌≢◌, refl, ap, ◌∙◌, nat_eq, leb, eq_iff, String, Bool, true, false, not, ◌&&◌,
  ◌||◌, Option, some, [], ◌∷◌, template,
}
use zerokey.Base.Text.{show_ℕ}
use zerokey.Api.Types.{obj, text, bool, end, field}
use zerokey.Api.Call.{Call, options_of, create_entry_json, generate_token_json}
use zerokey.Backend.Routes.{Route, path_of, query_of, after_prefix, has_slash, delete_route, route}

-- The characters of an entry's identifier: letters, digits and "-".
unfoldable pub is_id_char : String → Bool
is_id_char String.[] = true
is_id_char (String.◌∷◌ c s) =
    (nat_eq (code c) b'-'
      || (leb b'0' (code c) && leb (code c) b'9')
      || (leb b'A' (code c) && leb (code c) b'Z')
      || (leb b'a' (code c) && leb (code c) b'z'))
    && is_id_char s

-- An identifier such as the backend reads from the command line's output.
abbrev pub IsPlain : String → Type 0
IsPlain s = (s ≢ "") × (is_id_char s ≡ true)

-- Only the call of a deletion has a condition.
abbrev pub Reaches : Call → Type 0
Reaches (Call.delete_entry id) = IsPlain id
Reaches _ = Unit

-- The handler that is meant.
unfoldable pub handler_of : Call → Route
handler_of Call.get_overview = Route.get_overview
handler_of Call.get_entries = Route.list_entries
handler_of (Call.create_entry p) = Route.create_entry (some (create_entry_json p))
handler_of (Call.delete_entry id) = Route.delete_entry id
handler_of Call.get_agents = Route.list_agents
handler_of (Call.generate_token p) = Route.generate_join_token (some (generate_token_json p))
handler_of Call.get_trust_bundle = Route.get_bundle
handler_of Call.get_oidc_discovery = Route.get_discovery
handler_of Call.get_jwks = Route.get_keys
handler_of (Call.execute_test_flow simulate) =
    Route.execute_test_flow (some (obj (field "simulate_unauthorized" (bool simulate) end)))
handler_of (Call.evaluate_policy client required) = Route.evaluate_policy (
    some (
      obj
        (field "client_spiffe_id" (text client) (field "required_spiffe_id" (text required) end))))
handler_of (Call.get_audit_logs limit) = Route.get_audit_logs (some (show_ℕ limit))
handler_of Call.get_metrics = Route.get_metrics

path_of-plain : (s : String) → is_id_char s ≡ true → path_of s ≡ s
unfolding path_of is_id_char
path_of-plain String.[] h = refl
path_of-plain (String.◌∷◌ c s) h = ground (arith, path_of-plain s)

has_slash-plain : (s : String) → is_id_char s ≡ true → has_slash s ≡ false
unfolding has_slash is_id_char
has_slash-plain String.[] h = refl
has_slash-plain (String.◌∷◌ c s) h = ground (arith, has_slash-plain s)

-- A text without "?".
no_query : String → Bool
no_query String.[] = true
no_query (String.◌∷◌ c s) = not (nat_eq (code c) b'?') && no_query s

path_of-append :
    (t s : String) → no_query t ≡ true → path_of (String.◌++◌ t s) ≡ String.◌++◌ t (path_of s)
unfolding path_of no_query
path_of-append String.[] s h = rw (nil-append s, nil-append (path_of s)) refl
path_of-append (String.◌∷◌ c t) s h =
    rw (cons-append c t s, cons-append c t (path_of s)) (ground (arith, path_of-append t s))

query_of-append : (t s : String) → no_query t ≡ true → query_of (String.◌++◌ t s) ≡ query_of s
unfolding query_of no_query
query_of-append String.[] s h = ap query_of (nil-append s)
query_of-append (String.◌∷◌ c t) s h = rw (cons-append c t s) (ground (arith, query_of-append t s))

pub after_prefix-append : (t s : String) → after_prefix t (String.◌++◌ t s) ≡ some s
unfolding after_prefix
after_prefix-append String.[] s = ap some (nil-append s)
after_prefix-append (String.◌∷◌ d t) s =
    rw (cons-append d t s) (ground (arith, after_prefix-append t s))

-- Behind the literal part, the path is the identifier.
delete_path :
    (s : String)
    → is_id_char s ≡ true
    → after_prefix "/api/entries/" (path_of (template ("/api/entries/" ∷ s ∷ []))) ≡ some s
unfolding no_query
delete_path s h = rw (append-nil s) (
    ap (after_prefix "/api/entries/")
      (path_of-append "/api/entries/" s refl ∙ ap (String.◌++◌ "/api/entries/") (path_of-plain s h))
    ∙ after_prefix-append "/api/entries/" s)

abbrev logs_endpoint : String → String
logs_endpoint limit = template ("/api/telemetry/logs?limit=" ∷ limit ∷ [])

parted :
    (s : String) → logs_endpoint s ≡ String.◌++◌ "/api/telemetry/logs" (String.◌++◌ "?limit=" s)
parted s = rw (append-nil s) (append_assoc "/api/telemetry/logs" "?limit=" s)

logs_path : (s : String) → path_of (logs_endpoint s) ≡ "/api/telemetry/logs"
unfolding path_of no_query
logs_path s =
    ap path_of (parted s)
    ∙ path_of-append "/api/telemetry/logs" (String.◌++◌ "?limit=" s) refl
    ∙ ap (String.◌++◌ "/api/telemetry/logs") (ap path_of (cons-append "?" "limit=" s))
    ∙ append-nil "/api/telemetry/logs"

logs_query : (s : String) → query_of (logs_endpoint s) ≡ String.◌++◌ "limit=" s
unfolding query_of no_query
logs_query s =
    ap query_of (parted s)
    ∙ query_of-append "/api/telemetry/logs" (String.◌++◌ "?limit=" s) refl
    ∙ ap query_of (cons-append "?" "limit=" s)

delete-route : (s : String) → IsPlain s → delete_route (some s) ≡ some (Route.delete_entry s)
unfolding delete_route
delete-route s (named, plain) = ground (arith, eq_iff s "", has_slash-plain s plain)

-- `query` reads the parameter that stands alone in the query, and is a number.
module _ (query : String → String → Option String)
    (reads : (n : ℕ) → query "limit" (String.◌++◌ "limit=" (show_ℕ n)) ≡ some (show_ℕ n)) where
  -- Each function of the client reaches the handler that is meant for it, with its arguments; for a
  -- deletion the identifier must not be empty and must consist of letters, digits and "-".
  pub route-options_of : (c : Call) → Reaches c → route query (options_of c) ≡ some (handler_of c)
  unfolding route options_of handler_of
  route-options_of Call.get_overview h = refl
  route-options_of Call.get_entries h = refl
  route-options_of (Call.create_entry p) h = refl
  route-options_of (Call.delete_entry id) h =
      ap delete_route (delete_path id h.1) ∙ delete-route id h
  route-options_of Call.get_agents h = refl
  route-options_of (Call.generate_token p) h = refl
  route-options_of Call.get_trust_bundle h = refl
  route-options_of Call.get_oidc_discovery h = refl
  route-options_of Call.get_jwks h = refl
  route-options_of (Call.execute_test_flow simulate) h = refl
  route-options_of (Call.evaluate_policy client required) h = refl
  route-options_of (Call.get_audit_logs limit) h =
      rw (logs_path (show_ℕ limit), logs_query (show_ℕ limit), reads limit) refl
  route-options_of Call.get_metrics h = refl
