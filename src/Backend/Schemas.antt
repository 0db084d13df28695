-- ===== src/Backend/Schemas.antt =====
-- dashboard/backend/app/models/schemas.py: the requests, as pydantic reads them from the JSON body.
-- `none` is a refusal. A text is taken only where the body has a text; what else pydantic takes for
-- an integer or a truth value is its own, and enters as `Lax`.
pub mod Reading
use zerokey.Base.Text.{show_ℕ}
use zerokey.Base.{
  ℕ, ℤ, pos, leb_ℤ, String, Bool, true, false, ◌&&◌, Option, none, some, List, [], ◌∷◌, is_empty,
  if◌then◌else◌, ◌≡◌,
}
use zerokey.Api.Types.{
  Json, Items, Fields, null, bool, int, decimal, text, arr, obj, nil, cons, end, field,
}
use zerokey.Api.Fetch.{member}

pub record Lax : Type 0 where
  pub to_int : Json → Option ℤ
  pub to_bool : Json → Option Bool
  -- what stands in the body as it is declared is taken as it is
  pub to_int-int : (n : ℤ) → to_int (int n) ≡ some n
  pub to_bool-bool : (b : Bool) → to_bool (bool b) ≡ some b
  -- and so is a number in decimal digits, as it stands in a query
  pub to_int-text : (n : ℕ) → to_int (text (show_ℕ n)) ≡ some (pos n)

infixl 5 ◌>>=◌
abbrev pub ◌>>=◌ {ℓ κ} : {A : Type ℓ} {B : Type κ} → Option A → (A → Option B) → Option B
none >>= f = none
some a >>= f = f a

abbrev pub guard : Bool → Option (Unit {0})
guard true = some tt
guard false = none

pub record CreateEntryRequest : Type 0 where
  pub spiffe_id : String
  pub parent_id : String
  pub selectors : List String
  pub ttl : ℤ
  pub admin : Bool
  pub dns_names : List String

pub record GenerateTokenRequest : Type 0 where
  pub spiffe_id : String
  pub ttl : ℤ

pub record KeylessTestFlowRequest : Type 0 where
  pub client_container : Option String
  pub target_url : Option String
  pub simulate_unauthorized : Bool

pub record PolicyEvaluationRequest : Type 0 where
  pub client_spiffe_id : String
  pub required_spiffe_id : String

abbrev pub to_str : Json → Option String
to_str (text s) = some s
to_str _ = none

-- `Optional[str]`
abbrev pub to_optional_str : Json → Option (Option String)
to_optional_str null = some none
to_optional_str (text s) = some (some s)
to_optional_str _ = none

abbrev pub to_strs : Items → Option (List String)
to_strs nil = some []
to_strs (cons v rest) = to_str v >>= λ s. to_strs rest >>= λ ss. some (s ∷ ss)

-- `List[str]`
abbrev pub to_str_list : Json → Option (List String)
to_str_list (arr items) = to_strs items
to_str_list _ = none

-- A required field, and one with a default, which a body may leave out.
abbrev pub required : {A : Type 0} → (Json → Option A) → Option Json → Option A
required read none = none
required read (some v) = read v

abbrev pub default : {A : Type 0} → A → (Json → Option A) → Option Json → Option A
default d read none = some d
default d read (some v) = read v

-- `ge` and `le`
abbrev pub within : ℤ → ℤ → ℤ → Bool
within low high n = leb_ℤ low n && leb_ℤ n high

-- `min_length=1`
abbrev pub some_item : List String → Bool
some_item [] = false
some_item (_ ∷ _) = true

module _ (lax : Lax) where
  unfoldable pub create_entry_request : Json → Option CreateEntryRequest
  create_entry_request (obj fields) = do
    spiffe_id ← required to_str (member "spiffe_id" fields)
    parent_id ← default "spiffe://demo.local/node/agent" to_str (member "parent_id" fields)
    selectors ← required to_str_list (member "selectors" fields)
    _ ← guard (some_item selectors)
    ttl ← default (pos 3600) lax.to_int (member "ttl" fields)
    _ ← guard (within (pos 60) (pos 86400) ttl)
    admin ← default false lax.to_bool (member "admin" fields)
    dns_names ← default [] to_str_list (member "dns_names" fields)
    some (record {
      spiffe_id = spiffe_id;
      parent_id = parent_id;
      selectors = selectors;
      ttl = ttl;
      admin = admin;
      dns_names = dns_names;
    })
  create_entry_request _ = none

  unfoldable pub generate_token_request : Json → Option GenerateTokenRequest
  generate_token_request (obj fields) = do
    spiffe_id ← default "spiffe://demo.local/node/agent" to_str (member "spiffe_id" fields)
    ttl ← default (pos 600) lax.to_int (member "ttl" fields)
    _ ← guard (within (pos 60) (pos 3600) ttl)
    some (record { spiffe_id = spiffe_id; ttl = ttl })
  generate_token_request _ = none

  unfoldable pub keyless_test_flow_request : Json → Option KeylessTestFlowRequest
  keyless_test_flow_request (obj fields) = do
    client_container ←
        default (some "client-worker") to_optional_str (member "client_container" fields)
    target_url ←
        default (some "https://backend-api:8443/api/secret-data") to_optional_str
          (member "target_url" fields)
    simulate_unauthorized ← default false lax.to_bool (member "simulate_unauthorized" fields)
    some (record {
      client_container = client_container;
      target_url = target_url;
      simulate_unauthorized = simulate_unauthorized;
    })
  keyless_test_flow_request _ = none

unfoldable pub policy_evaluation_request : Json → Option PolicyEvaluationRequest
policy_evaluation_request (obj fields) = do
  client_spiffe_id ← required to_str (member "client_spiffe_id" fields)
  required_spiffe_id ←
      default "spiffe://demo.local/client-worker" to_str (member "required_spiffe_id" fields)
  some (record { client_spiffe_id = client_spiffe_id; required_spiffe_id = required_spiffe_id })
policy_evaluation_request _ = none
