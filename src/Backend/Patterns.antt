-- ===== src/Backend/Patterns.antt =====
-- services/spire_service.py: the two regular expressions, and the last part of a SPIFFE ID.
use Prim.Native.Char.{code}
use zerokey.Base.{
  ℕ, String, Bool, ◌&&◌, ◌||◌, Option, none, some, nat_eq, leb, truthy, if◌then◌else◌,
}
use zerokey.Base.Text.{is_space, trim_start}
use zerokey.Backend.Routes.{after_prefix, has_slash}

-- The part of a text that the pattern `[a-zA-Z0-9\-]+` takes, where it takes one.
abbrev is_id : ℕ → Bool
is_id c =
    (leb b'a' c && leb c b'z')
    || (leb b'A' c && leb c b'Z')
    || (leb b'0' c && leb c b'9')
    || nat_eq c b'-'

take_id : String → String
take_id String.[] = String.[]
take_id (String.◌∷◌ c s) =
    let rest = take_id s in if is_id (code c) then String.◌∷◌ c rest else String.[]

named : String → Option String
unfolding take_id
named s = if truthy (take_id s) then some (take_id s) else none

-- `re.search`: the first place where a pattern fits.
search_from : (String → Option String) → String → Option String
search_from fits String.[] = fits String.[]
search_from fits (String.◌∷◌ c s) =
    let later = search_from fits s in
    elim (fits (String.◌∷◌ c s)) [ none ↦ later | some found ↦ some found ]

-- What follows a text, and then white space.
behind : String → Option String → Option String
behind t none = none
behind t (some s) = elim (after_prefix t s) [
  | none ↦ none
  | some rest ↦ some (trim_start is_space rest)
]

name_in : Option String → Option String
unfolding named
name_in none = none
name_in (some s) = named s

-- `Entry ID\s*:\s*([a-zA-Z0-9\-]+)`
unfoldable pub entry_match : String → Option String
unfolding search_from behind name_in
entry_match = search_from (λ s. name_in (behind ":" (behind "Entry ID" (some s))))

-- `Token:\s*([a-zA-Z0-9\-]+)`
unfoldable pub token_match : String → Option String
unfolding search_from behind name_in
token_match = search_from (λ s. name_in (behind "Token:" (some s)))

-- `s.split("/")[-1]`
unfoldable pub last_part : String → String
last_part String.[] = String.[]
last_part (String.◌∷◌ c s) =
    let rest = last_part s in
    if has_slash s then rest else if nat_eq (code c) b'/' then s else String.◌∷◌ c s
