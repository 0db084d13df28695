-- ===== src/Backend/Spire/Flags.antt =====
-- The command that registers an entry, as a program with these flags reads it.
use mathlib.Core.List.{append-nil, append_assoc}
use mathlib.Core.Option
use zerokey.Base.{
  ℤ, ◌≡◌, refl, ap, sym, ◌∙◌, String, Bool, true, false, ◌&&◌, Option, none, some, List, [], ◌∷◌,
  ◌++◌, str_eq, if◌then◌else◌,
}
use zerokey.Base.Text.{parse_int}
use zerokey.Base.Text.Numbers.{parse_int-show_ℤ}
use zerokey.Backend.Schemas.{CreateEntryRequest}
use zerokey.Backend.Spire.{create_args, flagged}

record Flags : Type 0 where
  spiffe_id : Option String
  parent_id : Option String
  ttl : Option String
  selectors : List String
  dns_names : List String
  admin : Bool

abbrev no_flags : Flags
no_flags = record {
  spiffe_id = none;
  parent_id = none;
  ttl = none;
  selectors = [];
  dns_names = [];
  admin = false;
}

-- A flag with its value; `-selector` and `-dns` may come several times.
set_flag : String → String → Flags → Flags
set_flag flag v f =
    if str_eq flag "-spiffeID"
    then record f { spiffe_id = some v }
    else if str_eq flag "-parentID"
    then record f { parent_id = some v }
    else if str_eq flag "-ttl"
    then record f { ttl = some v }
    else if str_eq flag "-selector"
    then record f { selectors = f.selectors ++ v ∷ [] }
    else if str_eq flag "-dns"
    then record f { dns_names = f.dns_names ++ v ∷ [] }
    else f

-- A flag takes the next argument, whatever it is, except `-admin`, which stands alone.
take_flags : List String → Flags → Option Flags
unfolding set_flag
take_flags [] f = some f
take_flags (flag ∷ []) f = if str_eq flag "-admin" then some (record f { admin = true }) else none
take_flags (flag ∷ v ∷ rest) f = elim (str_eq flag "-admin") [
  | true ↦ take_flags (v ∷ rest) (record f { admin = true })
  | false ↦ take_flags rest (set_flag flag v f)
]

request_by : Option String → Option String → Option (Option ℤ) → Flags → Option CreateEntryRequest
request_by (some spiffe_id) (some parent_id) (some (some ttl)) f = some (record {
  spiffe_id = spiffe_id;
  parent_id = parent_id;
  selectors = f.selectors;
  ttl = ttl;
  admin = f.admin;
  dns_names = f.dns_names;
})
request_by _ _ _ f = none

abbrev request_from : Option Flags → Option CreateEntryRequest
request_from none = none
request_from (some f) = request_by f.spiffe_id f.parent_id (Option.map parse_int f.ttl) f

-- The request that the arguments of `entry create` stand for.
unfoldable pub read_args : List String → Option CreateEntryRequest
unfolding take_flags request_by parse_int
read_args (entry ∷ create ∷ rest) =
    if str_eq entry "entry" && str_eq create "create"
    then request_from (take_flags rest no_flags)
    else none
read_args _ = none

take_selectors :
    (vs rest : List String) (f : Flags)
    → take_flags (flagged "-selector" vs ++ rest) f
      ≡ take_flags rest (record f { selectors = f.selectors ++ vs })
unfolding take_flags set_flag
take_selectors [] rest f =
    ap (λ ss. take_flags rest (record f { selectors = ss })) (sym (append-nil f.selectors))
take_selectors (v ∷ vs) rest f =
    take_selectors vs rest (record f { selectors = f.selectors ++ v ∷ [] })
    ∙ ap (λ ss. take_flags rest (record f { selectors = ss }))
        (append_assoc f.selectors (v ∷ []) vs)

take_dns_names :
    (vs rest : List String) (f : Flags)
    → take_flags (flagged "-dns" vs ++ rest) f
      ≡ take_flags rest (record f { dns_names = f.dns_names ++ vs })
unfolding take_flags set_flag
take_dns_names [] rest f =
    ap (λ ss. take_flags rest (record f { dns_names = ss })) (sym (append-nil f.dns_names))
take_dns_names (v ∷ vs) rest f =
    take_dns_names vs rest (record f { dns_names = f.dns_names ++ v ∷ [] })
    ∙ ap (λ ss. take_flags rest (record f { dns_names = ss }))
        (append_assoc f.dns_names (v ∷ []) vs)

take_admin :
    (b : Bool) (f : Flags)
    → f.admin ≡ false
    → take_flags (if b then "-admin" ∷ [] else []) f ≡ some (record f { admin = b })
unfolding take_flags
take_admin true f h = refl
take_admin false f h = ap (λ b. some (record f { admin = b })) h

-- The arguments of the command carry the whole request: a program that reads the flags, of which
-- each but `-admin` takes the next argument, finds the request again, whatever its texts are.
pub read_args-create_args : (req : CreateEntryRequest) → read_args (create_args req) ≡ some req
unfolding read_args create_args take_flags set_flag request_by
read_args-create_args req =
    ap request_from (
      take_selectors req.selectors
        (flagged "-dns" req.dns_names ++ (if req.admin then "-admin" ∷ [] else [])) _
      ∙ take_dns_names req.dns_names (if req.admin then "-admin" ∷ [] else []) _
      ∙ take_admin req.admin _ refl)
    ∙ rw (parse_int-show_ℤ req.ttl) refl
