-- ===== src/Backend/Schemas/Reading.antt =====
-- What the backend reads from the bodies that the dashboard prints.
use zerokey.Base.{
  value_or, arith, ℤ, pos, ◌≡◌, refl, String, Bool, false, ◌&&◌, Option, none, some, List, [], ◌∷◌,
  if◌then◌else◌,
}
use zerokey.Api.Types.{CreateEntryPayload}
use zerokey.Api.Call.{texts, create_entry_json}
use zerokey.Api.Fetch.{member}
use zerokey.Backend.Schemas.{
  Lax, CreateEntryRequest, create_entry_request, to_strs, some_item, within,
}

pub to_strs-texts : (ss : List String) → to_strs (texts ss) ≡ some ss
unfolding texts
to_strs-texts [] = refl
to_strs-texts (s ∷ ss) = rw (to_strs-texts ss)

-- The request that a payload stands for: what it leaves out has the value of the schema.
abbrev pub request_of : CreateEntryPayload → CreateEntryRequest
request_of p = record {
  spiffe_id = p.spiffe_id;
  parent_id = p.parent_id;
  selectors = p.selectors;
  ttl = value_or (pos 3600) p.ttl;
  admin = value_or false p.admin;
  dns_names = value_or [] p.dns_names;
}

-- What the schema asks of it.
abbrev pub is_accepted : CreateEntryPayload → Bool
is_accepted p = some_item p.selectors && within (pos 60) (pos 86400) (value_or (pos 3600) p.ttl)

module _ (lax : Lax) where
  reads :
      (spiffe_id parent_id : String) (ss : List String) (ttl : Option ℤ) (admin : Option Bool)
      (dns_names : Option (List String)) (p : CreateEntryPayload)
      → p ≡ record {
        spiffe_id = spiffe_id;
        parent_id = parent_id;
        selectors = ss;
        ttl = ttl;
        admin = admin;
        dns_names = dns_names;
      }
      → create_entry_request lax (create_entry_json p)
        ≡ (if is_accepted p then some (request_of p) else none)
  unfolding create_entry_request create_entry_json member
  reads i j ss none none none p e = rw e (ground (arith, to_strs-texts ss))
  reads i j ss none none (some ds) p e = rw e (ground (arith, to_strs-texts ss, to_strs-texts ds))
  reads i j ss none (some b) none p e = rw e (ground (arith, to_strs-texts ss, lax.to_bool-bool b))
  reads i j ss none (some b) (some ds) p e =
      rw e (ground (arith, to_strs-texts ss, to_strs-texts ds, lax.to_bool-bool b))
  reads i j ss (some n) none none p e = rw e (ground (arith, to_strs-texts ss, lax.to_int-int n))
  reads i j ss (some n) none (some ds) p e =
      rw e (ground (arith, to_strs-texts ss, to_strs-texts ds, lax.to_int-int n))
  reads i j ss (some n) (some b) none p e =
      rw e (ground (arith, to_strs-texts ss, lax.to_bool-bool b, lax.to_int-int n))
  reads i j ss (some n) (some b) (some ds) p e =
      rw e
        (ground (arith, to_strs-texts ss, to_strs-texts ds, lax.to_bool-bool b, lax.to_int-int n))

  -- The backend reads from the body of a registration exactly the request that the dashboard means,
  -- or refuses it, if it has no selector or a lifetime that is not from 60 to 86400 seconds.
  pub create_entry_request-create_entry_json :
      (p : CreateEntryPayload)
      → create_entry_request lax (create_entry_json p)
        ≡ (if is_accepted p then some (request_of p) else none)
  create_entry_request-create_entry_json p =
      reads p.spiffe_id p.parent_id p.selectors p.ttl p.admin p.dns_names p refl
