-- ===== src/Backend/Spire/Listing.antt =====
-- services/spire_service.py, `list_entries`: what the backend reads from the output of the command
-- line.
use Prim.Native.String
use zerokey.Base.{
  value_or, ℤ, pos, String, Bool, false, ◌||◌, Option, none, some, List, [], ◌∷◌, ◌++◌, template,
  truthy, str_eq, if◌then◌else◌,
}
use zerokey.Base.Text.{strip}
use zerokey.Base.Text.Split.{split, splitlines, key_value}
use zerokey.Api.Types.{WorkloadEntry}
use zerokey.Backend.Flow.{is_zero}
use zerokey.Backend.Spire.{Ran, Host, exec_command}

-- `entry_dict`, where a key that is not set is `none`.
pub record EntryDict : Type 0 where
  pub id : Option String
  pub spiffe_id : Option String
  pub parent_id : Option String
  pub ttl : Option ℤ
  pub admin : Option Bool
  pub selectors : List String
  pub dns_names : List String

abbrev pub empty_entry : EntryDict
empty_entry = record {
  id = none;
  spiffe_id = none;
  parent_id = none;
  ttl = none;
  admin = none;
  selectors = [];
  dns_names = [];
}

-- The loop over the lines.
abbrev pub over_lines {ℓ} : {D : Type ℓ} → (D → String → D) → D → List String → D
over_lines set d [] = d
over_lines set d (line ∷ lines) = over_lines set (set d line) lines

abbrev pub appended : {A : Type 0} → Option A → List A → List A
appended none rest = rest
appended (some a) rest = a ∷ rest

module _ (host : Host) where
  unfoldable pub set_entry : String → String → EntryDict → EntryDict
  set_entry k v d =
      if str_eq k "entry id"
      then record d { id = some v }
      else if str_eq k "spiffe id"
      then record d { spiffe_id = some v }
      else if str_eq k "parent id"
      then record d { parent_id = some v }
      else if str_eq k "x509-svid ttl" || str_eq k "ttl"
      then record d { ttl = some (value_or (pos 3600) (host.to_int v)) }
      else if str_eq k "selector"
      then record d { selectors = d.selectors ++ v ∷ [] }
      else if str_eq k "dns name"
      then record d { dns_names = d.dns_names ++ v ∷ [] }
      else if str_eq k "admin"
      then record d { admin = some (str_eq (host.lower v) "true") }
      else d

  abbrev set_by : EntryDict → Option (String × String) → EntryDict
  set_by d none = d
  set_by d (some (k, v)) = set_entry (host.lower (strip k)) (strip v) d

  unfoldable pub entry_line : EntryDict → String → EntryDict
  unfolding set_entry key_value strip
  entry_line d line = set_by d (key_value line)

  unfoldable pub entry_by : EntryDict → Option String → Option String → Option WorkloadEntry
  entry_by d (some id) (some spiffe_id) = some (record {
    id = id;
    spiffe_id = spiffe_id;
    parent_id =
        value_or (template ("spiffe://" ∷ host.trust_domain ∷ "/node/agent" ∷ [])) d.parent_id;
    selectors = d.selectors;
    ttl = value_or (pos 3600) d.ttl;
    admin = value_or false d.admin;
    dns_names = d.dns_names;
    created_at = none;
    expires_at = none;
  })
  entry_by d _ _ = none

  -- A dictionary without an identifier or a SPIFFE ID is dropped.
  abbrev pub entry_of : EntryDict → Option WorkloadEntry
  unfolding entry_by
  entry_of d = entry_by d d.id d.spiffe_id

  -- The entries of the pieces between two "Entry ID".
  unfoldable pub entries_of : List String → List WorkloadEntry
  unfolding strip splitlines entry_line entry_by
  entries_of [] = []
  entries_of (raw ∷ raws) =
      let rest = entries_of raws in
      if truthy (strip raw)
      then appended
          (entry_of (over_lines entry_line empty_entry (splitlines (String.◌++◌ "Entry ID" raw))))
          rest
      else rest

  abbrev demo_entry : String → String → WorkloadEntry
  demo_entry id name = record {
    id = id;
    spiffe_id = template ("spiffe://" ∷ host.trust_domain ∷ "/" ∷ name ∷ []);
    parent_id = template ("spiffe://" ∷ host.trust_domain ∷ "/node/agent" ∷ []);
    selectors = template ("docker:label:workload:" ∷ name ∷ []) ∷ [];
    ttl = pos 3600;
    admin = false;
    dns_names = name ∷ [];
    created_at = none;
    expires_at = none;
  }

  -- What stands in for the entries that a failed run did not give.
  demo_entries : List WorkloadEntry
  demo_entries =
      demo_entry "entry-backend-001" "backend-api"
      ∷ demo_entry "entry-client-002" "client-worker"
      ∷ []

  unfoldable pub read_entries : Ran → List WorkloadEntry
  unfolding entries_of split is_zero demo_entries
  read_entries ran =
      if is_zero ran.returncode
      then if truthy ran.stdout then entries_of (split "Entry ID" ran.stdout) else demo_entries
      else demo_entries

  unfoldable pub list_entries : List WorkloadEntry
  unfolding read_entries exec_command
  list_entries = read_entries (exec_command host ("entry" ∷ "show" ∷ []))
