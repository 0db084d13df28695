-- ===== src/Navbar.antt =====
-- dashboard/frontend/src/components/Navbar.tsx: the links to the pages, with the one that is
-- active.
mod Tests
use zerokey.Base.{
  ◌≡◌, refl, inl, inr, ◌⊎◌, String, Bool, true, List, [], ◌∷◌, map, keep, In, str_eq,
}

pub record NavItem : Type 0 where
  pub name : String
  pub href : String

pub record NavLink : Type 0 where
  pub name : String
  pub href : String
  pub is_active : Bool

abbrev pub nav_items : List NavItem
nav_items =
    record { name = "Topology & Cluster"; href = "/" }
    ∷ record { name = "Workload Entries"; href = "/entries" }
    ∷ record { name = "Node Agents & Tokens"; href = "/agents" }
    ∷ record { name = "mTLS Sandbox"; href = "/playground" }
    ∷ record { name = "OIDC & JWKS"; href = "/oidc" }
    ∷ record { name = "Telemetry & Audit"; href = "/observability" }
    ∷ []

link_of : String → NavItem → NavLink
link_of pathname item = record {
  name = item.name;
  href = item.href;
  is_active = str_eq pathname item.href;
}

unfoldable pub links : String → List NavLink
unfolding link_of
links pathname = map (link_of pathname) nav_items
