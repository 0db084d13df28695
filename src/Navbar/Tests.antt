-- ===== src/Navbar/Tests.antt =====
-- The links on two pages.
use zerokey.Base.{◌≡◌, refl, true, false, [], ◌∷◌, map}
use zerokey.Navbar.{links}

on_entries :
    map (λ l. l.is_active) (links "/entries") ≡ false ∷ true ∷ false ∷ false ∷ false ∷ false ∷ []
unfolding links
on_entries = refl

on_root : map (λ l. l.is_active) (links "/") ≡ true ∷ false ∷ false ∷ false ∷ false ∷ false ∷ []
unfolding links
on_root = refl
