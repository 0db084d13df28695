-- ===== src/Base/Text/Includes.antt =====
-- `includes` finds exactly the texts that stand somewhere inside.
use Prim.Native.Char.{code}
use Prim.Native.Nat.{ℕ}
use Prim.Native.String.{String, [], ◌∷◌, ◌++◌}
use mathlib.Core.Path.{◌≡◌, refl, ap, sym, ◌∙◌}
use mathlib.Core.Bool.{true}
use mathlib.Core.Logic.{◌↔◌, inl, inr}
use native.Mathlib.Omega.{arith}
use text.Mathlib.TextEquality.{Char-path}
use text.Mathlib.TextLemmas.{nil-append, cons-append}
use zerokey.Base.Tests.{Bool-cases, nat_eq}
use zerokey.Base.Text.{has_prefix, includes}

-- `t` stands in `s`, with some text before it and some behind it.
abbrev pub Inside : String → String → Type 0
Inside t s = (before : String) × (behind : String) × (s ≡ before ++ (t ++ behind))

has_prefix_sound : (t s : String) → has_prefix t s ≡ true → (behind : String) × (s ≡ t ++ behind)
unfolding has_prefix
has_prefix_sound [] s h = (s, sym (nil-append s))
has_prefix_sound (d ∷ t) [] h = cc
has_prefix_sound (d ∷ t) (c ∷ s) h =
    let (behind, e) = has_prefix_sound t s (ground arith) in
    let same : c ≡ d = Char-path c d (ground arith) in (behind, rw (cons-append, same, e))

nat_eq_refl : (n : ℕ) → nat_eq n n ≡ true
nat_eq_refl n = ground arith

pub has_prefix-append : (t behind : String) → has_prefix t (t ++ behind) ≡ true
unfolding has_prefix
has_prefix-append [] behind = refl
has_prefix-append (d ∷ t) behind =
    rw (cons-append, has_prefix) (rw (nat_eq_refl (code d)) (has_prefix-append t behind))

includes_sound : (s t : String) → includes s t ≡ true → Inside t s
unfolding includes
includes_sound [] t h =
    let (behind, e) = has_prefix_sound t [] h in ([], behind, e ∙ sym (nil-append _))
includes_sound (c ∷ s) t h = elim (Bool-cases (has_prefix t (c ∷ s))) [
  | inl here ↦
      let (behind, e) = has_prefix_sound t (c ∷ s) here in ([], behind, e ∙ sym (nil-append _))
  | inr later ↦
      let (before, behind, e) = includes_sound s t (rw later at h) in
      (c ∷ before, behind, rw (cons-append) (ap (λ r. c ∷ r) e))
]

includes-append : (before t behind : String) → includes (before ++ (t ++ behind)) t ≡ true
unfolding includes
includes-append [] t behind = rw nil-append (at_front (t ++ behind) (has_prefix-append t behind))
  where
    at_front : (s : String) → has_prefix t s ≡ true → includes s t ≡ true
    at_front [] h = h
    at_front (c ∷ s) h = rw h
includes-append (c ∷ before) t behind =
    rw (cons-append, includes) (ground (arith, includes-append before t behind))

-- `s.includes(t)` holds exactly when `t` stands in `s`.
pub includes_iff : (s t : String) → (includes s t ≡ true) ↔ Inside t s
includes_iff s t = (includes_sound s t, λ p. rw (p.2) (includes-append p.0 t p.1))

-- The empty text stands in every text.
pub includes-nil : (s : String) → includes s [] ≡ true
unfolding includes
includes-nil [] = refl
includes-nil (c ∷ s) = refl
