-- ===== src/Base/Text/Figures.antt =====
-- The characters of a printed integer.
use Prim.Native.Char.{Char, code}
use Prim.Native.Nat.{ℕ, zero, suc, ◌/◌, ◌%◌, ◌<◌}
use Prim.Native.String.{String, [], ◌∷◌}
use mathlib.Core.Path.{◌≡◌, refl, ap, ◌∙◌}
use mathlib.Core.Bool.{Bool, true, ◌&&◌, ◌||◌}
use mathlib.Core.Logic.{inl, inr}
use native.Mathlib.Omega.{arith}
use zerokey.Base.Tests.{Bool-cases, nat_eq, leb, ltb}
use zerokey.Base.Int.{ℤ, pos, negsuc}
use zerokey.Base.Text.{
  is_space, trim_start, trim_end, trim_by, strip, digit_char, digits_from, show_ℕ, show_ℤ,
}

-- A digit, or "-".
abbrev pub is_figure : ℕ → Bool
is_figure c = nat_eq c b'-' || (leb b'0' c && leb c b'9')

unfoldable pub are_figures : String → Bool
are_figures [] = true
are_figures (c ∷ s) = is_figure (code c) && are_figures s

digit_char-is_figure : (d : ℕ) → d < 10 → is_figure (code (digit_char d)) ≡ true
unfolding digit_char
digit_char-is_figure zero h = refl
digit_char-is_figure (suc zero) h = refl
digit_char-is_figure (suc (suc zero)) h = refl
digit_char-is_figure (suc (suc (suc zero))) h = refl
digit_char-is_figure (suc (suc (suc (suc zero)))) h = refl
digit_char-is_figure (suc (suc (suc (suc (suc zero))))) h = refl
digit_char-is_figure (suc (suc (suc (suc (suc (suc zero)))))) h = refl
digit_char-is_figure (suc (suc (suc (suc (suc (suc (suc zero))))))) h = refl
digit_char-is_figure (suc (suc (suc (suc (suc (suc (suc (suc zero)))))))) h = refl
digit_char-is_figure (suc (suc (suc (suc (suc (suc (suc (suc (suc zero))))))))) h = refl
digit_char-is_figure (suc (suc (suc (suc (suc (suc (suc (suc (suc (suc d)))))))))) h =
    absurd (omega arith)

digits_from-are_figures :
    (fuel n : ℕ) (rest : String)
    → are_figures rest ≡ true
    → are_figures (digits_from fuel n rest) ≡ true
unfolding digits_from are_figures
digits_from-are_figures zero n rest h = h
digits_from-are_figures (suc fuel) n rest h = elim (Bool-cases (ltb n 10)) [
  | inl small ↦ rw small (first (digit_char n) (digit_char-is_figure n (ground arith)))
  | inr large ↦ rw large (
      digits_from-are_figures fuel (n / 10) (digit_char (n % 10) ∷ rest)
        (first (digit_char (n % 10)) (digit_char-is_figure (n % 10) (omega arith))))
]
  where
    first : (c : Char) → is_figure (code c) ≡ true → are_figures (c ∷ rest) ≡ true
    first c k = ground arith

pub show_ℤ-are_figures : (z : ℤ) → are_figures (show_ℤ z) ≡ true
unfolding show_ℤ show_ℕ are_figures
show_ℤ-are_figures (pos n) = digits_from-are_figures (suc n) n [] refl
show_ℤ-are_figures (negsuc n) = digits_from-are_figures (suc (suc n)) (suc n) [] refl

trim_end-are_figures : (s : String) → are_figures s ≡ true → trim_end is_space s ≡ s
unfolding trim_end are_figures is_space
trim_end-are_figures [] h = refl
trim_end-are_figures (c ∷ s) h = let rest = trim_end-are_figures s (ground arith) in ground arith

trim_start-are_figures : (s : String) → are_figures s ≡ true → trim_start is_space s ≡ s
unfolding trim_start are_figures is_space
trim_start-are_figures [] h = refl
trim_start-are_figures (c ∷ s) h = ground arith

-- Stripping such a text changes nothing.
pub strip-are_figures : (s : String) → are_figures s ≡ true → strip s ≡ s
unfolding strip trim_by
strip-are_figures s h =
    ap (trim_end is_space) (trim_start-are_figures s h) ∙ trim_end-are_figures s h
