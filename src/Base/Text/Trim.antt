-- ===== src/Base/Text/Trim.antt =====
-- Trimming a text.
use Prim.Native.Char.{code}
use Prim.Native.Nat.{ℕ}
use Prim.Native.String.{String, [], ◌∷◌}
use mathlib.Core.Path.{◌≡◌, refl, ap, ◌∙◌}
use mathlib.Core.Bool.{Bool, false, ◌&&◌}
use mathlib.Core.Logic.{inl, inr}
use text.Mathlib.Text.{◌==◌ as str_eq}
use zerokey.Base.Tests.{Bool-cases}
use zerokey.Base.Text.{is_white, trim_start, trim_end, trim_by, trim}

module _ (white : ℕ → Bool) where
  -- A text that does not begin with white space.
  StartsClean : String → Type 0
  StartsClean [] = Unit
  StartsClean (c ∷ s) = white (code c) ≡ false

  trim_start-StartsClean : (s : String) → StartsClean (trim_start white s)
  unfolding trim_start StartsClean
  trim_start-StartsClean [] = tt
  trim_start-StartsClean (c ∷ s) = elim (Bool-cases (white (code c))) [
    | inl w ↦ rw w (trim_start-StartsClean s)
    | inr w ↦ rw w w
  ]

  trim_start_of_StartsClean : (s : String) → StartsClean s → trim_start white s ≡ s
  unfolding trim_start StartsClean
  trim_start_of_StartsClean [] h = refl
  trim_start_of_StartsClean (c ∷ s) h = rw h

  trim_end-StartsClean : (s : String) → StartsClean s → StartsClean (trim_end white s)
  unfolding trim_end StartsClean
  trim_end-StartsClean [] h = tt
  trim_end-StartsClean (c ∷ s) h = rw h h

  trim_end_idem : (s : String) → trim_end white (trim_end white s) ≡ trim_end white s
  unfolding trim_end
  trim_end_idem [] = refl
  trim_end_idem (c ∷ s) = elim (Bool-cases (white (code c) && str_eq (trim_end white s) "")) [
    | inl w ↦ rw w
    | inr w ↦ rw w (rw (trim_end_idem s, trim_end) (rw w))
  ]

  trim_by_idem : (s : String) → trim_by white (trim_by white s) ≡ trim_by white s
  unfolding trim_by
  trim_by_idem s =
      ap (trim_end white)
        (trim_start_of_StartsClean _ (trim_end-StartsClean _ (trim_start-StartsClean s)))
      ∙ trim_end_idem (trim_start white s)

-- Trimming a trimmed text changes nothing.
pub trim_idem : (s : String) → trim (trim s) ≡ trim s
unfolding trim
trim_idem s = trim_by_idem is_white s
