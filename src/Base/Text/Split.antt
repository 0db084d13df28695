-- ===== src/Base/Text/Split.antt =====
-- What the backend uses of Python's strings: `split`, `splitlines`, and the parts of a line that
-- has a colon.
use Prim.Native.Char.{Char, code}
use Prim.Native.Nat.{ℕ, zero, suc}
use Prim.Native.String.{String, [], ◌∷◌}
use mathlib.Core.Bool.{Bool, true, false, ◌&&◌, ◌||◌}
use mathlib.Core.Option.{Option, none, some}
use mathlib.Core.List.{List}
use zerokey.Base.Tests.{nat_eq, leb, if◌then◌else◌}
use zerokey.Base.Text.{has_prefix}

unfoldable pub size : String → ℕ
size [] = 0
size (c ∷ s) = suc (size s)

-- All but the first character.
unfoldable pub rest_size : String → ℕ
unfolding size
rest_size [] = 0
rest_size (c ∷ s) = size s

-- A character in front of the first piece.
abbrev pub onto : Char → List String → List String
onto c List.[] = List.◌∷◌ (c ∷ []) List.[]
onto c (List.◌∷◌ p ps) = List.◌∷◌ (c ∷ p) ps

-- The pieces between the separators, while `k` characters of a separator are left.
unfoldable pub split_from : String → ℕ → String → List String
unfolding rest_size
split_from sep k [] = List.◌∷◌ [] List.[]
split_from sep (suc k) (c ∷ s) = split_from sep k s
split_from sep zero (c ∷ s) = elim (has_prefix sep (c ∷ s)) [
  | true ↦ List.◌∷◌ [] (split_from sep (rest_size sep) s)
  | false ↦ onto c (split_from sep 0 s)
]

-- `s.split(sep)`, its separator first.
unfoldable pub split : String → String → List String
unfolding split_from
split sep s = split_from sep 0 s

-- The characters that end a line.
abbrev pub is_break : ℕ → Bool
is_break c =
    (leb 10 c && leb c 13)
    || (leb 28 c && leb c 30)
    || nat_eq c 0x85
    || nat_eq c 0x2028
    || nat_eq c 0x2029

-- The lines, where `after_cr` says that the last line ended with a carriage return.
unfoldable pub lines_from : Bool → String → List String
lines_from after_cr [] = List.[]
lines_from after_cr (c ∷ s) = elim (after_cr && nat_eq (code c) 10) [
  | true ↦ lines_from false s
  | false ↦ elim (is_break (code c)) [
    | true ↦ List.◌∷◌ [] (lines_from (nat_eq (code c) 13) s)
    | false ↦ onto c (lines_from false s)
  ]
]

-- `s.splitlines()`
unfoldable pub splitlines : String → List String
unfolding lines_from
splitlines s = lines_from false s

abbrev in_front : Char → Option (String × String) → Option (String × String)
in_front c none = none
in_front c (some (k, v)) = some (c ∷ k, v)

-- `line.split(":", 1)`, where the line has a colon.
unfoldable pub key_value : String → Option (String × String)
key_value [] = none
key_value (c ∷ s) =
    let rest = key_value s in if nat_eq (code c) b':' then some ([], s) else in_front c rest
