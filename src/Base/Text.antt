-- ===== src/Base/Text.antt =====
-- The text functions of JavaScript and Python that the dashboard calls: `trim`, `includes`,
-- `parseInt`, `strip`, `split`, and a number printed in decimal. Texts are sequences of code
-- points; a parsed number is exact, where JavaScript rounds above 2 ^ 53.
pub mod Trim
pub mod Includes
pub mod Numbers
pub mod Figures
pub mod Split
use Prim.Native.Char.{Char, code}
use Prim.Native.Nat.{ℕ, zero, suc, ◌+◌, ◌-◌, ◌*◌, ◌/◌, ◌%◌}
use Prim.Native.String.{String, [], ◌∷◌}
use mathlib.Core.Bool.{Bool, true, false, ◌&&◌, ◌||◌}
use mathlib.Core.Option.{Option, none, some}
use text.Mathlib.Text.{◌==◌ as str_eq}
use zerokey.Base.Tests.{ltb, leb, nat_eq, if◌then◌else◌}
use zerokey.Base.Int.{ℤ, pos, negsuc}

-- White space and line ends, by code point.
is_white : ℕ → Bool
is_white c =
    (leb 9 c && leb c 13)
    || nat_eq c 32
    || nat_eq c 0xa0
    || nat_eq c 0x1680
    || (leb 0x2000 c && leb c 0x200a)
    || nat_eq c 0x2028
    || nat_eq c 0x2029
    || nat_eq c 0x202f
    || nat_eq c 0x205f
    || nat_eq c 0x3000
    || nat_eq c 0xfeff

-- White space for Python's `str.strip`.
unfoldable pub is_space : ℕ → Bool
is_space c =
    (leb 9 c && leb c 13)
    || (leb 28 c && leb c 32)
    || nat_eq c 0x85
    || nat_eq c 0xa0
    || nat_eq c 0x1680
    || (leb 0x2000 c && leb c 0x200a)
    || nat_eq c 0x2028
    || nat_eq c 0x2029
    || nat_eq c 0x202f
    || nat_eq c 0x205f
    || nat_eq c 0x3000

unfoldable pub trim_start : (ℕ → Bool) → String → String
trim_start white [] = []
trim_start white (c ∷ s) = let rest = trim_start white s in if white (code c) then rest else c ∷ s

trim_end : (ℕ → Bool) → String → String
trim_end white [] = []
trim_end white (c ∷ s) =
    let rest = trim_end white s in if white (code c) && str_eq rest "" then [] else c ∷ rest

trim_by : (ℕ → Bool) → String → String
unfolding trim_start trim_end
trim_by white s = trim_end white (trim_start white s)

-- `s.trim()`
unfoldable pub trim : String → String
unfolding trim_by is_white
trim s = trim_by is_white s

-- Python's `s.strip()`
unfoldable pub strip : String → String
unfolding trim_by is_space
strip s = trim_by is_space s

-- Python's `s.startswith(prefix)`, its prefix first.
unfoldable pub has_prefix : String → String → Bool
has_prefix [] s = true
has_prefix (d ∷ t) [] = false
has_prefix (d ∷ t) (c ∷ s) = nat_eq (code d) (code c) && has_prefix t s

-- `s.includes(t)`
unfoldable pub includes : String → String → Bool
unfolding has_prefix
includes [] t = has_prefix t []
includes (c ∷ s) t = has_prefix t (c ∷ s) || includes s t

-- The digits of a number, in front of what follows. One round for each digit.
digit_char : ℕ → Char
digit_char d =
    if nat_eq d 0
    then "0"
    else if nat_eq d 1
    then "1"
    else if nat_eq d 2
    then "2"
    else if nat_eq d 3
    then "3"
    else if nat_eq d 4
    then "4"
    else if nat_eq d 5
    then "5"
    else if nat_eq d 6
    then "6"
    else if nat_eq d 7
    then "7"
    else if nat_eq d 8
    then "8"
    else "9"

digits_from : ℕ → ℕ → String → String
digits_from zero n rest = rest
digits_from (suc fuel) n rest =
    let more = digits_from fuel (n / 10) (digit_char (n % 10) ∷ rest) in
    if ltb n 10 then digit_char n ∷ rest else more

unfoldable pub show_ℕ : ℕ → String
unfolding digits_from digit_char
show_ℕ n = digits_from (suc n) n []

-- `String(n)` for an integer
unfoldable pub show_ℤ : ℤ → String
unfolding show_ℕ
show_ℤ (pos n) = show_ℕ n
show_ℤ (negsuc n) = "-" ∷ show_ℕ (suc n)

-- The value of a digit, below the radix.
digit_value : ℕ → ℕ → Option ℕ
digit_value radix c =
    let v =
      (if leb b'0' c && leb c b'9'
        then c - b'0'
        else if leb b'a' c && leb c b'z'
        then c - b'a' + 10
        else if leb b'A' c && leb c b'Z'
        then c - b'A' + 10
        else radix) in
    if ltb v radix then some v else none

-- The longest run of digits.
read_digits : ℕ → ℕ → String → ℕ
read_digits radix acc [] = acc
read_digits radix acc (c ∷ s) = elim (digit_value radix (code c)) [
  | none ↦ acc
  | some v ↦ read_digits radix (acc * radix + v) s
]

-- `none` is NaN: there is no digit.
read_run : ℕ → String → Option ℕ
read_run radix [] = none
read_run radix (c ∷ s) = elim (digit_value radix (code c)) [
  | none ↦ none
  | some v ↦ some (read_digits radix v s)
]

-- Behind the sign: "0x" and "0X" stand for radix 16.
read_magnitude : String → Option ℕ
read_magnitude [] = none
read_magnitude (c ∷ []) = read_run 10 (c ∷ [])
read_magnitude (c ∷ d ∷ s) =
    if nat_eq (code c) b'0' && (nat_eq (code d) b'x' || nat_eq (code d) b'X')
    then read_run 16 s
    else read_run 10 (c ∷ d ∷ s)

abbrev signed : Bool → Option ℕ → Option ℤ
signed _ none = none
signed false (some n) = some (pos n)
signed true (some zero) = some (pos zero)
signed true (some (suc n)) = some (negsuc n)

read_signed : String → Option ℤ
read_signed [] = none
read_signed (c ∷ s) =
    if nat_eq (code c) b'-'
    then signed true (read_magnitude s)
    else if nat_eq (code c) b'+'
    then signed false (read_magnitude s)
    else signed false (read_magnitude (c ∷ s))

-- `parseInt(s)`
unfoldable pub parse_int : String → Option ℤ
unfolding trim_start is_white read_signed read_magnitude read_run read_digits digit_value
parse_int s = read_signed (trim_start is_white s)

-- `parseInt(value) || d`
unfoldable pub parse_int_or : String → ℕ → ℤ
parse_int_or value d = elim (parse_int value) [
  | none ↦ pos d
  | some n ↦ elim n [ pos (zero) ↦ pos d | other ↦ other ]
]
