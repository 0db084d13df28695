-- ===== src/Base/Text/Numbers.antt =====
-- Printing a number and reading it back.
use Prim.Native.Char.{Char, code}
use Prim.Native.Nat.{ℕ, zero, suc, ◌/◌, ◌%◌, ◌<◌}
use Prim.Native.String.{String, [], ◌∷◌}
use mathlib.Core.Path.{◌≡◌, refl, ◌∙◌, ap}
use mathlib.Core.Bool.{true, false}
use mathlib.Core.Option.{some}
use native.Mathlib.Omega.{arith}
use zerokey.Base.Tests.{ltb, nat_eq, Bool-cases}
use mathlib.Core.Logic.{◌≢◌, inl, inr}
use zerokey.Base.Int.{ℤ, pos, negsuc}
use zerokey.Base.Text.{
  is_white, trim_start, digit_char, digits_from, show_ℕ, show_ℤ, digit_value, read_digits, read_run,
  read_magnitude, signed, read_signed, parse_int, parse_int_or,
}

-- A printed digit reads as itself, and is neither white space nor a sign; only 0 is printed "0".
abbrev IsDigit : ℕ → ℕ → Type 0
IsDigit d c =
    (digit_value 10 c ≡ some d)
    × (is_white c ≡ false)
    × (nat_eq c b'-' ≡ false)
    × (nat_eq c b'+' ≡ false)
    × (nat_eq c b'0' ≡ nat_eq d 0)

digit_char_lem : (d : ℕ) → d < 10 → IsDigit d (code (digit_char d))
unfolding digit_char digit_value is_white
digit_char_lem zero h = (refl, refl, refl, refl, refl)
digit_char_lem (suc zero) h = (refl, refl, refl, refl, refl)
digit_char_lem (suc (suc zero)) h = (refl, refl, refl, refl, refl)
digit_char_lem (suc (suc (suc zero))) h = (refl, refl, refl, refl, refl)
digit_char_lem (suc (suc (suc (suc zero)))) h = (refl, refl, refl, refl, refl)
digit_char_lem (suc (suc (suc (suc (suc zero))))) h = (refl, refl, refl, refl, refl)
digit_char_lem (suc (suc (suc (suc (suc (suc zero)))))) h = (refl, refl, refl, refl, refl)
digit_char_lem (suc (suc (suc (suc (suc (suc (suc zero))))))) h = (refl, refl, refl, refl, refl)
digit_char_lem (suc (suc (suc (suc (suc (suc (suc (suc zero)))))))) h =
    (refl, refl, refl, refl, refl)
digit_char_lem (suc (suc (suc (suc (suc (suc (suc (suc (suc zero))))))))) h =
    (refl, refl, refl, refl, refl)
digit_char_lem (suc (suc (suc (suc (suc (suc (suc (suc (suc (suc d)))))))))) h =
    absurd (omega arith)

-- Reading the printed digits from nothing gives the number, and goes on with what follows.
read_digits-digits_from :
    (fuel n : ℕ) (rest : String)
    → n < fuel
    → read_digits 10 0 (digits_from fuel n rest) ≡ read_digits 10 n rest
unfolding digits_from read_digits
read_digits-digits_from zero n rest h = elim h [ ]
read_digits-digits_from (suc fuel) n rest h = elim (Bool-cases (ltb n 10)) [
  | inl small ↦ rw small (
      rw ((digit_char_lem n (ground arith)).0, read_digits)
        (ap (λ k. read_digits 10 k rest) (omega arith)))
  | inr large ↦ rw large (
      read_digits-digits_from fuel (n / 10) (digit_char (n % 10) ∷ rest) (ground arith)
      ∙ rw ((digit_char_lem (n % 10) (omega arith)).0, read_digits)
          (ap (λ k. read_digits 10 k rest) (omega arith)))
]

-- The printed digits begin with a digit, which is 0 only for the number 0.
abbrev Leads : ℕ → String → Type 0
Leads n s = (d : ℕ) × (t : String) × (s ≡ digit_char d ∷ t) × (d < 10) × (0 < n → 0 < d)

digits_from-Leads : (fuel n : ℕ) (rest : String) → n < fuel → Leads n (digits_from fuel n rest)
unfolding digits_from
digits_from-Leads zero n rest h = elim h [ ]
digits_from-Leads (suc fuel) n rest h = elim (Bool-cases (ltb n 10)) [
  | inl small ↦ rw small (n, rest, refl, ground arith, λ p. p)
  | inr large ↦
      let (d, t, e, b, p) =
        digits_from-Leads fuel (n / 10) (digit_char (n % 10) ∷ rest) (ground arith) in
      rw large (d, t, e, b, λ q. p (ground arith))
]

read_run-digit :
    (d : ℕ) (t : String)
    → d < 10
    → read_run 10 (digit_char d ∷ t) ≡ some (read_digits 10 0 (digit_char d ∷ t))
unfolding read_run read_digits
read_run-digit d t h =
    rw ((digit_char_lem d h).0, read_run, read_digits)
      (ap (λ k. some (read_digits 10 k t)) (omega arith))

read_magnitude-run :
    (c : Char) (t : String)
    → nat_eq (code c) b'0' ≡ false
    → read_magnitude (c ∷ t) ≡ read_run 10 (c ∷ t)
unfolding read_magnitude
read_magnitude-run c [] h = refl
read_magnitude-run c (d ∷ t) h = rw h

digit_ne_zero : (d : ℕ) → 0 < d → nat_eq d 0 ≡ false
digit_ne_zero d h = ground arith

read_magnitude-digits :
    (n : ℕ) (s : String) → Leads n s → read_digits 10 0 s ≡ n → 0 < n → read_magnitude s ≡ some n
read_magnitude-digits n s (d, t, e, b, p) value h = rw e (
    read_magnitude-run (digit_char d) t ((digit_char_lem d b).4 ∙ digit_ne_zero d (p h))
    ∙ read_run-digit d t b
    ∙ ap some (rw e at value))

read_signed-digits :
    (n : ℕ) (s : String)
    → Leads n s
    → read_signed (trim_start is_white s) ≡ signed false (read_magnitude s)
unfolding read_signed trim_start
read_signed-digits n s (d, t, e, b, p) =
    let f = digit_char_lem d b in rw e (rw (f.1) (rw (f.2) (rw (f.3))))

read_magnitude-show_ℕ : (n : ℕ) → read_magnitude (show_ℕ n) ≡ some n
unfolding show_ℕ parse_int
read_magnitude-show_ℕ zero = refl
read_magnitude-show_ℕ (suc n) =
    read_magnitude-digits (suc n) _ (digits_from-Leads (suc (suc n)) (suc n) [] (omega arith))
      (read_digits-digits_from (suc (suc n)) (suc n) [] (omega arith)) (omega arith)

-- A printed integer is read back as it was.
pub parse_int-show_ℤ : (z : ℤ) → parse_int (show_ℤ z) ≡ some z
unfolding parse_int show_ℤ
parse_int-show_ℤ (pos n) =
    read_signed-digits n (show_ℕ n) (digits_from-Leads (suc n) n [] (omega arith))
    ∙ ap (signed false) (read_magnitude-show_ℕ n)
parse_int-show_ℤ (negsuc n) = ap (signed true) (read_magnitude-show_ℕ (suc n))

-- A number read with a default is never 0, whatever is typed, if the default is not.
pub parse_int_or-ne-zero : (value : String) (d : ℕ) → d ≢ 0 → parse_int_or value d ≢ pos 0
unfolding parse_int_or
parse_int_or-ne-zero value d h = ground arith

-- A number other than 0 that an input shows is read back unchanged.
pub parse_int_or-show_ℤ : (n : ℤ) (d : ℕ) → n ≢ pos 0 → parse_int_or (show_ℤ n) d ≡ n
unfolding parse_int_or
parse_int_or-show_ℤ n d h = rw (parse_int-show_ℤ n, parse_int_or) (ground arith)
