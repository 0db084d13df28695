-- ===== src/Runtime/World/Balance.antt =====
-- How many functions hold a flag, against the flag.
use zerokey.Base.{bit, ℕ, ◌+◌, ◌≤◌, ◌≡◌, refl, Bool, true, false, arith}

-- How the number of holders bounds the flag.
abbrev pub Balance : Bool → ℕ → Bool → Type 0
Balance true holders up = holders ≡ bit up
Balance false holders up = bit up ≤ holders

pub no_holders_lem : (strict : Bool) (n : ℕ) (up : Bool) → Balance strict n up → n ≡ 0 → up ≡ false
no_holders_lem true n up b e = ground arith
no_holders_lem false n up b e = ground arith

pub bit-le-one : (b : Bool) → bit b ≤ 1
bit-le-one b = ground arith

pub lowest-Balance :
    (strict : Bool) (n : ℕ) (up : Bool) → Balance strict (n + 0) up → Balance strict n up
lowest-Balance true n up b = omega (arith, b)
lowest-Balance false n up b = omega (arith, b)

pub idle-Balance :
    (strict : Bool) (n : ℕ) (up : Bool) → Balance strict n up → Balance strict (n + 0) up
idle-Balance true n up b = omega (arith, b)
idle-Balance false n up b = omega (arith, b)

pub acquired-Balance :
    (strict : Bool) (n : ℕ) (up up' : Bool)
    → up ≡ false
    → up' ≡ true
    → Balance strict n up
    → Balance strict (n + 1) up'
acquired-Balance true n up up' d u b = ground arith
acquired-Balance false n up up' d u b = ground arith

pub raised-Balance :
    (strict : Bool) (n : ℕ) (held up up' : Bool)
    → (strict ≡ true → held ≡ true)
    → up' ≡ true
    → Balance strict (n + bit held) up
    → Balance strict (n + 1) up'
raised-Balance true n held up up' h e b = ground (arith, h refl)
raised-Balance false n held up up' h e b = ground arith

pub lowered-Balance :
    (strict : Bool) (n : ℕ) (held up up' : Bool)
    → (strict ≡ true → held ≡ true)
    → up' ≡ false
    → Balance strict (n + bit held) up
    → Balance strict (n + 0) up'
lowered-Balance true n held up up' h e b = ground (arith, h refl)
lowered-Balance false n held up up' h e b = ground arith
