-- ===== src/Base/Lists.antt =====
-- Lists measured by the native numbers, and predicates on them by recursion.
use Prim.Native.Nat.{ℕ, zero, suc, ◌+◌}
use mathlib.Core.Path.{◌≡◌, refl, ap, sym, ◌∙◌}
use mathlib.Core.Bool.{Bool, true, false, ◌||◌}
use mathlib.Core.Logic.{◌⊎◌, ◌↔◌, inl, inr}
use mathlib.Core.Option.{Option, none, some}
use mathlib.Core.List.{List, [], ◌∷◌, ◌++◌}
use native.Mathlib.Omega.{arith}
use zerokey.Base.Tests.{if◌then◌else◌, Bool-cases}

module _ {ℓ} {A : Type ℓ} where
  abbrev pub length : List A → ℕ
  length [] = 0
  length (x ∷ xs) = suc (length xs)

  abbrev pub get_elem? : List A → ℕ → Option A
  get_elem? [] i = none
  get_elem? (x ∷ xs) zero = some x
  get_elem? (x ∷ xs) (suc i) = get_elem? xs i

  -- The list without its element at a position; a position past the end removes nothing.
  abbrev pub remove_at : ℕ → List A → List A
  remove_at i [] = []
  remove_at zero (x ∷ xs) = xs
  remove_at (suc i) (x ∷ xs) = x ∷ remove_at i xs

  abbrev pub any : (A → Bool) → List A → Bool
  any p [] = false
  any p (x ∷ xs) = p x || any p xs

  -- `Array.prototype.filter`.
  abbrev pub keep : (A → Bool) → List A → List A
  keep p [] = []
  keep p (x ∷ xs) = let rest = keep p xs in if p x then x ∷ rest else rest

  -- The callback of `filter` with its index, counted from `i`.
  abbrev pub keep_indexed : (A → ℕ → Bool) → ℕ → List A → List A
  keep_indexed p i [] = []
  keep_indexed p i (x ∷ xs) =
      let rest = keep_indexed p (suc i) xs in if p x i then x ∷ rest else rest

  abbrev pub is_empty : List A → Bool
  is_empty [] = true
  is_empty (_ ∷ _) = false

  abbrev pub take : ℕ → List A → List A
  take zero xs = []
  take (suc n) [] = []
  take (suc n) (x ∷ xs) = x ∷ take n xs

  pub length-append : (xs ys : List A) → length (xs ++ ys) ≡ length xs + length ys
  length-append [] ys = omega arith
  length-append (x ∷ xs) ys = omega (arith, length-append xs ys)

module _ {ℓ κ} {A : Type ℓ} (P : A → Type κ) where
  abbrev pub All : List A → Type κ
  All [] = Unit
  All (x ∷ xs) = P x × All xs

  pub All-append : (xs ys : List A) → All xs → All ys → All (xs ++ ys)
  All-append [] ys _ k = k
  All-append (x ∷ xs) ys (p, h) k = (p, All-append xs ys h k)

  pub All-remove_at : (i : ℕ) (xs : List A) → All xs → All (remove_at i xs)
  All-remove_at i [] h = h
  All-remove_at zero (x ∷ xs) h = h.1
  All-remove_at (suc i) (x ∷ xs) h = (h.0, All-remove_at i xs h.1)

  pub All-get_elem? : (xs : List A) (i : ℕ) {a : A} → All xs → get_elem? xs i ≡ some a → P a
  All-get_elem? [] i h e = cc
  All-get_elem? (x ∷ xs) zero h e = ground (arith)
  All-get_elem? (x ∷ xs) (suc i) h e = All-get_elem? xs i h.1 e

  pub All-keep_indexed :
      (p : A → ℕ → Bool) (i : ℕ) (xs : List A) → All xs → All (keep_indexed p i xs)
  All-keep_indexed p i [] h = h
  All-keep_indexed p i (x ∷ xs) h = elim (Bool-cases (p x i)) [
    | inl kept ↦ rw kept (h.0, All-keep_indexed p (suc i) xs h.1)
    | inr left ↦ rw left (All-keep_indexed p (suc i) xs h.1)
  ]

  pub All-keep : (p : A → Bool) (xs : List A) → All xs → All (keep p xs)
  All-keep p [] h = h
  All-keep p (x ∷ xs) h = elim (Bool-cases (p x)) [
    | inl kept ↦ rw kept (h.0, All-keep p xs h.1)
    | inr left ↦ rw left (All-keep p xs h.1)
  ]

-- `x` is an element.
abbrev pub In : {A : Type 0} → A → List A → Type 0
In x [] = ⊥
In x (y ∷ ys) = (x ≡ y) ⊎ In x ys

false≢true : false ≡ true → ⊥
false≢true e = cc

module _ {A : Type 0} (p : A → Bool) where
  pub In-keep_iff : (x : A) (xs : List A) → In x (keep p xs) ↔ (In x xs × (p x ≡ true))
  In-keep_iff x [] = ((λ i. absurd i), (λ i. i.0))
  In-keep_iff x (y ∷ ys) = elim (Bool-cases (p y)) [
    | inl kept ↦ rw kept (
      (elim [
        | inl e ↦ (inl e, rw e kept)
        | inr i ↦ let (j, h) = (In-keep_iff x ys).0 i in (inr j, h)
      ]),
      λ (i, h). elim i [ inl e ↦ inl e | inr j ↦ inr ((In-keep_iff x ys).1 (j, h)) ],
    )
    | inr left ↦ rw left (
      (λ i. let (j, h) = (In-keep_iff x ys).0 i in (inr j, h)),
      λ (i, h). elim i [
        | inl e ↦ absurd (clash (ap p e) h left)
        | inr j ↦ (In-keep_iff x ys).1 (j, h)
      ],
    )
  ]
    where
      clash : {a b : Bool} → a ≡ b → a ≡ true → b ≡ false → ⊥
      clash e f g = cc

  pub any_iff : (xs : List A) → (any p xs ≡ true) ↔ ((x : A) × In x xs × (p x ≡ true))
  any_iff [] = ((λ h. absurd (false≢true h)), (λ i. absurd i.1))
  any_iff (y ∷ ys) = elim (Bool-cases (p y)) [
    | inl here ↦ rw here ((λ h. (y, inl refl, here)), (λ i. refl))
    | inr later ↦ rw later (
      (λ h. let (x, i, e) = (any_iff ys).0 h in (x, inr i, e)),
      λ (x, i, e). elim i [
        | inl same ↦ absurd (false≢true (sym later ∙ ap p (sym same) ∙ e))
        | inr j ↦ (any_iff ys).1 (x, j, e)
      ],
    )
  ]
