-- ===== src/Base/Tests.antt =====
-- Boolean tests, the conditional of the source's `if` and `? :`, and case lemmas that keep the
-- equation of a computed value.
use Prim.Native.Nat.{ℕ, compare, Ordering}
use Prim.Native.String
use Prim.Native.String.{String}
use mathlib.Core.Path.{◌≡◌, refl}
use mathlib.Core.Logic.{◌⊎◌, ◌↔◌, inl, inr}
use mathlib.Core.Bool.{Bool, true, false, not, ◌||◌}
use mathlib.Core.Option.{Option, none, some}
use mathlib.Core.List.{List, [], ◌∷◌}
use text.Mathlib.Text.{◌==◌ as str_eq}

abbrev pub ltb : ℕ → ℕ → Bool
ltb a b = elim (compare a b) [ Ordering.lt ↦ true | _ ↦ false ]

abbrev pub leb : ℕ → ℕ → Bool
leb a b = elim (compare a b) [ Ordering.gt ↦ false | _ ↦ true ]

abbrev pub nat_eq : ℕ → ℕ → Bool
nat_eq a b = elim (compare a b) [ Ordering.eq ↦ true | _ ↦ false ]

infix 1 if◌then◌else◌
abbrev pub if◌then◌else◌ {ℓ} : {A : Type ℓ} → Bool → A → A → A
if true then x else y = x
if false then x else y = y

pub Bool-cases : (b : Bool) → (b ≡ true) ⊎ (b ≡ false)
Bool-cases true = inl refl
Bool-cases false = inr refl

pub Option-cases {ℓ} : {A : Type ℓ} (o : Option A) → (o ≡ none) ⊎ ((a : A) × (o ≡ some a))
Option-cases none = inl refl
Option-cases (some a) = inr (a, refl)

abbrev pub is_some {ℓ} : {A : Type ℓ} → Option A → Bool
is_some none = false
is_some (some _) = true

-- A text counts as true unless it is empty.
abbrev pub truthy : String → Bool
truthy s = not (str_eq s "")

-- `s || d` on texts.
abbrev pub or_text : String → String → String
or_text s d = if truthy s then s else d

-- A template literal: its parts, joined.
abbrev pub template : List String → String
template [] = ""
template (s ∷ rest) = String.◌++◌ s (template rest)

pub some_inj {ℓ} : {A : Type ℓ} {a b : A} → some a ≡ some b → a ≡ b
some_inj e = cc

-- 1 for true, 0 for false.
abbrev pub bit : Bool → ℕ
bit false = 0
bit true = 1

-- `parts.join(separator)`
abbrev pub join : String → List String → String
join separator [] = ""
join separator (s ∷ []) = s
join separator (s ∷ t ∷ rest) = template (s ∷ separator ∷ join separator (t ∷ rest) ∷ [])

-- `||` decides a disjunction of what its parts decide.
pub or_iff {ℓ κ} :
    (a b : Bool) {A : Type ℓ} {B : Type κ}
    → (a ≡ true) ↔ A
    → (b ≡ true) ↔ B
    → ((a || b) ≡ true) ↔ (A ⊎ B)
or_iff true b f g = ((λ h. inl (f.0 refl)), (λ i. refl))
or_iff false b f g = ((λ h. inr (g.0 h)), (λ i. elim i [ inl x ↦ cc (f.1 x) | inr y ↦ g.1 y ]))

-- The value, or a default.
abbrev pub value_or {ℓ} : {A : Type ℓ} → A → Option A → A
value_or d none = d
value_or d (some a) = a
