-- ===== src/Runtime/World/Holders.antt =====
-- A list of marks beside the list of waiting functions: which of them holds a flag up.
use mathlib.Core.Path.{subst}
use zerokey.Base.{
  bit, ℕ, zero, suc, ◌+◌, ◌≡◌, refl, Bool, some, List, [], ◌∷◌, ◌++◌, arith, get_elem?, remove_at,
  some_inj,
}

abbrev pub count : List Bool → ℕ
count [] = 0
count (h ∷ hs) = bit h + count hs

pub count-append : (hs : List Bool) (h : Bool) → count (hs ++ h ∷ []) ≡ count hs + bit h
count-append [] h = omega arith
count-append (g ∷ hs) h = omega (arith, count-append hs h)

module _ {A : Type 0} (R : Bool → A → Type 0) where
  abbrev pub Paired : List Bool → List A → Type 0
  Paired [] [] = Unit
  Paired (h ∷ hs) (t ∷ ts) = R h t × Paired hs ts
  Paired _ _ = ⊥

  pub Paired-append :
      (hs : List Bool) (ts : List A) {h : Bool} {t : A}
      → Paired hs ts
      → R h t
      → Paired (hs ++ h ∷ []) (ts ++ t ∷ [])
  Paired-append [] [] p r = (r, tt)
  Paired-append (_ ∷ hs) (_ ∷ ts) p r = (p.0, Paired-append hs ts p.1 r)
  Paired-append [] (_ ∷ _) p r = absurd p
  Paired-append (_ ∷ _) [] p r = absurd p

  -- Taking one function out takes its mark out too.
  pub Paired-take :
      (hs : List Bool) (ts : List A) (i : ℕ) (t : A)
      → Paired hs ts
      → get_elem? ts i ≡ some t
      → (h : Bool) × R h t
        × Paired (remove_at i hs) (remove_at i ts)
        × (count hs ≡ count (remove_at i hs) + bit h)
  Paired-take [] [] i t p e = cc
  Paired-take [] (_ ∷ _) i t p e = absurd p
  Paired-take (_ ∷ _) [] i t p e = absurd p
  Paired-take (h ∷ hs) (u ∷ ts) zero t p e =
      (h, subst (λ x. R h x) (some_inj e) p.0, p.1, omega arith)
  Paired-take (h ∷ hs) (u ∷ ts) (suc i) t p e =
      let (g, r, q, c) = Paired-take hs ts i t p.1 e in (g, r, (p.0, q), omega (arith, c))

  pub Paired-nil : (hs : List Bool) (ts : List A) → Paired hs ts → ts ≡ [] → count hs ≡ 0
  Paired-nil [] [] p e = refl
  Paired-nil (_ ∷ _) [] p e = absurd p
  Paired-nil hs (_ ∷ _) p e = cc
