-- ===== src/Backend/Events/Sending/Failing.antt =====
-- The sockets that get a message, and those that fail.
use zerokey.Base.{
  arith, ℕ, ◌≡◌, refl, sym, ap, ◌∙◌, inl, inr, Bool, true, false, not, List, [], ◌∷◌, ◌++◌, keep,
  nat_eq, In, Bool-cases, if◌then◌else◌,
}
use zerokey.Backend.Events.{has}
use zerokey.Backend.Events.Broadcast.{nat_eq-same, has_kept, same_number}

pub keep-snoc :
    (p : ℕ → Bool) (xs : List ℕ) (x : ℕ)
    → keep p (xs ++ x ∷ []) ≡ (if p x then keep p xs ++ x ∷ [] else keep p xs)
keep-snoc p [] x = elim (Bool-cases (p x)) [ inl e ↦ rw e refl | inr e ↦ rw e refl ]
keep-snoc p (y ∷ xs) x = elim (Bool-cases (p y)) [
  | inl kept ↦ elim (Bool-cases (p x)) [
    | inl e ↦ rw (kept, e) (ap (λ r. y ∷ r) (keep-snoc p xs x ∙ rw e refl))
    | inr e ↦ rw (kept, e) (ap (λ r. y ∷ r) (keep-snoc p xs x ∙ rw e refl))
  ]
  | inr lost ↦ rw lost (keep-snoc p xs x)
]

keep_same : (p q : ℕ → Bool) (xs : List ℕ) → ((x : ℕ) → In x xs → p x ≡ q x) → keep p xs ≡ keep q xs
keep_same p q [] h = refl
keep_same p q (x ∷ xs) h = elim (Bool-cases (q x)) [
  | inl e ↦ rw (h x (inl refl) ∙ e, e) (ap (λ r. x ∷ r) (keep_same p q xs (λ y i. h y (inr i))))
  | inr e ↦ rw (h x (inl refl) ∙ e, e) (keep_same p q xs (λ y i. h y (inr i)))
]

module _ (sends : ℕ → Bool) where
  abbrev pub fails : ℕ → Bool
  fails x = not (sends x)

  has_failed : (x : ℕ) (xs : List ℕ) → sends x ≡ true → has x (keep fails xs) ≡ false
  has_failed x [] e = refl
  has_failed x (y ∷ xs) e = elim (Bool-cases (sends y)) [
    | inl kept ↦ rw kept (has_failed x xs e)
    | inr lost ↦ elim (Bool-cases (nat_eq x y)) [
      | inl same ↦ cc (sym (ap sends (same_number x y same)) ∙ e, lost)
      | inr other ↦ rw (lost, other) (has_failed x xs e)
    ]
  ]

  In-has : (x : ℕ) (xs : List ℕ) → In x xs → has x xs ≡ true
  In-has x [] i = absurd i
  In-has x (y ∷ xs) (inl e) = rw (sym e, nat_eq-same x) refl
  In-has x (y ∷ xs) (inr i) = ground (arith, In-has x xs i)

  -- Taking out the dead connections leaves the ones that got the message.
  pub keep-failed : (xs : List ℕ) → keep (λ c. not (has c (keep fails xs))) xs ≡ keep sends xs
  keep-failed xs =
      keep_same (λ c. not (has c (keep fails xs))) sends xs
        (λ x i. elim (Bool-cases (sends x)) [
          | inl kept ↦ rw (has_failed x xs kept, kept) refl
          | inr lost ↦ rw (has_kept x fails xs (In-has x xs i) (ap not lost), lost) refl
        ])
