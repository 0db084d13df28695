-- ===== src/Entries/Form.antt =====
-- The form of the page of the entries.
use zerokey.Base.{
  arith, ℕ, zero, suc, ◌+◌, ◌<◌, ◌≡◌, refl, ap, String, not, List, [], ◌∷◌, keep_indexed, remove_at,
  nat_eq,
}
use zerokey.Api.Types.{CreateEntryPayload}
use zerokey.Entries.{remove_selector}

-- Behind the position left out, nothing more is left out.
keep_indexed-past :
    (idx i : ℕ) (xs : List String) → idx < i → keep_indexed (λ _ j. not (nat_eq j idx)) i xs ≡ xs
keep_indexed-past idx i [] h = refl
keep_indexed-past idx i (x ∷ xs) h = ground (arith, keep_indexed-past idx (suc i) xs)

-- Positions count from `i`, and the one left out lies `k` further on.
keep_indexed-remove_at :
    (k i idx : ℕ) (xs : List String)
    → idx ≡ i + k
    → keep_indexed (λ _ j. not (nat_eq j idx)) i xs ≡ remove_at k xs
keep_indexed-remove_at zero i idx [] h = refl
keep_indexed-remove_at (suc k) i idx [] h = refl
keep_indexed-remove_at zero i idx (x ∷ xs) h = ground (arith, keep_indexed-past idx (suc i) xs)
keep_indexed-remove_at (suc k) i idx (x ∷ xs) h =
    ground (arith, keep_indexed-remove_at k (suc i) idx xs)

-- Removing the selector at a position leaves the others, in their order, and the rest of the form.
pub remove_selector_lem :
    (idx : ℕ) (form : CreateEntryPayload)
    → remove_selector idx form ≡ record form { selectors = remove_at idx form.selectors }
unfolding remove_selector
remove_selector_lem idx form =
    ap (λ (selectors : List String). record form { selectors = selectors })
      (keep_indexed-remove_at idx 0 idx form.selectors (omega arith))
