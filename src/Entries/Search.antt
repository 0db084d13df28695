-- ===== src/Entries/Search.antt =====
-- The search of the page of the entries.
use zerokey.Base.{
  ◌≡◌, refl, ap, ◌∙◌, ◌↔◌, ◌⊎◌, String, true, List, [], ◌∷◌, keep, In, In-keep_iff, any, any_iff,
  or_iff,
}
use zerokey.Base.Text.{includes}
use zerokey.Base.Text.Includes.{Inside, includes_iff, includes-nil}
use zerokey.Api.Types.{WorkloadEntry}
use zerokey.Entries.{State, matches_search, filtered_entries}

module _ (to_lower_case : String → String) where
  -- The search text stands in the entry's SPIFFE ID, in one of its selectors or in its id, where
  -- upper and lower case count alike.
  abbrev pub Matches : String → WorkloadEntry → Type 0
  Matches search entry =
      Inside (to_lower_case search) (to_lower_case entry.spiffe_id)
      ⊎ ((s : String) × In s entry.selectors × Inside (to_lower_case search) (to_lower_case s))
      ⊎ Inside (to_lower_case search) (to_lower_case entry.id)

  some_selector_iff :
      (search : String) (entry : WorkloadEntry)
      → (any (λ s. includes (to_lower_case s) (to_lower_case search)) entry.selectors ≡ true)
        ↔ ((s : String) × In s entry.selectors × Inside (to_lower_case search) (to_lower_case s))
  some_selector_iff search entry =
      let (to, from) =
        any_iff (λ s. includes (to_lower_case s) (to_lower_case search)) entry.selectors in
      (
        (λ h. let (s, i, e) = to h in (s, i, (includes_iff _ _).0 e)),
        (λ (s, i, e). from (s, i, (includes_iff _ _).1 e)),
      )

  matches_search_iff :
      (search : String) (entry : WorkloadEntry)
      → (matches_search to_lower_case search entry ≡ true) ↔ Matches search entry
  unfolding matches_search
  matches_search_iff search entry =
      or_iff _ _ (includes_iff _ _) (or_iff _ _ (some_selector_iff search entry) (includes_iff _ _))

  -- The filtered entries are exactly those entries of the page whose SPIFFE ID, one of whose
  -- selectors, or whose id contains the search text, where upper and lower case count alike.
  pub filtered_entries_iff :
      (s : State) (entry : WorkloadEntry)
      → In entry (filtered_entries to_lower_case s) ↔ (In entry s.entries × Matches s.search entry)
  unfolding filtered_entries
  filtered_entries_iff s entry =
      let (to, from) = In-keep_iff (matches_search to_lower_case s.search) entry s.entries in
      let (sound, complete) = matches_search_iff s.search entry in
      (λ i. let (j, h) = to i in (j, sound h), λ (j, h). from (j, complete h))

  keep_all :
      (search : String) (es : List WorkloadEntry)
      → to_lower_case search ≡ ""
      → keep (matches_search to_lower_case search) es ≡ es
  unfolding matches_search
  keep_all search [] h = refl
  keep_all search (e ∷ es) h = rw (h) (rw (includes-nil) (ap (λ r. e ∷ r) (keep_all search es h)))

  -- An empty search shows all entries, in their order, as long as the empty text has no case.
  pub filtered_entries-all :
      (s : State)
      → to_lower_case "" ≡ ""
      → s.search ≡ ""
      → filtered_entries to_lower_case s ≡ s.entries
  unfolding filtered_entries
  filtered_entries-all s h e = keep_all s.search s.entries (ap to_lower_case e ∙ h)
