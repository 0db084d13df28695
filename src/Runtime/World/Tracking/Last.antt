-- ===== src/Runtime/World/Tracking/Last.antt =====
-- A part of the state that is a mark: some events of the user put it up, some take it down, and the
-- last of these counts.
use mathlib.Core.Path.{subst}
use zerokey.Base.{
  ◌≡◌, ◌≢◌, refl, ap, sym, ◌∙◌, ◌↔◌, ◌⊎◌, inl, inr, Bool, true, false, Option, none, some, List, [],
  ◌∷◌, ◌++◌, All,
}
use zerokey.Runtime.World.{Page, Event, act, respond, fire, after}
use zerokey.Runtime.World.Tracking.{Turns, Leaves, turned, after-turned}

abbrev pub set_to : Option Bool → Bool → Bool
set_to none b = b
set_to (some v) b = v

module _ {E : Type 0} where
  act_inj : {a b : E} {es fs : List (Event E)} → act a ∷ es ≡ act b ∷ fs → a ≡ b
  act_inj e = cc

  tail_inj : {a b : Event E} {es fs : List (Event E)} → a ∷ es ≡ b ∷ fs → es ≡ fs
  tail_inj e = cc

-- `kind e` is what the event `e` sets the mark to, if it sets it.
module _ {S E : Type 0} (part : S → Bool) (page : Page S E) (kind : E → Option Bool) where
  -- An event that does not take the mark down.
  abbrev pub Stays : Event E → Type 0
  Stays (act e) = kind e ≢ some false
  Stays (respond i j server) = Unit
  Stays (fire i) = Unit

  -- Some event puts the mark up, and none after it takes it down.
  abbrev pub IsUp : List (Event E) → Type 0
  IsUp es =
      (before : List (Event E)) × (e : E) × (rest : List (Event E)) × (es ≡ before ++ act e ∷ rest)
      × (kind e ≡ some true)
      × All Stays rest

  ends : Bool → List (Event E) → Bool
  ends b es = turned part page (λ e c. set_to (kind e) c) b es

  Up : Bool → List (Event E) → Type 0
  Up b es = ((b ≡ true) × All Stays es) ⊎ IsUp es

  later : (b : Bool) (a : Event E) (es : List (Event E)) → IsUp es → Up b (a ∷ es)
  unfolding Up
  later b a es (before, e, rest, same, up, stay) =
      inr (a ∷ before, e, rest, ap (λ r. a ∷ r) same, up, stay)

  -- The event at the head changes the mark as its kind says.
  head-Up :
      (b : Bool) (e : E) (es : List (Event E)) (k : Option Bool)
      → kind e ≡ k
      → Up (set_to k b) es
      → Up b (act e ∷ es)
  unfolding Up
  head-Up b e es none k (inl (up, stay)) = inl (up, ((λ h. cc (k, h)), stay))
  head-Up b e es (some true) k (inl (up, stay)) = inr ([], e, es, refl, k, stay)
  head-Up b e es (some false) k (inl (up, stay)) = cc up
  head-Up b e es o k (inr above) = later b (act e) es above

  Up-head :
      (b : Bool) (e : E) (es : List (Event E)) (k : Option Bool)
      → kind e ≡ k
      → Up b (act e ∷ es)
      → Up (set_to k b) es
  unfolding Up
  Up-head b e es none k (inl (up, (stay, stays))) = inl (up, stays)
  Up-head b e es (some true) k (inl (up, (stay, stays))) = inl (refl, stays)
  Up-head b e es (some false) k (inl (up, (stay, stays))) = absurd (stay k)
  Up-head b e es o k (inr (a ∷ before, f, rest, same, up, stay)) =
      inr (before, f, rest, tail_inj same, up, stay)
  Up-head b e es o k (inr ([], f, rest, same, up, stay)) = inl (
    ap (λ c. set_to c b) (sym k ∙ ap kind (act_inj same) ∙ up),
    subst (All Stays) (sym (tail_inj same)) stay,
  )

  quiet-Up : (b : Bool) (a : Event E) (es : List (Event E)) → Stays a → Up b es → Up b (a ∷ es)
  unfolding Up
  quiet-Up b a es s (inl (up, stay)) = inl (up, (s, stay))
  quiet-Up b a es s (inr above) = later b a es above

  ends-Up : (b : Bool) (es : List (Event E)) → ends b es ≡ true → Up b es
  unfolding ends turned Up
  ends-Up b [] h = inl (h, tt)
  ends-Up b (act e ∷ es) h = head-Up b e es (kind e) refl (ends-Up (set_to (kind e) b) es h)
  ends-Up b (respond i j server ∷ es) h = quiet-Up b _ es tt (ends-Up b es h)
  ends-Up b (fire i ∷ es) h = quiet-Up b _ es tt (ends-Up b es h)

  Up-quiet :
      (b : Bool) (a : Event E) (es : List (Event E))
      → Up b (a ∷ es)
      → ((e : E) → a ≢ act e)
      → Up b es
  unfolding Up
  Up-quiet b a es (inl (up, (s, stay))) other = inl (up, stay)
  Up-quiet b a es (inr (c ∷ before, f, rest, same, up, stay)) other =
      inr (before, f, rest, tail_inj same, up, stay)
  Up-quiet b a es (inr ([], f, rest, same, up, stay)) other = absurd (other f (cc same))

  Up-ends : (b : Bool) (es : List (Event E)) → Up b es → ends b es ≡ true
  unfolding ends turned Up
  Up-ends b [] (inl (up, stay)) = up
  Up-ends b [] (inr ([], f, rest, same, up, stay)) = cc same
  Up-ends b [] (inr (c ∷ before, f, rest, same, up, stay)) = cc same
  Up-ends b (act e ∷ es) h = Up-ends (set_to (kind e) b) es (Up-head b e es (kind e) refl h)
  Up-ends b (respond i j server ∷ es) h = Up-ends b es (Up-quiet b _ es h (λ e q. cc q))
  Up-ends b (fire i ∷ es) h = Up-ends b es (Up-quiet b _ es h (λ e q. cc q))

  -- A mark that is down at first and that nothing else changes is up exactly if some event puts it
  -- up and none after it takes it down.
  pub after-IsUp_iff :
      ((e : E) (s : S) → Turns part s (page.on e s) (set_to (kind e) (part s)))
      → Leaves part page.mount
      → part page.init ≡ false
      → (es : List (Event E)) → (part (after page es).state ≡ true) ↔ IsUp es
  unfolding ends Up
  after-IsUp_iff handles mounts down es =
      let same = after-turned part page (λ e c. set_to (kind e) c) handles mounts es in
      (
        (λ h. elim (ends-Up (part page.init) es (sym same ∙ h)) [
          | inl (up, stay) ↦ cc (up, down)
          | inr above ↦ above
        ]),
        (λ above. same ∙ Up-ends (part page.init) es (inr above)),
      )
