-- ===== src/Backend/Socket/Frames.antt =====
-- The frames that are sent to one socket.
use zerokey.Base.{
  arith, ℕ, nat_eq, ◌≡◌, refl, ap, inl, inr, true, List, [], ◌∷◌, ◌++◌, Bool-cases, if◌then◌else◌,
}
use zerokey.Backend.Events.{EventService, connect, has}
use zerokey.Backend.Socket.{Frame}

-- The frames of one socket.
abbrev pub frames_for : ℕ → List (ℕ × Frame) → List Frame
frames_for x [] = []
frames_for x ((y, f) ∷ rest) = let more = frames_for x rest in if nat_eq x y then f ∷ more else more

pub frames_for-append :
    (x : ℕ) (fs gs : List (ℕ × Frame))
    → frames_for x (fs ++ gs) ≡ frames_for x fs ++ frames_for x gs
frames_for-append x [] gs = refl
frames_for-append x ((y, f) ∷ fs) gs = elim (Bool-cases (nat_eq x y)) [
  | inl same ↦ rw same (ap (λ r. f ∷ r) (frames_for-append x fs gs))
  | inr other ↦ rw other (frames_for-append x fs gs)
]

pub has-connect :
    (x y : ℕ) (s : EventService)
    → has x s.active_connections ≡ true
    → has x (connect y s).active_connections ≡ true
unfolding connect
has-connect x y s there = elim (Bool-cases (has y s.active_connections)) [
  | inl old ↦ rw old there
  | inr new ↦ rw new (ground (arith, there))
]
