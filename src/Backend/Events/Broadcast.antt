-- ===== src/Backend/Events/Broadcast.antt =====
-- The sockets and what they are sent.
use zerokey.Base.{
  arith, ℕ, ◌≡◌, refl, sym, ap, ◌∙◌, nat_eq, ◌↔◌, inl, inr, Bool, true, false, List, [], ◌∷◌, keep,
  In, In-keep_iff, Bool-cases,
}
use zerokey.Api.Types.{AuditLogEvent}
use zerokey.Backend.Events.{EventService, connect, disconnect, broadcast, record_event, has}

-- No socket stands twice.
abbrev pub IsDistinct : List ℕ → Type 0
IsDistinct [] = Unit
IsDistinct (x ∷ xs) = (has x xs ≡ false) × IsDistinct xs

pub has-keep : (x : ℕ) (p : ℕ → Bool) (xs : List ℕ) → has x xs ≡ false → has x (keep p xs) ≡ false
has-keep x p [] h = refl
has-keep x p (y ∷ xs) h = ground (arith, has-keep x p xs)

pub nat_eq-same : (x : ℕ) → nat_eq x x ≡ true
nat_eq-same x = ground arith

pub same_number : (a b : ℕ) → nat_eq a b ≡ true → a ≡ b
same_number a b h = ground arith

pub has_kept :
    (x : ℕ) (p : ℕ → Bool) (xs : List ℕ) → has x xs ≡ true → p x ≡ true → has x (keep p xs) ≡ true
has_kept x p [] h e = h
has_kept x p (y ∷ xs) h e = elim (Bool-cases (nat_eq x y)) [
  | inl same ↦ rw (sym (ap p (same_number x y same)) ∙ e, same) refl
  | inr other ↦ elim (Bool-cases (p y)) [
    | inl kept ↦ rw (kept, other) (has_kept x p xs (later other) e)
    | inr lost ↦ rw lost (has_kept x p xs (later other) e)
  ]
]
  where
    later : nat_eq x y ≡ false → has x xs ≡ true
    later other = ground (arith, other, h)

pub keep-IsDistinct : (p : ℕ → Bool) (xs : List ℕ) → IsDistinct xs → IsDistinct (keep p xs)
keep-IsDistinct p [] h = tt
keep-IsDistinct p (x ∷ xs) (fresh, h) = elim (Bool-cases (p x)) [
  | inl kept ↦ rw kept (has-keep x p xs fresh, keep-IsDistinct p xs h)
  | inr dropped ↦ rw dropped (keep-IsDistinct p xs h)
]

-- What happens to the sockets.
pub data Change : Type 0 where
  connects disconnects : ℕ → Change
  records : (ℕ → Bool) → AuditLogEvent → Change

unfoldable pub change : ℕ → Change → EventService → EventService
change max_logs (connects socket) s = connect socket s
change max_logs (disconnects socket) s = disconnect socket s
change max_logs (records sends e) s = (record_event max_logs sends e s).0

unfoldable pub changed : ℕ → List Change → EventService → EventService
unfolding change
changed max_logs [] s = s
changed max_logs (c ∷ cs) s = changed max_logs cs (change max_logs c s)

change-IsDistinct :
    (max_logs : ℕ) (c : Change) (s : EventService)
    → IsDistinct s.active_connections
    → IsDistinct (change max_logs c s).active_connections
unfolding change connect disconnect record_event broadcast
change-IsDistinct n (connects socket) s h = elim (Bool-cases (has socket s.active_connections)) [
  | inl old ↦ rw old h
  | inr new ↦ rw new (new, h)
]
change-IsDistinct n (disconnects socket) s h = keep-IsDistinct _ s.active_connections h
change-IsDistinct n (records sends e) s h = keep-IsDistinct sends s.active_connections h

-- Whatever happens, no socket is kept twice, so none gets a message twice.
pub changed-IsDistinct :
    (max_logs : ℕ) (cs : List Change) (s : EventService)
    → IsDistinct s.active_connections
    → IsDistinct (changed max_logs cs s).active_connections
unfolding changed
changed-IsDistinct n [] s h = h
changed-IsDistinct n (c ∷ cs) s h =
    changed-IsDistinct n cs (change n c s) (change-IsDistinct n c s h)

-- A broadcast event reaches exactly the connected sockets that can be written to, and these are the
-- ones that stay connected.
pub record_event-reaches_iff :
    (max_logs : ℕ) (sends : ℕ → Bool) (e : AuditLogEvent) (s : EventService) (socket : ℕ)
    → (In socket (record_event max_logs sends e s).1
        ↔ (In socket s.active_connections × (sends socket ≡ true)))
      × ((record_event max_logs sends e s).0.active_connections
          ≡ (record_event max_logs sends e s).1)
unfolding record_event broadcast
record_event-reaches_iff n sends e s socket = (In-keep_iff sends socket s.active_connections, refl)
