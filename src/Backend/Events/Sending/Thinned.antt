-- ===== src/Backend/Events/Sending/Thinned.antt =====
-- What a broadcast does to the set of the connections: it takes some out, or none.
use zerokey.Base.{
  ℕ, ◌≡◌, refl, inl, inr, ◌⊎◌, Bool, List, [], ◌∷◌, keep, length, nat_eq, Bool-cases,
}
use zerokey.Api.Types.{AuditLogEvent}
use zerokey.Backend.Events.{EventService, add_log}
use zerokey.Backend.Events.Sending.{
  Stage, sending, finished, raised, Broadcasting, answered, next, look, unlooked, resume, begin,
  start,
}

abbrev pub Thinned : List ℕ → List ℕ → Type 0
Thinned xs ys = (ys ≡ xs) ⊎ ((p : ℕ → Bool) × (ys ≡ keep p xs))

next-Thinned :
    (left : List ℕ) (b : Broadcasting)
    → Thinned b.service.active_connections (next left b).service.active_connections
unfolding next
next-Thinned [] b = inr (_, refl)
next-Thinned (x ∷ rest) b = inl refl

look-Thinned :
    (hint : List ℕ) (b : Broadcasting)
    → Thinned b.service.active_connections (look hint b).service.active_connections
unfolding look
look-Thinned hint b =
    elim (Bool-cases (nat_eq (length b.service.active_connections) b.flight.size)) [
      | inl same ↦ elim (Bool-cases (nat_eq b.changes b.flight.seen)) [
        | inl still ↦ rw (same, still) (next-Thinned b.flight.left b)
        | inr changed ↦ rw (same, changed) (next-Thinned hint b)
      ]
      | inr other ↦ rw other (inl refl)
    ]

pub resume-Thinned :
    (sends : ℕ → Bool) (hint : List ℕ) (stage : Stage) (b : Broadcasting)
    → Thinned b.service.active_connections (resume sends hint stage b).service.active_connections
unfolding resume
resume-Thinned sends hint (sending x) b = look-Thinned hint (answered sends x b)
resume-Thinned sends hint finished b = inl refl
resume-Thinned sends hint raised b = inl refl

begin-Thinned :
    (xs : List ℕ) (s : EventService)
    → Thinned s.active_connections (begin xs s).service.active_connections
unfolding begin
begin-Thinned [] s = inl refl
begin-Thinned (x ∷ xs) s = look-Thinned [] (unlooked (x ∷ xs) s)

pub start-Thinned :
    (n : ℕ) (e : AuditLogEvent) (s : EventService)
    → Thinned s.active_connections (start n e s).service.active_connections
unfolding start
start-Thinned n e s =
    begin-Thinned s.active_connections (record s { audit_logs = add_log n e s.audit_logs })
