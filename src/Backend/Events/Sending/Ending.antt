-- ===== src/Backend/Events/Sending/Ending.antt =====
-- How a broadcast ends that goes on while nothing else happens, and what is in the log after it.
use zerokey.Base.{
  ℕ, ◌≡◌, ◌⊎◌, refl, sym, ap, ◌∙◌, inl, inr, Bool, List, [], ◌∷◌, length, nat_eq, Bool-cases,
}
use zerokey.Api.Types.{AuditLogEvent}
use zerokey.Backend.Events.{EventService, add_log}
use zerokey.Backend.Events.Sending.{
  Stage, sending, finished, raised, Broadcasting, Move, resumes, joins, leaves, logs, answered,
  look, next, resume, start, move, moved, turns_left,
}
use zerokey.Backend.Events.Sending.Kept.{resume-logs, begin-logs, connect-logs}

-- The events that other tasks record.
abbrev pub relogged : ℕ → List Move → List AuditLogEvent → List AuditLogEvent
relogged n [] kept = kept
relogged n (logs e ∷ ms) kept = relogged n ms (add_log n e kept)
relogged n (_ ∷ ms) kept = relogged n ms kept

pub start-logs :
    (n : ℕ) (e : AuditLogEvent) (s : EventService)
    → (start n e s).service.audit_logs ≡ add_log n e s.audit_logs
unfolding start
start-logs n e s =
    begin-logs s.active_connections (record s { audit_logs = add_log n e s.audit_logs })

-- A broadcast that is over.
abbrev pub IsEnded : Stage → Type 0
IsEnded stage = (stage ≡ finished) ⊎ (stage ≡ raised)

module _ (n : ℕ) (sends : ℕ → Bool) where
  pub moved-logs :
      (ms : List Move) (b : Broadcasting)
      → (moved n sends ms b).service.audit_logs ≡ relogged n ms b.service.audit_logs
  unfolding moved move
  moved-logs [] b = refl
  moved-logs (resumes hint ∷ ms) b =
      moved-logs ms (resume sends hint b.flight.stage b)
      ∙ ap (relogged n ms) (resume-logs sends hint b.flight.stage b)
  moved-logs (joins x ∷ ms) b =
      moved-logs ms (move n sends (joins x) b) ∙ ap (relogged n ms) (connect-logs x b.service)
  moved-logs (leaves x ∷ ms) b = moved-logs ms (move n sends (leaves x) b)
  moved-logs (logs e ∷ ms) b = moved-logs ms (move n sends (logs e) b)

  pub relogged-turns_left :
      (left : List ℕ) (kept : List AuditLogEvent) → relogged n (turns_left left) kept ≡ kept
  unfolding turns_left
  relogged-turns_left [] kept = refl
  relogged-turns_left (x ∷ left) kept = relogged-turns_left left kept

  stays-IsEnded :
      (left : List ℕ) (b : Broadcasting)
      → IsEnded b.flight.stage
      → IsEnded (moved n sends (turns_left left) b).flight.stage
  unfolding moved move turns_left resume
  stays-IsEnded [] b (inl e) = inl (ap (λ s. (resume sends [] s b).flight.stage) e ∙ e)
  stays-IsEnded [] b (inr e) = inr (ap (λ s. (resume sends [] s b).flight.stage) e ∙ e)
  stays-IsEnded (x ∷ left) b (inl e) =
      stays-IsEnded left (resume sends [] b.flight.stage b)
        (inl (ap (λ s. (resume sends [] s b).flight.stage) e ∙ e))
  stays-IsEnded (x ∷ left) b (inr e) =
      stays-IsEnded left (resume sends [] b.flight.stage b)
        (inr (ap (λ s. (resume sends [] s b).flight.stage) e ∙ e))

  -- After a look the loop is over, or a socket fewer is to come.
  abbrev Looked : List ℕ → Broadcasting → Type 0
  Looked left b =
      IsEnded b.flight.stage
      ⊎ ((y : ℕ) × (rest : List ℕ) × (left ≡ y ∷ rest) × (b.flight.left ≡ rest))

  next-Looked : (left : List ℕ) (b : Broadcasting) → Looked left (next left b)
  unfolding next
  next-Looked [] b = inl (inl refl)
  next-Looked (y ∷ rest) b = inr (y, rest, refl, refl)

  look-Looked : (b : Broadcasting) → Looked b.flight.left (look [] b)
  unfolding look next
  look-Looked b = elim (Bool-cases (nat_eq (length b.service.active_connections) b.flight.size)) [
    | inl same ↦ elim (Bool-cases (nat_eq b.changes b.flight.seen)) [
      | inl still ↦ rw (same, still) (next-Looked b.flight.left b)
      | inr changed ↦ rw (same, changed) (inl (inl refl))
    ]
    | inr other ↦ rw other (inl (inr refl))
  ]

  resume-Looked :
      (stage : Stage) (b : Broadcasting)
      → b.flight.stage ≡ stage
      → Looked b.flight.left (resume sends [] stage b)
  unfolding resume
  resume-Looked (sending x) b e = look-Looked (answered sends x b)
  resume-Looked finished b e = inl (inl e)
  resume-Looked raised b e = inl (inr e)

  ends :
      (left : List ℕ) (b : Broadcasting)
      → b.flight.left ≡ left
      → IsEnded (moved n sends (turns_left left) b).flight.stage
  unfolding moved move turns_left
  ends [] b e = elim (resume-Looked b.flight.stage b refl) [
    | inl over ↦ over
    | inr (y, rest, more, _) ↦ absurd (cons-nil y rest (sym more ∙ e))
  ]
    where
      cons-nil : (y : ℕ) (rest : List ℕ) → (y ∷ rest) ≡ [] → ⊥
      cons-nil y rest h = cc
  ends (x ∷ left) b e = elim (resume-Looked b.flight.stage b refl) [
    | inl over ↦ stays-IsEnded left (resume sends [] b.flight.stage b) over
    | inr (y, rest, more, later) ↦
        ends left (resume sends [] b.flight.stage b) (later ∙ tail y x rest left (sym more ∙ e))
  ]
    where
      tail : (y z : ℕ) (r l : List ℕ) → (y ∷ r) ≡ (z ∷ l) → r ≡ l
      tail y z r l h = cc
