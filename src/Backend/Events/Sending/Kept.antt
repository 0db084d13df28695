-- ===== src/Backend/Events/Sending/Kept.antt =====
-- The kept events, whatever becomes of the broadcasts.
use zerokey.Base.{
  ℕ, ◌≤◌, ◌≡◌, refl, ap, ◌∙◌, inl, inr, Bool, List, [], ◌∷◌, length, take, nat_eq, Bool-cases,
  if◌then◌else◌,
}
use zerokey.Api.Types.{AuditLogEvent}
use zerokey.Backend.Events.{EventService, has, add_log, connect, disconnect}
use zerokey.Backend.Events.History.{add_log-take, take-cons-take, length-take}
use zerokey.Backend.Events.Sending.{
  Stage, sending, finished, raised, Broadcasting, Move, resumes, joins, leaves, logs, answered,
  next, look, unlooked, resume, begin, start, move, moved,
}

-- Every event ever recorded, newest first.
abbrev pub told : Move → List AuditLogEvent → List AuditLogEvent
told (logs e) past = e ∷ past
told _ past = past

abbrev pub all_told : List Move → List AuditLogEvent → List AuditLogEvent
all_told [] past = past
all_told (m ∷ ms) past = all_told ms (told m past)

next-logs :
    (left : List ℕ) (b : Broadcasting) → (next left b).service.audit_logs ≡ b.service.audit_logs
unfolding next
next-logs [] b = refl
next-logs (x ∷ rest) b = refl

look-logs :
    (hint : List ℕ) (b : Broadcasting) → (look hint b).service.audit_logs ≡ b.service.audit_logs
unfolding look
look-logs hint b = elim (Bool-cases (nat_eq (length b.service.active_connections) b.flight.size)) [
  | inl same ↦
      rw same (next-logs (if nat_eq b.changes b.flight.seen then b.flight.left else hint) b)
  | inr other ↦ rw other refl
]

pub resume-logs :
    (sends : ℕ → Bool) (hint : List ℕ) (stage : Stage) (b : Broadcasting)
    → (resume sends hint stage b).service.audit_logs ≡ b.service.audit_logs
unfolding resume
resume-logs sends hint (sending x) b = look-logs hint (answered sends x b)
resume-logs sends hint finished b = refl
resume-logs sends hint raised b = refl

pub begin-logs : (xs : List ℕ) (s : EventService) → (begin xs s).service.audit_logs ≡ s.audit_logs
unfolding begin
begin-logs [] s = refl
begin-logs (x ∷ xs) s = look-logs [] (unlooked (x ∷ xs) s)

pub connect-logs : (x : ℕ) (s : EventService) → (connect x s).audit_logs ≡ s.audit_logs
unfolding connect
connect-logs x s = elim (Bool-cases (has x s.active_connections)) [
  | inl old ↦ rw old refl
  | inr new ↦ rw new refl
]

module _ (max_logs : ℕ) (sends : ℕ → Bool) where
  moved-take :
      (ms : List Move) (b : Broadcasting) (past : List AuditLogEvent)
      → b.service.audit_logs ≡ take max_logs past
      → (moved max_logs sends ms b).service.audit_logs ≡ take max_logs (all_told ms past)
  unfolding moved move disconnect
  moved-take [] b past h = h
  moved-take (resumes hint ∷ ms) b past h =
      moved-take ms (resume sends hint b.flight.stage b) past
        (resume-logs sends hint b.flight.stage b ∙ h)
  moved-take (joins x ∷ ms) b past h =
      moved-take ms (move max_logs sends (joins x) b) past (connect-logs x b.service ∙ h)
  moved-take (leaves x ∷ ms) b past h = moved-take ms (move max_logs sends (leaves x) b) past h
  moved-take (logs e ∷ ms) b past h = moved-take ms (move max_logs sends (logs e) b) (e ∷ past) (
      add_log-take max_logs e b.service.audit_logs (rw h (length-take max_logs past))
      ∙ ap (λ logs. take max_logs (e ∷ logs)) h
      ∙ take-cons-take max_logs e past)

  -- An event that is recorded is kept, whatever becomes of its broadcast, also if that ends by an
  -- error: after anything that happens meanwhile, the service that started with at most `max_logs`
  -- events keeps exactly the newest `max_logs` of all that were recorded, newest first.
  pub moved-history :
      (ms : List Move) (e : AuditLogEvent) (s : EventService)
      → length s.audit_logs ≤ max_logs
      → (moved max_logs sends ms (start max_logs e s)).service.audit_logs
        ≡ take max_logs (all_told ms (e ∷ s.audit_logs))
  unfolding start
  moved-history ms e s fits = moved-take ms (start max_logs e s) (e ∷ s.audit_logs) (
      begin-logs s.active_connections (record s { audit_logs = add_log max_logs e s.audit_logs })
      ∙ add_log-take max_logs e s.audit_logs fits)
