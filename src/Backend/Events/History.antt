-- ===== src/Backend/Events/History.antt =====
-- The kept events against the full history, which forgets nothing.
use zerokey.Base.{
  arith, ℕ, zero, suc, ◌≤◌, ◌≡◌, refl, ap, sym, ◌∙◌, inl, inr, Bool, List, [], ◌∷◌, length, take,
  ltb, Bool-cases,
}
use zerokey.Api.Types.{AuditLogEvent}
use zerokey.Backend.Events.{EventService, drop_last, add_log, record_event, get_logs, broadcast}

-- What happens to the service: an event is recorded while some sockets can be written to.
abbrev pub Recording : Type 0
Recording = (ℕ → Bool) × AuditLogEvent

unfoldable pub record_all : ℕ → List Recording → EventService → EventService
unfolding record_event
record_all max_logs [] s = s
record_all max_logs ((sends, e) ∷ rest) s =
    record_all max_logs rest (record_event max_logs sends e s).0

-- Every event ever recorded, newest first.
abbrev pub history : List Recording → List AuditLogEvent → List AuditLogEvent
history [] past = past
history ((sends, e) ∷ rest) past = history rest (e ∷ past)

module _ {A : Type 0} where
  pub length-take : (n : ℕ) (xs : List A) → length (take n xs) ≤ n
  length-take zero xs = omega arith
  length-take (suc n) [] = omega arith
  length-take (suc n) (x ∷ xs) = omega (arith, length-take n xs)

  pub take_short : (n : ℕ) (xs : List A) → length xs ≤ n → take n xs ≡ xs
  take_short zero [] h = refl
  take_short zero (x ∷ xs) h = absurd (omega arith)
  take_short (suc n) [] h = refl
  take_short (suc n) (x ∷ xs) h = ap (λ r. x ∷ r) (take_short n xs (omega arith))

  pub take-take : (n m : ℕ) (xs : List A) → n ≤ m → take n (take m xs) ≡ take n xs
  take-take zero m xs h = refl
  take-take (suc n) zero xs h = absurd (omega arith)
  take-take (suc n) (suc m) [] h = refl
  take-take (suc n) (suc m) (x ∷ xs) h = ap (λ r. x ∷ r) (take-take n m xs (omega arith))

-- Where one is too many, the last goes.
drop_last-take : (n : ℕ) (xs : List AuditLogEvent) → length xs ≡ suc n → drop_last xs ≡ take n xs
unfolding drop_last
drop_last-take n [] h = absurd (omega arith)
drop_last-take zero (x ∷ []) h = refl
drop_last-take (suc n) (x ∷ []) h = absurd (omega arith)
drop_last-take zero (x ∷ y ∷ xs) h = absurd (omega arith)
drop_last-take (suc n) (x ∷ y ∷ xs) h = ap (λ r. x ∷ r) (drop_last-take n (y ∷ xs) (omega arith))

-- A list of at most `n` that gets one more is cut to `n` again.
pub add_log-take :
    (n : ℕ) (e : AuditLogEvent) (logs : List AuditLogEvent)
    → length logs ≤ n
    → add_log n e logs ≡ take n (e ∷ logs)
unfolding add_log
add_log-take n e logs h = elim (Bool-cases (ltb n (suc (length logs)))) [
  | inl over ↦ rw over (drop_last-take n (e ∷ logs) (ground (arith, over)))
  | inr fits ↦ rw fits (sym (take_short n (e ∷ logs) (ground (arith, fits))))
]

pub take-cons-take :
    (n : ℕ) (e : AuditLogEvent) (past : List AuditLogEvent)
    → take n (e ∷ take n past) ≡ take n (e ∷ past)
take-cons-take zero e past = refl
take-cons-take (suc n) e past = ap (λ r. e ∷ r) (take-take n (suc n) past (omega arith))

-- The kept events are the newest ones of the history.
record_all-take :
    (n : ℕ) (rs : List Recording) (s : EventService) (past : List AuditLogEvent)
    → s.audit_logs ≡ take n past
    → (record_all n rs s).audit_logs ≡ take n (history rs past)
unfolding record_all record_event broadcast
record_all-take n [] s past h = h
record_all-take n ((sends, e) ∷ rs) s past h =
    record_all-take n rs (record_event n sends e s).0 (e ∷ past) (
      add_log-take n e s.audit_logs (rw h (length-take n past))
      ∙ ap (λ logs. take n (e ∷ logs)) h
      ∙ take-cons-take n e past)

module _ (max_logs : ℕ) (rs : List Recording) (s : EventService)
    (fits : length s.audit_logs ≤ max_logs) where
  -- Whatever is recorded, the service that starts with at most `max_logs` events keeps at most
  -- `max_logs` events.
  pub length-record_all : length (record_all max_logs rs s).audit_logs ≤ max_logs
  length-record_all =
      rw (record_all-take max_logs rs s s.audit_logs (sym (take_short max_logs s.audit_logs fits)))
        (length-take max_logs (history rs s.audit_logs))

  -- A service that starts with at most `max_logs` events answers a request for up to `max_logs`
  -- events as if it forgot nothing: with the newest of all events ever recorded, newest first.
  pub get_logs-history :
      (limit : ℕ)
      → limit ≤ max_logs
      → get_logs limit (record_all max_logs rs s) ≡ take limit (history rs s.audit_logs)
  unfolding get_logs
  get_logs-history limit below =
      ap (take limit)
        (record_all-take max_logs rs s s.audit_logs (sym (take_short max_logs s.audit_logs fits)))
      ∙ take-take limit max_logs (history rs s.audit_logs) below
