-- ===== src/Backend/Events/Sending/Quiet.antt =====
-- A broadcast during which no socket comes or goes.
use mathlib.Core.List.{append_assoc}
use zerokey.Base.{
  arith, ℕ, suc, ◌≤◌, ◌≡◌, refl, sym, ap, ◌∙◌, inl, inr, Bool, not, List, [], ◌∷◌, ◌++◌, length,
  keep, All, Bool-cases,
}
use zerokey.Api.Types.{AuditLogEvent}
use zerokey.Backend.Events.{EventService, has, add_log, record_event, broadcast}
use zerokey.Backend.Events.Broadcast.{nat_eq-same}
use zerokey.Backend.Events.Sending.Failing.{keep-snoc, fails, keep-failed}
use zerokey.Backend.Events.Sending.{
  sending, finished, Broadcasting, Move, resumes, joins, leaves, logs, answered, next, look, resume,
  begin, start, move, moved,
}

abbrev pub IsQuiet : Move → Type 0
IsQuiet (resumes hint) = Unit
IsQuiet (logs e) = Unit
IsQuiet _ = ⊥

-- How often the loop goes on.
abbrev pub turns : List Move → ℕ
turns [] = 0
turns (resumes hint ∷ ms) = suc (turns ms)
turns (_ ∷ ms) = turns ms

module _ (sends : ℕ → Bool) where
  -- The loop over `order` waits for `x`, after `visited` and before `rest`.
  abbrev pub midway : List AuditLogEvent → ℕ → List ℕ → List ℕ → ℕ → List ℕ → Broadcasting
  midway kept changes order visited x rest = record {
    service = record { active_connections = order; audit_logs = kept };
    changes = changes;
    flight = record {
      stage = sending x;
      left = rest;
      size = length order;
      seen = changes;
      reached = keep sends visited;
      dead = keep (fails sends) visited;
    };
  }

  answered-midway :
      (kept : List AuditLogEvent) (changes : ℕ) (order visited : List ℕ) (x : ℕ) (rest : List ℕ)
      → answered sends x (midway kept changes order visited x rest)
        ≡ midway kept changes order (visited ++ x ∷ []) x rest
  answered-midway kept changes order visited x rest =
      rw (keep-snoc sends visited x, keep-snoc (fails sends) visited x)
        (elim (Bool-cases (sends x)) [ inl e ↦ rw e refl | inr e ↦ rw e refl ])

  look-midway :
      (hint : List ℕ) (kept : List AuditLogEvent) (changes : ℕ) (order visited : List ℕ) (x : ℕ)
      (rest : List ℕ)
      → look hint (midway kept changes order visited x rest)
        ≡ next rest (midway kept changes order visited x rest)
  unfolding look
  look-midway hint kept changes order visited x rest =
      rw (nat_eq-same (length order), nat_eq-same changes) refl

  pub turn :
      (hint : List ℕ) (kept : List AuditLogEvent) (changes : ℕ) (order visited : List ℕ) (x : ℕ)
      (rest : List ℕ)
      → resume sends hint (sending x) (midway kept changes order visited x rest)
        ≡ next rest (midway kept changes order (visited ++ x ∷ []) x rest)
  unfolding resume
  turn hint kept changes order visited x rest =
      ap (look hint) (answered-midway kept changes order visited x rest)
      ∙ look-midway hint kept changes order (visited ++ x ∷ []) x rest

  pub next-midway :
      (kept : List AuditLogEvent) (changes : ℕ) (order visited : List ℕ) (x y : ℕ) (rest : List ℕ)
      → next (y ∷ rest) (midway kept changes order visited x (y ∷ rest))
        ≡ midway kept changes order visited y rest
  unfolding next
  next-midway kept changes order visited x y rest = refl

  -- The loop has come to the end of `order`.
  pub record IsOver (order : List ℕ) (b : Broadcasting) : Type 0 where
    pub stage : b.flight.stage ≡ finished
    pub reached : b.flight.reached ≡ keep sends order
    pub connected : b.service.active_connections ≡ keep sends order

  pub last_turn :
      (kept : List AuditLogEvent) (changes : ℕ) (order visited : List ℕ) (x : ℕ)
      → order ≡ visited
      → IsOver order (next [] (midway kept changes order visited x []))
  unfolding next
  last_turn kept changes order visited x e = record {
    stage = refl;
    reached = ap (keep sends) (sym e);
    connected =
        ap (λ v. keep (λ c. not (has c (keep (fails sends) v))) order) (sym e)
        ∙ keep-failed sends order;
  }

  resume_over :
      (order hint : List ℕ) (b : Broadcasting)
      → IsOver order b
      → resume sends hint b.flight.stage b ≡ b
  unfolding resume
  resume_over order hint b over = ap (λ stage. resume sends hint stage b) over.stage

  module _ (max_logs : ℕ) where
    stays-IsOver :
        (order : List ℕ) (ms : List Move) (b : Broadcasting)
        → All IsQuiet ms
        → IsOver order b
        → IsOver order (moved max_logs sends ms b)
    unfolding moved move
    stays-IsOver order [] b quiet over = over
    stays-IsOver order (resumes hint ∷ ms) b (q, quiet) over =
        stays-IsOver order ms (resume sends hint b.flight.stage b) quiet
          (rw (resume_over order hint b over) over)
    stays-IsOver order (logs e ∷ ms) b (q, quiet) over =
        stays-IsOver order ms (move max_logs sends (logs e) b) quiet
          (record { stage = over.stage; reached = over.reached; connected = over.connected })
    stays-IsOver order (joins x ∷ ms) b (q, quiet) over = absurd q
    stays-IsOver order (leaves x ∷ ms) b (q, quiet) over = absurd q

    comes-IsOver :
        (kept : List AuditLogEvent) (changes : ℕ) (order visited : List ℕ) (x : ℕ) (rest : List ℕ)
        (ms : List Move)
        → All IsQuiet ms
        → order ≡ visited ++ x ∷ rest
        → suc (length rest) ≤ turns ms
        → IsOver order (moved max_logs sends ms (midway kept changes order visited x rest))
    unfolding moved move
    comes-IsOver kept changes order visited x rest [] quiet e enough = absurd (omega arith)
    comes-IsOver kept changes order visited x [] (resumes hint ∷ ms) (q, quiet) e enough =
        rw (turn hint kept changes order visited x []) (
          stays-IsOver order ms (next [] (midway kept changes order (visited ++ x ∷ []) x [])) quiet
            (last_turn kept changes order (visited ++ x ∷ []) x e))
    comes-IsOver kept changes order visited x (y ∷ rest) (resumes hint ∷ ms) (q, quiet) e enough =
        rw (turn hint kept changes order visited x (y ∷ rest), next)
          (comes-IsOver kept changes order (visited ++ x ∷ []) y rest ms quiet
            (e ∙ sym (append_assoc visited (x ∷ []) (y ∷ rest))) (omega arith))
    comes-IsOver kept changes order visited x rest (logs f ∷ ms) (q, quiet) e enough =
        comes-IsOver (add_log max_logs f kept) changes order visited x rest ms quiet e enough
    comes-IsOver kept changes order visited x rest (joins y ∷ ms) (q, quiet) e enough = absurd q
    comes-IsOver kept changes order visited x rest (leaves y ∷ ms) (q, quiet) e enough = absurd q

    pub begin-midway :
        (kept : List AuditLogEvent) (x : ℕ) (rest : List ℕ)
        → begin (x ∷ rest) (record { active_connections = x ∷ rest; audit_logs = kept })
          ≡ midway kept 0 (x ∷ rest) [] x rest
    unfolding begin look next
    begin-midway kept x rest = rw (nat_eq-same (length (x ∷ rest))) refl

    begin-IsOver :
        (kept : List AuditLogEvent) (order : List ℕ) (ms : List Move)
        → All IsQuiet ms
        → length order ≤ turns ms
        → IsOver order (
            moved max_logs sends ms
              (begin order (record { active_connections = order; audit_logs = kept })))
    unfolding begin
    begin-IsOver kept [] ms quiet enough =
        stays-IsOver [] ms (begin [] (record { active_connections = []; audit_logs = kept })) quiet
          (record { stage = refl; reached = refl; connected = refl })
    begin-IsOver kept (x ∷ rest) ms quiet enough =
        rw (begin-midway kept x rest)
          (comes-IsOver kept 0 (x ∷ rest) [] x rest ms quiet refl enough)

    -- While no socket comes or goes, the broadcast of a recorded event ends after at most as many
    -- turns of its loop as there are sockets, without an error, whatever is recorded between the
    -- turns; it has then reached the sockets, and kept the ones, that it would in a single step.
    pub moved-broadcast :
        (ms : List Move) (e : AuditLogEvent) (s : EventService)
        → All IsQuiet ms
        → length s.active_connections ≤ turns ms
        → ((moved max_logs sends ms (start max_logs e s)).flight.stage ≡ finished)
          × ((moved max_logs sends ms (start max_logs e s)).flight.reached
              ≡ (record_event max_logs sends e s).1)
          × ((moved max_logs sends ms (start max_logs e s)).service.active_connections
              ≡ (record_event max_logs sends e s).0.active_connections)
    unfolding start record_event broadcast
    moved-broadcast ms e s quiet enough =
        let over =
          begin-IsOver (add_log max_logs e s.audit_logs) s.active_connections ms quiet enough in
        (over.stage, over.reached, over.connected)
