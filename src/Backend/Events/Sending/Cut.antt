-- ===== src/Backend/Events/Sending/Cut.antt =====
-- A broadcast during which another socket comes.
use zerokey.Base.{
  arith, ℕ, suc, ◌≤◌, ◌<◌, ◌≡◌, refl, sym, ap, Bool, false, List, [], ◌∷◌, ◌++◌, length, take, keep,
  nat_eq, All,
}
use zerokey.Api.Types.{AuditLogEvent}
use zerokey.Backend.Events.{EventService, has, add_log, connect}
use zerokey.Backend.Events.Sending.{
  sending, raised, Broadcasting, Move, resumes, joins, leaves, logs, look, resume, start, move,
  moved,
}
use zerokey.Backend.Events.Sending.Failing.{keep-snoc}
use zerokey.Backend.Events.Sending.Midway.{IsMidway, moved-append, begin-IsMidway}
use zerokey.Backend.Events.Sending.Quiet.{IsQuiet, turns, midway}

longer : (n : ℕ) → nat_eq (suc n) n ≡ false
longer n = ground arith

take_snoc :
    (v : List ℕ) (x : ℕ) (rest : List ℕ) → take (suc (length v)) (v ++ x ∷ rest) ≡ v ++ x ∷ []
take_snoc [] x rest = refl
take_snoc (y ∷ v) x rest = ap (λ r. y ∷ r) (take_snoc v x rest)

module _ (max_logs : ℕ) (sends : ℕ → Bool) where
  -- The loop is over by an error, and `got` have the message.
  record IsCut (got connections : List ℕ) (b : Broadcasting) : Type 0 where
    stage : b.flight.stage ≡ raised
    reached : b.flight.reached ≡ got
    connected : b.service.active_connections ≡ connections

  resume_cut :
      (got connections hint : List ℕ) (b : Broadcasting)
      → IsCut got connections b
      → resume sends hint b.flight.stage b ≡ b
  unfolding resume
  resume_cut got connections hint b cut = ap (λ stage. resume sends hint stage b) cut.stage

  stays-IsCut :
      (got connections : List ℕ) (ms : List Move) (b : Broadcasting)
      → All IsQuiet ms
      → IsCut got connections b
      → IsCut got connections (moved max_logs sends ms b)
  unfolding moved move
  stays-IsCut got connections [] b quiet cut = cut
  stays-IsCut got connections (resumes hint ∷ ms) b (q, quiet) cut =
      stays-IsCut got connections ms (resume sends hint b.flight.stage b) quiet
        (rw (resume_cut got connections hint b cut) cut)
  stays-IsCut got connections (logs e ∷ ms) b (q, quiet) cut =
      stays-IsCut got connections ms (move max_logs sends (logs e) b) quiet
        (record { stage = cut.stage; reached = cut.reached; connected = cut.connected })
  stays-IsCut got connections (joins x ∷ ms) b (q, quiet) cut = absurd q
  stays-IsCut got connections (leaves x ∷ ms) b (q, quiet) cut = absurd q

  -- The loop waits for `x` in a set that has one socket more.
  abbrev grown : List AuditLogEvent → ℕ → List ℕ → List ℕ → ℕ → List ℕ → Broadcasting
  grown kept y order visited x rest = record (midway sends kept 0 order visited x rest) {
    service = record { active_connections = y ∷ order; audit_logs = kept };
    changes = 1;
  }

  grown_turn :
      (hint : List ℕ) (kept : List AuditLogEvent) (y : ℕ) (order visited : List ℕ) (x : ℕ)
      (rest : List ℕ)
      → IsCut
          (keep sends (visited ++ x ∷ []))
          (y ∷ order)
          (resume sends hint (sending x) (grown kept y order visited x rest))
  unfolding resume look
  grown_turn hint kept y order visited x rest =
      rw (longer (length order))
        (record { stage = refl; reached = sym (keep-snoc sends visited x); connected = refl })

  grown-IsCut :
      (kept : List AuditLogEvent) (y : ℕ) (order visited : List ℕ) (x : ℕ) (rest : List ℕ)
      (ms : List Move)
      → All IsQuiet ms
      → 1 ≤ turns ms
      → IsCut
          (keep sends (visited ++ x ∷ []))
          (y ∷ order)
          (moved max_logs sends ms (grown kept y order visited x rest))
  unfolding moved move
  grown-IsCut kept y order visited x rest [] quiet one = absurd (omega arith)
  grown-IsCut kept y order visited x rest (resumes hint ∷ ms) (q, quiet) one =
      stays-IsCut (keep sends (visited ++ x ∷ [])) (y ∷ order) ms
        (resume sends hint (sending x) (grown kept y order visited x rest)) quiet
        (grown_turn hint kept y order visited x rest)
  grown-IsCut kept y order visited x rest (logs e ∷ ms) (q, quiet) one =
      grown-IsCut (add_log max_logs e kept) y order visited x rest ms quiet one
  grown-IsCut kept y order visited x rest (joins z ∷ ms) (q, quiet) one = absurd q
  grown-IsCut kept y order visited x rest (leaves z ∷ ms) (q, quiet) one = absurd q

  join-grown :
      (kept : List AuditLogEvent) (y : ℕ) (order visited : List ℕ) (x : ℕ) (rest : List ℕ)
      → has y order ≡ false
      → move max_logs sends (joins y) (midway sends kept 0 order visited x rest)
        ≡ grown kept y order visited x rest
  unfolding move connect
  join-grown kept y order visited x rest fresh = rw fresh refl

  midway-IsCut :
      (y : ℕ) (order : List ℕ) (count : ℕ) (b : Broadcasting) (ms : List Move)
      → IsMidway max_logs sends order count b
      → has y order ≡ false
      → All IsQuiet ms
      → 1 ≤ turns ms
      → IsCut
          (keep sends (take (suc count) order))
          (y ∷ order)
          (moved max_logs sends ms (move max_logs sends (joins y) b))
  midway-IsCut y order count b ms mid fresh quiet one =
      rw
        (
          mid.there,
          join-grown mid.kept y order mid.visited mid.current mid.rest fresh,
          ap (take (suc count)) mid.parted,
          ap (λ n. take (suc n) (mid.visited ++ mid.current ∷ mid.rest)) (sym mid.counted),
          take_snoc mid.visited mid.current mid.rest,
        )
        (grown-IsCut mid.kept y order mid.visited mid.current mid.rest ms quiet one)

  -- When a new socket comes while the broadcast of a recorded event waits, its loop ends with an
  -- error at its next turn, whatever is recorded meanwhile: only the sockets of the loop up to the
  -- one it waited for have got the event, the others never get it, and the sockets that failed are
  -- not taken out.
  pub moved-cut :
      (ms ns : List Move) (y : ℕ) (e : AuditLogEvent) (s : EventService)
      → All IsQuiet ms
      → turns ms < length s.active_connections
      → has y s.active_connections ≡ false
      → All IsQuiet ns
      → 1 ≤ turns ns
      → ((moved max_logs sends (ms ++ joins y ∷ ns) (start max_logs e s)).flight.stage ≡ raised)
        × ((moved max_logs sends (ms ++ joins y ∷ ns) (start max_logs e s)).flight.reached
            ≡ keep sends (take (suc (turns ms)) s.active_connections))
        × ((moved max_logs sends
              (ms ++ joins y ∷ ns)
              (start max_logs e s)).service.active_connections
            ≡ y ∷ s.active_connections)
  unfolding start moved
  moved-cut ms ns y e s quiet few fresh silent one =
      let cut =
        midway-IsCut y s.active_connections (turns ms)
          (moved max_logs sends ms (start max_logs e s)) ns
          (begin-IsMidway max_logs sends (add_log max_logs e s.audit_logs) s.active_connections ms
            quiet few)
          fresh silent one in
      rw (moved-append max_logs sends ms (joins y ∷ ns) (start max_logs e s))
        (cut.stage, cut.reached, cut.connected)
