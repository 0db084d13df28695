-- ===== src/Backend/Events/Sending/Midway.antt =====
-- A broadcast of which some sockets are still to come.
use mathlib.Core.List.{append_assoc}
use zerokey.Base.{
  arith, ℕ, suc, ◌+◌, ◌≤◌, ◌<◌, ◌≡◌, refl, sym, ap, ◌∙◌, Bool, List, [], ◌∷◌, ◌++◌, length, All,
}
use zerokey.Api.Types.{AuditLogEvent}
use zerokey.Backend.Events.{add_log}
use zerokey.Backend.Events.Sending.{
  Broadcasting, Move, resumes, joins, leaves, logs, next, begin, move, moved,
}
use zerokey.Backend.Events.Sending.Quiet.{IsQuiet, turns, midway, turn, begin-midway}

length-snoc : (xs : List ℕ) (x : ℕ) → length (xs ++ x ∷ []) ≡ suc (length xs)
length-snoc [] x = refl
length-snoc (y ∷ xs) x = ap suc (length-snoc xs x)

module _ (max_logs : ℕ) (sends : ℕ → Bool) where
  pub moved-append :
      (ms ns : List Move) (b : Broadcasting)
      → moved max_logs sends (ms ++ ns) b ≡ moved max_logs sends ns (moved max_logs sends ms b)
  unfolding moved
  moved-append [] ns b = refl
  moved-append (m ∷ ms) ns b = moved-append ms ns (move max_logs sends m b)

  -- The loop over `order` after `count` sockets.
  pub record IsMidway (order : List ℕ) (count : ℕ) (b : Broadcasting) : Type 0 where
    pub kept : List AuditLogEvent
    pub visited : List ℕ
    pub current : ℕ
    pub rest : List ℕ
    pub parted : order ≡ visited ++ current ∷ rest
    pub counted : length visited ≡ count
    pub there : b ≡ midway sends kept 0 order visited current rest

  stays_midway :
      (count : ℕ) (kept : List AuditLogEvent) (order visited : List ℕ) (x : ℕ) (rest : List ℕ)
      (ms : List Move)
      → All IsQuiet ms
      → order ≡ visited ++ x ∷ rest
      → length visited + turns ms ≡ count
      → turns ms ≤ length rest
      → IsMidway order count (moved max_logs sends ms (midway sends kept 0 order visited x rest))
  unfolding moved move
  stays_midway count kept order visited x rest [] quiet e c few = record {
    kept = kept;
    visited = visited;
    current = x;
    rest = rest;
    parted = e;
    counted = omega arith;
    there = refl;
  }
  stays_midway count kept order visited x [] (resumes hint ∷ ms) (q, quiet) e c few =
      absurd (omega arith)
  stays_midway count kept order visited x (y ∷ rest) (resumes hint ∷ ms) (q, quiet) e c few =
      rw (turn sends hint kept 0 order visited x (y ∷ rest), next)
        (stays_midway count kept order (visited ++ x ∷ []) y rest ms quiet
          (e ∙ sym (append_assoc visited (x ∷ []) (y ∷ rest)))
          (omega (arith, length-snoc visited x)) (omega arith))
  stays_midway count kept order visited x rest (logs f ∷ ms) (q, quiet) e c few =
      stays_midway count (add_log max_logs f kept) order visited x rest ms quiet e c few
  stays_midway count kept order visited x rest (joins y ∷ ms) (q, quiet) e c few = absurd q
  stays_midway count kept order visited x rest (leaves y ∷ ms) (q, quiet) e c few = absurd q

  pub begin-IsMidway :
      (kept : List AuditLogEvent) (order : List ℕ) (ms : List Move)
      → All IsQuiet ms
      → turns ms < length order
      → IsMidway order (turns ms) (
          moved max_logs sends ms
            (begin order (record { active_connections = order; audit_logs = kept })))
  begin-IsMidway kept [] ms quiet few = absurd (omega arith)
  begin-IsMidway kept (x ∷ rest) ms quiet few =
      rw (begin-midway sends max_logs kept x rest) (
        stays_midway (turns ms) kept (x ∷ rest) [] x rest ms quiet refl (omega arith) (omega arith))
