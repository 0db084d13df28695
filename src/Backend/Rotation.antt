-- ===== src/Backend/Rotation.antt =====
-- dashboard/backend/app/main.py, `_telemetry_background_loop`: the remaining lifetime of an SVID as
-- the gauge shows it, which every poll takes down, up to a rotation.
use Prim.Native.Nat.{◌%◌}
use zerokey.Base.{
  arith, ℕ, zero, suc, ◌+◌, ◌-◌, ◌*◌, ◌≤◌, ◌<◌, ◌≡◌, ap, ◌∙◌, ltb, inl, inr, Bool-cases,
  if◌then◌else◌,
}

-- One poll: `max(0, ttl - 10)`, and 3600 below 60.
unfoldable pub poll : ℕ → ℕ
poll ttl = if ltb (ttl - 10) 60 then 3600 else ttl - 10

-- The value of the gauge after `n` polls.
unfoldable pub polled : ℕ → ℕ → ℕ
unfolding poll
polled zero ttl = ttl
polled (suc n) ttl = polled n (poll ttl)

-- The value `k` polls after a rotation.
abbrev gauge : ℕ → ℕ
gauge k = 3600 - 10 * k

poll-gauge : (k : ℕ) → k < 355 → poll (gauge k) ≡ gauge ((k + 1) % 355)
unfolding poll
poll-gauge k h = elim (Bool-cases (ltb (gauge k - 10) 60)) [
  | inl low ↦ rw low (ground (arith, low))
  | inr high ↦ rw high (ground (arith, high))
]

polled-from : (n k : ℕ) → k < 355 → polled n (gauge k) ≡ gauge ((k + n) % 355)
unfolding polled
polled-from zero k h = omega arith
polled-from (suc n) k h =
    ap (polled n) (poll-gauge k h)
    ∙ polled-from n ((k + 1) % 355) (omega arith)
    ∙ ap gauge (omega arith)

-- After `n` polls from a full lifetime of 3600 seconds, the number that the last poll has put into
-- the gauge is 3600 less 10 for each poll since the last rotation, and a rotation comes every 355
-- polls; so it is always from 60 to 3600, where GLOSSARY.md says that the panel counts down to 0.
pub polled-periodic :
    (n : ℕ)
    → (polled n 3600 ≡ 3600 - 10 * (n % 355)) × (60 ≤ polled n 3600) × (polled n 3600 ≤ 3600)
polled-periodic n =
    let shown : polled n 3600 ≡ 3600 - 10 * (n % 355) =
      polled-from n 0 (omega arith) ∙ ap gauge (omega arith) in
    (shown, rw shown (omega arith), rw shown (omega arith))
