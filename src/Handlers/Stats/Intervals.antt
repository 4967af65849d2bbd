-- ===== src/Handlers/Stats/Intervals.antt =====
-- How many intervals the statistics of handlers/handlers.go have.
use batchiepatchie.Prelude.{
  ℕ, ◌+◌, ◌*◌, ◌-◌, ◌≤◌, ◌<◌, ◌≡◌, refl, ◌⊎◌, inl, inr, arith, leb, Bool-cases,
}
use batchiepatchie.Prelude.Int.{ℤ, pos, two_63, ◌-ℤ◌, int64}
use batchiepatchie.Handlers.Stats.{duration, interval}

exact_duration :
    (start end : ℕ)
    → start ≤ end
    → end < two_63
    → duration (pos start) (pos end) ≡ pos (end - start)
unfolding duration ◌-ℤ◌ int64
exact_duration start end h k = ground arith

-- What an interval is to hold of a span of `d` seconds.
abbrev pub Fits : ℕ → ℤ → Type 0
Fits d i =
    (n : ℕ) × (i ≡ pos n) × (1 ≤ n) × ((d < 3600) ⊎ (n * 4 ≤ d)) × ((2592000 ≤ d) ⊎ (d < n * 121))

by_interval : (d : ℕ) → Fits d (interval (pos d))
unfolding interval
by_interval d = elim (Bool-cases (leb 2592000 (d + 0))) [
  | inl a ↦ rw a (86400, refl, omega arith, inr (ground arith), inl (ground arith))
  | inr a ↦ rw a (elim (Bool-cases (leb 259200 (d + 0))) [
    | inl b ↦ rw b (21600, refl, omega arith, inr (ground arith), inr (ground arith))
    | inr b ↦ rw b (elim (Bool-cases (leb 14400 (d + 0))) [
      | inl c ↦ rw c (3600, refl, omega arith, inr (ground arith), inr (ground arith))
      | inr c ↦ rw c (elim (Bool-cases (leb 3600 (d + 0))) [
        | inl e ↦ rw e (900, refl, omega arith, inr (ground arith), inr (ground arith))
        | inr e ↦ rw e (300, refl, omega arith, inl (ground arith), inr (ground arith))
      ])
    ])
  ])
]

-- For times from the epoch on, the interval is positive; the span of an hour or more holds at
-- least four intervals, and a span of less than thirty days at most 120.
pub interval_lem :
    (start end : ℕ)
    → start ≤ end
    → end < two_63
    → Fits (end - start) (interval (duration (pos start) (pos end)))
interval_lem start end h k = rw (exact_duration start end h k) (by_interval (end - start))
