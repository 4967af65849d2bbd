-- ===== src/Syncer/Periodic/Alive.antt =====
-- When the loops of syncer/batchsync.go do not wait.
use batchiepatchie.Prelude.{ℕ, zero, suc}
use batchiepatchie.Prelude.Io.{Io}

-- The world after a call was made a number of times.
abbrev pub after_calls : {W A : Type 0} → ℕ → Io W A → W → W
after_calls zero m w = w
after_calls (suc n) m w = after_calls n m (m w).1
