-- ===== src/Base/Clock.antt =====
-- Differences of two readings of `time.time()`.
use Prim.Native.Nat.{ℕ}

-- `until - from`, a float that is below zero if the clock was set back: it is kept as the readings.
pub record Elapsed : Type 0 where
  pub from : ℕ
  pub until : ℕ

abbrev pub elapsed_between : ℕ → ℕ → Elapsed
elapsed_between from until = record { from = from; until = until }
