-- ===== src/Simple/Rounds.antt =====
-- A command takes one latency for each unit of its length.
use xharvest.Base.{ℕ, ◌+◌, ◌*◌, ◌^◌, ◌≤◌, ◌<◌, ◌≡◌, max, u64}
use xharvest.Simple.{UnitConfig, UnitOp, Units, latency_of}

-- What the loop leaves, after `n` rounds over the length: one at least, and no more than it takes.
pub record Scheduled (c : UnitConfig) (op : UnitOp) (latest length n : ℕ) (r : Units) : Type 0 where
  pub paid : r.latest ≡ u64 (latest + n * latency_of c op)
  pub covered : length ≤ n * 2 ^ c.io_unit_shift
  pub needed : n * 2 ^ c.io_unit_shift < max length 1 + 2 ^ c.io_unit_shift
  pub rounds : 0 < n
