-- ===== src/Simple.antt =====
-- NVMevirt/simple_ftl.c: the I/O units of the simple FTL and when a command on them completes.
pub mod Rounds
mod Tests
use xharvest.Base.{
  ℕ, zero, suc, ◌+◌, ◌-◌, ◌*◌, ◌/◌, ◌%◌, ◌^◌, min, max, Bool, Option, none, some, ltb, ◌==◌,
  if◌then◌else◌, u32, u64, update, div_round_up, ◌>>=◌,
}

-- The fields of `struct nvmev_config` that the file reads.
pub record UnitConfig : Type 0 where
  pub io_unit_shift : ℕ
  pub nr_io_units : ℕ
  pub read_delay : ℕ
  pub read_time : ℕ
  pub read_trailing : ℕ
  pub write_delay : ℕ
  pub write_time : ℕ
  pub write_trailing : ℕ

pub data UnitOp : Type 0 where
  write_op read_op : UnitOp

abbrev pub delay_of : UnitConfig → UnitOp → ℕ
delay_of c write_op = c.write_delay
delay_of c read_op = c.read_delay

abbrev pub latency_of : UnitConfig → UnitOp → ℕ
latency_of c write_op = c.write_time
latency_of c read_op = c.read_time

abbrev pub trailing_of : UnitConfig → UnitOp → ℕ
trailing_of c write_op = c.write_trailing
trailing_of c read_op = c.read_trailing

-- What the loop carries; `io_unit_stat` is the shared array of the units' times.
pub record Units : Type 0 where
  pub latest : ℕ
  pub length : ℕ
  pub io_unit : ℕ
  pub nr_io_units : ℕ
  pub io_unit_stat : ℕ → ℕ

-- The body of the loop. `nr_io_units` only counts down while it is positive: below 0 it stays there.
unfoldable pub unit_round : UnitConfig → UnitOp → Units → Units
unit_round c op s =
    let latest = u64 (s.latest + latency_of c op) in
    let busy = if ltb 0 s.nr_io_units then u64 (latest + trailing_of c op) else latest in
    let io_unit = u32 (s.io_unit + 1) in
    record {
      latest = latest;
      length = s.length - min s.length (2 ^ c.io_unit_shift);
      io_unit = if ltb io_unit c.nr_io_units then io_unit else 0;
      nr_io_units = s.nr_io_units - 1;
      io_unit_stat = update s.io_unit_stat s.io_unit busy;
    }

-- `do ... while (length > 0)`, with fuel: each round takes a unit's size off the length.
unfoldable pub unit_loop : ℕ → UnitConfig → UnitOp → Units → Option Units
unit_loop zero c op s = none
unit_loop (suc fuel) c op s =
    let s' = unit_round c op s in
    let rest = unit_loop fuel c op s' in if s'.length == 0 then some s' else rest

-- `none` is the division by 0 units. The shift is that of a unit of at least a sector.
unfoldable pub schedule_io_units : UnitConfig → (ℕ → ℕ) → UnitOp → ℕ → ℕ → ℕ → Option (ℕ × (ℕ → ℕ))
schedule_io_units c stat op lba length nsecs_start =
    let io_unit = lba / 2 ^ (c.io_unit_shift - 9) % c.nr_io_units in
    let start : Units = record {
      latest = u64 (max nsecs_start (stat io_unit) + delay_of c op);
      length = length;
      io_unit = io_unit;
      nr_io_units = min c.nr_io_units (div_round_up length (2 ^ c.io_unit_shift));
      io_unit_stat = stat;
    } in
    let go : Option (ℕ × (ℕ → ℕ)) = do
      s ← unit_loop (length + 1) c op start
      some (s.latest, s.io_unit_stat)
    in if c.nr_io_units == 0 then none else go

-- `__schedule_flush`: the latest time of the first `n` units.
unfoldable pub schedule_flush : ℕ → (ℕ → ℕ) → ℕ
schedule_flush zero stat = 0
schedule_flush (suc n) stat = max (schedule_flush n stat) (stat n)
