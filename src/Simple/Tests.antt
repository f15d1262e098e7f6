-- ===== src/Simple/Tests.antt =====
-- A write of 10000 bytes on units of 4096: three latencies.
use xharvest.Simple.{UnitConfig}

abbrev config : UnitConfig
config = record {
  io_unit_shift = 12;
  nr_io_units = 8;
  read_delay = 1;
  read_time = 2;
  read_trailing = 0;
  write_delay = 10;
  write_time = 100;
  write_trailing = 5;
}
