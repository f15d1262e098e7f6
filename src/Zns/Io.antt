-- ===== src/Zns/Io.antt =====
-- NVMevirt/zns_read_write.c: reads and writes of zones.
-- A result is `none` where the code divides by 0, fails an `ASSERT` or leaves its arrays. The k-th
-- call of ssd_advance_nand reads the clock `clocks k`; the transfer to or from the host, `now`.
pub mod Enter
pub mod Admit
pub mod Transfer
pub mod Zrwa
pub mod Read
pub mod Refused
use xharvest.Base.{
  ℕ, zero, suc, ◌+◌, ◌-◌, ◌*◌, ◌/◌, ◌%◌, ◌^◌, min, max, Bool, true, false, Option, none, some, ltb,
  leb, ◌==◌, if◌then◌else◌, u32, u64, sub64, update, ◌>>=◌, ◌&&◌, ◌||◌, not, List, [], ◌∷◌,
  div_round_up,
}
use xharvest.Ssd.Nand.{Ppa, ppa_of_word, Ssd}
use xharvest.Ssd.Buffer.{Buffer, buffer_allocate}
use xharvest.Ssd.Timing.{
  NandCmd, nand_read, nand_write, ssd_advance_nand, ssd_advance_write_buffer, ssd_advance_pcie,
}
use xharvest.Zns.{
  ZnsFtl, ZoneState, empty, opened_impl, opened_expl, closed, read_only, full, offline, Status,
  success, err_boundary, err_full, err_read_only, err_offline, invalid_write, no_active_zone,
  no_open_zone, active_zone, open_zone, is_zone_resource_full, acquire_zone_resource, set_zone,
  change_zone_state, lba_to_zone, zone_to_slba, zone_to_elba, lpn_to_zone, zone_to_slpn, lba_to_lpn,
  zone_to_elpn, die_to_channel, die_to_lun,
}
use xharvest.Zns.Manage.{release_opened}

-- A write or read command: `length` counts LBAs from 0.
pub record RwCmd : Type 0 where
  pub slba : ℕ
  pub length : ℕ
  pub append : Bool
  pub fua : Bool
  pub nsecs_start : ℕ

-- A call of schedule_internal_operation: at `time`, `bytes` of the command's buffer are free again.
pub record Release : Type 0 where
  pub time : ℕ
  pub bytes : ℕ

pub record IoResult : Type 0 where
  pub status : Status
  pub nsecs_target : ℕ
  pub releases : List Release

-- `retry` is the result `false`: the dispatcher tries the command again later.
pub data Outcome : Type 0 where
  retry : ZnsFtl → Outcome
  done : IoResult → ZnsFtl → Outcome

unfoldable pub nr_lbas_from_rw_cmd : RwCmd → ℕ
nr_lbas_from_rw_cmd cmd = u32 (cmd.length + 1)

abbrev pub lba_to_byte : ℕ → ℕ
lba_to_byte lba = u64 (lba * 512)

unfoldable pub check_boundary_error : ZnsFtl → ℕ → ℕ → Bool
check_boundary_error ftl slba nr_lba =
    lba_to_zone ftl slba == lba_to_zone ftl (sub64 (u64 (slba + nr_lba)) 1)

-- Past the zone's capacity the code only logs an error.
unfoldable pub increase_write_ptr : ZnsFtl → ℕ → ℕ → Option ZnsFtl
increase_write_ptr ftl zid nr_lba =
    let d = ftl.zone_descs zid in
    let cur_write_ptr = u64 (d.wp + nr_lba) in
    let moved = set_zone ftl zid (record d { wp = cur_write_ptr }) in
    let fill_up : Option ZnsFtl = do
      ftl' ← release_opened moved false
      if d.zrwav then none else some (change_zone_state ftl' zid full)
    in if cur_write_ptr == u64 (zone_to_slba ftl zid + d.zone_capacity) then fill_up else some moved

unfoldable pub lpn_to_ppa : ZnsFtl → ℕ → Option Ppa
lpn_to_ppa ftl lpn =
    let sp = ftl.ssd.sp in
    let zone = lpn_to_zone ftl lpn in
    let off = sub64 lpn (zone_to_slpn ftl zone) in
    let sdie = u32 (u64 (zone * ftl.zp.dies_per_zone) % sp.tt_luns) in
    let die = u32 (sdie + off / sp.pgs_per_oneshotpg % ftl.zp.dies_per_zone) in
    if sp.tt_luns == 0 || sp.pgs_per_oneshotpg == 0 || ftl.zp.dies_per_zone == 0 || sp.nchs == 0
    then none
    else some (record {
      pg = off % sp.pgs_per_oneshotpg % 2 ^ 16;
      blk = 0;
      pl = 0;
      lun = die_to_lun ftl die % 2 ^ 8;
      ch = die_to_channel ftl die % 2 ^ 8;
      rsv = 0;
    })

-- `case ZONE_STATE_CLOSED` of the switch of a write: an open resource, then the state.
unfoldable pub enter_closed : ZnsFtl → ℕ → Status × ZnsFtl
enter_closed ftl zid =
    let (acquired, ftl') = acquire_zone_resource ftl open_zone in
    if acquired then (success, change_zone_state ftl' zid opened_impl) else (no_open_zone, ftl')

unfoldable pub enter_empty : ZnsFtl → ℕ → ℕ → Status × ZnsFtl
enter_empty ftl zid slba =
    if not (slba == (ftl.zone_descs zid).zslba)
    then (invalid_write, ftl)
    else if is_zone_resource_full ftl active_zone
    then (no_active_zone, ftl)
    else if is_zone_resource_full ftl open_zone
    then (no_open_zone, ftl)
    else enter_closed (acquire_zone_resource ftl active_zone).1 zid

unfoldable pub enter_write : ZnsFtl → ℕ → ℕ → ZoneState → Status × ZnsFtl
enter_write ftl zid slba empty = enter_empty ftl zid slba
enter_write ftl zid slba closed = enter_closed ftl zid
enter_write ftl zid slba opened_impl = (success, ftl)
enter_write ftl zid slba opened_expl = (success, ftl)
enter_write ftl zid slba full = (err_full, ftl)
enter_write ftl zid slba read_only = (err_read_only, ftl)
enter_write ftl zid slba offline = (err_offline, ftl)

-- The write pointer moves only after a success of the switch.
unfoldable pub move_entered : Status × ZnsFtl → ℕ → ℕ → Option (Status × ZnsFtl)
move_entered (success, ftl) zid nr_lba = do
  ftl' ← increase_write_ptr ftl zid nr_lba
  some (success, ftl')
move_entered (status, ftl) zid nr_lba = some (status, ftl)

-- `__zns_write` from the check of the write unit to `__increase_write_ptr`.
unfoldable pub admit_write : ZnsFtl → ℕ → ℕ → ℕ → Option (Status × ZnsFtl)
admit_write ftl zid slba nr_lba =
    let d = ftl.zone_descs zid in
    if ftl.ssd.sp.write_unit_size == 0
    then none
    else if not (lba_to_byte nr_lba % ftl.ssd.sp.write_unit_size == 0)
    then some (invalid_write, ftl)
    else if not (check_boundary_error ftl slba nr_lba)
    then some (err_boundary, ftl)
    else if not (slba == d.wp)
    then some (invalid_write, ftl)
    else move_entered (enter_write ftl zid slba d.state) zid nr_lba
