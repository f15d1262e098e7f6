-- ===== src/Zns/Io/Zrwa.antt =====
-- NVMevirt/zns_read_write.c: writes to a zone with a random write area (ZRWA), and `zns_write`.
use xharvest.Base.{
  ℕ, zero, suc, ◌+◌, ◌-◌, ◌*◌, ◌/◌, ◌%◌, Option, none, some, ltb, leb, ◌==◌, if◌then◌else◌, u32,
  u64, sub64, update, ◌>>=◌, ◌||◌, not, [], div_round_up,
}
use xharvest.Ssd.Buffer.{buffer_allocate}
use xharvest.Ssd.Timing.{ssd_advance_write_buffer}
use xharvest.Zns.{
  ZnsFtl, ZoneState, empty, opened_impl, opened_expl, closed, read_only, full, offline, Status,
  success, err_boundary, err_full, err_read_only, err_offline, invalid_write, no_open_zone,
  open_zone, acquire_zone_resource, change_zone_state, lba_to_zone, zone_to_elba, lpn_to_zone,
  lba_to_lpn,
}
use xharvest.Zns.Io.{
  RwCmd, Outcome, retry, done, nr_lbas_from_rw_cmd, lba_to_byte, check_boundary_error,
  increase_write_ptr,
}
use xharvest.Zns.Io.Transfer.{Flow, program_page, pages_here, write_target, zns_write_plain}

-- A zone that is not open takes an open resource, and room for the area in its buffer.
unfoldable pub enter_area : ZnsFtl → ℕ → Option (Status × ZnsFtl)
enter_area ftl zid =
    let (acquired, ftl') = acquire_zone_resource ftl open_zone in
    let (granted, buf) = buffer_allocate (ftl.zrwa_buffer zid) ftl.zp.zrwa_size in
    let roomy = record ftl' { zrwa_buffer = update ftl.zrwa_buffer zid buf } in
    if not acquired
    then some (no_open_zone, ftl)
    else if granted == 0
    then none
    else some (success, change_zone_state roomy zid opened_impl)

unfoldable pub enter_write_zrwa : ZnsFtl → ℕ → ZoneState → Option (Status × ZnsFtl)
enter_write_zrwa ftl zid closed = enter_area ftl zid
enter_write_zrwa ftl zid empty = enter_area ftl zid
enter_write_zrwa ftl zid opened_impl = some (success, ftl)
enter_write_zrwa ftl zid opened_expl = some (success, ftl)
enter_write_zrwa ftl zid full = some (err_full, ftl)
enter_write_zrwa ftl zid read_only = some (err_read_only, ftl)
enter_write_zrwa ftl zid offline = some (err_offline, ftl)

-- From the first check to the switch. The range is from the write pointer to the end of the second
-- area from there.
unfoldable pub admit_zrwa : ZnsFtl → ℕ → ℕ → ℕ → Option (Status × ZnsFtl)
admit_zrwa ftl zid slba nr_lba =
    let d = ftl.zone_descs zid in
    let elba = sub64 (u64 (slba + nr_lba)) 1 in
    let zrwa_impl_end = sub64 (u64 (d.wp + u32 (2 * ftl.zp.lbas_per_zrwa))) 1 in
    if ftl.ssd.sp.write_unit_size == 0
    then none
    else if not (lba_to_byte nr_lba % ftl.ssd.sp.write_unit_size == 0)
    then some (invalid_write, ftl)
    else if not (check_boundary_error ftl slba nr_lba)
    then some (err_boundary, ftl)
    else if ltb slba d.wp || ltb zrwa_impl_end elba
    then some (invalid_write, ftl)
    else enter_write_zrwa ftl zid d.state

-- How many LBAs the write flushes: whole groups past the area, or the rest of the zone.
unfoldable pub nr_lbas_implicit : ZnsFtl → ℕ → ℕ → ℕ → Option ℕ
nr_lbas_implicit ftl zid prev_wp elba =
    let zrwa_impl_start = u64 (prev_wp + ftl.zp.lbas_per_zrwa) in
    let group = ftl.zp.lbas_per_zrwafg in
    let groups = u64 (div_round_up (elba - zrwa_impl_start + 1) group * group) in
    if leb zrwa_impl_start elba
    then if group == 0 then none else some groups
    else if elba == zone_to_elba ftl zid
    then some (u64 (sub64 elba prev_wp + 1))
    else some 0

-- The flush takes room in the area's buffer, then moves the write pointer. `none` inside is the
-- result `false`: there is no room.
unfoldable pub flush_implicit : ZnsFtl → ℕ → ℕ → Option (Option ZnsFtl)
flush_implicit ftl zid nr_lbas_flush =
    let (granted, buf) = buffer_allocate (ftl.zrwa_buffer zid) (lba_to_byte nr_lbas_flush) in
    let allocated = record ftl { zrwa_buffer = update ftl.zrwa_buffer zid buf } in
    let go : Option (Option ZnsFtl) = do
      ftl' ← increase_write_ptr allocated zid nr_lbas_flush
      some (some ftl')
    in if nr_lbas_flush == 0 then some (some ftl) else if granted == 0 then some none else go

-- `while (remaining > 0)`, with fuel: only whole flash pages are programmed.
unfoldable pub flush_pages : ℕ → (ℕ → ℕ → ℕ) → ℕ → ℕ → ℕ → ℕ → Flow → Option Flow
flush_pages zero clocks k stime lpn remaining s = if remaining == 0 then some s else none
flush_pages (suc fuel) clocks k stime lpn remaining s =
    let sp = s.ftl.ssd.sp in
    let round = (do
      (pg_off, pgs) ← pages_here s.ftl lpn remaining
      let programmed = program_page (clocks k) stime lpn (sp.pgs_per_oneshotpg * sp.pgsz) s
      s' ← if pg_off + pgs == sp.pgs_per_oneshotpg then programmed else some s
      flush_pages fuel clocks (k + 1) stime (lpn + pgs) (remaining - pgs) s') in
    if remaining == 0 then some s else round

unfoldable pub zrwa_timing : (ℕ → ℕ → ℕ) → ℕ → RwCmd → ℕ → ℕ → ℕ → ZnsFtl → Option Outcome
zrwa_timing clocks now cmd prev_wp nr_lba nr_lbas_flush ftl = do
  (xfer, ssd) ← ssd_advance_write_buffer ftl.ssd now cmd.nsecs_start (lba_to_byte nr_lba)
  let start : Flow = record { ftl = record ftl { ssd = ssd }; nsecs_latest = xfer; releases = [] }
  let pages = nr_lbas_flush / ftl.ssd.sp.secs_per_pg
  s ← flush_pages pages clocks 0 xfer (lba_to_lpn ftl prev_wp) pages start
  some (
      done
        (record {
          status = success;
          nsecs_target = write_target ftl cmd s.nsecs_latest xfer;
          releases = s.releases;
        })
        s.ftl)

unfoldable pub zrwa_admitted :
    (ℕ → ℕ → ℕ) → ℕ → RwCmd → ℕ → ℕ → ℕ → Status × ZnsFtl → Option Outcome
zrwa_admitted clocks now cmd zid prev_wp nr_lba (success, ftl) = do
  nr_lbas_flush ← nr_lbas_implicit ftl zid prev_wp (sub64 (u64 (cmd.slba + nr_lba)) 1)
  flushed ← flush_implicit ftl zid nr_lbas_flush
  elim flushed [
    | none ↦ some (retry ftl)
    | some ftl' ↦ zrwa_timing clocks now cmd prev_wp nr_lba nr_lbas_flush ftl'
  ]
zrwa_admitted clocks now cmd zid prev_wp nr_lba (status, ftl) =
    some (done (record { status = status; nsecs_target = cmd.nsecs_start; releases = [] }) ftl)

-- `__zns_write_zrwa`
unfoldable pub zns_write_zrwa : (ℕ → ℕ → ℕ) → ℕ → ZnsFtl → RwCmd → Option Outcome
zns_write_zrwa clocks now ftl cmd =
    let zid = lba_to_zone ftl cmd.slba in
    let nr_lba = nr_lbas_from_rw_cmd cmd in
    let go : Option Outcome = do
      r ← admit_zrwa ftl zid cmd.slba nr_lba
      zrwa_admitted clocks now cmd zid (ftl.zone_descs zid).wp nr_lba r
    in if not (ltb zid ftl.zp.nr_zones) then none else go

unfoldable pub zns_write : (ℕ → ℕ → ℕ) → ℕ → ZnsFtl → RwCmd → Option Outcome
zns_write clocks now ftl cmd =
    let zid = lpn_to_zone ftl (lba_to_lpn ftl cmd.slba) in
    if not (ltb zid ftl.zp.nr_zones)
    then none
    else if (ftl.zone_descs zid).zrwav
    then zns_write_zrwa clocks now ftl cmd
    else zns_write_plain clocks now ftl cmd
