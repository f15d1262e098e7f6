-- ===== src/Zns/Io/Read.antt =====
-- NVMevirt/zns_read_write.c: `zns_read`. A read with an error status takes its time all the same.
use xharvest.Base.{
  ℕ, zero, suc, ◌+◌, ◌-◌, ◌*◌, ◌%◌, min, false, Option, none, some, ltb, leb, ◌==◌, if◌then◌else◌,
  u64, sub64, ◌>>=◌, ◌||◌, not, [],
}
use xharvest.Ssd.Timing.{nand_read, ssd_advance_nand, ssd_advance_pcie}
use xharvest.Zns.{
  ZnsFtl, ZoneState, offline, Status, success, err_boundary, err_offline, lpn_to_zone, lba_to_lpn,
}
use xharvest.Zns.Io.{
  RwCmd, Outcome, done, nr_lbas_from_rw_cmd, lba_to_byte, check_boundary_error, lpn_to_ppa,
}
use xharvest.Zns.Io.Transfer.{Flow, set_ssd}

-- One flash page's part of the pages `lpn` to `elpn`, and how many pages that is.
unfoldable pub read_page : (ℕ → ℕ) → ℕ → ℕ → ℕ → Flow → Option (ℕ × Flow)
read_page clock stime lpn elpn s = do
  ppa ← lpn_to_ppa s.ftl lpn
  let sp = s.ftl.ssd.sp
  let pgs = min (elpn - lpn + 1) (sp.pgs_per_flashpg - ppa.pg % sp.pgs_per_flashpg)
  (completed, ssd) ← ssd_advance_nand clock s.ftl.ssd (record {
    op = nand_read;
    xfer_size = pgs * sp.pgsz;
    stime = stime;
    interleave_pci_dma = false;
    ppa = ppa;
  })
  some (pgs, set_ssd s completed ssd [])

unfoldable pub read_pages : ℕ → (ℕ → ℕ → ℕ) → ℕ → ℕ → ℕ → ℕ → Flow → Option Flow
read_pages zero clocks k stime elpn lpn s = if leb lpn elpn then none else some s
read_pages (suc fuel) clocks k stime elpn lpn s =
    let round = (do
      (pgs, s') ← read_page (clocks k) stime lpn elpn s
      read_pages fuel clocks (k + 1) stime elpn (lpn + pgs) s') in
    if leb lpn elpn then round else some s

abbrev pub read_status : ZnsFtl → ZoneState → ℕ → ℕ → Status
read_status ftl offline slba nr_lba = err_offline
read_status ftl _ slba nr_lba =
    if check_boundary_error ftl slba nr_lba then success else err_boundary

unfoldable pub zns_read : (ℕ → ℕ → ℕ) → ℕ → ZnsFtl → RwCmd → Option Outcome
zns_read clocks now ftl cmd =
    let nr_lba = nr_lbas_from_rw_cmd cmd in
    let slpn = lba_to_lpn ftl cmd.slba in
    let elpn = lba_to_lpn ftl (sub64 (u64 (cmd.slba + nr_lba)) 1) in
    let zid = lpn_to_zone ftl slpn in
    let sp = ftl.ssd.sp in
    let overhead = if leb (lba_to_byte nr_lba) 4096 then sp.fw_4kb_rd_lat else sp.fw_rd_lat in
    let stime = u64 (cmd.nsecs_start + overhead) in
    let start : Flow = record { ftl = ftl; nsecs_latest = stime; releases = [] } in
    let go : Option Outcome = do
      s ← read_pages (elpn + 1 - slpn) clocks 0 stime elpn slpn start
      (completed, ssd) ← ssd_advance_pcie s.ftl.ssd now s.nsecs_latest (u64 (nr_lba * sp.secsz))
      let s' = set_ssd s completed ssd []
      some (
          done
            (record {
              status = read_status ftl (ftl.zone_descs zid).state cmd.slba nr_lba;
              nsecs_target = s'.nsecs_latest;
              releases = [];
            })
            s'.ftl)
    in if not (ltb zid ftl.zp.nr_zones) || sp.pgs_per_flashpg == 0 then none else go
