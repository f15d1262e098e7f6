-- ===== src/Zns/Io/Transfer.antt =====
-- NVMevirt/zns_read_write.c: whole write and read commands, with the times of their NAND operations.
use xharvest.Base.{
  ℕ, zero, suc, ◌+◌, ◌-◌, ◌*◌, ◌%◌, min, max, false, Option, none, some, ltb, leb, ◌==◌,
  if◌then◌else◌, u64, sub64, update, ◌>>=◌, ◌||◌, ◌&&◌, not, List, [], ◌∷◌, ◌++◌,
}
use xharvest.Ssd.Nand.{Ssd}
use xharvest.Ssd.Buffer.{Buffer, buffer_allocate}
use xharvest.Ssd.Timing.{nand_write, ssd_advance_nand, ssd_advance_write_buffer}
use xharvest.Zns.{ZnsFtl, Status, success, lba_to_zone, lba_to_lpn, zone_to_elpn}
use xharvest.Zns.Io.{
  RwCmd, Release, Outcome, retry, done, nr_lbas_from_rw_cmd, lba_to_byte, lpn_to_ppa, admit_write,
}

-- What the loops over pages carry: the FTL, the time of the last completion, the scheduled releases.
pub record Flow : Type 0 where
  pub ftl : ZnsFtl
  pub nsecs_latest : ℕ
  pub releases : List Release

abbrev pub set_ssd : Flow → ℕ → Ssd → List Release → Flow
set_ssd s completed ssd more = record {
  ftl = record s.ftl { ssd = ssd };
  nsecs_latest = max completed s.nsecs_latest;
  releases = s.releases ++ more;
}

-- One flash page is programmed at `lpn`'s die, and `bytes` of the buffer are scheduled to be released.
unfoldable pub program_page : (ℕ → ℕ) → ℕ → ℕ → ℕ → Flow → Option Flow
program_page clock stime lpn bytes s = do
  ppa ← lpn_to_ppa s.ftl lpn
  let sp = s.ftl.ssd.sp
  (completed, ssd) ← ssd_advance_nand clock s.ftl.ssd (record {
    op = nand_write;
    xfer_size = sp.pgs_per_oneshotpg * sp.pgsz;
    stime = stime;
    interleave_pci_dma = false;
    ppa = ppa;
  })
  some (set_ssd s completed ssd (record { time = completed; bytes = bytes } ∷ []))

-- How many pages from `lpn` on lie in the same flash page, at most `remaining`.
unfoldable pub pages_here : ZnsFtl → ℕ → ℕ → Option (ℕ × ℕ)
pages_here ftl lpn remaining = do
  ppa ← lpn_to_ppa ftl lpn
  let pg_off = ppa.pg % ftl.ssd.sp.pgs_per_oneshotpg
  some (pg_off, min remaining (ftl.ssd.sp.pgs_per_oneshotpg - pg_off))

-- The bytes released with the flash page that ends before `last`: the last one of a zone may be short.
unfoldable pub bufs_to_release : ZnsFtl → ℕ → ℕ → ℕ
bufs_to_release ftl zone_elpn last =
    let page = ftl.ssd.sp.pgs_per_oneshotpg * ftl.ssd.sp.pgsz in
    let unaligned_space = ftl.zp.zone_size % page in
    if last == zone_elpn && ltb 0 unaligned_space then unaligned_space else page

-- The loop of `__zns_write` over the pages `lpn` to `elpn`, with fuel: each round takes at least a page.
unfoldable pub write_pages : ℕ → (ℕ → ℕ → ℕ) → ℕ → ℕ → ℕ → ℕ → ℕ → Flow → Option Flow
write_pages zero clocks k stime zone_elpn elpn lpn s = if leb lpn elpn then none else some s
write_pages (suc fuel) clocks k stime zone_elpn elpn lpn s =
    let round = (do
      (pg_off, pgs) ← pages_here s.ftl lpn (elpn - lpn + 1)
      let last = lpn + pgs - 1
      let whole = pg_off + pgs == s.ftl.ssd.sp.pgs_per_oneshotpg || last == zone_elpn
      let programmed = program_page (clocks k) stime lpn (bufs_to_release s.ftl zone_elpn last) s
      s' ← if whole then programmed else some s
      write_pages fuel clocks (k + 1) stime zone_elpn elpn (lpn + pgs) s') in
    if leb lpn elpn then round else some s

-- The buffer of a write: the zone's own, or the device's.
abbrev pub get_write_buffer : ZnsFtl → ℕ → Buffer
get_write_buffer ftl zid =
    if ftl.zp.zone_wb_size == 0 then ftl.ssd.write_buffer else ftl.zone_write_buffer zid

abbrev pub set_write_buffer : ZnsFtl → ℕ → Buffer → ZnsFtl
set_write_buffer ftl zid buf =
    let ssd = ftl.ssd in
    if ftl.zp.zone_wb_size == 0
    then record ftl { ssd = record ssd { write_buffer = buf } }
    else record ftl { zone_write_buffer = update ftl.zone_write_buffer zid buf }

-- The time that is answered: of all flash operations, or of the transfer alone.
abbrev pub write_target : ZnsFtl → RwCmd → ℕ → ℕ → ℕ
write_target ftl cmd latest xfer_completed =
    if cmd.fua || not ftl.ssd.sp.write_early_completion then latest else xfer_completed

-- The time of an admitted write; a refused one takes none and releases nothing.
unfoldable pub write_timing : (ℕ → ℕ → ℕ) → ℕ → RwCmd → ℕ → ℕ → ℕ → Status × ZnsFtl → Option Outcome
write_timing clocks now cmd zid slba nr_lba (success, ftl) = do
  (xfer, ssd) ← ssd_advance_write_buffer ftl.ssd now cmd.nsecs_start (lba_to_byte nr_lba)
  let slpn = lba_to_lpn ftl slba
  let elpn = lba_to_lpn ftl (sub64 (u64 (slba + nr_lba)) 1)
  let start : Flow = record { ftl = record ftl { ssd = ssd }; nsecs_latest = xfer; releases = [] }
  s ← write_pages (elpn + 1 - slpn) clocks 0 xfer (zone_to_elpn ftl zid) elpn slpn start
  some (
      done
        (record {
          status = success;
          nsecs_target = write_target ftl cmd s.nsecs_latest xfer;
          releases = s.releases;
        })
        s.ftl)
write_timing clocks now cmd zid slba nr_lba (status, ftl) =
    some (done (record { status = status; nsecs_target = cmd.nsecs_start; releases = [] }) ftl)

-- `__zns_write`. The buffer is allocated before the checks.
unfoldable pub zns_write_plain : (ℕ → ℕ → ℕ) → ℕ → ZnsFtl → RwCmd → Option Outcome
zns_write_plain clocks now ftl cmd =
    let zid = lba_to_zone ftl cmd.slba in
    let nr_lba = nr_lbas_from_rw_cmd cmd in
    let slba = if cmd.append then (ftl.zone_descs zid).wp else cmd.slba in
    let (granted, buf) = buffer_allocate (get_write_buffer ftl zid) (lba_to_byte nr_lba) in
    let go : Option Outcome = do
      r ← admit_write (set_write_buffer ftl zid buf) zid slba nr_lba
      write_timing clocks now cmd zid slba nr_lba r
    in if not (ltb zid ftl.zp.nr_zones)
      then none
      else if ltb granted (lba_to_byte nr_lba)
      then some (retry ftl)
      else go
