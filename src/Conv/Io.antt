-- ===== src/Conv/Io.antt =====
-- NVMevirt/conv_ftl.c: the commands. A namespace has several instances of the FTL, which share the
-- PCIe link and the write buffer; the pages of the namespace go round them. `clock i` has the readings
-- of the clock for the NAND commands of instance `i`, and `now` the others, in their order.
use xharvest.Base.{
  ℕ, zero, suc, ◌+◌, ◌-◌, ◌*◌, ◌/◌, ◌%◌, ◌^◌, Bool, true, false, Option, none, some, List, [], ◌∷◌,
  ◌++◌, ltb, leb, ◌==◌, if◌then◌else◌, ◌>>=◌, ◌&&◌, ◌||◌, not, u64, u32, max, update,
}
use xharvest.Channel.{ChannelModel}
use xharvest.Ssd.Buffer.{Buffer}
use xharvest.Ssd.Params.{SsdParams}
use xharvest.Ssd.Nand.{Ppa, ssd_init, blk_in_ssd, invalid_lpn}
use xharvest.Ssd.Timing.{nand_read, nand_write, NandCmd}
use xharvest.Conv.{mapped_ppa, valid_ppa, get_maptbl_ent, set_rmap_ent, last_pg_in_wordline}
use xharvest.Conv.Lines.{mark_page_invalid}
use xharvest.Conv.Ftl.{
  LineQueue, user_io, ConvParams, ConvFtl, maps, with_maps, with_lines, place_page, advance_nand,
  consume_write_credit, conv_init_ftl,
}
use xharvest.Conv.Gc.{check_and_refill_write_credit}

pub record ConvNs (Q : Type 0) : Type 0 where
  pub nr_parts : ℕ
  pub ftls : ℕ → ConvFtl Q
  pub pcie : ChannelModel
  pub write_buffer : Buffer

-- Instance `i` with what is shared, and the namespace after it has changed.
abbrev pub instance_of : {Q : Type 0} → ConvNs Q → ℕ → ConvFtl Q
instance_of ns i =
    let ftl = ns.ftls i in
    let lm = ftl.lm in
    let ssd = lm.ssd in
    with_lines ftl
      (record lm { ssd = record ssd { pcie = ns.pcie; write_buffer = ns.write_buffer } })

abbrev pub put_instance : {Q : Type 0} → ConvNs Q → ℕ → ConvFtl Q → ConvNs Q
put_instance ns i ftl = record ns {
  ftls = update ns.ftls i ftl;
  pcie = ftl.lm.ssd.pcie;
  write_buffer = ftl.lm.ssd.write_buffer;
}

-- The instances of a new namespace; its size and its mapping are not kept here.
unfoldable pub conv_init_namespace :
    {Q : Type 0} → LineQueue Q → ConvParams → SsdParams → ℕ → Option (ConvNs Q)
conv_init_namespace ops cpp spp nr_parts = do
  ftl ← conv_init_ftl ops cpp (ssd_init spp)
  some (record {
    nr_parts = nr_parts;
    ftls = λ i. ftl;
    pcie = ftl.lm.ssd.pcie;
    write_buffer = ftl.lm.ssd.write_buffer;
  })

-- A read or a write: `fua` is the bit of `control`, `length` is one less than the blocks.
pub record RwRequest : Type 0 where
  pub slba : ℕ
  pub length : ℕ
  pub fua : Bool
  pub nsecs_start : ℕ

-- `served` is the result; `releases` are the calls of `schedule_internal_operation`, each with its
-- time and its bytes.
pub record ConvReply (Q : Type 0) : Type 0 where
  pub served : Bool
  pub nsecs_target : ℕ
  pub releases : List (ℕ × ℕ)
  pub ns : ConvNs Q

abbrev pub nr_bytes : RwRequest → ℕ
nr_bytes req = (req.length + 1) * 2 ^ 9

abbrev pub start_lpn_of : SsdParams → RwRequest → ℕ
start_lpn_of spp req = req.slba / spp.secs_per_pg

abbrev pub end_lpn_of : SsdParams → RwRequest → ℕ
end_lpn_of spp req = u64 (req.slba + req.length) / spp.secs_per_pg

unfoldable pub is_same_flash_page : SsdParams → Ppa → Ppa → Bool
is_same_flash_page spp p q =
    (blk_in_ssd p == blk_in_ssd q) && p.pg / spp.pgs_per_flashpg == q.pg / spp.pgs_per_flashpg

-- What the inner loop of a read carries.
pub record ReadState (Q : Type 0) : Type 0 where
  pub ftl : ConvFtl Q
  pub prev_ppa : Ppa
  pub xfer_size : ℕ
  pub nsecs_latest : ℕ

-- The transfer that has been gathered is issued.
unfoldable pub issue_read : {Q : Type 0} → (ℕ → ℕ → ℕ) → ℕ → ReadState Q → Option (ReadState Q)
issue_read clock stime s =
    let cmd : NandCmd = record {
      op = nand_read;
      xfer_size = s.xfer_size;
      stime = stime;
      interleave_pci_dma = true;
      ppa = s.prev_ppa;
    } in
    let issued = do
      (done, ftl) ← advance_nand clock s.ftl cmd
      some (record s { ftl = ftl; nsecs_latest = max done s.nsecs_latest })
    in if ltb 0 s.xfer_size then issued else some s

unfoldable pub read_lpn : {Q : Type 0} → (ℕ → ℕ → ℕ) → ℕ → ReadState Q → ℕ → Option (ReadState Q)
read_lpn clock stime s local_lpn =
    let spp = s.ftl.lm.ssd.sp in
    let cur_ppa = get_maptbl_ent (maps s.ftl) local_lpn in
    let next = do
      s' ← issue_read clock stime s
      some (record s' { xfer_size = spp.pgsz; prev_ppa = cur_ppa })
    in if not (mapped_ppa cur_ppa) || not (valid_ppa (maps s.ftl) cur_ppa)
      then some s
      else if mapped_ppa s.prev_ppa && is_same_flash_page spp cur_ppa s.prev_ppa
      then some (record s { xfer_size = u32 (s.xfer_size + spp.pgsz) })
      else next

-- The LPNs of one instance are consecutive: `n` of them.
unfoldable pub read_lpns :
    {Q : Type 0} → (ℕ → ℕ → ℕ) → ℕ → ℕ → ℕ → ReadState Q → Option (ReadState Q)
read_lpns clock stime zero local_lpn s = some s
read_lpns clock stime (suc n) local_lpn s = do
  s' ← read_lpn clock stime s local_lpn
  read_lpns clock stime n (local_lpn + 1) s'

-- The pages of one instance, from LPN `start` on: the namespace and the latest completion.
unfoldable pub read_part :
    {Q : Type 0} → (ℕ → ℕ → ℕ → ℕ) → ℕ → (start end : ℕ) → ConvNs Q × ℕ → Option (ConvNs Q × ℕ)
read_part clock stime start end (ns, latest) = do
  let i = start % ns.nr_parts
  let ftl = instance_of ns i
  let first = start / ns.nr_parts
  s ← read_lpns (clock i) stime ((end - start) / ns.nr_parts + 1) first (record {
    ftl = ftl;
    prev_ppa = get_maptbl_ent (maps ftl) first;
    xfer_size = 0;
    nsecs_latest = latest;
  })
  s' ← issue_read (clock i) stime s
  some (put_instance ns i s'.ftl, s'.nsecs_latest)

-- `for (i = 0; (i < nr_parts) && (start_lpn <= end_lpn); i++, start_lpn++)`
unfoldable pub read_parts :
    {Q : Type 0} → (ℕ → ℕ → ℕ → ℕ) → ℕ → ℕ → (start end : ℕ) → ConvNs Q × ℕ → Option (ConvNs Q × ℕ)
read_parts clock stime zero start end s = some s
read_parts clock stime (suc n) start end s =
    let rest = do
      s' ← read_part clock stime start end s
      read_parts clock stime n (start + 1) end s'
    in if leb start end then rest else some s

abbrev pub refused : {Q : Type 0} → ConvNs Q → ConvReply Q
refused ns = record { served = false; nsecs_target = 0; releases = []; ns = ns }

-- A division by zero is a fault.
unfoldable pub conv_read :
    {Q : Type 0} → (ℕ → ℕ → ℕ → ℕ) → ConvNs Q → RwRequest → Option (ConvReply Q)
conv_read clock ns req =
    let spp = (ns.ftls 0).lm.ssd.sp in
    let small = leb (nr_bytes req) (4096 * ns.nr_parts) in
    let latency = if small then spp.fw_4kb_rd_lat else spp.fw_rd_lat in
    let end = end_lpn_of spp req in
    let go = do
      (ns', latest) ←
          read_parts clock (u64 (req.nsecs_start + latency)) ns.nr_parts (start_lpn_of spp req) end
            (ns, req.nsecs_start)
      some (record { served = true; nsecs_target = latest; releases = []; ns = ns' })
    in if ns.nr_parts == 0 || spp.secs_per_pg == 0 || spp.pgs_per_flashpg == 0
      then none
      else if not (ltb (end / ns.nr_parts) spp.tt_pgs)
      then some (refused ns)
      else go

-- The old page of an LPN that has been written before becomes invalid.
unfoldable pub drop_old : {Q : Type 0} → LineQueue Q → ConvFtl Q → ℕ → Option (ConvFtl Q)
drop_old ops ftl lpn =
    let old = get_maptbl_ent (maps ftl) lpn in
    let dropped = do
      lm ← mark_page_invalid ops.victims ftl.lm old
      m ← set_rmap_ent (maps (with_lines ftl lm)) invalid_lpn old
      some (with_maps (with_lines ftl lm) m)
    in if mapped_ppa old then dropped else some ftl

-- What the loop of a write carries.
pub record WriteState (Q : Type 0) : Type 0 where
  pub ftl : ConvFtl Q
  pub nsecs_latest : ℕ
  pub releases : List (ℕ × ℕ)

-- The whole wordline is programmed with its last page; then its buffer is to be released.
unfoldable pub program_wordline :
    {Q : Type 0} → (ℕ → ℕ → ℕ) → ℕ → WriteState Q → Ppa → Option (WriteState Q)
program_wordline clock stime s new =
    let spp = s.ftl.lm.ssd.sp in
    let cmd : NandCmd = record {
      op = nand_write;
      xfer_size = spp.pgsz * spp.pgs_per_oneshotpg;
      stime = stime;
      interleave_pci_dma = false;
      ppa = new;
    } in
    let issued = do
      (done, ftl) ← advance_nand clock s.ftl cmd
      some (record {
        ftl = ftl;
        nsecs_latest = max done s.nsecs_latest;
        releases = s.releases ++ ((done, spp.pgs_per_oneshotpg * spp.pgsz) ∷ []);
      })
    in if last_pg_in_wordline (maps s.ftl) new then issued else some s

-- The body of the loop, on one instance.
unfoldable pub write_lpn :
    {Q : Type 0} → LineQueue Q → (ℕ → ℕ → ℕ) → ℕ → WriteState Q → ℕ → Option (WriteState Q)
write_lpn ops clock stime s local_lpn = do
  ftl1 ← drop_old ops s.ftl local_lpn
  (new, ftl2) ← place_page ops user_io ftl1 local_lpn
  s' ← program_wordline clock stime (record s { ftl = ftl2 }) new
  ftl3 ← check_and_refill_write_credit ops clock (consume_write_credit s'.ftl)
  some (record s' { ftl = ftl3 })

pub record WriteLoop (Q : Type 0) : Type 0 where
  pub ns : ConvNs Q
  pub nsecs_latest : ℕ
  pub releases : List (ℕ × ℕ)

unfoldable pub write_page :
    {Q : Type 0} → LineQueue Q → (ℕ → ℕ → ℕ → ℕ) → ℕ → WriteLoop Q → ℕ → Option (WriteLoop Q)
write_page ops clock stime w lpn = do
  let i = lpn % w.ns.nr_parts
  s ←
      write_lpn ops (clock i) stime
        (record { ftl = instance_of w.ns i; nsecs_latest = w.nsecs_latest; releases = w.releases })
        (lpn / w.ns.nr_parts)
  some (record {
    ns = put_instance w.ns i s.ftl;
    nsecs_latest = s.nsecs_latest;
    releases = s.releases;
  })

-- `for (lpn = start_lpn; lpn <= end_lpn; lpn++)`, which has `n` rounds.
unfoldable pub write_all :
    {Q : Type 0} → LineQueue Q → (ℕ → ℕ → ℕ → ℕ) → ℕ → ℕ → ℕ → WriteLoop Q → Option (WriteLoop Q)
write_all ops clock stime zero lpn w = some w
write_all ops clock stime (suc n) lpn w = do
  w' ← write_page ops clock stime w lpn
  write_all ops clock stime n (lpn + 1) w'
