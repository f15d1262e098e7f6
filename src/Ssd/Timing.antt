-- ===== src/Ssd/Timing.antt =====
-- NVMevirt/ssd.c: when a NAND command, a PCIe transfer and a buffered write end.
-- Each reading of the clock is an argument: `clock i` is the i-th reading that the call makes.
-- `none` is a fault: one of chmodel_request, a division by 0 in get_cell, or a read of 0 bytes, after
-- which the C code uses variables that it never set.
pub mod Bounds
pub mod Idle
pub mod Pages
use xharvest.Base.{
  ℕ, zero, suc, ◌+◌, ◌-◌, ◌*◌, ◌/◌, ◌%◌, Bool, Option, none, some, ltb, ◌==◌, if◌then◌else◌, u64,
  min, max, div_round_up, ◌>>=◌, ◌||◌,
}
use xharvest.Channel.{ChannelModel, chmodel_request}
use xharvest.Ssd.Params.{SsdParams}
use xharvest.Ssd.Nand.{
  Ppa, ppa_word, unmapped_ppa, Ssd, SsdChannel, NandLun, get_ch, get_lun, set_ch, set_lun,
}

-- The operations that the callers pass; any other is reported and takes no time.
pub data NandOp : Type 0 where
  nand_read nand_write nand_erase nand_nop : NandOp

-- `type`, which only tells user from GC commands, is not read by ssd.c.
pub record NandCmd : Type 0 where
  pub op : NandOp
  pub xfer_size : ℕ
  pub stime : ℕ
  pub interleave_pci_dma : Bool
  pub ppa : Ppa

unfoldable pub get_cell : Ssd → Ppa → Option ℕ
get_cell ssd p =
    if ssd.sp.pgs_per_flashpg == 0 || ssd.sp.cell_mode == 0
    then none
    else some (p.pg / ssd.sp.pgs_per_flashpg % ssd.sp.cell_mode)

unfoldable pub ssd_advance_pcie : Ssd → ℕ → ℕ → ℕ → Option (ℕ × Ssd)
ssd_advance_pcie ssd now request_time length = do
  (done, model) ← chmodel_request ssd.pcie now request_time length
  some (done, record ssd { pcie = model })

-- Y = A + (B * X): the firmware's overheads, then the transfer from the host.
unfoldable pub ssd_advance_write_buffer : Ssd → ℕ → ℕ → ℕ → Option (ℕ × Ssd)
ssd_advance_write_buffer ssd now request_time length =
    let overhead = ssd.sp.fw_wbuf_lat0 + ssd.sp.fw_wbuf_lat1 * div_round_up length 4096 in
    ssd_advance_pcie ssd now (u64 (request_time + overhead)) length

-- One transfer over the channel of `p`.
unfoldable pub channel_transfer : Ssd → Ppa → ℕ → ℕ → ℕ → Option (ℕ × Ssd)
channel_transfer ssd p now request_time length = do
  (done, model) ← chmodel_request (get_ch ssd p).perf_model now request_time length
  let c = get_ch ssd p
  some (done, set_ch ssd p (record c { perf_model = model }))

-- The times that the loop of a read carries: of the channel, and of the whole command.
pub record ReadTimes : Type 0 where
  pub ssd : Ssd
  pub chnl_stime : ℕ
  pub completed_time : ℕ

-- One round: over the channel, then over PCIe if they overlap. Reading 2i + 1 and 2i + 2 of the
-- clock are those of round i.
unfoldable pub read_round : (ℕ → ℕ) → ℕ → NandCmd → ReadTimes → ℕ → Option ReadTimes
read_round clock i cmd s xfer_size = do
  (chnl_etime, ssd) ← channel_transfer s.ssd cmd.ppa (clock (2 * i + 1)) s.chnl_stime xfer_size
  let linked = ssd_advance_pcie ssd (clock (2 * i + 2)) chnl_etime xfer_size
  (completed, ssd') ← if cmd.interleave_pci_dma then linked else some (chnl_etime, ssd)
  some (record { ssd = ssd'; chnl_stime = chnl_etime; completed_time = completed })

-- `while (remaining)`, with fuel: each round transfers at least one byte.
unfoldable pub read_loop : ℕ → (ℕ → ℕ) → ℕ → NandCmd → ℕ → ReadTimes → Option ReadTimes
read_loop zero clock i cmd remaining s = if remaining == 0 then some s else none
read_loop (suc fuel) clock i cmd remaining s =
    let xfer_size = min remaining s.ssd.sp.max_ch_xfer_size in
    let rest = do
      s' ← read_round clock i cmd s xfer_size
      read_loop fuel clock (i + 1) cmd (remaining - xfer_size) s'
    in if remaining == 0 then some s else rest

unfoldable pub set_avail : Ssd → Ppa → ℕ → Ssd
set_avail ssd p time =
    let l = get_lun ssd p in set_lun ssd p (record l { next_lun_avail_time = time })

-- The four cases of the switch, from the time at which the command may start.
unfoldable pub advance_read : (ℕ → ℕ) → Ssd → NandCmd → ℕ → ℕ → Option (ℕ × Ssd)
advance_read clock ssd cmd cell cmd_stime =
    let p = cmd.ppa in
    let nand_stime = max (get_lun ssd p).next_lun_avail_time cmd_stime in
    let latency =
      if cmd.xfer_size == 4096 then ssd.sp.pg_4kb_rd_lat cell else ssd.sp.pg_rd_lat cell in
    let nand_etime = u64 (nand_stime + latency) in
    let start : ReadTimes = record {
      ssd = ssd;
      chnl_stime = nand_etime;
      completed_time = nand_etime;
    } in
    let transfer : Option (ℕ × Ssd) = do
      s ← read_loop cmd.xfer_size clock 0 cmd cmd.xfer_size start
      some (s.completed_time, set_avail s.ssd p s.chnl_stime)
    in if cmd.xfer_size == 0 then none else transfer

unfoldable pub advance_write : (ℕ → ℕ) → Ssd → NandCmd → ℕ → Option (ℕ × Ssd)
advance_write clock ssd cmd cmd_stime = do
  let p = cmd.ppa
  let chnl_stime = max (get_lun ssd p).next_lun_avail_time cmd_stime
  (chnl_etime, ssd') ← channel_transfer ssd p (clock 1) chnl_stime cmd.xfer_size
  let nand_etime = u64 (chnl_etime + ssd'.sp.pg_wr_lat)
  some (nand_etime, set_avail ssd' p nand_etime)

-- Erase and no operation: only the die's time advances.
unfoldable pub advance_die : Ssd → NandCmd → ℕ → ℕ → Option (ℕ × Ssd)
advance_die ssd cmd latency cmd_stime =
    let p = cmd.ppa in
    let nand_stime = max (get_lun ssd p).next_lun_avail_time cmd_stime in
    let nand_etime = u64 (nand_stime + latency) in some (nand_etime, set_avail ssd p nand_etime)

unfoldable pub advance_switch : (ℕ → ℕ) → Ssd → NandCmd → ℕ → ℕ → NandOp → Option (ℕ × Ssd)
advance_switch clock ssd cmd cell cmd_stime nand_read = advance_read clock ssd cmd cell cmd_stime
advance_switch clock ssd cmd cell cmd_stime nand_write = advance_write clock ssd cmd cmd_stime
advance_switch clock ssd cmd cell cmd_stime nand_erase =
    advance_die ssd cmd ssd.sp.blk_er_lat cmd_stime
advance_switch clock ssd cmd cell cmd_stime nand_nop = advance_die ssd cmd 0 cmd_stime

-- A start time of 0 means now. The result is the completion time and the new SSD.
unfoldable pub ssd_advance_nand : (ℕ → ℕ) → Ssd → NandCmd → Option (ℕ × Ssd)
ssd_advance_nand clock ssd cmd =
    let cmd_stime = if cmd.stime == 0 then clock 0 else cmd.stime in
    let go : Option (ℕ × Ssd) = do
      cell ← get_cell ssd cmd.ppa
      advance_switch clock ssd cmd cell cmd_stime cmd.op
    in if ppa_word cmd.ppa == unmapped_ppa then some (cmd_stime, ssd) else go

-- The latest of `latest` and the times of the first `n` dies of a channel, then of the channels.
unfoldable pub latest_of_luns : (ℕ → NandLun) → ℕ → ℕ → ℕ
latest_of_luns luns zero latest = latest
latest_of_luns luns (suc n) latest = max (latest_of_luns luns n latest) (luns n).next_lun_avail_time

unfoldable pub latest_of_channels : (ℕ → SsdChannel) → ℕ → ℕ → ℕ → ℕ
latest_of_channels channels nluns zero latest = latest
latest_of_channels channels nluns (suc n) latest =
    latest_of_luns (channels n).luns nluns (latest_of_channels channels nluns n latest)

unfoldable pub ssd_next_idle_time : Ssd → ℕ → ℕ
unfolding latest_of_luns latest_of_channels
ssd_next_idle_time ssd now = latest_of_channels ssd.channels ssd.sp.luns_per_ch ssd.sp.nchs now
