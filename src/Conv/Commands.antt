-- ===== src/Conv/Commands.antt =====
-- NVMevirt/conv_ftl.c: a whole write, a flush, and the dispatch of a command by its opcode.
use xharvest.Base.{
  ℕ, zero, suc, ◌+◌, ◌-◌, true, Option, none, some, [], ltb, ◌==◌, if◌then◌else◌, ◌>>=◌, ◌||◌, not,
  max, ◌/◌,
}
use xharvest.Ssd.Buffer.{buffer_allocate}
use xharvest.Ssd.Timing.{ssd_advance_write_buffer, ssd_next_idle_time}
use xharvest.Conv.Ftl.{LineQueue}
use xharvest.Conv.Io.{
  ConvNs, instance_of, put_instance, RwRequest, ConvReply, nr_bytes, start_lpn_of, end_lpn_of,
  refused, conv_read, write_all,
}

-- From the transfer into the buffer on.
unfoldable pub write_admitted :
    {Q : Type 0} → LineQueue Q → (ℕ → ℕ → ℕ → ℕ) → ℕ → ConvNs Q → RwRequest → Option (ConvReply Q)
write_admitted ops clock now ns req = do
  let ftl0 = instance_of ns 0
  let lm0 = ftl0.lm
  let spp = lm0.ssd.sp
  let first = start_lpn_of spp req
  let rounds = end_lpn_of spp req + 1 - first
  (xfer_completed, ssd) ← ssd_advance_write_buffer lm0.ssd now req.nsecs_start (nr_bytes req)
  let loaded = put_instance ns 0 (record ftl0 { lm = record lm0 { ssd = ssd } })
  w ←
      write_all ops clock xfer_completed rounds first
        (record { ns = loaded; nsecs_latest = xfer_completed; releases = [] })
  let waits = req.fua || not spp.write_early_completion
  some (record {
    served = true;
    nsecs_target = if waits then w.nsecs_latest else xfer_completed;
    releases = w.releases;
    ns = w.ns;
  })

unfoldable pub conv_write :
    {Q : Type 0} → LineQueue Q → (ℕ → ℕ → ℕ → ℕ) → ℕ → ConvNs Q → RwRequest → Option (ConvReply Q)
conv_write ops clock now ns req =
    let spp = (ns.ftls 0).lm.ssd.sp in
    let (allocated, buf) = buffer_allocate ns.write_buffer (nr_bytes req) in
    let ns' = record ns { write_buffer = buf } in
    if ns.nr_parts == 0 || spp.secs_per_pg == 0
    then none
    else if not (ltb (end_lpn_of spp req / ns.nr_parts) spp.tt_pgs)
    then some (refused ns)
    else if ltb allocated (nr_bytes req)
    then some (refused ns')
    else write_admitted ops clock now ns' req

unfoldable pub latest_of_parts : {Q : Type 0} → ConvNs Q → (ℕ → ℕ) → ℕ → ℕ → ℕ
latest_of_parts ns now zero latest = latest
latest_of_parts ns now (suc n) latest =
    max (latest_of_parts ns now n latest)
      (ssd_next_idle_time (instance_of ns n).lm.ssd (now (suc n)))

-- The first reading of the clock, then one for each instance.
unfoldable pub conv_flush : {Q : Type 0} → ConvNs Q → (ℕ → ℕ) → ConvReply Q
conv_flush ns now = record {
  served = true;
  nsecs_target = latest_of_parts ns now ns.nr_parts (now 0);
  releases = [];
  ns = ns;
}

-- `nvme_cmd_flush`, `nvme_cmd_write` and `nvme_cmd_read`
abbrev pub cmd_flush : ℕ
cmd_flush = 0

abbrev pub cmd_write : ℕ
cmd_write = 1

abbrev pub cmd_read : ℕ
cmd_read = 2

-- Another opcode leaves the result as it was: `target` is what it held.
unfoldable pub conv_proc_nvme_io_cmd :
    {Q : Type 0}
    → LineQueue Q
    → (ℕ → ℕ → ℕ → ℕ)
    → (ℕ → ℕ)
    → ConvNs Q
    → ℕ
    → RwRequest
    → ℕ
    → Option (ConvReply Q)
conv_proc_nvme_io_cmd ops clock now ns opcode req target =
    if opcode == cmd_write
    then conv_write ops clock (now 0) ns req
    else if opcode == cmd_read
    then conv_read clock ns req
    else if opcode == cmd_flush
    then some (conv_flush ns now)
    else some (record { served = true; nsecs_target = target; releases = []; ns = ns })
