-- ===== src/Conv/Gc.antt =====
-- NVMevirt/conv_ftl.c: garbage collection moves the valid pages of a line and erases its blocks.
use xharvest.Base.{
  ℕ, zero, suc, ◌+◌, ◌-◌, ◌*◌, ◌/◌, ◌%◌, ◌^◌, Bool, true, false, Option, none, some, ltb, ◌==◌,
  if◌then◌else◌, ◌>>=◌, ◌&&◌, not, u32, sub32, update,
}
use xharvest.Ssd.Nand.{Ppa, Ssd, get_pg, get_lun, set_lun}
use xharvest.Ssd.Timing.{NandOp, nand_read, nand_write, nand_erase, nand_nop, NandCmd}
use xharvest.Conv.{valid_lpn, get_rmap_ent, last_pg_in_wordline}
use xharvest.Conv.Lines.{LineState, is_free, is_valid, mark_block_free, mark_line_free}
use xharvest.Conv.Ftl.{
  LineQueue, gc_io, ConvFtl, maps, with_lines, should_gc_high, place_page, advance_nand,
}

-- A command of the garbage collection: only if its delay is modelled.
unfoldable pub gc_command :
    {Q : Type 0} → (ℕ → ℕ → ℕ) → ConvFtl Q → NandOp → ℕ → Ppa → Option (ConvFtl Q)
gc_command clock ftl op xfer_size p =
    let cmd : NandCmd = record {
      op = op;
      xfer_size = xfer_size;
      stime = 0;
      interleave_pci_dma = false;
      ppa = p;
    } in
    let issued = (do (time, ftl') ← advance_nand clock ftl cmd; some ftl') in
    if ftl.cp.enable_gc_delay then issued else some ftl

-- The whole wordline is programmed with its last page.
unfoldable pub gc_program : {Q : Type 0} → (ℕ → ℕ → ℕ) → ConvFtl Q → Ppa → Option (ConvFtl Q)
gc_program clock ftl new =
    let spp = ftl.lm.ssd.sp in
    if last_pg_in_wordline (maps ftl) new
    then gc_command clock ftl nand_write (spp.pgsz * spp.pgs_per_oneshotpg) new
    else gc_command clock ftl nand_nop 0 new

unfoldable pub gc_write_page :
    {Q : Type 0} → LineQueue Q → (ℕ → ℕ → ℕ) → ConvFtl Q → Ppa → Option (ConvFtl Q)
gc_write_page ops clock ftl old_ppa = do
  lpn ← get_rmap_ent (maps ftl) old_ppa
  (new, ftl') ← if valid_lpn (maps ftl) lpn then place_page ops gc_io ftl lpn else none
  gc_program clock ftl' new

-- The line with the fewest valid pages, taken off the queue; without force only if these are at most
-- an eighth. `none` is a null pointer here.
unfoldable pub select_victim_line :
    {Q : Type 0} → LineQueue Q → LineState Q → Bool → Option (ℕ × LineState Q)
select_victim_line ops lm force = do
  i ← ops.peek lm.victim_line_pq
  let (q, lines) = ops.pop lm.victim_line_pq lm.lines
  let line = lines i
  let popped = record lm {
    victim_line_pq = q;
    lines = update lines i (record line { pos = 0 });
    victim_line_cnt = sub32 lm.victim_line_cnt 1;
  }
  let many = ltb (lm.ssd.sp.pgs_per_line / 8) (lm.lines i).vpc
  if not force && many then none else some (i, popped)

-- `ppa_copy.g.pg++`
abbrev pub next_pg : Ppa → Ppa
next_pg p = record p { pg = (p.pg + 1) % 2 ^ 16 }

-- The valid ones of the next `n` pages, none of which may be free.
unfoldable pub count_valid : Ssd → ℕ → Ppa → Option ℕ
count_valid ssd zero p = some 0
count_valid ssd (suc n) p =
    let rest = do
      cnt ← count_valid ssd n (next_pg p)
      some (if is_valid (get_pg ssd p) then suc cnt else cnt)
    in if is_free (get_pg ssd p) then none else rest

unfoldable pub move_valid :
    {Q : Type 0} → LineQueue Q → (ℕ → ℕ → ℕ) → ℕ → ConvFtl Q → Ppa → Option (ConvFtl Q)
move_valid ops clock zero ftl p = some ftl
move_valid ops clock (suc n) ftl p = do
  let valid = is_valid (get_pg ftl.lm.ssd p)
  ftl' ← if valid then gc_write_page ops clock ftl p else some ftl
  move_valid ops clock n ftl' (next_pg p)

unfoldable pub clean_one_flashpg :
    {Q : Type 0} → LineQueue Q → (ℕ → ℕ → ℕ) → ConvFtl Q → Ppa → Option (ConvFtl Q)
clean_one_flashpg ops clock ftl p =
    let spp = ftl.lm.ssd.sp in
    let clean = λ (cnt : ℕ). do
      ftl' ← gc_command clock ftl nand_read (spp.pgsz * cnt) p
      move_valid ops clock spp.pgs_per_flashpg ftl' p
    in do
      cnt ← count_valid ftl.lm.ssd spp.pgs_per_flashpg p
      if cnt == 0 then some ftl else clean cnt

-- The loop `for (i = 0; i < n; i++)` over a step that may fail.
unfoldable pub each_below {ℓ} : {S : Type ℓ} → ℕ → (ℕ → S → Option S) → S → Option S
each_below zero step s = some s
each_below (suc n) step s = do s' ← each_below n step s; step n s'

-- `lunp->gc_endtime = lunp->next_lun_avail_time`
abbrev pub end_gc : Ssd → Ppa → Ssd
end_gc ssd p =
    let l = get_lun ssd p in set_lun ssd p (record l { gc_endtime = l.next_lun_avail_time })

-- After a block's last flash page it is erased.
unfoldable pub erase_block : {Q : Type 0} → (ℕ → ℕ → ℕ) → ConvFtl Q → Ppa → Option (ConvFtl Q)
erase_block clock ftl p = do
  lm ← mark_block_free ftl.lm p
  ftl' ← gc_command clock (with_lines ftl lm) nand_erase 0 p
  let lm' = ftl'.lm
  some (with_lines ftl' (record lm' { ssd = end_gc lm'.ssd p }))

-- The address that the loops of `do_gc` set; `rsv`, which is not set there, is 0.
abbrev pub gc_ppa : ℕ → ℕ → ℕ → ℕ → Ppa
gc_ppa blk pg ch lun = record {
  pg = pg % 2 ^ 16;
  blk = blk % 2 ^ 16;
  pl = 0;
  lun = lun % 2 ^ 8;
  ch = ch % 2 ^ 8;
  rsv = 0;
}

unfoldable pub gc_die :
    {Q : Type 0}
    → LineQueue Q
    → (ℕ → ℕ → ℕ)
    → (blk flashpg ch lun : ℕ) → ConvFtl Q
    → Option (ConvFtl Q)
gc_die ops clock blk flashpg ch lun ftl =
    let spp = ftl.lm.ssd.sp in
    let p = gc_ppa blk (flashpg * spp.pgs_per_flashpg) ch lun in
    do
      ftl' ← clean_one_flashpg ops clock ftl p
      if flashpg == spp.flashpgs_per_blk - 1 then erase_block clock ftl' p else some ftl'

-- The three loops.
unfoldable pub gc_line :
    {Q : Type 0} → LineQueue Q → (ℕ → ℕ → ℕ) → ℕ → ConvFtl Q → Option (ConvFtl Q)
gc_line ops clock blk ftl =
    let spp = ftl.lm.ssd.sp in
    each_below spp.flashpgs_per_blk
      (λ flashpg.
        each_below spp.nchs (λ ch. each_below spp.luns_per_ch (gc_die ops clock blk flashpg ch)))
      ftl

-- The victim's pages move, and the line is free.
unfoldable pub collect_victim :
    {Q : Type 0}
    → LineQueue Q
    → (ℕ → ℕ → ℕ)
    → ConvFtl Q
    → ℕ
    → LineState Q
    → Option (Bool × ConvFtl Q)
collect_victim ops clock ftl i lm = do
  let blk = (lm.lines i).id % 2 ^ 16
  ftl' ← gc_line ops clock blk (record ftl { lm = lm; credits_to_refill = (lm.lines i).ipc })
  some (true, with_lines ftl' (mark_line_free ftl'.lm (gc_ppa blk 0 0 0)))

-- The result says whether there was a victim.
unfoldable pub do_gc :
    {Q : Type 0} → LineQueue Q → (ℕ → ℕ → ℕ) → ConvFtl Q → Bool → Option (Bool × ConvFtl Q)
do_gc ops clock ftl force = elim (select_victim_line ops ftl.lm force) [
  | none ↦ some (false, ftl)
  | some (i, lm) ↦ collect_victim ops clock ftl i lm
]

unfoldable pub foreground_gc :
    {Q : Type 0} → LineQueue Q → (ℕ → ℕ → ℕ) → ConvFtl Q → Option (ConvFtl Q)
foreground_gc ops clock ftl =
    let collected = (do (had_victim, ftl') ← do_gc ops clock ftl true; some ftl') in
    if should_gc_high ftl then collected else some ftl

unfoldable pub check_and_refill_write_credit :
    {Q : Type 0} → LineQueue Q → (ℕ → ℕ → ℕ) → ConvFtl Q → Option (ConvFtl Q)
check_and_refill_write_credit ops clock ftl =
    let refilled = do
      ftl' ← foreground_gc ops clock ftl
      some (record ftl' { write_credits = u32 (ftl'.write_credits + ftl'.credits_to_refill) })
    in if ftl.write_credits == 0 then refilled else some ftl
