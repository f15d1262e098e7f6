-- ===== src/Conv/Ftl.antt =====
-- NVMevirt/conv_ftl.c and conv_ftl.h: the whole state of the conventional FTL, its initial value, and
-- the write pointers with their lines. `none` is a failed assertion or a line that is not there.
use xharvest.Base.{
  ◌≡◌, ◌⊎◌, ℕ, zero, suc, ◌+◌, Bool, true, false, Option, none, some, List, [], ◌∷◌, ◌++◌, ltb, leb,
  ◌==◌, if◌then◌else◌, ◌>>=◌, ◌&&◌, u32, sub32,
}
use xharvest.Ssd.Nand.{Ppa, Ssd}
use xharvest.Ssd.Timing.{NandCmd, ssd_advance_nand}
use xharvest.Conv.{
  Maps, WritePointer, next_page, line_used, advance_in_line, get_new_page, init_maps,
  set_maptbl_ent, set_rmap_ent,
}
use xharvest.Conv.Lines.{Line, VictimQueue, LineState, mark_page_valid, get_next_free_line}

-- The calls of the priority queue: those of the marks, and `pqueue_init`, `pqueue_peek` and
-- `pqueue_pop`, which moves the positions of other lines.
pub record LineQueue (Q : Type 0) : Type 0 where
  pub victims : VictimQueue Q
  pub init : ℕ → Q
  pub peek : Q → Option ℕ
  pub pop : Q → (ℕ → Line) → Q × (ℕ → Line)

-- What the calls do: `contents` are the lines in the queue. A line comes in by an insertion alone, the
-- first is one of them, and no line's number changes.
pub record IsLineQueue {Q : Type 0} (ops : LineQueue Q) : Type 0 where
  pub contents : Q → ℕ → Bool
  pub init_in : (n j : ℕ) → contents (ops.init n) j ≡ false
  pub peek_in : (q : Q) (i : ℕ) → ops.peek q ≡ some i → contents q i ≡ true
  pub pop_in :
      (q : Q) (lines : ℕ → Line) (j : ℕ)
      → contents (ops.pop q lines).0 j ≡ true
      → contents q j ≡ true
  pub insert_in :
      (q : Q) (lines : ℕ → Line) (i j : ℕ)
      → (let v = ops.victims in contents (v.insert q lines i).0 j ≡ true)
      → (contents q j ≡ true) ⊎ (j ≡ i)
  pub change_in :
      (q : Q) (lines : ℕ → Line) (pri i j : ℕ)
      → (let v = ops.victims in contents (v.change_priority q lines pri i).0 j ≡ true)
      → contents q j ≡ true
  pub pop_id : (q : Q) (lines : ℕ → Line) (j : ℕ) → ((ops.pop q lines).1 j).id ≡ (lines j).id
  pub insert_id :
      (q : Q) (lines : ℕ → Line) (i j : ℕ)
      → (let v = ops.victims in ((v.insert q lines i).1 j).id ≡ (lines j).id)
  pub change_id :
      (q : Q) (lines : ℕ → Line) (pri i j : ℕ)
      → (let v = ops.victims in ((v.change_priority q lines pri i).1 j).id ≡ (lines j).id)

-- `op_area_pcent` and `pba_pcent` only size the namespace.
pub record ConvParams : Type 0 where
  pub gc_thres_lines : ℕ
  pub gc_thres_lines_high : ℕ
  pub enable_gc_delay : Bool

-- A write pointer with its line, which is a pointer into the array of lines.
pub record LinePointer : Type 0 where
  pub curline : ℕ
  pub at : WritePointer

pub data IoType : Type 0 where
  user_io gc_io : IoType

-- `lm` has the SSD with the lines. `nand_calls` counts the NAND commands so far: it picks the
-- readings of the clock that the next one makes.
pub record ConvFtl (Q : Type 0) : Type 0 where
  pub cp : ConvParams
  pub lm : LineState Q
  pub maptbl : ℕ → Ppa
  pub rmap : ℕ → ℕ
  pub wp : LinePointer
  pub gc_wp : LinePointer
  pub write_credits : ℕ
  pub credits_to_refill : ℕ
  pub nand_calls : ℕ

-- The fields that address translation uses, and those of it that change.
abbrev pub maps : {Q : Type 0} → ConvFtl Q → Maps
maps ftl = record { ssd = ftl.lm.ssd; maptbl = ftl.maptbl; rmap = ftl.rmap }

abbrev pub with_maps : {Q : Type 0} → ConvFtl Q → Maps → ConvFtl Q
with_maps ftl m = record ftl { maptbl = m.maptbl; rmap = m.rmap }

abbrev pub with_lines : {Q : Type 0} → ConvFtl Q → LineState Q → ConvFtl Q
with_lines ftl lm = record ftl { lm = lm }

unfoldable pub get_wp : {Q : Type 0} → ConvFtl Q → IoType → LinePointer
get_wp ftl user_io = ftl.wp
get_wp ftl gc_io = ftl.gc_wp

-- `*wp = p`
unfoldable pub set_wp : {Q : Type 0} → ConvFtl Q → IoType → LinePointer → ConvFtl Q
set_wp ftl user_io p = record ftl { wp = p }
set_wp ftl gc_io p = record ftl { gc_wp = p }

unfoldable pub should_gc_high : {Q : Type 0} → ConvFtl Q → Bool
should_gc_high ftl = leb ftl.lm.free_line_cnt ftl.cp.gc_thres_lines_high

unfoldable pub consume_write_credit : {Q : Type 0} → ConvFtl Q → ConvFtl Q
consume_write_credit ftl = record ftl { write_credits = sub32 ftl.write_credits 1 }

-- The lines `0 .. n - 1` in the order in which they are put at the end of the list.
unfoldable pub line_numbers : ℕ → List ℕ
line_numbers zero = []
line_numbers (suc n) = line_numbers n ++ (n ∷ [])

unfoldable pub init_lines : {Q : Type 0} → LineQueue Q → Ssd → Option (LineState Q)
init_lines ops ssd =
    let tt_lines = ssd.sp.blks_per_pl in
    if tt_lines == ssd.sp.tt_lines
    then some (record {
      ssd = ssd;
      lines = λ i. record { id = i; ipc = 0; vpc = 0; pos = 0 };
      victim_line_pq = ops.init ssd.sp.tt_lines;
      free_line_list = line_numbers tt_lines;
      full_line_list = [];
      free_line_cnt = tt_lines;
      victim_line_cnt = 0;
      full_line_cnt = 0;
    })
    else none

-- The pointer at the first page of a line.
abbrev pub line_start : {Q : Type 0} → LineState Q → ℕ → LinePointer
line_start lm i = record {
  curline = i;
  at = record { ch = 0; lun = 0; pg = 0; blk = (lm.lines i).id; pl = 0 };
}

unfoldable pub prepare_write_pointer : {Q : Type 0} → ConvFtl Q → IoType → Option (ConvFtl Q)
prepare_write_pointer ftl io_type = do
  (i, lm) ← get_next_free_line ftl.lm
  some (set_wp (with_lines ftl lm) io_type (line_start lm i))

-- The used line goes to the full lines, or to the victims.
unfoldable pub retire_line : {Q : Type 0} → LineQueue Q → LineState Q → ℕ → Option (LineState Q)
retire_line ops lm i =
    let line = lm.lines i in
    let (q, lines) = ops.victims.insert lm.victim_line_pq lm.lines i in
    let full = record lm {
      full_line_list = lm.full_line_list ++ (i ∷ []);
      full_line_cnt = u32 (lm.full_line_cnt + 1);
    } in
    let victim = record lm {
      victim_line_pq = q;
      lines = lines;
      victim_line_cnt = u32 (lm.victim_line_cnt + 1);
    } in
    if line.vpc == lm.ssd.sp.pgs_per_line
    then if line.ipc == 0 then some full else none
    else if ltb line.vpc lm.ssd.sp.pgs_per_line && ltb 0 line.ipc
    then some victim
    else none

-- `advance_write_pointer` where the line is used up; the pointer is back at page 0 of the line.
unfoldable pub next_line :
    {Q : Type 0} → LineQueue Q → IoType → ConvFtl Q → WritePointer → Option (ConvFtl Q)
next_line ops io_type ftl wpp = do
  let blks = ftl.lm.ssd.sp.blks_per_pl
  retired ← retire_line ops ftl.lm (get_wp ftl io_type).curline
  (i, lm) ← get_next_free_line retired
  let blk = (lm.lines i).id
  let next : LinePointer = record { curline = i; at = record wpp { blk = blk } }
  let moved = set_wp (with_lines ftl lm) io_type next
  if ltb wpp.blk blks && ltb blk blks && wpp.pl == 0 then some moved else none

unfoldable pub advance_write_pointer :
    {Q : Type 0} → LineQueue Q → IoType → ConvFtl Q → Option (ConvFtl Q)
advance_write_pointer ops io_type ftl = do
  let wpp = get_wp ftl io_type
  step ← advance_in_line ftl.lm.ssd wpp.at
  elim step [
    | next_page at ↦ some (set_wp ftl io_type (record wpp { at = at }))
    | line_used at ↦ next_line ops io_type ftl at
  ]

-- What a write and garbage collection do alike: a new page for the LPN, in both maps, marked valid,
-- and the write pointer one page on.
unfoldable pub place_page :
    {Q : Type 0} → LineQueue Q → IoType → ConvFtl Q → ℕ → Option (Ppa × ConvFtl Q)
place_page ops io_type ftl lpn = do
  new ← get_new_page (get_wp ftl io_type).at
  m1 ← set_maptbl_ent (maps ftl) lpn new
  m2 ← set_rmap_ent m1 lpn new
  lm ← mark_page_valid ftl.lm new
  ftl' ← advance_write_pointer ops io_type (with_lines (with_maps ftl m2) lm)
  some (new, ftl')

-- A NAND command, with its readings of the clock.
unfoldable pub advance_nand :
    {Q : Type 0} → (ℕ → ℕ → ℕ) → ConvFtl Q → NandCmd → Option (ℕ × ConvFtl Q)
advance_nand clock ftl cmd = do
  (time, ssd) ← ssd_advance_nand (clock ftl.nand_calls) ftl.lm.ssd cmd
  let lm = ftl.lm
  some (time, record ftl { lm = record lm { ssd = ssd }; nand_calls = ftl.nand_calls + 1 })

unfoldable pub conv_init_params : ConvParams
conv_init_params = record { gc_thres_lines = 2; gc_thres_lines_high = 2; enable_gc_delay = true }

-- Both write pointers get a line; before, they are those of line 0.
unfoldable pub conv_init_ftl : {Q : Type 0} → LineQueue Q → ConvParams → Ssd → Option (ConvFtl Q)
conv_init_ftl ops cpp ssd = do
  lm ← init_lines ops ssd
  let m = init_maps ssd
  ftl ←
      prepare_write_pointer
        (record {
          cp = cpp;
          lm = lm;
          maptbl = m.maptbl;
          rmap = m.rmap;
          wp = line_start lm 0;
          gc_wp = line_start lm 0;
          write_credits = ssd.sp.pgs_per_line;
          credits_to_refill = ssd.sp.pgs_per_line;
          nand_calls = 0;
        })
        user_io
  prepare_write_pointer ftl gc_io
