-- ===== src/Conv.antt =====
-- NVMevirt/conv_ftl.h and conv_ftl.c: the conventional FTL's mapping tables and write pointers.
pub mod Index
pub mod Pointer
pub mod Lines
pub mod Ftl
pub mod Gc
pub mod Io
pub mod Commands
pub mod Mapped
mod Tests
use xharvest.Base.{
  ℕ, ◌+◌, ◌-◌, ◌*◌, ◌%◌, Bool, true, false, Option, none, some, ltb, ◌==◌, if◌then◌else◌, u32, u64,
  ◌||◌, ◌^◌, sub32, update, ◌>>=◌, ◌&&◌, not,
}
use xharvest.Ssd.Nand.{Ppa, Ssd, ppa_word, ppa_of_word, unmapped_ppa, invalid_lpn}

-- The maps and the SSD: the fields of `struct conv_ftl` that address translation uses.
pub record Maps : Type 0 where
  pub ssd : Ssd
  pub maptbl : ℕ → Ppa
  pub rmap : ℕ → ℕ

unfoldable pub last_pg_in_wordline : Maps → Ppa → Bool
last_pg_in_wordline ftl p = p.pg % ftl.ssd.sp.pgs_per_oneshotpg == ftl.ssd.sp.pgs_per_oneshotpg - 1

-- `none` is the failed assertion.
unfoldable pub ppa2pgidx : Maps → Ppa → Option ℕ
ppa2pgidx ftl p =
    let spp = ftl.ssd.sp in
    let pgidx = u64 (
      p.ch * spp.pgs_per_ch
      + p.lun * spp.pgs_per_lun
      + p.pl * spp.pgs_per_pl
      + p.blk * spp.pgs_per_blk
      + p.pg) in
    if ltb pgidx spp.tt_pgs then some pgidx else none

unfoldable pub valid_lpn : Maps → ℕ → Bool
valid_lpn ftl lpn = ltb lpn ftl.ssd.sp.tt_pgs

unfoldable pub mapped_ppa : Ppa → Bool
mapped_ppa p = not (ppa_word p == unmapped_ppa)

unfoldable pub valid_ppa : Maps → Ppa → Bool
valid_ppa ftl p =
    let spp = ftl.ssd.sp in
    ltb p.ch spp.nchs
    && ltb p.lun spp.luns_per_ch
    && ltb p.pl spp.pls_per_lun
    && ltb p.blk spp.blks_per_pl
    && ltb p.pg spp.pgs_per_blk

unfoldable pub get_maptbl_ent : Maps → ℕ → Ppa
get_maptbl_ent ftl lpn = ftl.maptbl lpn

unfoldable pub set_maptbl_ent : Maps → ℕ → Ppa → Option Maps
set_maptbl_ent ftl lpn p =
    if ltb lpn ftl.ssd.sp.tt_pgs
    then some (record ftl { maptbl = update ftl.maptbl lpn p })
    else none

unfoldable pub get_rmap_ent : Maps → Ppa → Option ℕ
unfolding ppa2pgidx
get_rmap_ent ftl p = do pgidx ← ppa2pgidx ftl p; some (ftl.rmap pgidx)

unfoldable pub set_rmap_ent : Maps → ℕ → Ppa → Option Maps
unfolding ppa2pgidx
set_rmap_ent ftl lpn p = do
  pgidx ← ppa2pgidx ftl p
  some (record ftl { rmap = update ftl.rmap pgidx lpn })

-- `init_maptbl` and `init_rmap`
unfoldable pub init_maps : Ssd → Maps
init_maps ssd = record {
  ssd = ssd;
  maptbl = λ i. ppa_of_word unmapped_ppa;
  rmap = λ i. invalid_lpn;
}

-- The fields of `struct write_pointer` but the line: `blk` is its id.
pub record WritePointer : Type 0 where
  pub ch : ℕ
  pub lun : ℕ
  pub pg : ℕ
  pub blk : ℕ
  pub pl : ℕ

-- `advance_write_pointer` up to the end of the line: the next page, or that the line is used up.
pub data Advance : Type 0 where
  next_page : WritePointer → Advance
  line_used : WritePointer → Advance

-- The wordline of the last die is full: the next one in the block.
unfoldable pub next_wordline : Ssd → WritePointer → Advance
next_wordline ssd wpp =
    let pg = u32 (wpp.pg + ssd.sp.pgs_per_oneshotpg) in
    if pg == ssd.sp.pgs_per_blk
    then line_used (record wpp { pg = 0; lun = 0; ch = 0 })
    else next_page (record wpp { pg = pg; lun = 0; ch = 0 })

unfoldable pub next_lun : Ssd → WritePointer → Option Advance
next_lun ssd wpp =
    let lun = u32 (wpp.lun + 1) in
    if not (ltb wpp.lun ssd.sp.luns_per_ch)
    then none
    else if lun == ssd.sp.luns_per_ch
    then some (next_wordline ssd wpp)
    else some (next_page (record wpp { lun = lun; ch = 0 }))

unfoldable pub next_ch : Ssd → WritePointer → Option Advance
next_ch ssd wpp =
    let ch = u32 (wpp.ch + 1) in
    if not (ltb wpp.ch ssd.sp.nchs)
    then none
    else if ch == ssd.sp.nchs
    then next_lun ssd wpp
    else some (next_page (record wpp { ch = ch }))

unfoldable pub advance_in_line : Ssd → WritePointer → Option Advance
advance_in_line ssd wpp =
    let pg = u32 (wpp.pg + 1) in
    if not (ltb wpp.pg ssd.sp.pgs_per_blk) || ssd.sp.pgs_per_oneshotpg == 0
    then none
    else if not (pg % ssd.sp.pgs_per_oneshotpg == 0)
    then some (next_page (record wpp { pg = pg }))
    else next_ch ssd (record wpp { pg = sub32 pg ssd.sp.pgs_per_oneshotpg })

-- `get_new_page`: the assertion is that there is one plane.
unfoldable pub get_new_page : WritePointer → Option Ppa
get_new_page wp =
    let p : Ppa = record {
      ch = wp.ch % 2 ^ 8;
      lun = wp.lun % 2 ^ 8;
      pg = wp.pg % 2 ^ 16;
      blk = wp.blk % 2 ^ 16;
      pl = wp.pl % 2 ^ 8;
      rsv = 0;
    } in
    if p.pl == 0 then some p else none
