-- ===== src/Ssd/Params.antt =====
-- NVMevirt/ssd.c `ssd_init_params` and NVMevirt/ssd.h `struct ssdparams`: the geometry of one
-- partition of the device, computed from the constants of NVMevirt/ssd_config.h.
-- A quotient of 64 bits is truncated where it is stored in an `int`. A product of `int`s that
-- overflows has no meaning in C, and a truncated count that is negative none here: both are `none`. The
-- products of `unsigned long` stay exact: they count pages and sectors of the device, which stay far
-- below 2^64.
pub mod Layout
use xharvest.Base.{
  ℕ, ◌+◌, ◌-◌, ◌*◌, ◌/◌, ◌%◌, ◌≤◌, ◌≡◌, Bool, Option, none, some, arith, ltb, ◌==◌, if◌then◌else◌,
  ◌&&◌, ◌||◌, div_round_up, u32, ◌^◌,
}

-- The constants that `BASE_SSD` selects.
pub record SsdConfig : Type 0 where
  pub lba_size : ℕ
  pub nand_channels : ℕ
  pub luns_per_nand_ch : ℕ
  pub plns_per_lun : ℕ
  pub cell_mode : ℕ
  pub flash_page_size : ℕ
  pub oneshot_page_size : ℕ
  pub blks_per_pln : ℕ
  pub blk_size : ℕ
  pub max_ch_xfer_size : ℕ
  pub write_unit_size : ℕ
  pub nand_channel_bandwidth : ℕ
  pub pcie_bandwidth : ℕ
  pub nand_4kb_read_latency : ℕ → ℕ
  pub nand_read_latency : ℕ → ℕ
  pub nand_prog_latency : ℕ
  pub nand_erase_latency : ℕ
  pub fw_4kb_read_latency : ℕ
  pub fw_read_latency : ℕ
  pub fw_wbuf_latency0 : ℕ
  pub fw_wbuf_latency1 : ℕ
  pub fw_ch_xfer_latency : ℕ
  pub global_wb_size : ℕ
  pub write_early_completion : Bool

pub record SsdParams : Type 0 where
  pub secsz : ℕ
  pub secs_per_pg : ℕ
  pub pgsz : ℕ
  pub pgs_per_flashpg : ℕ
  pub flashpgs_per_blk : ℕ
  pub pgs_per_oneshotpg : ℕ
  pub oneshotpgs_per_blk : ℕ
  pub pgs_per_blk : ℕ
  pub blks_per_pl : ℕ
  pub pls_per_lun : ℕ
  pub luns_per_ch : ℕ
  pub nchs : ℕ
  pub cell_mode : ℕ
  pub write_unit_size : ℕ
  pub write_early_completion : Bool
  pub pg_4kb_rd_lat : ℕ → ℕ
  pub pg_rd_lat : ℕ → ℕ
  pub pg_wr_lat : ℕ
  pub blk_er_lat : ℕ
  pub max_ch_xfer_size : ℕ
  pub fw_4kb_rd_lat : ℕ
  pub fw_rd_lat : ℕ
  pub fw_wbuf_lat0 : ℕ
  pub fw_wbuf_lat1 : ℕ
  pub fw_ch_xfer_lat : ℕ
  pub ch_bandwidth : ℕ
  pub pcie_bandwidth : ℕ
  pub secs_per_blk : ℕ
  pub secs_per_pl : ℕ
  pub secs_per_lun : ℕ
  pub secs_per_ch : ℕ
  pub tt_secs : ℕ
  pub pgs_per_pl : ℕ
  pub pgs_per_lun : ℕ
  pub pgs_per_ch : ℕ
  pub tt_pgs : ℕ
  pub blks_per_lun : ℕ
  pub blks_per_ch : ℕ
  pub tt_blks : ℕ
  pub secs_per_line : ℕ
  pub pgs_per_line : ℕ
  pub blks_per_line : ℕ
  pub tt_lines : ℕ
  pub pls_per_ch : ℕ
  pub tt_pls : ℕ
  pub tt_luns : ℕ
  pub write_buffer_size : ℕ

-- The assertions of the function, and the divisors that must not be 0.
abbrev pub params_checks : SsdConfig → ℕ → Bool
params_checks c nparts =
    let pgsz = c.lba_size * (4096 / c.lba_size) in
    ltb 0 nparts
    && c.nand_channels % nparts == 0
    && (ltb 0 c.blks_per_pln || ltb 0 c.blk_size)
    && ltb 0 pgsz
    && ltb 0 c.flash_page_size
    && ltb 0 c.oneshot_page_size
    && c.oneshot_page_size % pgsz == 0
    && c.flash_page_size % pgsz == 0
    && c.oneshot_page_size % c.flash_page_size == 0

-- The fields below `calculated values`, from those above.
abbrev pub derived : SsdConfig → (nchs blks_per_pl oneshotpgs_per_blk : ℕ) → SsdParams
derived c nchs blks_per_pl oneshotpgs_per_blk =
    let secs_per_pg = 4096 / c.lba_size in
    let pgsz = c.lba_size * secs_per_pg in
    let pls_per_lun = c.plns_per_lun in
    let luns_per_ch = c.luns_per_nand_ch in
    let pgs_per_oneshotpg = c.oneshot_page_size / pgsz in
    let pgs_per_blk = pgs_per_oneshotpg * oneshotpgs_per_blk in
    let secs_per_blk = secs_per_pg * pgs_per_blk in
    let secs_per_pl = secs_per_blk * blks_per_pl in
    let secs_per_lun = secs_per_pl * pls_per_lun in
    let secs_per_ch = secs_per_lun * luns_per_ch in
    let pgs_per_pl = pgs_per_blk * blks_per_pl in
    let pgs_per_lun = pgs_per_pl * pls_per_lun in
    let pgs_per_ch = pgs_per_lun * luns_per_ch in
    let blks_per_lun = blks_per_pl * pls_per_lun in
    let blks_per_ch = blks_per_lun * luns_per_ch in
    let pls_per_ch = pls_per_lun * luns_per_ch in
    let tt_luns = luns_per_ch * nchs in
    let blks_per_line = tt_luns in
    let pgs_per_line = blks_per_line * pgs_per_blk in
    record {
      secsz = c.lba_size;
      secs_per_pg = secs_per_pg;
      pgsz = pgsz;
      pgs_per_flashpg = c.flash_page_size / pgsz;
      flashpgs_per_blk = c.oneshot_page_size / c.flash_page_size * oneshotpgs_per_blk;
      pgs_per_oneshotpg = pgs_per_oneshotpg;
      oneshotpgs_per_blk = oneshotpgs_per_blk;
      pgs_per_blk = pgs_per_blk;
      blks_per_pl = blks_per_pl;
      pls_per_lun = pls_per_lun;
      luns_per_ch = luns_per_ch;
      nchs = nchs;
      cell_mode = c.cell_mode;
      write_unit_size = c.write_unit_size;
      write_early_completion = c.write_early_completion;
      pg_4kb_rd_lat = c.nand_4kb_read_latency;
      pg_rd_lat = c.nand_read_latency;
      pg_wr_lat = c.nand_prog_latency;
      blk_er_lat = c.nand_erase_latency;
      max_ch_xfer_size = c.max_ch_xfer_size;
      fw_4kb_rd_lat = c.fw_4kb_read_latency;
      fw_rd_lat = c.fw_read_latency;
      fw_wbuf_lat0 = c.fw_wbuf_latency0;
      fw_wbuf_lat1 = c.fw_wbuf_latency1;
      fw_ch_xfer_lat = c.fw_ch_xfer_latency;
      ch_bandwidth = c.nand_channel_bandwidth;
      pcie_bandwidth = c.pcie_bandwidth;
      secs_per_blk = secs_per_blk;
      secs_per_pl = secs_per_pl;
      secs_per_lun = secs_per_lun;
      secs_per_ch = secs_per_ch;
      tt_secs = secs_per_ch * nchs;
      pgs_per_pl = pgs_per_pl;
      pgs_per_lun = pgs_per_lun;
      pgs_per_ch = pgs_per_ch;
      tt_pgs = pgs_per_ch * nchs;
      blks_per_lun = blks_per_lun;
      blks_per_ch = blks_per_ch;
      tt_blks = blks_per_ch * nchs;
      secs_per_line = pgs_per_line * secs_per_pg;
      pgs_per_line = pgs_per_line;
      blks_per_line = blks_per_line;
      tt_lines = blks_per_lun;
      pls_per_ch = pls_per_ch;
      tt_pls = pls_per_ch * nchs;
      tt_luns = tt_luns;
      write_buffer_size = c.global_wb_size;
    }

-- Blocks of a plane and bytes of a block: `BLKS_PER_PLN` fixes the one, or else `BLK_SIZE` the other. The
-- blocks are stored in an `int`.
unfoldable pub plane_blocks : SsdConfig → ℕ → ℕ → ℕ × ℕ
plane_blocks c capacity nchs =
    let spread = div_round_up capacity in
    if ltb 0 c.blks_per_pln
    then (c.blks_per_pln, spread (c.blks_per_pln * c.plns_per_lun * c.luns_per_nand_ch * nchs))
    else (u32 (spread (c.blk_size * c.plns_per_lun * c.luns_per_nand_ch * nchs)), c.blk_size)

-- A value that an `int` holds.
abbrev pub fits_int : ℕ → Bool
fits_int x = ltb x (2 ^ 31)

-- The products of `int`s; with `BLKS_PER_PLN` also the blocks of all dies, which divide the capacity.
abbrev pub int_checks : SsdConfig → (nchs blks_per_pl oneshotpgs_per_blk : ℕ) → Bool
int_checks c nchs blks_per_pl oneshotpgs_per_blk =
    let p = derived c nchs blks_per_pl oneshotpgs_per_blk in
    fits_int blks_per_pl
    && fits_int oneshotpgs_per_blk
    && fits_int p.pgsz
    && fits_int p.flashpgs_per_blk
    && fits_int p.pgs_per_blk
    && fits_int p.secs_per_blk
    && fits_int p.pgs_per_pl
    && fits_int p.blks_per_lun
    && fits_int p.pls_per_ch
    && fits_int p.tt_luns
    && (c.blks_per_pln == 0 || fits_int (blks_per_pl * c.plns_per_lun * c.luns_per_nand_ch * nchs))

-- `none` is a failed assertion, a division by 0 or an `int` that overflows.
unfoldable pub ssd_init_params : SsdConfig → ℕ → ℕ → Option SsdParams
ssd_init_params c capacity nparts =
    let nchs = c.nand_channels / nparts in
    let (blks_per_pl, blk_size) = plane_blocks c (capacity / nparts) nchs in
    let per = u32 (div_round_up blk_size c.oneshot_page_size) in
    let geometry = derived c nchs blks_per_pl per in
    if params_checks c nparts && ltb 0 (c.plns_per_lun * c.luns_per_nand_ch * nchs)
    then if int_checks c nchs blks_per_pl per then some geometry else none
    else none
