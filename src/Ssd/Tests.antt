-- ===== src/Ssd/Tests.antt =====
-- The SSD of the Samsung 970 PRO configuration in NVMevirt/ssd_config.h, 64 GiB in 4 partitions.
use xharvest.Base.{
  div_round_up, ℕ, ◌*◌, ◌/◌, ◌<◌, ◌≤◌, ◌≡◌, ◌≢◌, ◌^◌, ◌==◌, if◌then◌else◌, true, false, some, refl,
  arith, List, [], ◌∷◌, ◌⊎◌,
}
use xharvest.Channel.{chmodel_init}
use xharvest.Ssd.Params.{SsdConfig, SsdParams, ssd_init_params, plane_blocks, derived}
use xharvest.Ssd.Params.Layout.{IsLayout, ssd_init_params-IsLayout}
use xharvest.Ssd.Buffer.{
  buffer_init, BufferOp, allocates, releases, buffer_run, IsBalanced, buffer_run-IsBalanced,
}
use xharvest.Ssd.Nand.{
  Ppa, ppa_word, Ssd, ssd_init, ssd_init_ch, ssd_init_nand_lun, ssd_init_pcie, unmapped_ppa,
  get_lun, get_ch,
}
use xharvest.Ssd.Timing.{NandCmd, nand_write, ssd_advance_nand, ssd_next_idle_time}
use xharvest.Ssd.Timing.Bounds.{IsTimely, IsReady, Advanced, ssd_advance_nand-Advanced}
use xharvest.Ssd.Timing.Idle.{ssd_next_idle_time_lem}

abbrev by_cell : ℕ → ℕ → ℕ → ℕ
by_cell lsb msb cell = if cell == 0 then lsb else if cell == 1 then msb else 0

abbrev samsung_970pro : SsdConfig
samsung_970pro = record {
  lba_size = 512;
  nand_channels = 8;
  luns_per_nand_ch = 2;
  plns_per_lun = 1;
  cell_mode = 2;
  flash_page_size = 32768;
  oneshot_page_size = 32768;
  blks_per_pln = 8192;
  blk_size = 0;
  max_ch_xfer_size = 16384;
  write_unit_size = 512;
  nand_channel_bandwidth = 800;
  pcie_bandwidth = 3360;
  nand_4kb_read_latency = by_cell 29760 41760;
  nand_read_latency = by_cell 30013 42013;
  nand_prog_latency = 185000;
  nand_erase_latency = 0;
  fw_4kb_read_latency = 21500;
  fw_read_latency = 30490;
  fw_wbuf_latency0 = 4000;
  fw_wbuf_latency1 = 460;
  fw_ch_xfer_latency = 0;
  global_wb_size = 1048576;
  write_early_completion = true;
}

abbrev gib : ℕ
gib = 1073741824

-- One of four partitions: 2 channels, and blocks of 16 one-shot pages.
abbrev params : SsdParams
params = derived samsung_970pro 2 8192 16

ssd_init_params-samsung : ssd_init_params samsung_970pro (64 * gib) 4 ≡ some params
unfolding ssd_init_params plane_blocks
ssd_init_params-samsung = refl

block_fits :
    div_round_up
      (plane_blocks samsung_970pro ((64 * gib) / 4) (samsung_970pro.nand_channels / 4)).1
      32768
    < 2 ^ 32
unfolding plane_blocks
block_fits = omega arith

ssd_init_params-IsLayout_example : IsLayout (64 * gib / 4) params
ssd_init_params-IsLayout_example =
    ssd_init_params-IsLayout samsung_970pro (64 * gib) 4 (λ e. omega (arith, e)) block_fits
      ssd_init_params-samsung

-- A write takes 8192 bytes, another does not fit, the first is released.
abbrev ops : List BufferOp
ops = allocates 8192 ∷ allocates 1048576 ∷ releases 8192 ∷ []

buffer_run-IsBalanced_example : IsBalanced (buffer_run (buffer_init 1048576, 0) ops)
unfolding buffer_init
buffer_run-IsBalanced_example = buffer_run-IsBalanced (buffer_init 1048576, 0) ops (ground arith)

abbrev page : Ppa
page = record { pg = 3; blk = 2; pl = 0; lun = 1; ch = 1; rsv = 0 }

abbrev device : Ssd
device = ssd_init params

abbrev program : NandCmd
program = record {
  op = nand_write;
  xfer_size = 32768;
  stime = 1000;
  interleave_pci_dma = false;
  ppa = page;
}

device-IsReady : IsReady device
unfolding ssd_init ssd_init_ch ssd_init_pcie chmodel_init
device-IsReady = record { channels_valid = λ c. omega arith; pcie_valid = omega arith }

by_cell_small : (a b cell : ℕ) → a < 2 ^ 32 → b < 2 ^ 32 → by_cell a b cell < 2 ^ 32
by_cell_small a b cell h k = ground arith

program-IsTimely : IsTimely device program 1000
unfolding ssd_init ssd_init_ch ssd_init_nand_lun get_lun get_ch
program-IsTimely = record {
  ready = device-IsReady;
  cells = (omega arith, omega arith);
  chunk = omega arith;
  bytes = omega arith;
  read_bytes = λ e. omega arith;
  start_small = omega arith;
  die_small = omega arith;
  read_4kb = λ cell. by_cell_small 29760 41760 cell (omega arith) (omega arith);
  read = λ cell. by_cell_small 30013 42013 cell (omega arith) (omega arith);
  write = omega arith;
  erase = omega arith;
}

page_mapped : ppa_word page ≢ unmapped_ppa
unfolding ppa_word
page_mapped = omega arith

ssd_advance_nand-Advanced_example :
    (r : ℕ × Ssd) × (ssd_advance_nand (λ i. 500) device program ≡ some r)
    × Advanced device page 1000 r
ssd_advance_nand-Advanced_example =
    ssd_advance_nand-Advanced (λ i. 500) device program program-IsTimely page_mapped

ssd_next_idle_time_lem_example :
    (700 ≤ ssd_next_idle_time device 700)
    × ((c l : ℕ)
        → c < device.sp.nchs
        → l < device.sp.luns_per_ch
        → ((device.channels c).luns l).next_lun_avail_time ≤ ssd_next_idle_time device 700)
    × ((ssd_next_idle_time device 700 ≡ 700)
        ⊎ ((c l : ℕ) × (c < device.sp.nchs)
            × (l < device.sp.luns_per_ch)
            × (ssd_next_idle_time device 700 ≡ ((device.channels c).luns l).next_lun_avail_time)))
ssd_next_idle_time_lem_example = ssd_next_idle_time_lem device 700
