-- ===== src/Conv/Tests.antt =====
-- A partition of two channels with two dies each, and blocks of 16 one-shot pages of 8 pages.
use xharvest.Base.{div_round_up, ◌/◌, ◌^◌, ℕ, ◌<◌, ◌≡◌, if◌then◌else◌, true, some, refl, arith}
use xharvest.Ssd.Params.{SsdConfig, SsdParams, ssd_init_params, plane_blocks, derived}
use xharvest.Ssd.Params.Layout.{IsLayout, ssd_init_params-IsLayout}
use xharvest.Ssd.Nand.{Ppa, Ssd, ssd_init, same_pg}
use xharvest.Conv.{
  Maps, init_maps, ppa2pgidx, get_rmap_ent, set_rmap_ent, WritePointer, Advance, next_page,
  advance_in_line, next_ch, next_lun, next_wordline,
}
use xharvest.Conv.Index.{IsPage, ppa2pgidx-numbers, get_rmap_ent-set_rmap_ent}
use xharvest.Conv.Pointer.{Stands, FitsInt, Stepped, advance_in_line-Stepped}

abbrev samsung_970pro : SsdConfig
samsung_970pro = record {
  lba_size = 512;
  nand_channels = 8;
  luns_per_nand_ch = 2;
  plns_per_lun = 1;
  cell_mode = 2;
  flash_page_size = 32768;
  oneshot_page_size = 32768;
  blks_per_pln = 8192;
  blk_size = 0;
  max_ch_xfer_size = 16384;
  write_unit_size = 512;
  nand_channel_bandwidth = 800;
  pcie_bandwidth = 3360;
  nand_4kb_read_latency = λ cell. 29760;
  nand_read_latency = λ cell. 30013;
  nand_prog_latency = 185000;
  nand_erase_latency = 0;
  fw_4kb_read_latency = 21500;
  fw_read_latency = 30490;
  fw_wbuf_latency0 = 4000;
  fw_wbuf_latency1 = 460;
  fw_ch_xfer_latency = 0;
  global_wb_size = 1048576;
  write_early_completion = true;
}

abbrev params : SsdParams
params = derived samsung_970pro 2 8192 16

ssd_init_params-samsung : ssd_init_params samsung_970pro 68719476736 4 ≡ some params
unfolding ssd_init_params plane_blocks
ssd_init_params-samsung = refl

block_fits :
    div_round_up
      (plane_blocks samsung_970pro (68719476736 / 4) (samsung_970pro.nand_channels / 4)).1
      32768
    < 2 ^ 32
unfolding plane_blocks
block_fits = omega arith

params-IsLayout : IsLayout 17179869184 params
params-IsLayout =
    ssd_init_params-IsLayout samsung_970pro 68719476736 4 (λ e. omega (arith, e)) block_fits
      ssd_init_params-samsung

abbrev ssd : Ssd
ssd = ssd_init params

ssd-IsLayout : IsLayout 17179869184 ssd.sp
unfolding ssd_init
ssd-IsLayout = params-IsLayout

abbrev maps : Maps
maps = init_maps ssd

maps-IsLayout : IsLayout 17179869184 maps.ssd.sp
unfolding ssd_init init_maps
maps-IsLayout = params-IsLayout

maps-small : maps.ssd.sp.tt_pgs < 18446744073709551616
unfolding ssd_init init_maps
maps-small = omega arith

abbrev page : Ppa
page = record { pg = 3; blk = 2; pl = 0; lun = 1; ch = 1; rsv = 0 }

abbrev other : Ppa
other = record { pg = 4; blk = 2; pl = 0; lun = 1; ch = 1; rsv = 0 }

page-IsPage : IsPage maps.ssd page × IsPage maps.ssd other
unfolding ssd_init init_maps
page-IsPage = omega arith

ppa2pgidx-numbers_example :
    (n : ℕ) × (ppa2pgidx maps page ≡ some n)
    × (n < maps.ssd.sp.tt_pgs)
    × (ppa2pgidx maps other ≡ some n → same_pg page other ≡ true)
ppa2pgidx-numbers_example =
    ppa2pgidx-numbers maps maps-IsLayout maps-small page other page-IsPage.0 page-IsPage.1

get_rmap_ent-set_rmap_ent_example :
    (ftl' : Maps) × (set_rmap_ent maps 77 page ≡ some ftl')
    × (get_rmap_ent ftl' other ≡ (if same_pg page other then some 77 else get_rmap_ent maps other))
get_rmap_ent-set_rmap_ent_example =
    get_rmap_ent-set_rmap_ent maps maps-IsLayout maps-small 77 page other page-IsPage.0
      page-IsPage.1

-- The last page of a wordline on the last die: the next wordline.
abbrev pointer : WritePointer
pointer = record { ch = 1; lun = 1; pg = 15; blk = 2; pl = 0 }

pointer-Stands : Stands ssd pointer 1 7 × FitsInt ssd
unfolding ssd_init
pointer-Stands = omega arith

advance_in_line-Stepped_example :
    (r : Advance) × (advance_in_line ssd pointer ≡ some r) × Stepped ssd pointer 1 7 r
advance_in_line-Stepped_example =
    advance_in_line-Stepped ssd pointer 1 7 ssd-IsLayout pointer-Stands.1 pointer-Stands.0

advance_in_line-pointer :
    advance_in_line ssd pointer
    ≡ some (next_page (record { ch = 0; lun = 0; pg = 16; blk = 2; pl = 0 }))
unfolding advance_in_line next_ch next_lun next_wordline ssd_init
advance_in_line-pointer = refl
