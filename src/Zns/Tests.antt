-- ===== src/Zns/Tests.antt =====
-- The WD ZN540 configuration in NVMevirt/ssd_config.h, 8 GiB: 4 zones of 2 GiB.
use xharvest.Base.{[], ◌≢◌, ℕ, ◌+◌, ◌*◌, ◌<◌, ◌≡◌, true, false, some, none, refl, arith}
use xharvest.Ssd.Params.{SsdConfig, SsdParams, ssd_init_params, plane_blocks, derived}
use xharvest.Ssd.Nand.{ssd_init}
use xharvest.Zns.{
  ZnsParams, ZnsFtl, Status, success, opened_expl, set_zone, lba_to_zone, zone_to_slba,
  release_zone_resource,
}
use xharvest.Zns.Init.{
  ZnsConfig, zns_init_params, zns_init_ftl, init_resource, init_descriptor, zslba_at,
  zns_init_ftl-IsAccounted, zns_init_ftl-zone_to_slba,
}
use xharvest.Zns.Manage.{release_opened, open_action, zns_zmgmt_send}
use xharvest.Zns.Manage.Accounting.{IsAccounted, Keeps}
use xharvest.Zns.Manage.Commands.{HasZones, zns_zmgmt_send-Keeps, lba_to_zone-zone_to_slba}
use xharvest.Ssd.Buffer.{buffer_init}
use xharvest.Zns.Io.{
  admit_write, increase_write_ptr, RwCmd, IoResult, done, nr_lbas_from_rw_cmd, lba_to_byte,
}
use xharvest.Zns.Io.Transfer.{get_write_buffer, zns_write_plain}
use xharvest.Zns.Io.Refused.{zns_write_plain-leaks}
use xharvest.Zns.Io.Admit.{Written, admit_write-Written}

abbrev wd_zn540 : SsdConfig
wd_zn540 = record {
  lba_size = 512;
  nand_channels = 8;
  luns_per_nand_ch = 4;
  plns_per_lun = 1;
  cell_mode = 3;
  flash_page_size = 32768;
  oneshot_page_size = 98304;
  blks_per_pln = 0;
  blk_size = 67108864;
  max_ch_xfer_size = 32768;
  write_unit_size = 512;
  nand_channel_bandwidth = 450;
  pcie_bandwidth = 3050;
  nand_4kb_read_latency = λ cell. 50000;
  nand_read_latency = λ cell. 58000;
  nand_prog_latency = 561000;
  nand_erase_latency = 0;
  fw_4kb_read_latency = 20000;
  fw_read_latency = 13000;
  fw_wbuf_latency0 = 5600;
  fw_wbuf_latency1 = 600;
  fw_ch_xfer_latency = 0;
  global_wb_size = 0;
  write_early_completion = true;
}

abbrev gib : ℕ
gib = 1073741824

abbrev ssd_params : SsdParams
ssd_params = derived wd_zn540 8 4 683

ssd_init_params-wd : ssd_init_params wd_zn540 (8 * gib) 1 ≡ some ssd_params
unfolding ssd_init_params plane_blocks
ssd_init_params-wd = refl

abbrev zns_config : ZnsConfig
zns_config = record {
  zone_size = 2147483648;
  dies_per_zone = 32;
  max_zrwa_zones = 0;
  zone_wb_size = 983040;
  zrwa_size = 0;
  zrwafg_size = 0;
  zrwa_buffer_size = 0;
}

abbrev zns_params : ZnsParams
zns_params = record {
  nr_zones = 4;
  nr_active_zones = 4;
  nr_open_zones = 4;
  dies_per_zone = 32;
  zone_size = 2147483648;
  zone_wb_size = 983040;
  nr_zrwa_zones = 0;
  zrwafg_size = 0;
  zrwa_size = 0;
  zrwa_buffer_size = 0;
  lbas_per_zrwafg = 0;
  lbas_per_zrwa = 0;
}

zns_init_params-wd : zns_init_params zns_config ssd_params (8 * gib) ≡ some zns_params
unfolding zns_init_params
zns_init_params-wd = refl

abbrev new_device : ZnsFtl
new_device = zns_init_ftl zns_params (ssd_init ssd_params) (λ i. 0)

zns_init_ftl-IsAccounted_example : IsAccounted new_device
zns_init_ftl-IsAccounted_example =
    zns_init_ftl-IsAccounted zns_params (ssd_init ssd_params) (λ i. 0) (omega arith)

new_device-HasZones : HasZones new_device
unfolding zns_init_ftl ssd_init
new_device-HasZones = record { sized = omega arith; few = omega arith }

new_device-zone_1 :
    (lba_to_zone new_device 4194304 < new_device.zp.nr_zones)
    × (zone_to_slba new_device 1 ≡ 4194304)
    × ((new_device.zone_descs 1).zslba ≡ 4194304)
unfolding zns_init_ftl ssd_init lba_to_zone zone_to_slba init_descriptor zslba_at
new_device-zone_1 = (omega arith, refl, refl)

-- Zone 1 is opened with a random write area.
zns_zmgmt_send-Keeps_example :
    Keeps new_device (zns_zmgmt_send new_device 4194304 false open_action true)
zns_zmgmt_send-Keeps_example =
    zns_zmgmt_send-Keeps new_device 4194304 false open_action true
      (zns_init_ftl-IsAccounted zns_params (ssd_init ssd_params) (λ i. 0) (omega arith))
      new_device-HasZones new_device-zone_1.0 tt

zone_3_inside : 3 < new_device.zp.nr_zones
unfolding zns_init_ftl
zone_3_inside = omega arith

lba_to_zone-zone_to_slba_example : lba_to_zone new_device (zone_to_slba new_device 3) ≡ 3
lba_to_zone-zone_to_slba_example =
    lba_to_zone-zone_to_slba new_device 3 new_device-HasZones zone_3_inside

zns_init_ftl-zone_to_slba_example :
    ((new_device.zone_descs 3).zslba ≡ zone_to_slba new_device 3)
    × ((new_device.zone_descs 3).wp ≡ zone_to_slba new_device 3)
unfolding ssd_init
zns_init_ftl-zone_to_slba_example =
    zns_init_ftl-zone_to_slba zns_params (ssd_init ssd_params) (λ i. 0) 3 refl (omega arith)

-- The first 8 LBAs of zone 1.
admit_write-Written_example :
    (r : Status × ZnsFtl) × (admit_write new_device 1 4194304 8 ≡ some r)
    × Written new_device 1 4194304 8 r
unfolding zns_init_ftl ssd_init init_descriptor
admit_write-Written_example =
    admit_write-Written new_device 1 4194304 8 (omega arith)
      (zns_init_ftl-IsAccounted zns_params (ssd_init ssd_params) (λ i. 0) (omega arith)) refl
      (omega arith)

-- A write to its last 8 LBAs with the area fails.
abbrev with_area : ZnsFtl
with_area = set_zone new_device 1 (record {
  state = opened_expl;
  zrwav = true;
  zone_capacity = 4194304;
  zslba = 4194304;
  wp = 8388600;
})

with_area-fills : increase_write_ptr with_area 1 8 ≡ none
unfolding increase_write_ptr zone_to_slba zns_init_ftl ssd_init release_opened release_zone_resource
    init_resource
with_area-fills = refl

-- A write of 8 LBAs that skips the first 8 of zone 1.
abbrev skipping : RwCmd
skipping = record { slba = 4194312; length = 7; append = false; fua = false; nsecs_start = 1000 }

abbrev refusal : Status → IoResult
refusal st = record { status = st; nsecs_target = 1000; releases = [] }

zns_write_plain-leaks_example :
    (st : Status) × (ftl' : ZnsFtl) × (st ≢ success)
    × (zns_write_plain (λ k i. 0) 0 new_device skipping ≡ some (done (refusal st) ftl'))
    × ((get_write_buffer ftl' (lba_to_zone new_device 4194312)).remaining
          + lba_to_byte (nr_lbas_from_rw_cmd skipping)
        ≡ (get_write_buffer new_device (lba_to_zone new_device 4194312)).remaining)
unfolding zns_init_ftl ssd_init init_descriptor zslba_at lba_to_zone nr_lbas_from_rw_cmd buffer_init
zns_write_plain-leaks_example =
    zns_write_plain-leaks (λ k i. 0) 0 new_device skipping (omega arith) (omega arith) (omega arith)
      (omega arith) (omega arith)
