-- ===== src/Zns.antt =====
-- NVMevirt/zns_ftl.h and nvme_zns.h: zones, their resources and their addresses.
pub mod Manage
pub mod Io
pub mod Init
mod Tests
use xharvest.Base.{
  ℕ, ◌+◌, ◌-◌, ◌*◌, ◌/◌, ◌%◌, Bool, true, false, Option, none, some, ltb, ◌==◌, if◌then◌else◌, u32,
  u64, update, sub64,
}
use xharvest.Ssd.Nand.{Ssd}
use xharvest.Ssd.Buffer.{Buffer}

pub data ZoneState : Type 0 where
  empty opened_impl opened_expl closed read_only full offline : ZoneState

-- The fields of `struct zone_descriptor` that the code uses; `type` is a constant.
pub record ZoneDescriptor : Type 0 where
  pub state : ZoneState
  pub zrwav : Bool
  pub zone_capacity : ℕ
  pub zslba : ℕ
  pub wp : ℕ

pub record ZnsParams : Type 0 where
  pub nr_zones : ℕ
  pub nr_active_zones : ℕ
  pub nr_open_zones : ℕ
  pub dies_per_zone : ℕ
  pub zone_size : ℕ
  pub zone_wb_size : ℕ
  pub nr_zrwa_zones : ℕ
  pub zrwafg_size : ℕ
  pub zrwa_size : ℕ
  pub zrwa_buffer_size : ℕ
  pub lbas_per_zrwafg : ℕ
  pub lbas_per_zrwa : ℕ

pub data ResourceType : Type 0 where
  active_zone open_zone zrwa_zone : ResourceType

pub record ResourceInfo : Type 0 where
  pub acquired_cnt : ℕ
  pub total_cnt : ℕ

-- The array `res_infos`, one field for each index.
pub record Resources : Type 0 where
  pub active : ResourceInfo
  pub opened : ResourceInfo
  pub zrwa : ResourceInfo

-- `storage` holds the bytes from `storage_base_addr` on.
pub record ZnsFtl : Type 0 where
  pub ssd : Ssd
  pub zp : ZnsParams
  pub res_infos : Resources
  pub zone_descs : ℕ → ZoneDescriptor
  pub zone_write_buffer : ℕ → Buffer
  pub zrwa_buffer : ℕ → Buffer
  pub storage : ℕ → ℕ

-- NVMe status codes.
pub data Status : Type 0 where
  success invalid_field : Status
  invalid_zone_operation zrwa_rsrc_unavail err_boundary err_full err_read_only : Status
  err_offline invalid_write no_active_zone no_open_zone invalid_transition : Status

abbrev pub get_res : Resources → ResourceType → ResourceInfo
get_res r active_zone = r.active
get_res r open_zone = r.opened
get_res r zrwa_zone = r.zrwa

abbrev pub set_res : Resources → ResourceType → ResourceInfo → Resources
set_res r active_zone i = record r { active = i }
set_res r open_zone i = record r { opened = i }
set_res r zrwa_zone i = record r { zrwa = i }

abbrev pub set_acquired : ZnsFtl → ResourceType → ℕ → ZnsFtl
set_acquired ftl type n =
    let info = get_res ftl.res_infos type in
    record ftl { res_infos = set_res ftl.res_infos type (record info { acquired_cnt = n }) }

unfoldable pub is_zone_resource_avail : ZnsFtl → ResourceType → Bool
is_zone_resource_avail ftl type =
    let info = get_res ftl.res_infos type in ltb info.acquired_cnt info.total_cnt

unfoldable pub is_zone_resource_full : ZnsFtl → ResourceType → Bool
is_zone_resource_full ftl type =
    let info = get_res ftl.res_infos type in info.acquired_cnt == info.total_cnt

unfoldable pub acquire_zone_resource : ZnsFtl → ResourceType → Bool × ZnsFtl
unfolding is_zone_resource_avail
acquire_zone_resource ftl type =
    if is_zone_resource_avail ftl type
    then (true, set_acquired ftl type (u32 ((get_res ftl.res_infos type).acquired_cnt + 1)))
    else (false, ftl)

-- `none` is the failed `ASSERT`, which is always compiled in.
unfoldable pub release_zone_resource : ZnsFtl → ResourceType → Option ZnsFtl
release_zone_resource ftl type =
    let n = (get_res ftl.res_infos type).acquired_cnt in
    if ltb 0 n then some (set_acquired ftl type (n - 1)) else none

abbrev pub set_zone : ZnsFtl → ℕ → ZoneDescriptor → ZnsFtl
set_zone ftl zid d = record ftl { zone_descs = update ftl.zone_descs zid d }

-- `zone_descs[zid].wp = wp`
abbrev pub move_wp : ZnsFtl → ℕ → ℕ → ZnsFtl
move_wp ftl zid wp = let d = ftl.zone_descs zid in set_zone ftl zid (record d { wp = wp })

unfoldable pub change_zone_state : ZnsFtl → ℕ → ZoneState → ZnsFtl
change_zone_state ftl zid state =
    let d = ftl.zone_descs zid in set_zone ftl zid (record d { state = state })

-- The products of two 32-bit numbers are 32 bits wide, though the results are 64.
-- The sizes divided here are not 0: the zone size is a constant of at least a sector.
unfoldable pub lba_to_zone : ZnsFtl → ℕ → ℕ
lba_to_zone ftl lba = u32 (lba / (ftl.zp.zone_size / ftl.ssd.sp.secsz))

unfoldable pub zone_to_slba : ZnsFtl → ℕ → ℕ
zone_to_slba ftl zid = u32 (zid * (ftl.zp.zone_size / ftl.ssd.sp.secsz))

unfoldable pub zone_to_elba : ZnsFtl → ℕ → ℕ
unfolding zone_to_slba
zone_to_elba ftl zid = sub64 (zone_to_slba ftl (u32 (zid + 1))) 1

unfoldable pub lpn_to_zone : ZnsFtl → ℕ → ℕ
lpn_to_zone ftl lpn = u32 (lpn / (ftl.zp.zone_size / ftl.ssd.sp.pgsz))

unfoldable pub zone_to_slpn : ZnsFtl → ℕ → ℕ
zone_to_slpn ftl zid = u32 (zid * (ftl.zp.zone_size / ftl.ssd.sp.pgsz))

unfoldable pub lba_to_lpn : ZnsFtl → ℕ → ℕ
lba_to_lpn ftl lba = lba / ftl.ssd.sp.secs_per_pg

unfoldable pub zone_to_elpn : ZnsFtl → ℕ → ℕ
unfolding zone_to_elba
zone_to_elpn ftl zid = zone_to_elba ftl zid / ftl.ssd.sp.secs_per_pg

unfoldable pub die_to_channel : ZnsFtl → ℕ → ℕ
die_to_channel ftl die = die % ftl.ssd.sp.nchs

unfoldable pub die_to_lun : ZnsFtl → ℕ → ℕ
die_to_lun ftl die = die / ftl.ssd.sp.nchs
