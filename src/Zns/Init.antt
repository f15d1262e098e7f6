-- ===== src/Zns/Init.antt =====
-- NVMevirt/zns_ftl.c: what a new zoned device starts with.
use xharvest.Base.{
  ℕ, zero, suc, ◌+◌, ◌*◌, ◌/◌, ◌%◌, ◌^◌, ◌<◌, ◌≡◌, false, Option, none, some, refl, arith, ◌==◌,
  if◌then◌else◌, u32, u64, ◌||◌, not, sym,
}
use native.Mathlib.Nat.{suc-mul}
use xharvest.Ssd.Params.{SsdParams}
use xharvest.Ssd.Buffer.{buffer_init}
use xharvest.Ssd.Nand.{Ssd}
use xharvest.Zns.{
  ZnsParams, ZnsFtl, ZoneDescriptor, empty, ResourceInfo, Resources, ResourceType, active_zone,
  open_zone, zrwa_zone, zone_to_slba,
}
use xharvest.Zns.Manage.Count.{count}
use xharvest.Zns.Manage.Accounting.{IsAccounted}

-- The constants of `ssd_config.h` that zns_ftl.c uses.
pub record ZnsConfig : Type 0 where
  pub zone_size : ℕ
  pub dies_per_zone : ℕ
  pub max_zrwa_zones : ℕ
  pub zone_wb_size : ℕ
  pub zrwa_size : ℕ
  pub zrwafg_size : ℕ
  pub zrwa_buffer_size : ℕ

-- `none` is a failed assertion or a division by 0.
unfoldable pub zns_init_params : ZnsConfig → SsdParams → ℕ → Option ZnsParams
zns_init_params c spp capacity =
    if c.zone_size == 0 || spp.secsz == 0 || spp.pgsz == 0
    then none
    else if not (capacity % u32 c.zone_size == 0) || not (u32 c.zone_size % spp.pgsz == 0)
    then none
    else some (record {
      zone_size = u32 c.zone_size;
      nr_zones = u32 (capacity / c.zone_size);
      dies_per_zone = u32 c.dies_per_zone;
      nr_active_zones = u32 (capacity / c.zone_size);
      nr_open_zones = u32 (capacity / c.zone_size);
      nr_zrwa_zones = u32 c.max_zrwa_zones;
      zone_wb_size = u32 c.zone_wb_size;
      zrwa_size = u32 c.zrwa_size;
      zrwafg_size = u32 c.zrwafg_size;
      zrwa_buffer_size = u32 c.zrwa_buffer_size;
      lbas_per_zrwa = u32 (c.zrwa_size / spp.secsz);
      lbas_per_zrwafg = u32 (c.zrwafg_size / spp.secsz);
    })

-- `zslba` after `i` rounds of the loop.
unfoldable pub zslba_at : ℕ → ℕ → ℕ
zslba_at zone_size zero = 0
zslba_at zone_size (suc i) = u64 (zslba_at zone_size i + zone_size / 512)

-- The arrays of `__init_descriptor`.
unfoldable pub init_descriptor : ZnsParams → ℕ → ZoneDescriptor
init_descriptor zp i = record {
  state = empty;
  zrwav = false;
  zone_capacity = zp.zone_size / 512;
  zslba = zslba_at zp.zone_size i;
  wp = zslba_at zp.zone_size i;
}

unfoldable pub init_resource : ZnsParams → Resources
init_resource zp =
    let all : ResourceInfo = record { acquired_cnt = 0; total_cnt = zp.nr_zones } in
    record { active = all; opened = all; zrwa = all }

unfoldable pub zns_init_ftl : ZnsParams → Ssd → (ℕ → ℕ) → ZnsFtl
zns_init_ftl zp ssd storage = record {
  ssd = ssd;
  zp = zp;
  res_infos = init_resource zp;
  zone_descs = init_descriptor zp;
  zone_write_buffer = λ i. buffer_init zp.zone_wb_size;
  zrwa_buffer = λ i. buffer_init zp.zrwa_buffer_size;
  storage = storage;
}

count-empty : (zp : ZnsParams) (type : ResourceType) (n : ℕ) → count type n (init_descriptor zp) ≡ 0
unfolding count init_descriptor
count-empty zp type zero = refl
count-empty zp active_zone (suc n) = omega (arith, count-empty zp active_zone n)
count-empty zp open_zone (suc n) = omega (arith, count-empty zp open_zone n)
count-empty zp zrwa_zone (suc n) = omega (arith, count-empty zp zrwa_zone n)

-- A new device has its accounts in order: no zone holds a resource and no counter counts one.
pub zns_init_ftl-IsAccounted :
    (zp : ZnsParams) (ssd : Ssd) (storage : ℕ → ℕ)
    → zp.nr_zones < 2 ^ 32
    → IsAccounted (zns_init_ftl zp ssd storage)
unfolding zns_init_ftl init_resource init_descriptor
zns_init_ftl-IsAccounted zp ssd storage h = record {
  actives = sym (count-empty zp active_zone zp.nr_zones);
  opens = sym (count-empty zp open_zone zp.nr_zones);
  zrwas = sym (count-empty zp zrwa_zone zp.nr_zones);
  active_cap = omega arith;
  open_cap = omega arith;
  zrwa_cap = omega arith;
  active_small = h;
  open_small = h;
  zrwa_small = h;
  empty_plain = λ z e. refl;
}

zslba_at_lem :
    (zone_size i : ℕ)
    → i * (zone_size / 512) < 2 ^ 64
    → zslba_at zone_size i ≡ i * (zone_size / 512)
unfolding zslba_at
zslba_at_lem zone_size zero h = omega arith
zslba_at_lem zone_size (suc i) h =
    let m = suc-mul i (zone_size / 512) in
    let before = zslba_at_lem zone_size i (omega (arith, h, m)) in omega (arith, before, m, h)

-- On a new device with 512-byte sectors, whose LBAs fit 32 bits, each zone's descriptor starts, and its
-- write pointer stands, where zone_to_slba says that the zone begins.
pub zns_init_ftl-zone_to_slba :
    (zp : ZnsParams) (ssd : Ssd) (storage : ℕ → ℕ) (z : ℕ)
    → ssd.sp.secsz ≡ 512
    → z * (zp.zone_size / 512) < 2 ^ 32
    → let ftl = zns_init_ftl zp ssd storage in
      ((ftl.zone_descs z).zslba ≡ zone_to_slba ftl z) × ((ftl.zone_descs z).wp ≡ zone_to_slba ftl z)
unfolding zns_init_ftl init_descriptor zone_to_slba
zns_init_ftl-zone_to_slba zp ssd storage z s h =
    let e = zslba_at_lem zp.zone_size z (omega (arith, h)) in
    rw s (omega (arith, e, h), omega (arith, e, h))
