-- ===== src/Zns/Manage/Accounting.antt =====
-- The resource counters count zones: `acquired_cnt` is the number of the zones in the states that
-- hold the resource.
use xharvest.Base.{
  refl, ℕ, ◌+◌, ◌^◌, ◌≤◌, ◌<◌, ◌≡◌, false, Option, none, some, arith, ◌==◌, update, ◌>>=◌,
  Bool-cases, inl, inr,
}
use xharvest.Zns.{ZnsFtl, ZoneDescriptor, empty, ResourceType, active_zone, open_zone, zrwa_zone}
use xharvest.Zns.Manage.{Reply}
use xharvest.Zns.Manage.Count.{holds, count, count-update}

-- The counters of the resources, and no zone that is not active keeps a random write area by mistake:
-- an empty zone has none.
pub record IsAccounted (ftl : ZnsFtl) : Type 0 where
  pub actives : ftl.res_infos.active.acquired_cnt ≡ count active_zone ftl.zp.nr_zones ftl.zone_descs
  pub opens : ftl.res_infos.opened.acquired_cnt ≡ count open_zone ftl.zp.nr_zones ftl.zone_descs
  pub zrwas : ftl.res_infos.zrwa.acquired_cnt ≡ count zrwa_zone ftl.zp.nr_zones ftl.zone_descs
  pub active_cap : ftl.res_infos.active.acquired_cnt ≤ ftl.res_infos.active.total_cnt
  pub open_cap : ftl.res_infos.opened.acquired_cnt ≤ ftl.res_infos.opened.total_cnt
  pub zrwa_cap : ftl.res_infos.zrwa.acquired_cnt ≤ ftl.res_infos.zrwa.total_cnt
  pub active_small : ftl.res_infos.active.total_cnt < 2 ^ 32
  pub open_small : ftl.res_infos.opened.total_cnt < 2 ^ 32
  pub zrwa_small : ftl.res_infos.zrwa.total_cnt < 2 ^ 32
  pub empty_plain : (z : ℕ) → (ftl.zone_descs z).state ≡ empty → (ftl.zone_descs z).zrwav ≡ false

-- A command that only gives zone `zid` the descriptor `d`, and moves each counter by what the zone
-- holds more or less than before, keeps the accounts.
pub record Rebalanced (ftl ftl' : ZnsFtl) (zid : ℕ) (d : ZoneDescriptor) : Type 0 where
  pub inside : zid < ftl.zp.nr_zones
  pub zones : ftl'.zone_descs ≡ update ftl.zone_descs zid d
  pub same_zp : ftl'.zp ≡ ftl.zp
  pub active_moved :
      ftl'.res_infos.active.acquired_cnt + holds active_zone (ftl.zone_descs zid)
      ≡ ftl.res_infos.active.acquired_cnt + holds active_zone d
  pub open_moved :
      ftl'.res_infos.opened.acquired_cnt + holds open_zone (ftl.zone_descs zid)
      ≡ ftl.res_infos.opened.acquired_cnt + holds open_zone d
  pub zrwa_moved :
      ftl'.res_infos.zrwa.acquired_cnt + holds zrwa_zone (ftl.zone_descs zid)
      ≡ ftl.res_infos.zrwa.acquired_cnt + holds zrwa_zone d
  pub active_total : ftl'.res_infos.active.total_cnt ≡ ftl.res_infos.active.total_cnt
  pub open_total : ftl'.res_infos.opened.total_cnt ≡ ftl.res_infos.opened.total_cnt
  pub zrwa_total : ftl'.res_infos.zrwa.total_cnt ≡ ftl.res_infos.zrwa.total_cnt
  pub active_cap : ftl'.res_infos.active.acquired_cnt ≤ ftl.res_infos.active.total_cnt
  pub open_cap : ftl'.res_infos.opened.acquired_cnt ≤ ftl.res_infos.opened.total_cnt
  pub zrwa_cap : ftl'.res_infos.zrwa.acquired_cnt ≤ ftl.res_infos.zrwa.total_cnt
  pub plain : d.state ≡ empty → d.zrwav ≡ false

settle : (a a' h k c c' : ℕ) → a' + h ≡ a + k → c' + h ≡ c + k → a ≡ c → a' ≡ c'
settle a a' h k c c' e f g = omega arith

pub Rebalanced-IsAccounted :
    (ftl ftl' : ZnsFtl) (zid : ℕ) (d : ZoneDescriptor)
    → IsAccounted ftl
    → Rebalanced ftl ftl' zid d
    → IsAccounted ftl'
Rebalanced-IsAccounted ftl ftl' zid d a b = record {
  actives = counted active_zone b.active_moved a.actives;
  opens = counted open_zone b.open_moved a.opens;
  zrwas = counted zrwa_zone b.zrwa_moved a.zrwas;
  active_cap = omega (arith, b.active_total, b.active_cap);
  open_cap = omega (arith, b.open_total, b.open_cap);
  zrwa_cap = omega (arith, b.zrwa_total, b.zrwa_cap);
  active_small = omega (arith, b.active_total, a.active_small);
  open_small = omega (arith, b.open_total, a.open_small);
  zrwa_small = omega (arith, b.zrwa_total, a.zrwa_small);
  empty_plain =
      rw b.zones (λ z. elim (Bool-cases (z == zid)) [
        | inl e ↦ rw e b.plain
        | inr e ↦ rw e (a.empty_plain z)
      ]);
}
  where
    counted :
        (type : ResourceType) {n n' : ℕ}
        → n' + holds type (ftl.zone_descs zid) ≡ n + holds type d
        → n ≡ count type ftl.zp.nr_zones ftl.zone_descs
        → n' ≡ count type ftl'.zp.nr_zones ftl'.zone_descs
    counted type e f =
        rw (b.zones, b.same_zp)
          (settle _ _ _ _ _ _ e (count-update type ftl.zp.nr_zones ftl.zone_descs zid d b.inside) f)

-- A reply that keeps the accounts and the device's parameters.
abbrev pub Keeps : ZnsFtl → Reply → Type 0
Keeps ftl none = ⊥
Keeps ftl (some (status, ftl')) = IsAccounted ftl' × (ftl'.zp ≡ ftl.zp) × (ftl'.ssd ≡ ftl.ssd)

-- `ftl'` is `ftl` after zone `zid` gave back what it holds; its descriptor is still to be changed.
pub record Released (ftl ftl' : ZnsFtl) (zid : ℕ) : Type 0 where
  pub zones : ftl'.zone_descs ≡ ftl.zone_descs
  pub same_zp : ftl'.zp ≡ ftl.zp
  pub same_ssd : ftl'.ssd ≡ ftl.ssd
  pub active_back :
      ftl'.res_infos.active.acquired_cnt + holds active_zone (ftl.zone_descs zid)
      ≡ ftl.res_infos.active.acquired_cnt
  pub open_back :
      ftl'.res_infos.opened.acquired_cnt + holds open_zone (ftl.zone_descs zid)
      ≡ ftl.res_infos.opened.acquired_cnt
  pub zrwa_back :
      ftl'.res_infos.zrwa.acquired_cnt + holds zrwa_zone (ftl.zone_descs zid)
      ≡ ftl.res_infos.zrwa.acquired_cnt
  pub active_total : ftl'.res_infos.active.total_cnt ≡ ftl.res_infos.active.total_cnt
  pub open_total : ftl'.res_infos.opened.total_cnt ≡ ftl.res_infos.opened.total_cnt
  pub zrwa_total : ftl'.res_infos.zrwa.total_cnt ≡ ftl.res_infos.zrwa.total_cnt

abbrev pub Releases : ZnsFtl → ℕ → Option ZnsFtl → Type 0
Releases ftl zid none = ⊥
Releases ftl zid (some ftl') = Released ftl ftl' zid

pub Releases-bind :
    (ftl : ZnsFtl) (zid : ℕ) (m : Option ZnsFtl) (f : ZnsFtl → Reply)
    → Releases ftl zid m
    → ((ftl' : ZnsFtl) → Released ftl ftl' zid → Keeps ftl (f ftl'))
    → Keeps ftl (m >>= f)
Releases-bind ftl zid none f r k = absurd r
Releases-bind ftl zid (some ftl') f r k = k ftl' r

pub Releases-some :
    (ftl : ZnsFtl) (zid : ℕ) (m : Option ZnsFtl)
    → Releases ftl zid m
    → (ftl' : ZnsFtl) × (m ≡ some ftl') × Released ftl ftl' zid
Releases-some ftl zid none r = absurd r
Releases-some ftl zid (some ftl') r = (ftl', refl, r)
