-- ===== src/Zns/Manage/Closing.antt =====
-- Closing, finishing, resetting a zone and taking it offline keep the accounts.
use xharvest.Base.{ℕ, ◌<◌, ◌≡◌, false, refl, arith, lt→ltb}
use mathlib.Core.Path.{fun_ext}
use xharvest.Zns.{
  ZnsFtl, ZoneState, empty, opened_impl, opened_expl, closed, read_only, full, offline,
  release_zone_resource, change_zone_state,
}
use xharvest.Zns.Manage.{close_zone, finish_zone, clear_zone, reset_zone, offline_zone}
use xharvest.Zns.Manage.Accounting.{IsAccounted, Rebalanced-IsAccounted, Keeps, Releases-bind}
use xharvest.Zns.Manage.Release.{held, release_of-Releases, Released-IsAccounted}

module _ (ftl : ZnsFtl) (zid : ℕ) (a : IsAccounted ftl) (h : zid < ftl.zp.nr_zones) where
  pub close_zone-Keeps :
      (s : ZoneState) → (ftl.zone_descs zid).state ≡ s → Keeps ftl (close_zone ftl zid s)
  unfolding close_zone change_zone_state release_zone_resource
  close_zone-Keeps opened_impl e =
      rw (lt→ltb 0 ftl.res_infos.opened.acquired_cnt (ground (arith, held ftl zid a h))) (
        Rebalanced-IsAccounted ftl _ zid (record (ftl.zone_descs zid) { state = closed }) a
            (ground (arith, held ftl zid a h)),
        refl,
        refl,
      )
  close_zone-Keeps opened_expl e =
      rw (lt→ltb 0 ftl.res_infos.opened.acquired_cnt (ground (arith, held ftl zid a h))) (
        Rebalanced-IsAccounted ftl _ zid (record (ftl.zone_descs zid) { state = closed }) a
            (ground (arith, held ftl zid a h)),
        refl,
        refl,
      )
  close_zone-Keeps closed e = (a, refl, refl)
  close_zone-Keeps empty e = (a, refl, refl)
  close_zone-Keeps _ e = (a, refl, refl)

  pub finish_zone-Keeps :
      (s : ZoneState) → (ftl.zone_descs zid).state ≡ s → Keeps ftl (finish_zone ftl zid s)
  unfolding finish_zone change_zone_state
  finish_zone-Keeps full e = (a, refl, refl)
  finish_zone-Keeps read_only e = (a, refl, refl)
  finish_zone-Keeps offline e = (a, refl, refl)
  finish_zone-Keeps s e = Releases-bind ftl zid _ _ (release_of-Releases ftl zid a h s e) λ ftl' r.
      (
        Released-IsAccounted ftl zid a h ftl' _ (record (ftl'.zone_descs zid) { state = full }) r
            refl refl refl refl cc,
        r.same_zp,
        r.same_ssd,
      )

  pub reset_zone-Keeps :
      (s : ZoneState) → (ftl.zone_descs zid).state ≡ s → Keeps ftl (reset_zone ftl zid s)
  unfolding reset_zone change_zone_state clear_zone
  reset_zone-Keeps read_only e = (a, refl, refl)
  reset_zone-Keeps offline e = (a, refl, refl)
  reset_zone-Keeps s e = Releases-bind ftl zid _ _ (release_of-Releases ftl zid a h s e) λ ftl' r. (
    Released-IsAccounted ftl zid a h ftl' _
        (record (ftl'.zone_descs zid) {
          state = empty;
          wp = (ftl'.zone_descs zid).zslba;
          zrwav = false;
        })
        r (fun_ext λ j. ground arith) refl refl refl (λ _. refl),
    r.same_zp,
    r.same_ssd,
  )

  pub offline_zone-Keeps :
      (s : ZoneState) → (ftl.zone_descs zid).state ≡ s → Keeps ftl (offline_zone ftl zid s)
  unfolding offline_zone change_zone_state
  offline_zone-Keeps read_only e = (
    Rebalanced-IsAccounted ftl _ zid (record (ftl.zone_descs zid) { state = offline }) a
        (ground arith),
    refl,
    refl,
  )
  offline_zone-Keeps offline e = (a, refl, refl)
  offline_zone-Keeps _ e = (a, refl, refl)
