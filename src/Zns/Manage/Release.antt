-- ===== src/Zns/Manage/Release.antt =====
-- A zone that stops being active gives back what it holds.
use xharvest.Base.{
  ap, ◌∙◌, update_self, ℕ, ◌≤◌, ◌<◌, ◌≡◌, Bool, true, false, refl, arith, update, lt→ltb,
}
use mathlib.Core.Path.{subst}
use xharvest.Zns.{
  move_wp, ZnsFtl, ZoneDescriptor, ZoneState, empty, opened_impl, opened_expl, closed, active_zone,
  open_zone, zrwa_zone, release_zone_resource,
}
use xharvest.Zns.Manage.{release_active, release_opened, release_of}
use xharvest.Zns.Manage.Count.{holds, holds_active, holds-le-count}
use xharvest.Zns.Manage.Accounting.{IsAccounted, Rebalanced-IsAccounted, Released, Releases}

holds_nothing :
    (d : ZoneDescriptor)
    → holds_active d.state ≡ 0
    → (holds active_zone d ≡ 0) × (holds open_zone d ≡ 0) × (holds zrwa_zone d ≡ 0)
holds_nothing d n = ground arith

module _ (ftl : ZnsFtl) (zid : ℕ) (a : IsAccounted ftl) (h : zid < ftl.zp.nr_zones) where
  -- What the zone holds is in the counters.
  pub held :
      (holds active_zone (ftl.zone_descs zid) ≤ ftl.res_infos.active.acquired_cnt)
      × (holds open_zone (ftl.zone_descs zid) ≤ ftl.res_infos.opened.acquired_cnt)
      × (holds zrwa_zone (ftl.zone_descs zid) ≤ ftl.res_infos.zrwa.acquired_cnt)
  held = omega (
    arith,
    a.actives,
    a.opens,
    a.zrwas,
    holds-le-count active_zone ftl.zp.nr_zones ftl.zone_descs zid h,
    holds-le-count open_zone ftl.zp.nr_zones ftl.zone_descs zid h,
    holds-le-count zrwa_zone ftl.zp.nr_zones ftl.zone_descs zid h,
  )

  release_active-Releases :
      (zrwav : Bool)
      → (ftl.zone_descs zid).zrwav ≡ zrwav
      → (ftl.zone_descs zid).state ≡ closed
      → Releases ftl zid (release_active ftl zrwav)
  unfolding release_active release_zone_resource
  release_active-Releases true v e =
      rw
        (
          lt→ltb 0 ftl.res_infos.active.acquired_cnt (ground (arith, held)),
          lt→ltb 0 ftl.res_infos.zrwa.acquired_cnt (ground (arith, held)),
        )
        (ground (arith, held))
  release_active-Releases false v e =
      rw (lt→ltb 0 ftl.res_infos.active.acquired_cnt (ground (arith, held))) (ground (arith, held))

  release_opened-Releases :
      (zrwav : Bool)
      → (ftl.zone_descs zid).zrwav ≡ zrwav
      → holds open_zone (ftl.zone_descs zid) ≡ 1
      → Releases ftl zid (release_opened ftl zrwav)
  unfolding release_opened release_zone_resource
  release_opened-Releases true v e =
      rw
        (
          lt→ltb 0 ftl.res_infos.opened.acquired_cnt (ground (arith, held)),
          lt→ltb 0 ftl.res_infos.active.acquired_cnt (ground (arith, held)),
          lt→ltb 0 ftl.res_infos.zrwa.acquired_cnt (ground (arith, held)),
        )
        (ground (arith, held))
  release_opened-Releases false v e =
      rw
        (
          lt→ltb 0 ftl.res_infos.opened.acquired_cnt (ground (arith, held)),
          lt→ltb 0 ftl.res_infos.active.acquired_cnt (ground (arith, held)),
        )
        (ground (arith, held))

  pub release_of-Releases :
      (s : ZoneState)
      → (ftl.zone_descs zid).state ≡ s
      → Releases ftl zid (release_of ftl (ftl.zone_descs zid).zrwav s)
  unfolding release_of
  release_of-Releases opened_impl e = release_opened-Releases _ refl (rw e refl)
  release_of-Releases opened_expl e = release_opened-Releases _ refl (rw e refl)
  release_of-Releases closed e = release_active-Releases _ refl e
  release_of-Releases empty e = ground arith
  release_of-Releases _ e = ground arith

  -- A zone that gave back all takes a descriptor that holds nothing.
  pub Released-IsAccounted :
      (ftl' ftl'' : ZnsFtl) (d : ZoneDescriptor)
      → Released ftl ftl' zid
      → ftl''.zone_descs ≡ update ftl'.zone_descs zid d
      → ftl''.zp ≡ ftl'.zp
      → ftl''.res_infos ≡ ftl'.res_infos
      → holds_active d.state ≡ 0
      → (d.state ≡ empty → d.zrwav ≡ false)
      → IsAccounted ftl''
  Released-IsAccounted ftl' ftl'' d r z p i n q =
      Rebalanced-IsAccounted ftl ftl'' zid d a
        (ground (arith, n, q, a.active_cap, a.open_cap, a.zrwa_cap, holds_nothing d n))

-- A moved write pointer does not change what a zone holds.
module _ (ftl : ZnsFtl) (zid wp : ℕ) (a : IsAccounted ftl) (h : zid < ftl.zp.nr_zones) where
  pub move_wp-IsAccounted : IsAccounted (move_wp ftl zid wp)
  move_wp-IsAccounted =
      Rebalanced-IsAccounted ftl _ zid (record (ftl.zone_descs zid) { wp = wp }) a
        (ground (arith, a.active_cap, a.open_cap, a.zrwa_cap, a.empty_plain zid))

  pub move_wp-Releases :
      (s : ZoneState) (b : Bool)
      → (ftl.zone_descs zid).state ≡ s
      → (ftl.zone_descs zid).zrwav ≡ b
      → Releases (move_wp ftl zid wp) zid (release_of (move_wp ftl zid wp) b s)
  move_wp-Releases s b e v =
      let at = update_self ftl.zone_descs zid (record (ftl.zone_descs zid) { wp = wp }) in
      subst (λ c. Releases (move_wp ftl zid wp) zid (release_of (move_wp ftl zid wp) c s))
        (ap (λ x. x.zrwav) at ∙ v)
        (release_of-Releases (move_wp ftl zid wp) zid move_wp-IsAccounted h s
          (ap (λ x. x.state) at ∙ e))
