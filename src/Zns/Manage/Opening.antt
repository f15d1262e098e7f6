-- ===== src/Zns/Manage/Opening.antt =====
-- Opening a zone keeps the accounts.
use xharvest.Base.{ℕ, ◌<◌, ◌≡◌, Bool, true, refl, arith, ltb, ◌==◌, Bool-cases, inl, inr, lt→ltb}
use mathlib.Core.Path.{fun_ext}
use xharvest.Zns.{
  ZnsFtl, ZoneState, empty, opened_impl, opened_expl, closed, is_zone_resource_full,
  is_zone_resource_avail, acquire_zone_resource, change_zone_state,
}
use xharvest.Zns.Manage.{open_closed, open_empty, open_zone_cmd}
use xharvest.Zns.Manage.Accounting.{IsAccounted, Rebalanced-IsAccounted, Keeps}

module _ (ftl : ZnsFtl) (zid : ℕ) (a : IsAccounted ftl) (h : zid < ftl.zp.nr_zones) where
  open_closed-Keeps : (ftl.zone_descs zid).state ≡ closed → Keeps ftl (open_closed ftl zid)
  unfolding open_closed acquire_zone_resource change_zone_state is_zone_resource_avail
  open_closed-Keeps e =
      elim (Bool-cases (ltb ftl.res_infos.opened.acquired_cnt ftl.res_infos.opened.total_cnt)) [
        | inr none_left ↦ rw none_left (a, refl, refl)
        | inl left ↦ rw left (
          Rebalanced-IsAccounted ftl _ zid (record (ftl.zone_descs zid) { state = opened_expl }) a
              (ground (arith, a.open_small)),
          refl,
          refl,
        )
      ]

  open_empty-Keeps :
      (zrwa : Bool) → (ftl.zone_descs zid).state ≡ empty → Keeps ftl (open_empty ftl zid zrwa)
  unfolding open_empty acquire_zone_resource change_zone_state is_zone_resource_avail
      is_zone_resource_full
  open_empty-Keeps zrwa e =
      elim (Bool-cases (ftl.res_infos.active.acquired_cnt == ftl.res_infos.active.total_cnt)) [
        | inl t ↦ rw t (a, refl, refl)
        | inr ta ↦
            elim (Bool-cases
              (ftl.res_infos.opened.acquired_cnt == ftl.res_infos.opened.total_cnt)) [
                | inl t ↦ rw (ta, t) (a, refl, refl)
                | inr to ↦
                    let left_a =
                      lt→ltb ftl.res_infos.active.acquired_cnt ftl.res_infos.active.total_cnt
                        (ground (arith, a.active_cap)) in
                    let left_o =
                      lt→ltb ftl.res_infos.opened.acquired_cnt ftl.res_infos.opened.total_cnt
                        (ground (arith, a.open_cap)) in
                    elim (Bool-cases zrwa) [
                      | inr plain ↦
                          rw (ta, to, plain, left_a, left_o)
                            (
                              Rebalanced-IsAccounted ftl _ zid
                                  (record (ftl.zone_descs zid) { state = opened_expl }) a
                                  (ground (arith, a.open_small, a.active_small, a.empty_plain zid)),
                              refl,
                              refl,
                            )
                      | inl area ↦
                          elim (Bool-cases
                            (ftl.res_infos.zrwa.acquired_cnt == ftl.res_infos.zrwa.total_cnt)) [
                              | inl t ↦ rw (ta, to, area, t) (a, refl, refl)
                              | inr tz ↦
                                  let left_z =
                                    lt→ltb ftl.res_infos.zrwa.acquired_cnt
                                      ftl.res_infos.zrwa.total_cnt (ground (arith, a.zrwa_cap)) in
                                  rw (ta, to, area, tz, left_z, left_a, left_o)
                                    (
                                      Rebalanced-IsAccounted ftl _ zid
                                          (record (ftl.zone_descs zid) {
                                            state = opened_expl;
                                            zrwav = true;
                                          })
                                          a
                                          (record {
                                            inside = h;
                                            zones = fun_ext λ j. ground arith;
                                            same_zp = refl;
                                            active_moved = ground (arith, a.active_small);
                                            open_moved = ground (arith, a.open_small);
                                            zrwa_moved = ground (arith, a.zrwa_small);
                                            active_total = refl;
                                            open_total = refl;
                                            zrwa_total = refl;
                                            active_cap = ground (arith, a.active_small);
                                            open_cap = ground (arith, a.open_small);
                                            zrwa_cap = ground (arith, a.zrwa_small);
                                            plain = λ d. cc;
                                          }),
                                      refl,
                                      refl,
                                    )
                            ]
                    ]
              ]
      ]

  pub open_zone_cmd-Keeps :
      (zrwa : Bool) (s : ZoneState)
      → (ftl.zone_descs zid).state ≡ s
      → Keeps ftl (open_zone_cmd ftl zid zrwa s)
  unfolding open_zone_cmd change_zone_state
  open_zone_cmd-Keeps zrwa empty e = open_empty-Keeps zrwa e
  open_zone_cmd-Keeps zrwa closed e = open_closed-Keeps e
  open_zone_cmd-Keeps zrwa opened_impl e = (
    Rebalanced-IsAccounted ftl _ zid (record (ftl.zone_descs zid) { state = opened_expl }) a
        (ground arith),
    refl,
    refl,
  )
  open_zone_cmd-Keeps zrwa opened_expl e = (a, refl, refl)
  open_zone_cmd-Keeps zrwa _ e = (a, refl, refl)
