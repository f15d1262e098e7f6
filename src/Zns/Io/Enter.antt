-- ===== src/Zns/Io/Enter.antt =====
-- The switch of a write on the zone's state, and the step of the write pointer.
use xharvest.Base.{
  ℕ, ◌+◌, ◌<◌, ◌≡◌, ◌≢◌, true, false, some, refl, arith, update_self, ltb, ◌==◌, u64, Bool-cases,
  inl, inr, lt→ltb, ap, ◌∙◌, ≢→==, not_==→≢,
}
use xharvest.Zns.{
  move_wp, ZnsFtl, ZoneState, empty, opened_impl, opened_expl, closed, read_only, full, offline,
  Status, success, invalid_write, no_active_zone, no_open_zone, err_full, err_read_only,
  err_offline, acquire_zone_resource, is_zone_resource_full, is_zone_resource_avail,
  change_zone_state, set_zone, zone_to_slba,
}
use xharvest.Zns.Manage.{release_opened, release_of}
use xharvest.Zns.Manage.Count.{holds_open}
use xharvest.Zns.Manage.Accounting.{
  Releases-some, IsAccounted, Rebalanced, Rebalanced-IsAccounted, Released, Releases,
}
use xharvest.Zns.Manage.Release.{move_wp-IsAccounted, move_wp-Releases, Released-IsAccounted}
use xharvest.Zns.Io.{increase_write_ptr, enter_closed, enter_empty, enter_write}

-- After the switch: the accounts are kept, the zone is open or else nothing of the zones has changed.
pub record Entered (ftl : ZnsFtl) (zid : ℕ) (r : Status × ZnsFtl) : Type 0 where
  pub accounts : IsAccounted r.1
  pub same_zp : r.1.zp ≡ ftl.zp
  pub same_ssd : r.1.ssd ≡ ftl.ssd
  pub opened : r.0 ≡ success → holds_open (r.1.zone_descs zid).state ≡ 1
  pub same_wp : (r.1.zone_descs zid).wp ≡ (ftl.zone_descs zid).wp
  pub same_zrwav : (r.1.zone_descs zid).zrwav ≡ (ftl.zone_descs zid).zrwav
  pub same_capacity : (r.1.zone_descs zid).zone_capacity ≡ (ftl.zone_descs zid).zone_capacity
  pub others : (z : ℕ) → z ≢ zid → r.1.zone_descs z ≡ ftl.zone_descs z
  pub refused : r.0 ≢ success → r.1.zone_descs ≡ ftl.zone_descs

module _ (ftl : ZnsFtl) (zid : ℕ) (a : IsAccounted ftl) (h : zid < ftl.zp.nr_zones) where
  pub unchanged : (st : Status) → st ≢ success → Entered ftl zid (st, ftl)
  unchanged st n = record {
    accounts = a;
    same_zp = refl;
    same_ssd = refl;
    opened = λ e. absurd (n e);
    same_wp = refl;
    same_zrwav = refl;
    same_capacity = refl;
    others = λ z _. refl;
    refused = λ _. refl;
  }

  -- The zone is open already, or the FTL `ftl'` differs by what opening it takes.
  stays_open : holds_open (ftl.zone_descs zid).state ≡ 1 → Entered ftl zid (success, ftl)
  stays_open e = record {
    accounts = a;
    same_zp = refl;
    same_ssd = refl;
    opened = λ _. e;
    same_wp = refl;
    same_zrwav = refl;
    same_capacity = refl;
    others = λ z _. refl;
    refused = λ n. absurd (n refl);
  }

  gets_open :
      (ftl' : ZnsFtl)
      → Rebalanced ftl ftl' zid (record (ftl.zone_descs zid) { state = opened_impl })
      → ftl'.ssd ≡ ftl.ssd
      → Entered ftl zid (success, ftl')
  gets_open ftl' r s =
      let d = record (ftl.zone_descs zid) { state = opened_impl } in
      let at : ftl'.zone_descs zid ≡ d =
        ap (λ f. f zid) r.zones ∙ update_self ftl.zone_descs zid d in
      record {
        accounts = Rebalanced-IsAccounted ftl ftl' zid d a r;
        same_zp = r.same_zp;
        same_ssd = s;
        opened = λ _. ap (λ x. holds_open x.state) at;
        same_wp = ap (λ x. x.wp) at;
        same_zrwav = ap (λ x. x.zrwav) at;
        same_capacity = ap (λ x. x.zone_capacity) at;
        others = λ z n. ap (λ f. f z) r.zones ∙ rw (≢→== z zid n) refl;
        refused = λ n. absurd (n refl);
      }

  enter_closed-Entered :
      (ftl.zone_descs zid).state ≡ closed → Entered ftl zid (enter_closed ftl zid)
  unfolding enter_closed acquire_zone_resource is_zone_resource_avail change_zone_state
  enter_closed-Entered e =
      elim (Bool-cases (ltb ftl.res_infos.opened.acquired_cnt ftl.res_infos.opened.total_cnt)) [
        | inr none_left ↦ rw none_left (unchanged no_open_zone (λ n. cc))
        | inl left ↦ rw left (gets_open _ (ground (arith, a.open_small)) refl)
      ]

  enter_empty-Entered :
      (slba : ℕ) → (ftl.zone_descs zid).state ≡ empty → Entered ftl zid (enter_empty ftl zid slba)
  unfolding enter_empty enter_closed acquire_zone_resource is_zone_resource_avail change_zone_state
      is_zone_resource_full
  enter_empty-Entered slba e = elim (Bool-cases (slba == (ftl.zone_descs zid).zslba)) [
    | inr t ↦ rw t (unchanged invalid_write (λ n. cc))
    | inl ts ↦
        elim (Bool-cases (ftl.res_infos.active.acquired_cnt == ftl.res_infos.active.total_cnt)) [
          | inl t ↦ rw (ts, t) (unchanged no_active_zone (λ n. cc))
          | inr ta ↦
              elim (Bool-cases
                (ftl.res_infos.opened.acquired_cnt == ftl.res_infos.opened.total_cnt)) [
                  | inl t ↦ rw (ts, ta, t) (unchanged no_open_zone (λ n. cc))
                  | inr to ↦
                      let left_a =
                        lt→ltb ftl.res_infos.active.acquired_cnt ftl.res_infos.active.total_cnt
                          (ground (arith, a.active_cap)) in
                      let left_o =
                        lt→ltb ftl.res_infos.opened.acquired_cnt ftl.res_infos.opened.total_cnt
                          (ground (arith, a.open_cap)) in
                      rw (ts, ta, to, left_a, left_o)
                        (gets_open _
                          (ground (arith, a.open_small, a.active_small, a.empty_plain zid)) refl)
                ]
        ]
  ]

  pub enter_write-Entered :
      (slba : ℕ) (s : ZoneState)
      → (ftl.zone_descs zid).state ≡ s
      → Entered ftl zid (enter_write ftl zid slba s)
  unfolding enter_write
  enter_write-Entered slba empty e = enter_empty-Entered slba e
  enter_write-Entered slba closed e = enter_closed-Entered e
  enter_write-Entered slba opened_impl e = stays_open (ap holds_open e)
  enter_write-Entered slba opened_expl e = stays_open (ap holds_open e)
  enter_write-Entered slba full e = unchanged err_full (λ n. cc)
  enter_write-Entered slba read_only e = unchanged err_read_only (λ n. cc)
  enter_write-Entered slba offline e = unchanged err_offline (λ n. cc)

-- After the write pointer of a plain open zone moved by `nr_lba`.
pub record Increased (ftl : ZnsFtl) (zid nr_lba : ℕ) (ftl' : ZnsFtl) : Type 0 where
  pub accounts : IsAccounted ftl'
  pub same_zp : ftl'.zp ≡ ftl.zp
  pub same_ssd : ftl'.ssd ≡ ftl.ssd
  pub advanced : (ftl'.zone_descs zid).wp ≡ u64 ((ftl.zone_descs zid).wp + nr_lba)
  pub others : (z : ℕ) → z ≢ zid → ftl'.zone_descs z ≡ ftl.zone_descs z
  pub filled :
      u64 ((ftl.zone_descs zid).wp + nr_lba)
        ≡ u64 (zone_to_slba ftl zid + (ftl.zone_descs zid).zone_capacity)
      → (ftl'.zone_descs zid).state ≡ full

module _ (ftl : ZnsFtl) (zid nr_lba : ℕ) (a : IsAccounted ftl) (h : zid < ftl.zp.nr_zones) where
  moved : ZnsFtl
  moved = move_wp ftl zid (u64 ((ftl.zone_descs zid).wp + nr_lba))

  moved-Releases :
      (s : ZoneState)
      → (ftl.zone_descs zid).state ≡ s
      → (ftl.zone_descs zid).zrwav ≡ false
      → holds_open s ≡ 1
      → Releases moved zid (release_opened moved false)
  unfolding moved release_of
  moved-Releases opened_impl e v o = move_wp-Releases ftl zid _ a h opened_impl false e v
  moved-Releases opened_expl e v o = move_wp-Releases ftl zid _ a h opened_expl false e v
  moved-Releases _ e v o = absurd (omega (arith, o))

  fills :
      (ftl' : ZnsFtl)
      → release_opened moved false ≡ some ftl'
      → Released moved ftl' zid
      → (ftl.zone_descs zid).zrwav ≡ false
      → (u64 ((ftl.zone_descs zid).wp + nr_lba)
          == u64 (zone_to_slba ftl zid + (ftl.zone_descs zid).zone_capacity))
        ≡ true
      → (f : ZnsFtl) × (increase_write_ptr ftl zid nr_lba ≡ some f) × Increased ftl zid nr_lba f
  unfolding increase_write_ptr moved change_zone_state
  fills ftl' e r v last =
      let d = ftl.zone_descs zid in
      let wp = u64 (d.wp + nr_lba) in
      let d' = record (ftl'.zone_descs zid) { state = full } in
      let at = update_self ftl'.zone_descs zid d' in
      (
        set_zone ftl' zid d',
        rw (last, e, v) refl,
        record {
          accounts =
              Released-IsAccounted moved zid (move_wp-IsAccounted ftl zid wp a h) h ftl' _ d' r refl
                refl refl refl cc;
          same_zp = r.same_zp;
          same_ssd = r.same_ssd;
          advanced =
              ap (λ x. x.wp) at
              ∙ ap (λ f. (f zid).wp) r.zones
              ∙ ap (λ x. x.wp) (update_self ftl.zone_descs zid (record d { wp = wp }));
          others = λ z n. rw (≢→== z zid n) (ap (λ f. f z) r.zones ∙ rw (≢→== z zid n) refl);
          filled = λ _. ap (λ x. x.state) at;
        },
      )

  pub increase_write_ptr-Increased :
      (ftl.zone_descs zid).zrwav ≡ false
      → holds_open (ftl.zone_descs zid).state ≡ 1
      → (f : ZnsFtl) × (increase_write_ptr ftl zid nr_lba ≡ some f) × Increased ftl zid nr_lba f
  unfolding increase_write_ptr moved
  increase_write_ptr-Increased v o =
      let d = ftl.zone_descs zid in
      let wp = u64 (d.wp + nr_lba) in
      elim (Bool-cases (wp == u64 (zone_to_slba ftl zid + d.zone_capacity))) [
        | inr more ↦ (
          moved,
          rw more refl,
          record {
            accounts = move_wp-IsAccounted ftl zid wp a h;
            same_zp = refl;
            same_ssd = refl;
            advanced = ap (λ x. x.wp) (update_self ftl.zone_descs zid (record d { wp = wp }));
            others = λ z n. rw (≢→== z zid n) refl;
            filled = λ e. absurd (not_==→≢ _ _ more e);
          },
        )
        | inl last ↦
            let (ftl', e, r) =
              Releases-some moved zid (release_opened moved false) (moved-Releases _ refl v o) in
            fills ftl' e r v last
      ]
