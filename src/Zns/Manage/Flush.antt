-- ===== src/Zns/Manage/Flush.antt =====
-- The explicit flush of a random write area keeps the accounts.
use xharvest.Base.{
  ℕ, ◌+◌, ◌%◌, ◌<◌, ◌≡◌, ◌≢◌, true, none, some, refl, ◌==◌, u64, Bool-cases, inl, inr, ≢→==, ◌∙◌,
}
use xharvest.Zns.{
  move_wp, ZnsFtl, ZoneState, opened_impl, opened_expl, closed, full, success, change_zone_state,
  lba_to_zone, zone_to_slba,
}
use xharvest.Zns.Manage.{
  Reply, release_of, flush_to, flush_state, flush_explicit_zrwa, in_zrwa, nr_lbas_flush,
}
use xharvest.Zns.Manage.Accounting.{IsAccounted, Keeps, Releases-bind}
use xharvest.Zns.Manage.Release.{move_wp-IsAccounted, move_wp-Releases, Released-IsAccounted}

Keeps-trans : (a b : ZnsFtl) (r : Reply) → b.zp ≡ a.zp → b.ssd ≡ a.ssd → Keeps b r → Keeps a r
Keeps-trans a b none p q k = k
Keeps-trans a b (some (st, c)) p q k = (k.0, k.1 ∙ p, k.2 ∙ q)

module _ (ftl : ZnsFtl) (zid slba : ℕ) (a : IsAccounted ftl) (h : zid < ftl.zp.nr_zones) where
  flush_to-Keeps :
      (s : ZoneState)
      → (ftl.zone_descs zid).state ≡ s
      → (ftl.zone_descs zid).zrwav ≡ true
      → Keeps ftl (flush_to ftl zid slba s)
  unfolding flush_to change_zone_state
  flush_to-Keeps s e v =
      elim (Bool-cases
        (u64 (slba + 1) == u64 (zone_to_slba ftl zid + (ftl.zone_descs zid).zone_capacity))) [
          | inr more ↦ rw more (move_wp-IsAccounted ftl zid (u64 (slba + 1)) a h, refl, refl)
          | inl last ↦ rw last (
              let moved = move_wp ftl zid (u64 (slba + 1)) in
              Keeps-trans ftl moved _ refl refl (
                Releases-bind moved zid (release_of moved true s)
                  (λ x. some (success, change_zone_state x zid full))
                  (move_wp-Releases ftl zid (u64 (slba + 1)) a h s true e v)
                  λ ftl' r. (
                    Released-IsAccounted moved zid
                        (move_wp-IsAccounted ftl zid (u64 (slba + 1)) a h) h ftl' _
                        (record (ftl'.zone_descs zid) { state = full }) r refl refl refl refl cc,
                    r.same_zp,
                    r.same_ssd,
                  )))
        ]

  flush_state-Keeps :
      (s : ZoneState)
      → (ftl.zone_descs zid).state ≡ s
      → (ftl.zone_descs zid).zrwav ≡ true
      → Keeps ftl (flush_state ftl zid slba s)
  unfolding flush_state
  flush_state-Keeps opened_expl e v = flush_to-Keeps _ e v
  flush_state-Keeps opened_impl e v = flush_to-Keeps _ e v
  flush_state-Keeps closed e v = flush_to-Keeps _ e v
  flush_state-Keeps _ e v = (a, refl, refl)

pub flush_explicit_zrwa-Keeps :
    (ftl : ZnsFtl) (slba : ℕ)
    → IsAccounted ftl
    → lba_to_zone ftl slba < ftl.zp.nr_zones
    → ftl.zp.lbas_per_zrwafg ≢ 0
    → Keeps ftl (flush_explicit_zrwa ftl slba)
unfolding flush_explicit_zrwa
flush_explicit_zrwa-Keeps ftl slba a h g =
    let zid = lba_to_zone ftl slba in
    elim (Bool-cases (ftl.zone_descs zid).zrwav) [
      | inr plain ↦ rw plain (a, refl, refl)
      | inl area ↦ elim (Bool-cases (in_zrwa ftl zid slba)) [
        | inr out ↦ rw (area, out) (a, refl, refl)
        | inl into ↦ elim (Bool-cases (nr_lbas_flush ftl zid slba % ftl.zp.lbas_per_zrwafg == 0)) [
          | inr part ↦ rw (area, into, ≢→== _ _ g, part) (a, refl, refl)
          | inl whole ↦
              rw (area, into, ≢→== _ _ g, whole) (flush_state-Keeps ftl zid slba a h _ refl area)
        ]
      ]
    ]
