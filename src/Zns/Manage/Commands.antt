-- ===== src/Zns/Manage/Commands.antt =====
-- Whole management commands, on one zone and on all zones, keep the accounts.
use xharvest.Base.{
  ◌*◌, ℕ, zero, suc, ◌+◌, ◌/◌, ◌^◌, ◌≤◌, ◌<◌, ◌≡◌, ◌≢◌, Bool, true, false, Option, none, some, refl,
  arith, ◌>>=◌, ap, sym, lt→ltb, ◌∙◌,
}
use mathlib.Core.Path.{subst}
use native.Mathlib.Nat.{mul-div_cancel, mod-eq_of_lt, mul-lt-mul_of_pos_right, mul-le-mul_left}
use xharvest.Zns.{ZnsFtl, Status, success, lba_to_zone, zone_to_slba}
use xharvest.Zns.Manage.{
  Reply, Action, close_action, finish_action, open_action, reset_action, offline_action,
  flush_action, zmgmt_dispatch, zmgmt_send_zone, zmgmt_send_all, zns_zmgmt_send,
}
use xharvest.Zns.Manage.Accounting.{IsAccounted, Keeps}
use xharvest.Zns.Manage.Closing.{
  close_zone-Keeps, finish_zone-Keeps, reset_zone-Keeps, offline_zone-Keeps,
}
use xharvest.Zns.Manage.Opening.{open_zone_cmd-Keeps}
use xharvest.Zns.Manage.Flush.{flush_explicit_zrwa-Keeps}

-- The groups of a random write area are only divided by in an explicit flush.
abbrev pub CanFlush : ZnsFtl → Action → Type 0
CanFlush ftl flush_action = ftl.zp.lbas_per_zrwafg ≢ 0
CanFlush ftl _ = Unit

pub zmgmt_send_zone-Keeps :
    (ftl : ZnsFtl) (slba : ℕ) (action : Action) (option : Bool)
    → IsAccounted ftl
    → lba_to_zone ftl slba < ftl.zp.nr_zones
    → CanFlush ftl action
    → Keeps ftl (zmgmt_send_zone ftl slba action option)
unfolding zmgmt_send_zone zmgmt_dispatch
zmgmt_send_zone-Keeps ftl slba action option a h g = rw (lt→ltb _ _ h) (dispatched action g)
  where
    dispatched :
        (action : Action)
        → CanFlush ftl action
        → Keeps ftl (
            zmgmt_dispatch ftl slba action option
              (lba_to_zone ftl slba)
              (ftl.zone_descs (lba_to_zone ftl slba)).state)
    dispatched close_action g = close_zone-Keeps ftl _ a h _ refl
    dispatched finish_action g = finish_zone-Keeps ftl _ a h _ refl
    dispatched open_action g = open_zone_cmd-Keeps ftl _ a h option _ refl
    dispatched reset_action g = reset_zone-Keeps ftl _ a h _ refl
    dispatched offline_action g = offline_zone-Keeps ftl _ a h _ refl
    dispatched flush_action g = flush_explicit_zrwa-Keeps ftl slba a h g

-- A zone has LBAs, and the addresses of all zones fit the 32 bits in which zone_to_slba computes.
pub record HasZones (ftl : ZnsFtl) : Type 0 where
  pub sized : 0 < ftl.zp.zone_size / ftl.ssd.sp.secsz
  pub few : ftl.zp.nr_zones * (ftl.zp.zone_size / ftl.ssd.sp.secsz) ≤ 2 ^ 32

-- On a device whose LBAs fit 32 bits, the zone of the first LBA of a zone is that zone.
pub lba_to_zone-zone_to_slba :
    (ftl : ZnsFtl) (z : ℕ)
    → HasZones ftl
    → z < ftl.zp.nr_zones
    → lba_to_zone ftl (zone_to_slba ftl z) ≡ z
unfolding lba_to_zone zone_to_slba
lba_to_zone-zone_to_slba ftl z s h =
    let zone_lbas = ftl.zp.zone_size / ftl.ssd.sp.secsz in
    let low : z * zone_lbas < 2 ^ 32 = omega (arith, mul-lt-mul_of_pos_right h s.sized, s.few) in
    let few_zones : z < 2 ^ 32 = omega (arith, low, mul-le-mul_left z s.sized) in
    rw (mod-eq_of_lt low, mul-div_cancel z s.sized, mod-eq_of_lt few_zones) refl

-- The loop keeps the accounts, as a command on one zone does.
abbrev KeepsAll : ZnsFtl → Option ZnsFtl → Type 0
KeepsAll ftl none = ⊥
KeepsAll ftl (some ftl') = IsAccounted ftl' × (ftl'.zp ≡ ftl.zp) × (ftl'.ssd ≡ ftl.ssd)

KeepsAll-trans :
    (a b : ZnsFtl) (r : Option ZnsFtl) → b.zp ≡ a.zp → b.ssd ≡ a.ssd → KeepsAll b r → KeepsAll a r
KeepsAll-trans a b none p q k = k
KeepsAll-trans a b (some c) p q k = (k.0, k.1 ∙ p, k.2 ∙ q)

Keeps-bind :
    (ftl : ZnsFtl) (m : Reply) (f : Status × ZnsFtl → Option ZnsFtl)
    → Keeps ftl m
    → ((s : Status) (ftl' : ZnsFtl) → Keeps ftl (some (s, ftl')) → KeepsAll ftl (f (s, ftl')))
    → KeepsAll ftl (m >>= f)
Keeps-bind ftl none f k c = absurd k
Keeps-bind ftl (some (s, ftl')) f k c = c s ftl' k

HasZones-same : (a b : ZnsFtl) → b.zp ≡ a.zp → b.ssd ≡ a.ssd → HasZones a → HasZones b
HasZones-same a b p q s = record {
  sized =
      subst (λ k. 0 < k)
        (sym (ap (λ zp. zp.zone_size / b.ssd.sp.secsz) p ∙ ap (λ d. a.zp.zone_size / d.sp.secsz) q))
        s.sized;
  few =
      subst (λ k. k ≤ 2 ^ 32)
        (sym (
          ap (λ zp. zp.nr_zones * (zp.zone_size / b.ssd.sp.secsz)) p
          ∙ ap (λ d. a.zp.nr_zones * (a.zp.zone_size / d.sp.secsz)) q))
        s.few;
}

CanFlush-same :
    (a b : ZnsFtl) (action : Action) → b.zp ≡ a.zp → CanFlush a action → CanFlush b action
CanFlush-same a b flush_action p g = λ e. g (sym (ap (λ zp. zp.lbas_per_zrwafg) p) ∙ e)
CanFlush-same a b close_action p g = g
CanFlush-same a b finish_action p g = g
CanFlush-same a b open_action p g = g
CanFlush-same a b reset_action p g = g
CanFlush-same a b offline_action p g = g

zmgmt_send_all-Keeps :
    (n zid : ℕ) (ftl : ZnsFtl) (action : Action) (option : Bool)
    → IsAccounted ftl
    → HasZones ftl
    → zid + n ≤ ftl.zp.nr_zones
    → CanFlush ftl action
    → KeepsAll ftl (zmgmt_send_all n zid ftl action option)
unfolding zmgmt_send_all
zmgmt_send_all-Keeps zero zid ftl action option a s h g = (a, refl, refl)
zmgmt_send_all-Keeps (suc n) zid ftl action option a s h g =
    let at = lba_to_zone-zone_to_slba ftl zid s (omega arith) in
    Keeps-bind ftl (zmgmt_send_zone ftl (zone_to_slba ftl zid) action option)
      (λ x. zmgmt_send_all n (zid + 1) x.1 action option)
      (zmgmt_send_zone-Keeps ftl (zone_to_slba ftl zid) action option a (omega (arith, at)) g)
      λ st ftl' k. KeepsAll-trans ftl ftl' _ k.1 k.2 (
        zmgmt_send_all-Keeps n (zid + 1) ftl' action option k.0 (HasZones-same ftl ftl' k.1 k.2 s)
          (rw k.1 (omega arith)) (CanFlush-same ftl ftl' action k.1 g))

-- On a device with its accounts in order, whose LBAs fit 32 bits, a management command on one of its zones
-- or on all of them replies, with a status: no resource is released that is not held, and after it
-- each counter of the resources is again the number of the zones whose state holds the resource,
-- within its total. An explicit flush needs a nonzero flush group.
pub zns_zmgmt_send-Keeps :
    (ftl : ZnsFtl) (slba : ℕ) (select_all : Bool) (action : Action) (option : Bool)
    → IsAccounted ftl
    → HasZones ftl
    → lba_to_zone ftl slba < ftl.zp.nr_zones
    → CanFlush ftl action
    → Keeps ftl (zns_zmgmt_send ftl slba select_all action option)
unfolding zns_zmgmt_send
zns_zmgmt_send-Keeps ftl slba false action option a s h g =
    zmgmt_send_zone-Keeps ftl slba action option a h g
zns_zmgmt_send-Keeps ftl slba true action option a s h g =
    all_reply (zmgmt_send_all ftl.zp.nr_zones 0 ftl action option)
      (zmgmt_send_all-Keeps ftl.zp.nr_zones 0 ftl action option a s (omega arith) g)
  where
    all_reply :
        (m : Option ZnsFtl) → KeepsAll ftl m → Keeps ftl (m >>= λ ftl'. some (success, ftl'))
    all_reply none k = elim k [ ]
    all_reply (some ftl') k = k
