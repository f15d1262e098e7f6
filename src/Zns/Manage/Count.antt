-- ===== src/Zns/Manage/Count.antt =====
-- Counting the zones that hold a resource.
use xharvest.Base.{
  ℕ, zero, suc, ◌+◌, ◌≤◌, ◌<◌, ◌≡◌, Bool, true, false, refl, arith, ◌==◌, update, Bool-cases, inl,
  inr, lt_or_eq, ap,
}
use xharvest.Zns.{
  ZoneDescriptor, ZoneState, opened_impl, opened_expl, closed, ResourceType, active_zone, open_zone,
  zrwa_zone,
}

-- What a zone holds, by its state.
abbrev pub holds_open : ZoneState → ℕ
holds_open opened_impl = 1
holds_open opened_expl = 1
holds_open _ = 0

abbrev pub holds_active : ZoneState → ℕ
holds_active opened_impl = 1
holds_active opened_expl = 1
holds_active closed = 1
holds_active _ = 0

abbrev pub holds_zrwa : Bool → ZoneState → ℕ
holds_zrwa true s = holds_active s
holds_zrwa false s = 0

abbrev pub holds : ResourceType → ZoneDescriptor → ℕ
holds active_zone d = holds_active d.state
holds open_zone d = holds_open d.state
holds zrwa_zone d = holds_zrwa d.zrwav d.state

-- The number of the zones below `n` that hold the resource.
unfoldable pub count : ResourceType → ℕ → (ℕ → ZoneDescriptor) → ℕ
count type zero zones = 0
count type (suc n) zones = count type n zones + holds type (zones n)

count-update_ge :
    (type : ResourceType) (n : ℕ) (zones : ℕ → ZoneDescriptor) (z : ℕ) (d : ZoneDescriptor)
    → n ≤ z
    → count type n (update zones z d) ≡ count type n zones
unfolding count
count-update_ge type zero zones z d h = refl
count-update_ge type (suc n) zones z d h = elim (Bool-cases (n == z)) [
  | inl e ↦ absurd (ground arith)
  | inr e ↦ rw e (omega (arith, count-update_ge type n zones z d))
]

last : (c c' h h' d : ℕ) → c' ≡ c → h ≡ h' → c' + d + h' ≡ c + h + d
last c c' h h' d e f = omega arith

earlier : (c c' h d k : ℕ) → c' + h ≡ c + d → c' + k + h ≡ c + k + d
earlier c c' h d k e = omega arith

pub count-update :
    (type : ResourceType) (n : ℕ) (zones : ℕ → ZoneDescriptor) (z : ℕ) (d : ZoneDescriptor)
    → z < n
    → count type n (update zones z d) + holds type (zones z) ≡ count type n zones + holds type d
unfolding count
count-update type zero zones z d h = absurd (omega arith)
count-update type (suc n) zones z d h = elim (Bool-cases (n == z)) [
  | inl e ↦
      let same : n ≡ z = ground arith in
      rw e (
        last _ _ _ _ _ (count-update_ge type n zones z d (omega arith))
          (ap (λ k. holds type (zones k)) same))
  | inr e ↦ rw e (earlier _ _ _ _ _ (count-update type n zones z d (ground arith)))
]

pub holds-le-count :
    (type : ResourceType) (n : ℕ) (zones : ℕ → ZoneDescriptor) (z : ℕ)
    → z < n
    → holds type (zones z) ≤ count type n zones
unfolding count
holds-le-count type zero zones z h = absurd (omega arith)
holds-le-count type (suc n) zones z h = elim (lt_or_eq z n h) [
  | inl lt ↦ omega (arith, holds-le-count type n zones z lt)
  | inr e ↦ rw e (omega arith)
]
