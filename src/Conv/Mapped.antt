-- ===== src/Conv/Mapped.antt =====
-- NVMevirt/conv_ftl.c: the invariant of the two maps and the page states.
pub mod Place
pub mod Pointers
pub mod Steps
pub mod Collect
pub mod Flash
pub mod Erased
pub mod Sets
pub mod Rows
pub mod Line
pub mod Loops
pub mod Inside
pub mod Within
pub mod Staying
pub mod Dropped
pub mod Write
pub mod Namespace
pub mod Unchanged
pub mod Serving
pub mod Init
pub mod Tests
use xharvest.Base.{
  ℕ, ◌+◌, ◌^◌, ◌≤◌, ◌<◌, ◌≡◌, ◌≢◌, ◌⊎◌, inl, inr, Bool, true, false, Option, none, some, ltb, ◌==◌,
  if◌then◌else◌, ◌&&◌, refl, arith, sym, ◌∙◌, ap, Bool-cases, some_inj, update,
}
use mathlib.Core.Path.{subst}
use xharvest.Ssd.Params.{SsdParams}
use xharvest.Ssd.Params.Layout.{IsLayout}
use xharvest.Ssd.Nand.{
  Ppa, PageStatus, pg_free, pg_valid, Ssd, get_pg, get_blk, get_pl, get_lun, get_ch, same_blk,
  same_pg,
}
use xharvest.Conv.{Maps, mapped_ppa, get_rmap_ent, ppa2pgidx}
use xharvest.Conv.Index.{IsPage}
use xharvest.Conv.Pointer.{FitsInt}

-- A geometry whose addresses fit their bit fields.
pub record IsDevice (sp : SsdParams) : Type 0 where
  pub capacity : ℕ
  pub layout : IsLayout capacity sp
  pub pages_fit : sp.tt_pgs < 2 ^ 64
  pub pg_fits : sp.pgs_per_blk ≤ 2 ^ 16
  pub blk_fits : sp.blks_per_pl ≤ 2 ^ 16
  pub lun_fits : sp.luns_per_ch ≤ 2 ^ 8
  pub ch_fits : sp.nchs ≤ 2 ^ 8
  pub has_plane : 0 < sp.pls_per_lun

-- Page `p` holds LPN `j`: it is valid, and the reverse map says so.
pub record Holds (m : Maps) (p : Ppa) (j : ℕ) : Type 0 where
  pub page : IsPage m.ssd p
  pub valid : get_pg m.ssd p ≡ pg_valid
  pub owner : get_rmap_ent m p ≡ some j

-- LPN `j` is mapped to the page.
pub record IsAt (m : Maps) (j : ℕ) (q : Ppa) : Type 0 where
  pub in_range : j < m.ssd.sp.tt_pgs
  pub mapped : mapped_ppa (m.maptbl j) ≡ true
  pub same : same_pg (m.maptbl j) q ≡ true

-- Every mapped LPN but those of `E` is held by its page. Every valid page is the one to which the LPN
-- of the reverse map is mapped, but for the pages of `M`: no LPN is mapped to these, and they are not
-- free.
pub record IsMapped (m : Maps) (E : ℕ → Type 0) (M : Ppa → Type 0) : Type 0 where
  pub held :
      (j : ℕ)
      → ¬ E j
      → j < m.ssd.sp.tt_pgs
      → mapped_ppa (m.maptbl j) ≡ true
      → Holds m (m.maptbl j) j
  pub current :
      (q : Ppa)
      → IsPage m.ssd q
      → get_pg m.ssd q ≡ pg_valid
      → M q ⊎ ((j : ℕ) × IsAt m j q × (get_rmap_ent m q ≡ some j))
  pub moved_used : (q : Ppa) → IsPage m.ssd q → M q → get_pg m.ssd q ≢ pg_free
  pub moved_unmapped : (q : Ppa) → IsPage m.ssd q → M q → (j : ℕ) → ¬ IsAt m j q

abbrev pub NoLpn : ℕ → Type 0
NoLpn j = ⊥

abbrev pub NoPage : Ppa → Type 0
NoPage p = ⊥

pub same_pg_refl : (p : Ppa) → same_pg p p ≡ true
same_pg_refl p = ground arith

pub same_pg_sym : (p q : Ppa) → same_pg p q ≡ true → same_pg q p ≡ true
same_pg_sym p q e = ground arith

pub same_pg_trans : (p q r : Ppa) → same_pg p q ≡ true → same_pg q r ≡ true → same_pg p r ≡ true
same_pg_trans p q r e f = ground arith

pub get_pg-same_pg : (ssd : Ssd) (p q : Ppa) → same_pg p q ≡ true → get_pg ssd q ≡ get_pg ssd p
unfolding get_pg get_blk get_pl get_lun get_ch
get_pg-same_pg ssd p q e = ground arith

pub get_rmap_ent-same_pg :
    (m : Maps) (p q : Ppa) → same_pg p q ≡ true → get_rmap_ent m q ≡ get_rmap_ent m p
unfolding get_rmap_ent ppa2pgidx
get_rmap_ent-same_pg m p q e = ground arith

-- Only the parameters and the reverse map matter.
pub get_rmap_ent-same_sp :
    (m m' : Maps) (p : Ppa)
    → m'.ssd.sp ≡ m.ssd.sp
    → m'.rmap ≡ m.rmap
    → get_rmap_ent m' p ≡ get_rmap_ent m p
unfolding get_rmap_ent ppa2pgidx
get_rmap_ent-same_sp m m' p e f =
    let s = m.ssd in
    ap (λ (sp : SsdParams). get_rmap_ent (record m' { ssd = record s { sp = sp } }) p) e
    ∙ ap (λ (r : ℕ → ℕ). get_rmap_ent (record m { rmap = r }) p) f

pub IsPage-same_sp : (a b : Ssd) (p : Ppa) → b.sp ≡ a.sp → IsPage a p → IsPage b p
IsPage-same_sp a b p e h = record {
  ch_in = subst (λ (sp : SsdParams). p.ch < sp.nchs) (sym e) h.ch_in;
  lun_in = subst (λ (sp : SsdParams). p.lun < sp.luns_per_ch) (sym e) h.lun_in;
  pl_in = subst (λ (sp : SsdParams). p.pl < sp.pls_per_lun) (sym e) h.pl_in;
  blk_in = subst (λ (sp : SsdParams). p.blk < sp.blks_per_pl) (sym e) h.blk_in;
  pg_in = subst (λ (sp : SsdParams). p.pg < sp.pgs_per_blk) (sym e) h.pg_in;
}

pub FitsInt-IsDevice : (ssd : Ssd) → IsDevice ssd.sp → FitsInt ssd
FitsInt-IsDevice ssd d = record {
  blk_fits = omega (arith, d.pg_fits);
  ch_fits = omega (arith, d.ch_fits);
  lun_fits = omega (arith, d.lun_fits);
}

-- The same maps and the same pages, in another state of the SSD.
pub record SameMaps (m m' : Maps) : Type 0 where
  pub same_sp : m'.ssd.sp ≡ m.ssd.sp
  pub same_pages : (q : Ppa) → get_pg m'.ssd q ≡ get_pg m.ssd q
  pub same_maptbl : m'.maptbl ≡ m.maptbl
  pub same_rmap : m'.rmap ≡ m.rmap

pub IsAt-back : (m m' : Maps) (j : ℕ) (q : Ppa) → SameMaps m m' → IsAt m' j q → IsAt m j q
IsAt-back m m' j q s a = record {
  in_range = subst (λ (sp : SsdParams). j < sp.tt_pgs) s.same_sp a.in_range;
  mapped = subst (λ (f : ℕ → Ppa). mapped_ppa (f j) ≡ true) s.same_maptbl a.mapped;
  same = subst (λ (f : ℕ → Ppa). same_pg (f j) q ≡ true) s.same_maptbl a.same;
}

pub SameMaps-sym : (m m' : Maps) → SameMaps m m' → SameMaps m' m
SameMaps-sym m m' s = record {
  same_sp = sym s.same_sp;
  same_pages = λ q. sym (s.same_pages q);
  same_maptbl = sym s.same_maptbl;
  same_rmap = sym s.same_rmap;
}

pub IsMapped-SameMaps :
    (m m' : Maps) (E : ℕ → Type 0) (M : Ppa → Type 0)
    → SameMaps m m'
    → IsMapped m E M
    → IsMapped m' E M
IsMapped-SameMaps m m' E M s k =
    let back = λ (q : Ppa) (h : IsPage m'.ssd q). IsPage-same_sp m'.ssd m.ssd q (sym s.same_sp) h in
    let owner = λ (q : Ppa). get_rmap_ent-same_sp m m' q s.same_sp s.same_rmap in
    record {
      held = λ j e h f.
          let was =
            k.held j e (subst (λ (sp : SsdParams). j < sp.tt_pgs) s.same_sp h)
              (subst (λ (t : ℕ → Ppa). mapped_ppa (t j) ≡ true) s.same_maptbl f) in
          subst (λ p. Holds m' p j) (ap (λ (t : ℕ → Ppa). t j) (sym s.same_maptbl))
            (record {
              page = IsPage-same_sp m.ssd m'.ssd (m.maptbl j) s.same_sp was.page;
              valid = s.same_pages (m.maptbl j) ∙ was.valid;
              owner = owner (m.maptbl j) ∙ was.owner;
            });
      current = λ q h v. elim (k.current q (back q h) (sym (s.same_pages q) ∙ v)) [
        | inl x ↦ inl x
        | inr (j, a, o) ↦ inr (j, IsAt-back m' m j q (SameMaps-sym m m' s) a, owner q ∙ o)
      ];
      moved_used = λ q h x z. k.moved_used q (back q h) x (sym (s.same_pages q) ∙ z);
      moved_unmapped = λ q h x j a. k.moved_unmapped q (back q h) x j (IsAt-back m m' j q s a);
    }
