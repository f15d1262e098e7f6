-- ===== src/Conv/Mapped/Place.antt =====
-- NVMevirt/conv_ftl.c: an LPN goes to a free page, in both maps.
use xharvest.Base.{
  ℕ, ◌<◌, ◌≡◌, ◌≢◌, inl, inr, true, false, none, some, ltb, ◌==◌, if◌then◌else◌, refl, sym, ◌∙◌, ap,
  Bool-cases, some_inj, update, update_self, if-eq-some, none≢some, >>=-eq-some, ==→≡, not_==→≢,
  ≢→==,
}
use mathlib.Core.Path.{subst}
use xharvest.Ssd.Params.{SsdParams}
use xharvest.Ssd.Nand.{Ppa, PageStatus, pg_free, pg_valid, Ssd, get_pg, same_pg}
use xharvest.Conv.{Maps, mapped_ppa, get_rmap_ent, set_maptbl_ent, set_rmap_ent, ppa2pgidx}
use xharvest.Conv.Index.{IsPage, get_rmap_ent-set_rmap_ent}
use xharvest.Conv.Lines.Pages.{Repaged}
use xharvest.Conv.Mapped.{
  IsDevice, Holds, IsAt, IsMapped, NoLpn, same_pg_refl, get_pg-same_pg, get_rmap_ent-same_sp,
  IsPage-same_sp,
}

-- What the writes into both maps and the mark leave.
pub record Placed (m m' : Maps) (lpn : ℕ) (new : Ppa) : Type 0 where
  pub same_sp : m'.ssd.sp ≡ m.ssd.sp
  pub new_page : IsPage m.ssd new
  pub new_mapped : mapped_ppa new ≡ true
  pub was_free : get_pg m.ssd new ≡ pg_free
  pub now : m'.maptbl lpn ≡ new
  pub others : (j : ℕ) → j ≢ lpn → m'.maptbl j ≡ m.maptbl j
  pub pages : (q : Ppa) → get_pg m'.ssd q ≡ (if same_pg new q then pg_valid else get_pg m.ssd q)
  pub owners :
      (q : Ppa)
      → IsPage m.ssd q
      → get_rmap_ent m' q ≡ (if same_pg new q then some lpn else get_rmap_ent m q)

valid≢free : (st : PageStatus) → st ≡ pg_valid → st ≢ pg_free
valid≢free st v f = cc

module _ (m m' : Maps) (lpn : ℕ) (new : Ppa) (pl : Placed m m' lpn new) where
  -- A page that was not free is another page.
  used_apart : (q : Ppa) → get_pg m.ssd q ≢ pg_free → same_pg new q ≡ false
  used_apart q u = elim (Bool-cases (same_pg new q)) [
    | inl e ↦ absurd (u (get_pg-same_pg m.ssd new q e ∙ pl.was_free))
    | inr e ↦ e
  ]

  back_page : (q : Ppa) → IsPage m'.ssd q → IsPage m.ssd q
  back_page q h = IsPage-same_sp m'.ssd m.ssd q (sym pl.same_sp) h

  back_range : (j : ℕ) → j < m'.ssd.sp.tt_pgs → j < m.ssd.sp.tt_pgs
  back_range j h = subst (λ (sp : SsdParams). j < sp.tt_pgs) pl.same_sp h

  forth_range : (j : ℕ) → j < m.ssd.sp.tt_pgs → j < m'.ssd.sp.tt_pgs
  forth_range j h = subst (λ (sp : SsdParams). j < sp.tt_pgs) (sym pl.same_sp) h

  new_Holds : Holds m' new lpn
  new_Holds = record {
    page = IsPage-same_sp m.ssd m'.ssd new pl.same_sp pl.new_page;
    valid = pl.pages new ∙ rw (same_pg_refl new) refl;
    owner = pl.owners new pl.new_page ∙ rw (same_pg_refl new) refl;
  }

  -- What another page held it holds.
  old_Holds : (p : Ppa) (j : ℕ) → Holds m p j → Holds m' p j
  old_Holds p j h =
      let apart = used_apart p (valid≢free _ h.valid) in
      record {
        page = IsPage-same_sp m.ssd m'.ssd p pl.same_sp h.page;
        valid = pl.pages p ∙ rw apart h.valid;
        owner = pl.owners p h.page ∙ rw apart h.owner;
      }

  -- Where an LPN was at another page it still is, unless it is the one that was placed.
  stays-IsAt : (j : ℕ) (q : Ppa) → j ≢ lpn → IsAt m j q → IsAt m' j q
  stays-IsAt j q n a = record {
    in_range = forth_range j a.in_range;
    mapped = ap mapped_ppa (pl.others j n) ∙ a.mapped;
    same = ap (λ p. same_pg p q) (pl.others j n) ∙ a.same;
  }

  was-IsAt : (j : ℕ) (q : Ppa) → j ≢ lpn → IsAt m' j q → IsAt m j q
  was-IsAt j q n a = record {
    in_range = back_range j a.in_range;
    mapped = ap mapped_ppa (sym (pl.others j n)) ∙ a.mapped;
    same = ap (λ p. same_pg p q) (sym (pl.others j n)) ∙ a.same;
  }

  new-IsAt : (q : Ppa) → lpn < m.ssd.sp.tt_pgs → same_pg new q ≡ true → IsAt m' lpn q
  new-IsAt q h e = record {
    in_range = forth_range lpn h;
    mapped = ap mapped_ppa pl.now ∙ pl.new_mapped;
    same = ap (λ p. same_pg p q) pl.now ∙ e;
  }

  -- The pages of `M'` may be those that the LPN leaves.
  pub Placed-IsMapped :
      (M M' : Ppa → Type 0)
      → lpn < m.ssd.sp.tt_pgs
      → IsMapped m (λ j. j ≡ lpn) M
      → ((q : Ppa) → M q → M' q)
      → ((q : Ppa) → IsPage m.ssd q → get_pg m.ssd q ≡ pg_valid → IsAt m lpn q → M' q)
      → ((q : Ppa) → IsPage m.ssd q → M' q → get_pg m.ssd q ≢ pg_free)
      → ((q : Ppa) → IsPage m.ssd q → M' q → (j : ℕ) → j ≢ lpn → ¬ IsAt m j q)
      → IsMapped m' NoLpn M'
  Placed-IsMapped M M' range k grow left used unmapped = record {
    held = λ j e h f. elim (Bool-cases (j == lpn)) [
      | inl i ↦
          subst (λ x. Holds m' (m'.maptbl x) x) (sym (==→≡ j lpn i))
            (subst (λ p. Holds m' p lpn) (sym pl.now) new_Holds)
      | inr i ↦
          let n = not_==→≢ j lpn i in
          let same = pl.others j n in
          subst (λ p. Holds m' p j) (sym same)
            (old_Holds (m.maptbl j) j (k.held j n (back_range j h) (ap mapped_ppa (sym same) ∙ f)))
    ];
    current = λ q h v.
        let back = back_page q h in
        elim (Bool-cases (same_pg new q)) [
          | inl e ↦ inr (lpn, new-IsAt q range e, pl.owners q back ∙ rw e refl)
          | inr e ↦
              let was : get_pg m.ssd q ≡ pg_valid = sym (pl.pages q ∙ rw e refl) ∙ v in
              elim (k.current q back was) [
                | inl x ↦ inl (grow q x)
                | inr (j, a, o) ↦ elim (Bool-cases (j == lpn)) [
                  | inl i ↦ inl (left q back was (subst (λ x. IsAt m x q) (==→≡ j lpn i) a))
                  | inr i ↦ inr (j, stays-IsAt j q (not_==→≢ j lpn i) a, pl.owners q back ∙ rw e o)
                ]
              ]
        ];
    moved_used = λ q h x z.
        let back = back_page q h in
        let apart = used_apart q (used q back x) in
        used q back x (sym (pl.pages q ∙ rw apart refl) ∙ z);
    moved_unmapped = λ q h x j a.
        let back = back_page q h in
        elim (Bool-cases (j == lpn)) [
          | inl i ↦
              let at_lpn = subst (λ y. IsAt m' y q) (==→≡ j lpn i) a in
              let on_new = ap (λ p. same_pg p q) (sym pl.now) ∙ at_lpn.same in
              absurd (used q back x (get_pg-same_pg m.ssd new q on_new ∙ pl.was_free))
          | inr i ↦ let n = not_==→≢ j lpn i in unmapped q back x j n (was-IsAt j q n a)
        ];
  }

-- A write into the reverse map changes it alone, there.
pub record Owned (m m' : Maps) (lpn : ℕ) (p : Ppa) : Type 0 where
  pub same_ssd : m'.ssd ≡ m.ssd
  pub same_maptbl : m'.maptbl ≡ m.maptbl
  pub owners :
      (q : Ppa)
      → IsPage m.ssd q
      → get_rmap_ent m' q ≡ (if same_pg p q then some lpn else get_rmap_ent m q)

pub set_rmap_ent-Owned :
    (m m' : Maps) (lpn : ℕ) (p : Ppa)
    → IsDevice m.ssd.sp
    → IsPage m.ssd p
    → set_rmap_ent m lpn p ≡ some m'
    → Owned m m' lpn p
unfolding set_rmap_ent
set_rmap_ent-Owned m m' lpn p d h e =
    let (n, a, b) = >>=-eq-some (ppa2pgidx m p) _ e in
    let same = sym (some_inj b) in
    record {
      same_ssd = ap (λ x. x.ssd) same;
      same_maptbl = ap (λ x. x.maptbl) same;
      owners = λ q k.
          let (f, s, g) = get_rmap_ent-set_rmap_ent m d.layout d.pages_fit lpn p q h k in
          ap (λ x. get_rmap_ent x q) (some_inj (sym e ∙ s)) ∙ g;
    }

-- The code's writes into both maps, with a mark.
pub set_both-Placed :
    (m m1 m2 : Maps) (ssd : Ssd) (lpn : ℕ) (new : Ppa)
    → IsDevice m.ssd.sp
    → IsPage m.ssd new
    → mapped_ppa new ≡ true
    → set_maptbl_ent m lpn new ≡ some m1
    → set_rmap_ent m1 lpn new ≡ some m2
    → get_pg m.ssd new ≡ pg_free
    → Repaged m.ssd ssd new pg_valid
    → Placed m (record m2 { ssd = ssd }) lpn new
unfolding set_maptbl_ent
set_both-Placed m m1 m2 ssd lpn new d h f e1 e2 free r =
    let m' : Maps = record m { maptbl = update m.maptbl lpn new } in
    elim (if-eq-some (ltb lpn m.ssd.sp.tt_pgs) (some m') none e1) [
      | inr (b, q) ↦ absurd (none≢some q)
      | inl (b, q) ↦
          let o =
            set_rmap_ent-Owned m' m2 lpn new d h
              (ap (λ x. set_rmap_ent x lpn new) (some_inj q) ∙ e2) in
          record {
            same_sp = r.same_sp;
            new_page = h;
            new_mapped = f;
            was_free = free;
            now = ap (λ (t : ℕ → Ppa). t lpn) o.same_maptbl ∙ update_self m.maptbl lpn new;
            others = λ j n. ap (λ (t : ℕ → Ppa). t j) o.same_maptbl ∙ rw (≢→== j lpn n) refl;
            pages = λ q. r.pages q;
            owners = λ q k.
                get_rmap_ent-same_sp m2 (record m2 { ssd = ssd }) q
                  (r.same_sp ∙ ap (λ x. x.sp) (sym o.same_ssd)) refl
                ∙ o.owners q k
                ∙ ap (λ x. if same_pg new q then some lpn else x)
                    (get_rmap_ent-same_sp m m' q refl refl);
          }
    ]
