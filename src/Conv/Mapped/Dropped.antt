-- ===== src/Conv/Mapped/Dropped.antt =====
-- NVMevirt/conv_ftl.c, conv_write: the old page of an LPN becomes invalid.
use xharvest.Base.{
  ℕ, ◌<◌, ◌≡◌, inl, inr, true, false, some, if◌then◌else◌, refl, sym, ◌∙◌, ap, Bool-cases, some_inj,
  if-eq-some, >>=-eq-some,
}
use mathlib.Core.Path.{subst}
use xharvest.Ssd.Params.{SsdParams}
use xharvest.Ssd.Nand.{Ppa, Ssd, pg_valid, pg_invalid, get_pg, same_pg, invalid_lpn}
use xharvest.Conv.{Maps, mapped_ppa, ppa2pgidx, get_rmap_ent, get_maptbl_ent, set_rmap_ent}
use xharvest.Conv.Index.{IsPage}
use xharvest.Conv.Lines.{mark_page_invalid}
use xharvest.Conv.Lines.Pages.{Repaged, mark_page_invalid-Repaged}
use xharvest.Conv.Ftl.{LineQueue, IsLineQueue, ConvFtl, maps, with_maps, with_lines}
use xharvest.Conv.Io.{drop_old}
use xharvest.Conv.Mapped.{
  IsAt, Holds, IsMapped, NoLpn, NoPage, get_rmap_ent-same_pg, get_rmap_ent-same_sp, IsPage-same_sp,
}
use xharvest.Conv.Mapped.Place.{Owned, set_rmap_ent-Owned}
use xharvest.Conv.Mapped.Steps.{IsSoundBut, IsSound, device-same_sp, ArePointers-same}
use xharvest.Conv.Mapped.Inside.{mark_page_invalid-AreInside}
use xharvest.Conv.Mapped.Within.{IsInside, IsInside-lines}

-- An LPN whose old page, if any, is invalid.
pub record IsDropped {Q : Type 0} (ftl ftl' : ConvFtl Q) (lpn : ℕ) : Type 0 where
  pub sound : IsSoundBut ftl' (λ j. j ≡ lpn) NoPage
  pub gone :
      (q : Ppa) → IsPage ftl'.lm.ssd q → get_pg ftl'.lm.ssd q ≡ pg_valid → ¬ IsAt (maps ftl') lpn q
  pub same_sp : ftl'.lm.ssd.sp ≡ ftl.lm.ssd.sp
  pub same_maptbl : ftl'.maptbl ≡ ftl.maptbl

-- The maps after the page of an LPN has become invalid and has lost its LPN.
dropped-IsMapped :
    (m m1 m' : Maps) (lpn : ℕ)
    → lpn < m.ssd.sp.tt_pgs
    → mapped_ppa (m.maptbl lpn) ≡ true
    → IsMapped m NoLpn NoPage
    → Repaged m.ssd m1.ssd (m.maptbl lpn) pg_invalid
    → m1.maptbl ≡ m.maptbl
    → m1.rmap ≡ m.rmap
    → Owned m1 m' invalid_lpn (m.maptbl lpn)
    → IsMapped m' (λ j. j ≡ lpn) NoPage
dropped-IsMapped m m1 m' lpn range f k r t w o =
    let old = m.maptbl lpn in
    let there = k.held lpn (λ x. x) range f in
    let sp : m'.ssd.sp ≡ m.ssd.sp = ap (λ (d : Ssd). d.sp) o.same_ssd ∙ r.same_sp in
    let table : m'.maptbl ≡ m.maptbl = o.same_maptbl ∙ t in
    let page : (q : Ppa)
        → get_pg m'.ssd q ≡ (if same_pg old q then pg_invalid else get_pg m.ssd q) =
      λ q. ap (λ (d : Ssd). get_pg d q) o.same_ssd ∙ r.pages q in
    let owner : (q : Ppa)
        → IsPage m.ssd q
        → same_pg old q ≡ false
        → get_rmap_ent m' q ≡ get_rmap_ent m q =
      λ q h e.
        o.owners q (IsPage-same_sp m.ssd m1.ssd q r.same_sp h)
        ∙ rw e (get_rmap_ent-same_sp m m1 q r.same_sp w) in
    record {
      held = λ j e h g.
          let was =
            k.held j (λ x. x) (subst (λ (s : SsdParams). j < s.tt_pgs) sp h)
              (subst (λ (z : ℕ → Ppa). mapped_ppa (z j) ≡ true) table g) in
          let q = m.maptbl j in
          let apart : same_pg old q ≡ false = elim (Bool-cases (same_pg old q)) [
            | inr z ↦ z
            | inl z ↦
                absurd (e (some_inj (sym was.owner ∙ get_rmap_ent-same_pg m old q z ∙ there.owner)))
          ] in
          subst (λ p. Holds m' p j) (ap (λ (z : ℕ → Ppa). z j) (sym table))
            (record {
              page = IsPage-same_sp m.ssd m'.ssd q sp was.page;
              valid = page q ∙ rw apart was.valid;
              owner = owner q was.page apart ∙ was.owner;
            });
      current = λ q h v.
          let back = IsPage-same_sp m'.ssd m.ssd q (sym sp) h in
          elim (Bool-cases (same_pg old q)) [
            | inl z ↦ let bad : pg_invalid ≡ pg_valid = sym (page q ∙ rw z refl) ∙ v in absurd (cc)
            | inr z ↦ elim (k.current q back (sym (page q ∙ rw z refl) ∙ v)) [
              | inl x ↦ inl x
              | inr (j, a, own) ↦ inr (
                j,
                record {
                  in_range = subst (λ (s : SsdParams). j < s.tt_pgs) (sym sp) a.in_range;
                  mapped = subst (λ (x : ℕ → Ppa). mapped_ppa (x j) ≡ true) (sym table) a.mapped;
                  same = subst (λ (x : ℕ → Ppa). same_pg (x j) q ≡ true) (sym table) a.same;
                },
                owner q back z ∙ own,
              )
            ]
          ];
      moved_used = λ q h x. absurd x;
      moved_unmapped = λ q h x. absurd x;
    }

pub drop_old-IsDropped :
    {Q : Type 0} (ops : LineQueue Q) (ftl ftl' : ConvFtl Q) (lpn : ℕ)
    → lpn < ftl.lm.ssd.sp.tt_pgs
    → IsSound ftl
    → drop_old ops ftl lpn ≡ some ftl'
    → IsDropped ftl ftl' lpn
unfolding drop_old get_maptbl_ent
drop_old-IsDropped ops ftl ftl' lpn range s h =
    let k = s.maps_right in
    let old = ftl.maptbl lpn in
    elim (if-eq-some (mapped_ppa old) _ (some ftl) h) [
      | inr (e, q) ↦
          subst (λ x. IsDropped ftl x lpn) (some_inj q)
            (record {
              sound = record {
                device = s.device;
                maps_right = record {
                  held = λ j n. k.held j (λ x. x);
                  current = k.current;
                  moved_used = k.moved_used;
                  moved_unmapped = k.moved_unmapped;
                };
                pointers = s.pointers;
              };
              gone = λ p i v a. let w = a.mapped in let z : false ≡ true = sym e ∙ w in cc;
              same_sp = refl;
              same_maptbl = refl;
            })
      | inl (e, h1) ↦
          let (lm, e1, h2) = >>=-eq-some (mark_page_invalid ops.victims ftl.lm old) _ h1 in
          let marked = with_lines ftl lm in
          let (m', e2, h3) = >>=-eq-some (set_rmap_ent (maps marked) invalid_lpn old) _ h2 in
          let (valid, r) = mark_page_invalid-Repaged ftl.lm lm old ops.victims e1 in
          let there = k.held lpn (λ x. x) range e in
          let d = device-same_sp ftl.lm.ssd lm.ssd r.same_sp s.device in
          let o =
            set_rmap_ent-Owned (maps marked) m' invalid_lpn old d
              (IsPage-same_sp ftl.lm.ssd lm.ssd old r.same_sp there.page) e2 in
          let whole = dropped-IsMapped (maps ftl) (maps marked) m' lpn range e k r refl refl o in
          let done = with_maps marked m' in
          let same : m'.ssd ≡ lm.ssd = o.same_ssd in
          let right : IsMapped (maps done) (λ j. j ≡ lpn) NoPage =
            subst (λ (x : Ssd). IsMapped (record m' { ssd = x }) (λ j. j ≡ lpn) NoPage) same
              whole in
          subst (λ x. IsDropped ftl x lpn) (some_inj h3)
            (record {
              sound = record {
                device = d;
                maps_right = right;
                pointers = ArePointers-same ftl done r.same_sp refl refl s.pointers;
              };
              gone = λ q i v a.
                  let on : same_pg old q ≡ true =
                    subst (λ (z : ℕ → Ppa). same_pg (z lpn) q ≡ true) o.same_maptbl a.same in
                  let bad : pg_invalid ≡ pg_valid = sym (r.pages q ∙ rw on refl) ∙ v in absurd (cc);
              same_sp = r.same_sp;
              same_maptbl = o.same_maptbl;
            })
    ]

module _ {Q : Type 0} {ops : LineQueue Q} (k : IsLineQueue ops) where
  pub drop_old-IsInside :
      (ftl ftl' : ConvFtl Q) (lpn : ℕ)
      → lpn < ftl.lm.ssd.sp.tt_pgs
      → IsSound ftl
      → drop_old ops ftl lpn ≡ some ftl'
      → IsInside k ftl.lm.ssd.sp.blks_per_pl ftl
      → IsInside k ftl.lm.ssd.sp.blks_per_pl ftl'
  unfolding drop_old get_maptbl_ent set_rmap_ent
  drop_old-IsInside ftl ftl' lpn range s h i =
      let blks = ftl.lm.ssd.sp.blks_per_pl in
      let right = s.maps_right in
      let old = ftl.maptbl lpn in
      elim (if-eq-some (mapped_ppa old) _ (some ftl) h) [
        | inr (e, q) ↦ subst (IsInside k blks) (some_inj q) i
        | inl (e, h1) ↦
            let (lm, e1, h2) = >>=-eq-some (mark_page_invalid ops.victims ftl.lm old) _ h1 in
            let marked = with_lines ftl lm in
            let (m', e2, h3) = >>=-eq-some (set_rmap_ent (maps marked) invalid_lpn old) _ h2 in
            let (valid, r) = mark_page_invalid-Repaged ftl.lm lm old ops.victims e1 in
            let there = right.held lpn (λ x. x) range e in
            let page = there.page in
            let lines = mark_page_invalid-AreInside k blks ftl.lm lm old page.blk_in e1 i.lines in
            let here = IsInside-lines k blks ftl marked r.same_sp lines refl refl i in
            let same : m'.ssd ≡ lm.ssd =
              let (n, a, b) = >>=-eq-some (ppa2pgidx (maps marked) old) _ e2 in
              ap (λ x. x.ssd) (sym (some_inj b)) in
            subst (IsInside k blks) (some_inj h3)
              (IsInside-lines k blks marked (with_maps marked m') refl here.lines refl refl here)
      ]
