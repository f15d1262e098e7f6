-- ===== src/Conv/Mapped/Within.antt =====
-- NVMevirt/conv_ftl.c: pointers and victims stay on lines of the device.
use xharvest.Base.{
  ℕ, ◌<◌, ◌≡◌, inl, inr, Option, none, some, ltb, ◌==◌, ◌&&◌, refl, arith, sym, ◌∙◌, ap, some_inj,
  if-eq-some, none≢some, >>=-eq-some,
}
use mathlib.Core.Path.{subst}
use xharvest.Ssd.Params.{SsdParams}
use xharvest.Ssd.Nand.{Ppa}
use xharvest.Ssd.Timing.{NandCmd, ssd_advance_nand}
use xharvest.Ssd.Timing.Pages.{ssd_advance_nand-SamePages}
use xharvest.Conv.{
  WritePointer, Advance, next_page, line_used, get_new_page, set_maptbl_ent, set_rmap_ent,
  advance_in_line,
}
use xharvest.Conv.Lines.{mark_page_valid, get_next_free_line}
use xharvest.Conv.Lines.Pages.{mark_page_valid-Repaged}
use xharvest.Conv.Ftl.{
  LineQueue, IsLineQueue, IoType, user_io, gc_io, LinePointer, ConvFtl, maps, with_maps, with_lines,
  get_wp, set_wp, retire_line, next_line, advance_write_pointer, place_page, advance_nand,
}
use xharvest.Conv.Mapped.Pointers.{retire_line-ssd, get_next_free_line-ssd}
use xharvest.Conv.Mapped.Inside.{
  AreInside, AreInside-same, mark_page_valid-AreInside, retire_line-AreInside,
  get_next_free_line-AreInside,
}

module _ {Q : Type 0} {ops : LineQueue Q} (k : IsLineQueue ops) (blks : ℕ) where
  pub record IsInside (ftl : ConvFtl Q) : Type 0 where
    pub geometry : (let lm = ftl.lm in lm.ssd.sp.blks_per_pl) ≡ blks
    pub lines : AreInside k blks ftl.lm
    pub user : (let p = ftl.wp in p.curline) < blks
    pub gc : (let p = ftl.gc_wp in p.curline) < blks

  -- The lines move, and the pointers stay.
  pub IsInside-lines :
      (a b : ConvFtl Q)
      → b.lm.ssd.sp ≡ a.lm.ssd.sp
      → AreInside k blks b.lm
      → b.wp ≡ a.wp
      → b.gc_wp ≡ a.gc_wp
      → IsInside a
      → IsInside b
  IsInside-lines a b e l u g i = record {
    geometry = ap (λ (sp : SsdParams). sp.blks_per_pl) e ∙ i.geometry;
    lines = l;
    user = subst (λ (p : LinePointer). p.curline < blks) (sym u) i.user;
    gc = subst (λ (p : LinePointer). p.curline < blks) (sym g) i.gc;
  }

  set_wp-IsInside :
      (ftl : ConvFtl Q) (io_type : IoType) (p : LinePointer)
      → p.curline < blks
      → IsInside ftl
      → IsInside (set_wp ftl io_type p)
  unfolding set_wp
  set_wp-IsInside ftl user_io p h i = record {
    geometry = i.geometry;
    lines = i.lines;
    user = h;
    gc = i.gc;
  }
  set_wp-IsInside ftl gc_io p h i = record {
    geometry = i.geometry;
    lines = i.lines;
    user = i.user;
    gc = h;
  }

  get_wp-inside :
      (ftl : ConvFtl Q) (io_type : IoType) → IsInside ftl → (get_wp ftl io_type).curline < blks
  unfolding get_wp
  get_wp-inside ftl user_io i = i.user
  get_wp-inside ftl gc_io i = i.gc

  next_line-IsInside :
      (io_type : IoType) (ftl ftl' : ConvFtl Q) (wpp : WritePointer)
      → next_line ops io_type ftl wpp ≡ some ftl'
      → IsInside ftl
      → IsInside ftl'
  unfolding next_line
  next_line-IsInside io_type ftl ftl' wpp h i =
      let n = ftl.lm.ssd.sp.blks_per_pl in
      let cur = (get_wp ftl io_type).curline in
      let (retired, e1, h1) = >>=-eq-some (retire_line ops ftl.lm cur) _ h in
      let ((j, lm), e2, h2) = >>=-eq-some (get_next_free_line retired) _ h1 in
      let blk = (lm.lines j).id in
      let next : LinePointer = record { curline = j; at = record wpp { blk = blk } } in
      let moved = set_wp (with_lines ftl lm) io_type next in
      let l1 =
        retire_line-AreInside k blks ftl.lm retired cur (get_wp-inside ftl io_type i) e1 i.lines in
      let l2 = get_next_free_line-AreInside k blks retired lm j e2 l1 in
      let same = get_next_free_line-ssd retired lm j e2 ∙ retire_line-ssd ops ftl.lm retired _ e1 in
      elim (if-eq-some (ltb wpp.blk n && ltb blk n && wpp.pl == 0) (some moved) none h2) [
        | inr (b, q) ↦ absurd (none≢some q)
        | inl (b, q) ↦
            let inside : blk < n = ground arith in
            subst IsInside (some_inj q) (
              set_wp-IsInside (with_lines ftl lm) io_type next
                (omega (arith, inside, l2.ids j, i.geometry))
                (IsInside-lines ftl (with_lines ftl lm) (ap (λ d. d.sp) same) l2 refl refl i))
      ]

  advance_write_pointer-IsInside :
      (io_type : IoType) (ftl ftl' : ConvFtl Q)
      → advance_write_pointer ops io_type ftl ≡ some ftl'
      → IsInside ftl
      → IsInside ftl'
  unfolding advance_write_pointer
  advance_write_pointer-IsInside io_type ftl ftl' h i =
      let wpp = get_wp ftl io_type in
      let (r, e, h1) = >>=-eq-some (advance_in_line ftl.lm.ssd wpp.at) _ h in after r h1
    where
      after :
          (r : Advance)
          → elim r as (λ x. Option (ConvFtl Q)) [
            | next_page at ↦
                (let wpp = get_wp ftl io_type in some (set_wp ftl io_type (record wpp { at = at })))
            | line_used at ↦ next_line ops io_type ftl at
          ]
            ≡ some ftl'
          → IsInside ftl'
      after (next_page at) h2 =
          let wpp = get_wp ftl io_type in
          subst IsInside (some_inj h2)
            (set_wp-IsInside ftl io_type (record wpp { at = at }) (get_wp-inside ftl io_type i) i)
      after (line_used at) h2 = next_line-IsInside io_type ftl ftl' at h2 i

  pub place_page-IsInside :
      (io_type : IoType) (ftl ftl' : ConvFtl Q) (lpn : ℕ) (new : Ppa)
      → place_page ops io_type ftl lpn ≡ some (new, ftl')
      → IsInside ftl
      → IsInside ftl'
  unfolding place_page
  place_page-IsInside io_type ftl ftl' lpn new h i =
      let (p, e1, h1) = >>=-eq-some (get_new_page (get_wp ftl io_type).at) _ h in
      let (m1, e2, h2) = >>=-eq-some (set_maptbl_ent (maps ftl) lpn p) _ h1 in
      let (m2, e3, h3) = >>=-eq-some (set_rmap_ent m1 lpn p) _ h2 in
      let (lm, e4, h4) = >>=-eq-some (mark_page_valid ftl.lm p) _ h3 in
      let marked = with_lines (with_maps ftl m2) lm in
      let (f, e5, h5) = >>=-eq-some (advance_write_pointer ops io_type marked) _ h4 in
      let (free, r) = mark_page_valid-Repaged ftl.lm lm p e4 in
      let inside =
        IsInside-lines ftl marked r.same_sp
          (mark_page_valid-AreInside k blks ftl.lm lm p e4 i.lines) refl refl i in
      subst (λ (x : Ppa × ConvFtl Q). IsInside x.1) (some_inj h5)
        (advance_write_pointer-IsInside io_type marked f e5 inside)

  pub advance_nand-IsInside :
      (clock : ℕ → ℕ → ℕ) (ftl ftl' : ConvFtl Q) (cmd : NandCmd) (t : ℕ)
      → advance_nand clock ftl cmd ≡ some (t, ftl')
      → IsInside ftl
      → IsInside ftl'
  unfolding advance_nand
  advance_nand-IsInside clock ftl ftl' cmd t h i =
      let lm = ftl.lm in
      let ((t', ssd), e, f) =
        >>=-eq-some (ssd_advance_nand (clock ftl.nand_calls) lm.ssd cmd) _ h in
      let s = ssd_advance_nand-SamePages _ lm.ssd ssd cmd _ e in
      subst (λ (x : ℕ × ConvFtl Q). IsInside x.1) (some_inj f)
        (IsInside-lines ftl _ s.same_sp
          (AreInside-same k blks lm (record lm { ssd = ssd }) refl (λ j. refl) i.lines) refl refl i)
