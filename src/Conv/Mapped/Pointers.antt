-- ===== src/Conv/Mapped/Pointers.antt =====
-- NVMevirt/conv_ftl.c: the write pointers stay on pages of the device.
use xharvest.Base.{
  ℕ, ◌+◌, ◌*◌, ◌%◌, ◌^◌, ◌<◌, ◌≡◌, inl, inr, true, Option, none, some, ltb, ◌==◌, ◌&&◌, ◌||◌, not,
  refl, arith, sym, ◌∙◌, ap, Bool-cases, some_inj, if-eq-some, none≢some, >>=-eq-some, u32, sub32,
}
use mathlib.Core.Path.{subst}
use xharvest.Ssd.Params.{SsdParams}
use xharvest.Ssd.Nand.{Ppa, Ssd, ppa_word}
use xharvest.Conv.{
  WritePointer, Advance, next_page, line_used, advance_in_line, next_ch, next_lun, next_wordline,
  get_new_page, mapped_ppa,
}
use xharvest.Conv.Index.{IsPage}
use xharvest.Conv.Pointer.{Stands, Stepped, on, used, advance_in_line-Stepped, row_fits}
use xharvest.Conv.Lines.{LineState, get_next_free_line}
use xharvest.Conv.Lines.Pages.{asserted, excluded}
use xharvest.Conv.Ftl.{
  LineQueue, IoType, user_io, gc_io, LinePointer, ConvFtl, get_wp, set_wp, retire_line, next_line,
  advance_write_pointer, with_lines,
}
use xharvest.Conv.Mapped.{IsDevice, FitsInt-IsDevice}

pub record IsPointer (ssd : Ssd) (wpp : WritePointer) : Type 0 where
  pub w : ℕ
  pub off : ℕ
  pub stands : Stands ssd wpp w off
  pub plane : wpp.pl ≡ 0
  pub blk_in : wpp.blk < ssd.sp.blks_per_pl

pub IsPointer-same_sp :
    (a b : Ssd) (wpp : WritePointer) → b.sp ≡ a.sp → IsPointer a wpp → IsPointer b wpp
IsPointer-same_sp a b wpp e p =
    let s = p.stands in
    record {
      w = p.w;
      off = p.off;
      stands = record {
        at = s.at ∙ ap (λ (sp : SsdParams). p.w * sp.pgs_per_oneshotpg + p.off) (sym e);
        off_in = subst (λ (sp : SsdParams). p.off < sp.pgs_per_oneshotpg) (sym e) s.off_in;
        wordline_in = subst (λ (sp : SsdParams). p.w < sp.oneshotpgs_per_blk) (sym e) s.wordline_in;
        ch_in = subst (λ (sp : SsdParams). wpp.ch < sp.nchs) (sym e) s.ch_in;
        lun_in = subst (λ (sp : SsdParams). wpp.lun < sp.luns_per_ch) (sym e) s.lun_in;
      };
      plane = p.plane;
      blk_in = subst (λ (sp : SsdParams). wpp.blk < sp.blks_per_pl) (sym e) p.blk_in;
    }

-- Where a step goes.
abbrev at_of : Advance → WritePointer
at_of (next_page wpp) = wpp
at_of (line_used wpp) = wpp

next_wordline-Keeps :
    (ssd : Ssd) (wpp : WritePointer)
    → ((at_of (next_wordline ssd wpp)).blk ≡ wpp.blk)
      × ((at_of (next_wordline ssd wpp)).pl ≡ wpp.pl)
unfolding next_wordline
next_wordline-Keeps ssd wpp =
    elim (Bool-cases (u32 (wpp.pg + ssd.sp.pgs_per_oneshotpg) == ssd.sp.pgs_per_blk)) [
      | inl e ↦ rw e (refl, refl)
      | inr e ↦ rw e (refl, refl)
    ]

abbrev Keeps : WritePointer → Advance → Type 0
Keeps wpp r = ((at_of r).blk ≡ wpp.blk) × ((at_of r).pl ≡ wpp.pl)

next_lun-Keeps :
    (ssd : Ssd) (wpp : WritePointer) (r : Advance) → next_lun ssd wpp ≡ some r → Keeps wpp r
unfolding next_lun
next_lun-Keeps ssd wpp r h =
    let (a, h1) = asserted (ltb wpp.lun ssd.sp.luns_per_ch) _ h in
    elim (if-eq-some (u32 (wpp.lun + 1) == ssd.sp.luns_per_ch) (some (next_wordline ssd wpp)) _
      h1) [
        | inl (e, q) ↦ subst (Keeps wpp) (some_inj q) (next_wordline-Keeps ssd wpp)
        | inr (e, q) ↦ subst (Keeps wpp) (some_inj q) (refl, refl)
      ]

next_ch-Keeps :
    (ssd : Ssd) (wpp : WritePointer) (r : Advance) → next_ch ssd wpp ≡ some r → Keeps wpp r
unfolding next_ch
next_ch-Keeps ssd wpp r h =
    let (a, h1) = asserted (ltb wpp.ch ssd.sp.nchs) _ h in
    elim (if-eq-some (u32 (wpp.ch + 1) == ssd.sp.nchs) (next_lun ssd wpp) _ h1) [
      | inl (e, q) ↦ next_lun-Keeps ssd wpp r q
      | inr (e, q) ↦ subst (Keeps wpp) (some_inj q) (refl, refl)
    ]

-- A step stays in the same block and plane.
advance_in_line-Keeps :
    (ssd : Ssd) (wpp : WritePointer) (r : Advance) → advance_in_line ssd wpp ≡ some r → Keeps wpp r
unfolding advance_in_line
advance_in_line-Keeps ssd wpp r h =
    let p = ssd.sp.pgs_per_oneshotpg in
    let (a, h1) = excluded (not (ltb wpp.pg ssd.sp.pgs_per_blk) || p == 0) _ h in
    let back : WritePointer = record wpp { pg = sub32 (u32 (wpp.pg + 1)) p } in
    elim (if-eq-some (not (u32 (wpp.pg + 1) % p == 0)) _ (next_ch ssd back) h1) [
      | inl (e, q) ↦ subst (Keeps wpp) (some_inj q) (refl, refl)
      | inr (e, q) ↦ next_ch-Keeps ssd back r q
    ]

pub retire_line-ssd :
    {Q : Type 0} (ops : LineQueue Q) (lm lm' : LineState Q) (i : ℕ)
    → retire_line ops lm i ≡ some lm'
    → lm'.ssd ≡ lm.ssd
unfolding retire_line
retire_line-ssd ops lm lm' i h = ground arith

pub get_next_free_line-ssd :
    {Q : Type 0} (lm lm' : LineState Q) (i : ℕ)
    → get_next_free_line lm ≡ some (i, lm')
    → lm'.ssd ≡ lm.ssd
unfolding get_next_free_line
get_next_free_line-ssd lm lm' i h = ground arith

pub record ArePointers {Q : Type 0} (ftl : ConvFtl Q) : Type 0 where
  pub user : IsPointer ftl.lm.ssd ftl.wp.at
  pub gc : IsPointer ftl.lm.ssd ftl.gc_wp.at

pub get_wp-IsPointer :
    {Q : Type 0} (ftl : ConvFtl Q) (io_type : IoType)
    → ArePointers ftl
    → IsPointer ftl.lm.ssd (get_wp ftl io_type).at
unfolding get_wp
get_wp-IsPointer ftl user_io a = a.user
get_wp-IsPointer ftl gc_io a = a.gc

-- Lines and pointers may move; the SSD and the maps stay.
pub record LinesMoved {Q : Type 0} (ftl ftl' : ConvFtl Q) : Type 0 where
  pub same_ssd : ftl'.lm.ssd ≡ ftl.lm.ssd
  pub same_maptbl : ftl'.maptbl ≡ ftl.maptbl
  pub same_rmap : ftl'.rmap ≡ ftl.rmap
  pub pointers : ArePointers ftl'

set_wp-LinesMoved :
    {Q : Type 0} (ftl : ConvFtl Q) (lm : LineState Q) (io_type : IoType) (p : LinePointer)
    → lm.ssd ≡ ftl.lm.ssd
    → ArePointers ftl
    → IsPointer ftl.lm.ssd p.at
    → LinesMoved ftl (set_wp (with_lines ftl lm) io_type p)
unfolding set_wp
set_wp-LinesMoved ftl lm user_io p e a h = record {
  same_ssd = e;
  same_maptbl = refl;
  same_rmap = refl;
  pointers = record {
    user = subst (λ s. IsPointer s p.at) (sym e) h;
    gc = subst (λ s. IsPointer s ftl.gc_wp.at) (sym e) a.gc;
  };
}
set_wp-LinesMoved ftl lm gc_io p e a h = record {
  same_ssd = e;
  same_maptbl = refl;
  same_rmap = refl;
  pointers = record {
    user = subst (λ s. IsPointer s ftl.wp.at) (sym e) a.user;
    gc = subst (λ s. IsPointer s p.at) (sym e) h;
  };
}

next_line-LinesMoved :
    {Q : Type 0} (ops : LineQueue Q) (io_type : IoType) (ftl ftl' : ConvFtl Q) (wpp : WritePointer)
    → ArePointers ftl
    → ((blk : ℕ)
        → blk < ftl.lm.ssd.sp.blks_per_pl
        → IsPointer ftl.lm.ssd (record wpp { blk = blk }))
    → next_line ops io_type ftl wpp ≡ some ftl'
    → LinesMoved ftl ftl'
unfolding next_line
next_line-LinesMoved ops io_type ftl ftl' wpp a start h =
    let blks = ftl.lm.ssd.sp.blks_per_pl in
    let (retired, e1, h1) = >>=-eq-some (retire_line ops ftl.lm (get_wp ftl io_type).curline) _ h in
    let ((i, lm), e2, h2) = >>=-eq-some (get_next_free_line retired) _ h1 in
    let blk = (lm.lines i).id in
    let next : LinePointer = record { curline = i; at = record wpp { blk = blk } } in
    let moved = set_wp (with_lines ftl lm) io_type next in
    let same = get_next_free_line-ssd retired lm i e2 ∙ retire_line-ssd ops ftl.lm retired _ e1 in
    elim (if-eq-some (ltb wpp.blk blks && ltb blk blks && wpp.pl == 0) (some moved) none h2) [
      | inr (b, q) ↦ absurd (none≢some q)
      | inl (b, q) ↦
          let inside : blk < blks = ground arith in
          subst (LinesMoved ftl) (some_inj q)
            (set_wp-LinesMoved ftl lm io_type next same a (start blk inside))
    ]

zeros : (a b c : ℕ) → a + b + c ≡ 0 → (a ≡ 0) × (b ≡ 0) × (c ≡ 0)
zeros a b c e = omega arith

after_step :
    {Q : Type 0} (ops : LineQueue Q) (io_type : IoType) (ftl ftl' : ConvFtl Q)
    → IsDevice ftl.lm.ssd.sp
    → ArePointers ftl
    → (p : IsPointer ftl.lm.ssd (get_wp ftl io_type).at) (r : Advance)
    → Stepped ftl.lm.ssd (get_wp ftl io_type).at p.w p.off r
    → Keeps (get_wp ftl io_type).at r
    → elim r as (λ x. Option (ConvFtl Q)) [
      | next_page at ↦
          (let wpp = get_wp ftl io_type in some (set_wp ftl io_type (record wpp { at = at })))
      | line_used at ↦ next_line ops io_type ftl at
    ]
      ≡ some ftl'
    → LinesMoved ftl ftl'
after_step ops io_type ftl ftl' d a p _ (on wpp' w' off' s e) (blk, pl) h =
    let wpp = get_wp ftl io_type in
    subst (LinesMoved ftl) (some_inj h) (
      set_wp-LinesMoved ftl ftl.lm io_type (record wpp { at = wpp' }) refl a
        (record {
          w = w';
          off = off';
          stands = s;
          plane = pl ∙ p.plane;
          blk_in = omega (arith, blk, p.blk_in);
        }))
after_step ops io_type ftl ftl' d a p _ (used wpp' e z) (blk, pl) h =
    let (pg, lun, ch) = zeros wpp'.pg wpp'.lun wpp'.ch z in
    let s = p.stands in
    next_line-LinesMoved ops io_type ftl ftl' wpp' a
      (λ b i. record {
        w = 0;
        off = 0;
        stands = record {
          at = omega (arith, pg);
          off_in = d.layout.wordline;
          wordline_in = omega (arith, s.wordline_in);
          ch_in = omega (arith, ch, s.ch_in);
          lun_in = omega (arith, lun, s.lun_in);
        };
        plane = pl ∙ p.plane;
        blk_in = i;
      })
      h

-- Advancing a pointer that is on a page leaves both on pages.
pub advance_write_pointer-LinesMoved :
    {Q : Type 0} (ops : LineQueue Q) (io_type : IoType) (ftl ftl' : ConvFtl Q)
    → IsDevice ftl.lm.ssd.sp
    → ArePointers ftl
    → advance_write_pointer ops io_type ftl ≡ some ftl'
    → LinesMoved ftl ftl'
unfolding advance_write_pointer
advance_write_pointer-LinesMoved ops io_type ftl ftl' d a h =
    let ssd = ftl.lm.ssd in
    let wpp = get_wp ftl io_type in
    let p = get_wp-IsPointer ftl io_type a in
    let (r, e, t) =
      advance_in_line-Stepped ssd wpp.at p.w p.off d.layout (FitsInt-IsDevice ssd d) p.stands in
    let (r', e', h') = >>=-eq-some (advance_in_line ssd wpp.at) _ h in
    after_step ops io_type ftl ftl' d a p r'
      (subst (Stepped ssd wpp.at p.w p.off) (some_inj (sym e ∙ e')) t)
      (advance_in_line-Keeps ssd wpp.at r' e') h'

-- The page of a pointer is a page of the device, and no unmapped address.
pub get_new_page-IsPage :
    (ssd : Ssd) (wpp : WritePointer) (new : Ppa)
    → IsDevice ssd.sp
    → IsPointer ssd wpp
    → get_new_page wpp ≡ some new
    → IsPage ssd new × (mapped_ppa new ≡ true)
unfolding get_new_page mapped_ppa ppa_word
get_new_page-IsPage ssd wpp new d p h =
    let s = p.stands in
    let in_block = (row_fits ssd wpp p.w p.off d.layout (FitsInt-IsDevice ssd d) s).1 in
    let page : Ppa = record {
      ch = wpp.ch % 2 ^ 8;
      lun = wpp.lun % 2 ^ 8;
      pg = wpp.pg % 2 ^ 16;
      blk = wpp.blk % 2 ^ 16;
      pl = wpp.pl % 2 ^ 8;
      rsv = 0;
    } in
    let inside : IsPage ssd page = record {
      ch_in = omega (arith, s.ch_in, d.ch_fits);
      lun_in = omega (arith, s.lun_in, d.lun_fits);
      pl_in = omega (arith, p.plane, d.has_plane);
      blk_in = omega (arith, p.blk_in, d.blk_fits);
      pg_in = omega (arith, in_block, d.pg_fits);
    } in
    elim (if-eq-some (wpp.pl % 2 ^ 8 == 0) (some page) none h) [
      | inl (e, q) ↦
          subst (λ x. IsPage ssd x × (mapped_ppa x ≡ true)) (some_inj q) (inside, ground arith)
      | inr (e, q) ↦ absurd (none≢some q)
    ]
