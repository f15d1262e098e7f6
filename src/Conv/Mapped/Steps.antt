-- ===== src/Conv/Mapped/Steps.antt =====
-- NVMevirt/conv_ftl.c: placing a page, dropping an old one and NAND commands, on the whole FTL.
use xharvest.Base.{ℕ, ◌≡◌, some, refl, sym, ◌∙◌, ap, some_inj, >>=-eq-some}
use mathlib.Core.Path.{subst}
use xharvest.Ssd.Nand.{Ppa, Ssd, get_pg}
use xharvest.Ssd.Timing.{NandCmd, ssd_advance_nand}
use xharvest.Ssd.Timing.Pages.{ssd_advance_nand-SamePages}
use xharvest.Conv.{Maps, set_maptbl_ent, set_rmap_ent, get_new_page}
use xharvest.Conv.Lines.{mark_page_valid}
use xharvest.Conv.Lines.Pages.{mark_page_valid-Repaged}
use xharvest.Conv.Ftl.{
  LineQueue, IoType, ConvFtl, maps, with_maps, with_lines, get_wp, advance_write_pointer,
  place_page, advance_nand,
}
use xharvest.Conv.Mapped.{IsDevice, IsMapped, NoLpn, NoPage, SameMaps, IsMapped-SameMaps}
use xharvest.Conv.Mapped.Place.{Placed, set_both-Placed}
use xharvest.Conv.Mapped.Pointers.{
  ArePointers, get_wp-IsPointer, get_new_page-IsPage, advance_write_pointer-LinesMoved, IsPointer,
  IsPointer-same_sp,
}

-- The FTL on a device, with the maps right but for the LPNs of `E` and the pages of `M`.
pub record IsSoundBut {Q : Type 0} (ftl : ConvFtl Q) (E : ℕ → Type 0) (M : Ppa → Type 0)
    : Type 0 where
  pub device : IsDevice ftl.lm.ssd.sp
  pub maps_right : IsMapped (maps ftl) E M
  pub pointers : ArePointers ftl

-- The FTL's invariant.
abbrev pub IsSound : {Q : Type 0} → ConvFtl Q → Type 0
IsSound ftl = IsSoundBut ftl NoLpn NoPage

pub device-same_sp : (a b : Ssd) → b.sp ≡ a.sp → IsDevice a.sp → IsDevice b.sp
device-same_sp a b e d = subst IsDevice (sym e) d

pub ArePointers-same :
    {Q : Type 0} (ftl ftl' : ConvFtl Q)
    → ftl'.lm.ssd.sp ≡ ftl.lm.ssd.sp
    → ftl'.wp ≡ ftl.wp
    → ftl'.gc_wp ≡ ftl.gc_wp
    → ArePointers ftl
    → ArePointers ftl'
ArePointers-same ftl ftl' e u g a = record {
  user =
      IsPointer-same_sp ftl.lm.ssd ftl'.lm.ssd ftl'.wp.at e
        (subst (λ p. IsPointer ftl.lm.ssd p.at) (sym u) a.user);
  gc =
      IsPointer-same_sp ftl.lm.ssd ftl'.lm.ssd ftl'.gc_wp.at e
        (subst (λ p. IsPointer ftl.lm.ssd p.at) (sym g) a.gc);
}

maps_eq : (m m' : Maps) → m'.ssd ≡ m.ssd → m'.maptbl ≡ m.maptbl → m'.rmap ≡ m.rmap → m ≡ m'
maps_eq m m' e f g = λ i. record { ssd = sym e i; maptbl = sym f i; rmap = sym g i }

-- The page that an LPN was given, and what that leaves.
pub record IsPlaced {Q : Type 0} (ftl ftl' : ConvFtl Q) (lpn : ℕ) (new : Ppa) : Type 0 where
  pub placed : Placed (maps ftl) (maps ftl') lpn new
  pub pointers : ArePointers ftl'

pub place_page-IsPlaced :
    {Q : Type 0} (ops : LineQueue Q) (io_type : IoType) (ftl ftl' : ConvFtl Q) (lpn : ℕ) (new : Ppa)
    → IsDevice ftl.lm.ssd.sp
    → ArePointers ftl
    → place_page ops io_type ftl lpn ≡ some (new, ftl')
    → IsPlaced ftl ftl' lpn new
unfolding place_page
place_page-IsPlaced {Q} ops io_type ftl ftl' lpn new d a h =
    let ssd = ftl.lm.ssd in
    let wpp = (get_wp ftl io_type).at in
    let (p, e1, h1) = >>=-eq-some (get_new_page wpp) _ h in
    let (m1, e2, h2) = >>=-eq-some (set_maptbl_ent (maps ftl) lpn p) _ h1 in
    let (m2, e3, h3) = >>=-eq-some (set_rmap_ent m1 lpn p) _ h2 in
    let (lm, e4, h4) = >>=-eq-some (mark_page_valid ftl.lm p) _ h3 in
    let marked = with_lines (with_maps ftl m2) lm in
    let (f, e5, h5) = >>=-eq-some (advance_write_pointer ops io_type marked) _ h4 in
    let (page, real) = get_new_page-IsPage ssd wpp p d (get_wp-IsPointer ftl io_type a) e1 in
    let (free, r) = mark_page_valid-Repaged ftl.lm lm p e4 in
    let both = set_both-Placed (maps ftl) m1 m2 lm.ssd lpn p d page real e2 e3 free r in
    let moved =
      advance_write_pointer-LinesMoved ops io_type marked f (device-same_sp ssd lm.ssd r.same_sp d)
        (ArePointers-same ftl marked r.same_sp refl refl a) e5 in
    let after = maps_eq (maps marked) (maps f) moved.same_ssd moved.same_maptbl moved.same_rmap in
    subst (λ (x : Ppa × ConvFtl Q). IsPlaced ftl x.1 lpn x.0) (some_inj h5)
      (record {
        placed = subst (λ m. Placed (maps ftl) m lpn p) after both;
        pointers = moved.pointers;
      })

-- What does not touch the maps, the pages and the write pointers.
pub record Quiet {Q : Type 0} (ftl ftl' : ConvFtl Q) : Type 0 where
  pub same : SameMaps (maps ftl) (maps ftl')
  pub same_wp : ftl'.wp ≡ ftl.wp
  pub same_gc_wp : ftl'.gc_wp ≡ ftl.gc_wp

pub Quiet-refl : {Q : Type 0} (ftl : ConvFtl Q) → Quiet ftl ftl
Quiet-refl ftl = record {
  same = record { same_sp = refl; same_pages = λ q. refl; same_maptbl = refl; same_rmap = refl };
  same_wp = refl;
  same_gc_wp = refl;
}

pub Quiet-trans : {Q : Type 0} (a b c : ConvFtl Q) → Quiet a b → Quiet b c → Quiet a c
Quiet-trans a b c s t = record {
  same = record {
    same_sp = t.same.same_sp ∙ s.same.same_sp;
    same_pages = λ q. t.same.same_pages q ∙ s.same.same_pages q;
    same_maptbl = t.same.same_maptbl ∙ s.same.same_maptbl;
    same_rmap = t.same.same_rmap ∙ s.same.same_rmap;
  };
  same_wp = t.same_wp ∙ s.same_wp;
  same_gc_wp = t.same_gc_wp ∙ s.same_gc_wp;
}

pub IsSoundBut-Quiet :
    {Q : Type 0} (ftl ftl' : ConvFtl Q) (E : ℕ → Type 0) (M : Ppa → Type 0)
    → Quiet ftl ftl'
    → IsSoundBut ftl E M
    → IsSoundBut ftl' E M
IsSoundBut-Quiet ftl ftl' E M q k = record {
  device = device-same_sp ftl.lm.ssd ftl'.lm.ssd q.same.same_sp k.device;
  maps_right = IsMapped-SameMaps (maps ftl) (maps ftl') E M q.same k.maps_right;
  pointers = ArePointers-same ftl ftl' q.same.same_sp q.same_wp q.same_gc_wp k.pointers;
}

-- A NAND command is quiet.
pub advance_nand-Quiet :
    {Q : Type 0} (clock : ℕ → ℕ → ℕ) (ftl ftl' : ConvFtl Q) (cmd : NandCmd) (t : ℕ)
    → advance_nand clock ftl cmd ≡ some (t, ftl')
    → Quiet ftl ftl'
unfolding advance_nand get_pg
advance_nand-Quiet clock ftl ftl' cmd t h =
    let ((t', ssd), e, f) =
      >>=-eq-some (ssd_advance_nand (clock ftl.nand_calls) ftl.lm.ssd cmd) _ h in
    let s = ssd_advance_nand-SamePages _ ftl.lm.ssd ssd cmd _ e in
    subst (Quiet ftl) (ap (λ x. x.1) (some_inj f)) (record {
      same = record {
        same_sp = s.same_sp;
        same_pages = λ q. ap (λ b. b.pages q.pg) (s.same_blk q);
        same_maptbl = refl;
        same_rmap = refl;
      };
      same_wp = refl;
      same_gc_wp = refl;
    })
