-- ===== src/Conv/Mapped/Rows.antt =====
-- NVMevirt/conv_ftl.c, do_gc: the flash pages of the loops over a line.
use xharvest.Base.{
  Bool, ℕ, zero, suc, ◌+◌, ◌-◌, ◌*◌, ◌^◌, ◌≤◌, ◌<◌, ◌≡◌, inl, inr, true, Option, some, ◌==◌, arith,
  sym, ◌∙◌, ap, Bool-cases, some_inj, >>=-eq-some, ==→≡, not_==→≢,
}
use mathlib.Core.Path.{subst}
use native.Mathlib.Nat.{mul-le-mul_right, suc-mul, mul_comm}
use xharvest.Ssd.Params.{SsdParams}
use xharvest.Ssd.Nand.{Ppa, Ssd}
use xharvest.Conv.Index.{IsPage}
use xharvest.Conv.Gc.{each_below, gc_ppa}
use xharvest.Conv.Mapped.{IsDevice}
use xharvest.Conv.Mapped.Flash.{in_range}
use xharvest.Conv.Mapped.Sets.{moved_set, range_fields}

-- An invariant of a loop.
pub each_below-keeps :
    {S : Type 0} (I : ℕ → S → Type 0) (n : ℕ) (step : ℕ → S → Option S) (s s' : S)
    → ((i : ℕ) (a b : S) → i < n → I i a → step i a ≡ some b → I (suc i) b)
    → I 0 s
    → each_below n step s ≡ some s'
    → I n s'
unfolding each_below
each_below-keeps I zero step s s' keep i h = subst (I 0) (some_inj h) i
each_below-keeps I (suc n) step s s' keep i h =
    let (t, e, h1) = >>=-eq-some (each_below n step s) _ h in
    keep n t s' (omega arith)
      (each_below-keeps I n step s t (λ j a b l. keep j a b (omega (arith, l))) i e) h1

-- The moved pages when the loops are at flash page `f`, channel `c` and die `l` of line `b`.
abbrev pub MovedAt : SsdParams → (b f c l : ℕ) → Ppa → Type 0
MovedAt sp b f c l q =
    moved_set (f == sp.flashpgs_per_blk - 1) (f * sp.pgs_per_flashpg) sp.pgs_per_flashpg b c l q
    ≡ true

row_in_block :
    (sp : SsdParams) (f : ℕ)
    → sp.pgs_per_flashpg * sp.flashpgs_per_blk ≡ sp.pgs_per_blk
    → f < sp.flashpgs_per_blk
    → f * sp.pgs_per_flashpg + sp.pgs_per_flashpg ≤ sp.pgs_per_blk
row_in_block sp f e h =
    let up : suc f * sp.pgs_per_flashpg ≤ sp.flashpgs_per_blk * sp.pgs_per_flashpg =
      mul-le-mul_right sp.pgs_per_flashpg h in
    omega
      (arith, up, suc-mul f sp.pgs_per_flashpg, mul_comm sp.flashpgs_per_blk sp.pgs_per_flashpg, e)

pub last_row :
    (sp : SsdParams) (f : ℕ)
    → sp.pgs_per_flashpg * sp.flashpgs_per_blk ≡ sp.pgs_per_blk
    → f < sp.flashpgs_per_blk
    → f ≡ sp.flashpgs_per_blk - 1
    → f * sp.pgs_per_flashpg + sp.pgs_per_flashpg ≡ sp.pgs_per_blk
last_row sp f e h l =
    let next : suc f ≡ sp.flashpgs_per_blk = omega (arith, h, l) in
    omega (
      arith,
      ap (λ n. n * sp.pgs_per_flashpg) next,
      suc-mul f sp.pgs_per_flashpg,
      mul_comm sp.flashpgs_per_blk sp.pgs_per_flashpg,
      e,
    )

pub flash_pages :
    (ssd : Ssd) (q : Ppa)
    → ssd.sp.pgs_per_flashpg * ssd.sp.flashpgs_per_blk ≡ ssd.sp.pgs_per_blk
    → IsPage ssd q
    → 0 < ssd.sp.pgs_per_flashpg
flash_pages ssd q e h = elim (Bool-cases (ssd.sp.pgs_per_flashpg == 0)) [
  | inl z ↦
      let none_there : ssd.sp.pgs_per_blk ≡ 0 * ssd.sp.flashpgs_per_blk =
        sym e ∙ ap (λ n. n * ssd.sp.flashpgs_per_blk) (==→≡ ssd.sp.pgs_per_flashpg 0 z) in
      absurd (omega (arith, none_there, h.pg_in))
  | inr z ↦ omega (arith, not_==→≢ ssd.sp.pgs_per_flashpg 0 z)
]

-- Where the loops are: line `b`, flash page `f`, channel `c`, die `l`.
abbrev pub InLoops : SsdParams → (b f c l : ℕ) → Type 0
InLoops sp b f c l =
    (b < sp.blks_per_pl) × (f < sp.flashpgs_per_blk) × (c < sp.nchs) × (l < sp.luns_per_ch)

-- The flash page of the loops, and that its numbers fit.
pub record IsRow (ssd : Ssd) (b f c l : ℕ) : Type 0 where
  pub row : f * ssd.sp.pgs_per_flashpg + ssd.sp.pgs_per_flashpg ≤ ssd.sp.pgs_per_blk
  pub fits : f * ssd.sp.pgs_per_flashpg + ssd.sp.pgs_per_flashpg ≤ 2 ^ 16
  pub bf : b < 2 ^ 16
  pub cf : c < 2 ^ 8
  pub lf : l < 2 ^ 8
  pub enough : (q : Ppa) → IsPage ssd q → 0 < ssd.sp.pgs_per_flashpg
  pub inside :
      (q : Ppa)
      → in_range (gc_ppa b (f * ssd.sp.pgs_per_flashpg) c l) ssd.sp.pgs_per_flashpg q ≡ true
      → IsPage ssd q

pub gc_ppa-IsRow :
    (ssd : Ssd) (b f c l : ℕ) → IsDevice ssd.sp → InLoops ssd.sp b f c l → IsRow ssd b f c l
gc_ppa-IsRow ssd b f c l d (ib, jf, ic, il) =
    let sp = ssd.sp in
    let n = sp.pgs_per_flashpg in
    let row = row_in_block sp f d.layout.block_flash jf in
    let fits : f * n + n ≤ 2 ^ 16 = omega (arith, row, d.pg_fits) in
    let bf : b < 2 ^ 16 = omega (arith, ib, d.blk_fits) in
    let cf : c < 2 ^ 8 = omega (arith, ic, d.ch_fits) in
    let lf : l < 2 ^ 8 = omega (arith, il, d.lun_fits) in
    record {
      row = row;
      fits = fits;
      bf = bf;
      cf = cf;
      lf = lf;
      enough = λ q e. flash_pages ssd q d.layout.block_flash e;
      inside = λ q e.
          let (qc, ql, qp, qb, qg) = range_fields (f * n) n b c l q fits bf cf lf e in
          record {
            ch_in = omega (arith, qc, ic);
            lun_in = omega (arith, ql, il);
            pl_in = omega (arith, qp, d.has_plane);
            blk_in = omega (arith, qb, ib);
            pg_in = omega (arith, qg, row);
          };
    }

-- The moved pages, where it is known whether the flash page is the last.
pub as_known :
    (sp : SsdParams) (b f c k : ℕ) (x : Ppa) (t : Bool)
    → (f == sp.flashpgs_per_blk - 1) ≡ t
    → MovedAt sp b f c k x
    → moved_set t (f * sp.pgs_per_flashpg) sp.pgs_per_flashpg b c k x ≡ true
as_known sp b f c k x t e m =
    subst (λ u. moved_set u (f * sp.pgs_per_flashpg) sp.pgs_per_flashpg b c k x ≡ true) e m

pub from_known :
    (sp : SsdParams) (b f c k : ℕ) (x : Ppa) (t : Bool)
    → (f == sp.flashpgs_per_blk - 1) ≡ t
    → moved_set t (f * sp.pgs_per_flashpg) sp.pgs_per_flashpg b c k x ≡ true
    → MovedAt sp b f c k x
from_known sp b f c k x t e m =
    subst (λ u. moved_set u (f * sp.pgs_per_flashpg) sp.pgs_per_flashpg b c k x ≡ true) (sym e) m
