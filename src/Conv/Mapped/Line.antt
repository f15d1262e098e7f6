-- ===== src/Conv/Mapped/Line.antt =====
-- NVMevirt/conv_ftl.c, do_gc: the loops over a line.
use xharvest.Base.{
  ℕ, suc, ◌-◌, ◌*◌, ◌<◌, ◌≡◌, inl, inr, true, false, some, ◌==◌, arith, sym, ◌∙◌, some_inj,
  if-eq-some, >>=-eq-some, ==→≡,
}
use mathlib.Core.Path.{subst}
use xharvest.Ssd.Nand.{Ppa}
use xharvest.Conv.Index.{IsPage}
use xharvest.Conv.Ftl.{LineQueue, ConvFtl}
use xharvest.Conv.Gc.{gc_ppa, gc_die, clean_one_flashpg, erase_block}
use xharvest.Conv.Mapped.{IsDevice, NoLpn, IsPage-same_sp}
use xharvest.Conv.Mapped.Collect.{IsCollecting, IsSoundBut-moved}
use xharvest.Conv.Mapped.Flash.{in_range, WithRange, clean_one_flashpg-IsCollecting}
use xharvest.Conv.Mapped.Steps.{IsSoundBut}
use xharvest.Conv.Mapped.Erased.{IsCollected, Without, erase_block-IsCollected}
use xharvest.Conv.Mapped.Sets.{
  range_not_moved, die_moves, die_moved, block_moved, die_erases, die_erased,
}
use xharvest.Conv.Mapped.Rows.{
  MovedAt, InLoops, IsRow, gc_ppa-IsRow, as_known, from_known, last_row,
}

module _ {Q : Type 0} (ops : LineQueue Q) (clock : ℕ → ℕ → ℕ) (ftl : ConvFtl Q) (b f c l : ℕ) where
  abbrev flash : Ppa
  flash = gc_ppa b (f * ftl.lm.ssd.sp.pgs_per_flashpg) c l

  -- The pages that have moved after the die's flash page has been cleaned.
  abbrev Cleaned : Ppa → Type 0
  Cleaned = let sp = ftl.lm.ssd.sp in WithRange (MovedAt sp b f c l) flash sp.pgs_per_flashpg

  -- A flash page that is not the block's last.
  inner_die-IsCollected :
      (a : ConvFtl Q)
      → IsRow ftl.lm.ssd b f c l
      → (let sp = ftl.lm.ssd.sp in (f == sp.flashpgs_per_blk - 1) ≡ false)
      → IsCollecting ftl a Cleaned
      → IsCollected ftl a (MovedAt ftl.lm.ssd.sp b f c (suc l))
  inner_die-IsCollected a w z clean =
      let ssd = ftl.lm.ssd in
      let sp = ssd.sp in
      let n = sp.pgs_per_flashpg in
      let r = f * n in
      let more = λ (q : Ppa) (e : IsPage a.lm.ssd q).
        w.enough q (IsPage-same_sp a.lm.ssd ssd q (sym clean.same_sp) e) in
      record {
        sound =
            IsSoundBut-moved a Cleaned (MovedAt sp b f c (suc l))
              (λ x i m. from_known sp b f c (suc l) x false z (
                die_moves r n b c l x w.fits (more x i) w.bf w.cf w.lf
                  (elim m [ inl y ↦ inl (as_known sp b f c l x false z y) | inr y ↦ inr y ])))
              (λ x i m.
                elim (die_moved r n b c l x w.fits (more x i) w.bf w.cf w.lf
                  (as_known sp b f c (suc l) x false z m)) [
                    | inl y ↦ inl (from_known sp b f c l x false z y)
                    | inr y ↦ inr y
                  ])
              clean.sound;
        same_sp = clean.same_sp;
        same_lpns = clean.same_lpns;
      }

  -- The last flash page of a block: the block is erased.
  last_die-IsCollected :
      (a ftl' : ConvFtl Q)
      → IsDevice ftl.lm.ssd.sp
      → f < ftl.lm.ssd.sp.flashpgs_per_blk
      → IsRow ftl.lm.ssd b f c l
      → (let sp = ftl.lm.ssd.sp in (f == sp.flashpgs_per_blk - 1) ≡ true)
      → IsCollecting ftl a Cleaned
      → erase_block clock a flash ≡ some ftl'
      → IsCollected ftl ftl' (MovedAt ftl.lm.ssd.sp b f c (suc l))
  last_die-IsCollected a ftl' d jf w z clean h =
      let ssd = ftl.lm.ssd in
      let sp = ssd.sp in
      let n = sp.pgs_per_flashpg in
      let r = f * n in
      let back =
        λ (q : Ppa) (e : IsPage a.lm.ssd q). IsPage-same_sp a.lm.ssd ssd q (sym clean.same_sp) e in
      let more = λ (q : Ppa) (e : IsPage a.lm.ssd q). w.enough q (back q e) in
      let full = last_row sp f d.layout.block_flash jf (==→≡ f (sp.flashpgs_per_blk - 1) z) in
      let gone =
        erase_block-IsCollected clock a ftl' Cleaned flash clean.sound
          (λ x i same.
            let j = back x i in
            elim (block_moved r n b c l x w.fits (more x i) w.bf w.cf w.lf same
              (omega (arith, full, j.pg_in))) [
                | inl y ↦ inl (from_known sp b f c l x true z y)
                | inr y ↦ inr y
              ])
          h in
      let there = λ (x : Ppa) (i : IsPage ftl'.lm.ssd x).
        more x (IsPage-same_sp ftl'.lm.ssd a.lm.ssd x (sym gone.same_sp) i) in
      record {
        sound =
            IsSoundBut-moved ftl' (Without Cleaned flash) (MovedAt sp b f c (suc l))
              (λ x i (m, o). from_known sp b f c (suc l) x true z (
                die_erases r n b c l x w.fits (there x i) w.bf w.cf w.lf
                  (elim m [ inl y ↦ inl (as_known sp b f c l x true z y) | inr y ↦ inr y ]) o))
              (λ x i m.
                let (y, o) =
                  die_erased r n b c l x w.fits (there x i) w.bf w.cf w.lf
                    (as_known sp b f c (suc l) x true z m) in
                (inl (from_known sp b f c l x true z y), o))
              gone.sound;
        same_sp = gone.same_sp ∙ clean.same_sp;
        same_lpns = λ k. gone.same_lpns k ∙ clean.same_lpns k;
      }

  -- One die of one row.
  pub gc_die-IsCollected :
      (ftl' : ConvFtl Q)
      → InLoops ftl.lm.ssd.sp b f c l
      → IsSoundBut ftl NoLpn (MovedAt ftl.lm.ssd.sp b f c l)
      → gc_die ops clock b f c l ftl ≡ some ftl'
      → IsCollected ftl ftl' (MovedAt ftl.lm.ssd.sp b f c (suc l))
  unfolding gc_die
  gc_die-IsCollected ftl' (ib, jf, ic, il) s h =
      let sp = ftl.lm.ssd.sp in
      let n = sp.pgs_per_flashpg in
      let d = s.device in
      let w = gc_ppa-IsRow ftl.lm.ssd b f c l d (ib, jf, ic, il) in
      let fits = w.fits in
      let last = f == sp.flashpgs_per_blk - 1 in
      let (a, e1, h1) = >>=-eq-some (clean_one_flashpg ops clock ftl flash) _ h in
      let fresh : (q : Ppa) → in_range flash n q ≡ true → ¬ MovedAt sp b f c l q = λ q e m. cc (
        range_not_moved (f * n) n b c l q w.fits (w.enough q (w.inside q e)) w.bf w.cf w.lf last
          e) in
      let clean =
        clean_one_flashpg-IsCollecting ops clock ftl a (MovedAt sp b f c l) flash s
          (omega (arith, fits)) w.inside fresh e1 in
      elim (if-eq-some last (erase_block clock a flash) (some a) h1) [
        | inr (z, q) ↦
            subst (λ t. IsCollected ftl t (MovedAt sp b f c (suc l))) (some_inj q)
              (inner_die-IsCollected a w z clean)
        | inl (z, q) ↦ last_die-IsCollected a ftl' d jf w z clean q
      ]
