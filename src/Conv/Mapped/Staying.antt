-- ===== src/Conv/Mapped/Staying.antt =====
-- NVMevirt/conv_ftl.c, do_gc: garbage collection stays on lines of the device.
use xharvest.Base.{
  ℕ, zero, suc, ◌-◌, ◌*◌, ◌%◌, ◌^◌, ◌≡◌, inl, inr, Bool, none, some, ◌==◌, if◌then◌else◌, refl, ap,
  some_inj, if-eq-some, none≢some, >>=-eq-some, Option-cases,
}
use mathlib.Core.Path.{subst}
use xharvest.Ssd.Nand.{Ppa, Ssd, get_pg, set_lun, set_ch}
use xharvest.Ssd.Timing.{NandOp, nand_read, nand_write, nand_erase, nand_nop}
use xharvest.Conv.{get_rmap_ent, valid_lpn, last_pg_in_wordline}
use xharvest.Conv.Lines.{is_valid, mark_block_free, mark_line_free}
use xharvest.Conv.Lines.Pages.{mark_block_free-pages}
use xharvest.Conv.Ftl.{
  LineQueue, IsLineQueue, gc_io, ConvFtl, maps, with_lines, place_page, advance_nand,
}
use xharvest.Conv.Gc.{
  select_victim_line, gc_command, gc_program, gc_write_page, next_pg, count_valid, move_valid,
  clean_one_flashpg, each_below, end_gc, erase_block, gc_ppa, gc_die, gc_line, collect_victim,
  do_gc,
}
use xharvest.Conv.Mapped.Rows.{each_below-keeps}
use xharvest.Conv.Mapped.Loops.{select_victim_line-ssd}
use xharvest.Conv.Mapped.Inside.{
  AreInside-same, select_victim_line-AreInside, mark_block_free-AreInside, mark_line_free-AreInside,
}
use xharvest.Conv.Mapped.Within.{
  IsInside, IsInside-lines, place_page-IsInside, advance_nand-IsInside,
}

end_gc-sp : (ssd : Ssd) (p : Ppa) → (end_gc ssd p).sp ≡ ssd.sp
unfolding set_lun set_ch
end_gc-sp ssd p = refl

module _ {Q : Type 0} {ops : LineQueue Q} (k : IsLineQueue ops) (blks : ℕ) (clock : ℕ → ℕ → ℕ) where
  gc_command-IsInside :
      (ftl ftl' : ConvFtl Q) (op : NandOp) (xfer_size : ℕ) (p : Ppa)
      → gc_command clock ftl op xfer_size p ≡ some ftl'
      → IsInside k blks ftl
      → IsInside k blks ftl'
  unfolding gc_command
  gc_command-IsInside ftl ftl' op xfer_size p h i = elim (if-eq-some ftl.cp.enable_gc_delay _ _ h) [
    | inr (e, q) ↦ subst (IsInside k blks) (some_inj q) i
    | inl (e, q) ↦
        let ((t, f), a, b) = >>=-eq-some (advance_nand clock ftl _) _ q in
        subst (IsInside k blks) (some_inj b) (advance_nand-IsInside k blks clock ftl f _ t a i)
  ]

  gc_write_page-IsInside :
      (ftl ftl' : ConvFtl Q) (p : Ppa)
      → gc_write_page ops clock ftl p ≡ some ftl'
      → IsInside k blks ftl
      → IsInside k blks ftl'
  unfolding gc_write_page gc_program
  gc_write_page-IsInside ftl ftl' p h i =
      let (lpn, e1, h1) = >>=-eq-some (get_rmap_ent (maps ftl) p) _ h in
      let ((new, f), e2, h2) =
        >>=-eq-some (if valid_lpn (maps ftl) lpn then place_page ops gc_io ftl lpn else none) _
          h1 in
      elim (if-eq-some (valid_lpn (maps ftl) lpn) (place_page ops gc_io ftl lpn) none e2) [
        | inr (b, q) ↦ absurd (none≢some q)
        | inl (b, q) ↦
            let placed = place_page-IsInside k blks gc_io ftl f lpn new q i in
            elim (if-eq-some (last_pg_in_wordline (maps f) new) _ _ h2) [
              | inl (c, r) ↦ gc_command-IsInside f ftl' nand_write _ new r placed
              | inr (c, r) ↦ gc_command-IsInside f ftl' nand_nop 0 new r placed
            ]
      ]

  move_valid-IsInside :
      (n : ℕ) (ftl ftl' : ConvFtl Q) (p : Ppa)
      → move_valid ops clock n ftl p ≡ some ftl'
      → IsInside k blks ftl
      → IsInside k blks ftl'
  unfolding move_valid
  move_valid-IsInside zero ftl ftl' p h i = subst (IsInside k blks) (some_inj h) i
  move_valid-IsInside (suc n) ftl ftl' p h i =
      let valid = is_valid (get_pg ftl.lm.ssd p) in
      let (f, e, h1) =
        >>=-eq-some (if valid then gc_write_page ops clock ftl p else some ftl) _ h in
      move_valid-IsInside n f ftl' (next_pg p) h1
        (elim (if-eq-some valid (gc_write_page ops clock ftl p) (some ftl) e) [
          | inl (b, q) ↦ gc_write_page-IsInside ftl f p q i
          | inr (b, q) ↦ subst (IsInside k blks) (some_inj q) i
        ])

  clean_one_flashpg-IsInside :
      (ftl ftl' : ConvFtl Q) (p : Ppa)
      → clean_one_flashpg ops clock ftl p ≡ some ftl'
      → IsInside k blks ftl
      → IsInside k blks ftl'
  unfolding clean_one_flashpg
  clean_one_flashpg-IsInside ftl ftl' p h i =
      let spp = ftl.lm.ssd.sp in
      let (cnt, e, h1) = >>=-eq-some (count_valid ftl.lm.ssd spp.pgs_per_flashpg p) _ h in
      elim (if-eq-some (cnt == 0) (some ftl) _ h1) [
        | inl (z, q) ↦ subst (IsInside k blks) (some_inj q) i
        | inr (z, q) ↦
            let (f, e2, h2) = >>=-eq-some (gc_command clock ftl nand_read (spp.pgsz * cnt) p) _ q in
            move_valid-IsInside spp.pgs_per_flashpg f ftl' p h2
              (gc_command-IsInside ftl f nand_read (spp.pgsz * cnt) p e2 i)
      ]

  erase_block-IsInside :
      (ftl ftl' : ConvFtl Q) (p : Ppa)
      → erase_block clock ftl p ≡ some ftl'
      → IsInside k blks ftl
      → IsInside k blks ftl'
  unfolding erase_block
  erase_block-IsInside ftl ftl' p h i =
      let (lm, e1, h1) = >>=-eq-some (mark_block_free ftl.lm p) _ h in
      let freed = with_lines ftl lm in
      let (f, e2, h2) = >>=-eq-some (gc_command clock freed nand_erase 0 p) _ h1 in
      let (sp, kept, free) = mark_block_free-pages ftl.lm lm p e1 in
      let marked =
        IsInside-lines k blks ftl freed sp (mark_block_free-AreInside k blks ftl.lm lm p e1 i.lines)
          refl refl i in
      let erased = gc_command-IsInside freed f nand_erase 0 p e2 marked in
      let l = f.lm in
      subst (IsInside k blks) (some_inj h2) (
        IsInside-lines k blks f _ (end_gc-sp l.ssd p)
          (AreInside-same k blks l (record l { ssd = end_gc l.ssd p }) refl (λ j. refl)
            erased.lines)
          refl refl erased)

  gc_die-IsInside :
      (blk flashpg ch lun : ℕ) (ftl ftl' : ConvFtl Q)
      → gc_die ops clock blk flashpg ch lun ftl ≡ some ftl'
      → IsInside k blks ftl
      → IsInside k blks ftl'
  unfolding gc_die
  gc_die-IsInside blk flashpg ch lun ftl ftl' h i =
      let spp = ftl.lm.ssd.sp in
      let p = gc_ppa blk (flashpg * spp.pgs_per_flashpg) ch lun in
      let (f, e, h1) = >>=-eq-some (clean_one_flashpg ops clock ftl p) _ h in
      let clean = clean_one_flashpg-IsInside ftl f p e i in
      elim (if-eq-some (flashpg == spp.flashpgs_per_blk - 1) (erase_block clock f p) (some f) h1) [
        | inl (b, q) ↦ erase_block-IsInside f ftl' p q clean
        | inr (b, q) ↦ subst (IsInside k blks) (some_inj q) clean
      ]

  gc_line-IsInside :
      (blk : ℕ) (ftl ftl' : ConvFtl Q)
      → gc_line ops clock blk ftl ≡ some ftl'
      → IsInside k blks ftl
      → IsInside k blks ftl'
  unfolding gc_line
  gc_line-IsInside blk ftl ftl' h i =
      let spp = ftl.lm.ssd.sp in
      each_below-keeps (λ f. IsInside k blks) spp.flashpgs_per_blk
        (λ flashpg.
          each_below spp.nchs (λ ch. each_below spp.luns_per_ch (gc_die ops clock blk flashpg ch)))
        ftl ftl'
        (λ f a b jf j e.
          each_below-keeps (λ c. IsInside k blks) spp.nchs
            (λ ch. each_below spp.luns_per_ch (gc_die ops clock blk f ch)) a b
            (λ c u v jc m w.
              each_below-keeps (λ l. IsInside k blks) spp.luns_per_ch (gc_die ops clock blk f c) u v
                (λ l x y jl n z. gc_die-IsInside blk f c l x y z n) m w)
            j e)
        i h

  -- Garbage collection leaves the pointers and the victims on the first `blks` lines.
  pub do_gc-IsInside :
      (ftl ftl' : ConvFtl Q) (force had_victim : Bool)
      → do_gc ops clock ftl force ≡ some (had_victim, ftl')
      → IsInside k blks ftl
      → IsInside k blks ftl'
  unfolding do_gc collect_victim mark_line_free
  do_gc-IsInside ftl ftl' force had_victim h i =
      elim (Option-cases (select_victim_line ops ftl.lm force)) [
        | inl e ↦
            let h1 = rw (e, do_gc) at h in
            subst (λ (x : Bool × ConvFtl Q). IsInside k blks x.1) (some_inj h1) i
        | inr ((v, lm), e) ↦
            let h1 = rw (e, do_gc) at h in
            let same = select_victim_line-ssd ops ftl.lm lm force v e in
            let (inside, below) = select_victim_line-AreInside k blks ftl.lm lm force v e i.lines in
            let blk = (lm.lines v).id % 2 ^ 16 in
            let start : ConvFtl Q = record ftl { lm = lm; credits_to_refill = (lm.lines v).ipc } in
            let (f, e2, h2) = >>=-eq-some (gc_line ops clock blk start) _ h1 in
            let done =
              gc_line-IsInside blk start f e2 (
                IsInside-lines k blks ftl start (ap (λ (x : Ssd). x.sp) same) inside refl refl i) in
            let freed = mark_line_free f.lm (gc_ppa blk 0 0 0) in
            subst (λ (x : Bool × ConvFtl Q). IsInside k blks x.1) (some_inj h2)
              (IsInside-lines k blks f (with_lines f freed) refl
                (mark_line_free-AreInside k blks f.lm (gc_ppa blk 0 0 0) done.lines) refl refl done)
      ]
