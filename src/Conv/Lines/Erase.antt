-- ===== src/Conv/Lines/Erase.antt =====
-- A block becomes free.
use xharvest.Base.{
  zero, suc, fill, sum_below, ℕ, ◌+◌, ◌≤◌, ◌<◌, ◌≡◌, true, some, refl, arith, ◌==◌, Bool-cases, inl,
  inr, ap, sym,
}
use xharvest.Ssd.Nand.{
  Ppa, PageStatus, pg_free, NandBlock, get_blk, same_blk, get_blk-set_blk, set_blk,
}
use xharvest.Conv.Lines.{LineState, mark_block_free}
use xharvest.Conv.Lines.Counts.{valid_page, invalid_page, pages_of, IsCounted, same_blk_self}

same_number : (a b : ℕ) → a ≡ b → (a == b) ≡ true
same_number a b e = ground arith

pages_of-erased :
    (weight : PageStatus → ℕ) (n m : ℕ) (pages : ℕ → PageStatus)
    → weight pg_free ≡ 0
    → n ≤ m
    → pages_of weight n (fill pages 0 pg_free m) ≡ 0
unfolding pages_of sum_below
pages_of-erased weight zero m pages z h = refl
pages_of-erased weight (suc n) m pages z h =
    let before = pages_of-erased weight n m pages z (omega (arith, h)) in
    let here : fill pages 0 pg_free m n ≡ pg_free = ground arith in
    omega (arith, before, ap weight here, z)

-- A block of the right size becomes free: its pages and counters are those of an erased block, and
-- every counted block stays counted.
pub mark_block_free-IsCounted :
    {Q : Type 0} (s : LineState Q) (p : Ppa)
    → (get_blk s.ssd p).npgs ≡ s.ssd.sp.pgs_per_blk
    → (s' : LineState Q) × (mark_block_free s p ≡ some s')
      × ((q : Ppa)
          → IsCounted s.ssd.sp.pgs_per_blk (get_blk s.ssd q)
          → IsCounted s.ssd.sp.pgs_per_blk (get_blk s'.ssd q))
      × ((i : ℕ) → i < s.ssd.sp.pgs_per_blk → (get_blk s'.ssd p).pages i ≡ pg_free)
unfolding mark_block_free
mark_block_free-IsCounted s p e =
    let n = s.ssd.sp.pgs_per_blk in
    let b = get_blk s.ssd p in
    let freed : NandBlock = record b {
      pages = fill b.pages 0 pg_free n;
      ipc = 0;
      vpc = 0;
      erase_cnt = b.erase_cnt + 1;
    } in
    let counted : IsCounted n freed = record {
      vpc_counts = sym (pages_of-erased valid_page n n b.pages refl (omega arith));
      ipc_counts = sym (pages_of-erased invalid_page n n b.pages refl (omega arith));
    } in
    (
      record s { ssd = set_blk s.ssd p freed },
      rw (same_number b.npgs n e) refl,
      λ q k.
          rw (get_blk-set_blk s.ssd p q freed)
            (elim (Bool-cases (same_blk p q)) [ inl h ↦ rw h counted | inr h ↦ rw h k ]),
      λ i h. rw (get_blk-set_blk s.ssd p p freed, same_blk_self p) (ground arith),
    )
