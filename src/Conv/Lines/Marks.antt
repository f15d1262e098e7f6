-- ===== src/Conv/Lines/Marks.antt =====
-- A free page becomes valid: the assertions hold on counted blocks, and the counters stay true.
use xharvest.Base.{
  ℕ, ◌+◌, ◌<◌, ◌≡◌, true, some, refl, arith, ltb, update_self, ap, ◌∙◌, lt→ltb, ≢→==,
}
use xharvest.Ssd.Nand.{
  Ppa, PageStatus, pg_free, pg_valid, Ssd, get_pg, get_blk, set_pg, set_blk, set_lun, set_ch,
}
use xharvest.Conv.Lines.{LineState, is_free, set_line, mark_page_valid}
use xharvest.Conv.Lines.Counts.{
  valid_page, invalid_page, IsCounted, Marked, marked, marked_counts, get_blk-marked,
  get_blk-set_pg_self, same_blk_self, free_room,
}

pub page_now :
    (ssd : Ssd) (p : Ppa) (st : PageStatus) (ipc vpc : ℕ)
    → (get_blk
          (set_blk
            (set_pg ssd p st)
            p
            (record (get_blk (set_pg ssd p st) p) { ipc = ipc; vpc = vpc }))
          p).pages
        p.pg
      ≡ st
unfolding marked
page_now ssd p st ipc vpc =
    ap (λ b. b.pages p.pg) (get_blk-marked ssd p p st ipc vpc)
    ∙ rw (same_blk_self p) (update_self (get_blk ssd p).pages p.pg st)

module _ {Q : Type 0} (s : LineState Q) (p : Ppa) (inside : p.pg < s.ssd.sp.pgs_per_blk) where
  -- A free page of a counted block, in a line with less valid pages than pages, becomes valid: the
  -- assertions hold, every counted block stays counted, and of the lines' counters the number of
  -- valid pages of the page's line alone changes, by one.
  pub mark_page_valid-Marked :
      get_pg s.ssd p ≡ pg_free
      → IsCounted s.ssd.sp.pgs_per_blk (get_blk s.ssd p)
      → (s.lines p.blk).vpc < s.ssd.sp.pgs_per_line
      → (s' : LineState Q) × (mark_page_valid s p ≡ some s')
        × Marked s s' p pg_valid (s.lines p.blk).ipc ((s.lines p.blk).vpc + 1)
  unfolding mark_page_valid get_pg set_blk set_pg set_lun set_ch
  mark_page_valid-Marked free c room =
      let line = s.lines p.blk in
      let self = get_blk-set_pg_self s.ssd p pg_valid in
      let b = get_blk (set_pg s.ssd p pg_valid) p in
      let vpc : b.vpc ≡ (get_blk s.ssd p).vpc = ap (λ x. x.vpc) self in
      let ipc : b.ipc ≡ (get_blk s.ssd p).ipc = ap (λ x. x.ipc) self in
      let more : ltb b.vpc s.ssd.sp.pgs_per_blk ≡ true = lt→ltb _ _ (
        omega (
          arith,
          vpc,
          c.vpc_counts,
          free_room s.ssd.sp.pgs_per_blk (get_blk s.ssd p).pages p.pg inside free,
        )) in
      (
        set_line
            (record s { ssd = set_blk (set_pg s.ssd p pg_valid) p (record b { vpc = b.vpc + 1 }) })
            p.blk (record line { vpc = line.vpc + 1 }),
        rw (ap is_free free, more, lt→ltb _ _ room) refl,
        record {
          counted = λ q k.
              marked_counts s.ssd p q pg_valid b.ipc (b.vpc + 1) inside
                (omega (arith, vpc, ap valid_page free)) (omega (arith, ipc, ap invalid_page free))
                k;
          same_sp = refl;
          now = page_now s.ssd p pg_valid b.ipc (b.vpc + 1);
          line_ipc =
              ap (λ l. l.ipc) (update_self s.lines p.blk (record line { vpc = line.vpc + 1 }));
          line_vpc =
              ap (λ l. l.vpc) (update_self s.lines p.blk (record line { vpc = line.vpc + 1 }));
          other_vpc = λ j n. rw (≢→== j p.blk n) refl;
          other_ipc = λ j n. rw (≢→== j p.blk n) refl;
        },
      )
