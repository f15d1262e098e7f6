-- ===== src/Conv/Lines/Invalid.antt =====
-- A valid page becomes invalid: the assertions hold on counted blocks, and the counters stay true.
use xharvest.Base.{
  ℕ, ◌+◌, ◌-◌, ◌≤◌, ◌<◌, ◌≡◌, ◌≢◌, true, false, some, refl, arith, ltb, ◌==◌, update_self,
  Bool-cases, inl, inr, ap, ◌∙◌, lt→ltb, ≢→==, ==→≡,
}
use mathlib.Core.Path.{subst}
use xharvest.Ssd.Nand.{
  Ppa, PageStatus, pg_free, pg_invalid, pg_valid, get_pg, get_blk, set_pg, set_blk, set_lun, set_ch,
}
use xharvest.Conv.Lines.{
  LineState, VictimQueue, IsVictimQueue, is_valid, set_line, mark_page_invalid, lower_vpc,
  full_to_victim,
}
use xharvest.Conv.Lines.Counts.{
  valid_page, invalid_page, pages_of, IsCounted, Marked, marked_counts, get_blk-set_pg_self,
  pages_of-update, pages_of-room,
}
use xharvest.Conv.Lines.Marks.{page_now}

valid_room :
    (n : ℕ) (pages : ℕ → PageStatus) (i : ℕ)
    → i < n
    → pages i ≡ pg_valid
    → (pages_of invalid_page n pages < n)
      × (0 < pages_of valid_page n pages)
      × (pages_of valid_page n pages ≤ n)
valid_room n pages i h e =
    omega (
      arith,
      pages_of-update valid_page n pages i pg_free h,
      ap valid_page e,
      pages_of-room n pages,
    )

ipc_zero : (vpc ipc n : ℕ) → vpc ≡ n → vpc + ipc ≤ n → ipc ≡ 0
ipc_zero vpc ipc n e h = omega arith

le→not_ltb : (a b : ℕ) → a ≤ b → ltb b a ≡ false
le→not_ltb a b h = ground arith

-- The lines' counters after line `i` got a new number of valid pages.
record Lowered {Q : Type 0} (s s' : LineState Q) (i vpc : ℕ) : Type 0 where
  same_ssd : s'.ssd ≡ s.ssd
  lowered : (s'.lines i).vpc ≡ vpc
  others : (j : ℕ) → j ≢ i → (s'.lines j).vpc ≡ (s.lines j).vpc
  all_ipc : (j : ℕ) → (s'.lines j).ipc ≡ (s.lines j).ipc

module _ {Q : Type 0} (ops : VictimQueue Q) (v : IsVictimQueue ops) (s : LineState Q) (i : ℕ) where
  lower_vpc-Lowered : Lowered s (lower_vpc ops s i) i ((s.lines i).vpc - 1)
  unfolding lower_vpc
  lower_vpc-Lowered = elim (Bool-cases ((s.lines i).pos == 0)) [
    | inl e ↦ rw e (record {
      same_ssd = refl;
      lowered = ap (λ l. l.vpc) (update_self s.lines i _);
      others = λ j n. rw (≢→== j i n) refl;
      all_ipc =
          λ j. elim (Bool-cases (j == i)) [ inl f ↦ rw (f, ==→≡ j i f) refl | inr f ↦ rw f refl ];
    })
    | inr e ↦ rw e (record {
      same_ssd = refl;
      lowered = v.change_self _ _ _ _;
      others = λ j n. v.change_vpc _ _ _ _ j n;
      all_ipc = λ j. v.change_ipc _ _ _ _ j;
    })
  ]

  full_to_victim-Lowered :
      (s' : LineState Q) (vpc : ℕ) → Lowered s s' i vpc → Lowered s (full_to_victim ops s' i) i vpc
  unfolding full_to_victim
  full_to_victim-Lowered s' vpc l = record {
    same_ssd = l.same_ssd;
    lowered = v.insert_vpc _ _ _ _ ∙ l.lowered;
    others = λ j n. v.insert_vpc _ _ _ _ ∙ l.others j n;
    all_ipc = λ j. v.insert_ipc _ _ _ _ ∙ l.all_ipc j;
  }

module _ {Q : Type 0} (s : LineState Q) (p : Ppa) (inside : p.pg < s.ssd.sp.pgs_per_blk) where
  -- With a queue that keeps to its callbacks: a valid page of a counted block, in a line whose
  -- counters admit it, becomes invalid. The assertions hold, every counted block stays counted, and of
  -- the lines' counters those of the page's line alone change: one more invalid page, one valid page less.
  pub mark_page_invalid-Marked :
      (ops : VictimQueue Q)
      → IsVictimQueue ops
      → get_pg s.ssd p ≡ pg_valid
      → IsCounted s.ssd.sp.pgs_per_blk (get_blk s.ssd p)
      → (let l = s.lines p.blk in (0 < l.vpc) × (l.vpc + l.ipc ≤ s.ssd.sp.pgs_per_line))
      → (s' : LineState Q) × (mark_page_invalid ops s p ≡ some s')
        × Marked s s' p pg_invalid ((s.lines p.blk).ipc + 1) ((s.lines p.blk).vpc - 1)
  unfolding mark_page_invalid get_pg set_blk set_pg set_lun set_ch
  mark_page_invalid-Marked ops v valid c room =
      let spp = s.ssd.sp in
      let line = s.lines p.blk in
      let self = get_blk-set_pg_self s.ssd p pg_invalid in
      let b = get_blk (set_pg s.ssd p pg_invalid) p in
      let vpc : b.vpc ≡ (get_blk s.ssd p).vpc = ap (λ x. x.vpc) self in
      let ipc : b.ipc ≡ (get_blk s.ssd p).ipc = ap (λ x. x.ipc) self in
      let space = valid_room spp.pgs_per_blk (get_blk s.ssd p).pages p.pg inside valid in
      let t1 = lt→ltb b.ipc spp.pgs_per_blk (omega (arith, ipc, c.ipc_counts, space)) in
      let t2 = ≢→== b.vpc 0 (omega (arith, vpc, c.vpc_counts, space)) in
      let t3 = le→not_ltb b.vpc spp.pgs_per_blk (omega (arith, vpc, c.vpc_counts, space)) in
      let t4 = lt→ltb line.ipc spp.pgs_per_line (omega (arith, room)) in
      let t5 = ≢→== line.vpc 0 (omega (arith, room)) in
      let t6 = le→not_ltb line.vpc spp.pgs_per_line (omega (arith, room)) in
      let ssd2 =
        set_blk (set_pg s.ssd p pg_invalid) p (record b { ipc = b.ipc + 1; vpc = b.vpc - 1 }) in
      let line' = record line { ipc = line.ipc + 1 } in
      let s1 = set_line (record s { ssd = ssd2 }) p.blk line' in
      let self_line = update_self s.lines p.blk line' in
      let low : Lowered s1 (lower_vpc ops s1 p.blk) p.blk (line.vpc - 1) =
        subst (λ k. Lowered s1 (lower_vpc ops s1 p.blk) p.blk k) (ap (λ l. l.vpc - 1) self_line)
          (lower_vpc-Lowered ops v s1 p.blk) in
      let marks : (s' : LineState Q)
          → Lowered s1 s' p.blk (line.vpc - 1)
          → Marked s s' p pg_invalid (line.ipc + 1) (line.vpc - 1) =
        λ s' m. record {
          counted = λ q k. rw m.same_ssd (
              marked_counts s.ssd p q pg_invalid (b.ipc + 1) (b.vpc - 1) inside
                (omega (arith, vpc, c.vpc_counts, space, ap valid_page valid))
                (omega (arith, ipc, ap invalid_page valid)) k);
          same_sp = ap (λ d. d.sp) m.same_ssd;
          now =
              ap (λ d. (get_blk d p).pages p.pg) m.same_ssd
              ∙ page_now s.ssd p pg_invalid (b.ipc + 1) (b.vpc - 1);
          line_ipc = m.all_ipc p.blk ∙ ap (λ l. l.ipc) self_line;
          line_vpc = m.lowered;
          other_vpc = λ j n. m.others j n ∙ rw (≢→== j p.blk n) refl;
          other_ipc = λ j n. m.all_ipc j ∙ rw (≢→== j p.blk n) refl;
        } in
      elim (Bool-cases (line.vpc == spp.pgs_per_line)) [
        | inl was_full ↦
            let none_invalid : (line.ipc == 0) ≡ true =
              rw (ipc_zero line.vpc line.ipc spp.pgs_per_line (==→≡ _ _ was_full) room.1) refl in
            (
              full_to_victim ops (lower_vpc ops s1 p.blk) p.blk,
              rw (ap is_valid valid, t1, t2, t3, t4, was_full, none_invalid, t5, t6) refl,
              marks _ (
                  full_to_victim-Lowered ops v s1 p.blk (lower_vpc ops s1 p.blk) (line.vpc - 1)
                    low),
            )
        | inr other ↦ (
          lower_vpc ops s1 p.blk,
          rw (ap is_valid valid, t1, t2, t3, t4, other, t5, t6) refl,
          marks _ low,
        )
      ]
