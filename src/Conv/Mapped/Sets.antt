-- ===== src/Conv/Mapped/Sets.antt =====
-- NVMevirt/conv_ftl.c, do_gc: which pages of the line have moved at each point of the loops.
use xharvest.Base.{
  ℕ, suc, ◌+◌, ◌^◌, ◌≤◌, ◌<◌, ◌≡◌, ◌⊎◌, inl, inr, Bool, true, false, ltb, ◌==◌, if◌then◌else◌, ◌&&◌,
  ◌||◌, not, arith, Bool-cases,
}
use xharvest.Ssd.Nand.{Ppa, same_blk}
use xharvest.Conv.Gc.{gc_ppa}
use xharvest.Conv.Mapped.Flash.{in_range}

-- The dies before that of channel `c` and die `l`, in the order of the loops.
abbrev pub die_before : ℕ → ℕ → Ppa → Bool
die_before c l q = ltb q.ch c || q.ch == c && ltb q.lun l

-- In the row that begins at page `r`, of `n` pages, before the die: the rows before have moved and
-- those dies of this row; in the last row these dies have been erased.
abbrev pub moved_set : Bool → (r n b c l : ℕ) → Ppa → Bool
moved_set last r n b c l q =
    q.blk == b
    && q.pl == 0
    && (if last
        then ltb q.pg r && not (die_before c l q)
        else ltb q.pg r || ltb q.pg (r + n) && die_before c l q)

module _ (r n b c l : ℕ) (q : Ppa) (row : r + n ≤ 2 ^ 16) (some_pages : 0 < n) (blk : b < 2 ^ 16)
    (ch : c < 2 ^ 8) (lun : l < 2 ^ 8) where
  pub range_not_moved :
      (last : Bool) → in_range (gc_ppa b r c l) n q ≡ true → moved_set last r n b c l q ≡ false
  range_not_moved true e = ground arith
  range_not_moved false e = ground arith

  -- The next die, in a row that is not the last.
  pub die_moves :
      (moved_set false r n b c l q ≡ true) ⊎ (in_range (gc_ppa b r c l) n q ≡ true)
      → moved_set false r n b c (suc l) q ≡ true
  die_moves (inl e) = ground arith
  die_moves (inr e) = ground arith

  pub die_moved :
      moved_set false r n b c (suc l) q ≡ true
      → (moved_set false r n b c l q ≡ true) ⊎ (in_range (gc_ppa b r c l) n q ≡ true)
  die_moved e = elim (Bool-cases (moved_set false r n b c l q)) [
    | inl f ↦ inl f
    | inr f ↦ inr (ground arith)
  ]

  -- In the last row.
  pub block_moved :
      same_blk (gc_ppa b r c l) q ≡ true
      → q.pg < r + n
      → (moved_set true r n b c l q ≡ true) ⊎ (in_range (gc_ppa b r c l) n q ≡ true)
  block_moved e h = elim (Bool-cases (ltb q.pg r)) [
    | inl f ↦ inl (ground arith)
    | inr f ↦ inr (ground arith)
  ]

  pub die_erases :
      ((moved_set true r n b c l q ≡ true) ⊎ (in_range (gc_ppa b r c l) n q ≡ true))
      → same_blk (gc_ppa b r c l) q ≡ false
      → moved_set true r n b c (suc l) q ≡ true
  die_erases (inl e) f = ground arith
  die_erases (inr e) f = ground arith

  pub die_erased :
      moved_set true r n b c (suc l) q ≡ true
      → (moved_set true r n b c l q ≡ true) × (same_blk (gc_ppa b r c l) q ≡ false)
  die_erased e = (ground arith, ground arith)

-- What a page of the range is.
pub range_fields :
    (r n b c l : ℕ) (q : Ppa)
    → r + n ≤ 2 ^ 16
    → b < 2 ^ 16
    → c < 2 ^ 8
    → l < 2 ^ 8
    → in_range (gc_ppa b r c l) n q ≡ true
    → (q.ch ≡ c) × (q.lun ≡ l) × (q.pl ≡ 0) × (q.blk ≡ b) × (q.pg < r + n)
range_fields r n b c l q row blk ch lun e = ground arith

-- The next channel, the next row, and the ends.
module _ (r n b c : ℕ) (q : Ppa) where
  pub channel_moved :
      (last : Bool) (luns : ℕ)
      → q.lun < luns
      → moved_set last r n b c luns q ≡ moved_set last r n b (suc c) 0 q
  channel_moved true luns h = ground arith
  channel_moved false luns h = ground arith

  pub row_moved :
      (chs : ℕ) (last : Bool)
      → q.ch < chs
      → 0 < n
      → moved_set false r n b chs 0 q ≡ moved_set last (r + n) n b 0 0 q
  row_moved chs true h p = ground arith
  row_moved chs false h p = ground arith

  pub all_erased : (chs : ℕ) → q.ch < chs → moved_set true r n b chs 0 q ≡ false
  all_erased chs h = ground arith

  pub none_moved : (last : Bool) → moved_set last 0 n b 0 0 q ≡ false
  none_moved true = ground arith
  none_moved false = ground arith
