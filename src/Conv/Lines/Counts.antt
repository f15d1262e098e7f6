-- ===== src/Conv/Lines/Counts.antt =====
-- The counters of blocks and lines count pages.
use xharvest.Base.{
  ℕ, zero, suc, ◌+◌, ◌≤◌, ◌<◌, ◌≡◌, ◌≢◌, true, refl, arith, ◌==◌, if◌then◌else◌, update, sum_below,
  sum_below-update, Bool-cases, inl, inr, ap, ◌∙◌,
}
use mathlib.Core.Path.{fun_ext, subst}
use xharvest.Ssd.Nand.{
  Ppa, PageStatus, pg_free, pg_invalid, pg_valid, NandBlock, Ssd, get_blk, set_pg, set_blk,
  same_blk, get_blk-set_blk,
}
use xharvest.Conv.Lines.{LineState}

abbrev pub valid_page : PageStatus → ℕ
valid_page pg_valid = 1
valid_page _ = 0

abbrev pub invalid_page : PageStatus → ℕ
invalid_page pg_invalid = 1
invalid_page _ = 0

-- How many of the first `n` pages have the weight.
unfoldable pub pages_of : (PageStatus → ℕ) → ℕ → (ℕ → PageStatus) → ℕ
pages_of weight n pages = sum_below n λ i. weight (pages i)

pub pages_of-update :
    (weight : PageStatus → ℕ) (n : ℕ) (pages : ℕ → PageStatus) (i : ℕ) (st : PageStatus)
    → i < n
    → pages_of weight n (update pages i st) + weight (pages i) ≡ pages_of weight n pages + weight st
unfolding pages_of
pages_of-update weight n pages i st h =
    let same : (λ j. weight (update pages i st j)) ≡ update (λ j. weight (pages j)) i (weight st) =
      fun_ext λ j. elim (Bool-cases (j == i)) [ inl e ↦ rw e refl | inr e ↦ rw e refl ] in
    ap (λ a. sum_below n a + weight (pages i)) same
    ∙ sum_below-update n (λ j. weight (pages j)) i (weight st) h

-- A block's counters say how many of its pages are valid and invalid.
pub record IsCounted (n : ℕ) (b : NandBlock) : Type 0 where
  pub vpc_counts : b.vpc ≡ pages_of valid_page n b.pages
  pub ipc_counts : b.ipc ≡ pages_of invalid_page n b.pages

-- Room: valid and invalid pages together are at most all, and fewer if one page is free.
pub pages_of-room :
    (n : ℕ) (pages : ℕ → PageStatus)
    → pages_of valid_page n pages + pages_of invalid_page n pages ≤ n
unfolding pages_of sum_below
pages_of-room zero pages = omega arith
pages_of-room (suc n) pages =
    let one : valid_page (pages n) + invalid_page (pages n) ≤ 1 = at_most (pages n) in
    omega (arith, one, pages_of-room n pages)
  where
    at_most : (st : PageStatus) → valid_page st + invalid_page st ≤ 1
    at_most pg_free = omega arith
    at_most pg_invalid = omega arith
    at_most pg_valid = omega arith

pub free_room :
    (n : ℕ) (pages : ℕ → PageStatus) (i : ℕ)
    → i < n
    → pages i ≡ pg_free
    → pages_of valid_page n pages < n
free_room n pages i h e =
    let taken = pages_of-update invalid_page n pages i pg_invalid h in
    let valid = pages_of-update valid_page n pages i pg_invalid h in
    let zero_weights : (invalid_page (pages i) ≡ 0) × (valid_page (pages i) ≡ 0) =
      (ap invalid_page e, ap valid_page e) in
    omega (arith, taken, valid, zero_weights, pages_of-room n (update pages i pg_invalid))

-- The block of a page whose status and block's counters are written, and the other blocks.
unfoldable pub marked : NandBlock → ℕ → PageStatus → ℕ → ℕ → NandBlock
marked b i st ipc vpc = record b { pages = update b.pages i st; ipc = ipc; vpc = vpc }

abbrev the_record : NandBlock → ℕ → ℕ → NandBlock
the_record b i v = record b { ipc = i; vpc = v }

pub same_blk_self : (p : Ppa) → same_blk p p ≡ true
same_blk_self p = ground arith

get_blk-set_pg :
    (ssd : Ssd) (p q : Ppa) (st : PageStatus)
    → get_blk (set_pg ssd p st) q ≡ (
        if same_blk p q
        then (let b = get_blk ssd p in record b { pages = update b.pages p.pg st })
        else get_blk ssd q)
unfolding set_pg
get_blk-set_pg ssd p q st = get_blk-set_blk ssd p q _

pub get_blk-set_pg_self :
    (ssd : Ssd) (p : Ppa) (st : PageStatus)
    → get_blk (set_pg ssd p st) p
      ≡ (let b = get_blk ssd p in record b { pages = update b.pages p.pg st })
get_blk-set_pg_self ssd p st = get_blk-set_pg ssd p p st ∙ rw (same_blk_self p) refl

pub get_blk-marked :
    (ssd : Ssd) (p q : Ppa) (st : PageStatus) (ipc vpc : ℕ)
    → get_blk
        (set_blk
          (set_pg ssd p st)
          p
          (record (get_blk (set_pg ssd p st) p) { ipc = ipc; vpc = vpc }))
        q
      ≡ (if same_blk p q then marked (get_blk ssd p) p.pg st ipc vpc else get_blk ssd q)
unfolding marked
get_blk-marked ssd p q st ipc vpc =
    let two =
      get_blk-set_blk (set_pg ssd p st) p q
        (record (get_blk (set_pg ssd p st) p) { ipc = ipc; vpc = vpc }) in
    elim (Bool-cases (same_blk p q)) [
      | inl e ↦ rw (two, e) (ap (λ b. the_record b ipc vpc) (get_blk-set_pg_self ssd p st))
      | inr e ↦ rw (two, e) (get_blk-set_pg ssd p q st ∙ rw e refl)
    ]

-- The counters after one page changed its status.
marked-IsCounted :
    (n : ℕ) (b : NandBlock) (i : ℕ) (st : PageStatus) (ipc vpc : ℕ)
    → i < n
    → IsCounted n b
    → vpc + valid_page (b.pages i) ≡ b.vpc + valid_page st
    → ipc + invalid_page (b.pages i) ≡ b.ipc + invalid_page st
    → IsCounted n (marked b i st ipc vpc)
unfolding marked
marked-IsCounted n b i st ipc vpc h c v w = record {
  vpc_counts = omega (arith, v, c.vpc_counts, pages_of-update valid_page n b.pages i st h);
  ipc_counts = omega (arith, w, c.ipc_counts, pages_of-update invalid_page n b.pages i st h);
}

-- What a mark leaves: counted blocks stay counted, the page has its status, the line's counters moved.
pub record Marked {Q : Type 0} (s s' : LineState Q) (p : Ppa) (st : PageStatus) (ipc vpc : ℕ)
    : Type 0 where
  pub counted :
      (q : Ppa)
      → IsCounted s.ssd.sp.pgs_per_blk (get_blk s.ssd q)
      → IsCounted s.ssd.sp.pgs_per_blk (get_blk s'.ssd q)
  pub same_sp : s'.ssd.sp ≡ s.ssd.sp
  pub now : (get_blk s'.ssd p).pages p.pg ≡ st
  pub line_ipc : (s'.lines p.blk).ipc ≡ ipc
  pub line_vpc : (s'.lines p.blk).vpc ≡ vpc
  pub other_vpc : (j : ℕ) → j ≢ p.blk → (s'.lines j).vpc ≡ (s.lines j).vpc
  pub other_ipc : (j : ℕ) → j ≢ p.blk → (s'.lines j).ipc ≡ (s.lines j).ipc

pub same_blk-get_blk : (ssd : Ssd) (p q : Ppa) → same_blk p q ≡ true → get_blk ssd q ≡ get_blk ssd p
unfolding get_blk
same_blk-get_blk ssd p q e = ground arith

pub marked_counts :
    (ssd : Ssd) (p q : Ppa) (st : PageStatus) (ipc vpc : ℕ)
    → p.pg < ssd.sp.pgs_per_blk
    → (let b = get_blk ssd p in vpc + valid_page (b.pages p.pg) ≡ b.vpc + valid_page st)
    → (let b = get_blk ssd p in ipc + invalid_page (b.pages p.pg) ≡ b.ipc + invalid_page st)
    → IsCounted ssd.sp.pgs_per_blk (get_blk ssd q)
    → IsCounted ssd.sp.pgs_per_blk (
        get_blk
          (set_blk
            (set_pg ssd p st)
            p
            (record (get_blk (set_pg ssd p st) p) { ipc = ipc; vpc = vpc }))
          q)
marked_counts ssd p q st ipc vpc h v w c =
    rw (get_blk-marked ssd p q st ipc vpc) (elim (Bool-cases (same_blk p q)) [
      | inl e ↦ rw e (
          marked-IsCounted _ _ _ st ipc vpc h
            (subst (IsCounted ssd.sp.pgs_per_blk) (same_blk-get_blk ssd p q e) c) v w)
      | inr e ↦ rw e c
    ])
