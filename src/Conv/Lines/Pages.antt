-- ===== src/Conv/Lines/Pages.antt =====
-- NVMevirt/conv_ftl.c: which pages the marks change, where they succeed.
use xharvest.Base.{
  ℕ, ◌+◌, ◌-◌, ◌≡◌, ◌<◌, Bool, true, false, Option, none, some, ltb, ◌==◌, if◌then◌else◌, refl,
  arith, sym, ◌∙◌, ap, Bool-cases, inl, inr, if-eq-some, none≢some, some_inj, ◌&&◌, ◌||◌, not, fill,
}
use mathlib.Core.Path.{subst}
use xharvest.Ssd.Nand.{
  Ppa, PageStatus, pg_free, pg_invalid, pg_valid, NandBlock, Ssd, get_pg, get_blk, set_pg, set_blk,
  set_lun, set_ch, same_blk, same_pg, get_blk-set_blk,
}
use xharvest.Conv.Lines.{
  LineState, VictimQueue, is_free, is_valid, set_line, mark_page_valid, mark_page_invalid,
  mark_block_free, lower_vpc, full_to_victim,
}
use xharvest.Conv.Lines.Counts.{get_blk-marked, same_blk-get_blk, marked}

-- One page has a new status.
pub record Repaged (a b : Ssd) (p : Ppa) (st : PageStatus) : Type 0 where
  pub same_sp : b.sp ≡ a.sp
  pub pages : (q : Ppa) → get_pg b q ≡ (if same_pg p q then st else get_pg a q)

marked-pages :
    (ssd : Ssd) (p q : Ppa) (st : PageStatus) (ipc vpc : ℕ)
    → get_pg
        (set_blk
          (set_pg ssd p st)
          p
          (record (get_blk (set_pg ssd p st) p) { ipc = ipc; vpc = vpc }))
        q
      ≡ (if same_pg p q then st else get_pg ssd q)
unfolding get_pg marked
marked-pages ssd p q st ipc vpc =
    ap (λ b. b.pages q.pg) (get_blk-marked ssd p q st ipc vpc) ∙ elim (Bool-cases (same_blk p q)) [
      | inl e ↦ rw e (elim (Bool-cases (q.pg == p.pg)) [
        | inl f ↦ rw f refl
        | inr f ↦ rw f (ap (λ b. b.pages q.pg) (sym (same_blk-get_blk ssd p q e)))
      ])
      | inr e ↦ rw e refl
    ]

is_free-eq : (st : PageStatus) → is_free st ≡ true → st ≡ pg_free
is_free-eq pg_free e = refl
is_free-eq pg_invalid e = cc
is_free-eq pg_valid e = cc

pub is_valid-eq : (st : PageStatus) → is_valid st ≡ true → st ≡ pg_valid
is_valid-eq pg_free e = cc
is_valid-eq pg_invalid e = cc
is_valid-eq pg_valid e = refl

-- What an assertion that did not fail says.
pub asserted {ℓ} :
    {A : Type ℓ} (b : Bool) (m : Option A) {a : A}
    → (if not b then none else m) ≡ some a
    → (b ≡ true) × (m ≡ some a)
asserted true m h = (refl, h)
asserted false m h = absurd (none≢some h)

pub excluded {ℓ} :
    {A : Type ℓ} (b : Bool) (m : Option A) {a : A}
    → (if b then none else m) ≡ some a
    → (b ≡ false) × (m ≡ some a)
excluded true m h = absurd (none≢some h)
excluded false m h = (refl, h)

lower_vpc-ssd :
    {Q : Type 0} (ops : VictimQueue Q) (s : LineState Q) (i : ℕ) → (lower_vpc ops s i).ssd ≡ s.ssd
unfolding lower_vpc
lower_vpc-ssd ops s i = elim (Bool-cases ((s.lines i).pos == 0)) [
  | inl e ↦ rw e refl
  | inr e ↦ rw e refl
]

full_to_victim-ssd :
    {Q : Type 0} (ops : VictimQueue Q) (s : LineState Q) (i : ℕ)
    → (full_to_victim ops s i).ssd ≡ s.ssd
unfolding full_to_victim
full_to_victim-ssd ops s i = refl

settled :
    {Q : Type 0} (ops : VictimQueue Q) (s : LineState Q) (i : ℕ) (full : Bool)
    → (if full then full_to_victim ops s i else s).ssd ≡ s.ssd
settled ops s i true = full_to_victim-ssd ops s i
settled ops s i false = refl

module _ {Q : Type 0} (s s' : LineState Q) (p : Ppa) where
  pub mark_page_valid-Repaged :
      mark_page_valid s p ≡ some s' → (get_pg s.ssd p ≡ pg_free) × Repaged s.ssd s'.ssd p pg_valid
  unfolding mark_page_valid set_blk set_pg set_lun set_ch
  mark_page_valid-Repaged h =
      let (f, h1) = asserted (is_free (get_pg s.ssd p)) _ h in
      let (a, h2) = asserted (ltb _ s.ssd.sp.pgs_per_blk) _ h1 in
      let (b, h3) = asserted (ltb (s.lines p.blk).vpc s.ssd.sp.pgs_per_line) _ h2 in
      (
        is_free-eq _ f,
        subst (λ d. Repaged s.ssd d p pg_valid) (ap (λ x. x.ssd) (some_inj h3))
            (record { same_sp = refl; pages = λ q. marked-pages s.ssd p q pg_valid _ _ }),
      )

  pub mark_page_invalid-Repaged :
      (ops : VictimQueue Q)
      → mark_page_invalid ops s p ≡ some s'
      → (get_pg s.ssd p ≡ pg_valid) × Repaged s.ssd s'.ssd p pg_invalid
  unfolding mark_page_invalid set_blk set_pg set_lun set_ch
  mark_page_invalid-Repaged ops h =
      let full = (s.lines p.blk).vpc == s.ssd.sp.pgs_per_line in
      let (v, h1) = asserted (is_valid (get_pg s.ssd p)) _ h in
      let spp = s.ssd.sp in
      let line = s.lines p.blk in
      let b = get_blk (set_pg s.ssd p pg_invalid) p in
      let ssd2 =
        set_blk (set_pg s.ssd p pg_invalid) p (record b { ipc = b.ipc + 1; vpc = b.vpc - 1 }) in
      let s1 = set_line (record s { ssd = ssd2 }) p.blk (record line { ipc = line.ipc + 1 }) in
      let (a, h2) =
        excluded (not (ltb b.ipc spp.pgs_per_blk) || b.vpc == 0 || ltb spp.pgs_per_blk b.vpc) _
          h1 in
      let (c, h3) =
        excluded (not (ltb line.ipc spp.pgs_per_line) || full && not (line.ipc == 0)) _ h2 in
      let (d, h4) = excluded (line.vpc == 0 || ltb spp.pgs_per_line line.vpc) _ h3 in
      let base =
        sym (lower_vpc-ssd ops s1 p.blk)
        ∙ sym (settled ops (lower_vpc ops s1 p.blk) p.blk full)
        ∙ ap (λ x. x.ssd) (some_inj h4) in
      (
        is_valid-eq _ v,
        subst (λ d. Repaged s.ssd d p pg_invalid) base
            (record { same_sp = refl; pages = λ q. marked-pages s.ssd p q pg_invalid _ _ }),
      )

  -- A freed block: its pages are free, and those of other blocks as they were.
  pub mark_block_free-pages :
      mark_block_free s p ≡ some s'
      → (s'.ssd.sp ≡ s.ssd.sp)
        × ((q : Ppa) → same_blk p q ≡ false → get_pg s'.ssd q ≡ get_pg s.ssd q)
        × ((q : Ppa)
            → same_blk p q ≡ true
            → q.pg < s.ssd.sp.pgs_per_blk
            → get_pg s'.ssd q ≡ pg_free)
  unfolding mark_block_free get_pg set_blk
  mark_block_free-pages h =
      let b = get_blk s.ssd p in
      let n = s.ssd.sp.pgs_per_blk in
      let freed : NandBlock = record b {
        pages = fill b.pages 0 pg_free n;
        ipc = 0;
        vpc = 0;
        erase_cnt = b.erase_cnt + 1;
      } in
      elim (if-eq-some (b.npgs == n) _ none h) [
        | inr (e, m) ↦ absurd (none≢some m)
        | inl (e, m) ↦
            let same : s'.ssd ≡ set_blk s.ssd p freed = ap (λ x. x.ssd) (sym (some_inj m)) in
            (
              ap (λ d. d.sp) same,
              λ q o.
                  ap (λ d. (get_blk d q).pages q.pg) same
                  ∙ ap (λ x. x.pages q.pg) (get_blk-set_blk s.ssd p q freed)
                  ∙ rw o refl,
              λ q o i.
                  ap (λ d. (get_blk d q).pages q.pg) same
                  ∙ ap (λ x. x.pages q.pg) (get_blk-set_blk s.ssd p q freed)
                  ∙ rw o (ground arith),
            )
      ]
