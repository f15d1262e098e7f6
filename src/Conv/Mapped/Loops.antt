-- ===== src/Conv/Mapped/Loops.antt =====
-- NVMevirt/conv_ftl.c, do_gc: garbage collection moves every valid page of a line and erases it.
use xharvest.Base.{
  ℕ, suc, ◌-◌, ◌*◌, ◌%◌, ◌^◌, ◌<◌, ◌≡◌, inl, inr, Bool, true, false, none, some, ltb, not, ◌&&◌,
  ◌/◌, ◌==◌, refl, arith, sym, ◌∙◌, ap, some_inj, none≢some, if-eq-some, >>=-eq-some, ≢→==,
  Option-cases,
}
use mathlib.Core.Path.{subst}
use native.Mathlib.Nat.{suc-mul}
use xharvest.Ssd.Params.{SsdParams}
use xharvest.Ssd.Nand.{Ppa, Ssd, get_pg}
use xharvest.Conv.Index.{IsPage}
use xharvest.Conv.Lines.{LineState, mark_line_free}
use xharvest.Conv.Ftl.{LineQueue, ConvFtl, with_lines}
use xharvest.Conv.Gc.{
  each_below, gc_die, gc_line, gc_ppa, select_victim_line, do_gc, collect_victim,
}
use xharvest.Conv.Mapped.{NoLpn, NoPage, IsPage-same_sp}
use xharvest.Conv.Mapped.Collect.{IsSoundBut-moved}
use xharvest.Conv.Mapped.Steps.{IsSoundBut, IsSound, Quiet, IsSoundBut-Quiet}
use xharvest.Conv.Mapped.Erased.{IsCollected, IsCollected-Quiet}
use xharvest.Conv.Mapped.Sets.{moved_set, channel_moved, row_moved, all_erased, none_moved}
use xharvest.Conv.Mapped.Rows.{each_below-keeps, MovedAt, flash_pages}
use xharvest.Conv.Mapped.Line.{gc_die-IsCollected}

pub IsCollected-trans :
    {Q : Type 0} (a b c : ConvFtl Q) (M M' : Ppa → Type 0)
    → IsCollected a b M
    → IsCollected b c M'
    → IsCollected a c M'
IsCollected-trans a b c M M' k l = record {
  sound = l.sound;
  same_sp = l.same_sp ∙ k.same_sp;
  same_lpns = λ j. l.same_lpns j ∙ k.same_lpns j;
}

-- The moved pages by another test.
IsCollected-test :
    {Q : Type 0} (a b : ConvFtl Q) (t t' : Ppa → Bool)
    → ((q : Ppa) → IsPage a.lm.ssd q → t q ≡ t' q)
    → IsCollected a b (λ q. t q ≡ true)
    → IsCollected a b (λ q. t' q ≡ true)
IsCollected-test a b t t' e k =
    let back =
      λ (q : Ppa) (h : IsPage b.lm.ssd q). IsPage-same_sp b.lm.ssd a.lm.ssd q (sym k.same_sp) h in
    record {
      sound =
          IsSoundBut-moved b (λ q. t q ≡ true) (λ q. t' q ≡ true)
            (λ q h m. sym (e q (back q h)) ∙ m) (λ q h m. e q (back q h) ∙ m) k.sound;
      same_sp = k.same_sp;
      same_lpns = k.same_lpns;
    }

module _ {Q : Type 0} (ops : LineQueue Q) (clock : ℕ → ℕ → ℕ) (ftl : ConvFtl Q) (b : ℕ)
    (line : b < ftl.lm.ssd.sp.blks_per_pl) where
  -- One die, after whatever was collected before.
  die_step :
      (f c l : ℕ) (x y : ConvFtl Q)
      → (let sp = ftl.lm.ssd.sp in (f < sp.flashpgs_per_blk) × (c < sp.nchs) × (l < sp.luns_per_ch))
      → IsCollected ftl x (MovedAt ftl.lm.ssd.sp b f c l)
      → gc_die ops clock b f c l x ≡ some y
      → IsCollected ftl y (MovedAt ftl.lm.ssd.sp b f c (suc l))
  die_step f c l x y (jf, ic, il) k h =
      let e = k.same_sp in
      let bounds =
        subst
          (λ (sp : SsdParams).
            (b < sp.blks_per_pl) × (f < sp.flashpgs_per_blk) × (c < sp.nchs) × (l < sp.luns_per_ch))
          (sym e) (line, jf, ic, il) in
      let here =
        subst (λ (sp : SsdParams). IsSoundBut x NoLpn (MovedAt sp b f c l)) (sym e) k.sound in
      let next = gc_die-IsCollected ops clock x b f c l y bounds here h in
      IsCollected-trans ftl x y (MovedAt ftl.lm.ssd.sp b f c l)
        (MovedAt ftl.lm.ssd.sp b f c (suc l)) k
        (subst (λ (sp : SsdParams). IsCollected x y (MovedAt sp b f c (suc l))) e next)

  channel_step :
      (f c : ℕ) (x y : ConvFtl Q)
      → (let sp = ftl.lm.ssd.sp in (f < sp.flashpgs_per_blk) × (c < sp.nchs))
      → IsCollected ftl x (MovedAt ftl.lm.ssd.sp b f c 0)
      → each_below ftl.lm.ssd.sp.luns_per_ch (gc_die ops clock b f c) x ≡ some y
      → IsCollected ftl y (MovedAt ftl.lm.ssd.sp b f (suc c) 0)
  channel_step f c x y (jf, ic) k h =
      let sp = ftl.lm.ssd.sp in
      let r = f * sp.pgs_per_flashpg in
      let last = f == sp.flashpgs_per_blk - 1 in
      let all =
        each_below-keeps (λ l z. IsCollected ftl z (MovedAt sp b f c l)) sp.luns_per_ch
          (gc_die ops clock b f c) x y (λ l u v il i e. die_step f c l u v (jf, ic, il) i e) k h in
      IsCollected-test ftl y (moved_set last r sp.pgs_per_flashpg b c sp.luns_per_ch)
        (moved_set last r sp.pgs_per_flashpg b (suc c) 0)
        (λ q p. channel_moved r sp.pgs_per_flashpg b c q last sp.luns_per_ch p.lun_in) all

  -- Before flash page `i` of the blocks, or at the end.
  record AtRow (i : ℕ) (x : ConvFtl Q) : Type 0 where
    row : i < ftl.lm.ssd.sp.flashpgs_per_blk → IsCollected ftl x (MovedAt ftl.lm.ssd.sp b i 0 0)
    ended : i ≡ ftl.lm.ssd.sp.flashpgs_per_blk → IsCollected ftl x NoPage

  row_step :
      (f : ℕ) (x y : ConvFtl Q)
      → IsSound ftl
      → f < ftl.lm.ssd.sp.flashpgs_per_blk
      → AtRow f x
      → each_below ftl.lm.ssd.sp.nchs
          (λ ch. each_below ftl.lm.ssd.sp.luns_per_ch (gc_die ops clock b f ch))
          x
        ≡ some y
      → AtRow (suc f) y
  row_step f x y s jf k h =
      let ssd = ftl.lm.ssd in
      let sp = ssd.sp in
      let n = sp.pgs_per_flashpg in
      let layout = let d = s.device in d.layout in
      let all =
        each_below-keeps (λ c z. IsCollected ftl z (MovedAt sp b f c 0)) sp.nchs
          (λ ch. each_below sp.luns_per_ch (gc_die ops clock b f ch)) x y
          (λ c u v ic i e. channel_step f c u v (jf, ic) i e) (k.row jf) h in
      let whole = λ (t : Bool) (e : (f == sp.flashpgs_per_blk - 1) ≡ t).
        subst (λ z. IsCollected ftl y (λ q. moved_set z (f * n) n b sp.nchs 0 q ≡ true)) e all in
      record {
        row = λ i.
            let inner = ≢→== f (sp.flashpgs_per_blk - 1) (λ z. omega (arith, i, z)) in
            let next = suc f == sp.flashpgs_per_blk - 1 in
            IsCollected-test ftl y (moved_set false (f * n) n b sp.nchs 0)
              (moved_set next (suc f * n) n b 0 0)
              (λ q p.
                row_moved (f * n) n b 0 q sp.nchs next p.ch_in
                  (flash_pages ssd q layout.block_flash p)
                ∙ ap (λ r. moved_set next r n b 0 0 q) (sym (suc-mul f n)))
              (whole false inner);
        ended = λ i.
            let outer : (f == sp.flashpgs_per_blk - 1) ≡ true =
              let e : f ≡ sp.flashpgs_per_blk - 1 = omega (arith, i) in ground arith in
            let end = whole true outer in
            record {
              sound =
                  IsSoundBut-moved y (λ q. moved_set true (f * n) n b sp.nchs 0 q ≡ true) NoPage
                    (λ q p m.
                      let there = IsPage-same_sp y.lm.ssd ssd q (sym end.same_sp) p in
                      cc (all_erased (f * n) n b 0 q sp.nchs there.ch_in))
                    (λ q p m. absurd m) end.sound;
              same_sp = end.same_sp;
              same_lpns = end.same_lpns;
            };
      }

  pub gc_line-IsCollected :
      (y : ConvFtl Q) → IsSound ftl → gc_line ops clock b ftl ≡ some y → IsCollected ftl y NoPage
  unfolding gc_line
  gc_line-IsCollected y s h =
      let sp = ftl.lm.ssd.sp in
      let same : IsCollected ftl ftl NoPage = record {
        sound = s;
        same_sp = refl;
        same_lpns = λ j. refl;
      } in
      let start : AtRow 0 ftl = record {
        row = λ i. record {
          sound =
              IsSoundBut-moved ftl NoPage (MovedAt sp b 0 0 0) (λ q p m. absurd m)
                (λ q p m.
                  let first = 0 == sp.flashpgs_per_blk - 1 in
                  let n = sp.pgs_per_flashpg in
                  let zero_row : 0 * n ≡ 0 = omega arith in
                  let none_yet =
                    ap (λ r. moved_set first r n b 0 0 q) zero_row ∙ none_moved 0 n b 0 q first in
                  cc none_yet)
                s;
          same_sp = refl;
          same_lpns = λ j. refl;
        };
        ended = λ i. same;
      } in
      let end =
        each_below-keeps AtRow sp.flashpgs_per_blk
          (λ flashpg.
            each_below sp.nchs (λ ch. each_below sp.luns_per_ch (gc_die ops clock b flashpg ch)))
          ftl y (λ f u v jf i e. row_step f u v s jf i e) start h in
      end.ended refl

pub select_victim_line-ssd :
    {Q : Type 0} (ops : LineQueue Q) (lm lm' : LineState Q) (force : Bool) (i : ℕ)
    → select_victim_line ops lm force ≡ some (i, lm')
    → lm'.ssd ≡ lm.ssd
unfolding select_victim_line
select_victim_line-ssd ops lm lm' force i h =
    let (v, e, h1) = >>=-eq-some (ops.peek lm.victim_line_pq) _ h in
    elim (if-eq-some (not force && ltb (lm.ssd.sp.pgs_per_line / 8) (lm.lines v).vpc) none _ h1) [
      | inl (b, q) ↦ absurd (none≢some q)
      | inr (b, q) ↦ ap (λ x. let l = x.1 in l.ssd) (sym (some_inj q))
    ]

-- The lines and the credits change; the SSD, the maps and the pointers do not.
pub same_ssd-Quiet :
    {Q : Type 0} (a b : ConvFtl Q)
    → b.lm.ssd ≡ a.lm.ssd
    → b.maptbl ≡ a.maptbl
    → b.rmap ≡ a.rmap
    → b.wp ≡ a.wp
    → b.gc_wp ≡ a.gc_wp
    → Quiet a b
same_ssd-Quiet a b e t r u g = record {
  same = record {
    same_sp = ap (λ d. d.sp) e;
    same_pages = λ q. ap (λ d. get_pg d q) e;
    same_maptbl = t;
    same_rmap = r;
  };
  same_wp = u;
  same_gc_wp = g;
}

collect_victim-IsCollected :
    {Q : Type 0} (ops : LineQueue Q) (clock : ℕ → ℕ → ℕ) (ftl ftl' : ConvFtl Q) (i : ℕ)
    (lm : LineState Q) (had_victim : Bool)
    → IsSound ftl
    → lm.ssd ≡ ftl.lm.ssd
    → (lm.lines i).id < ftl.lm.ssd.sp.blks_per_pl
    → collect_victim ops clock ftl i lm ≡ some (had_victim, ftl')
    → IsCollected ftl ftl' NoPage
unfolding collect_victim mark_line_free
collect_victim-IsCollected {Q} ops clock ftl ftl' i lm had_victim s same inside h =
    let blk = (lm.lines i).id % 2 ^ 16 in
    let start : ConvFtl Q = record ftl { lm = lm; credits_to_refill = (lm.lines i).ipc } in
    let quiet = same_ssd-Quiet ftl start same refl refl refl refl in
    let sound = IsSoundBut-Quiet ftl start NoLpn NoPage quiet s in
    let d = sound.device in
    let below : blk < lm.ssd.sp.blks_per_pl =
      omega (arith, inside, ap (λ (x : Ssd). x.sp.blks_per_pl) same) in
    let (f, e, h1) = >>=-eq-some (gc_line ops clock blk start) _ h in
    let done = gc_line-IsCollected ops clock start blk below f sound e in
    let all =
      IsCollected-trans ftl start f NoPage NoPage
        (record { sound = sound; same_sp = ap (λ x. x.sp) same; same_lpns = λ j. refl }) done in
    let freed = mark_line_free f.lm (gc_ppa blk 0 0 0) in
    subst (λ (x : Bool × ConvFtl Q). IsCollected ftl x.1 NoPage) (some_inj h1)
      (IsCollected-Quiet ftl f (with_lines f freed) NoPage all
        (same_ssd-Quiet f (with_lines f freed) refl refl refl refl refl))

-- Garbage collection that ends without a fault keeps the maps, the page states and the pointers right,
-- and the same LPNs are mapped as before, if the victim is a line of the device.
pub do_gc-IsCollected :
    {Q : Type 0} (ops : LineQueue Q) (clock : ℕ → ℕ → ℕ) (ftl ftl' : ConvFtl Q)
    (force had_victim : Bool)
    → IsSound ftl
    → ((i : ℕ) (lm : LineState Q)
        → select_victim_line ops ftl.lm force ≡ some (i, lm)
        → (lm.lines i).id < ftl.lm.ssd.sp.blks_per_pl)
    → do_gc ops clock ftl force ≡ some (had_victim, ftl')
    → IsCollected ftl ftl' NoPage
unfolding do_gc
do_gc-IsCollected {Q} ops clock ftl ftl' force had_victim s inside h =
    let same : IsCollected ftl ftl NoPage = record {
      sound = s;
      same_sp = refl;
      same_lpns = λ j. refl;
    } in
    elim (Option-cases (select_victim_line ops ftl.lm force)) [
      | inl e ↦
          let h1 = rw (e, do_gc) at h in
          subst (λ (x : Bool × ConvFtl Q). IsCollected ftl x.1 NoPage) (some_inj h1) same
      | inr ((i, lm), e) ↦
          let h1 = rw (e, do_gc) at h in
          collect_victim-IsCollected ops clock ftl ftl' i lm had_victim s
            (select_victim_line-ssd ops ftl.lm lm force i e) (inside i lm e) h1
    ]
