-- ===== src/Conv/Mapped/Write.antt =====
-- NVMevirt/conv_ftl.c, conv_write: a write of one LPN keeps the maps right.
use xharvest.Base.{
  Bool, ℕ, ◌<◌, ◌≡◌, ◌≢◌, inl, inr, true, some, ◌==◌, refl, arith, sym, ◌∙◌, ap, some_inj,
  if-eq-some, >>=-eq-some,
}
use mathlib.Core.Path.{subst}
use xharvest.Ssd.Params.{SsdParams}
use xharvest.Ssd.Nand.{Ppa}
use xharvest.Conv.{mapped_ppa, last_pg_in_wordline}
use xharvest.Conv.Lines.{LineState}
use xharvest.Conv.Ftl.{
  LineQueue, IsLineQueue, user_io, ConvFtl, maps, place_page, advance_nand, consume_write_credit,
  should_gc_high,
}
use xharvest.Conv.Gc.{select_victim_line, do_gc, foreground_gc, check_and_refill_write_credit}
use xharvest.Conv.Io.{drop_old, WriteState, program_wordline, write_lpn}
use xharvest.Conv.Mapped.{NoLpn, NoPage}
use xharvest.Conv.Mapped.Place.{Placed-IsMapped}
use xharvest.Conv.Mapped.Steps.{
  IsSound, Quiet, IsSoundBut-Quiet, place_page-IsPlaced, advance_nand-Quiet, device-same_sp,
}
use xharvest.Conv.Mapped.Loops.{same_ssd-Quiet, do_gc-IsCollected}
use xharvest.Conv.Mapped.Inside.{select_victim_line-AreInside, AreInside}
use xharvest.Conv.Mapped.Within.{
  IsInside, IsInside-lines, place_page-IsInside, advance_nand-IsInside,
}
use xharvest.Conv.Mapped.Dropped.{drop_old-IsDropped, drop_old-IsInside}
use xharvest.Conv.Mapped.Staying.{do_gc-IsInside}

-- The FTL's invariant, with its pointers and its victims on lines of the device.
pub record IsRunning {Q : Type 0} {ops : LineQueue Q} (k : IsLineQueue ops) (ftl : ConvFtl Q)
    : Type 0 where
  pub sound : IsSound ftl
  pub inside : IsInside k ftl.lm.ssd.sp.blks_per_pl ftl

-- The pages change hands, and the same LPNs are mapped but for `lpn`.
pub record IsWritten {Q : Type 0} {ops : LineQueue Q} (k : IsLineQueue ops) (ftl ftl' : ConvFtl Q)
    (lpn : ℕ) : Type 0 where
  pub running : IsRunning k ftl'
  pub same_sp : ftl'.lm.ssd.sp ≡ ftl.lm.ssd.sp
  pub written : mapped_ppa (ftl'.maptbl lpn) ≡ true
  pub others : (j : ℕ) → j ≢ lpn → mapped_ppa (ftl'.maptbl j) ≡ mapped_ppa (ftl.maptbl j)

pub IsInside-same_sp :
    {Q : Type 0} {ops : LineQueue Q} (k : IsLineQueue ops) (a b : ConvFtl Q)
    → b.lm.ssd.sp ≡ a.lm.ssd.sp
    → IsInside k a.lm.ssd.sp.blks_per_pl b
    → IsInside k b.lm.ssd.sp.blks_per_pl b
IsInside-same_sp k a b e i = subst (λ (sp : SsdParams). IsInside k sp.blks_per_pl b) (sym e) i

-- The victim is a line of the device.
pub victim-inside :
    {Q : Type 0} {ops : LineQueue Q} (k : IsLineQueue ops) (ftl : ConvFtl Q) (force : Bool)
    → IsRunning k ftl
    → (i : ℕ) (lm : LineState Q) → select_victim_line ops ftl.lm force ≡ some (i, lm)
    → (lm.lines i).id < ftl.lm.ssd.sp.blks_per_pl
victim-inside k ftl force run i lm v =
    let inside = run.inside in
    let (there, below) =
      select_victim_line-AreInside k ftl.lm.ssd.sp.blks_per_pl ftl.lm lm force i v inside.lines in
    omega (arith, below, there.ids i)

module _ {Q : Type 0} {ops : LineQueue Q} (k : IsLineQueue ops) (clock : ℕ → ℕ → ℕ) where
  -- The old page becomes invalid, and the LPN has a new one.
  replace_page-IsWritten :
      (ftl ftl1 ftl2 : ConvFtl Q) (lpn : ℕ) (new : Ppa)
      → lpn < ftl.lm.ssd.sp.tt_pgs
      → IsRunning k ftl
      → drop_old ops ftl lpn ≡ some ftl1
      → place_page ops user_io ftl1 lpn ≡ some (new, ftl2)
      → IsWritten k ftl ftl2 lpn
  replace_page-IsWritten ftl ftl1 ftl2 lpn new range run h1 h2 =
      let d = drop_old-IsDropped ops ftl ftl1 lpn range run.sound h1 in
      let sound = d.sound in
      let p = place_page-IsPlaced ops user_io ftl1 ftl2 lpn new sound.device sound.pointers h2 in
      let pl = p.placed in
      let sp : ftl2.lm.ssd.sp ≡ ftl.lm.ssd.sp = pl.same_sp ∙ d.same_sp in
      let blks = ftl.lm.ssd.sp.blks_per_pl in
      let in_range = subst (λ (x : SsdParams). lpn < x.tt_pgs) (sym d.same_sp) range in
      let right =
        Placed-IsMapped (maps ftl1) (maps ftl2) lpn new pl NoPage NoPage in_range sound.maps_right
          (λ q x. x) (λ q i v a. d.gone q i v a) (λ q i x. absurd x) (λ q i x. absurd x) in
      let inside =
        place_page-IsInside k blks user_io ftl1 ftl2 lpn new h2
          (drop_old-IsInside k ftl ftl1 lpn range run.sound h1 run.inside) in
      record {
        running = record {
          sound = record {
            device = device-same_sp ftl1.lm.ssd ftl2.lm.ssd pl.same_sp sound.device;
            maps_right = right;
            pointers = p.pointers;
          };
          inside = IsInside-same_sp k ftl ftl2 sp inside;
        };
        same_sp = sp;
        written = ap mapped_ppa pl.now ∙ pl.new_mapped;
        others = λ j n. ap mapped_ppa (pl.others j n ∙ ap (λ (t : ℕ → Ppa). t j) d.same_maptbl);
      }

  -- What is quiet and stays inside keeps all this.
  pub IsWritten-Quiet :
      (a b c : ConvFtl Q) (lpn : ℕ)
      → Quiet b c
      → (IsInside k b.lm.ssd.sp.blks_per_pl b → IsInside k b.lm.ssd.sp.blks_per_pl c)
      → IsWritten k a b lpn
      → IsWritten k a c lpn
  IsWritten-Quiet a b c lpn q stay w =
      let run = w.running in
      let same = q.same in
      let table = λ (j : ℕ). ap (λ (t : ℕ → Ppa). mapped_ppa (t j)) same.same_maptbl in
      record {
        running = record {
          sound = IsSoundBut-Quiet b c NoLpn NoPage q run.sound;
          inside = IsInside-same_sp k b c same.same_sp (stay run.inside);
        };
        same_sp = same.same_sp ∙ w.same_sp;
        written = table lpn ∙ w.written;
        others = λ j n. table j ∙ w.others j n;
      }

  program_wordline-IsWritten :
      (ftl : ConvFtl Q) (lpn stime : ℕ) (s s' : WriteState Q) (new : Ppa)
      → program_wordline clock stime s new ≡ some s'
      → IsWritten k ftl s.ftl lpn
      → IsWritten k ftl s'.ftl lpn
  unfolding program_wordline
  program_wordline-IsWritten ftl lpn stime s s' new h w =
      elim (if-eq-some (last_pg_in_wordline (maps s.ftl) new) _ (some s) h) [
        | inr (e, q) ↦ subst (λ (x : WriteState Q). IsWritten k ftl x.ftl lpn) (some_inj q) w
        | inl (e, q) ↦
            let ((t, f), a, b) = >>=-eq-some (advance_nand clock s.ftl _) _ q in
            subst (λ (x : WriteState Q). IsWritten k ftl x.ftl lpn) (some_inj b)
              (IsWritten-Quiet ftl s.ftl f lpn (advance_nand-Quiet clock s.ftl f _ t a)
                (advance_nand-IsInside k _ clock s.ftl f _ t a) w)
      ]

  foreground_gc-IsWritten :
      (ftl a b : ConvFtl Q) (lpn : ℕ)
      → foreground_gc ops clock a ≡ some b
      → IsWritten k ftl a lpn
      → IsWritten k ftl b lpn
  unfolding foreground_gc
  foreground_gc-IsWritten ftl a b lpn h w = elim (if-eq-some (should_gc_high a) _ (some a) h) [
    | inr (e, q) ↦ subst (λ x. IsWritten k ftl x lpn) (some_inj q) w
    | inl (e, q) ↦
        let ((had, f), e1, h1) = >>=-eq-some (do_gc ops clock a true) _ q in
        let run = w.running in
        let inside = run.inside in
        let blks = a.lm.ssd.sp.blks_per_pl in
        let done =
          do_gc-IsCollected ops clock a f true had run.sound
            (λ i lm v.
              let (there, below) =
                select_victim_line-AreInside k blks a.lm lm true i v inside.lines in
              omega (arith, below, there.ids i))
            e1 in
        let stay = do_gc-IsInside k blks clock a f true had e1 inside in
        subst (λ x. IsWritten k ftl x lpn) (some_inj h1)
          (record {
            running = record {
              sound = done.sound;
              inside = IsInside-same_sp k a f done.same_sp stay;
            };
            same_sp = done.same_sp ∙ w.same_sp;
            written = done.same_lpns lpn ∙ w.written;
            others = λ j n. done.same_lpns j ∙ w.others j n;
          })
  ]

  same_lm-IsWritten :
      (ftl a b : ConvFtl Q) (lpn : ℕ)
      → b.lm ≡ a.lm
      → b.maptbl ≡ a.maptbl
      → b.rmap ≡ a.rmap
      → b.wp ≡ a.wp
      → b.gc_wp ≡ a.gc_wp
      → IsWritten k ftl a lpn
      → IsWritten k ftl b lpn
  same_lm-IsWritten ftl a b lpn e t r u g w =
      IsWritten-Quiet ftl a b lpn (same_ssd-Quiet a b (ap (λ (l : LineState Q). l.ssd) e) t r u g)
        (λ i.
          IsInside-lines k _ a b (ap (λ (l : LineState Q). l.ssd.sp) e)
            (subst (AreInside k a.lm.ssd.sp.blks_per_pl) (sym e) i.lines) u g i)
        w

  -- A write of one LPN keeps the invariant; that LPN is mapped, and of the others the same ones.
  pub write_lpn-IsWritten :
      (stime lpn : ℕ) (s s' : WriteState Q)
      → lpn < s.ftl.lm.ssd.sp.tt_pgs
      → IsRunning k s.ftl
      → write_lpn ops clock stime s lpn ≡ some s'
      → IsWritten k s.ftl s'.ftl lpn
  unfolding write_lpn check_and_refill_write_credit consume_write_credit
  write_lpn-IsWritten stime lpn s s' range run h =
      let (f1, e1, h1) = >>=-eq-some (drop_old ops s.ftl lpn) _ h in
      let ((new, f2), e2, h2) = >>=-eq-some (place_page ops user_io f1 lpn) _ h1 in
      let placed : WriteState Q = record s { ftl = f2 } in
      let (t, e3, h3) = >>=-eq-some (program_wordline clock stime placed new) _ h2 in
      let spent = consume_write_credit t.ftl in
      let (f3, e4, h4) = >>=-eq-some (check_and_refill_write_credit ops clock spent) _ h3 in
      let w2 = replace_page-IsWritten s.ftl f1 f2 lpn new range run e1 e2 in
      let w3 = program_wordline-IsWritten s.ftl lpn stime placed t new e3 w2 in
      let w4 = same_lm-IsWritten s.ftl t.ftl spent lpn refl refl refl refl refl w3 in
      subst (λ (x : WriteState Q). IsWritten k s.ftl x.ftl lpn) (some_inj h4)
        (elim (if-eq-some (spent.write_credits == 0) _ (some spent) e4) [
          | inr (e, q) ↦ subst (λ x. IsWritten k s.ftl x lpn) (some_inj q) w4
          | inl (e, q) ↦
              let (f, e5, h5) = >>=-eq-some (foreground_gc ops clock spent) _ q in
              let w5 = foreground_gc-IsWritten s.ftl spent f lpn e5 w4 in
              subst (λ x. IsWritten k s.ftl x lpn) (some_inj h5)
                (same_lm-IsWritten s.ftl f _ lpn refl refl refl refl refl w5)
        ])
