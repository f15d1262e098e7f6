-- ===== src/Conv/Mapped/Unchanged.antt =====
-- NVMevirt/conv_ftl.c, conv_read: a read writes no page.
use xharvest.Base.{
  ℕ, zero, suc, ◌+◌, ◌-◌, ◌/◌, ◌%◌, ◌<◌, ◌≡◌, inl, inr, some, ltb, leb, ◌==◌, ◌&&◌, ◌||◌, not, refl,
  sym, ◌∙◌, ap, Bool-cases, some_inj, if-eq-some, ==→≡, >>=-eq-some, u32,
}
use mathlib.Core.Path.{subst}
use native.Mathlib.Nat.{mod-lt}
use xharvest.Ssd.Nand.{Ppa}
use xharvest.Conv.{mapped_ppa, valid_ppa, get_maptbl_ent}
use xharvest.Conv.Ftl.{LineQueue, IsLineQueue, ConvFtl, maps, advance_nand}
use xharvest.Conv.Io.{
  ConvNs, instance_of, put_instance, ReadState, issue_read, read_lpn, read_lpns, read_part,
  read_parts, is_same_flash_page,
}
use xharvest.Conv.Mapped.{NoLpn, NoPage}
use xharvest.Conv.Mapped.Steps.{
  Quiet, Quiet-refl, Quiet-trans, IsSoundBut-Quiet, advance_nand-Quiet,
}
use xharvest.Conv.Mapped.Within.{IsInside, advance_nand-IsInside}
use xharvest.Conv.Mapped.Write.{IsRunning, IsInside-same_sp}
use xharvest.Conv.Mapped.Namespace.{
  is_written, IsServing, instance_of-IsRunning, put_instance-IsServing,
}

module _ {Q : Type 0} {ops : LineQueue Q} (k : IsLineQueue ops) where
  -- Nothing changes but times.
  pub record IsKept (a b : ConvFtl Q) : Type 0 where
    pub quiet : Quiet a b
    pub stays : (blks : ℕ) → IsInside k blks a → IsInside k blks b

  IsKept-refl : (a : ConvFtl Q) → IsKept a a
  IsKept-refl a = record { quiet = Quiet-refl a; stays = λ n i. i }

  IsRunning-IsKept : (a b : ConvFtl Q) → IsKept a b → IsRunning k a → IsRunning k b
  IsRunning-IsKept a b e r =
      let q = e.quiet in
      let same = q.same in
      record {
        sound = IsSoundBut-Quiet a b NoLpn NoPage q r.sound;
        inside = IsInside-same_sp k a b same.same_sp (e.stays a.lm.ssd.sp.blks_per_pl r.inside);
      }

  pub record IsUnchanged (ns ns' : ConvNs Q) : Type 0 where
    pub serving : IsServing k ns'
    pub same_parts : ns'.nr_parts ≡ ns.nr_parts
    pub same_params : (ns'.ftls 0).lm.ssd.sp ≡ (ns.ftls 0).lm.ssd.sp
    pub same_written : (j : ℕ) → is_written ns' j ≡ is_written ns j

  pub put_instance-IsUnchanged :
      (ns : ConvNs Q) (i : ℕ) (ftl : ConvFtl Q)
      → i < ns.nr_parts
      → IsKept (instance_of ns i) ftl
      → IsServing k ns
      → IsUnchanged ns (put_instance ns i ftl)
  unfolding is_written
  put_instance-IsUnchanged ns i ftl below e s =
      let q = e.quiet in
      let same = q.same in
      record {
        serving =
            put_instance-IsServing k ns i ftl below same.same_sp
              (IsRunning-IsKept (instance_of ns i) ftl e
                (instance_of-IsRunning k ns i (s.parts i below)))
              s;
        same_parts = refl;
        same_params = elim (Bool-cases (0 == i)) [
          | inl f ↦ rw f (same.same_sp ∙ ap (λ x. (ns.ftls x).lm.ssd.sp) (sym (==→≡ 0 i f)))
          | inr f ↦ rw f refl
        ];
        same_written = λ j. elim (Bool-cases (j % ns.nr_parts == i)) [
          | inl f ↦ rw f (
              ap (λ (t : ℕ → Ppa). mapped_ppa (t (j / ns.nr_parts))) same.same_maptbl
              ∙ ap (λ x. mapped_ppa ((ns.ftls x).maptbl (j / ns.nr_parts)))
                  (sym (==→≡ (j % ns.nr_parts) i f)))
          | inr f ↦ rw f refl
        ];
      }

  pub IsUnchanged-refl : (ns : ConvNs Q) → IsServing k ns → IsUnchanged ns ns
  IsUnchanged-refl ns s = record {
    serving = s;
    same_parts = refl;
    same_params = refl;
    same_written = λ j. refl;
  }

  issue_read-IsKept :
      (clock : ℕ → ℕ → ℕ) (stime : ℕ) (a : ConvFtl Q) (s s' : ReadState Q)
      → issue_read clock stime s ≡ some s'
      → IsKept a s.ftl
      → IsKept a s'.ftl
  unfolding issue_read
  issue_read-IsKept clock stime a s s' h e = elim (if-eq-some (ltb 0 s.xfer_size) _ (some s) h) [
    | inr (b, q) ↦ subst (λ (x : ReadState Q). IsKept a x.ftl) (some_inj q) e
    | inl (b, q) ↦
        let ((t, f), c, d) = >>=-eq-some (advance_nand clock s.ftl _) _ q in
        subst (λ (x : ReadState Q). IsKept a x.ftl) (some_inj d)
          (record {
            quiet = Quiet-trans a s.ftl f e.quiet (advance_nand-Quiet clock s.ftl f _ t c);
            stays = λ n i. advance_nand-IsInside k n clock s.ftl f _ t c (e.stays n i);
          })
  ]

  read_lpn-IsKept :
      (clock : ℕ → ℕ → ℕ) (stime lpn : ℕ) (a : ConvFtl Q) (s s' : ReadState Q)
      → read_lpn clock stime s lpn ≡ some s'
      → IsKept a s.ftl
      → IsKept a s'.ftl
  unfolding read_lpn
  read_lpn-IsKept clock stime lpn a s s' h e =
      let spp = s.ftl.lm.ssd.sp in
      let cur = get_maptbl_ent (maps s.ftl) lpn in
      let Kept = λ (x : ReadState Q). IsKept a x.ftl in
      elim (if-eq-some (not (mapped_ppa cur) || not (valid_ppa (maps s.ftl) cur)) (some s) _ h) [
        | inl (b, q) ↦ subst Kept (some_inj q) e
        | inr (b, h1) ↦
            elim (if-eq-some (mapped_ppa s.prev_ppa && is_same_flash_page spp cur s.prev_ppa)
              (some (record s { xfer_size = u32 (s.xfer_size + spp.pgsz) })) _ h1) [
                | inl (c, q) ↦ subst Kept (some_inj q) e
                | inr (c, q) ↦
                    let (t, d, r) = >>=-eq-some (issue_read clock stime s) _ q in
                    subst Kept (some_inj r) (issue_read-IsKept clock stime a s t d e)
              ]
      ]

  read_lpns-IsKept :
      (clock : ℕ → ℕ → ℕ) (stime n lpn : ℕ) (a : ConvFtl Q) (s s' : ReadState Q)
      → read_lpns clock stime n lpn s ≡ some s'
      → IsKept a s.ftl
      → IsKept a s'.ftl
  unfolding read_lpns
  read_lpns-IsKept clock stime zero lpn a s s' h e =
      subst (λ (x : ReadState Q). IsKept a x.ftl) (some_inj h) e
  read_lpns-IsKept clock stime (suc n) lpn a s s' h e =
      let (t, d, h1) = >>=-eq-some (read_lpn clock stime s lpn) _ h in
      read_lpns-IsKept clock stime n (lpn + 1) a t s' h1 (read_lpn-IsKept clock stime lpn a s t d e)

  read_part-IsUnchanged :
      (clock : ℕ → ℕ → ℕ → ℕ) (stime start end latest latest' : ℕ) (ns ns' : ConvNs Q)
      → 0 < ns.nr_parts
      → IsServing k ns
      → read_part clock stime start end (ns, latest) ≡ some (ns', latest')
      → IsUnchanged ns ns'
  unfolding read_part
  read_part-IsUnchanged clock stime start end latest latest' ns ns' some_parts s h =
      let n = ns.nr_parts in
      let i = start % n in
      let ftl = instance_of ns i in
      let first = start / n in
      let begin : ReadState Q = record {
        ftl = ftl;
        prev_ppa = get_maptbl_ent (maps ftl) first;
        xfer_size = 0;
        nsecs_latest = latest;
      } in
      let (t, e, h1) =
        >>=-eq-some (read_lpns (clock i) stime ((end - start) / n + 1) first begin) _ h in
      let (u, f, h2) = >>=-eq-some (issue_read (clock i) stime t) _ h1 in
      let kept = issue_read-IsKept (clock i) stime ftl t u f (
        read_lpns-IsKept (clock i) stime ((end - start) / n + 1) first ftl begin t e
          (IsKept-refl ftl)) in
      subst (λ (x : ConvNs Q × ℕ). IsUnchanged ns x.0) (some_inj h2)
        (put_instance-IsUnchanged ns i u.ftl (mod-lt start some_parts) kept s)

  pub read_parts-IsUnchanged :
      (clock : ℕ → ℕ → ℕ → ℕ) (stime n start end latest latest' : ℕ) (ns ns' : ConvNs Q)
      → 0 < ns.nr_parts
      → IsServing k ns
      → read_parts clock stime n start end (ns, latest) ≡ some (ns', latest')
      → IsUnchanged ns ns'
  unfolding read_parts
  read_parts-IsUnchanged clock stime zero start end latest latest' ns ns' some_parts s h =
      subst (λ (x : ConvNs Q × ℕ). IsUnchanged ns x.0) (some_inj h) (IsUnchanged-refl ns s)
  read_parts-IsUnchanged clock stime (suc n) start end latest latest' ns ns' some_parts s h =
      elim (if-eq-some (leb start end) _ (some (ns, latest)) h) [
        | inr (b, q) ↦
            subst (λ (x : ConvNs Q × ℕ). IsUnchanged ns x.0) (some_inj q) (IsUnchanged-refl ns s)
        | inl (b, q) ↦
            let ((t, l), e, h1) = >>=-eq-some (read_part clock stime start end (ns, latest)) _ q in
            let one = read_part-IsUnchanged clock stime start end latest l ns t some_parts s e in
            let rest =
              read_parts-IsUnchanged clock stime n (start + 1) end l latest' t ns'
                (subst (λ x. 0 < x) (sym one.same_parts) some_parts) one.serving h1 in
            record {
              serving = rest.serving;
              same_parts = rest.same_parts ∙ one.same_parts;
              same_params = rest.same_params ∙ one.same_params;
              same_written = λ j. rest.same_written j ∙ one.same_written j;
            }
      ]
