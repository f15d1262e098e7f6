-- ===== src/Conv/Mapped/Namespace.antt =====
-- NVMevirt/conv_ftl.c, conv_write: the pages of a request, over the instances of the FTL.
use xharvest.Base.{
  ℕ, zero, suc, ◌+◌, ◌*◌, ◌/◌, ◌%◌, ◌≤◌, ◌<◌, ◌≡◌, ◌≢◌, ◌⊎◌, inl, inr, Bool, true, some, ◌==◌, refl,
  arith, sym, ◌∙◌, ap, Bool-cases, some_inj, ==→≡, not_==→≢, >>=-eq-some, update, update_self,
}
use mathlib.Core.Path.{subst}
use native.Mathlib.Nat.{mod-lt, div-add-mod}
use xharvest.Ssd.Params.{SsdParams}
use xharvest.Ssd.Nand.{get_pg, get_blk, get_pl, get_lun, get_ch}
use xharvest.Conv.{mapped_ppa}
use xharvest.Conv.Ftl.{LineQueue, IsLineQueue, ConvFtl}
use xharvest.Conv.Io.{
  ConvNs, instance_of, put_instance, WriteState, WriteLoop, write_lpn, write_page, write_all,
}
use xharvest.Conv.Mapped.{NoLpn, NoPage}
use xharvest.Conv.Mapped.Steps.{Quiet, IsSoundBut-Quiet}
use xharvest.Conv.Mapped.Inside.{AreInside-same}
use xharvest.Conv.Mapped.Within.{IsInside-lines}
use xharvest.Conv.Mapped.Write.{IsRunning, write_lpn-IsWritten}

-- Page `lpn` of the namespace has been written.
unfoldable pub is_written : {Q : Type 0} → ConvNs Q → ℕ → Bool
is_written ns lpn = mapped_ppa ((ns.ftls (lpn % ns.nr_parts)).maptbl (lpn / ns.nr_parts))

-- The invariant of a namespace: that of each instance, all with the same geometry.
pub record IsServing {Q : Type 0} {ops : LineQueue Q} (k : IsLineQueue ops) (ns : ConvNs Q)
    : Type 0 where
  pub parts : (i : ℕ) → i < ns.nr_parts → IsRunning k (ns.ftls i)
  pub params : (i : ℕ) → i < ns.nr_parts → (ns.ftls i).lm.ssd.sp ≡ (ns.ftls 0).lm.ssd.sp

same_part : (a b n : ℕ) → a % n ≡ b % n → a / n ≡ b / n → a ≡ b
same_part a b n e f =
    sym (div-add-mod a n)
    ∙ ap (λ x. n * x + a % n) f
    ∙ ap (λ x. n * (b / n) + x) e
    ∙ div-add-mod b n

module _ {Q : Type 0} {ops : LineQueue Q} (k : IsLineQueue ops) where
  -- The PCIe link and the write buffer do not matter.
  instance_of-Quiet : (ns : ConvNs Q) (i : ℕ) → Quiet (ns.ftls i) (instance_of ns i)
  unfolding get_pg get_blk get_pl get_lun get_ch
  instance_of-Quiet ns i = record {
    same = record { same_sp = refl; same_pages = λ q. refl; same_maptbl = refl; same_rmap = refl };
    same_wp = refl;
    same_gc_wp = refl;
  }

  pub instance_of-IsRunning :
      (ns : ConvNs Q) (i : ℕ) → IsRunning k (ns.ftls i) → IsRunning k (instance_of ns i)
  instance_of-IsRunning ns i r =
      let ftl = ns.ftls i in
      let inside = r.inside in
      record {
        sound =
            IsSoundBut-Quiet ftl (instance_of ns i) NoLpn NoPage (instance_of-Quiet ns i) r.sound;
        inside =
            IsInside-lines k _ ftl (instance_of ns i) refl
              (AreInside-same k _ ftl.lm (instance_of ns i).lm refl (λ j. refl) inside.lines) refl
              refl inside;
      }

  pub put_instance-IsServing :
      (ns : ConvNs Q) (i : ℕ) (ftl : ConvFtl Q)
      → i < ns.nr_parts
      → ftl.lm.ssd.sp ≡ (ns.ftls i).lm.ssd.sp
      → IsRunning k ftl
      → IsServing k ns
      → IsServing k (put_instance ns i ftl)
  put_instance-IsServing ns i ftl below e r s =
      let geometry : (j : ℕ) → (update ns.ftls i ftl j).lm.ssd.sp ≡ (ns.ftls j).lm.ssd.sp = λ j.
        elim (Bool-cases (j == i)) [
          | inl f ↦ rw f (e ∙ ap (λ x. (ns.ftls x).lm.ssd.sp) (sym (==→≡ j i f)))
          | inr f ↦ rw f refl
        ] in
      record {
        parts = λ j h. elim (Bool-cases (j == i)) [ inl f ↦ rw f r | inr f ↦ rw f (s.parts j h) ];
        params = λ j h. geometry j ∙ s.params j h ∙ sym (geometry 0);
      }

  -- From `a` on, LPN `lpn` has been written and no other.
  record IsPageWritten (ns ns' : ConvNs Q) (lpn : ℕ) : Type 0 where
    serving : IsServing k ns'
    same_parts : ns'.nr_parts ≡ ns.nr_parts
    same_params : (ns'.ftls 0).lm.ssd.sp ≡ (ns.ftls 0).lm.ssd.sp
    written : is_written ns' lpn ≡ true
    others : (j : ℕ) → j ≢ lpn → is_written ns' j ≡ is_written ns j

  write_page-IsPageWritten :
      (clock : ℕ → ℕ → ℕ → ℕ) (stime lpn : ℕ) (w w' : WriteLoop Q)
      → 0 < w.ns.nr_parts
      → lpn / w.ns.nr_parts < (w.ns.ftls 0).lm.ssd.sp.tt_pgs
      → IsServing k w.ns
      → write_page ops clock stime w lpn ≡ some w'
      → IsPageWritten w.ns w'.ns lpn
  unfolding write_page is_written
  write_page-IsPageWritten clock stime lpn w w' some_parts range s h =
      let ns = w.ns in
      let n = ns.nr_parts in
      let i = lpn % n in
      let here : WriteState Q = record {
        ftl = instance_of ns i;
        nsecs_latest = w.nsecs_latest;
        releases = w.releases;
      } in
      let below : i < n = mod-lt lpn some_parts in
      let (t, e, h1) = >>=-eq-some (write_lpn ops (clock i) stime here (lpn / n)) _ h in
      let in_range =
        subst (λ (sp : SsdParams). lpn / n < sp.tt_pgs) (sym (s.params i below)) range in
      let done =
        write_lpn-IsWritten k (clock i) stime (lpn / n) here t in_range
          (instance_of-IsRunning ns i (s.parts i below)) e in
      let ns' = put_instance ns i t.ftl in
      let others : (j : ℕ) → j ≢ lpn → is_written ns' j ≡ is_written ns j = λ j apart.
        elim (Bool-cases (j % n == i)) [
          | inr f ↦ rw f refl
          | inl f ↦
              let row = ==→≡ (j % n) i f in
              rw f (
                done.others (j / n) (λ z. apart (same_part j lpn n row z))
                ∙ ap (λ x. mapped_ppa ((ns.ftls x).maptbl (j / n))) (sym row))
        ] in
      subst (λ (x : WriteLoop Q). IsPageWritten ns x.ns lpn) (some_inj h1)
        (record {
          serving = put_instance-IsServing ns i t.ftl below done.same_sp done.running s;
          same_parts = refl;
          same_params = elim (Bool-cases (0 == i)) [
            | inl f ↦ rw f (done.same_sp ∙ ap (λ x. (ns.ftls x).lm.ssd.sp) (sym (==→≡ 0 i f)))
            | inr f ↦ rw f refl
          ];
          written =
              ap (λ (f : ConvFtl Q). mapped_ppa (f.maptbl (lpn / n))) (update_self ns.ftls i t.ftl)
              ∙ done.written;
          others = others;
        })

  -- The `n` pages from `lpn` on have been written, and no other.
  pub record ArePagesWritten (ns ns' : ConvNs Q) (lpn n : ℕ) : Type 0 where
    pub serving : IsServing k ns'
    pub same_parts : ns'.nr_parts ≡ ns.nr_parts
    pub written : (j : ℕ) → lpn ≤ j → j < lpn + n → is_written ns' j ≡ true
    pub others : (j : ℕ) → (j < lpn) ⊎ (lpn + n ≤ j) → is_written ns' j ≡ is_written ns j

  pub write_all-ArePagesWritten :
      (clock : ℕ → ℕ → ℕ → ℕ) (stime n lpn : ℕ) (w w' : WriteLoop Q)
      → 0 < w.ns.nr_parts
      → ((j : ℕ) → lpn ≤ j → j < lpn + n → j / w.ns.nr_parts < (w.ns.ftls 0).lm.ssd.sp.tt_pgs)
      → IsServing k w.ns
      → write_all ops clock stime n lpn w ≡ some w'
      → ArePagesWritten w.ns w'.ns lpn n
  unfolding write_all
  write_all-ArePagesWritten clock stime zero lpn w w' some_parts range s h =
      subst (λ (x : WriteLoop Q). ArePagesWritten w.ns x.ns lpn 0) (some_inj h)
        (record {
          serving = s;
          same_parts = refl;
          written = λ j a b. absurd (omega (arith, a, b));
          others = λ j a. refl;
        })
  write_all-ArePagesWritten clock stime (suc n) lpn w w' some_parts range s h =
      let (t, e, h1) = >>=-eq-some (write_page ops clock stime w lpn) _ h in
      let one =
        write_page-IsPageWritten clock stime lpn w t some_parts
          (range lpn (omega arith) (omega arith)) s e in
      let rest =
        write_all-ArePagesWritten clock stime n (lpn + 1) t w'
          (subst (λ x. 0 < x) (sym one.same_parts) some_parts)
          (λ j a b.
            subst (λ x. j / x < (t.ns.ftls 0).lm.ssd.sp.tt_pgs) (sym one.same_parts)
              (subst (λ (sp : SsdParams). j / w.ns.nr_parts < sp.tt_pgs) (sym one.same_params)
                (range j (omega (arith, a)) (omega (arith, b)))))
          one.serving h1 in
      record {
        serving = rest.serving;
        same_parts = rest.same_parts ∙ one.same_parts;
        written = λ j a b. elim (Bool-cases (j == lpn)) [
          | inl f ↦
              let z = ==→≡ j lpn f in
              rest.others j (inl (omega (arith, z)))
              ∙ subst (λ x. is_written t.ns x ≡ true) (sym z) one.written
          | inr f ↦
              let z = not_==→≢ j lpn f in rest.written j (omega (arith, a, z)) (omega (arith, b))
        ];
        others = λ j a.
            rest.others j
              (elim a [ inl x ↦ inl (omega (arith, x)) | inr x ↦ inr (omega (arith, x)) ])
            ∙ one.others j (λ z. elim a [
              | inl x ↦ absurd (omega (arith, x, z))
              | inr x ↦ absurd (omega (arith, x, z))
            ]);
      }
