-- ===== src/Conv/Mapped/Flash.antt =====
-- NVMevirt/conv_ftl.c, clean_one_flashpg: the pages of a flash page move.
use xharvest.Base.{
  ℕ, zero, suc, ◌+◌, ◌*◌, ◌^◌, ◌≤◌, ◌≡◌, ◌≢◌, ◌⊎◌, inl, inr, Bool, true, false, some, ltb, leb,
  ◌==◌, if◌then◌else◌, ◌&&◌, refl, arith, sym, ◌∙◌, ap, Bool-cases, some_inj, if-eq-some,
  >>=-eq-some, ==→≡,
}
use mathlib.Core.Path.{subst}
use xharvest.Ssd.Nand.{Ppa, PageStatus, pg_free, pg_valid, Ssd, get_pg, same_blk, same_pg}
use xharvest.Ssd.Timing.{nand_read}
use xharvest.Conv.Index.{IsPage}
use xharvest.Conv.Lines.{is_valid, is_free}
use xharvest.Conv.Lines.Pages.{excluded, is_valid-eq}
use xharvest.Conv.Ftl.{LineQueue, ConvFtl}
use xharvest.Conv.Gc.{
  gc_command, gc_write_page, next_pg, count_valid, move_valid, clean_one_flashpg,
}
use xharvest.Conv.Mapped.{NoLpn, get_pg-same_pg, IsPage-same_sp}
use xharvest.Conv.Mapped.Collect.{
  gc_command-Quiet, IsCollecting, IsCollecting-Quiet, IsCollecting-trans, IsCollecting-same,
  IsCollecting-moved, With, add_invalid, gc_write_page-IsCollecting,
}
use xharvest.Conv.Mapped.Steps.{IsSoundBut}

-- The `n` pages from `p` on.
abbrev pub in_range : Ppa → ℕ → Ppa → Bool
in_range p n q = same_blk p q && leb p.pg q.pg && ltb q.pg (p.pg + n)

abbrev pub WithRange : (Ppa → Type 0) → Ppa → ℕ → Ppa → Type 0
WithRange M p n q = M q ⊎ (in_range p n q ≡ true)

-- The range is its first page and the range from the next.
range_first : (p : Ppa) (n : ℕ) → p.pg + suc n ≤ 2 ^ 16 → in_range p (suc n) p ≡ true
range_first p n h = ground arith

range_next :
    (p q : Ppa) (n : ℕ)
    → p.pg + suc n ≤ 2 ^ 16
    → in_range (next_pg p) n q ≡ true
    → in_range p (suc n) q ≡ true
range_next p q zero h e = ground arith
range_next p q (suc n) h e = ground arith

range_apart :
    (p q : Ppa) (n : ℕ)
    → p.pg + suc n ≤ 2 ^ 16
    → in_range (next_pg p) n q ≡ true
    → same_pg p q ≡ false
range_apart p q zero h e = ground arith
range_apart p q (suc n) h e = ground arith

range_split :
    (p q : Ppa) (n : ℕ)
    → p.pg + suc n ≤ 2 ^ 16
    → in_range p (suc n) q ≡ true
    → (same_pg p q ≡ true) ⊎ (in_range (next_pg p) n q ≡ true)
range_split p q zero h e = inl (ground arith)
range_split p q (suc n) h e = elim (Bool-cases (same_pg p q)) [
  | inl f ↦ inl f
  | inr f ↦ inr (ground arith)
]

range_same :
    (p q : Ppa) (n : ℕ) → p.pg + suc n ≤ 2 ^ 16 → same_pg p q ≡ true → in_range p (suc n) q ≡ true
range_same p q n h e = ground arith

not_valid : {st : PageStatus} → is_valid st ≡ false → st ≢ pg_valid
not_valid v z = let w : false ≡ true = sym v ∙ ap is_valid z in cc

range_empty : (p q : Ppa) → in_range p 0 q ≢ true
range_empty p q e = ground arith

module _ {Q : Type 0} (ops : LineQueue Q) (clock : ℕ → ℕ → ℕ) where
  -- The first page of the range, whatever its status is.
  move_one-IsCollecting :
      (ftl ftl' : ConvFtl Q) (M : Ppa → Type 0) (p : Ppa)
      → IsSoundBut ftl NoLpn M
      → IsPage ftl.lm.ssd p
      → get_pg ftl.lm.ssd p ≢ pg_free
      → ¬ M p
      → (if is_valid (get_pg ftl.lm.ssd p) then gc_write_page ops clock ftl p else some ftl)
        ≡ some ftl'
      → IsCollecting ftl ftl' (With M p)
  move_one-IsCollecting ftl ftl' M p s page u fresh h =
      elim (if-eq-some (is_valid (get_pg ftl.lm.ssd p)) (gc_write_page ops clock ftl p) _ h) [
        | inl (v, e) ↦
            gc_write_page-IsCollecting ops clock ftl ftl' M p s page (is_valid-eq _ v) fresh e
        | inr (v, e) ↦
            subst (λ f. IsCollecting ftl f (With M p)) (some_inj e)
              (IsCollecting-same ftl (With M p) (
                add_invalid ftl M (λ q. same_pg p q ≡ true) s
                  (λ q x z. u (sym (get_pg-same_pg ftl.lm.ssd p q x) ∙ z))
                  (λ q x z. not_valid v (sym (get_pg-same_pg ftl.lm.ssd p q x) ∙ z))))
      ]

  move_valid-IsCollecting :
      (n : ℕ) (ftl ftl' : ConvFtl Q) (M : Ppa → Type 0) (p : Ppa)
      → IsSoundBut ftl NoLpn M
      → p.pg + n ≤ 2 ^ 16
      → ((q : Ppa) → in_range p n q ≡ true → IsPage ftl.lm.ssd q)
      → ((q : Ppa) → in_range p n q ≡ true → get_pg ftl.lm.ssd q ≢ pg_free)
      → ((q : Ppa) → in_range p n q ≡ true → ¬ M q)
      → move_valid ops clock n ftl p ≡ some ftl'
      → IsCollecting ftl ftl' (WithRange M p n)
  unfolding move_valid
  move_valid-IsCollecting zero ftl ftl' M p s fits inside used fresh h =
      subst (λ f. IsCollecting ftl f (WithRange M p 0)) (some_inj h)
        (IsCollecting-moved ftl ftl M (WithRange M p 0) (λ q i x. inl x)
          (λ q i x. elim x [ inl y ↦ y | inr e ↦ absurd (range_empty p q e) ])
          (IsCollecting-same ftl M s))
  move_valid-IsCollecting (suc n) ftl ftl' M p s fits inside used fresh h =
      let (f, e, h1) =
        >>=-eq-some
          (if is_valid (get_pg ftl.lm.ssd p) then gc_write_page ops clock ftl p else some ftl) _
          h in
      let here = range_first p n fits in
      let one = move_one-IsCollecting ftl f M p s (inside p here) (used p here) (fresh p here) e in
      let rest =
        move_valid-IsCollecting n f ftl' (With M p) (next_pg p) one.sound (omega (arith, fits))
          (λ q x.
            IsPage-same_sp ftl.lm.ssd f.lm.ssd q one.same_sp (inside q (range_next p q n fits x)))
          (λ q x z. let u = used q (range_next p q n fits x) in u (sym (one.used_kept q u) ∙ z))
          (λ q x y. elim y [
            | inl z ↦ fresh q (range_next p q n fits x) z
            | inr z ↦ cc (range_apart p q n fits x)
          ])
          h1 in
      IsCollecting-moved ftl ftl' (WithRange (With M p) (next_pg p) n) (WithRange M p (suc n))
        (λ q i x. elim x [
          | inl (inl y) ↦ inl y
          | inl (inr y) ↦ inr (range_same p q n fits y)
          | inr y ↦ inr (range_next p q n fits y)
        ])
        (λ q i x. elim x [
          | inl y ↦ inl (inl y)
          | inr y ↦ elim (range_split p q n fits y) [ inl z ↦ inl (inr z) | inr z ↦ inr z ]
        ])
        (IsCollecting-trans ftl f ftl' (With M p) (WithRange (With M p) (next_pg p) n) one rest)

none_free :
    (ssd : Ssd) (n : ℕ) (p : Ppa) (c : ℕ)
    → p.pg + n ≤ 2 ^ 16
    → count_valid ssd n p ≡ some c
    → (q : Ppa) → in_range p n q ≡ true
    → get_pg ssd q ≢ pg_free
unfolding count_valid
none_free ssd zero p c fits h q x z = absurd (range_empty p q x)
none_free ssd (suc n) p c fits h q x z =
    let (e, h1) = excluded (is_free (get_pg ssd p)) _ h in
    let (c', h2, h3) = >>=-eq-some (count_valid ssd n (next_pg p)) _ h1 in
    elim (range_split p q n fits x) [
      | inl y ↦ let w : false ≡ true = sym e ∙ ap is_free (sym (get_pg-same_pg ssd p q y) ∙ z) in cc
      | inr y ↦ none_free ssd n (next_pg p) c' (omega (arith, fits)) h2 q y z
    ]

none_valid :
    (ssd : Ssd) (n : ℕ) (p : Ppa)
    → p.pg + n ≤ 2 ^ 16
    → count_valid ssd n p ≡ some 0
    → (q : Ppa) → in_range p n q ≡ true
    → get_pg ssd q ≢ pg_valid
unfolding count_valid
none_valid ssd zero p fits h q x z = absurd (range_empty p q x)
none_valid ssd (suc n) p fits h q x z =
    let (e, h1) = excluded (is_free (get_pg ssd p)) _ h in
    let (c', h2, h3) = >>=-eq-some (count_valid ssd n (next_pg p)) _ h1 in
    elim (Bool-cases (is_valid (get_pg ssd p))) [
      | inl v ↦
          let same = some_inj h3 in
          let w : suc c' ≡ 0 = sym (rw v refl) ∙ same in absurd (omega (arith, w))
      | inr v ↦
          let same = some_inj h3 in
          let w : c' ≡ 0 = sym (rw v refl) ∙ same in
          elim (range_split p q n fits x) [
            | inl y ↦ not_valid v (sym (get_pg-same_pg ssd p q y) ∙ z)
            | inr y ↦ none_valid ssd n (next_pg p) (omega (arith, fits)) (h2 ∙ ap some w) q y z
          ]
    ]

-- A flash page of used pages that were not moved yet: afterwards no LPN is mapped to it.
pub clean_one_flashpg-IsCollecting :
    {Q : Type 0} (ops : LineQueue Q) (clock : ℕ → ℕ → ℕ) (ftl ftl' : ConvFtl Q) (M : Ppa → Type 0)
    (p : Ppa)
    → IsSoundBut ftl NoLpn M
    → p.pg + ftl.lm.ssd.sp.pgs_per_flashpg ≤ 2 ^ 16
    → ((q : Ppa) → in_range p ftl.lm.ssd.sp.pgs_per_flashpg q ≡ true → IsPage ftl.lm.ssd q)
    → ((q : Ppa) → in_range p ftl.lm.ssd.sp.pgs_per_flashpg q ≡ true → ¬ M q)
    → clean_one_flashpg ops clock ftl p ≡ some ftl'
    → IsCollecting ftl ftl' (WithRange M p ftl.lm.ssd.sp.pgs_per_flashpg)
unfolding clean_one_flashpg
clean_one_flashpg-IsCollecting ops clock ftl ftl' M p s fits inside fresh h =
    let spp = ftl.lm.ssd.sp in
    let n = spp.pgs_per_flashpg in
    let (cnt, e, h1) = >>=-eq-some (count_valid ftl.lm.ssd n p) _ h in
    let used = none_free ftl.lm.ssd n p cnt fits e in
    elim (if-eq-some (cnt == 0) (some ftl) _ h1) [
      | inl (z, q) ↦
          let nothing = none_valid ftl.lm.ssd n p fits (e ∙ ap some (==→≡ cnt 0 z)) in
          subst (λ f. IsCollecting ftl f (WithRange M p n)) (some_inj q)
            (IsCollecting-same ftl (WithRange M p n)
              (add_invalid ftl M (λ x. in_range p n x ≡ true) s used nothing))
      | inr (z, q) ↦
          let (f, e2, h2) = >>=-eq-some (gc_command clock ftl nand_read (spp.pgsz * cnt) p) _ q in
          let quiet = gc_command-Quiet clock ftl f nand_read (spp.pgsz * cnt) p e2 in
          let same = quiet.same in
          let read = IsCollecting-Quiet ftl ftl f M (IsCollecting-same ftl M s) quiet in
          IsCollecting-trans ftl f ftl' M (WithRange M p n) read (
            move_valid-IsCollecting ops clock n f ftl' M p read.sound fits
              (λ x r. IsPage-same_sp ftl.lm.ssd f.lm.ssd x same.same_sp (inside x r))
              (λ x r w. used x r (sym (same.same_pages x) ∙ w)) fresh h2)
    ]
