-- ===== src/Conv/Mapped/Inside.antt =====
-- NVMevirt/conv_ftl.c: every line that the FTL handles is a line of the device.
use xharvest.Base.{
  ℕ, ◌+◌, ◌-◌, ◌/◌, ◌<◌, ◌≡◌, inl, inr, Bool, true, none, some, ltb, ◌==◌, ◌&&◌, ◌||◌, not, refl,
  arith, sym, ◌∙◌, ap, Bool-cases, some_inj, if-eq-some, none≢some, >>=-eq-some, ==→≡, update,
}
use mathlib.Core.Path.{subst}
use xharvest.Ssd.Nand.{Ppa, get_pg, get_blk, set_pg, set_blk, pg_invalid}
use xharvest.Conv.Lines.{
  Line, LineState, is_free, is_valid, set_line, mark_page_valid, mark_page_invalid, lower_vpc,
  full_to_victim, mark_block_free, mark_line_free, get_next_free_line,
}
use xharvest.Conv.Lines.Pages.{asserted, excluded}
use xharvest.Conv.Ftl.{LineQueue, IsLineQueue, retire_line}
use xharvest.Conv.Gc.{select_victim_line}

module _ {Q : Type 0} {ops : LineQueue Q} (k : IsLineQueue ops) (blks : ℕ) where
  -- The lines' numbers are their indices, and the victims are among the first `blks`.
  pub record AreInside (lm : LineState Q) : Type 0 where
    pub ids : (j : ℕ) → (lm.lines j).id ≡ j
    pub victims : (j : ℕ) → k.contents lm.victim_line_pq j ≡ true → j < blks

  -- The same queue, and lines with the same numbers.
  pub AreInside-same :
      (lm lm' : LineState Q)
      → lm'.victim_line_pq ≡ lm.victim_line_pq
      → ((j : ℕ) → (lm'.lines j).id ≡ (lm.lines j).id)
      → AreInside lm
      → AreInside lm'
  AreInside-same lm lm' e f a = record {
    ids = λ j. f j ∙ a.ids j;
    victims = λ j v. a.victims j (ap (λ q. k.contents q j) (sym e) ∙ v);
  }

  set_line-ids :
      (s : LineState Q) (i : ℕ) (line : Line)
      → line.id ≡ (s.lines i).id
      → (j : ℕ) → ((set_line s i line).lines j).id ≡ (s.lines j).id
  set_line-ids s i line e j = elim (Bool-cases (j == i)) [
    | inl f ↦ rw f (e ∙ ap (λ x. let l = s.lines x in l.id) (sym (==→≡ j i f)))
    | inr f ↦ rw f refl
  ]

  pub mark_page_valid-AreInside :
      (s s' : LineState Q) (p : Ppa) → mark_page_valid s p ≡ some s' → AreInside s → AreInside s'
  unfolding mark_page_valid
  mark_page_valid-AreInside s s' p h a =
      let (f, h1) = asserted (is_free (get_pg s.ssd p)) _ h in
      let (g, h2) = asserted (ltb _ s.ssd.sp.pgs_per_blk) _ h1 in
      let (b, h3) = asserted (ltb (s.lines p.blk).vpc s.ssd.sp.pgs_per_line) _ h2 in
      let line = s.lines p.blk in
      subst AreInside (some_inj h3)
        (AreInside-same s _ refl (set_line-ids s p.blk (record line { vpc = line.vpc + 1 }) refl) a)

  lower_vpc-AreInside :
      (s : LineState Q) (i : ℕ) → AreInside s → AreInside (lower_vpc ops.victims s i)
  unfolding lower_vpc
  lower_vpc-AreInside s i a =
      let line = s.lines i in
      elim (Bool-cases (line.pos == 0)) [
        | inl e ↦ rw e (
            AreInside-same s (set_line s i (record line { vpc = line.vpc - 1 })) refl
              (set_line-ids s i (record line { vpc = line.vpc - 1 }) refl) a)
        | inr e ↦ rw e (record {
          ids = λ j. k.change_id _ _ _ _ j ∙ a.ids j;
          victims = λ j v. a.victims j (k.change_in _ _ _ _ j v);
        })
      ]

  full_to_victim-AreInside :
      (s : LineState Q) (i : ℕ)
      → i < blks
      → AreInside s
      → AreInside (full_to_victim ops.victims s i)
  unfolding full_to_victim
  full_to_victim-AreInside s i below a = record {
    ids = λ j. k.insert_id _ _ _ j ∙ a.ids j;
    victims = λ j v. elim (k.insert_in _ _ _ j v) [
      | inl w ↦ a.victims j w
      | inr e ↦ omega (arith, e, below)
    ];
  }

  pub retire_line-AreInside :
      (s s' : LineState Q) (i : ℕ)
      → i < blks
      → retire_line ops s i ≡ some s'
      → AreInside s
      → AreInside s'
  unfolding retire_line
  retire_line-AreInside s s' i below h a =
      let line = s.lines i in
      elim (if-eq-some (line.vpc == s.ssd.sp.pgs_per_line) _ _ h) [
        | inl (e, h1) ↦ elim (if-eq-some (line.ipc == 0) _ none h1) [
          | inl (f, q) ↦ subst AreInside (some_inj q) (AreInside-same s _ refl (λ j. refl) a)
          | inr (f, q) ↦ absurd (none≢some q)
        ]
        | inr (e, h1) ↦
            elim (if-eq-some (ltb line.vpc s.ssd.sp.pgs_per_line && ltb 0 line.ipc) _ none h1) [
              | inr (f, q) ↦ absurd (none≢some q)
              | inl (f, q) ↦ subst AreInside (some_inj q) (record {
                ids = λ j. k.insert_id _ _ _ j ∙ a.ids j;
                victims = λ j v. elim (k.insert_in _ _ _ j v) [
                  | inl w ↦ a.victims j w
                  | inr z ↦ omega (arith, z, below)
                ];
              })
            ]
      ]

  pub get_next_free_line-AreInside :
      (s s' : LineState Q) (i : ℕ)
      → get_next_free_line s ≡ some (i, s')
      → AreInside s
      → AreInside s'
  unfolding get_next_free_line
  get_next_free_line-AreInside s s' i h a =
      let (lines, pq) : (s'.lines ≡ s.lines) × (s'.victim_line_pq ≡ s.victim_line_pq) =
        (ground arith, ground arith) in
      AreInside-same s s' pq (λ j. ap (λ (f : ℕ → Line). let l = f j in l.id) lines) a

  pub select_victim_line-AreInside :
      (s s' : LineState Q) (force : Bool) (i : ℕ)
      → select_victim_line ops s force ≡ some (i, s')
      → AreInside s
      → AreInside s' × (i < blks)
  unfolding select_victim_line
  select_victim_line-AreInside s s' force i h a =
      let (v, e, h1) = >>=-eq-some (ops.peek s.victim_line_pq) _ h in
      elim (if-eq-some (not force && ltb (s.ssd.sp.pgs_per_line / 8) (s.lines v).vpc) none _ h1) [
        | inl (b, q) ↦ absurd (none≢some q)
        | inr (b, q) ↦
            let popped = ops.pop s.victim_line_pq s.lines in
            let line = popped.1 v in
            let ids : (j : ℕ)
                → (let l = update popped.1 v (record line { pos = 0 }) j in l.id) ≡ j =
              λ j. elim (Bool-cases (j == v)) [
                | inl f ↦ rw f (k.pop_id _ _ v ∙ a.ids v ∙ sym (==→≡ j v f))
                | inr f ↦ rw f (k.pop_id _ _ j ∙ a.ids j)
              ] in
            subst (λ (x : ℕ × LineState Q). AreInside x.1 × (x.0 < blks)) (some_inj q)
              (
                record { ids = ids; victims = λ j w. a.victims j (k.pop_in _ _ j w) },
                a.victims v (k.peek_in s.victim_line_pq v e),
              )
      ]

  pub mark_page_invalid-AreInside :
      (s s' : LineState Q) (p : Ppa)
      → p.blk < blks
      → mark_page_invalid ops.victims s p ≡ some s'
      → AreInside s
      → AreInside s'
  unfolding mark_page_invalid
  mark_page_invalid-AreInside s s' p below h a =
      let spp = s.ssd.sp in
      let line = s.lines p.blk in
      let full = line.vpc == spp.pgs_per_line in
      let b = get_blk (set_pg s.ssd p pg_invalid) p in
      let ssd2 =
        set_blk (set_pg s.ssd p pg_invalid) p (record b { ipc = b.ipc + 1; vpc = b.vpc - 1 }) in
      let line' = record line { ipc = line.ipc + 1 } in
      let s1 = set_line (record s { ssd = ssd2 }) p.blk line' in
      let (v, h1) = asserted (is_valid (get_pg s.ssd p)) _ h in
      let (c, h2) =
        excluded (not (ltb b.ipc spp.pgs_per_blk) || b.vpc == 0 || ltb spp.pgs_per_blk b.vpc) _
          h1 in
      let (d, h3) =
        excluded (not (ltb line.ipc spp.pgs_per_line) || full && not (line.ipc == 0)) _ h2 in
      let (e, h4) = excluded (line.vpc == 0 || ltb spp.pgs_per_line line.vpc) _ h3 in
      let a1 = AreInside-same s s1 refl (set_line-ids s p.blk line' refl) a in
      let a2 = lower_vpc-AreInside s1 p.blk a1 in
      subst AreInside (some_inj h4) (elim (Bool-cases full) [
        | inl f ↦ rw f (full_to_victim-AreInside (lower_vpc ops.victims s1 p.blk) p.blk below a2)
        | inr f ↦ rw f a2
      ])

  pub mark_block_free-AreInside :
      (s s' : LineState Q) (p : Ppa) → mark_block_free s p ≡ some s' → AreInside s → AreInside s'
  unfolding mark_block_free
  mark_block_free-AreInside s s' p h a =
      let b = get_blk s.ssd p in
      elim (if-eq-some (b.npgs == s.ssd.sp.pgs_per_blk) _ none h) [
        | inl (e, q) ↦ subst AreInside (some_inj q) (AreInside-same s _ refl (λ j. refl) a)
        | inr (e, q) ↦ absurd (none≢some q)
      ]

  pub mark_line_free-AreInside :
      (s : LineState Q) (p : Ppa) → AreInside s → AreInside (mark_line_free s p)
  unfolding mark_line_free
  mark_line_free-AreInside s p a =
      let line = s.lines p.blk in
      AreInside-same s _ refl (set_line-ids s p.blk (record line { ipc = 0; vpc = 0 }) refl) a
