-- ===== src/Conv/Pointer.antt =====
-- The write pointer walks over every page of a line once, in the order of wordlines, dies, channels.
use xharvest.Base.{
  lt_or_eq, not_==→≢, ℕ, suc, ◌+◌, ◌*◌, ◌%◌, ◌^◌, ◌≤◌, ◌<◌, ◌≡◌, true, false, some, refl, arith,
  ltb, ◌==◌, u32, sub32, ap, sym, ◌∙◌, lt→ltb, Bool-cases, inl, inr, ==→≡, ≢→==,
}
use native.Mathlib.Nat.{
  mul-add-mod_self_right, mod_self, mul-le-mul_right, mod-eq_of_lt, suc-mul, mul_comm,
}
use xharvest.Ssd.Nand.{Ssd}
use xharvest.Ssd.Params.Layout.{IsLayout}
use xharvest.Conv.{
  WritePointer, Advance, next_page, line_used, next_wordline, next_lun, next_ch, advance_in_line,
}

-- The pointer stands on a page of the line: wordline `w`, page `off` in it.
pub record Stands (ssd : Ssd) (wpp : WritePointer) (w off : ℕ) : Type 0 where
  pub at : wpp.pg ≡ w * ssd.sp.pgs_per_oneshotpg + off
  pub off_in : off < ssd.sp.pgs_per_oneshotpg
  pub wordline_in : w < ssd.sp.oneshotpgs_per_blk
  pub ch_in : wpp.ch < ssd.sp.nchs
  pub lun_in : wpp.lun < ssd.sp.luns_per_ch

-- How many pages of the line come before.
abbrev pub position : Ssd → WritePointer → ℕ → ℕ → ℕ
position ssd wpp w off =
    ((w * ssd.sp.luns_per_ch + wpp.lun) * ssd.sp.nchs + wpp.ch) * ssd.sp.pgs_per_oneshotpg + off

-- What a step does: the pointer stands on the page that comes next, or
-- the line was at its last page and the pointer is back at the first.
pub data Stepped (ssd : Ssd) (wpp : WritePointer) (w off : ℕ) : Advance → Type 0 where
  on :
      (wpp' : WritePointer) (w' off' : ℕ)
      → Stands ssd wpp' w' off'
      → position ssd wpp' w' off' ≡ position ssd wpp w off + 1
      → Stepped ssd wpp w off (next_page wpp')
  used :
      (wpp' : WritePointer)
      → position ssd wpp w off + 1 ≡ ssd.sp.pgs_per_line
      → wpp'.pg + wpp'.lun + wpp'.ch ≡ 0
      → Stepped ssd wpp w off (line_used wpp')

carry : (x b n : ℕ) → b + 1 ≡ n → x * n + b + 1 ≡ suc x * n
carry x b n e = omega (arith, suc-mul x n, e)

line_product : (w l c p : ℕ) → w * l * c * p ≡ l * c * (p * w)
line_product w l c p = grind arith

add_zero : (x : ℕ) → x + 0 ≡ x
add_zero x = omega arith

shape : (x c p : ℕ) → (x * c + 0) * p + 0 ≡ x * c * p
shape x c p = grind arith

-- The sizes are `int` in the code.
pub record FitsInt (ssd : Ssd) : Type 0 where
  pub blk_fits : ssd.sp.pgs_per_blk < 2 ^ 31
  pub ch_fits : ssd.sp.nchs < 2 ^ 31
  pub lun_fits : ssd.sp.luns_per_ch < 2 ^ 31

module _ (ssd : Ssd) (wpp : WritePointer) (w off : ℕ) {capacity : ℕ} (l : IsLayout capacity ssd.sp)
    (f : FitsInt ssd) (s : Stands ssd wpp w off) where
  dies : ℕ
  dies = w * ssd.sp.luns_per_ch + wpp.lun

  channels : ℕ
  channels = dies * ssd.sp.nchs + wpp.ch

  -- The last page of a one-shot page: the position that comes next.
  next_oneshot :
      off + 1 ≡ ssd.sp.pgs_per_oneshotpg
      → position ssd wpp w off + 1 ≡ suc channels * ssd.sp.pgs_per_oneshotpg
  unfolding channels dies
  next_oneshot e = carry channels off ssd.sp.pgs_per_oneshotpg e

  next_die : wpp.ch + 1 ≡ ssd.sp.nchs → suc channels ≡ suc dies * ssd.sp.nchs
  unfolding channels dies
  next_die e = omega (arith, carry dies wpp.ch ssd.sp.nchs e)

  next_row : wpp.lun + 1 ≡ ssd.sp.luns_per_ch → suc dies ≡ suc w * ssd.sp.luns_per_ch
  unfolding dies
  next_row e = omega (arith, carry w wpp.lun ssd.sp.luns_per_ch e)

  -- The wordlines up to this one fit the block, and its page numbers 31 bits.
  pub row_fits :
      (w * ssd.sp.pgs_per_oneshotpg + ssd.sp.pgs_per_oneshotpg ≤ ssd.sp.pgs_per_blk)
      × (wpp.pg < ssd.sp.pgs_per_blk)
  row_fits =
      let p = ssd.sp.pgs_per_oneshotpg in
      let up : suc w * p ≤ ssd.sp.oneshotpgs_per_blk * p = mul-le-mul_right p s.wordline_in in
      omega (
        arith,
        up,
        suc-mul w p,
        mul_comm ssd.sp.oneshotpgs_per_blk p,
        l.block_oneshot,
        s.at,
        s.off_in,
      )

  next_wordline-Stepped :
      (wpp' : WritePointer)
      → wpp'.pg ≡ w * ssd.sp.pgs_per_oneshotpg
      → off + 1 ≡ ssd.sp.pgs_per_oneshotpg
      → wpp.ch + 1 ≡ ssd.sp.nchs
      → wpp.lun + 1 ≡ ssd.sp.luns_per_ch
      → Stepped ssd wpp w off (next_wordline ssd wpp')
  unfolding next_wordline
  next_wordline-Stepped wpp' at o c r =
      let sp = ssd.sp in
      let pos : position ssd wpp w off + 1
          ≡ suc w * sp.luns_per_ch * sp.nchs * sp.pgs_per_oneshotpg =
        next_oneshot o
        ∙ ap (λ k. k * sp.pgs_per_oneshotpg) (next_die c ∙ ap (λ k. k * sp.nchs) (next_row r)) in
      let row : u32 (wpp'.pg + sp.pgs_per_oneshotpg) ≡ suc w * sp.pgs_per_oneshotpg =
        omega (arith, at, suc-mul w sp.pgs_per_oneshotpg, row_fits, f.blk_fits) in
      elim (Bool-cases (u32 (wpp'.pg + sp.pgs_per_oneshotpg) == sp.pgs_per_blk)) [
        | inl e ↦
            let full : sp.pgs_per_blk ≡ suc w * sp.pgs_per_oneshotpg = sym (==→≡ _ _ e) ∙ row in
            rw e (
              used _
                (pos
                  ∙ line_product (suc w) sp.luns_per_ch sp.nchs sp.pgs_per_oneshotpg
                  ∙ ap (λ k. sp.luns_per_ch * sp.nchs * k)
                      (mul_comm sp.pgs_per_oneshotpg (suc w) ∙ sym full)
                  ∙ sym l.line)
                refl)
        | inr e ↦
            let more : suc w < sp.oneshotpgs_per_blk =
              elim (lt_or_eq (suc w) sp.oneshotpgs_per_blk (omega (arith, s.wordline_in))) [
                | inl h ↦ h
                | inr h ↦ absurd (
                    not_==→≢ _ _ e (
                      row
                      ∙ ap (λ k. k * sp.pgs_per_oneshotpg) h
                      ∙ mul_comm sp.oneshotpgs_per_blk sp.pgs_per_oneshotpg
                      ∙ sym l.block_oneshot))
              ] in
            rw e (
              on _ (suc w) 0
                (record {
                  at = omega (arith, row);
                  off_in = omega (arith, s.off_in);
                  wordline_in = more;
                  ch_in = omega (arith, s.ch_in);
                  lun_in = omega (arith, s.lun_in);
                })
                (grind (arith, pos)))
      ]

  next_lun-Stepped :
      (wpp' : WritePointer)
      → wpp'.pg ≡ w * ssd.sp.pgs_per_oneshotpg
      → wpp'.lun ≡ wpp.lun
      → off + 1 ≡ ssd.sp.pgs_per_oneshotpg
      → wpp.ch + 1 ≡ ssd.sp.nchs
      → (r : Advance) × (next_lun ssd wpp' ≡ some r) × Stepped ssd wpp w off r
  unfolding next_lun dies
  next_lun-Stepped wpp' at m o c =
      let sp = ssd.sp in
      let inside : ltb wpp'.lun sp.luns_per_ch ≡ true = lt→ltb _ _ (omega (arith, m, s.lun_in)) in
      let pos : position ssd wpp w off + 1 ≡ suc dies * sp.nchs * sp.pgs_per_oneshotpg =
        next_oneshot o ∙ ap (λ k. k * sp.pgs_per_oneshotpg) (next_die c) in
      elim (Bool-cases (u32 (wpp'.lun + 1) == sp.luns_per_ch)) [
        | inl e ↦ (
          next_wordline ssd wpp',
          rw (inside, e) refl,
          next_wordline-Stepped wpp' at o c (omega (arith, ==→≡ _ _ e, m, s.lun_in, f.lun_fits)),
        )
        | inr e ↦ (
          next_page (record wpp' { lun = u32 (wpp'.lun + 1); ch = 0 }),
          rw (inside, e) refl,
          on _ w 0
              (record {
                at = omega (arith, at);
                off_in = omega (arith, s.off_in);
                wordline_in = s.wordline_in;
                ch_in = omega (arith, s.ch_in);
                lun_in = omega (arith, m, s.lun_in, f.lun_fits, not_==→≢ _ _ e);
              })
              (shape _ _ _
                ∙ ap (λ x. x * sp.nchs * sp.pgs_per_oneshotpg)
                    (omega (arith, m, s.lun_in, f.lun_fits))
                ∙ sym pos),
        )
      ]

  next_ch-Stepped :
      (wpp' : WritePointer)
      → wpp'.pg ≡ w * ssd.sp.pgs_per_oneshotpg
      → wpp'.lun ≡ wpp.lun
      → wpp'.ch ≡ wpp.ch
      → off + 1 ≡ ssd.sp.pgs_per_oneshotpg
      → (r : Advance) × (next_ch ssd wpp' ≡ some r) × Stepped ssd wpp w off r
  unfolding next_ch channels dies
  next_ch-Stepped wpp' at m n o =
      let sp = ssd.sp in
      let inside : ltb wpp'.ch sp.nchs ≡ true = lt→ltb _ _ (omega (arith, n, s.ch_in)) in
      elim (Bool-cases (u32 (wpp'.ch + 1) == sp.nchs)) [
        | inl e ↦
            let (r, q, t) =
              next_lun-Stepped wpp' at m o (omega (arith, ==→≡ _ _ e, n, s.ch_in, f.ch_fits)) in
            (r, rw (inside, e) q, t)
        | inr e ↦ (
          next_page (record wpp' { ch = u32 (wpp'.ch + 1) }),
          rw (inside, e) refl,
          on _ w 0
              (record {
                at = omega (arith, at);
                off_in = omega (arith, s.off_in);
                wordline_in = s.wordline_in;
                ch_in = omega (arith, n, s.ch_in, f.ch_fits, not_==→≢ _ _ e);
                lun_in = omega (arith, m, s.lun_in);
              })
              (add_zero _
                ∙ ap (λ x. x * sp.pgs_per_oneshotpg)
                    (ap (λ k. (w * sp.luns_per_ch + k) * sp.nchs + u32 (wpp'.ch + 1)) m
                      ∙ omega (arith, n, s.ch_in, f.ch_fits))
                ∙ sym (next_oneshot o)),
        )
      ]

  -- The pointer stands on a page of a line of a device with a consistent geometry whose sizes fit
  -- `int`. The assertions hold; the pointer then stands on the page that is next in the order of
  -- wordlines, dies, channels and pages, or it was at the last of the line's pages and is reset.
  pub advance_in_line-Stepped :
      (r : Advance) × (advance_in_line ssd wpp ≡ some r) × Stepped ssd wpp w off r
  unfolding advance_in_line
  advance_in_line-Stepped =
      let sp = ssd.sp in
      let p = sp.pgs_per_oneshotpg in
      let inside : ltb wpp.pg sp.pgs_per_blk ≡ true = lt→ltb _ _ (row_fits.1) in
      let some_pages : (p == 0) ≡ false = ≢→== _ _ (omega (arith, s.off_in)) in
      let page : u32 (wpp.pg + 1) ≡ w * p + (off + 1) = omega (arith, s.at, row_fits, f.blk_fits) in
      elim (lt_or_eq (off + 1) p (omega (arith, s.off_in))) [
        | inl h ↦
            let rest : (u32 (wpp.pg + 1) % p == 0) ≡ false = ≢→== _ _ λ z. omega (
              arith,
              z,
              ap (λ n. n % p) page,
              mul-add-mod_self_right w p (off + 1),
              mod-eq_of_lt h,
            ) in
            (
              next_page (record wpp { pg = u32 (wpp.pg + 1) }),
              rw (inside, some_pages, rest) refl,
              on _ w (off + 1)
                  (record {
                    at = page;
                    off_in = h;
                    wordline_in = s.wordline_in;
                    ch_in = s.ch_in;
                    lun_in = s.lun_in;
                  })
                  (omega arith),
            )
        | inr e ↦
            let value : u32 (wpp.pg + 1) % p ≡ 0 =
              ap (λ n. n % p) page
              ∙ mul-add-mod_self_right w p (off + 1)
              ∙ ap (λ n. n % p) e
              ∙ mod_self p in
            let rest : (u32 (wpp.pg + 1) % p == 0) ≡ true = rw value refl in
            let (r, q, t) =
              next_ch-Stepped (record wpp { pg = sub32 (u32 (wpp.pg + 1)) p })
                (omega (arith, page, e, row_fits, f.blk_fits)) refl refl e in
            (r, rw (inside, some_pages, rest) q, t)
      ]
